-- ===== src/Asclient/Labels.antt =====
-- asclient/token.go and asclient/pkce.go: what a token that was just issued is labelled by, and the
-- secrets of a sign-in. The reading of a token, SHA-256 and the random bytes are arguments.
use go_authbyte.Base.{
  ◌&&◌, Option, none, some, [], ◌++◌, if◌then◌else◌, Bytes, codes, ℕ_comparable, Bytes_comparable,
}
use go_authbyte.Base.Texts.{is_empty}
use go_authbyte.Claims.{Claims}
use go_authbyte.IdentityCode.{key}
use go_authbyte.Apikeys.Encoding.Base64.{url_safe, encode}

unfoldable pub subject_from_token : (Bytes → Option Claims) → Bytes → Bytes
subject_from_token read token = elim (read token) [ none ↦ [] | some c ↦ c.subject ]

abbrev serial_of : Option Claims → Bytes
serial_of none = []
serial_of (some c) = if is_empty c.serial_number then [] else key c.serial_number

unfoldable pub serial_from_token : (Bytes → Option Claims) → Bytes → Bytes
unfolding key
serial_from_token read token = serial_of (read token)

abbrev binding_of : Option Claims → Bytes
binding_of none = []
binding_of (some c) =
    if is_empty c.login_method && is_empty c.loa
    then []
    else codes "lm:" ++ (c.login_method ++ (codes "|loa:" ++ c.loa))

unfoldable pub login_binding_from_token : (Bytes → Option Claims) → Bytes → Bytes
login_binding_from_token read token = binding_of (read token)

-- `randomToken` over the bytes that are read.
unfoldable pub random_token : Option Bytes → Option Bytes
unfolding encode
random_token none = none
random_token (some b) = some (encode url_safe b)

abbrev challenged : (Bytes → Bytes) → Option Bytes → Option (Bytes × Bytes)
challenged sha256 none = none
challenged sha256 (some verifier) = some (verifier, encode url_safe (sha256 verifier))

-- `PKCE`, with the 48 bytes that are read
unfoldable pub pkce : (Bytes → Bytes) → Option Bytes → Option (Bytes × Bytes)
unfolding random_token encode
pkce sha256 random = challenged sha256 (random_token random)
