-- ===== src/Nonce.antt =====
-- nonce/nonce.go: the nonces that a server issues. HMAC-SHA-256 under the issuer's key is an
-- argument; a time is the nanoseconds since the Unix epoch, and is not before it.
pub mod RoundTrip
mod Tests
use go_authbyte.Base.{
  ℕ, zero, suc, ◌+◌, ◌-◌, ◌*◌, ◌/◌, ◌%◌, ◌^◌, min, max, String, refl, sym, ap, subst, inl, inr,
  Bool, true, false, not, ◌&&◌, Option, none, some, List, [], ◌∷◌, ◌++◌, map, append-nil,
  append_assoc, arith, ltb, leb, nat_eq, ltb→lt, lt→ltb, leb→le, le→leb, nat_eq_iff, Bool-cases,
  Option-cases, length, take, drop, get_elem?, replicate, all, any, length-append, take-append-drop,
  All, All-append, Comparable, ◌==◌, ==_iff, ==_refl, Bytes, codes, bytes_eq, bytes_eq_iff,
  ℕ_comparable, Bytes_comparable, Result, ok, err, bind-ok, ok_or, ok_inj, reverse, reverse_aux,
}
use go_authbyte.Apikeys.Encoding.Base64.{url_safe, encode}
use go_authbyte.Apikeys.Encoding.UrlSafe.{url_decode}

abbrev pub second : ℕ
second = 1000000000

-- `mac` is the issuer's method of that name.
pub record Issuer : Type 0 where
  pub mac : Bytes → Bytes
  pub ttl : ℕ

-- `New` with the random key that it reads, and the MAC of a key.
unfoldable pub new : (Bytes → Bytes → Bytes) → Option Bytes → ℕ → Option Issuer
new hmac none ttl = none
new hmac (some key) ttl = some (record { mac = hmac key; ttl = ttl })

-- `PutUint64` in big-endian order.
unfoldable pub put_uint64 : ℕ → Bytes
put_uint64 n =
    n / 2 ^ 56 % 256
    ∷ n / 2 ^ 48 % 256
    ∷ n / 2 ^ 40 % 256
    ∷ n / 2 ^ 32 % 256
    ∷ n / 2 ^ 24 % 256
    ∷ n / 2 ^ 16 % 256
    ∷ n / 2 ^ 8 % 256
    ∷ n % 256
    ∷ []

abbrev pub big_endian : ℕ → Bytes → ℕ
big_endian n [] = n
big_endian n (b ∷ s) = big_endian (n * 256 + b) s

unfoldable pub issue : Issuer → ℕ → Bytes
unfolding put_uint64 encode
issue i now =
    let payload = put_uint64 (now / second % 2 ^ 64) in encode url_safe (payload ++ i.mac payload)

-- The MAC and the age of a decoded nonce of the right length. A time from the future is not old; a
-- number of seconds that `int64` makes negative is older than any duration.
unfoldable pub check_raw : Issuer → ℕ → ℕ → Bytes → Bool
check_raw i leeway now raw =
    nat_eq (length raw) 40
    && (drop 8 raw == i.mac (take 8 raw)
        && (ltb (big_endian 0 (take 8 raw)) (2 ^ 63)
            && leb (now - big_endian 0 (take 8 raw) * second) (i.ttl + leeway)))

abbrev pub check_decoded : Issuer → ℕ → ℕ → Option Bytes → Bool
check_decoded i leeway now none = false
check_decoded i leeway now (some raw) = check_raw i leeway now raw

-- `Verify`; false is ErrInvalid.
unfoldable pub verify : Issuer → Bytes → ℕ → ℕ → Bool
unfolding url_decode check_raw
verify i [] leeway now = false
verify i (c ∷ nonce) leeway now = check_decoded i leeway now (url_decode (c ∷ nonce))
