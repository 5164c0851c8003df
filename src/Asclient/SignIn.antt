-- ===== src/Asclient/SignIn.antt =====
-- asclient/oidc.go: a sign-in with an ID token. The token library and the fetch of the server's keys
-- are arguments; a time is the nanoseconds since the zero `time.Time`, and an age is not negative.
pub mod Checks
use go_authbyte.Base.{
  ℕ, zero, suc, ◌+◌, ◌-◌, ◌*◌, ◌/◌, min, max, String, refl, sym, ap, subst, inl, inr, Bool, true,
  false, not, ◌&&◌, ◌||◌, Option, none, some, List, [], ◌∷◌, ◌++◌, map, append-nil, append_assoc,
  arith, ltb, leb, nat_eq, if◌then◌else◌, ltb→lt, lt→ltb, leb→le, le→leb, nat_eq_iff, Bool-cases,
  Option-cases, length, take, drop, get_elem?, replicate, all, any, length-append, take-append-drop,
  All, All-append, Comparable, ◌==◌, ==_iff, ==_refl, Bytes, codes, bytes_eq, bytes_eq_iff,
  ℕ_comparable, Bytes_comparable, Result, ok, err, ◌>>=◌, bind-ok, ok_or, ok_inj, reverse,
  reverse_aux,
}
use go_authbyte.Base.Integers.{ℤ}
use go_authbyte.Base.Texts.{is_empty, is_in}
use go_authbyte.Claims.{fields}
use go_authbyte.Authclient.Tokens.{Form, optional}
use go_authbyte.Authclient.Calls.{Resource}
use go_authbyte.Apikeys.Encoding.Decimal.{format}
use go_authbyte.Asclient.{
  Client, Libraries, CallError, Wire, authorize_query, exchange_code, revoke,
}
use go_authbyte.Jwks

abbrev second : ℕ
second = 1000000000

abbrev pub clock_skew : ℕ
clock_skew = 30 * second

-- The request of a sign-in: the age is in nanoseconds.
pub record AuthorizationRequest : Type 0 where
  pub code_challenge : Bytes
  pub state : Bytes
  pub nonce : Bytes
  pub acr_values : Bytes
  pub prompt : Bytes
  pub max_age : Option ℕ

-- The parameters of the address are sorted by their names where they are encoded.
abbrev max_age_part : Option ℕ → Form → Form
max_age_part none q = q
max_age_part (some age) q = (codes "max_age", format (age / second)) ∷ q

unfoldable pub authorization_url : Libraries → Client → AuthorizationRequest → Bytes
unfolding authorize_query format
authorization_url l c r =
    c.public_url
    ++ (codes "/authorize?"
        ++ l.encode_form (
            authorize_query c r.code_challenge r.state r.acr_values
            ++ (codes "scope", codes "openid")
              ∷ (codes "nonce", r.nonce)
              ∷ optional (codes "prompt") r.prompt (max_age_part r.max_age [])))

pub data SignInError : Type 0 where
  -- ErrIssuer
  wrong_issuer : SignInError
  -- ErrIDToken
  unproved : SignInError
  exchange_failed : CallError → SignInError

-- `CheckIssuer`; `none` is nil.
unfoldable pub check_issuer : Client → Bytes → Option SignInError
check_issuer c iss =
    if is_empty c.issuer
    then some wrong_issuer
    else if not (iss == c.issuer)
    then some wrong_issuer
    else none

pub record IdTokenCheck : Type 0 where
  pub nonce : Bytes
  pub max_age : Option ℕ
  pub started : ℕ
  pub acr_values : Bytes

pub record IdTokenClaims : Type 0 where
  pub audience : List Bytes
  pub subject : Bytes
  pub issued_at : Option ℕ
  pub nonce : Bytes
  pub auth_time : Option ℕ
  pub acr : Bytes
  pub amr : List Bytes
  pub sid : Bytes

pub record IdToken : Type 0 where
  pub subject : Bytes
  pub auth_time : ℕ
  pub acr : Bytes
  pub amr : List Bytes
  pub session_id : Bytes

pub record Parser : Type 0 where
  pub issuer : Bytes
  pub audience : Bytes
  pub leeway : ℕ

-- `header` reads the key's identifier of a token signed by ES256; `verified` checks the signature, the
-- issuer, the audience and the times at the clock's time.
pub record TokenLibrary (K : Type 0) : Type 0 where
  pub header : Bytes → Option Bytes
  pub verified : Parser → Bytes → K → ℕ → Option IdTokenClaims

-- The readings of the clock and the issuer's answer while a token is checked.
pub record Reading (K : Type 0) : Type 0 where
  pub key_first : ℕ
  pub key_now : ℕ
  pub key_done : ℕ
  pub key_last : ℕ
  pub reply : Jwks.Reply K
  pub token_at : ℕ
  pub now : ℕ

abbrev pub time_or_zero : Option ℕ → ℕ
time_or_zero none = 0
time_or_zero (some at) = at

abbrev pub single : List Bytes → Bool
single [] = false
single (a ∷ []) = true
single (a ∷ b ∷ auds) = false

abbrev pub is_set : Option ℕ → Bool
is_set none = false
is_set (some at) = true

-- The moment the sign-in began, and the age asked of it.
abbrev pub begun : IdTokenCheck → ℕ → ℕ
begun check now = if nat_eq check.started 0 then now else check.started

abbrev pub too_old : IdTokenCheck → ℕ → ℕ → Bool
too_old check now at = elim check.max_age [
  | none ↦ false
  | some age ↦ nat_eq at 0 || ltb at (begun check now - (age + clock_skew))
]

abbrev pub id_of : IdTokenClaims → IdToken
id_of cl = record {
  subject = cl.subject;
  auth_time = time_or_zero cl.auth_time;
  acr = cl.acr;
  amr = cl.amr;
  session_id = cl.sid;
}

-- The checks behind the parser.
unfoldable pub check_claims : IdTokenCheck → ℕ → IdTokenClaims → Result SignInError IdToken
unfolding fields
check_claims check now cl =
    if not (single cl.audience)
    then err unproved
    else if is_empty cl.subject || not (is_set cl.issued_at)
    then err unproved
    else if not (is_empty check.acr_values) && not (is_in (fields check.acr_values) cl.acr)
    then err unproved
    else if is_empty cl.nonce || not (cl.nonce == check.nonce)
    then err unproved
    else if too_old check now (time_or_zero cl.auth_time)
    then err unproved
    else ok (id_of cl)

abbrev pub or_unproved : Option IdTokenClaims → Result SignInError IdTokenClaims
or_unproved none = err unproved
or_unproved (some cl) = ok cl

abbrev pub parser : Client → Parser
parser c = record { issuer = c.issuer; audience = c.client_id; leeway = clock_skew }

module _ {K : Type 0} (t : TokenLibrary K) (c : Client) (x : Reading K) where
  abbrev pub with_key :
      Bytes
      → Jwks.Client K × Result Jwks.KeyError K
      → Jwks.Client K × Result SignInError IdTokenClaims
  with_key raw (keys, err e) = (keys, err unproved)
  with_key raw (keys, ok k) = (keys, or_unproved (t.verified (parser c) raw k x.token_at))

  abbrev pub with_header :
      Jwks.Client K → Bytes → Option Bytes → Jwks.Client K × Result SignInError IdTokenClaims
  with_header keys raw none = (keys, err unproved)
  with_header keys raw (some kid) =
      with_key raw (Jwks.key keys x.key_first x.key_now x.key_done x.key_last x.reply kid)

  abbrev pub checked :
      IdTokenCheck
      → Jwks.Client K × Result SignInError IdTokenClaims
      → Jwks.Client K × Result SignInError IdToken
  checked check (keys, r) = (keys, r >>= check_claims check x.now)

  unfoldable pub check_id_token :
      Jwks.Client K → Bytes → IdTokenCheck → Jwks.Client K × Result SignInError IdToken
  unfolding check_claims Jwks.key
  check_id_token keys [] check = (keys, err unproved)
  check_id_token keys (b ∷ raw) check =
      checked check (with_header keys (b ∷ raw) (t.header (b ∷ raw)))

-- The answer of the token endpoint, below what a login captured.
pub record Tokens : Type 0 where
  pub access_token : Bytes
  pub token_type : Bytes
  pub expires_in : ℤ
  pub refresh_token : Bytes
  pub id_token : Bytes

pub record Session (K T : Type 0) : Type 0 where
  pub keys : Jwks.Client K
  pub wire : Wire T

module _ {K T : Type 0} (t : TokenLibrary K) (w : Resource T) (l : Libraries)
    (decode : Bytes → Option Tokens) (c : Client) (x : Reading K) where
  -- `if t.RefreshToken != "" { _ = c.Revoke(ctx, key, t.RefreshToken) }`
  abbrev pub revoked : Wire T → Bytes → Wire T
  revoked v refresh_token = if is_empty refresh_token then v else (revoke w l c v refresh_token).0

  abbrev pub proved_by :
      Wire T
      → Tokens
      → Jwks.Client K × Result SignInError IdToken
      → Session K T × Result SignInError (Tokens × IdToken)
  proved_by v tokens (keys, err e) =
      (record { keys = keys; wire = revoked v tokens.refresh_token }, err e)
  proved_by v tokens (keys, ok id) = (record { keys = keys; wire = v }, ok (tokens, id))

  abbrev pub exchanged :
      Jwks.Client K
      → IdTokenCheck
      → Wire T × Result CallError Tokens
      → Session K T × Result SignInError (Tokens × IdToken)
  exchanged keys check (v, err e) = (record { keys = keys; wire = v }, err (exchange_failed e))
  exchanged keys check (v, ok tokens) =
      proved_by v tokens (check_id_token t c x keys tokens.id_token check)

  unfoldable pub exchange_sign_in :
      Session K T
      → Bytes
      → Bytes
      → IdTokenCheck
      → Session K T × Result SignInError (Tokens × IdToken)
  unfolding exchange_code revoke check_id_token
  exchange_sign_in s code verifier check =
      if is_empty c.issuer
      then (s, err unproved)
      else if is_empty check.nonce
      then (s, err unproved)
      else exchanged s.keys check (exchange_code w l c decode s.wire code verifier)
