-- ===== src/Authclient/Inbound.antt =====
-- authclient/client.go, authclient/middleware.go and authclient/errors.go: the checks of a request.
-- The token library, the fetch of the keys and a redis server are arguments; each reading of the
-- clock is given.
mod Checks
mod Accepts
mod Refusals
mod Replays
mod Tests
use go_authbyte.Base.{
  ℕ, zero, suc, min, max, String, refl, sym, ap, subst, inl, inr, Bool, true, false, not, ◌||◌,
  Option, none, some, List, [], ◌∷◌, ◌++◌, map, append-nil, append_assoc, arith, ltb, leb, nat_eq,
  if◌then◌else◌, ltb→lt, lt→ltb, leb→le, le→leb, nat_eq_iff, Bool-cases, Option-cases, length, take,
  drop, get_elem?, replicate, all, any, length-append, take-append-drop, All, All-append,
  Comparable, ◌==◌, ==_iff, ==_refl, Bytes, codes, bytes_eq, bytes_eq_iff, ℕ_comparable,
  Bytes_comparable, Result, ok, err, ◌>>=◌, bind-ok, ok_or, ok_inj, reverse, reverse_aux,
}
use go_authbyte.Base.Texts.{trim_slash, is_empty, to_lower, is_in, cut}
use go_authbyte.IdentityCode.Chars.{trim_space}
use go_authbyte.Claims.{Claims, thumbprint, UserClaims, to_user_claims}
use go_authbyte.Dpop.{Libraries, VerifyOptions, Proved, missing_nonce}
use go_authbyte.Nonce.{Issuer, issue}
use go_authbyte.Replay.{Memory, new_memory, check_and_set, Redis, new_redis, redis_check_and_set}
use go_authbyte.Jwks
use go_authbyte.Dpop
use go_authbyte.Nonce

-- What of the configuration the checks read.
pub record Configuration : Type 0 where
  pub issuer_url : Bytes
  pub jwks_url : Bytes
  pub jwks_cache_ttl : ℕ
  pub service_audience : Bytes
  pub also_accepted_audiences : List Bytes
  pub dpop_proof_max_age : ℕ
  pub token_clock_skew_leeway : ℕ
  pub dpop_replay_backend : Bytes
  pub redis_url : Bytes
  pub dpop_nonce_enabled : Bool
  pub dpop_nonce_ttl : ℕ
  pub require_dpop : Bool

pub data Store (R : Type 0) : Type 0 where
  memory : Memory → Store R
  redis : Redis R → Store R

-- What of a `Client` the checks use; the issuer of nonces is a pointer.
pub record Gate (K R : Type 0) : Type 0 where
  pub jwks : Jwks.Client K
  pub replay : Store R
  pub nonce : Option Issuer

pub data NewError : Type 0 where
  invalid_redis_url unknown_backend no_nonce_key no_dpop_key no_thumbprint : NewError

abbrev redis_of : {R : Type 0} → Option (Bytes → ℕ → ℕ → R) → Result NewError (Store R)
redis_of none = err invalid_redis_url
redis_of (some client) = ok (redis (new_redis client))

-- `newReplayStore`; `connect` makes a client of a URL, if it is one.
unfoldable pub new_replay_store :
    {R : Type 0}
    → Configuration
    → (Bytes → Option (Bytes → ℕ → ℕ → R))
    → Option (Bytes → ℕ → ℕ → R)
    → Result NewError (Store R)
unfolding new_redis new_memory
new_replay_store cfg connect client =
    if cfg.dpop_replay_backend == codes "redis"
    then elim client [ none ↦ redis_of (connect cfg.redis_url) | some c ↦ ok (redis (new_redis c)) ]
    else if cfg.dpop_replay_backend == codes "memory" || is_empty cfg.dpop_replay_backend
    then ok (memory new_memory)
    else err unknown_backend

-- `dpopKey` and its thumbprint, where they can be made.
abbrev own_key : {Key : Type 0} → Option (Key × Option Bytes) → Result NewError (Key × Bytes)
own_key none = err no_dpop_key
own_key (some (key, none)) = err no_thumbprint
own_key (some (key, some jkt)) = ok (key, jkt)

abbrev new_nonce :
    (Bytes → Bytes → Bytes) → Option Bytes → Configuration → Result NewError (Option Issuer)
new_nonce hmac random cfg =
    if cfg.dpop_nonce_enabled
    then elim (Nonce.new hmac random cfg.dpop_nonce_ttl) [
      | none ↦ err no_nonce_key
      | some i ↦ ok (some i)
    ]
    else ok none

-- What `New` makes beside the gate: its own key, the key's thumbprint, and the addresses of the
-- issuer's keys and tokens.
pub record Identity (Key : Type 0) : Type 0 where
  pub dpop_key : Key
  pub jkt : Bytes
  pub jwks_url : Bytes
  pub token_url : Bytes

-- `New`, with the random bytes of the nonce's key and the key generated.
unfoldable pub new :
    {K R Key : Type 0}
    → Configuration
    → (Bytes → Option (Bytes → ℕ → ℕ → R))
    → Option (Bytes → ℕ → ℕ → R)
    → (Bytes → Bytes → Bytes)
    → Option Bytes
    → Option (Key × Option Bytes)
    → Result NewError (Gate K R × Identity Key)
unfolding new_replay_store Nonce.new Jwks.new
new cfg connect client hmac random generated = new_replay_store cfg connect client >>= λ store.
    new_nonce hmac random cfg >>= λ issuer. own_key generated >>= λ k. ok (
      record { jwks = Jwks.new cfg.jwks_cache_ttl []; replay = store; nonce = issuer },
      record {
        dpop_key = k.0;
        jkt = k.1;
        jwks_url =
            if is_empty cfg.jwks_url
            then trim_slash cfg.issuer_url ++ codes "/.well-known/jwks.json"
            else cfg.jwks_url;
        token_url = trim_slash cfg.issuer_url ++ codes "/token";
      },
    )

-- What the checks read of a request.
pub record Request : Type 0 where
  pub authorization : Bytes
  pub dpop : Bytes
  pub forwarded_proto : Bytes
  pub forwarded_host : Bytes
  pub method : Bytes
  pub host : Bytes
  pub path : Bytes
  pub is_tls : Bool

-- The text before the first comma.
abbrev before_comma : Bytes → Bytes
before_comma v = elim (cut b',' v) [ none ↦ v | some (first, rest) ↦ first ]

unfoldable pub first_forwarded_value : Bytes → Bytes
unfolding cut trim_space
first_forwarded_value v = if is_empty v then [] else trim_space (before_comma v)

-- `if v != "" { value = v }`
abbrev or_else : Bytes → Bytes → Bytes
or_else value [] = value
or_else value (c ∷ v) = c ∷ v

unfoldable pub request_url : Request → Bytes
unfolding first_forwarded_value
request_url r =
    or_else (if r.is_tls then codes "https" else codes "http")
      (first_forwarded_value r.forwarded_proto)
    ++ (codes "://" ++ (or_else r.host (first_forwarded_value r.forwarded_host) ++ r.path))

-- What stands behind a scheme that is known; any other header is taken as it is.
abbrev behind_scheme : Bytes → Option (Bytes × Bytes) → Bytes
behind_scheme header none = header
behind_scheme header (some (scheme, tok)) =
    if is_in (codes "dpop" ∷ codes "bearer" ∷ []) (map to_lower scheme)
    then trim_space tok
    else header

unfoldable pub bearer_token : Bytes → Bytes
unfolding cut trim_space to_lower
bearer_token header = behind_scheme (trim_space header) (cut b' ' (trim_space header))
