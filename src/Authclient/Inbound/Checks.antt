-- ===== src/Authclient/Inbound/Checks.antt =====
-- authclient/client.go and authclient/middleware.go: the validation of a request and its answer.
use go_authbyte.Base.{
  ℕ, ◌+◌, Bool, true, false, not, Option, none, some, List, [], ◌∷◌, if◌then◌else◌, ◌==◌, Bytes,
  codes, ℕ_comparable, Bytes_comparable, Result, ok, err,
}
use go_authbyte.Base.Texts.{is_empty}
use go_authbyte.Claims.{Claims, thumbprint, UserClaims, to_user_claims}
use go_authbyte.Dpop.{Libraries, VerifyOptions, Proved, missing_nonce}
use go_authbyte.Nonce.{Issuer, issue}
use go_authbyte.Replay.{check_and_set, redis_check_and_set}
use go_authbyte.Authclient.Inbound.{
  Configuration, Store, memory, redis, Gate, Request, request_url, bearer_token,
}
use go_authbyte.Jwks
use go_authbyte.Dpop
use go_authbyte.Nonce

-- What the parser of tokens is set to, beside the method ES256 and an expiry that must be there.
pub record Parser : Type 0 where
  pub issuer : Bytes
  pub audiences : List Bytes
  pub leeway : ℕ

-- `header` reads the key's identifier from a token of the accepted method, empty where there is
-- none; `verified` checks the signature, the issuer, the audience and the times at the clock's time.
pub record TokenLibrary (K : Type 0) : Type 0 where
  pub header : Bytes → Option Bytes
  pub verified : Parser → Bytes → K → ℕ → Option Claims

-- The readings of the clock and the answers of other services while a request is checked.
pub record Reading (K R : Type 0) : Type 0 where
  pub key_first : ℕ
  pub key_now : ℕ
  pub key_done : ℕ
  pub key_last : ℕ
  pub reply : Jwks.Reply K
  pub token_at : ℕ
  pub proof_at : ℕ
  pub nonce_at : ℕ
  pub replay_at : ℕ
  pub challenge_at : ℕ
  pub set_nx : R → Option Bool

-- What a caller is told: a plain 401, one that names the proof, or that the service failed.
pub data Public : Type 0 where
  unauthorized invalid_dpop : Public

-- What the service logs of a refusal.
pub data Reason : Type 0 where
  no_token token_rejected not_constrained other_key already_seen : Reason
  proof_failed : Dpop.Error → Reason

pub data GateError : Type 0 where
  refused : Public → Reason → GateError
  store_failed : GateError
  -- a call through the nil issuer
  panicked : GateError

pub data AuthResult : Type 0 where
  user : UserClaims → AuthResult
  need_nonce : Bytes → AuthResult

abbrev not_empty : List Bytes → List Bytes
not_empty [] = []
not_empty ([] ∷ auds) = not_empty auds
not_empty ((c ∷ aud) ∷ auds) = (c ∷ aud) ∷ not_empty auds

unfoldable pub audiences : Configuration → List Bytes
audiences cfg = cfg.service_audience ∷ not_empty cfg.also_accepted_audiences

abbrev pub parser : Configuration → Parser
parser cfg = record {
  issuer = cfg.issuer_url;
  audiences = audiences cfg;
  leeway = cfg.token_clock_skew_leeway;
}

abbrev pub accepted_claims : Option Claims → Result GateError Claims
accepted_claims none = err (refused unauthorized token_rejected)
accepted_claims (some c) = ok c

-- The options that a request's proof is verified by.
abbrev pub proof_options : Configuration → Request → Bytes → VerifyOptions
proof_options cfg r tok = record {
  method = r.method;
  url = request_url r;
  access_token = tok;
  max_age = cfg.dpop_proof_max_age;
  leeway = cfg.token_clock_skew_leeway;
  require_nonce = cfg.dpop_nonce_enabled;
}

unfoldable pub challenge : Option Issuer → ℕ → Result GateError AuthResult
unfolding issue
challenge none now = err panicked
challenge (some i) now = ok (need_nonce (issue i now))

-- `CheckAndSet` of either store; `none` is an error.
unfoldable pub check_store :
    {R : Type 0} → (R → Option Bool) → Store R → Bytes → ℕ → ℕ → Store R × Option Bool
unfolding check_and_set redis_check_and_set
check_store set_nx (memory m) jti ttl now =
    let (n, first) = check_and_set m jti ttl now in (memory n, some first)
check_store set_nx (redis s) jti ttl now = (redis s, set_nx (redis_check_and_set s jti ttl))

-- Whether the nonce issuer accepts a nonce; `none` is the nil issuer.
abbrev pub nonce_holds : Option Issuer → Bytes → ℕ → ℕ → Option Bool
nonce_holds none nonce leeway now = none
nonce_holds (some i) nonce leeway now = some (Nonce.verify i nonce leeway now)

-- Whether an error of the proof is answered by a challenge.
abbrev pub recoverable : Configuration → Dpop.Error → Bool
recoverable cfg missing_nonce = cfg.dpop_nonce_enabled
recoverable cfg e = false

module _ {K R : Type 0} where
  abbrev pub with_key :
      TokenLibrary K
      → Configuration
      → Reading K R
      → Bytes
      → Jwks.Client K × Result Jwks.KeyError K
      → Jwks.Client K × Result GateError Claims
  with_key t cfg x tok (c, err e) = (c, err (refused unauthorized token_rejected))
  with_key t cfg x tok (c, ok k) = (c, accepted_claims (t.verified (parser cfg) tok k x.token_at))

  abbrev pub with_header :
      TokenLibrary K
      → Configuration
      → Reading K R
      → Jwks.Client K
      → Bytes
      → Option Bytes
      → Jwks.Client K × Result GateError Claims
  with_header t cfg x c tok none = (c, err (refused unauthorized token_rejected))
  with_header t cfg x c tok (some kid) =
      with_key t cfg x tok (Jwks.key c x.key_first x.key_now x.key_done x.key_last x.reply kid)

  unfoldable pub parse_token :
      TokenLibrary K
      → Configuration
      → Reading K R
      → Jwks.Client K
      → Bytes
      → Jwks.Client K × Result GateError Claims
  unfolding audiences Jwks.key
  parse_token t cfg x c [] = (c, err (refused unauthorized no_token))
  parse_token t cfg x c (b ∷ tok) = with_header t cfg x c (b ∷ tok) (t.header (b ∷ tok))

  abbrev pub seen :
      Gate K R → Claims → Store R × Option Bool → Gate K R × Result GateError AuthResult
  seen g cl (s, none) = (record g { replay = s }, err store_failed)
  seen g cl (s, some false) = (record g { replay = s }, err (refused invalid_dpop already_seen))
  seen g cl (s, some true) = (record g { replay = s }, ok (user (to_user_claims cl)))

  abbrev pub or_challenge :
      Gate K R
      → ℕ
      → Gate K R × Result GateError AuthResult
      → Option Bool
      → Gate K R × Result GateError AuthResult
  or_challenge g now next none = (g, err panicked)
  or_challenge g now next (some false) = (g, challenge g.nonce now)
  or_challenge g now next (some true) = next

  -- The checks behind the proof's own: the key, the nonce and the replay.
  unfoldable pub check_proved :
      Configuration
      → Reading K R
      → Gate K R
      → Claims
      → Proved
      → Gate K R × Result GateError AuthResult
  unfolding challenge check_store thumbprint to_user_claims Nonce.verify
  check_proved cfg x g cl p =
      let recorded = seen g cl (
        check_store x.set_nx g.replay p.jti (cfg.dpop_proof_max_age + cfg.token_clock_skew_leeway)
          x.replay_at) in
      if not (p.thumbprint == thumbprint cl)
      then (g, err (refused invalid_dpop other_key))
      else if cfg.dpop_nonce_enabled
      then or_challenge g x.challenge_at recorded
          (nonce_holds g.nonce p.nonce cfg.token_clock_skew_leeway x.nonce_at)
      else recorded

  abbrev pub with_proof :
      Configuration
      → Reading K R
      → Gate K R
      → Claims
      → Result Dpop.Error Proved
      → Gate K R × Result GateError AuthResult
  with_proof cfg x g cl (err e) =
      if recoverable cfg e
      then (g, challenge g.nonce x.challenge_at)
      else (g, err (refused invalid_dpop (proof_failed e)))
  with_proof cfg x g cl (ok p) = check_proved cfg x g cl p

  abbrev pub with_claims :
      Libraries
      → Configuration
      → Reading K R
      → Request
      → Bytes
      → Gate K R
      → Result GateError Claims
      → Gate K R × Result GateError AuthResult
  with_claims w cfg x r tok g (err e) = (g, err e)
  with_claims w cfg x r tok g (ok cl) =
      if is_empty (thumbprint cl)
      then (if cfg.require_dpop
          then (g, err (refused invalid_dpop not_constrained))
          else (g, ok (user (to_user_claims cl))))
      else with_proof cfg x g cl (Dpop.verify w (proof_options cfg r tok) x.proof_at r.dpop)

  unfoldable pub validate :
      TokenLibrary K
      → Libraries
      → Configuration
      → Reading K R
      → Gate K R
      → Request
      → Bytes
      → Gate K R × Result GateError AuthResult
  unfolding parse_token check_proved challenge request_url thumbprint to_user_claims Dpop.verify
  validate t w cfg x g r tok =
      let (c, claims) = parse_token t cfg x g.jwks tok in
      with_claims w cfg x r tok (record g { jwks = c }) claims

-- An answer: what the error says, and the headers DPoP-Nonce and WWW-Authenticate, empty where unset.
pub record Answer : Type 0 where
  pub error : Option Public
  pub dpop_nonce : Bytes
  pub www_authenticate : Bytes

-- A request is answered, or it goes on, with a user or without; what is logged comes with it.
pub data Outcome : Type 0 where
  answered : Answer → Option Reason → Outcome
  proceeds : Option UserClaims → Outcome
  crashed : Outcome

abbrev pub www : Public → Bytes
www unauthorized = []
www invalid_dpop = codes "DPoP error=\"invalid_dpop_proof\""

-- How `handle` answers a validation.
unfoldable pub respond : Result GateError AuthResult → Outcome
respond (err (refused public reason)) =
    answered (record { error = some public; dpop_nonce = []; www_authenticate = www public })
      (some reason)
respond (err store_failed) =
    answered (record { error = none; dpop_nonce = []; www_authenticate = [] }) none
respond (err panicked) = crashed
respond (ok (need_nonce n)) =
    answered
      (record {
        error = some unauthorized;
        dpop_nonce = n;
        www_authenticate = codes "DPoP error=\"use_dpop_nonce\"";
      })
      none
respond (ok (user u)) = proceeds (some u)

module _ {K R : Type 0} (t : TokenLibrary K) (w : Libraries) (cfg : Configuration) where
  unfoldable pub handle : Reading K R → Gate K R → Request → Gate K R × Outcome
  unfolding validate respond bearer_token
  handle x g r =
      let (h, result) = validate t w cfg x g r (bearer_token r.authorization) in (h, respond result)

  -- `Authenticate` is `handle` before the next handler.
  unfoldable pub try_authenticate : Reading K R → Gate K R → Request → Gate K R × Outcome
  unfolding handle
  try_authenticate x g r = if is_empty r.authorization then (g, proceeds none) else handle x g r
