-- ===== src/Authclient/Inbound/Accepts.antt =====
-- authclient/client.go: what is true of a request that the checks let through.
use go_authbyte.Base.{
  ◌+◌, ◌≡◌, refl, sym, ap, subst, ◌≢◌, ◌⊎◌, inl, inr, Bool, true, false, Option, none, some, [],
  ◌∷◌, arith, Bool-cases, ◌==◌, ==_iff, Bytes, ℕ_comparable, Bytes_comparable, Result, ok, err,
  ok_inj,
}
use go_authbyte.Base.Texts.{is_empty, is_empty-nil}
use go_authbyte.Claims.{Claims, thumbprint, UserClaims, to_user_claims}
use go_authbyte.Dpop.{Libraries, Proved, ProofClaims}
use go_authbyte.Dpop.Accepts.{IsSigned, NamesRequest, verify-ok}
use go_authbyte.Nonce.{Issuer}
use go_authbyte.Authclient.Inbound.{Configuration, Store, Gate, Request, bearer_token}
use go_authbyte.Authclient.Inbound.Checks.{
  TokenLibrary, Reading, GateError, AuthResult, user, need_nonce, refused, store_failed, panicked,
  parser, accepted_claims, with_key, with_header, parse_token, proof_options, challenge,
  check_store, seen, nonce_holds, or_challenge, check_proved, recoverable, with_proof, with_claims,
  validate, proceeds, respond, handle,
}
use go_authbyte.Jwks
use go_authbyte.Jwks.Rotation.{IsFresh, key-IsFresh}
use go_authbyte.Dpop

module _ {K R : Type 0} (t : TokenLibrary K) (w : Libraries) (cfg : Configuration)
    (x : Reading K R) where
  -- A key of the client's set, which is not too old when it is looked at.
  abbrev pub FromSet : Jwks.Client K → Bytes → K → Type 0
  FromSet c kid k = IsFresh c x.key_first kid k ⊎ IsFresh c x.key_last kid k

  -- The token is verified by a key of the issuer's set, for the service's issuer and audiences.
  abbrev pub IsVerified : Jwks.Client K → Bytes → Claims → Type 0
  IsVerified c tok cl =
      (kid : Bytes) × (k : K) × (t.header tok ≡ some kid)
      × FromSet c kid k
      × (t.verified (parser cfg) tok k x.token_at ≡ some cl)

  accepted_claims-ok : (o : Option Claims) (cl : Claims) → accepted_claims o ≡ ok cl → o ≡ some cl
  accepted_claims-ok none cl h = cc
  accepted_claims-ok (some c) cl h = ap some (ok_inj h)

  with_key-ok :
      (tok : Bytes) (p : Jwks.Client K × Result Jwks.KeyError K) (cl : Claims)
      → (with_key t cfg x tok p).1 ≡ ok cl
      → (k : K) × (p.1 ≡ ok k)
        × ((with_key t cfg x tok p).0 ≡ p.0)
        × (t.verified (parser cfg) tok k x.token_at ≡ some cl)
  with_key-ok tok (c, err e) cl h = cc
  with_key-ok tok (c, ok k) cl h = (k, refl, refl, accepted_claims-ok _ cl h)

  with_header-ok :
      (c : Jwks.Client K) (tok : Bytes) (o : Option Bytes) (cl : Claims)
      → t.header tok ≡ o
      → (with_header t cfg x c tok o).1 ≡ ok cl
      → IsVerified (with_header t cfg x c tok o).0 tok cl
  with_header-ok c tok none cl e h = cc
  with_header-ok c tok (some kid) cl e h =
      let answer = Jwks.key c x.key_first x.key_now x.key_done x.key_last x.reply kid in
      let (k, found, same, verified) = with_key-ok tok answer cl h in
      (
        kid,
        k,
        e,
        subst (λ d. FromSet d kid k) (sym same)
            (key-IsFresh c x.key_first x.key_now x.key_done x.key_last x.reply kid k found),
        verified,
      )

  parse_token-ok :
      (c : Jwks.Client K) (tok : Bytes) (cl : Claims)
      → (parse_token t cfg x c tok).1 ≡ ok cl
      → IsVerified (parse_token t cfg x c tok).0 tok cl
  unfolding parse_token
  parse_token-ok c [] cl h = cc
  parse_token-ok c (b ∷ tok) cl h = with_header-ok c (b ∷ tok) (t.header (b ∷ tok)) cl refl h

  -- The proof's identifier is new to the store.
  abbrev pub IsFirst : Gate K R → Bytes → Type 0
  IsFirst g jti =
      (check_store x.set_nx g.replay jti (cfg.dpop_proof_max_age + cfg.token_clock_skew_leeway)
        x.replay_at).1
      ≡ some true

  -- The issuer of nonces accepts the nonce, if nonces are asked for.
  abbrev pub HasNonce : Gate K R → Bytes → Type 0
  HasNonce g nonce =
      (cfg.dpop_nonce_enabled ≡ false)
      ⊎ (nonce_holds g.nonce nonce cfg.token_clock_skew_leeway x.nonce_at ≡ some true)

  -- The proof is signed by the key the token is bound to, names the request and the token, and is
  -- new.
  abbrev pub IsProved : Gate K R → Request → Bytes → Claims → Type 0
  IsProved g r tok cl =
      (c : ProofClaims) × IsSigned w r.dpop (thumbprint cl) c
      × NamesRequest w (proof_options cfg r tok) x.proof_at c
      × HasNonce g c.nonce
      × IsFirst g c.id

  seen-user :
      (g : Gate K R) (cl : Claims) (p : Store R × Option Bool) (u : UserClaims)
      → (seen g cl p).1 ≡ ok (user u)
      → (p.1 ≡ some true) × (u ≡ to_user_claims cl)
  seen-user g cl (s, none) u h = cc
  seen-user g cl (s, some false) u h = cc
  seen-user g cl (s, some true) u h = (refl, cc)

  pub challenge-user :
      (i : Option Issuer) (u : UserClaims) → challenge i x.challenge_at ≢ ok (user u)
  unfolding challenge
  challenge-user none u h = cc
  challenge-user (some i) u h = cc

  or_challenge-user :
      (g : Gate K R) (next : Gate K R × Result GateError AuthResult) (o : Option Bool)
      (u : UserClaims)
      → (or_challenge g x.challenge_at next o).1 ≡ ok (user u)
      → (o ≡ some true) × (next.1 ≡ ok (user u))
  or_challenge-user g next none u h = cc
  or_challenge-user g next (some false) u h = absurd (challenge-user g.nonce u h)
  or_challenge-user g next (some true) u h = (refl, h)

  check_proved-user :
      (g : Gate K R) (cl : Claims) (p : Proved) (u : UserClaims)
      → (check_proved cfg x g cl p).1 ≡ ok (user u)
      → (p.thumbprint ≡ thumbprint cl)
        × HasNonce g p.nonce
        × IsFirst g p.jti
        × (u ≡ to_user_claims cl)
  unfolding check_proved
  check_proved-user g cl p u h =
      let store =
        check_store x.set_nx g.replay p.jti (cfg.dpop_proof_max_age + cfg.token_clock_skew_leeway)
          x.replay_at in
      elim (Bool-cases (p.thumbprint == thumbprint cl)) [
        | inr e ↦ ground arith
        | inl e ↦ elim (Bool-cases cfg.dpop_nonce_enabled) [
          | inl on ↦
              (let (accepted, next) =
                  or_challenge-user g (seen g cl store)
                    (nonce_holds g.nonce p.nonce cfg.token_clock_skew_leeway x.nonce_at) u
                    (ground arith) in
                let (first, same) = seen-user g cl store u next in
                ((==_iff p.thumbprint (thumbprint cl)).0 e, inr accepted, first, same))
          | inr off ↦
              (let (first, same) = seen-user g cl store u (ground arith) in
                ((==_iff p.thumbprint (thumbprint cl)).0 e, inl off, first, same))
        ]
      ]

  with_proof-user :
      (g : Gate K R) (cl : Claims) (r : Result Dpop.Error Proved) (u : UserClaims)
      → (with_proof cfg x g cl r).1 ≡ ok (user u)
      → (p : Proved) × (r ≡ ok p) × ((check_proved cfg x g cl p).1 ≡ ok (user u))
  with_proof-user g cl (err e) u h = elim (Bool-cases (recoverable cfg e)) [
    | inl y ↦ absurd (challenge-user g.nonce u (ground arith))
    | inr n ↦ ground arith
  ]
  with_proof-user g cl (ok p) u h = (p, refl, h)

  -- A token that is bound to a key comes with a proof by it; any other only where none is required.
  abbrev pub Passes : Gate K R → Request → Bytes → UserClaims → Claims → Type 0
  Passes g r tok u cl =
      (u ≡ to_user_claims cl)
      × (((thumbprint cl ≡ []) × (cfg.require_dpop ≡ false)) ⊎ IsProved g r tok cl)

  with_claims-user :
      (g : Gate K R) (r : Request) (tok : Bytes) (o : Result GateError Claims) (u : UserClaims)
      → (with_claims w cfg x r tok g o).1 ≡ ok (user u)
      → (cl : Claims) × (o ≡ ok cl) × Passes g r tok u cl
  with_claims-user g r tok (err e) u h = cc
  with_claims-user g r tok (ok cl) u h = elim (Bool-cases (is_empty (thumbprint cl))) [
    | inl e ↦ elim (Bool-cases cfg.require_dpop) [
      | inl on ↦ ground arith
      | inr off ↦ (cl, refl, (ground arith, inl (is_empty-nil (thumbprint cl) e, off)))
    ]
    | inr e ↦
        (let verdict = Dpop.verify w (proof_options cfg r tok) x.proof_at r.dpop in
          let (p, verified, checked) = with_proof-user g cl verdict u (ground arith) in
          let (same, nonce, first, made) = check_proved-user g cl p u checked in
          let (c, signed, named, jti, nonces) =
            verify-ok w (proof_options cfg r tok) x.proof_at r.dpop p verified in
          (
            cl,
            refl,
            (
              made,
              inr (
                c,
                subst (λ k. IsSigned w r.dpop k c) same signed,
                named,
                subst (HasNonce g) nonces nonce,
                subst (IsFirst g) jti first,
              ),
            ),
          ))
  ]

  -- What lets a request through with its user.
  abbrev pub Admits : Gate K R → Request → UserClaims → Type 0
  Admits g r u =
      let tok = bearer_token r.authorization in
      (cl : Claims) × IsVerified (parse_token t cfg x g.jwks tok).0 tok cl
      × Passes (record g { jwks = (parse_token t cfg x g.jwks tok).0 }) r tok u cl

  pub respond-user :
      (a : Result GateError AuthResult) (u : Option UserClaims)
      → respond a ≡ proceeds u
      → (v : UserClaims) × (u ≡ some v) × (a ≡ ok (user v))
  unfolding respond
  respond-user (err (refused p r)) u h = cc
  respond-user (err store_failed) u h = cc
  respond-user (err panicked) u h = cc
  respond-user (ok (need_nonce n)) u h = cc
  respond-user (ok (user v)) u h = (v, cc, refl)

  -- A request that goes on has a user, with the claims of its token; the token is verified by a key
  -- that is in the issuer's set and not too old when it is looked up, and either is bound to no key
  -- where none is required, or comes with a proof that is signed by the key it is bound to, names the
  -- request and the token, carries a nonce of this service if one is asked for, and is new.
  pub handle-Admits :
      (g : Gate K R) (r : Request) (u : Option UserClaims)
      → (handle t w cfg x g r).1 ≡ proceeds u
      → (v : UserClaims) × (u ≡ some v) × Admits g r v
  unfolding handle validate
  handle-Admits g r u h =
      let tok = bearer_token r.authorization in
      let (c, claims) = parse_token t cfg x g.jwks tok in
      let (v, same, passed) =
        respond-user (with_claims w cfg x r tok (record g { jwks = c }) claims).1 u h in
      let (cl, parsed, passes) = with_claims-user (record g { jwks = c }) r tok claims v passed in
      (v, same, (cl, parse_token-ok g.jwks tok cl parsed, passes))
