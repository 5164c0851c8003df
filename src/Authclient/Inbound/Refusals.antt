-- ===== src/Authclient/Inbound/Refusals.antt =====
-- authclient/middleware.go: what a caller is told of a request that does not go on.
use go_authbyte.Base.{
  ◌+◌, ==_iff, ◌∙◌, ℕ, ◌≡◌, refl, sym, ap, subst, ◌≢◌, ◌⊎◌, inl, inr, Bool, true, false, not,
  Option, none, some, [], ◌∷◌, arith, if◌then◌else◌, Bool-cases, ◌==◌, Bytes, codes, ℕ_comparable,
  Bytes_comparable, Result, ok, err, bind-ok, ok_inj, err_inj,
}
use go_authbyte.Base.Texts.{is_empty}
use go_authbyte.Claims.{to_user_claims, Claims, thumbprint}
use go_authbyte.Dpop.{missing_nonce, Libraries, Proved}
use go_authbyte.Nonce.{Issuer, issue}
use go_authbyte.Authclient.Inbound.{
  Configuration, Store, Gate, Request, new, new_nonce, new_replay_store, own_key, Identity,
  bearer_token,
}
use go_authbyte.Authclient.Inbound.Checks.{
  check_store, TokenLibrary, Reading, unauthorized, invalid_dpop, Reason, GateError, AuthResult,
  user, need_nonce, refused, store_failed, accepted_claims, with_key, with_header, parse_token,
  proof_options, challenge, seen, nonce_holds, or_challenge, check_proved, recoverable, with_proof,
  with_claims, validate, Answer, Outcome, answered, proceeds, crashed, respond, handle,
}
use go_authbyte.Jwks
use go_authbyte.Dpop
use go_authbyte.Nonce

module _ {K R : Type 0} (cfg : Configuration) where
  -- Where nonces are asked for there is an issuer of them.
  abbrev pub IsSetUp : Gate K R → Type 0
  IsSetUp g = (cfg.dpop_nonce_enabled ≡ false) ⊎ ((i : Issuer) × (g.nonce ≡ some i))

  module _ (x : Reading K R) (g : Gate K R) (cl : Claims) where
    -- The record of a proof's identifier at this request.
    abbrev recorded : Proved → Option Bool
    recorded p =
        (check_store x.set_nx g.replay p.jti (cfg.dpop_proof_max_age + cfg.token_clock_skew_leeway)
          x.replay_at).1

    -- Why a proof is refused: the token names no key where one is asked for, the proof does not verify
    -- and no nonce can mend it, it is of another key, or its identifier is seen.
    abbrev pub IsBad : Result Dpop.Error Proved → Type 0
    IsBad v =
        ((is_empty (thumbprint cl) ≡ true) × (cfg.require_dpop ≡ true))
        ⊎ ((e : Dpop.Error) × (v ≡ err e)
            × ((e ≢ missing_nonce) ⊎ (cfg.dpop_nonce_enabled ≡ false)))
        ⊎ ((p : Proved) × (v ≡ ok p) × ((p.thumbprint ≢ thumbprint cl) ⊎ (recorded p ≡ some false)))

    -- The store does not answer on the identifier of a verified proof.
    abbrev pub IsUnrecorded : Result Dpop.Error Proved → Type 0
    IsUnrecorded v = (p : Proved) × (v ≡ ok p) × (recorded p ≡ none)

    -- The proof has no nonce, or one that the issuer does not accept.
    abbrev pub LacksNonce : Issuer → Result Dpop.Error Proved → Type 0
    LacksNonce i v =
        (v ≡ err missing_nonce)
        ⊎ ((p : Proved) × (v ≡ ok p)
            × (Nonce.verify i p.nonce cfg.token_clock_skew_leeway x.nonce_at ≡ false))

    -- What lets a request through: no proof is asked for, or a proof of the token's key whose
    -- identifier is new.
    abbrev pub IsGood : Result Dpop.Error Proved → Type 0
    IsGood v =
        ((is_empty (thumbprint cl) ≡ true) × (cfg.require_dpop ≡ false))
        ⊎ ((p : Proved) × (v ≡ ok p) × (p.thumbprint ≡ thumbprint cl) × (recorded p ≡ some true))

    -- The results of a request whose token is verified, by the verification of its proof.
    data Verdict : Result Dpop.Error Proved → Result GateError AuthResult → Type 0 where
      admitted :
          (v : Result Dpop.Error Proved) → IsGood v → Verdict v (ok (user (to_user_claims cl)))
      proof_refused :
          (v : Result Dpop.Error Proved) (why : Reason)
          → IsBad v
          → Verdict v (err (refused invalid_dpop why))
      unrecorded : (v : Result Dpop.Error Proved) → IsUnrecorded v → Verdict v (err store_failed)
      challenged :
          (v : Result Dpop.Error Proved) (i : Issuer)
          → cfg.dpop_nonce_enabled ≡ true
          → g.nonce ≡ some i
          → LacksNonce i v
          → Verdict v (ok (need_nonce (issue i x.challenge_at)))

    -- The verdict of a test, from those of its branches.
    if-Verdict :
        (v : Result Dpop.Error Proved) (b : Bool) (p q : Gate K R × Result GateError AuthResult)
        → (b ≡ true → Verdict v p.1)
        → (b ≡ false → Verdict v q.1)
        → Verdict v (if b then p else q).1
    if-Verdict v true p q h k = h refl
    if-Verdict v false p q h k = k refl

    challenge-Verdict :
        (v : Result Dpop.Error Proved)
        → cfg.dpop_nonce_enabled ≡ true
        → IsSetUp g
        → ((i : Issuer) → g.nonce ≡ some i → LacksNonce i v)
        → Verdict v (challenge g.nonce x.challenge_at)
    unfolding challenge
    challenge-Verdict v on (inl off) lacks = cc
    challenge-Verdict v on (inr (i, e)) lacks =
        subst (λ n. Verdict v (challenge n x.challenge_at)) (sym e)
          (challenged v i on e (lacks i e))

    seen-Verdict :
        (p : Proved) (q : Store R × Option Bool)
        → recorded p ≡ q.1
        → p.thumbprint ≡ thumbprint cl
        → Verdict (ok p) (seen g cl q).1
    seen-Verdict p (s, none) e same = unrecorded _ (p, refl, e)
    seen-Verdict p (s, some false) e same = proof_refused _ _ (inr (inr (p, refl, inr e)))
    seen-Verdict p (s, some true) e same = admitted _ (inr (p, refl, same, e))

    -- The issuer's verdict on the nonce of a proof.
    held : Proved → Option Bool
    held p = nonce_holds g.nonce p.nonce cfg.token_clock_skew_leeway x.nonce_at

    or_challenge-Verdict :
        (p : Proved) (next : Gate K R × Result GateError AuthResult) (h : Option Bool)
        → held p ≡ h
        → cfg.dpop_nonce_enabled ≡ true
        → IsSetUp g
        → Verdict (ok p) next.1
        → Verdict (ok p) (or_challenge g x.challenge_at next h).1
    unfolding held
    or_challenge-Verdict p next none e on (inl off) v = cc
    or_challenge-Verdict p next none e on (inr (i, n)) v =
        let z =
          sym (ap (λ n. nonce_holds n p.nonce cfg.token_clock_skew_leeway x.nonce_at) n) ∙ e in
        cc
    or_challenge-Verdict p next (some false) e on s v = challenge-Verdict (ok p) on s (λ i n. inr (
      p,
      refl,
      some_bool _ false
          (sym (ap (λ n. nonce_holds n p.nonce cfg.token_clock_skew_leeway x.nonce_at) n) ∙ e),
    ))
      where
        some_bool : (a b : Bool) → some a ≡ some b → a ≡ b
        some_bool a b h = cc
    or_challenge-Verdict p next (some true) e on s v = v

    check_proved-Verdict : (p : Proved) → IsSetUp g → Verdict (ok p) (check_proved cfg x g cl p).1
    unfolding check_proved held
    check_proved-Verdict p s =
        let store =
          check_store x.set_nx g.replay p.jti (cfg.dpop_proof_max_age + cfg.token_clock_skew_leeway)
            x.replay_at in
        if-Verdict (ok p) (not (p.thumbprint == thumbprint cl)) _ _
          (λ e. proof_refused _ _ (
            inr (
              inr (
                p,
                refl,
                inl (λ q. let z = (==_iff p.thumbprint (thumbprint cl)).1 q in ground arith),
              ))))
          (λ e.
            let same : p.thumbprint ≡ thumbprint cl =
              (==_iff p.thumbprint (thumbprint cl)).0 (ground arith) in
            if-Verdict (ok p) cfg.dpop_nonce_enabled _ _
              (λ on. or_challenge-Verdict p _ (held p) refl on s (seen-Verdict p store refl same))
              (λ off. seen-Verdict p store refl same))

    recoverable-missing :
        (e : Dpop.Error)
        → recoverable cfg e ≡ true
        → (e ≡ missing_nonce) × (cfg.dpop_nonce_enabled ≡ true)
    recoverable-missing Dpop.missing_nonce y = (refl, y)
    recoverable-missing _ y = cc

    unrecoverable :
        (e : Dpop.Error)
        → recoverable cfg e ≡ false
        → (e ≢ missing_nonce) ⊎ (cfg.dpop_nonce_enabled ≡ false)
    unrecoverable Dpop.missing_nonce y = inr y
    unrecoverable _ y = inl (λ q. cc)

    with_proof-Verdict :
        (r : Result Dpop.Error Proved) → IsSetUp g → Verdict r (with_proof cfg x g cl r).1
    with_proof-Verdict (err e) s =
        if-Verdict (err e) (recoverable cfg e) _ _
          (λ y.
            let (same, on) = recoverable-missing e y in
            challenge-Verdict (err e) on s (λ i n. inl (ap err same)))
          (λ n. proof_refused _ _ (inr (inl (e, refl, unrecoverable e n))))
    with_proof-Verdict (ok p) s = check_proved-Verdict p s

    with_claims-Verdict :
        (w : Libraries) (r : Request) (tok : Bytes)
        → IsSetUp g
        → Verdict
            (Dpop.verify w (proof_options cfg r tok) x.proof_at r.dpop)
            (with_claims w cfg x r tok g (ok cl)).1
    with_claims-Verdict w r tok s =
        let v = Dpop.verify w (proof_options cfg r tok) x.proof_at r.dpop in
        if-Verdict v (is_empty (thumbprint cl)) _ _
          (λ e.
            if-Verdict v cfg.require_dpop _ _ (λ on. proof_refused _ _ (inl (e, on)))
              (λ off. admitted _ (inl (e, off))))
          (λ e. with_proof-Verdict v s)

-- The answers to a caller: they say nothing of the reason.
abbrev pub plain : Answer
plain = record { error = some unauthorized; dpop_nonce = []; www_authenticate = [] }

abbrev pub bad_proof : Answer
bad_proof = record {
  error = some invalid_dpop;
  dpop_nonce = [];
  www_authenticate = codes "DPoP error=\"invalid_dpop_proof\"";
}

abbrev pub failure : Answer
failure = record { error = none; dpop_nonce = []; www_authenticate = [] }

abbrev pub asks : Bytes → Answer
asks n = record {
  error = some unauthorized;
  dpop_nonce = n;
  www_authenticate = codes "DPoP error=\"use_dpop_nonce\"";
}

module _ {K R : Type 0} (t : TokenLibrary K) (w : Libraries) (cfg : Configuration)
    (x : Reading K R) where
  IsPlain : Result GateError Claims → Type 0
  IsPlain claims =
      (e : GateError) → claims ≡ err e → (why : Reason) × (e ≡ refused unauthorized why)

  accepted_claims-IsPlain : (o : Option Claims) → IsPlain (accepted_claims o)
  unfolding IsPlain
  accepted_claims-IsPlain none e h = (_, sym (err_inj h))
  accepted_claims-IsPlain (some c) e h = cc

  with_key-IsPlain :
      (tok : Bytes) (p : Jwks.Client K × Result Jwks.KeyError K)
      → IsPlain (with_key t cfg x tok p).1
  unfolding IsPlain
  with_key-IsPlain tok (c, err f) e h = (_, sym (err_inj h))
  with_key-IsPlain tok (c, ok k) e h = accepted_claims-IsPlain _ e h

  with_header-IsPlain :
      (c : Jwks.Client K) (tok : Bytes) (o : Option Bytes) → IsPlain (with_header t cfg x c tok o).1
  unfolding IsPlain
  with_header-IsPlain c tok none e h = (_, sym (err_inj h))
  with_header-IsPlain c tok (some kid) e h =
      with_key-IsPlain tok (Jwks.key c x.key_first x.key_now x.key_done x.key_last x.reply kid) e h

  parse_token-IsPlain : (c : Jwks.Client K) (tok : Bytes) → IsPlain (parse_token t cfg x c tok).1
  unfolding parse_token IsPlain
  parse_token-IsPlain c [] e h = (_, sym (err_inj h))
  parse_token-IsPlain c (b ∷ tok) e h = with_header-IsPlain c (b ∷ tok) (t.header (b ∷ tok)) e h

  -- What is told of a request, by what the reading of its token gives and the verification of its
  -- proof: one outcome for each reason.
  abbrev pub Told : Gate K R → Result GateError Claims → Result Dpop.Error Proved → Outcome → Type 0
  Told g (err e) v o = (why : Reason) × (o ≡ answered plain (some why))
  Told g (ok cl) v (proceeds u) = (u ≡ some (to_user_claims cl)) × IsGood cfg x g cl v
  Told g (ok cl) v crashed = ⊥
  Told g (ok cl) v (answered a why) =
      ((a ≡ bad_proof) × IsBad cfg x g cl v)
      ⊎ ((a ≡ failure) × IsUnrecorded cfg x g cl v)
      ⊎ ((cfg.dpop_nonce_enabled ≡ true)
          × (i : Issuer) × (g.nonce ≡ some i)
          × (a ≡ asks (issue i x.challenge_at))
          × LacksNonce cfg x g cl i v)

  respond-Told :
      (g : Gate K R) (cl : Claims) (v : Result Dpop.Error Proved) (a : Result GateError AuthResult)
      → Verdict cfg x g cl v a
      → Told g (ok cl) v (respond a)
  unfolding respond
  respond-Told g cl v a (admitted _ good) = (refl, good)
  respond-Told g cl v a (proof_refused _ why bad) = inl (refl, bad)
  respond-Told g cl v a (unrecorded _ f) = inr (inl (refl, f))
  respond-Told g cl v a (challenged _ i on e l) = inr (inr (on, i, e, refl, l))

  told :
      (g : Gate K R) (r : Request) (tok : Bytes) (c : Jwks.Client K)
      (claims : Result GateError Claims)
      → IsSetUp cfg g
      → IsPlain claims
      → Told g claims
          (Dpop.verify w (proof_options cfg r tok) x.proof_at r.dpop)
          (respond (with_claims w cfg x r tok (record g { jwks = c }) claims).1)
  unfolding respond IsPlain
  told g r tok c (err e) s p = let (why, same) = p e refl in (why, ap (λ f. respond (err f)) same)
  told g r tok c (ok cl) s p =
      respond-Told (record g { jwks = c }) cl
        (Dpop.verify w (proof_options cfg r tok) x.proof_at r.dpop) _
        (with_claims-Verdict cfg x (record g { jwks = c }) cl w r tok s)

  -- A request whose token is refused is answered by a plain 401, whatever the reason. One whose token
  -- is verified goes on only as the token's user, and only where no proof is asked for, or where its
  -- proof verifies, is of the token's key and is recorded as new. It is answered by a 401 that names the proof only
  -- where the proof is missing, does not verify, is of another key or is recorded as seen; by a
  -- failure only where the store does not answer; and by a 401 with a nonce issued at that time only
  -- where nonces are asked for and the proof has none that holds. The service never crashes. The
  -- client has an issuer of nonces if nonces are asked for.
  pub handle-Told :
      (g : Gate K R) (r : Request)
      → IsSetUp cfg g
      → Told g
          (parse_token t cfg x g.jwks (bearer_token r.authorization)).1
          (Dpop.verify w (proof_options cfg r (bearer_token r.authorization)) x.proof_at r.dpop)
          (handle t w cfg x g r).1
  unfolding handle validate
  handle-Told g r s =
      let tok = bearer_token r.authorization in
      let (c, claims) = parse_token t cfg x g.jwks tok in
      told g r tok c claims s (parse_token-IsPlain g.jwks tok)

new_nonce-IsSetUp :
    (cfg : Configuration) (hmac : Bytes → Bytes → Bytes) (random : Option Bytes) (o : Option Issuer)
    → new_nonce hmac random cfg ≡ ok o
    → (cfg.dpop_nonce_enabled ≡ false) ⊎ ((i : Issuer) × (o ≡ some i))
unfolding Nonce.new
new_nonce-IsSetUp cfg hmac random o h = elim (Bool-cases cfg.dpop_nonce_enabled) [
  | inr off ↦ inl off
  | inl on ↦ inr (go random on h)
]
  where
    go :
        (r : Option Bytes)
        → cfg.dpop_nonce_enabled ≡ true
        → new_nonce hmac r cfg ≡ ok o
        → (i : Issuer) × (o ≡ some i)
    go none on h = ground arith
    go (some key) on h = (record { mac = hmac key; ttl = cfg.dpop_nonce_ttl }, ground arith)

-- A client that `New` returns has an issuer of nonces if nonces are asked for.
new-IsSetUp :
    {K R Key : Type 0} (cfg : Configuration) (connect : Bytes → Option (Bytes → ℕ → ℕ → R))
    (client : Option (Bytes → ℕ → ℕ → R)) (hmac : Bytes → Bytes → Bytes) (random : Option Bytes)
    (generated : Option (Key × Option Bytes)) (c : Gate K R × Identity Key)
    → new cfg connect client hmac random generated ≡ ok c
    → IsSetUp cfg c.0
unfolding new
new-IsSetUp cfg connect client hmac random generated c h =
    let (store, s, k) = bind-ok (new_replay_store cfg connect client) _ h in
    let (issuer, n, l) = bind-ok (new_nonce hmac random cfg) _ k in
    let (key, o, m) = bind-ok (own_key generated) _ l in
    subst (λ o. (cfg.dpop_nonce_enabled ≡ false) ⊎ ((i : Issuer) × (o ≡ some i)))
      (ap (λ q. q.0.nonce) (ok_inj m)) (new_nonce-IsSetUp cfg hmac random issuer n)
