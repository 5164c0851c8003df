-- ===== src/Authclient/Inbound/Replays.antt =====
-- authclient/client.go: a proof lets one request through, whatever requests come in between.
use go_authbyte.Base.{
  ℕ, ◌+◌, ◌<◌, ◌≡◌, refl, sym, ap, ◌∙◌, subst, ◌≢◌, ◌⊎◌, inl, inr, Bool, true, false, not, Option,
  none, some, List, [], ◌∷◌, arith, if◌then◌else◌, All, ◌==◌, ==_iff, Bytes, ℕ_comparable,
  Bytes_comparable, Result, ok, err, ok_inj,
}
use go_authbyte.Base.Map.{lookup, Distinct}
use go_authbyte.Base.Texts.{is_empty}
use go_authbyte.Claims.{Claims, thumbprint, UserClaims, to_user_claims}
use go_authbyte.Dpop.{Libraries, Proved}
use go_authbyte.Replay.{Memory, check_and_set}
use go_authbyte.Replay.Spec.{Call, check_and_set-Distinct, keeps_live, accept_entry}
use go_authbyte.Authclient.Inbound.{Configuration, Store, memory, Gate, Request, bearer_token}
use go_authbyte.Authclient.Inbound.Checks.{
  TokenLibrary, Reading, invalid_dpop, not_constrained, other_key, proof_failed, GateError, refused,
  AuthResult, user, parse_token, proof_options, challenge, check_store, seen, nonce_holds,
  or_challenge, check_proved, recoverable, with_proof, with_claims, validate, Outcome, proceeds,
  handle,
}
use go_authbyte.Authclient.Inbound.Accepts.{challenge-user, respond-user}
use go_authbyte.Dpop

-- A request, with what is read while it is checked.
pub record Arrival (K R : Type 0) : Type 0 where
  pub reading : Reading K R
  pub request : Request

-- How long an identifier is recorded.
abbrev pub lifetime : Configuration → ℕ
lifetime cfg = cfg.dpop_proof_max_age + cfg.token_clock_skew_leeway

module _ {K R : Type 0} (t : TokenLibrary K) (w : Libraries) (cfg : Configuration) where
  module _ (x : Reading K R) (g : Gate K R) where
    -- The record of an identifier at this request.
    abbrev recorded : Bytes → Store R × Option Bool
    recorded jti = check_store x.set_nx g.replay jti (lifetime cfg) x.replay_at

    -- The store stays and there is no user, or the proof's identifier is recorded, and a user comes
    -- only of one that is new.
    abbrev Moves : Result Dpop.Error Proved → Gate K R × Result GateError AuthResult → Type 0
    Moves verdict q =
        ((q.0.replay ≡ g.replay) × ((u : UserClaims) → q.1 ≢ ok (user u)))
        ⊎ ((p : Proved) × (verdict ≡ ok p)
            × (q.0.replay ≡ (recorded p.jti).0)
            × ((u : UserClaims) → q.1 ≡ ok (user u) → (recorded p.jti).1 ≡ some true))

    if-Moves :
        (verdict : Result Dpop.Error Proved) (b : Bool)
        (p q : Gate K R × Result GateError AuthResult)
        → Moves verdict p
        → Moves verdict q
        → Moves verdict (if b then p else q)
    if-Moves verdict true p q h k = h
    if-Moves verdict false p q h k = k

    if-true-Moves :
        (verdict : Result Dpop.Error Proved) (b : Bool)
        (p q : Gate K R × Result GateError AuthResult)
        → b ≡ true
        → Moves verdict p
        → Moves verdict (if b then p else q)
    if-true-Moves verdict true p q e h = h
    if-true-Moves verdict false p q e h = cc

    refused-Moves : (verdict : Result Dpop.Error Proved) (e : GateError) → Moves verdict (g, err e)
    refused-Moves verdict e = inl (refl, λ u h. cc)

    challenge-Moves :
        (verdict : Result Dpop.Error Proved) → Moves verdict (g, challenge g.nonce x.challenge_at)
    challenge-Moves verdict = inl (refl, challenge-user t w cfg x g.nonce)

    seen-first :
        (cl : Claims) (s : Store R × Option Bool)
        → ((seen g cl s).0.replay ≡ s.0)
          × ((u : UserClaims) → (seen g cl s).1 ≡ ok (user u) → s.1 ≡ some true)
    seen-first cl (s, none) = (refl, λ u h. cc)
    seen-first cl (s, some false) = (refl, λ u h. cc)
    seen-first cl (s, some true) = (refl, λ u h. refl)

    or_challenge-Moves :
        (verdict : Result Dpop.Error Proved) (next : Gate K R × Result GateError AuthResult)
        (held : Option Bool)
        → Moves verdict next
        → Moves verdict (or_challenge g x.challenge_at next held)
    or_challenge-Moves verdict next none m = refused-Moves _ _
    or_challenge-Moves verdict next (some false) m = challenge-Moves verdict
    or_challenge-Moves verdict next (some true) m = m

    check_proved-Moves : (cl : Claims) (p : Proved) → Moves (ok p) (check_proved cfg x g cl p)
    unfolding check_proved
    check_proved-Moves cl p =
        let (same, first) = seen-first cl (recorded p.jti) in
        let next = seen g cl (recorded p.jti) in
        let held = nonce_holds g.nonce p.nonce cfg.token_clock_skew_leeway x.nonce_at in
        let m = inr (p, refl, same, first) in
        if-Moves (ok p) (not (p.thumbprint == thumbprint cl))
          (g, err (refused invalid_dpop other_key))
          (if cfg.dpop_nonce_enabled then or_challenge g x.challenge_at next held else next)
          (refused-Moves _ _)
          (if-Moves (ok p) cfg.dpop_nonce_enabled (or_challenge g x.challenge_at next held) next
            (or_challenge-Moves (ok p) next held m) m)

    with_proof-Moves :
        (cl : Claims) (verdict : Result Dpop.Error Proved)
        → Moves verdict (with_proof cfg x g cl verdict)
    with_proof-Moves cl (err e) =
        if-Moves (err e) (recoverable cfg e) (g, challenge g.nonce x.challenge_at)
          (g, err (refused invalid_dpop (proof_failed e))) (challenge-Moves (err e))
          (refused-Moves _ _)
    with_proof-Moves cl (ok p) = check_proved-Moves cl p

    with_claims-Moves :
        (r : Request) (tok : Bytes) (o : Result GateError Claims)
        → cfg.require_dpop ≡ true
        → Moves
            (Dpop.verify w (proof_options cfg r tok) x.proof_at r.dpop)
            (with_claims w cfg x r tok g o)
    with_claims-Moves r tok (err e) on = refused-Moves _ _
    with_claims-Moves r tok (ok cl) on =
        let verdict = Dpop.verify w (proof_options cfg r tok) x.proof_at r.dpop in
        if-Moves verdict (is_empty (thumbprint cl))
          (if cfg.require_dpop
            then (g, err (refused invalid_dpop not_constrained))
            else (g, ok (user (to_user_claims cl))))
          (with_proof cfg x g cl verdict)
          (if-true-Moves verdict cfg.require_dpop (g, err (refused invalid_dpop not_constrained))
            (g, ok (user (to_user_claims cl))) on (refused-Moves _ _))
          (with_proof-Moves cl verdict)

  -- The verification of the request's proof.
  abbrev pub proof_of : Arrival K R → Result Dpop.Error Proved
  proof_of a =
      Dpop.verify w (proof_options cfg a.request (bearer_token a.request.authorization))
        a.reading.proof_at a.request.dpop

  abbrev pub arrive : Gate K R → Arrival K R → Gate K R × Outcome
  arrive g a = handle t w cfg a.reading g a.request

  abbrev pub arrive_all : Gate K R → List (Arrival K R) → Gate K R
  arrive_all g [] = g
  arrive_all g (a ∷ arrivals) = arrive_all (arrive g a).0 arrivals

  arrive-Moves :
      (g : Gate K R) (a : Arrival K R)
      → cfg.require_dpop ≡ true
      → (((arrive g a).0.replay ≡ g.replay)
          × ((u : Option UserClaims) → (arrive g a).1 ≢ proceeds u))
        ⊎ ((p : Proved) × (proof_of a ≡ ok p)
            × ((arrive g a).0.replay ≡ (recorded a.reading g p.jti).0)
            × ((u : Option UserClaims)
                → (arrive g a).1 ≡ proceeds u
                → (recorded a.reading g p.jti).1 ≡ some true))
  unfolding handle validate
  arrive-Moves g a on =
      let x = a.reading in
      let tok = bearer_token a.request.authorization in
      let (c, claims) = parse_token t cfg x g.jwks tok in
      let q = with_claims w cfg x a.request tok (record g { jwks = c }) claims in
      elim (with_claims-Moves x (record g { jwks = c }) a.request tok claims on) [
        | inl (same, none_in) ↦ inl (
          same,
          λ u h. let (v, e, admitted) = respond-user t w cfg x q.1 u h in none_in v admitted,
        )
        | inr (p, verified, same, first) ↦ inr (
          p,
          verified,
          same,
          λ u h. let (v, e, admitted) = respond-user t w cfg x q.1 u h in first v admitted,
        )
      ]

  -- The memory store, which holds no identifier twice.
  abbrev pub InMemory : Store R → Type 0
  InMemory s = (m : Memory) × (s ≡ memory m) × Distinct m.seen

  Spent : Bytes → ℕ → Store R → Type 0
  Spent j exp s = (m : Memory) × (s ≡ memory m) × Distinct m.seen × (lookup m.seen j ≡ some exp)

  recorded-memory :
      (a : Arrival K R) (g : Gate K R) (m : Memory) (jti : Bytes)
      → g.replay ≡ memory m
      → recorded a.reading g jti ≡ (
        memory (check_and_set m jti (lifetime cfg) a.reading.replay_at).0,
        some (check_and_set m jti (lifetime cfg) a.reading.replay_at).1,
      )
  unfolding check_store
  recorded-memory a g m jti e =
      ap (λ s. check_store a.reading.set_nx s jti (lifetime cfg) a.reading.replay_at) e

  abbrev call_of : Arrival K R → Bytes → Call
  call_of a jti = record { jti = jti; ttl = lifetime cfg; now = a.reading.replay_at }

  recorded-first :
      (a : Arrival K R) (g : Gate K R) (m : Memory) (jti : Bytes)
      → g.replay ≡ memory m
      → (recorded a.reading g jti).1 ≡ some true
      → (check_and_set m jti (lifetime cfg) a.reading.replay_at).1 ≡ true
  recorded-first a g m jti e h = let q = sym (ap (λ r. r.1) (recorded-memory a g m jti e)) ∙ h in cc

  -- An identifier that is recorded stays so until its time, whatever request comes.
  arrive-Spent :
      (g : Gate K R) (a : Arrival K R) (j : Bytes) (exp : ℕ)
      → cfg.require_dpop ≡ true
      → a.reading.replay_at < exp
      → Spent j exp g.replay
      → Spent j exp (arrive g a).0.replay
  unfolding Spent
  arrive-Spent g a j exp on h (m, e, d, k) = elim (arrive-Moves g a on) [
    | inl (same, _) ↦ (m, same ∙ e, d, k)
    | inr (p, _, moved, _) ↦
        (let call = call_of a p.jti in
          (
            (check_and_set m p.jti (lifetime cfg) a.reading.replay_at).0,
            moved ∙ ap (λ q. q.0) (recorded-memory a g m p.jti e),
            check_and_set-Distinct m call d,
            (keeps_live m call j d k h).0,
          ))
  ]

  arrive_all-Spent :
      (g : Gate K R) (arrivals : List (Arrival K R)) (j : Bytes) (exp : ℕ)
      → cfg.require_dpop ≡ true
      → All (λ a. a.reading.replay_at < exp) arrivals
      → Spent j exp g.replay
      → Spent j exp (arrive_all g arrivals).replay
  arrive_all-Spent g [] j exp on h s = s
  arrive_all-Spent g (a ∷ arrivals) j exp on (k, h) s =
      arrive_all-Spent (arrive g a).0 arrivals j exp on h (arrive-Spent g a j exp on k s)

  -- No request goes on by a proof whose identifier is recorded.
  Spent-refused :
      (g : Gate K R) (a : Arrival K R) (p : Proved) (exp : ℕ)
      → cfg.require_dpop ≡ true
      → a.reading.replay_at < exp
      → proof_of a ≡ ok p
      → Spent p.jti exp g.replay
      → (u : Option UserClaims) → (arrive g a).1 ≢ proceeds u
  unfolding Spent
  Spent-refused g a p exp on h v (m, e, d, k) u q = elim (arrive-Moves g a on) [
    | inl (same, none_in) ↦ none_in u q
    | inr (r, verified, moved, first) ↦
        (let same = ap (λ x. x.jti) (ok_inj (sym verified ∙ v)) in
          let refused = (keeps_live m (call_of a r.jti) p.jti d k h).1 in
          let fresh = recorded-first a g m r.jti e (first u q) in
          let equal = (==_iff r.jti p.jti).1 same in ground arith)
  ]

  -- A request that goes on has its proof's identifier recorded.
  arrive-accepted :
      (g : Gate K R) (a : Arrival K R) (u : Option UserClaims)
      → cfg.require_dpop ≡ true
      → 0 < lifetime cfg
      → InMemory g.replay
      → (arrive g a).1 ≡ proceeds u
      → (p : Proved) × (proof_of a ≡ ok p)
        × Spent p.jti (a.reading.replay_at + lifetime cfg) (arrive g a).0.replay
  unfolding Spent
  arrive-accepted g a u on l (m, e, d) q = elim (arrive-Moves g a on) [
    | inl (same, none_in) ↦ absurd (none_in u q)
    | inr (p, verified, moved, first) ↦
        (let call = call_of a p.jti in
          (
            p,
            verified,
            (
              (check_and_set m p.jti (lifetime cfg) a.reading.replay_at).0,
              moved ∙ ap (λ q. q.0) (recorded-memory a g m p.jti e),
              check_and_set-Distinct m call d,
              accept_entry m call d l (recorded-first a g m p.jti e (first u q)),
            ),
          ))
  ]

  -- Where a proof is required of every request, a proof that has let a request through lets no other
  -- through before its identifier expires in the memory store, whatever requests come in between.
  pub arrive-accepted-once :
      (g : Gate K R) (a : Arrival K R) (u : Option UserClaims) (arrivals : List (Arrival K R))
      (b : Arrival K R) (p q : Proved)
      → cfg.require_dpop ≡ true
      → 0 < lifetime cfg
      → InMemory g.replay
      → (arrive g a).1 ≡ proceeds u
      → All (λ c. c.reading.replay_at < a.reading.replay_at + lifetime cfg) (b ∷ arrivals)
      → proof_of a ≡ ok p
      → proof_of b ≡ ok q
      → p.jti ≡ q.jti
      → (v : Option UserClaims) → (arrive (arrive_all (arrive g a).0 arrivals) b).1 ≢ proceeds v
  arrive-accepted-once g a u arrivals b p q on l m accepted (k, h) first second same v =
      let (r, verified, spent) = arrive-accepted g a u on l m accepted in
      let exp = a.reading.replay_at + lifetime cfg in
      let equal = ap (λ x. x.jti) (ok_inj (sym verified ∙ first)) ∙ same in
      Spent-refused (arrive_all (arrive g a).0 arrivals) b q exp on k second
        (arrive_all-Spent (arrive g a).0 arrivals q.jti exp on h
          (subst (λ j. Spent j exp (arrive g a).0.replay) equal spent))
        v
