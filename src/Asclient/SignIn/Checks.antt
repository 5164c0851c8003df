-- ===== src/Asclient/SignIn/Checks.antt =====
-- asclient/oidc.go: what a sign-in that is accepted proves, and what becomes of one that is not.
use go_authbyte.Base.{
  nat_eq_iff, subst, ℕ, ◌+◌, ◌-◌, ◌≤◌, ◌≡◌, refl, sym, ap, ◌∙◌, ◌≢◌, ◌⊎◌, inl, inr, Bool, true,
  false, not, ◌&&◌, ◌||◌, Option, none, some, List, [], ◌∷◌, arith, ltb, nat_eq, if◌then◌else◌,
  Bool-cases, ◌==◌, ==_iff, Bytes, ℕ_comparable, Bytes_comparable, Result, ok, err, bind-ok, ok_inj,
}
use go_authbyte.Base.Texts.{is_empty-nil, is_empty, is_in}
use go_authbyte.Claims.{fields}
use go_authbyte.Authclient.Calls.{Resource}
use go_authbyte.Asclient.{Client, Libraries, CallError, Wire, exchange_code}
use go_authbyte.Asclient.Ends.{Sends, revocation, revoke-Sends}
use go_authbyte.Asclient.SignIn.{
  clock_skew, SignInError, unproved, exchange_failed, IdTokenCheck, IdTokenClaims, IdToken,
  TokenLibrary, Reading, time_or_zero, single, is_set, begun, too_old, id_of, check_claims,
  or_unproved, parser, with_key, with_header, checked, check_id_token, Tokens, Session, revoked,
  proved_by, exchanged, exchange_sign_in,
}
use go_authbyte.Jwks
use go_authbyte.Jwks.Rotation.{IsFresh, key-IsFresh}

-- The moment that a sign-in began: the one given, or now where none is.
abbrev pub Begins : IdTokenCheck → ℕ → ℕ → Type 0
Begins check now from =
    ((check.started ≡ 0) × (from ≡ now)) ⊎ ((check.started ≢ 0) × (from ≡ check.started))

-- The age that a sign-in asked is met by the time of its authentication, with 30 seconds of leeway.
abbrev pub MeetsAge : IdTokenCheck → ℕ → ℕ → Type 0
MeetsAge check now at =
    (age : ℕ)
    → check.max_age ≡ some age
    → (at ≢ 0) × (from : ℕ) × Begins check now from × (from ≤ at + age + 30000000000)

-- A time that a token may lack, which is then 0.
abbrev pub TimeOf : Option ℕ → ℕ → Type 0
TimeOf o at = ((o ≡ none) × (at ≡ 0)) ⊎ (o ≡ some at)

-- The claims of a sign-in's own token, and what is read of them.
abbrev pub Proves : IdTokenCheck → ℕ → IdTokenClaims → IdToken → Type 0
Proves check now cl id =
    ((aud : Bytes) × (cl.audience ≡ aud ∷ []))
    × (cl.subject ≢ [])
    × ((at : ℕ) × (cl.issued_at ≡ some at))
    × ((check.acr_values ≡ []) ⊎ (is_in (fields check.acr_values) cl.acr ≡ true))
    × (cl.nonce ≢ [])
    × (cl.nonce ≡ check.nonce)
    × TimeOf cl.auth_time id.auth_time
    × MeetsAge check now id.auth_time
    × (id.subject ≡ cl.subject)
    × (id.acr ≡ cl.acr)
    × (id.amr ≡ cl.amr)
    × (id.session_id ≡ cl.sid)

guards :
    (a b c d e f g h : Bool) (x y : IdToken)
    → ◌≡◌ {A = Result SignInError IdToken}
        (if not a
          then err unproved
          else if b || not c
          then err unproved
          else if not d && not e
          then err unproved
          else if f || not g
          then err unproved
          else if h
          then err unproved
          else ok x)
        (ok y)
    → (a ≡ true)
      × (b ≡ false)
      × (c ≡ true)
      × ((d ≡ true) ⊎ (e ≡ true))
      × (f ≡ false)
      × (g ≡ true)
      × (h ≡ false)
      × (x ≡ y)
guards false b c d e f g h x y q = cc
guards true true c d e f g h x y q = cc
guards true false false d e f g h x y q = cc
guards true false true false false f g h x y q = cc
guards true false true d e true g h x y q = elim (Bool-cases (not d && not e)) [
  | inl u ↦ ground arith
  | inr u ↦ ground arith
]
guards true false true d e false false h x y q = elim (Bool-cases (not d && not e)) [
  | inl u ↦ ground arith
  | inr u ↦ ground arith
]
guards true false true d e false true true x y q = elim (Bool-cases (not d && not e)) [
  | inl u ↦ ground arith
  | inr u ↦ ground arith
]
guards true false true true e false true false x y q =
    (refl, refl, refl, inl refl, refl, refl, refl, ok_inj q)
guards true false true false true false true false x y q =
    (refl, refl, refl, inr refl, refl, refl, refl, ok_inj q)

single_one : (auds : List Bytes) → single auds ≡ true → (aud : Bytes) × (auds ≡ aud ∷ [])
single_one [] h = cc
single_one (a ∷ []) h = (a, refl)
single_one (a ∷ b ∷ auds) h = cc

begun-Begins : (check : IdTokenCheck) (now : ℕ) → Begins check now (begun check now)
begun-Begins check now = elim (Bool-cases (nat_eq check.started 0)) [
  | inl e ↦ inl ((nat_eq_iff check.started 0).0 e, rw e refl)
  | inr e ↦ inr ((λ z. let y = (nat_eq_iff check.started 0).1 z in cc), rw e refl)
]

too_old-MeetsAge :
    (check : IdTokenCheck) (now at : ℕ) → too_old check now at ≡ false → MeetsAge check now at
too_old-MeetsAge check now at h age e =
    let q =
      sym (
        ap
          (λ o. elim o [
            | none ↦ false
            | some age ↦ nat_eq at 0 || ltb at (begun check now - (age + clock_skew))
          ])
          e)
      ∙ h in
    let (dated, recent) = in_age at (begun check now) age q in
    (dated, begun check now, begun-Begins check now, recent)
  where
    in_age :
        (at from age : ℕ)
        → (nat_eq at 0 || ltb at (from - (age + clock_skew))) ≡ false
        → (at ≢ 0) × (from ≤ at + age + 30000000000)
    in_age at from age q = ((λ z. ground arith), ground arith)

not_empty : (s : Bytes) → is_empty s ≡ false → s ≢ []
not_empty [] h = cc
not_empty (c ∷ s) h = λ q. cc

set_some : (o : Option ℕ) → is_set o ≡ true → (at : ℕ) × (o ≡ some at)
set_some none h = cc
set_some (some at) h = (at, refl)

time_or_zero-TimeOf : (o : Option ℕ) → TimeOf o (time_or_zero o)
time_or_zero-TimeOf none = inl (refl, refl)
time_or_zero-TimeOf (some at) = inr refl

check_claims-Proves :
    (check : IdTokenCheck) (now : ℕ) (cl : IdTokenClaims) (id : IdToken)
    → check_claims check now cl ≡ ok id
    → Proves check now cl id
unfolding check_claims
check_claims-Proves check now cl id h =
    let (a, b, c, d, f, g, old, same) =
      guards (single cl.audience) (is_empty cl.subject) (is_set cl.issued_at)
        (is_empty check.acr_values) (is_in (fields check.acr_values) cl.acr) (is_empty cl.nonce)
        (cl.nonce == check.nonce) (too_old check now (time_or_zero cl.auth_time)) (id_of cl) id h in
    let at = ap (λ x. x.auth_time) same in
    (
      single_one cl.audience a,
      not_empty cl.subject b,
      set_some cl.issued_at c,
      elim d [ inl e ↦ inl (is_empty-nil check.acr_values e) | inr e ↦ inr e ],
      not_empty cl.nonce f,
      (==_iff cl.nonce check.nonce).0 g,
      subst (TimeOf cl.auth_time) at (time_or_zero-TimeOf cl.auth_time),
      subst (MeetsAge check now) at (too_old-MeetsAge check now (time_or_zero cl.auth_time) old),
      sym (ap (λ x. x.subject) same),
      sym (ap (λ x. x.acr) same),
      sym (ap (λ x. x.amr) same),
      sym (ap (λ x. x.session_id) same),
    )

module _ {K : Type 0} (t : TokenLibrary K) (c : Client) (x : Reading K) where
  -- The token is verified by a key that is in the server's set and not too old when it is looked up, for
  -- this client and its issuer, and its claims prove the sign-in.
  abbrev pub IsProof : Jwks.Client K → Bytes → IdTokenCheck → IdToken → Type 0
  IsProof keys raw check id =
      (kid : Bytes) × (k : K) × (cl : IdTokenClaims) × (t.header raw ≡ some kid)
      × (IsFresh keys x.key_first kid k ⊎ IsFresh keys x.key_last kid k)
      × (t.verified (record { issuer = c.issuer; audience = c.client_id; leeway = 30000000000 }) raw
            k x.token_at
          ≡ some cl)
      × Proves check x.now cl id

  or_unproved-ok :
      (o : Option IdTokenClaims) (cl : IdTokenClaims) → or_unproved o ≡ ok cl → o ≡ some cl
  or_unproved-ok none cl h = cc
  or_unproved-ok (some d) cl h = ap some (ok_inj h)

  with_key-IsProof :
      (raw kid : Bytes) (check : IdTokenCheck) (id : IdToken)
      (p : Jwks.Client K × Result Jwks.KeyError K)
      → t.header raw ≡ some kid
      → ((k : K) → p.1 ≡ ok k → IsFresh p.0 x.key_first kid k ⊎ IsFresh p.0 x.key_last kid k)
      → (checked t c x check (with_key t c x raw p)).1 ≡ ok id
      → IsProof (checked t c x check (with_key t c x raw p)).0 raw check id
  with_key-IsProof raw kid check id (keys, err e) head fresh h = cc
  with_key-IsProof raw kid check id (keys, ok k) head fresh h =
      let (cl, verified, proves) =
        bind-ok (or_unproved (t.verified (parser c) raw k x.token_at)) (check_claims check x.now)
          h in
      (
        kid,
        k,
        cl,
        head,
        fresh k refl,
        or_unproved-ok _ cl verified,
        check_claims-Proves check x.now cl id proves,
      )

  with_header-IsProof :
      (keys : Jwks.Client K) (raw : Bytes) (o : Option Bytes) (check : IdTokenCheck) (id : IdToken)
      → t.header raw ≡ o
      → (checked t c x check (with_header t c x keys raw o)).1 ≡ ok id
      → IsProof (checked t c x check (with_header t c x keys raw o)).0 raw check id
  with_header-IsProof keys raw none check id head h = cc
  with_header-IsProof keys raw (some kid) check id head h =
      with_key-IsProof raw kid check id
        (Jwks.key keys x.key_first x.key_now x.key_done x.key_last x.reply kid) head
        (λ k e. key-IsFresh keys x.key_first x.key_now x.key_done x.key_last x.reply kid k e) h

  check_id_token-IsProof :
      (keys : Jwks.Client K) (raw : Bytes) (check : IdTokenCheck) (id : IdToken)
      → (check_id_token t c x keys raw check).1 ≡ ok id
      → IsProof (check_id_token t c x keys raw check).0 raw check id
  unfolding check_id_token
  check_id_token-IsProof keys [] check id h = cc
  check_id_token-IsProof keys (b ∷ raw) check id h =
      with_header-IsProof keys (b ∷ raw) (t.header (b ∷ raw)) check id refl h

  module _ {T : Type 0} (w : Resource T) (l : Libraries) (decode : Bytes → Option Tokens) where
    -- The session that an exchange opened is ended where there is a refresh token to end it by.
    abbrev pub Ended : Wire T → Bytes → Wire T → Type 0
    Ended v refresh_token y =
        ((refresh_token ≡ []) × (y ≡ v))
        ⊎ ((refresh_token ≢ []) × Sends w l c v (revocation w l c refresh_token) y)

    -- The results of a sign-in's exchange, by that of the code's.
    abbrev pub Outcome :
        Jwks.Client K
        → IdTokenCheck
        → Wire T × Result CallError Tokens
        → Session K T × Result SignInError (Tokens × IdToken)
        → Type 0
    Outcome keys check (v, err e) q = (q.1 ≡ err (exchange_failed e)) × (q.0.wire ≡ v)
    Outcome keys check (v, ok tokens) q =
        ((id : IdToken) × (q.1 ≡ ok (tokens, id))
          × IsProof q.0.keys tokens.id_token check id
          × (q.0.wire ≡ v))
        ⊎ ((e : SignInError) × ((check_id_token t c x keys tokens.id_token check).1 ≡ err e)
            × (q.1 ≡ err e)
            × Ended v tokens.refresh_token q.0.wire)

    revoked-Ended :
        (v : Wire T) (refresh_token : Bytes)
        → Ended v refresh_token (revoked t w l decode c x v refresh_token)
    revoked-Ended v [] = inl (refl, refl)
    revoked-Ended v (b ∷ refresh_token) = inr ((λ q. cc), revoke-Sends w l c v (b ∷ refresh_token))

    proved_by-Outcome :
        (keys : Jwks.Client K) (check : IdTokenCheck) (v : Wire T) (tokens : Tokens)
        (p : Jwks.Client K × Result SignInError IdToken)
        → check_id_token t c x keys tokens.id_token check ≡ p
        → ((id : IdToken) → p.1 ≡ ok id → IsProof p.0 tokens.id_token check id)
        → Outcome keys check (v, ok tokens) (proved_by t w l decode c x v tokens p)
    proved_by-Outcome keys check v tokens (k, err e) same f =
        inr (e, ap (λ p. p.1) same, refl, revoked-Ended v tokens.refresh_token)
    proved_by-Outcome keys check v tokens (k, ok id) same f = inl (id, refl, f id refl, refl)

    exchanged-Outcome :
        (keys : Jwks.Client K) (check : IdTokenCheck) (p : Wire T × Result CallError Tokens)
        → Outcome keys check p (exchanged t w l decode c x keys check p)
    exchanged-Outcome keys check (v, err e) = (refl, refl)
    exchanged-Outcome keys check (v, ok tokens) =
        proved_by-Outcome keys check v tokens (check_id_token t c x keys tokens.id_token check) refl
          (λ id h. check_id_token-IsProof keys tokens.id_token check id h)

    -- A sign-in of a client that names its issuer, with a nonce: an exchange that fails is its error.
    -- Where tokens come, they are returned only with an ID token that proves this sign-in, and what is
    -- read of it is what it says; where the check of it fails there is the check's error, and a
    -- revocation of the refresh token is sent, where there is one, and sent again over the nonce of a
    -- challenge. What the server makes of the revocation changes nothing.
    pub exchange_sign_in-Outcome :
        (s : Session K T) (code verifier : Bytes) (check : IdTokenCheck)
        → is_empty c.issuer ≡ false
        → is_empty check.nonce ≡ false
        → Outcome s.keys check
            (exchange_code w l c decode s.wire code verifier)
            (exchange_sign_in t w l decode c x s code verifier check)
    unfolding exchange_sign_in
    exchange_sign_in-Outcome s code verifier check named nonce =
        rw (named, nonce)
          (exchanged-Outcome s.keys check (exchange_code w l c decode s.wire code verifier))
