-- ===== src/Dpop/RoundTrip.antt =====
-- dpop/dpop.go: a proof that is made is verified.
use go_authbyte.Base.{
  ℕ, ◌+◌, ◌*◌, ◌/◌, ◌≤◌, ◌≡◌, refl, sym, ap, ◌∙◌, subst, ◌⊎◌, inl, inr, Bool, true, false, not,
  ◌&&◌, Option, none, some, [], ◌∷◌, map, arith, if◌then◌else◌, ◌==◌, ==_iff, ==_refl, Bytes,
  ℕ_comparable, Bytes_comparable, Result, ok, err, ◌>>=◌, bind-ok, ok_inj,
}
use go_authbyte.Base.Texts.{to_upper}
use go_authbyte.Apikeys.Encoding.Base64.{url_safe, encode}
use go_authbyte.Dpop.{
  Error, wrong_url, wrong_hash, expired, missing_nonce, wrong_method, Jwk, ProofClaims,
  VerifyOptions, Proved, Libraries, header_type, access_token_hash, normalize_htu, thumbprint_of,
  proof_key, signed, parse_with, parse_proof, is_empty, out_of_window, not_fresh, check_claims,
  check_proof, verify,
}
use go_authbyte.Dpop.Accepts.{NamesRequest}
use go_authbyte.Dpop.Generate.{
  second, GenerateError, Signer, random_id, proof_url, new_claims, public_header, sign_with,
  generate_proof, IsSigner,
}

guards :
    (a b c d e f : Bool) (q : Proved)
    → a ≡ true
    → (b ≡ true) ⊎ (c ≡ true)
    → d ≡ false
    → (e ≡ false) ⊎ (f ≡ false)
    → (if not a
        then err wrong_url
        else if not b && not c
        then err wrong_hash
        else if d
        then err expired
        else if e && f
        then err missing_nonce
        else ok q)
      ≡ ok q
guards false b c d e f q g h i j = cc
guards true b c true e f q g h i j = cc
guards true true c false false f q g h i j = refl
guards true false true false false f q g h i j = refl
guards true true c false true false q g h i j = refl
guards true false true false true false q g h i j = refl
guards true false false d e f q g h i j = elim h [ inl p ↦ cc | inr p ↦ cc ]
guards true b c d true true q g h i j = elim j [ inl p ↦ cc | inr p ↦ cc ]

not_fresh-some :
    (opt : VerifyOptions) (now iat : ℕ)
    → now ≤ iat + opt.max_age + opt.leeway
    → iat ≤ now + opt.leeway
    → not_fresh opt now (some iat) ≡ false
unfolding out_of_window
not_fresh-some opt now iat young past = ground arith

ath-hash :
    (hash : Bytes → Bytes) (u token : Bytes)
    → u ≡ token
    → (is_empty u ≡ true) ⊎ ((if is_empty token then [] else hash token) ≡ hash u)
ath-hash hash u [] e = inl (ap is_empty e)
ath-hash hash u (c ∷ token) e = inr (ap hash (sym e))

-- Claims that name the request pass.
check_proof-NamesRequest :
    (w : Libraries) (opt : VerifyOptions) (now : ℕ) (thumbprint : Bytes) (c : ProofClaims)
    → NamesRequest w opt now c
    → check_proof w opt now (thumbprint, c)
      ≡ ok (record { thumbprint = thumbprint; jti = c.id; nonce = c.nonce })
unfolding check_proof check_claims
check_proof-NamesRequest w opt now thumbprint c (method, url, hash, (iat, at, young, past), nonce) =
    ap
      (λ b.
        if not b
        then err wrong_method
        else (normalize_htu w opt.url >>= check_claims w opt now thumbprint c))
      method
    ∙ ap (λ r. r >>= check_claims w opt now thumbprint c) url
    ∙ guards (c.htu == c.htu) (is_empty opt.access_token)
        (c.ath == access_token_hash w.sha256 opt.access_token) (not_fresh opt now c.issued_at)
        opt.require_nonce (is_empty c.nonce) _ (==_refl c.htu) (hashed hash)
        (ap (not_fresh opt now) at ∙ not_fresh-some opt now iat young past) nonce
  where
    hashed :
        (is_empty opt.access_token ≡ true) ⊎ (c.ath ≡ access_token_hash w.sha256 opt.access_token)
        → (is_empty opt.access_token ≡ true)
          ⊎ ((c.ath == access_token_hash w.sha256 opt.access_token) ≡ true)
    hashed (inl h) = inl h
    hashed (inr h) = inr ((==_iff c.ath (access_token_hash w.sha256 opt.access_token)).1 h)

module _ {Key : Type 0} (w : Libraries) (s : Signer Key) (key : Key) where
  proof_url-ok :
      (r : Result Error Bytes) (htu : Bytes)
      → ◌≡◌ {A = Result GenerateError Bytes}
          (elim r [ err e ↦ err GenerateError.bad_url | ok u ↦ ok u ])
          (ok htu)
      → r ≡ ok htu
  proof_url-ok (err e) htu h = cc
  proof_url-ok (ok u) htu h = ap ok (ok_inj h)

  sign_with-ok :
      (c : ProofClaims) (k : Jwk) (proof : Bytes)
      → sign_with s key c k ≡ ok proof
      → s.sign key (record { typ = some header_type; jwk = some (some k) }) c ≡ some proof
  sign_with-ok c k proof h =
      go (s.sign key (record { typ = some header_type; jwk = some (some k) }) c) h
    where
      go :
          (o : Option Bytes)
          → ◌≡◌ {A = Result GenerateError Bytes}
              (elim o [ none ↦ err GenerateError.not_signed | some p ↦ ok p ])
              (ok proof)
          → o ≡ some proof
      go none h = cc
      go (some p) h = ap some (ok_inj h)

  -- What a proof is made of.
  Made : ℕ → Option Bytes → Bytes → Bytes → Bytes → Bytes → Jwk → Bytes → Type 0
  Made now random method url token nonce k proof =
      (htu : Bytes) × (jti : Bytes) × (normalize_htu w url ≡ ok htu)
      × (random_id random ≡ ok jti)
      × (s.sign key (record { typ = some header_type; jwk = some (some k) })
            (new_claims w now jti method htu token nonce)
          ≡ some proof)

  public_header-ok : (k l : Jwk) → s.public key ≡ some k → public_header s key ≡ ok l → k ≡ l
  public_header-ok k l e h = go (s.public key) e h
    where
      go :
          (o : Option Jwk)
          → o ≡ some k
          → ◌≡◌ {A = Result GenerateError Jwk}
              (elim o [ none ↦ err GenerateError.bad_key | some k ↦ ok k ])
              (ok l)
          → k ≡ l
      go none e h = cc
      go (some x) e h = cc

  generate_proof-Made :
      (now : ℕ) (random : Option Bytes) (method url token nonce : Bytes) (k : Jwk) (proof : Bytes)
      → s.public key ≡ some k
      → generate_proof w s now random key method url token nonce ≡ ok proof
      → Made now random method url token nonce k proof
  unfolding generate_proof Made
  generate_proof-Made now random method url token nonce k proof e h =
      let (htu, a, i) = bind-ok (proof_url w url) _ h in
      let (jti, b, j) = bind-ok (random_id random) _ i in
      let (l, c, m) = bind-ok (public_header s key) _ j in
      (
        htu,
        jti,
        proof_url-ok (normalize_htu w url) htu a,
        b,
        sign_with-ok _ k proof (
            subst (λ x. sign_with s key (new_claims w now jti method htu token nonce) x ≡ ok proof)
              (sym (public_header-ok k l e c)) m),
      )

  usable-ok :
      (k : Jwk) (d : Bytes) (b c : Bool) (o : Option Bytes)
      → b ≡ true
      → c ≡ true
      → o ≡ some d
      → ◌≡◌ {A = Result Error (Jwk × Bytes)}
          (if b && c then thumbprint_of k o else err Error.bad_key)
          (ok (k, encode url_safe d))
  usable-ok k d b c none e f g = cc
  usable-ok k d true true (some x) e f g = ap (λ y. thumbprint_of k y) g
  usable-ok k d true false (some x) e f g = cc
  usable-ok k d false c (some x) e f g = cc

  parsed :
      (k : Jwk) (d : Bytes) (c : ProofClaims) (proof : Bytes)
      → IsSigner w s
      → s.public key ≡ some k
      → k.digest ≡ some d
      → s.sign key (record { typ = some header_type; jwk = some (some k) }) c ≡ some proof
      → parse_proof w proof ≡ ok (encode url_safe d, c)
  unfolding parse_proof proof_key
  parsed k d c proof i e f g =
      let (public, curve) = i.public_is key k e in
      ap (parse_with w proof) (i.read key _ c proof g)
      ∙ ap (λ r. r >>= λ l. signed l.1 (w.verified proof l.0))
          (usable-ok k d k.is_public k.is_ecdsa k.digest public curve f)
      ∙ ap (signed (encode url_safe d)) (i.verifies key k _ c proof e g)

  -- A proof that `GenerateProof` makes is accepted for the same request and token by a server whose
  -- clock is within the proof's age, with the thumbprint of the key, a random identifier and the
  -- nonce it was made with. The libraries read signed proofs back.
  pub verify-generate_proof :
      (now later : ℕ) (random : Option Bytes) (method url token nonce : Bytes) (k : Jwk)
      (d proof : Bytes) (opt : VerifyOptions)
      → IsSigner w s
      → s.public key ≡ some k
      → k.digest ≡ some d
      → generate_proof w s now random key method url token nonce ≡ ok proof
      → w.equal_fold (map to_upper method) opt.method ≡ true
      → normalize_htu w opt.url ≡ normalize_htu w url
      → opt.access_token ≡ token
      → (later ≤ now / second * second + (opt.max_age + opt.leeway))
        × (now / second * second ≤ later + opt.leeway)
      → (opt.require_nonce ≡ false) ⊎ (is_empty nonce ≡ false)
      → (jti : Bytes) × (random_id random ≡ ok jti)
        × (verify w opt later proof
            ≡ ok (record { thumbprint = encode url_safe d; jti = jti; nonce = nonce }))
  unfolding verify check_proof check_claims Made
  verify-generate_proof now later random method url token nonce k d proof opt i e f g same_method
        same_url same_token (young, past) has_nonce =
      let (htu, jti, a, b, c) = generate_proof-Made now random method url token nonce k proof e g in
      (
        jti,
        b,
        ap (λ r. r >>= check_proof w opt later) (parsed k d _ proof i e f c)
            ∙ check_proof-NamesRequest w opt later (encode url_safe d)
                (new_claims w now jti method htu token nonce)
                (
                  same_method,
                  same_url ∙ a,
                  ath-hash (access_token_hash w.sha256) opt.access_token token same_token,
                  (now / second * second, refl, omega arith, omega arith),
                  has_nonce,
                ),
      )
