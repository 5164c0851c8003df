-- ===== src/Dpop/Accepts.antt =====
-- dpop/dpop.go: what an accepted proof proves.
use go_authbyte.Base.{
  ℕ, ◌+◌, ◌≤◌, ◌≡◌, refl, sym, ap, ◌∙◌, subst, ◌⊎◌, inl, inr, Bool, true, false, not, ◌&&◌, Option,
  none, some, arith, if◌then◌else◌, ◌==◌, Bytes, bytes_eq_iff, ℕ_comparable, Bytes_comparable, ok,
  err, ◌>>=◌, bind-ok, ok_inj,
}
use go_authbyte.Apikeys.Encoding.Base64.{url_safe, encode}
use go_authbyte.Dpop.{
  Libraries, VerifyOptions, ProofClaims, Proved, Header, Jwk, wrong_type, bad_key, wrong_method,
  wrong_url, wrong_hash, expired, missing_nonce, header_type, access_token_hash, normalize_htu,
  key_from_header, usable, thumbprint_of, is_type, proof_key, signed, parse_with, parse_proof,
  is_empty, out_of_window, not_fresh, check_claims, check_proof, verify,
}

-- The claims name the request, and are fresh at `now`.
abbrev pub NamesRequest : Libraries → VerifyOptions → ℕ → ProofClaims → Type 0
NamesRequest w opt now c =
    (w.equal_fold c.htm opt.method ≡ true)
    × (normalize_htu w opt.url ≡ ok c.htu)
    × ((is_empty opt.access_token ≡ true) ⊎ (c.ath ≡ access_token_hash w.sha256 opt.access_token))
    × ((iat : ℕ) × (c.issued_at ≡ some iat)
        × (now ≤ iat + opt.max_age + opt.leeway)
        × (iat ≤ now + opt.leeway))
    × ((opt.require_nonce ≡ false) ⊎ (is_empty c.nonce ≡ false))

fresh-iat :
    (opt : VerifyOptions) (now : ℕ) (o : Option ℕ)
    → not_fresh opt now o ≡ false
    → (iat : ℕ) × (o ≡ some iat) × (now ≤ iat + opt.max_age + opt.leeway) × (iat ≤ now + opt.leeway)
unfolding out_of_window
fresh-iat opt now none h = cc
fresh-iat opt now (some iat) h = (iat, refl, ground arith, ground arith)

four_guards :
    (a b c d e f : Bool) (q r : Proved)
    → (if not a
        then err wrong_url
        else if not b && not c
        then err wrong_hash
        else if d
        then err expired
        else if e && f
        then err missing_nonce
        else ok q)
      ≡ ok r
    → (a ≡ true) × ((b ≡ true) ⊎ (c ≡ true)) × (d ≡ false) × ((e ≡ false) ⊎ (f ≡ false)) × (r ≡ q)
four_guards false b c d e f q r h = cc
four_guards true false false d e f q r h = cc
four_guards true false true true e f q r h = cc
four_guards true false true false true true q r h = cc
four_guards true false true false true false q r h =
    (refl, inr refl, refl, inr refl, sym (ok_inj h))
four_guards true false true false false f q r h = (refl, inr refl, refl, inl refl, sym (ok_inj h))
four_guards true true c true e f q r h = cc
four_guards true true c false true true q r h = cc
four_guards true true c false true false q r h = (refl, inl refl, refl, inr refl, sym (ok_inj h))
four_guards true true c false false f q r h = (refl, inl refl, refl, inl refl, sym (ok_inj h))

check_claims-ok :
    (w : Libraries) (opt : VerifyOptions) (now : ℕ) (thumbprint : Bytes) (c : ProofClaims)
    (want : Bytes) (r : Proved)
    → normalize_htu w opt.url ≡ ok want
    → w.equal_fold c.htm opt.method ≡ true
    → check_claims w opt now thumbprint c want ≡ ok r
    → NamesRequest w opt now c
      × (r ≡ record { thumbprint = thumbprint; jti = c.id; nonce = c.nonce })
unfolding check_claims
check_claims-ok w opt now thumbprint c want r url method h =
    let hash = access_token_hash w.sha256 opt.access_token in
    let (same, hashed, fresh, nonced, result) =
      four_guards (c.htu == want) (is_empty opt.access_token) (c.ath == hash)
        (not_fresh opt now c.issued_at) opt.require_nonce (is_empty c.nonce)
        (record { thumbprint = thumbprint; jti = c.id; nonce = c.nonce }) r h in
    (
      (
        method,
        url ∙ ap ok (sym ((bytes_eq_iff c.htu want).0 same)),
        right hashed,
        fresh-iat opt now c.issued_at fresh,
        nonced,
      ),
      result,
    )
  where
    right :
        ((is_empty opt.access_token ≡ true)
          ⊎ ((c.ath == access_token_hash w.sha256 opt.access_token) ≡ true))
        → (is_empty opt.access_token ≡ true) ⊎ (c.ath ≡ access_token_hash w.sha256 opt.access_token)
    right (inl e) = inl e
    right (inr e) = inr ((bytes_eq_iff c.ath (access_token_hash w.sha256 opt.access_token)).0 e)

check_proof-ok :
    (w : Libraries) (opt : VerifyOptions) (now : ℕ) (thumbprint : Bytes) (c : ProofClaims)
    (r : Proved)
    → check_proof w opt now (thumbprint, c) ≡ ok r
    → NamesRequest w opt now c
      × (r ≡ record { thumbprint = thumbprint; jti = c.id; nonce = c.nonce })
unfolding check_proof
check_proof-ok w opt now thumbprint c r h = folded (w.equal_fold c.htm opt.method) refl h
  where
    folded :
        (b : Bool)
        → w.equal_fold c.htm opt.method ≡ b
        → (if not b
            then err wrong_method
            else normalize_htu w opt.url >>= check_claims w opt now thumbprint c)
          ≡ ok r
        → NamesRequest w opt now c
          × (r ≡ record { thumbprint = thumbprint; jti = c.id; nonce = c.nonce })
    folded false e k = cc
    folded true e k =
        let (want, url, checked) =
          bind-ok (normalize_htu w opt.url) (check_claims w opt now thumbprint c) k in
        check_claims-ok w opt now thumbprint c want r url e checked

-- The proof is signed by the public key of its header, which is of the curve type.
abbrev pub IsSigned : Libraries → Bytes → Bytes → ProofClaims → Type 0
IsSigned w proof thumbprint c =
    (h : Header) × (k : Jwk) × (d : Bytes) × (w.unverified proof ≡ some h)
    × (h.typ ≡ some header_type)
    × (h.jwk ≡ some (some k))
    × (k.is_public ≡ true)
    × (k.is_ecdsa ≡ true)
    × (k.digest ≡ some d)
    × (encode url_safe d ≡ thumbprint)
    × (w.verified proof k ≡ some c)

is_type-some : (o : Option Bytes) → is_type o ≡ true → o ≡ some header_type
is_type-some none h = cc
is_type-some (some t) h = ap some ((bytes_eq_iff t header_type).0 h)

abbrev UsableKey : Option (Option Jwk) → Jwk → Bytes → Type 0
UsableKey o k thumbprint =
    (d : Bytes) × (o ≡ some (some k))
    × (k.is_public ≡ true)
    × (k.is_ecdsa ≡ true)
    × (k.digest ≡ some d)
    × (encode url_safe d ≡ thumbprint)

thumbprint_of-ok :
    (j : Jwk) (o : Option Bytes) (k : Jwk) (thumbprint : Bytes)
    → thumbprint_of j o ≡ ok (k, thumbprint)
    → (d : Bytes) × (o ≡ some d) × (j ≡ k) × (encode url_safe d ≡ thumbprint)
thumbprint_of-ok j none k thumbprint h = cc
thumbprint_of-ok j (some d) k thumbprint h =
    (d, refl, ap (λ p. p.0) (ok_inj h), ap (λ p. p.1) (ok_inj h))

usable-ok :
    (o : Option (Option Jwk)) (k : Jwk) (thumbprint : Bytes)
    → usable o ≡ ok (k, thumbprint)
    → UsableKey o k thumbprint
usable-ok none k thumbprint h = cc
usable-ok (some none) k thumbprint h = cc
usable-ok (some (some j)) k thumbprint h = go j.is_public j.is_ecdsa refl refl h
  where
    go :
        (a b : Bool)
        → j.is_public ≡ a
        → j.is_ecdsa ≡ b
        → (if a && b then thumbprint_of j j.digest else err bad_key) ≡ ok (k, thumbprint)
        → UsableKey (some (some j)) k thumbprint
    go true true ea eb g =
        let (d, digest, same, spelt) = thumbprint_of-ok j j.digest k thumbprint g in
        (
          d,
          ap (λ x. some (some x)) same,
          ap (λ x. x.is_public) (sym same) ∙ ea,
          ap (λ x. x.is_ecdsa) (sym same) ∙ eb,
          ap (λ x. x.digest) (sym same) ∙ digest,
          spelt,
        )
    go true false ea eb g = cc
    go false b ea eb g = cc

proof_key-ok :
    (h : Header) (k : Jwk) (thumbprint : Bytes)
    → proof_key h ≡ ok (k, thumbprint)
    → (h.typ ≡ some header_type) × UsableKey h.jwk k thumbprint
unfolding proof_key key_from_header
proof_key-ok h k thumbprint e = go (is_type h.typ) refl e
  where
    go :
        (b : Bool)
        → is_type h.typ ≡ b
        → (if b then usable h.jwk else err wrong_type) ≡ ok (k, thumbprint)
        → (h.typ ≡ some header_type) × UsableKey h.jwk k thumbprint
    go true t g = (is_type-some h.typ t, usable-ok h.jwk k thumbprint g)
    go false t g = cc

signed-ok :
    (thumbprint t : Bytes) (o : Option ProofClaims) (c : ProofClaims)
    → signed thumbprint o ≡ ok (t, c)
    → (o ≡ some c) × (thumbprint ≡ t)
signed-ok thumbprint t none c h = cc
signed-ok thumbprint t (some d) c h = (ap (λ p. some p.1) (ok_inj h), ap (λ p. p.0) (ok_inj h))

parse_with-ok :
    (w : Libraries) (proof : Bytes) (o : Option Header) (thumbprint : Bytes) (c : ProofClaims)
    → w.unverified proof ≡ o
    → parse_with w proof o ≡ ok (thumbprint, c)
    → IsSigned w proof thumbprint c
unfolding proof_key
parse_with-ok w proof none thumbprint c e h = cc
parse_with-ok w proof (some head) thumbprint c e h =
    let (k, keyed, verified) =
      bind-ok (proof_key head) (λ k. signed k.1 (w.verified proof k.0)) h in
    let (typ, (d, jwk, public, curve, digest, spelt)) = proof_key-ok head k.0 k.1 keyed in
    let (checked, same) = signed-ok k.1 thumbprint (w.verified proof k.0) c verified in
    (head, k.0, d, e, typ, jwk, public, curve, digest, spelt ∙ same, checked)

-- An accepted proof is signed by the public key in its header, whose thumbprint the result has; it
-- names the method and the address of the request, the hash of the access token where there is one,
-- a time of issue within the window, and a nonce where one is required; the result has its
-- identifier and its nonce.
pub verify-ok :
    (w : Libraries) (opt : VerifyOptions) (now : ℕ) (proof : Bytes) (r : Proved)
    → verify w opt now proof ≡ ok r
    → (c : ProofClaims) × IsSigned w proof r.thumbprint c
      × NamesRequest w opt now c
      × (r.jti ≡ c.id)
      × (r.nonce ≡ c.nonce)
unfolding verify parse_proof
verify-ok w opt now proof r h =
    let (p, parsed, checked) =
      bind-ok (parse_with w proof (w.unverified proof)) (check_proof w opt now) h in
    let (named, result) = check_proof-ok w opt now p.0 p.1 r checked in
    let is_signed = parse_with-ok w proof (w.unverified proof) p.0 p.1 refl parsed in
    (
      p.1,
      subst (λ t. IsSigned w proof t p.1) (sym (ap (λ q. q.thumbprint) result)) is_signed,
      named,
      ap (λ q. q.jti) result,
      ap (λ q. q.nonce) result,
    )
