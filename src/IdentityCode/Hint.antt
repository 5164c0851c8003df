-- ===== src/IdentityCode/Hint.antt =====
-- identitycode/identitycode.go: the loop of `Canonical`, and when the country hint is read.
use go_authbyte.Base.{
  ℕ, zero, suc, ◌≤◌, ◌<◌, ◌≡◌, refl, ◌⊎◌, inl, inr, none, some, [], ◌∷◌, arith, Option-cases,
  length, Bytes, ℕ_comparable, Bytes_comparable, ok, err,
}
use go_authbyte.IdentityCode.Chars.{trim_space}
use go_authbyte.IdentityCode.Trim.{length-trim_space}
use go_authbyte.IdentityCode.{
  Error, cross_border_form, country_code, unwrap, canonical_bare, canonical_unwrapped, canonical,
}

cross_border_cons :
    (x0 x1 x2 x3 x4 x5 x6 : ℕ) (rest pair t : Bytes)
    → cross_border_form (x0 ∷ x1 ∷ x2 ∷ x3 ∷ x4 ∷ x5 ∷ x6 ∷ rest) ≡ some (pair, t)
    → t ≡ x6 ∷ rest
unfolding cross_border_form
cross_border_cons x0 x1 x2 x3 x4 x5 x6 rest pair t h = ground arith

-- A pass of the loop shortens the value.
cross_border_shorter :
    (v pair t : Bytes) → cross_border_form v ≡ some (pair, t) → length t < length v
unfolding cross_border_form
cross_border_shorter (x0 ∷ x1 ∷ x2 ∷ x3 ∷ x4 ∷ x5 ∷ x6 ∷ rest) pair t h =
    rw (cross_border_cons x0 x1 x2 x3 x4 x5 x6 rest pair t h) (omega arith)
cross_border_shorter _ _ _ h = absurd (cc)

-- With as many rounds as the value has characters, the loop of `Canonical` ends by its own test:
-- no country pair is left.
pub unwrap_ends :
    (fuel : ℕ) (country v : Bytes)
    → length v ≤ fuel
    → cross_border_form (unwrap fuel country v).1 ≡ none
unfolding unwrap
unwrap_ends zero country [] h = unfold cross_border_form in refl
unwrap_ends zero country (x ∷ v) h = absurd (omega arith)
unwrap_ends (suc fuel) country v h = elim (Option-cases (cross_border_form v)) [
  | inl e ↦ rw (e, unwrap) e
  | inr ((next, t), e) ↦
      rw (e, unwrap)
        (unwrap_ends fuel next (trim_space t)
          (omega (arith, length-trim_space t, cross_border_shorter v next t e)))
]

-- The hint is kept until the first country pair, and then forgotten.
unwrap_hint :
    (fuel : ℕ) (a b v : Bytes)
    → (unwrap fuel a v ≡ unwrap fuel b v)
      ⊎ ((unwrap fuel a v ≡ (a, v)) × (unwrap fuel b v ≡ (b, v)))
unfolding unwrap
unwrap_hint zero a b v = inr (refl, refl)
unwrap_hint (suc fuel) a b v = elim (Option-cases (cross_border_form v)) [
  | inl e ↦ inr (rw (e, unwrap), rw (e, unwrap))
  | inr ((next, t), e) ↦ inl (rw (e, unwrap))
]

country_code-nil : country_code [] ≡ err Error.country_required
unfolding country_code trim_space
country_code-nil = refl

-- A bare code without a country is refused.
pub canonical_bare-nil : (v : Bytes) → canonical_bare [] v ≡ err Error.country_required
unfolding canonical_bare
canonical_bare-nil v = rw country_code-nil

unwrapped_hint :
    (v hint : Bytes) {s : Bytes}
    → canonical_unwrapped ([], v) ≡ ok s
    → canonical_unwrapped (hint, v) ≡ ok s
unfolding canonical_unwrapped
unwrapped_hint v hint h = ground (arith, canonical_bare-nil v)

-- A country in the value always wins: what `Canonical` makes of a value with no hint, it makes of
-- it with every hint. So the hint is only read where the value names no country.
canonical_hint :
    (raw hint : Bytes) {s : Bytes} → canonical raw [] ≡ ok s → canonical raw hint ≡ ok s
unfolding canonical
canonical_hint raw hint {s} h =
    elim (unwrap_hint (length (trim_space raw)) [] hint (trim_space raw)) [
      | inl e ↦ ground arith
      | inr (e, e') ↦ ground (arith, unwrapped_hint (trim_space raw) hint {s = s})
    ]
