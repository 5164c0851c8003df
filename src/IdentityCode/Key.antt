-- ===== src/IdentityCode/Key.antt =====
-- identitycode/identitycode.go: what `Key` promises.
use go_authbyte.Base.{
  ℕ, zero, suc, ◌≡◌, refl, sym, ap, ◌∙◌, ◌⊎◌, inl, inr, Bool, true, false, not, none, [], ◌∷◌,
  arith, nat_eq, length, all, Bytes, ℕ_comparable, Bytes_comparable, Result, ok, err,
}
use go_authbyte.IdentityCode.Chars.{is_space, is_separator, upper, trim_space}
use go_authbyte.IdentityCode.Trim.{not_space, trim_space-id, trim_space_idem}
use go_authbyte.IdentityCode.Stored.{IsCode, parse-IsCode, parse-code_string}
use go_authbyte.IdentityCode.Canonical.{
  IsStored, canonical-IsStored, canonical-code_string, trim_space-code_string,
}
use go_authbyte.IdentityCode.Hint.{canonical_bare-nil}
use go_authbyte.IdentityCode.{
  Code, Error, hyphen, code_string, prefixed_form, local_prefixed_form, cross_border_form,
  stored_form, parse, unwrap, canonical_unwrapped, canonical, strip, or_else, key_of, key,
}

abbrev pub plain : ℕ → Bool
plain c = not (is_separator c)

separator-plain :
    (c : ℕ)
    → is_separator c ≡ false
    → (is_space c ≡ false)
      × (nat_eq c hyphen ≡ false)
      × (nat_eq c b'/' ≡ false)
      × (is_separator (upper c) ≡ false)
      × (upper (upper c) ≡ upper c)
unfolding is_separator upper
separator-plain c h = ground arith

strip-plain : (v : Bytes) → all plain (strip v) ≡ true
unfolding strip
strip-plain [] = refl
strip-plain (r ∷ v) = ground (arith, strip-plain v, separator-plain r)

strip_idem : (v : Bytes) → strip (strip v) ≡ strip v
unfolding strip
strip_idem [] = refl
strip_idem (r ∷ v) = ground (arith, strip_idem v, separator-plain r)

plain-not_space : (w : Bytes) → all plain w ≡ true → all not_space w ≡ true
plain-not_space [] h = refl
plain-not_space (c ∷ w) h = ground (arith, separator-plain c, plain-not_space w)

-- No form fits a text without separators.
plain_stored : (w : Bytes) → all plain w ≡ true → stored_form w ≡ none
unfolding stored_form
plain_stored (x0 ∷ x1 ∷ x2 ∷ x3 ∷ x4 ∷ x5 ∷ x6 ∷ rest) h = ground (arith, separator-plain x5)
plain_stored _ h = refl

plain_prefixed : (w : Bytes) → all plain w ≡ true → prefixed_form w ≡ none
unfolding prefixed_form
plain_prefixed (x0 ∷ x1 ∷ x2 ∷ x3 ∷ x4 ∷ x5 ∷ rest) h = ground (arith, separator-plain x5)
plain_prefixed _ h = refl

plain_local : (w : Bytes) → all plain w ≡ true → local_prefixed_form w ≡ false
unfolding local_prefixed_form
plain_local (x0 ∷ x1 ∷ x2 ∷ x3 ∷ x4 ∷ x5 ∷ rest) h = ground (arith, separator-plain x5)
plain_local _ h = refl

plain_cross_border : (w : Bytes) → all plain w ≡ true → cross_border_form w ≡ none
unfolding cross_border_form
plain_cross_border (x0 ∷ x1 ∷ x2 ∷ x3 ∷ x4 ∷ x5 ∷ x6 ∷ rest) h = ground (arith, separator-plain x2)
plain_cross_border _ h = refl

unwrap-plain : (fuel : ℕ) (w : Bytes) → all plain w ≡ true → unwrap fuel [] w ≡ ([], w)
unfolding unwrap
unwrap-plain zero w h = refl
unwrap-plain (suc fuel) w h = rw (plain_cross_border w h, unwrap)

plain_unwrapped :
    (w : Bytes) → all plain w ≡ true → canonical_unwrapped ([], w) ≡ err Error.country_required
unfolding canonical_unwrapped
plain_unwrapped w h =
    rw (plain_prefixed w h, canonical_unwrapped) (rw (plain_local w h) (canonical_bare-nil w))

-- A text without separators has no canonical form unless a country is supplied.
plain-canonical : (w t : Bytes) → all plain w ≡ true → or_else (canonical w []) t ≡ t
unfolding canonical
plain-canonical [] t h = unfold trim_space in refl
plain-canonical (c ∷ w) t h = rw (
  trim_space-id (c ∷ w) (plain-not_space (c ∷ w) h),
  unwrap-plain (suc (length w)) (c ∷ w) h,
  plain_unwrapped (c ∷ w) h,
)

key_of-IsStored :
    (v : Bytes) (r : Result Error Code)
    → parse v ≡ r
    → IsStored (key_of r v) ⊎ ((key_of r v ≡ strip v) × (all plain (strip v) ≡ true))
key_of-IsStored v (ok c) h = inl (c, (parse-IsCode v c h).0, refl)
key_of-IsStored v (err e) h = canonical_cases (canonical v []) refl
  where
    canonical_cases :
        (r : Result Error Bytes)
        → canonical v [] ≡ r
        → IsStored (or_else r (strip v))
          ⊎ ((or_else r (strip v) ≡ strip v) × (all plain (strip v) ≡ true))
    canonical_cases (ok s) h = inl (canonical-IsStored v [] h)
    canonical_cases (err e) h = inr (refl, strip-plain v)

key-cases :
    (v : Bytes) → IsStored (key v) ⊎ ((key v ≡ strip (trim_space v)) × (all plain (key v) ≡ true))
unfolding key
key-cases v = elim (key_of-IsStored (trim_space v) (parse (trim_space v)) refl) [
  | inl s ↦ inl s
  | inr (e, p) ↦ inr (e, rw e p)
]

-- The key of a stored code is that code.
key-code_string : (c : Code) → IsCode c → key (code_string c) ≡ code_string c
unfolding key
key-code_string c v = rw (trim_space-code_string c v, parse-code_string c v)

plain-parse : (w : Bytes) → all plain w ≡ true → parse w ≡ err Error.malformed
unfolding parse
plain-parse w h = rw (plain_stored w h)

plain-key : (w : Bytes) → all plain w ≡ true → strip w ≡ w → key w ≡ w
unfolding key
plain-key w h e =
    rw (trim_space-id w (plain-not_space w h), plain-parse w h, plain-canonical w (strip w) h) e

-- `Key` answers either a stored code or a text with no separator, so none with a hyphen: the key
-- of a value that it cannot make sense of equals no stored code. And the key of a key is that key.
key_idem :
    (v : Bytes)
    → (((c : Code) × (parse (key v) ≡ ok c)) ⊎ (all plain (key v) ≡ true)) × (key (key v) ≡ key v)
key_idem v = elim (key-cases v) [
  | inl (c, valid, spelt) ↦
      (inl (c, rw spelt (parse-code_string c valid)), rw spelt (key-code_string c valid))
  | inr (e, p) ↦ (inr p, plain-key (key v) p (ap strip e ∙ strip_idem (trim_space v) ∙ sym e))
]

canonical-trim_space :
    (raw country : Bytes) → canonical (trim_space raw) country ≡ canonical raw country
unfolding canonical
canonical-trim_space raw country = rw (trim_space_idem raw)

-- Where `Canonical` needs no country hint, its result is the value's key.
pub key-canonical : (raw : Bytes) {s : Bytes} → canonical raw [] ≡ ok s → key raw ≡ s
unfolding key
key-canonical raw {s} h = key_of_canonical (parse (trim_space raw)) refl
  where
    again : canonical (trim_space raw) [] ≡ ok s
    again = canonical-trim_space raw [] ∙ h

    key_of_canonical :
        (r : Result Error Code) → parse (trim_space raw) ≡ r → key_of r (trim_space raw) ≡ s
    key_of_canonical (ok c) e =
        let (v, spelt) = parse-IsCode (trim_space raw) c e in
        let same : ◌≡◌ {A = Result Error Bytes} (ok (code_string c)) (ok s) =
          sym (canonical-code_string c [] v) ∙ ap (λ t. canonical t []) (sym spelt) ∙ again in
        (cc)
    key_of_canonical (err e) _ = rw again
