-- ===== src/IdentityCode/Display.antt =====
-- identitycode/identitycode.go: `Display` against `Canonical`.
use go_authbyte.Base.{
  ℕ, ◌≡◌, refl, ◌∙◌, inl, inr, true, false, none, some, [], ◌∷◌, ◌++◌, arith, Bool-cases,
  Option-cases, length, take, drop, all, ◌==◌, Bytes, codes, bytes_eq_iff, ℕ_comparable,
  Bytes_comparable, Result, ok,
}
use go_authbyte.IdentityCode.Chars.{
  is_stored, is_digit, is_space, is_separator, is_ascii_digits, trim_space,
}
use go_authbyte.IdentityCode.Trim.{is_stored-not_space, is_digit-facts, not_space, trim_space-id}
use go_authbyte.IdentityCode.Stored.{parse-IsCode, reduce_id}
use go_authbyte.IdentityCode.Canonical.{canonical-code_string, trim_space-code_string, hyphen_facts}
use go_authbyte.IdentityCode.{
  Code, Error, hyphen, semantics_personal_number, code_string, prefixed_form, local_prefixed_form,
  cross_border_form, parse, reduce, identifier, begins_like_a_prefix, unwrap, canonical_bare,
  canonical_unwrapped, canonical, national_split, display,
}

digits_no_space :
    (s : Bytes) → all is_digit s ≡ true → (all not_space s ≡ true) × (all is_stored s ≡ true)
digits_no_space [] h = (refl, refl)
digits_no_space (c ∷ s) h = ground (arith, is_stored-not_space c, digits_no_space s)

reduce_split :
    (s t : Bytes)
    → all is_digit s ≡ true
    → all is_digit t ≡ true
    → reduce (s ++ hyphen ∷ t) ≡ some (s ++ t)
unfolding reduce
reduce_split [] t h k =
    rw (reduce_id t (digits_no_space t k).1) (unfold is_separator is_space in refl)
reduce_split (c ∷ s) t h k = ground (arith, is_digit-facts c, reduce_split s t)

module _ (d0 d1 d2 d3 d4 d5 : ℕ) (tail : Bytes)
    (h : all is_digit (d0 ∷ d1 ∷ d2 ∷ d3 ∷ d4 ∷ d5 ∷ tail) ≡ true) where
  abbrev typed : Bytes
  typed = d0 ∷ d1 ∷ d2 ∷ d3 ∷ d4 ∷ d5 ∷ hyphen ∷ tail

  typed_not_prefixed : (prefixed_form typed ≡ none) × (local_prefixed_form typed ≡ false)
  unfolding prefixed_form local_prefixed_form
  typed_not_prefixed = ground (arith, is_digit-facts d0)

  typed_not_cross_border : cross_border_form typed ≡ none
  unfolding cross_border_form
  typed_not_cross_border = ground (arith, is_digit-facts d0)

  typed_no_space : trim_space typed ≡ typed
  typed_no_space = trim_space-id typed (
      ground (
        arith,
        is_stored-not_space d0,
        is_stored-not_space d1,
        is_stored-not_space d2,
        is_stored-not_space d3,
        is_stored-not_space d4,
        is_stored-not_space d5,
        digits_no_space tail,
        hyphen_facts,
      ))

  not_like_a_prefix : begins_like_a_prefix (d0 ∷ d1 ∷ d2 ∷ d3 ∷ d4 ∷ d5 ∷ tail) ≡ false
  unfolding begins_like_a_prefix
  not_like_a_prefix = ground (arith, is_digit-facts d0)

  typed-identifier : identifier typed ≡ ok (d0 ∷ d1 ∷ d2 ∷ d3 ∷ d4 ∷ d5 ∷ tail)
  unfolding identifier
  typed-identifier =
      rw (reduce_split (d0 ∷ d1 ∷ d2 ∷ d3 ∷ d4 ∷ d5 ∷ []) tail (ground arith) (ground arith))

  typed_bare :
      canonical_bare (codes "LV") typed
      ≡ ok (semantics_personal_number ++ codes "LV" ++ hyphen ∷ d0 ∷ d1 ∷ d2 ∷ d3 ∷ d4 ∷ d5 ∷ tail)
  unfolding canonical_bare
  typed_bare = rw (typed-identifier, not_like_a_prefix)

  -- A Latvian number typed as it is written there.
  typed-canonical :
      canonical typed (codes "LV")
      ≡ ok (semantics_personal_number ++ codes "LV" ++ hyphen ∷ d0 ∷ d1 ∷ d2 ∷ d3 ∷ d4 ∷ d5 ∷ tail)
  unfolding canonical unwrap canonical_unwrapped
  typed-canonical =
      rw (typed_no_space, typed_not_cross_border, unwrap)
        (rw (typed_not_prefixed.0, canonical_unwrapped) (rw typed_not_prefixed.1 typed_bare))

national_split_facts :
    (country id t : Bytes)
    → national_split country id ≡ some t
    → (country ≡ codes "LV")
      × (length id ≡ 11)
      × (all is_digit id ≡ true)
      × (t ≡ take 6 id ++ hyphen ∷ drop 6 id)
unfolding national_split is_ascii_digits
national_split_facts country [] t h = ground arith
national_split_facts country (d ∷ id) t h = ground (arith, bytes_eq_iff country (codes "LV"))

split_digits :
    (id : Bytes)
    → length id ≡ 11
    → all is_digit id ≡ true
    → canonical (take 6 id ++ hyphen ∷ drop 6 id) (codes "LV")
      ≡ ok (semantics_personal_number ++ codes "LV" ++ hyphen ∷ id)
split_digits (d0 ∷ d1 ∷ d2 ∷ d3 ∷ d4 ∷ d5 ∷ tail) n h = typed-canonical d0 d1 d2 d3 d4 d5 tail h
split_digits _ n h = absurd (omega arith)

-- A number that Latvia's split takes apart reads back.
split_canonical :
    (country id t : Bytes)
    → national_split country id ≡ some t
    → canonical t country ≡ ok (semantics_personal_number ++ country ++ hyphen ∷ id)
split_canonical country id t h =
    let (latvian, n, digits, spelt) = national_split_facts country id t h in
    rw (latvian, spelt) (split_digits id n digits)

personal :
    (c : Code)
    → (c.semantics == semantics_personal_number) ≡ true
    → ◌≡◌ {A = Result Error Bytes}
        (ok (semantics_personal_number ++ c.country ++ hyphen ∷ c.identifier))
        (ok (code_string c))
unfolding code_string
personal c e = rw ((bytes_eq_iff c.semantics semantics_personal_number).0 e)

-- What `Display` shows of a stored code, typed in again with the code's country, is read by
-- `Canonical` as that same code.
pub canonical-display :
    (s : Bytes) (c : Code) → parse s ≡ ok c → canonical (display s) c.country ≡ ok s
unfolding display
canonical-display s c h =
    let (v, spelt) = parse-IsCode s c h in
    let trimmed : trim_space s ≡ s = rw spelt (trim_space-code_string c v) in
    rw (trimmed, h)
      (elim (Bool-cases (c.semantics == semantics_personal_number)) [
        | inl e ↦ rw e (elim (Option-cases (national_split c.country c.identifier)) [
          | inl e' ↦ rw (e', spelt) (canonical-code_string c c.country v)
          | inr (t, e') ↦
              rw (e', spelt) (split_canonical c.country c.identifier t e' ∙ personal c e)
        ])
        | inr e ↦ rw (e, spelt) (canonical-code_string c c.country v)
      ])
