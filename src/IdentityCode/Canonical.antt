-- ===== src/IdentityCode/Canonical.antt =====
-- identitycode/identitycode.go: what `Canonical` returns.
use go_authbyte.Base.{
  ℕ, ◌<◌, ◌≡◌, refl, sym, ◌∙◌, subst, inl, inr, true, false, none, some, [], ◌∷◌, ◌++◌, arith,
  Bool-cases, Option-cases, length, all, Bytes, ℕ_comparable, Bytes_comparable, ok, bind-ok,
}
use go_authbyte.IdentityCode.Chars.{
  is_stored, is_upper, is_letter, is_dot, ascii_upper, is_ascii_letters, trim_space, is_space,
}
use go_authbyte.IdentityCode.Trim.{
  is_stored-not_space, is_upper-facts, is_letter-upper, not_space, trim_space-id,
}
use go_authbyte.IdentityCode.Stored.{
  IsCode, semantics_upper, parse-code_string, identifier-stored, identifier_id,
}
use go_authbyte.IdentityCode.{
  Code, hyphen, recognised_semantics, semantics_personal_number, is_in, code_string, prefixed_form,
  local_prefixed_form, cross_border_form, parse, identifier, country_code, check_country, unwrap,
  canonical_prefixed, canonical_bare, canonical_unwrapped, canonical,
}

-- Two letters, upper-cased.
upper_letters :
    (s : Bytes)
    → length s ≡ 2
    → all is_letter s ≡ true
    → (length (ascii_upper s) ≡ 2) × (all is_upper (ascii_upper s) ≡ true)
unfolding ascii_upper
upper_letters (a ∷ b ∷ []) h k = ground (arith, is_letter-upper a, is_letter-upper b)
upper_letters _ h k = absurd (omega arith)

prefixed_form_cons :
    (x0 x1 x2 x3 x4 x5 : ℕ) (rest : Bytes) (m : Code)
    → prefixed_form (x0 ∷ x1 ∷ x2 ∷ x3 ∷ x4 ∷ x5 ∷ rest) ≡ some m
    → (length m.country ≡ 2) × (all is_letter m.country ≡ true)
unfolding prefixed_form
prefixed_form_cons x0 x1 x2 x3 x4 x5 rest m h = ground arith

prefixed_form_country :
    (v : Bytes) (m : Code)
    → prefixed_form v ≡ some m
    → (length m.country ≡ 2) × (all is_letter m.country ≡ true)
unfolding prefixed_form
prefixed_form_country (x0 ∷ x1 ∷ x2 ∷ x3 ∷ x4 ∷ x5 ∷ rest) m h =
    prefixed_form_cons x0 x1 x2 x3 x4 x5 rest m h
prefixed_form_country _ m h = cc

-- A result in stored parts.
abbrev pub IsStored : Bytes → Type 0
IsStored s = (c : Code) × IsCode c × (s ≡ code_string c)

IsStored-parts :
    (t up id : Bytes)
    → is_in recognised_semantics t ≡ true
    → (length up ≡ 2) × (all is_upper up ≡ true)
    → (0 < length id) × (all is_stored id ≡ true)
    → IsStored (t ++ up ++ hyphen ∷ id)
unfolding code_string
IsStored-parts t up id known (len, all_upper) (some_id, ids) = (
  record { semantics = t; country = up; identifier = id },
  record {
    recognised = known;
    country_length = len;
    country_upper = all_upper;
    identifier_some = some_id;
    identifier_stored = ids;
  },
  refl,
)

prefixed-IsStored :
    (v : Bytes) (m : Code) {s : Bytes}
    → prefixed_form v ≡ some m
    → canonical_prefixed m ≡ ok s
    → IsStored s
unfolding canonical_prefixed
prefixed-IsStored v m form h =
    elim (Bool-cases (is_in recognised_semantics (ascii_upper m.semantics))) [
      | inl e ↦
          let (id, found, rest) = bind-ok (identifier m.identifier) _ (rw e at h) in
          let (len, up) = prefixed_form_country v m form in
          subst IsStored (cc) (
            IsStored-parts (ascii_upper m.semantics) (ascii_upper m.country) id e
              (upper_letters m.country len up) (identifier-stored m.identifier id found))
      | inr e ↦ ground arith
    ]

check_country-upper :
    (t up : Bytes) → check_country t ≡ ok up → (length up ≡ 2) × (all is_upper up ≡ true)
unfolding is_ascii_letters
check_country-upper [] up h = cc
check_country-upper (a ∷ t) up h = ground (arith, upper_letters (a ∷ t))

country_code-upper :
    (hint up : Bytes) → country_code hint ≡ ok up → (length up ≡ 2) × (all is_upper up ≡ true)
unfolding country_code
country_code-upper hint up h = check_country-upper (trim_space hint) up h

bare-IsStored : (country v : Bytes) {s : Bytes} → canonical_bare country v ≡ ok s → IsStored s
unfolding canonical_bare
bare-IsStored country v h =
    let (up, found, rest) = bind-ok (country_code country) _ h in
    let (id, reduced, last) = bind-ok (identifier v) _ rest in
    subst IsStored (ground arith) (
      IsStored-parts semantics_personal_number up id refl (country_code-upper country up found)
        (identifier-stored v id reduced))

unwrapped-IsStored : (cv : Bytes × Bytes) {s : Bytes} → canonical_unwrapped cv ≡ ok s → IsStored s
unfolding canonical_unwrapped
unwrapped-IsStored (country, v) h = elim (Option-cases (prefixed_form v)) [
  | inl e ↦ elim (Bool-cases (local_prefixed_form v)) [
    | inl e' ↦ ground arith
    | inr e' ↦ bare-IsStored country v (ground arith)
  ]
  | inr (m, e) ↦ prefixed-IsStored v m e (ground arith)
]

-- Whatever `Canonical` returns is a code in stored parts, spelt out.
pub canonical-IsStored :
    (raw country : Bytes) {s : Bytes} → canonical raw country ≡ ok s → IsStored s
unfolding canonical
canonical-IsStored raw country h =
    unwrapped-IsStored (unwrap (length (trim_space raw)) country (trim_space raw)) (ground arith)

stored_no_space :
    (i : Bytes) → all is_stored i ≡ true → (all not_space i ≡ true) × (all is_dot i ≡ true)
stored_no_space [] h = (refl, refl)
stored_no_space (c ∷ i) h = ground (arith, is_stored-not_space c, stored_no_space i)

upper_id : (s : Bytes) → all is_upper s ≡ true → ascii_upper s ≡ s
unfolding ascii_upper
upper_id [] h = refl
upper_id (c ∷ s) h = ground (arith, is_upper-facts c, upper_id s)

pub hyphen_facts : (is_space hyphen ≡ false) × (is_dot hyphen ≡ true)
unfolding is_space is_dot
hyphen_facts = (refl, refl)

module _ (x0 x1 x2 x3 x4 : ℕ) (i : Bytes) (up : all is_upper (x0 ∷ x1 ∷ x2 ∷ x3 ∷ x4 ∷ []) ≡ true)
    (st : all is_stored i ≡ true) where
  code_no_space : all not_space (x0 ∷ x1 ∷ x2 ∷ x3 ∷ x4 ∷ hyphen ∷ i) ≡ true
  code_no_space = ground (
    arith,
    is_upper-facts x0,
    is_upper-facts x1,
    is_upper-facts x2,
    is_upper-facts x3,
    is_upper-facts x4,
    stored_no_space i st,
    hyphen_facts,
  )

  code_prefixed :
      prefixed_form (x0 ∷ x1 ∷ x2 ∷ x3 ∷ x4 ∷ hyphen ∷ i)
      ≡ some (record { semantics = x0 ∷ x1 ∷ x2 ∷ []; country = x3 ∷ x4 ∷ []; identifier = i })
  unfolding prefixed_form
  code_prefixed = ground (
    arith,
    is_upper-facts x0,
    is_upper-facts x1,
    is_upper-facts x2,
    is_upper-facts x3,
    is_upper-facts x4,
    stored_no_space i st,
  )

-- The third character is a letter, where a cross-border code has its slash.
code_not_cross_border :
    (x0 x1 x2 x3 x4 : ℕ) (i : Bytes)
    → is_upper x2 ≡ true
    → cross_border_form (x0 ∷ x1 ∷ x2 ∷ x3 ∷ x4 ∷ hyphen ∷ i) ≡ none
unfolding cross_border_form
code_not_cross_border x0 x1 x2 x3 x4 [] h = refl
code_not_cross_border x0 x1 x2 x3 x4 (r ∷ i) h = ground (arith, is_upper-facts x2)

prefixed_stored : (c : Code) → IsCode c → canonical_prefixed c ≡ ok (code_string c)
unfolding canonical_prefixed code_string
prefixed_stored c v =
    let (_, up) = semantics_upper c.semantics v.recognised in
    rw (
      upper_id c.semantics up,
      upper_id c.country v.country_upper,
      v.recognised,
      identifier_id c.identifier v.identifier_some v.identifier_stored,
    )

unwrapped_stored :
    (s t i country : Bytes)
    → length s ≡ 3
    → all is_upper s ≡ true
    → length t ≡ 2
    → all is_upper t ≡ true
    → all is_stored i ≡ true
    → canonical (s ++ t ++ hyphen ∷ i) country
      ≡ canonical_prefixed (record { semantics = s; country = t; identifier = i })
unfolding canonical unwrap canonical_unwrapped
unwrapped_stored (x0 ∷ x1 ∷ x2 ∷ []) (x3 ∷ x4 ∷ []) i country hs us ht ut st = rw (
  trim_space-id _ (code_no_space x0 x1 x2 x3 x4 i (ground arith) st),
  code_not_cross_border x0 x1 x2 x3 x4 i (ground arith),
  code_prefixed x0 x1 x2 x3 x4 i (ground arith) st,
)
unwrapped_stored _ _ i country hs us ht ut st = absurd (omega arith)

trim_code :
    (s t i : Bytes)
    → length s ≡ 3
    → all is_upper s ≡ true
    → length t ≡ 2
    → all is_upper t ≡ true
    → all is_stored i ≡ true
    → trim_space (s ++ t ++ hyphen ∷ i) ≡ s ++ t ++ hyphen ∷ i
trim_code (x0 ∷ x1 ∷ x2 ∷ []) (x3 ∷ x4 ∷ []) i hs us ht ut st =
    trim_space-id _ (code_no_space x0 x1 x2 x3 x4 i (ground arith) st)
trim_code _ _ i hs us ht ut st = absurd (omega arith)

pub trim_space-code_string : (c : Code) → IsCode c → trim_space (code_string c) ≡ code_string c
unfolding code_string
trim_space-code_string c v =
    let (len, up) = semantics_upper c.semantics v.recognised in
    trim_code c.semantics c.country c.identifier len up v.country_length v.country_upper
      v.identifier_stored

-- The spelling of a code in stored parts is its own canonical form, whatever the hint.
pub canonical-code_string :
    (c : Code) (country : Bytes) → IsCode c → canonical (code_string c) country ≡ ok (code_string c)
canonical-code_string c country v =
    let (len, up) = semantics_upper c.semantics v.recognised in
    unfold code_string in
    (unwrapped_stored c.semantics c.country c.identifier country len up v.country_length
      v.country_upper v.identifier_stored)
    ∙ prefixed_stored c v

-- Every result of `Canonical` is accepted by `Parse`, and is its own canonical form under every
-- country hint.
pub canonical-parse :
    (raw country : Bytes) {s : Bytes}
    → canonical raw country ≡ ok s
    → (c : Code) × (parse s ≡ ok c)
      × (code_string c ≡ s)
      × ((hint : Bytes) → canonical s hint ≡ ok s)
canonical-parse raw country {s} h =
    let (c, v, spelt) = canonical-IsStored raw country h in
    (
      c,
      rw spelt (parse-code_string c v),
      sym spelt,
      λ hint. rw spelt (canonical-code_string c hint v),
    )
