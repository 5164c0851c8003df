-- ===== src/IdentityCode/Stored.antt =====
-- identitycode/identitycode.go: what `Parse` accepts, and that `Canonical` gives nothing else.
use go_authbyte.Base.{
  ℕ, ◌-◌, ◌<◌, ◌≡◌, refl, inl, inr, true, not, some, [], ◌∷◌, ◌++◌, arith, Option-cases, length,
  all, ◌==◌, Bytes, codes, bytes_eq_iff, ℕ_comparable, Bytes_comparable, ok,
}
use go_authbyte.IdentityCode.Chars.{is_stored, is_upper, is_lower}
use go_authbyte.IdentityCode.Trim.{is_stored-not_space}
use go_authbyte.IdentityCode.{
  natural_person_semantics, is_natural_person, Code, hyphen, recognised_semantics, is_in,
  code_string, stored_form, parse, reduce, identifier,
}

-- A code in its parts, each as it is stored.
pub record IsCode (c : Code) : Type 0 where
  pub recognised : is_in recognised_semantics c.semantics ≡ true
  pub country_length : length c.country ≡ 2
  pub country_upper : all is_upper c.country ≡ true
  pub identifier_some : 0 < length c.identifier
  pub identifier_stored : all is_stored c.identifier ≡ true

pub semantics_upper :
    (s : Bytes) → is_in recognised_semantics s ≡ true → (length s ≡ 3) × (all is_upper s ≡ true)
unfolding is_upper
semantics_upper s h = ground (
  arith,
  bytes_eq_iff s (codes "PNO"),
  bytes_eq_iff s (codes "NTR"),
  bytes_eq_iff s (codes "PAS"),
  bytes_eq_iff s (codes "IDC"),
  bytes_eq_iff s (codes "TIN"),
)

stored_form_parts_cons :
    (x0 x1 x2 x3 x4 x5 x6 : ℕ) (rest : Bytes) (c : Code)
    → stored_form (x0 ∷ x1 ∷ x2 ∷ x3 ∷ x4 ∷ x5 ∷ x6 ∷ rest) ≡ some c
    → (x0 ∷ x1 ∷ x2 ∷ x3 ∷ x4 ∷ x5 ∷ x6 ∷ rest ≡ code_string c)
      × (length c.country ≡ 2)
      × (all is_upper c.country ≡ true)
      × (0 < length c.identifier)
      × (all is_stored c.identifier ≡ true)
unfolding stored_form code_string
stored_form_parts_cons x0 x1 x2 x3 x4 x5 x6 rest c h = ground arith

parse-recognised :
    (s : Bytes) (c : Code)
    → parse s ≡ ok c
    → (stored_form s ≡ some c) × (is_in recognised_semantics c.semantics ≡ true)
unfolding parse
parse-recognised s c h = ground arith

stored_form_parts :
    (s : Bytes) (c : Code)
    → stored_form s ≡ some c
    → (s ≡ code_string c)
      × (length c.country ≡ 2)
      × (all is_upper c.country ≡ true)
      × (0 < length c.identifier)
      × (all is_stored c.identifier ≡ true)
unfolding stored_form
stored_form_parts (x0 ∷ x1 ∷ x2 ∷ x3 ∷ x4 ∷ x5 ∷ x6 ∷ rest) c h =
    stored_form_parts_cons x0 x1 x2 x3 x4 x5 x6 rest c h
stored_form_parts _ c h = cc

stored_form_complete :
    (s t i : Bytes)
    → length s ≡ 3
    → all is_upper s ≡ true
    → length t ≡ 2
    → all is_upper t ≡ true
    → 0 < length i
    → all is_stored i ≡ true
    → stored_form (s ++ t ++ hyphen ∷ i)
      ≡ some (record { semantics = s; country = t; identifier = i })
unfolding stored_form
stored_form_complete (x0 ∷ x1 ∷ x2 ∷ []) (x3 ∷ x4 ∷ []) (x6 ∷ rest) hs us ht ut hi ui = ground arith
stored_form_complete _ _ _ hs us ht ut hi ui = absurd (omega arith)

-- What `Parse` returns is a code in stored parts, and the text is its spelling.
pub parse-IsCode : (s : Bytes) (c : Code) → parse s ≡ ok c → IsCode c × (s ≡ code_string c)
parse-IsCode s c h =
    let (form, known) = parse-recognised s c h in
    let (spelt, len, up, some_id, ids) = stored_form_parts s c form in
    (
      record {
        recognised = known;
        country_length = len;
        country_upper = up;
        identifier_some = some_id;
        identifier_stored = ids;
      },
      spelt,
    )

-- The spelling of a code in stored parts is parsed back into it.
pub parse-code_string : (c : Code) → IsCode c → parse (code_string c) ≡ ok c
unfolding parse code_string
parse-code_string c v =
    let (len, up) = semantics_upper c.semantics v.recognised in
    rw (
      stored_form_complete c.semantics c.country c.identifier len up v.country_length
          v.country_upper v.identifier_some v.identifier_stored,
      v.recognised,
    )

lower_stored : (r : ℕ) → is_lower r ≡ true → is_stored (r - 32) ≡ true
unfolding is_lower is_upper
lower_stored r h = ground arith

reduce-stored : (part s : Bytes) → reduce part ≡ some s → all is_stored s ≡ true
unfolding reduce
reduce-stored [] s h = ground arith
reduce-stored (r ∷ part) s h = elim (Option-cases (reduce part)) [
  | inl e ↦ ground arith
  | inr (t, e) ↦ ground (arith, reduce-stored part t e, lower_stored r)
]

pub reduce_id : (s : Bytes) → all is_stored s ≡ true → reduce s ≡ some s
unfolding reduce
reduce_id [] h = refl
reduce_id (c ∷ s) h = ground (arith, reduce_id s, is_stored-not_space c)

pub identifier-stored :
    (part s : Bytes) → identifier part ≡ ok s → (0 < length s) × (all is_stored s ≡ true)
unfolding identifier
identifier-stored part s h = ground (arith, reduce-stored part s)

pub identifier_id : (s : Bytes) → 0 < length s → all is_stored s ≡ true → identifier s ≡ ok s
unfolding identifier
identifier_id [] p h = elim p [ ]
identifier_id (c ∷ s) p h = rw (reduce_id (c ∷ s) h)

-- Of the codes that `Parse` accepts, exactly those of a trade register name no natural person.
pub is_natural_person-parse :
    (s : Bytes) (c : Code) → parse s ≡ ok c → is_natural_person c ≡ not (c.semantics == codes "NTR")
unfolding is_natural_person
is_natural_person-parse s c h = known c.semantics (parse-recognised s c h).1
  where
    known :
        (t : Bytes)
        → is_in recognised_semantics t ≡ true
        → is_in natural_person_semantics t ≡ not (t == codes "NTR")
    known t k = ground (
      arith,
      bytes_eq_iff t (codes "PNO"),
      bytes_eq_iff t (codes "NTR"),
      bytes_eq_iff t (codes "PAS"),
      bytes_eq_iff t (codes "IDC"),
      bytes_eq_iff t (codes "TIN"),
    )
