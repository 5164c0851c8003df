-- ===== src/IdentityCode.antt =====
-- identitycode/identitycode.go: the one stored spelling of an identity code.
-- A text is a list of code points. `Canonical` removes the country pairs of a cross-border code in
-- a loop, which is a recursion on fuel here, as many rounds as the text has characters.
pub mod Chars
pub mod Trim
pub mod Stored
pub mod Canonical
pub mod Hint
pub mod Display
pub mod Key
mod Tests
use go_authbyte.Base.{
  ℕ, zero, suc, ◌+◌, ◌-◌, ◌*◌, ◌/◌, ◌%◌, ◌^◌, ◌≤◌, ◌<◌, min, max, String, ◌≡◌, refl, sym, ap, ◌∙◌,
  subst, ◌≢◌, ◌↔◌, ◌⊎◌, inl, inr, Bool, true, false, not, ◌&&◌, ◌||◌, Option, none, some, List, [],
  ◌∷◌, ◌++◌, map, append-nil, append_assoc, arith, ltb, leb, nat_eq, if◌then◌else◌, ltb→lt, lt→ltb,
  leb→le, le→leb, nat_eq_iff, Bool-cases, Option-cases, length, take, drop, get_elem?, replicate,
  all, any, length-append, take-append-drop, All, All-append, Comparable, ◌==◌, ==_iff, ==_refl,
  Bytes, codes, bytes_eq, bytes_eq_iff, ℕ_comparable, Bytes_comparable, Result, ok, err, ◌>>=◌,
  bind-ok, reverse, reverse_aux,
}
use mathlib.Core.Option
use go_authbyte.IdentityCode.Chars.{
  is_stored, is_upper, is_lower, is_digit, is_letter, is_separator, is_dot, upper, ascii_upper,
  is_ascii_letters, is_ascii_digits, trim_space,
}

pub data Error : Type 0 where
  empty country_required country_invalid unknown_semantics ambiguous malformed : Error

pub record Code : Type 0 where
  pub semantics : Bytes
  pub country : Bytes
  pub identifier : Bytes

abbrev pub hyphen : ℕ
hyphen = b'-'

abbrev pub semantics_personal_number : Bytes
semantics_personal_number = codes "PNO"

abbrev pub recognised_semantics : List Bytes
recognised_semantics = codes "PNO" ∷ codes "NTR" ∷ codes "PAS" ∷ codes "IDC" ∷ codes "TIN" ∷ []

abbrev pub natural_person_semantics : List Bytes
natural_person_semantics =
    codes "PAS" ∷ codes "IDC" ∷ codes "PNO" ∷ codes "TAX" ∷ codes "TIN" ∷ codes "EID" ∷ []

-- `_, ok := set[s]`
abbrev pub is_in : List Bytes → Bytes → Bool
is_in set s = any (λ t. s == t) set

unfoldable pub code_string : Code → Bytes
code_string c = c.semantics ++ c.country ++ hyphen ∷ c.identifier

unfoldable pub is_natural_person : Code → Bool
is_natural_person c = is_in natural_person_semantics c.semantics

-- What `prefixedForm` and `storedForm` capture, in two parts: the five letters and the rest.
-- `^([A-Za-z]{3})([A-Za-z]{2})-(.*)$`
unfoldable pub prefixed_form : Bytes → Option Code
unfolding is_letter is_dot
prefixed_form (a ∷ b ∷ c ∷ d ∷ e ∷ h ∷ rest) =
    if all is_letter (a ∷ b ∷ c ∷ d ∷ e ∷ []) && (nat_eq h hyphen && all is_dot rest)
    then some (record { semantics = a ∷ b ∷ c ∷ []; country = d ∷ e ∷ []; identifier = rest })
    else none
prefixed_form _ = none

-- `^[A-Za-z]{2}:[A-Za-z]{2}-`
unfoldable pub local_prefixed_form : Bytes → Bool
unfolding is_letter
local_prefixed_form (a ∷ b ∷ c ∷ d ∷ e ∷ h ∷ rest) =
    all is_letter (a ∷ b ∷ d ∷ e ∷ []) && (nat_eq c b':' && nat_eq h hyphen)
local_prefixed_form _ = false

-- `^([A-Za-z]{2})/([A-Za-z]{2})/(.+)$`: the first country and the rest.
unfoldable pub cross_border_form : Bytes → Option (Bytes × Bytes)
unfolding is_letter is_dot
cross_border_form (a ∷ b ∷ s ∷ c ∷ d ∷ t ∷ r ∷ rest) =
    if all is_letter (a ∷ b ∷ c ∷ d ∷ [])
      && (nat_eq s b'/' && (nat_eq t b'/' && all is_dot (r ∷ rest)))
    then some (a ∷ b ∷ [], r ∷ rest)
    else none
cross_border_form _ = none

-- `^([A-Z]{3})([A-Z]{2})-([A-Z0-9]+)$`
unfoldable pub stored_form : Bytes → Option Code
unfolding is_upper is_digit
stored_form (a ∷ b ∷ c ∷ d ∷ e ∷ h ∷ i ∷ rest) =
    if all is_upper (a ∷ b ∷ c ∷ d ∷ e ∷ []) && (nat_eq h hyphen && all is_stored (i ∷ rest))
    then some (record { semantics = a ∷ b ∷ c ∷ []; country = d ∷ e ∷ []; identifier = i ∷ rest })
    else none
stored_form _ = none

abbrev check_stored : Option Code → Result Error Code
check_stored none = err malformed
check_stored (some c) =
    if is_in recognised_semantics c.semantics then ok c else err unknown_semantics

unfoldable pub parse : Bytes → Result Error Code
unfolding stored_form
parse stored = check_stored (stored_form stored)

-- The loop of `identifier`.
unfoldable pub reduce : Bytes → Option Bytes
unfolding is_separator is_digit is_upper is_lower
reduce [] = some []
reduce (r ∷ part) =
    let rest = reduce part in
    if is_separator r
    then rest
    else if is_digit r || is_upper r
    then Option.map (λ s. r ∷ s) rest
    else if is_lower r
    then Option.map (λ s. (r - 32) ∷ s) rest
    else none

-- `b.Len() == 0`
abbrev non_empty : Option Bytes → Result Error Bytes
non_empty none = err malformed
non_empty (some []) = err malformed
non_empty (some (c ∷ s)) = ok (c ∷ s)

unfoldable pub identifier : Bytes → Result Error Bytes
unfolding reduce
identifier part = non_empty (reduce part)

abbrev pub check_country : Bytes → Result Error Bytes
check_country [] = err country_required
check_country (a ∷ h) =
    if nat_eq (length (a ∷ h)) 2 && is_ascii_letters (a ∷ h)
    then ok (ascii_upper (a ∷ h))
    else err country_invalid

unfoldable pub country_code : Bytes → Result Error Bytes
unfolding is_ascii_letters ascii_upper trim_space
country_code hint = check_country (trim_space hint)

-- The first five characters are letters.
unfoldable pub begins_like_a_prefix : Bytes → Bool
unfolding is_letter
begins_like_a_prefix (a ∷ b ∷ c ∷ d ∷ e ∷ rest) = all is_letter (a ∷ b ∷ c ∷ d ∷ e ∷ [])
begins_like_a_prefix _ = false

-- The loop of `Canonical`: the country and the value it ends with.
unfoldable pub unwrap : ℕ → Bytes → Bytes → Bytes × Bytes
unfolding cross_border_form trim_space
unwrap zero country v = (country, v)
unwrap (suc fuel) country v = elim (cross_border_form v) [
  | none ↦ (country, v)
  | some (cc, rest) ↦ unwrap fuel cc (trim_space rest)
]

-- A code that names its own type and country.
unfoldable pub canonical_prefixed : Code → Result Error Bytes
unfolding ascii_upper identifier
canonical_prefixed m =
    let semantics = ascii_upper m.semantics in
    if is_in recognised_semantics semantics
    then (do id ← identifier m.identifier; ok (semantics ++ ascii_upper m.country ++ hyphen ∷ id))
    else err unknown_semantics

-- A bare code.
unfoldable pub canonical_bare : Bytes → Bytes → Result Error Bytes
unfolding country_code identifier begins_like_a_prefix
canonical_bare country v = do
  cc ← country_code country
  id ← identifier v
  if begins_like_a_prefix id
      then err ambiguous
      else ok (semantics_personal_number ++ cc ++ hyphen ∷ id)

-- The statements of `Canonical` behind the loop.
unfoldable pub canonical_unwrapped : Bytes × Bytes → Result Error Bytes
unfolding prefixed_form local_prefixed_form canonical_prefixed canonical_bare
canonical_unwrapped (country, v) = elim (prefixed_form v) [
  | some m ↦ canonical_prefixed m
  | none ↦ if local_prefixed_form v then err unknown_semantics else canonical_bare country v
]

abbrev is_nil : Bytes → Bool
is_nil [] = true
is_nil (c ∷ s) = false

unfoldable pub canonical : Bytes → Bytes → Result Error Bytes
unfolding trim_space unwrap canonical_unwrapped
canonical raw country =
    let v = trim_space raw in
    if is_nil v then err empty else canonical_unwrapped (unwrap (length v) country v)

-- The loop of `Key`.
unfoldable pub strip : Bytes → Bytes
strip [] = []
strip (r ∷ v) = let rest = strip v in if is_separator r then rest else upper r ∷ rest

abbrev pub or_else : Result Error Bytes → Bytes → Bytes
or_else (ok s) t = s
or_else (err e) t = t

abbrev pub key_of : Result Error Code → Bytes → Bytes
key_of (ok c) v = code_string c
key_of (err e) v = or_else (canonical v []) (strip v)

unfoldable pub key : Bytes → Bytes
unfolding trim_space parse canonical strip code_string
key stored = let v = trim_space stored in key_of (parse v) v

-- `nationalSplits`: Latvia alone.
unfoldable pub national_split : Bytes → Bytes → Option Bytes
unfolding is_ascii_digits
national_split country id =
    if country == codes "LV" && (nat_eq (length id) 11 && is_ascii_digits id)
    then some (take 6 id ++ hyphen ∷ drop 6 id)
    else none

abbrev get_or : Option Bytes → Bytes → Bytes
get_or none s = s
get_or (some t) s = t

abbrev display_of : Result Error Code → Bytes → Bytes
display_of (err e) stored = stored
display_of (ok c) stored =
    if c.semantics == semantics_personal_number
    then get_or (national_split c.country c.identifier) (code_string c)
    else code_string c

unfoldable pub display : Bytes → Bytes
unfolding trim_space parse national_split code_string
display stored = display_of (parse (trim_space stored)) stored
