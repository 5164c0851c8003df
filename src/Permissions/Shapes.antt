-- ===== src/Permissions/Shapes.antt =====
-- permissions/permissions.go: the shapes that the membership register accepts, as matchers of the
-- regular expressions. `byte_len` is Go's `len` of a text.
use go_authbyte.Base.{
  ℕ, ◌+◌, ◌≡◌, refl, Bool, true, false, not, ◌&&◌, ◌||◌, [], ◌∷◌, arith, ltb, leb, nat_eq,
  if◌then◌else◌, all, ◌==◌, Bytes, ℕ_comparable, Bytes_comparable,
}
use go_authbyte.IdentityCode.Chars.{is_lower, is_digit, is_letter, trim_space}

abbrev pub colon : ℕ
colon = b':'

abbrev pub slash : ℕ
slash = b'/'

unfoldable pub is_alnum : ℕ → Bool
is_alnum c = is_letter c || is_digit c

-- `^[a-z][a-z0-9-]*$`
unfoldable pub service_shape : Bytes → Bool
service_shape [] = false
service_shape (c ∷ s) = is_lower c && all (λ d. is_lower d || (is_digit d || nat_eq d b'-')) s

-- `^[a-z][a-zA-Z0-9]*$`
unfoldable pub act_shape : Bytes → Bool
act_shape [] = false
act_shape (c ∷ s) = is_lower c && all is_alnum s

-- `^[a-z][a-zA-Z0-9]*(/[a-z][a-zA-Z0-9]*)*$`; the flag says that a word has begun.
unfoldable words_shape : Bool → Bytes → Bool
words_shape begun [] = begun
words_shape false (c ∷ s) = is_lower c && words_shape true s
words_shape true (c ∷ s) =
    let rest = words_shape (not (nat_eq c slash)) s in (nat_eq c slash || is_alnum c) && rest

unfoldable pub feature_shape : Bytes → Bool
unfolding words_shape
feature_shape s = words_shape false s

abbrev tag_length : ℕ → Bool
tag_length n = leb 2 n && leb n 8

-- `(-[A-Za-z0-9]{2,8})*$` behind a hyphen; `n` counts the characters of the subtag.
unfoldable subtags : ℕ → Bytes → Bool
subtags n [] = tag_length n
subtags n (c ∷ s) =
    let next = subtags 0 s in
    let more = subtags (n + 1) s in
    if nat_eq c b'-' then tag_length n && next else is_alnum c && more

unfoldable language_end : Bytes → Bool
unfolding subtags
language_end [] = true
language_end (c ∷ s) = nat_eq c b'-' && subtags 0 s

unfoldable language_third : Bytes → Bool
unfolding language_end
language_third [] = false
language_third (c ∷ s) = is_lower c && language_end s

-- `^[a-z]{2,3}(-[A-Za-z0-9]{2,8})*$`
unfoldable pub language_shape : Bytes → Bool
unfolding language_end language_third
language_shape (a ∷ b ∷ s) = (is_lower a && is_lower b) && (language_end s || language_third s)
language_shape _ = false

-- The bytes of a code point in UTF-8.
abbrev rune_len : ℕ → ℕ
rune_len c = if ltb c 0x80 then 1 else if ltb c 0x800 then 2 else if ltb c 0x10000 then 3 else 4

unfoldable pub byte_len : Bytes → ℕ
byte_len [] = 0
byte_len (c ∷ s) = rune_len c + byte_len s

-- `strings.TrimSpace(s) == "" || strings.TrimSpace(s) != s`
unfoldable pub is_ragged : Bytes → Bool
is_ragged s = trim_space s == [] || not (trim_space s == s)

abbrev pub no_colon : ℕ → Bool
no_colon c = not (nat_eq c colon)

is_alnum-no_colon : (c : ℕ) → is_alnum c ≡ true → no_colon c ≡ true
unfolding is_alnum is_letter is_digit
is_alnum-no_colon c h = ground arith

is_lower-no_colon : (c : ℕ) → is_lower c ≡ true → no_colon c ≡ true
unfolding is_lower
is_lower-no_colon c h = ground arith

all_alnum-no_colon : (s : Bytes) → all is_alnum s ≡ true → all no_colon s ≡ true
all_alnum-no_colon [] h = refl
all_alnum-no_colon (c ∷ s) h = ground (arith, is_alnum-no_colon c, all_alnum-no_colon s)

-- Neither an act nor a feature holds a colon.
pub act_shape-no_colon : (s : Bytes) → act_shape s ≡ true → all no_colon s ≡ true
unfolding act_shape
act_shape-no_colon [] h = refl
act_shape-no_colon (c ∷ s) h = ground (arith, is_lower-no_colon c, all_alnum-no_colon s)

words_shape-no_colon :
    (begun : Bool) (s : Bytes) → words_shape begun s ≡ true → all no_colon s ≡ true
unfolding words_shape
words_shape-no_colon begun [] h = refl
words_shape-no_colon false (c ∷ s) h =
    ground (arith, is_lower-no_colon c, words_shape-no_colon true s)
words_shape-no_colon true (c ∷ s) h =
    ground (arith, is_alnum-no_colon c, words_shape-no_colon (not (nat_eq c slash)) s)

pub feature_shape-no_colon : (s : Bytes) → feature_shape s ≡ true → all no_colon s ≡ true
unfolding feature_shape
feature_shape-no_colon s h = words_shape-no_colon false s h
