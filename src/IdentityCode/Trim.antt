-- ===== src/IdentityCode/Trim.antt =====
-- identitycode/identitycode.go: facts on characters and trimming.
use go_authbyte.Base.{
  ℕ, suc, ◌≤◌, ◌≡◌, refl, inl, inr, Bool, true, false, not, [], ◌∷◌, arith, nat_eq, Bool-cases,
  length, all, Bytes, ℕ_comparable, Bytes_comparable,
}
use go_authbyte.IdentityCode.Chars.{
  is_stored, is_upper, is_digit, is_letter, is_space, is_separator, is_dot, upper, trim_left,
  trailing, trim_right, trim_space,
}

pub is_stored-not_space :
    (c : ℕ)
    → is_stored c ≡ true
    → (is_separator c ≡ false) × (is_dot c ≡ true) × (is_space c ≡ false)
unfolding is_upper is_digit is_separator is_dot
is_stored-not_space c h = ground arith

pub is_upper-facts :
    (c : ℕ)
    → is_upper c ≡ true
    → (is_letter c ≡ true) × (is_space c ≡ false) × (upper c ≡ c) × (nat_eq c b'/' ≡ false)
unfolding is_upper is_letter is_space upper
is_upper-facts c h = ground arith

pub is_letter-upper : (c : ℕ) → is_letter c ≡ true → is_upper (upper c) ≡ true
unfolding is_letter upper
is_letter-upper c h = ground arith

pub is_digit-facts : (c : ℕ) → is_digit c ≡ true → (is_letter c ≡ false) × (is_separator c ≡ false)
unfolding is_digit is_letter is_separator
is_digit-facts c h = ground arith

abbrev pub not_space : ℕ → Bool
not_space c = not (is_space c)

trim_left-id : (s : Bytes) → all not_space s ≡ true → trim_left s ≡ s
unfolding trim_left
trim_left-id [] h = refl
trim_left-id (c ∷ s) h = ground arith

trim_right-id : (s : Bytes) → all not_space s ≡ true → trim_right s ≡ s
unfolding trim_right
trim_right-id [] h = refl
trim_right-id (c ∷ []) h = ground arith
trim_right-id (c ∷ d ∷ s) h = rw (trim_right-id (d ∷ s) (ground arith))

-- A text with no space is its own trim.
pub trim_space-id : (s : Bytes) → all not_space s ≡ true → trim_space s ≡ s
unfolding trim_space
trim_space-id s h = rw (trim_left-id s h) (trim_right-id s h)

length-trim_left : (s : Bytes) → length (trim_left s) ≤ length s
unfolding trim_left
length-trim_left [] = omega arith
length-trim_left (c ∷ s) = ground (arith, length-trim_left s)

length-trailing : (c : ℕ) (s : Bytes) → length (trailing c s) ≤ suc (length s)
unfolding trailing
length-trailing c [] = ground arith
length-trailing c (d ∷ s) = ground arith

length-trim_right : (s : Bytes) → length (trim_right s) ≤ length s
unfolding trim_right
length-trim_right [] = omega arith
length-trim_right (c ∷ s) = omega (arith, length-trim_right s, length-trailing c (trim_right s))

pub length-trim_space : (s : Bytes) → length (trim_space s) ≤ length s
unfolding trim_space
length-trim_space s = omega (arith, length-trim_left s, length-trim_right (trim_left s))

-- The first character is no space.
abbrev Starts : Bytes → Type 0
Starts [] = Unit {0}
Starts (c ∷ s) = is_space c ≡ false

trim_left-Starts : (s : Bytes) → Starts (trim_left s)
unfolding trim_left
trim_left-Starts [] = tt
trim_left-Starts (c ∷ s) = elim (Bool-cases (is_space c)) [
  | inl e ↦ rw e (trim_left-Starts s)
  | inr e ↦ rw e e
]

Starts-trim_left : (s : Bytes) → Starts s → trim_left s ≡ s
unfolding trim_left
Starts-trim_left [] h = refl
Starts-trim_left (c ∷ s) h = rw h

trailing-Starts : (c : ℕ) (s : Bytes) → is_space c ≡ false → Starts (trailing c s)
unfolding trailing
trailing-Starts c [] h = rw h h
trailing-Starts c (d ∷ s) h = h

trim_right-Starts : (s : Bytes) → Starts s → Starts (trim_right s)
unfolding trim_right
trim_right-Starts [] h = tt
trim_right-Starts (c ∷ s) h = trailing-Starts c (trim_right s) h

trailing_cons : (c d : ℕ) (s : Bytes) → trailing c (d ∷ s) ≡ c ∷ d ∷ s
unfolding trailing
trailing_cons c d s = refl

trim_right-trailing :
    (c : ℕ) (s : Bytes) → trim_right s ≡ s → trim_right (trailing c s) ≡ trailing c s
unfolding trim_right trailing
trim_right-trailing c [] h = ground arith
trim_right-trailing c (d ∷ s) h = rw h (trailing_cons c d s)

trim_right_idem : (s : Bytes) → trim_right (trim_right s) ≡ trim_right s
unfolding trim_right
trim_right_idem [] = refl
trim_right_idem (c ∷ s) = trim_right-trailing c (trim_right s) (trim_right_idem s)

-- Trimming again changes nothing.
pub trim_space_idem : (s : Bytes) → trim_space (trim_space s) ≡ trim_space s
unfolding trim_space
trim_space_idem s =
    rw
      (Starts-trim_left (trim_right (trim_left s))
        (trim_right-Starts (trim_left s) (trim_left-Starts s)))
      (trim_right_idem (trim_left s))
