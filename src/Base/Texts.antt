-- ===== src/Base/Texts.antt =====
-- Texts: ASCII case, membership of a byte, hexadecimal digits, and the wrap-around of int64.
use go_authbyte.Base.{
  nat_eq_iff, ◌++◌, ap, ◌∙◌, subst, arith, ℕ, ◌+◌, ◌-◌, ◌/◌, ◌%◌, ◌^◌, ◌≡◌, refl, Bool, true, false,
  ◌&&◌, ◌||◌, Option, none, some, List, [], ◌∷◌, ltb, leb, nat_eq, if◌then◌else◌, ◌==◌, Bytes,
  ℕ_comparable, Bytes_comparable,
}
use go_authbyte.Base.Integers.{ℤ, pos, negsuc}

abbrev pub is_empty : Bytes → Bool
is_empty [] = true
is_empty (c ∷ s) = false

-- `strings.ToUpper` and `strings.ToLower` of an ASCII letter.
unfoldable pub to_upper : ℕ → ℕ
to_upper c = if leb b'a' c && leb c b'z' then c - 32 else c

unfoldable pub to_lower : ℕ → ℕ
to_lower c = if leb b'A' c && leb c b'Z' then c + 32 else c

-- Whether a text is one of a list.
abbrev pub is_in : List Bytes → Bytes → Bool
is_in [] s = false
is_in (t ∷ ts) s = t == s || is_in ts s

-- Whether a byte stands in a text.
abbrev pub has_byte : ℕ → Bytes → Bool
has_byte b [] = false
has_byte b (c ∷ s) = nat_eq c b || has_byte b s

-- `hex.EncodeToString`
unfoldable pub hex_digit : ℕ → ℕ
hex_digit d = if ltb d 10 then b'0' + d else b'a' + (d - 10)

unfoldable pub hex : Bytes → Bytes
unfolding hex_digit
hex [] = []
hex (b ∷ s) = hex_digit (b / 16) ∷ hex_digit (b % 16) ∷ hex s

-- The text before the first `sep`, and the one behind it.
abbrev cut_more : ℕ → Option (Bytes × Bytes) → Option (Bytes × Bytes)
cut_more c none = none
cut_more c (some (a, b)) = some (c ∷ a, b)

-- `strings.Cut` by one byte; `none` where it is not found.
unfoldable pub cut : ℕ → Bytes → Option (Bytes × Bytes)
cut sep [] = none
cut sep (c ∷ s) = let rest = cut_more c (cut sep s) in if nat_eq c sep then some ([], s) else rest

-- The bits of an int64, and the number that they stand for.
abbrev pub to_bits : ℤ → ℕ
to_bits (pos n) = n % 2 ^ 64
to_bits (negsuc n) = 2 ^ 64 - 1 - n % 2 ^ 64

abbrev pub of_bits : ℕ → ℤ
of_bits u = if ltb u (2 ^ 63) then pos u else negsuc (2 ^ 64 - 1 - u)

pub is_empty-nil : (s : Bytes) → is_empty s ≡ true → s ≡ []
is_empty-nil [] h = refl
is_empty-nil (c ∷ s) h = cc

-- `strings.TrimSuffix` by `/`
abbrev pub trim_slash : Bytes → Bytes
trim_slash [] = []
trim_slash (c ∷ []) = if nat_eq c b'/' then [] else c ∷ []
trim_slash (c ∷ d ∷ s) = c ∷ trim_slash (d ∷ s)

pair_of : Option (Bytes × Bytes) → Bytes × Bytes
pair_of o = elim o [ none ↦ ([], []) | some q ↦ q ]

-- Where a text is cut: it is the two parts with the separator between, which is not in the first.
pub cut-some :
    (sep : ℕ) (s a b : Bytes)
    → cut sep s ≡ some (a, b)
    → (s ≡ a ++ sep ∷ b) × (has_byte sep a ≡ false)
unfolding cut pair_of
cut-some sep [] a b h = cc
cut-some sep (c ∷ s) a b h = go (cut-some sep s) (nat_eq c sep) refl (cut sep s) refl h
  where
    IsCut : Bytes × Bytes → Type 0
    IsCut q = (c ∷ s ≡ q.0 ++ sep ∷ q.1) × (has_byte sep q.0 ≡ false)

    go :
        ((x y : Bytes) → cut sep s ≡ some (x, y) → (s ≡ x ++ sep ∷ y) × (has_byte sep x ≡ false))
        → (t : Bool) → nat_eq c sep ≡ t
        → (o : Option (Bytes × Bytes)) → cut sep s ≡ o
        → (if t then some ([], s) else cut_more c o) ≡ some (a, b)
        → IsCut (a, b)
    go more true e o f h =
        subst IsCut (ap pair_of h) (ap (λ d. d ∷ s) ((nat_eq_iff c sep).0 e), refl)
    go more false e none f h = cc
    go more false e (some (x, y)) f h =
        let (same, none_in) = more x y f in
        subst IsCut (ap pair_of h) (ap (◌∷◌ c) same, ap (λ d. d || has_byte sep x) e ∙ none_in)

pub cut-append :
    (sep : ℕ) (a b : Bytes) → has_byte sep a ≡ false → cut sep (a ++ sep ∷ b) ≡ some (a, b)
unfolding cut
cut-append sep [] b h = ground arith
cut-append sep (c ∷ a) b h = ground (arith, cut-append sep a b)
