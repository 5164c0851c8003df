-- ===== src/Apikeys/Encoding/Split.antt =====
-- `strings.Split` by a separator of one byte, in apikeys/apikeys.go.
use go_authbyte.Base.{
  ℕ, ◌≡◌, refl, sym, ap, ◌∙◌, ◌≢◌, inl, inr, true, not, List, [], ◌∷◌, ◌++◌, arith, nat_eq,
  if◌then◌else◌, nat_eq_iff, Bool-cases, all, All, Bytes, ℕ_comparable, Bytes_comparable,
}

-- The first part grows by a byte.
abbrev grow : ℕ → List Bytes → List Bytes
grow c [] = (c ∷ []) ∷ []
grow c (p ∷ parts) = (c ∷ p) ∷ parts

unfoldable pub split : ℕ → Bytes → List Bytes
split sep [] = [] ∷ []
split sep (c ∷ s) = let rest = split sep s in if nat_eq c sep then [] ∷ rest else grow c rest

-- The parts with the separator between them.
abbrev pub joined_by : ℕ → List Bytes → Bytes
joined_by sep [] = []
joined_by sep (p ∷ []) = p
joined_by sep (p ∷ q ∷ parts) = p ++ sep ∷ joined_by sep (q ∷ parts)

abbrev pub Lacks : ℕ → Bytes → Type 0
Lacks sep s = all (λ c. not (nat_eq c sep)) s ≡ true

joined_by-nil_cons :
    (sep : ℕ) (parts : List Bytes)
    → parts ≢ []
    → joined_by sep ([] ∷ parts) ≡ sep ∷ joined_by sep parts
joined_by-nil_cons sep [] h = absurd (h refl)
joined_by-nil_cons sep (p ∷ parts) h = refl

joined_by-grow :
    (sep c : ℕ) (parts : List Bytes) → joined_by sep (grow c parts) ≡ c ∷ joined_by sep parts
joined_by-grow sep c [] = refl
joined_by-grow sep c (p ∷ []) = refl
joined_by-grow sep c (p ∷ q ∷ parts) = refl

grow-ne-nil : (c : ℕ) (parts : List Bytes) → grow c parts ≢ []
grow-ne-nil c [] = λ h. cc
grow-ne-nil c (p ∷ parts) = λ h. cc

split-ne-nil : (sep : ℕ) (s : Bytes) → split sep s ≢ []
unfolding split
split-ne-nil sep [] = λ h. cc
split-ne-nil sep (c ∷ s) = elim (Bool-cases (nat_eq c sep)) [
  | inl e ↦ rw e (λ h. cc)
  | inr e ↦ rw e (grow-ne-nil c (split sep s))
]

-- The parts spell the text.
pub joined_by-split : (sep : ℕ) (s : Bytes) → joined_by sep (split sep s) ≡ s
unfolding split
joined_by-split sep [] = refl
joined_by-split sep (c ∷ s) = elim (Bool-cases (nat_eq c sep)) [
  | inl e ↦ rw e (
      joined_by-nil_cons sep (split sep s) (split-ne-nil sep s)
      ∙ ap (◌∷◌ sep) (joined_by-split sep s)
      ∙ ap (λ x. x ∷ s) (sym ((nat_eq_iff c sep).0 e)))
  | inr e ↦ rw e (joined_by-grow sep c (split sep s) ∙ ap (◌∷◌ c) (joined_by-split sep s))
]

-- A part without the separator is the first part.
split-append : (sep : ℕ) (p s : Bytes) → Lacks sep p → split sep (p ++ sep ∷ s) ≡ p ∷ split sep s
unfolding split
split-append sep [] s h = ground arith
split-append sep (c ∷ p) s h = ground (arith, split-append sep p s)

split-Lacks : (sep : ℕ) (p : Bytes) → Lacks sep p → split sep p ≡ p ∷ []
unfolding split
split-Lacks sep [] h = refl
split-Lacks sep (c ∷ p) h = ground (arith, split-Lacks sep p)

-- Parts without the separator are read back from the text they spell.
pub split-joined_by :
    (sep : ℕ) (p : Bytes) (parts : List Bytes)
    → All (Lacks sep) (p ∷ parts)
    → split sep (joined_by sep (p ∷ parts)) ≡ p ∷ parts
split-joined_by sep p [] (hp, h) = split-Lacks sep p hp
split-joined_by sep p (q ∷ parts) (hp, h) =
    split-append sep p (joined_by sep (q ∷ parts)) hp ∙ ap (◌∷◌ p) (split-joined_by sep q parts h)
