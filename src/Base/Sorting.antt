-- ===== src/Base/Sorting.antt =====
-- `slices.Sort` and `slices.Compact` of texts.
use go_authbyte.Base.{
  ◌≡◌, refl, ap, ◌∙◌, subst, ◌≢◌, inl, inr, Bool, true, false, ◌||◌, List, [], ◌∷◌, arith, ltb,
  if◌then◌else◌, Bool-cases, ◌==◌, ==_iff, Bytes, ℕ_comparable, Bytes_comparable,
}
use go_authbyte.Base.Texts.{is_in}

-- The order of texts.
abbrev pub before : Bytes → Bytes → Bool
before s [] = false
before [] (b ∷ t) = true
before (a ∷ s) (b ∷ t) = if ltb a b then true else if ltb b a then false else before s t

abbrev place : Bytes → List Bytes → List Bytes
place s [] = s ∷ []
place s (t ∷ ts) = let rest = place s ts in if before t s then t ∷ rest else s ∷ t ∷ ts

unfoldable pub sort : List Bytes → List Bytes
sort [] = []
sort (s ∷ ts) = place s (sort ts)

-- Runs of one text become one.
abbrev join : Bytes → List Bytes → List Bytes
join s [] = s ∷ []
join s (t ∷ ts) = if s == t then t ∷ ts else s ∷ t ∷ ts

unfoldable pub compact : List Bytes → List Bytes
compact [] = []
compact (s ∷ ts) = join s (compact ts)

-- Each text before the next one.
abbrev pub Ascending : List Bytes → Type 0
Ascending [] = Unit
Ascending (s ∷ []) = Unit
Ascending (s ∷ t ∷ ts) = (before s t ≡ true) × Ascending (t ∷ ts)

-- No text after the next one.
abbrev Ordered : List Bytes → Type 0
Ordered [] = Unit
Ordered (s ∷ []) = Unit
Ordered (s ∷ t ∷ ts) = (before t s ≡ false) × Ordered (t ∷ ts)

before-asym : (s t : Bytes) → before s t ≡ true → before t s ≡ false
before-asym s [] h = cc
before-asym [] (b ∷ t) h = refl
before-asym (a ∷ s) (b ∷ t) h = ground (arith, before-asym s t)

before-tri : (s t : Bytes) → before s t ≡ false → before t s ≡ false → s ≡ t
before-tri [] [] h k = refl
before-tri [] (b ∷ t) h k = cc
before-tri (a ∷ s) [] h k = cc
before-tri (a ∷ s) (b ∷ t) h k = ground (arith, before-tri s t)

is_in-place : (s j : Bytes) (ts : List Bytes) → is_in (place s ts) j ≡ (s == j || is_in ts j)
is_in-place s j [] = refl
is_in-place s j (t ∷ ts) = ground (arith, is_in-place s j ts)

pub is_in-sort : (ts : List Bytes) (j : Bytes) → is_in (sort ts) j ≡ is_in ts j
unfolding sort
is_in-sort [] j = refl
is_in-sort (s ∷ ts) j = is_in-place s j (sort ts) ∙ ap (λ b. s == j || b) (is_in-sort ts j)

is_in-join : (s j : Bytes) (ts : List Bytes) → is_in (join s ts) j ≡ (s == j || is_in ts j)
is_in-join s j [] = refl
is_in-join s j (t ∷ ts) = ground (arith, ==_iff s t)

pub is_in-compact : (ts : List Bytes) (j : Bytes) → is_in (compact ts) j ≡ is_in ts j
unfolding compact
is_in-compact [] j = refl
is_in-compact (s ∷ ts) j = is_in-join s j (compact ts) ∙ ap (λ b. s == j || b) (is_in-compact ts j)

-- The first text is not before one.
abbrev NotBefore : Bytes → List Bytes → Type 0
NotBefore s [] = Unit
NotBefore s (t ∷ ts) = before t s ≡ false

cons-Ordered : (s : Bytes) (ts : List Bytes) → NotBefore s ts → Ordered ts → Ordered (s ∷ ts)
cons-Ordered s [] n h = tt
cons-Ordered s (t ∷ ts) n h = (n, h)

Ordered-first : (s : Bytes) (ts : List Bytes) → Ordered (s ∷ ts) → NotBefore s ts × Ordered ts
Ordered-first s [] h = (tt, tt)
Ordered-first s (t ∷ ts) h = h

place-NotBefore :
    (s t : Bytes) (ts : List Bytes) → before t s ≡ true → NotBefore t ts → NotBefore t (place s ts)
place-NotBefore s t [] e n = before-asym t s e
place-NotBefore s t (u ∷ ts) e n = elim (Bool-cases (before u s)) [
  | inl f ↦ rw f n
  | inr f ↦ rw f (before-asym t s e)
]

place-Ordered : (s : Bytes) (ts : List Bytes) → Ordered ts → Ordered (place s ts)
place-Ordered s [] h = tt
place-Ordered s (t ∷ ts) h =
    let (n, k) = Ordered-first t ts h in
    elim (Bool-cases (before t s)) [
      | inl e ↦
          rw e (cons-Ordered t (place s ts) (place-NotBefore s t ts e n) (place-Ordered s ts k))
      | inr e ↦ rw e (e, h)
    ]

sort-Ordered : (ts : List Bytes) → Ordered (sort ts)
unfolding sort
sort-Ordered [] = tt
sort-Ordered (s ∷ ts) = place-Ordered s (sort ts) (sort-Ordered ts)

join-NotBefore : (s t : Bytes) (ts : List Bytes) → before t s ≡ false → NotBefore s (join t ts)
join-NotBefore s t [] h = h
join-NotBefore s t (u ∷ ts) h = elim (Bool-cases (t == u)) [
  | inl e ↦ rw e (subst (λ x. before x s ≡ false) ((==_iff t u).0 e) h)
  | inr e ↦ rw e h
]

compact-NotBefore : (s : Bytes) (ts : List Bytes) → NotBefore s ts → NotBefore s (compact ts)
unfolding compact
compact-NotBefore s [] h = tt
compact-NotBefore s (t ∷ ts) h = join-NotBefore s t (compact ts) h

join-Ascending :
    (s : Bytes) (ts : List Bytes) → NotBefore s ts → Ascending ts → Ascending (join s ts)
join-Ascending s [] n h = tt
join-Ascending s (t ∷ ts) n h = elim (Bool-cases (s == t)) [
  | inl e ↦ rw e h
  | inr e ↦ rw e (elim (Bool-cases (before s t)) [
    | inl b ↦ (b, h)
    | inr b ↦ absurd (apart e (before-tri s t b n))
  ])
]
  where
    apart : (s == t) ≡ false → s ≢ t
    apart e q = ground (arith, ==_iff s t)

compact-Ascending : (ts : List Bytes) → Ordered ts → Ascending (compact ts)
unfolding compact
compact-Ascending [] h = tt
compact-Ascending (s ∷ ts) h =
    let (n, k) = Ordered-first s ts h in
    join-Ascending s (compact ts) (compact-NotBefore s ts n) (compact-Ascending ts k)

pub compact-sort-Ascending : (ts : List Bytes) → Ascending (compact (sort ts))
compact-sort-Ascending ts = compact-Ascending (sort ts) (sort-Ordered ts)
