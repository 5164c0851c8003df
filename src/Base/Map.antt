-- ===== src/Base/Map.antt =====
-- A Go map as an association list whose keys are distinct.
use Prim.Native.Nat.{◌+◌, ◌≤◌}
use mathlib.Core.Path.{◌≡◌, refl}
use mathlib.Core.Bool.{Bool}
use mathlib.Core.Option.{Option, none, some}
use mathlib.Core.List.{List, [], ◌∷◌}
use native.Mathlib.Omega.{arith}
use go_authbyte.Base.Tests.{if◌then◌else◌}
use go_authbyte.Base.Lists.{length}
use go_authbyte.Base.Keys.{Comparable, ◌==◌, ==_iff}

-- What `retain` leaves of an entry.
abbrev pub kept {ℓ} : {K V : Type ℓ} → (K × V → Bool) → K → Option V → Option V
kept keep k none = none
kept keep k (some v) = if keep (k, v) then some v else none

module _ {ℓ} {K V : Type ℓ} ⦃c : Comparable K⦄ where
  -- `m[k]`, with its second result
  unfoldable pub lookup : List (K × V) → K → Option V
  lookup [] k = none
  lookup (entry ∷ m) k = if k == entry.0 then some entry.1 else lookup m k

  -- `m[k] = v`
  unfoldable pub insert : List (K × V) → K → V → List (K × V)
  insert [] k v = (k, v) ∷ []
  insert (entry ∷ m) k v =
      let rest = insert m k v in if k == entry.0 then (k, v) ∷ m else entry ∷ rest

  -- `for k, v := range m { if !keep(k, v) { delete(m, k) } }`
  unfoldable pub retain : (K × V → Bool) → List (K × V) → List (K × V)
  retain keep [] = []
  retain keep (entry ∷ m) = let rest = retain keep m in if keep entry then entry ∷ rest else rest

  abbrev pub Distinct : List (K × V) → Type ℓ
  Distinct [] = Unit
  Distinct (entry ∷ m) = (lookup m entry.0 ≡ none) × Distinct m

  pub lookup-insert :
      (m : List (K × V)) (k j : K) (v : V)
      → lookup (insert m k v) j ≡ (if j == k then some v else lookup m j)
  unfolding lookup insert
  lookup-insert [] k j v = refl
  lookup-insert (entry ∷ m) k j v =
      ground (arith, ==_iff j k, ==_iff k entry.0, ==_iff j entry.0, lookup-insert m k j v)

  pub insert-Distinct : (m : List (K × V)) (k : K) (v : V) → Distinct m → Distinct (insert m k v)
  unfolding lookup insert
  insert-Distinct [] k v h = ground arith
  insert-Distinct (entry ∷ m) k v h = ground (
    arith,
    ==_iff k entry.0,
    ==_iff entry.0 k,
    lookup-insert m k entry.0 v,
    insert-Distinct m k v,
  )

  pub lookup-retain :
      (keep : K × V → Bool) (m : List (K × V)) (k : K)
      → Distinct m
      → lookup (retain keep m) k ≡ kept keep k (lookup m k)
  unfolding lookup retain
  lookup-retain keep [] k h = refl
  lookup-retain keep (entry ∷ m) k h = ground (arith, ==_iff k entry.0, lookup-retain keep m k)

  pub retain-Distinct :
      (keep : K × V → Bool) (m : List (K × V)) → Distinct m → Distinct (retain keep m)
  unfolding lookup retain
  retain-Distinct keep [] h = tt
  retain-Distinct keep (entry ∷ m) h =
      ground (arith, lookup-retain keep m entry.0, retain-Distinct keep m)

  pub length-insert :
      (m : List (K × V)) (k : K) (v : V)
      → length (insert m k v) ≡ (elim (lookup m k) [ none ↦ length m + 1 | some w ↦ length m ])
  unfolding lookup insert
  length-insert [] k v = refl
  length-insert (entry ∷ m) k v = ground (arith, ==_iff k entry.0, length-insert m k v)

  pub length-retain : (keep : K × V → Bool) (m : List (K × V)) → length (retain keep m) ≤ length m
  unfolding retain
  length-retain keep [] = omega arith
  length-retain keep (entry ∷ m) = ground (arith, length-retain keep m)
