-- ===== src/Base/Entries.antt =====
-- What holds of every entry of a map holds of what is found in it, and of what changes leave.
use go_authbyte.Base.{
  ◌≡◌, subst, inl, inr, Bool, some, List, [], ◌∷◌, arith, Bool-cases, All, Comparable, ◌==◌, ==_iff,
  ℕ_comparable, Bytes_comparable,
}
use go_authbyte.Base.Map.{lookup, insert, retain}

module _ {ℓ} {K V : Type ℓ} ⦃c : Comparable K⦄ (P : K × V → Type ℓ) where
  pub All-lookup : (m : List (K × V)) (k : K) (v : V) → All P m → lookup m k ≡ some v → P (k, v)
  unfolding lookup
  All-lookup [] k v h e = cc
  All-lookup ((j, w) ∷ m) k v (p, h) e = elim (Bool-cases (k == j)) [
    | inl same ↦ subst P (ground (arith, ==_iff k j)) p
    | inr other ↦ All-lookup m k v h (ground arith)
  ]

  pub All-insert : (m : List (K × V)) (k : K) (v : V) → All P m → P (k, v) → All P (insert m k v)
  unfolding insert
  All-insert [] k v h p = (p, tt)
  All-insert (entry ∷ m) k v (q, h) p = elim (Bool-cases (k == entry.0)) [
    | inl e ↦ rw e (p, h)
    | inr e ↦ rw e (q, All-insert m k v h p)
  ]

  pub All-retain : (keep : K × V → Bool) (m : List (K × V)) → All P m → All P (retain keep m)
  unfolding retain
  All-retain keep [] h = tt
  All-retain keep (entry ∷ m) (q, h) = elim (Bool-cases (keep entry)) [
    | inl e ↦ rw e (q, All-retain keep m h)
    | inr e ↦ rw e (All-retain keep m h)
  ]
