-- ===== src/Base/Slices.antt =====
-- Slices of a list: where a text is cut, and what stands on either side.
use go_authbyte.Base.{
  ℕ, zero, suc, ◌+◌, ◌-◌, ◌≤◌, ◌≡◌, refl, sym, ap, ◌∙◌, some, List, [], ◌∷◌, ◌++◌, arith, length,
  take, drop, get_elem?, ℕ_comparable, Bytes_comparable,
}

suc_plus : (a k : ℕ) → suc a + k ≡ suc (a + k)
suc_plus a k = omega arith

module _ {ℓ} {A : Type ℓ} where
  pub take-length-append : (xs ys : List A) → take (length xs) (xs ++ ys) ≡ xs
  take-length-append [] ys = refl
  take-length-append (x ∷ xs) ys = ap (◌∷◌ x) (take-length-append xs ys)

  pub drop-length-append : (xs ys : List A) (k : ℕ) → drop (length xs + k) (xs ++ ys) ≡ drop k ys
  drop-length-append [] ys k = ap (λ m. drop m ys) (omega arith)
  drop-length-append (x ∷ xs) ys k =
      ap (λ m. drop m (x ∷ (xs ++ ys))) (suc_plus (length xs) k) ∙ drop-length-append xs ys k

  pub get_elem_length-append :
      (xs ys : List A) (k : ℕ) → get_elem? (xs ++ ys) (length xs + k) ≡ get_elem? ys k
  get_elem_length-append [] ys k = ap (get_elem? ys) (omega arith)
  get_elem_length-append (x ∷ xs) ys k =
      ap (get_elem? (x ∷ (xs ++ ys))) (suc_plus (length xs) k) ∙ get_elem_length-append xs ys k

  pub drop-drop : (m n : ℕ) (xs : List A) → drop m (drop n xs) ≡ drop (n + m) xs
  drop-drop m zero xs = ap (λ k. drop k xs) (omega arith)
  drop-drop zero (suc n) [] = ap (λ k. drop k []) (sym (suc_plus n 0))
  drop-drop (suc m) (suc n) [] = ap (λ k. drop k []) (sym (suc_plus n (suc m)))
  drop-drop m (suc n) (x ∷ xs) = drop-drop m n xs ∙ ap (λ k. drop k (x ∷ xs)) (sym (suc_plus n m))

  pub get_elem-drop : (k n : ℕ) (xs : List A) → get_elem? (drop n xs) k ≡ get_elem? xs (n + k)
  get_elem-drop k zero xs = ap (get_elem? xs) (omega arith)
  get_elem-drop k (suc n) [] = refl
  get_elem-drop k (suc n) (x ∷ xs) =
      get_elem-drop k n xs ∙ ap (get_elem? (x ∷ xs)) (sym (suc_plus n k))

  pub take-drop_elem :
      (n : ℕ) (xs : List A) (x : A)
      → get_elem? xs n ≡ some x
      → take n xs ++ x ∷ drop (suc n) xs ≡ xs
  take-drop_elem n [] x h = cc
  take-drop_elem zero (y ∷ xs) x h = cc
  take-drop_elem (suc n) (y ∷ xs) x h = ap (◌∷◌ y) (take-drop_elem n xs x h)

  pub length-take : (n : ℕ) (xs : List A) → n ≤ length xs → length (take n xs) ≡ n
  length-take zero xs h = refl
  length-take (suc n) [] h = absurd (omega arith)
  length-take (suc n) (x ∷ xs) h = omega (arith, length-take n xs)

  pub length-drop : (n : ℕ) (xs : List A) → length (drop n xs) ≡ length xs - n
  length-drop zero xs = omega arith
  length-drop (suc n) [] = omega arith
  length-drop (suc n) (x ∷ xs) = omega (arith, length-drop n xs)
