-- ===== src/Base/Errors.antt =====
-- A call that may fail: Go's pair of a value and an error.
use mathlib.Core.Path.{◌≡◌, refl, ap}

pub data Result {ℓ κ} (E : Type κ) (A : Type ℓ) : Type (ℓ ⊔ κ) where
  ok : A → Result E A
  err : E → Result E A

-- `if err != nil { return …, err }`
infixl 5 ◌>>=◌
abbrev pub ◌>>=◌ {ℓ κ μ} :
    {E : Type κ} {A : Type ℓ} {B : Type μ} → Result E A → (A → Result E B) → Result E B
ok a >>= k = k a
err e >>= k = err e

module _ {ℓ κ μ} {E : Type κ} {A : Type ℓ} {B : Type μ} where
  pub bind-ok :
      (r : Result E A) (k : A → Result E B) {b : B}
      → (r >>= k) ≡ ok b
      → (a : A) × (r ≡ ok a) × (k a ≡ ok b)
  bind-ok (ok a) k h = (a, refl, h)
  bind-ok (err e) k h = cc

-- The result, or `a` on an error.
module _ {ℓ κ} {E : Type κ} {A : Type ℓ} where
  abbrev pub ok_or : A → Result E A → A
  ok_or a (ok b) = b
  ok_or a (err e) = a

  pub ok_inj : {a b : A} → ◌≡◌ {A = Result E A} (ok a) (ok b) → a ≡ b
  ok_inj {a} h = ap (ok_or a) h

  -- The error, or `e` on a result.
  abbrev pub err_or : E → Result E A → E
  err_or e (ok a) = e
  err_or e (err f) = f

  pub err_inj : {e f : E} → ◌≡◌ {A = Result E A} (err e) (err f) → e ≡ f
  err_inj {e} h = ap (err_or e) h
