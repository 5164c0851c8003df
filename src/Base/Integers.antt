-- ===== src/Base/Integers.antt =====
-- Go's signed integers, over the native numbers: `negsuc n` is -(n + 1).
use go_authbyte.Base.{ℕ, Bool, true, false}

pub data ℤ : Type 0 where
  pos : ℕ → ℤ
  negsuc : ℕ → ℤ

abbrev pub is_negative : ℤ → Bool
is_negative (pos n) = false
is_negative (negsuc n) = true

-- What a number that is not negative counts.
abbrev pub count : ℤ → ℕ
count (pos n) = n
count (negsuc n) = 0
