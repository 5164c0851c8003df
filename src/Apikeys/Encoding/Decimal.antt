-- ===== src/Apikeys/Encoding/Decimal.antt =====
-- `strconv.FormatUint` and `strconv.ParseUint` at base 10, in apikeys/apikeys.go.
use native.Mathlib.Nat.{pow-suc}
use go_authbyte.Base.{
  ℕ, zero, suc, ◌+◌, ◌-◌, ◌*◌, ◌/◌, ◌%◌, ◌^◌, ◌≤◌, ◌<◌, ◌≡◌, refl, ap, ◌∙◌, subst, inl, inr, Bool,
  true, ◌&&◌, ◌||◌, Option, none, some, [], ◌∷◌, arith, ltb, leb, if◌then◌else◌, Bool-cases, length,
  all, Bytes, ℕ_comparable, Bytes_comparable,
}

-- The digits of `n` in front of `out`; twenty digits hold a uint64.
unfoldable pub digits : ℕ → ℕ → Bytes → Bytes
digits zero n out = out
digits (suc f) n out =
    let last = b'0' + n % 10 in
    let more = digits f (n / 10) (last ∷ out) in if ltb n 10 then last ∷ out else more

unfoldable pub format : ℕ → Bytes
unfolding digits
format n = digits 20 n []

-- One round of `ParseUint`: `n` so far, and the next digit.
unfoldable scan : ℕ → Bytes → ℕ → Option ℕ
scan limit [] n = some n
scan limit (c ∷ s) n =
    let m = n * 10 + (c - b'0') in
    let rest = scan limit s m in if (ltb c b'0' || ltb b'9' c) || leb limit m then none else rest

unfoldable pub parse_uint : ℕ → Bytes → Option ℕ
unfolding scan
parse_uint limit [] = none
parse_uint limit (c ∷ s) = scan limit (c ∷ s) 0

-- Reading the last digit of `n` behind the digits before it gives `n`.
scan_last :
    (limit n : ℕ) (out : Bytes)
    → n < limit
    → scan limit ((b'0' + n % 10) ∷ out) (n / 10) ≡ scan limit out n
unfolding scan
scan_last limit n out h = ground arith

quotient_lt : (f n : ℕ) → n < 10 ^ suc f → n / 10 < 10 ^ f
quotient_lt f n h = omega (arith, pow-suc 10 f)

scan-digits :
    (limit f n : ℕ) (out : Bytes)
    → n < 10 ^ f
    → n < limit
    → scan limit (digits f n out) 0 ≡ scan limit out n
unfolding digits
scan-digits limit zero n out h k = ap (scan limit out) (omega arith)
scan-digits limit (suc f) n out h k = elim (Bool-cases (ltb n 10)) [
  | inl e ↦
      let zero_tens : n / 10 ≡ 0 = ground arith in
      rw e (
        subst (λ m. scan limit ((b'0' + n % 10) ∷ out) m ≡ scan limit out n) zero_tens
          (scan_last limit n out k))
  | inr e ↦ rw e (
      scan-digits limit f (n / 10) ((b'0' + n % 10) ∷ out) (quotient_lt f n h) (omega arith)
      ∙ scan_last limit n out k)
]

digits-cons : (f n : ℕ) (out : Bytes) → 0 < length out → 0 < length (digits f n out)
unfolding digits
digits-cons zero n out h = h
digits-cons (suc f) n out h = ground (arith, digits-cons f (n / 10) ((b'0' + n % 10) ∷ out))

format-cons : (n : ℕ) → 0 < length (format n)
unfolding format
format-cons n = ground (arith, digits-cons 19 (n / 10) ((b'0' + n % 10) ∷ []))

parse_uint-scan : (limit : ℕ) (s : Bytes) → 0 < length s → parse_uint limit s ≡ scan limit s 0
unfolding parse_uint
parse_uint-scan limit [] h = absurd (omega arith)
parse_uint-scan limit (c ∷ s) h = refl

-- Every number below the limit is read back from its decimal digits.
pub parse_uint-format :
    (limit n : ℕ) → limit ≤ 2 ^ 64 → n < limit → parse_uint limit (format n) ≡ some n
unfolding format scan
parse_uint-format limit n h k =
    parse_uint-scan limit (format n) (format-cons n) ∙ scan-digits limit 20 n [] (omega arith) k

-- The digits are digits.
abbrev pub is_decimal : ℕ → Bool
is_decimal c = leb b'0' c && leb c b'9'

digits-decimal :
    (f n : ℕ) (out : Bytes) → all is_decimal out ≡ true → all is_decimal (digits f n out) ≡ true
unfolding digits
digits-decimal zero n out h = h
digits-decimal (suc f) n out h = ground (arith, digits-decimal f (n / 10) ((b'0' + n % 10) ∷ out))

pub format-decimal : (n : ℕ) → all is_decimal (format n) ≡ true
unfolding format
format-decimal n = digits-decimal 20 n [] refl

length-digits : (f n : ℕ) (out : Bytes) → length (digits f n out) ≤ f + length out
unfolding digits
length-digits zero n out = omega arith
length-digits (suc f) n out = ground (arith, length-digits f (n / 10) ((b'0' + n % 10) ∷ out))

pub length-format : (n : ℕ) → length (format n) ≤ 20
unfolding format
length-format n = omega (arith, length-digits 20 n [])

scan-lt : (limit n m : ℕ) (s : Bytes) → n < limit → scan limit s n ≡ some m → m < limit
unfolding scan
scan-lt limit n m [] h k = ground arith
scan-lt limit n m (c ∷ s) h k = ground (arith, scan-lt limit (n * 10 + (c - b'0')) m s)

-- A number that is read is below the limit.
pub parse_uint-lt :
    (limit : ℕ) (s : Bytes) (n : ℕ) → 0 < limit → parse_uint limit s ≡ some n → n < limit
unfolding parse_uint
parse_uint-lt limit [] n p h = cc
parse_uint-lt limit (c ∷ s) n p h = scan-lt limit 0 n (c ∷ s) p h
