-- ===== src/Apikeys/Encoding/Base64.antt =====
-- apikeys/apikeys.go: base64 without padding in its two alphabets, and `strictBase64`.
use go_authbyte.Base.{
  ℕ, zero, suc, ◌+◌, ◌-◌, ◌*◌, ◌/◌, ◌%◌, ◌≤◌, ◌<◌, ◌≡◌, refl, Bool, true, false, ◌&&◌, ◌||◌, Option,
  none, some, [], ◌∷◌, map, arith, ltb, leb, nat_eq, if◌then◌else◌, length, all, All, ◌==◌, ==_refl,
  Bytes, bytes_eq_iff, ℕ_comparable, Bytes_comparable,
}
use mathlib.Core.Option

-- The last two letters of an alphabet: `+/` in the standard one, `-_` in the one for addresses.
pub record Alphabet : Type 0 where
  pub letter62 : ℕ
  pub letter63 : ℕ

abbrev pub standard : Alphabet
standard = record { letter62 = b'+'; letter63 = b'/' }

abbrev pub url_safe : Alphabet
url_safe = record { letter62 = b'-'; letter63 = b'_' }

unfoldable pub letter : Alphabet → ℕ → ℕ
letter a v =
    if ltb v 26
    then b'A' + v
    else if ltb v 52
    then b'a' + (v - 26)
    else if ltb v 62
    then b'0' + (v - 52)
    else if nat_eq v 62
    then a.letter62
    else a.letter63

unfoldable pub encode : Alphabet → Bytes → Bytes
encode a [] = []
encode a (x ∷ []) = letter a (x / 4) ∷ letter a (x % 4 * 16) ∷ []
encode a (x ∷ y ∷ []) =
    letter a (x / 4) ∷ letter a (x % 4 * 16 + y / 16) ∷ letter a (y % 16 * 4) ∷ []
encode a (x ∷ y ∷ z ∷ s) =
    letter a (x / 4)
    ∷ letter a (x % 4 * 16 + y / 16)
    ∷ letter a (y % 16 * 4 + z / 64)
    ∷ letter a (z % 64)
    ∷ encode a s

-- The standard alphabet's value of a letter.
unfoldable pub value : ℕ → Option ℕ
value c =
    if leb b'A' c && leb c b'Z'
    then some (c - b'A')
    else if leb b'a' c && leb c b'z'
    then some (c - b'a' + 26)
    else if leb b'0' c && leb c b'9'
    then some (c - b'0' + 52)
    else if nat_eq c b'+'
    then some 62
    else if nat_eq c b'/'
    then some 63
    else none

-- `DecodeString` passes over line breaks.
unfoldable pub drop_breaks : Bytes → Bytes
drop_breaks [] = []
drop_breaks (c ∷ s) =
    let rest = drop_breaks s in if nat_eq c 10 || nat_eq c 13 then rest else c ∷ rest

-- `s` as the values of its letters.
unfoldable pub values : Bytes → Option Bytes
unfolding value
values [] = some []
values (c ∷ s) = elim (value c) [ none ↦ none | some v ↦ Option.map (λ vs. v ∷ vs) (values s) ]

-- The bytes behind the values; `Strict` wants the bits that are left over to be zero.
unfoldable unpack : Bytes → Option Bytes
unpack [] = some []
unpack (p ∷ []) = none
unpack (p ∷ q ∷ []) = if nat_eq (q % 16) 0 then some ((p * 4 + q / 16) ∷ []) else none
unpack (p ∷ q ∷ r ∷ []) =
    if nat_eq (r % 4) 0 then some ((p * 4 + q / 16) ∷ (q % 16 * 16 + r / 4) ∷ []) else none
unpack (p ∷ q ∷ r ∷ t ∷ s) =
    Option.map (λ bs. (p * 4 + q / 16) ∷ (q % 16 * 16 + r / 4) ∷ (r % 4 * 64 + t) ∷ bs) (unpack s)

abbrev or_none : Option Bytes → Option Bytes
or_none none = none
or_none (some vs) = unpack vs

unfoldable pub decode : Bytes → Option Bytes
unfolding drop_breaks values unpack
decode s = or_none (values (drop_breaks s))

abbrev recheck : Bytes → Option Bytes → Option Bytes
recheck s none = none
recheck s (some b) = if encode standard b == s then some b else none

unfoldable pub strict_base64 : Bytes → Option Bytes
unfolding decode encode
strict_base64 s = recheck s (decode s)

abbrev pub IsByte : ℕ → Type 0
IsByte b = b < 256

-- Every letter of the standard alphabet has its value, and is no line break.
value-letter :
    (v : ℕ)
    → v < 64
    → (value (letter standard v) ≡ some v)
      × ((nat_eq (letter standard v) 10 || nat_eq (letter standard v) 13) ≡ false)
unfolding value letter
value-letter v h = ground arith

-- The values that an encoding spells.
spelt : Bytes → Bytes
spelt [] = []
spelt (x ∷ []) = x / 4 ∷ x % 4 * 16 ∷ []
spelt (x ∷ y ∷ []) = x / 4 ∷ (x % 4 * 16 + y / 16) ∷ y % 16 * 4 ∷ []
spelt (x ∷ y ∷ z ∷ s) = x / 4 ∷ (x % 4 * 16 + y / 16) ∷ (y % 16 * 4 + z / 64) ∷ z % 64 ∷ spelt s

encode-spelt : (a : Alphabet) (s : Bytes) → encode a s ≡ map (letter a) (spelt s)
unfolding encode spelt
encode-spelt a [] = refl
encode-spelt a (x ∷ []) = refl
encode-spelt a (x ∷ y ∷ []) = refl
encode-spelt a (x ∷ y ∷ z ∷ s) = rw (encode-spelt a s)

spelt-lt : (s : Bytes) → All IsByte s → All (λ v. v < 64) (spelt s)
unfolding spelt
spelt-lt [] h = tt
spelt-lt (x ∷ []) h = omega arith
spelt-lt (x ∷ y ∷ []) h = omega arith
spelt-lt (x ∷ y ∷ z ∷ s) (hx, (hy, (hz, h))) =
    (omega arith, (omega arith, (omega arith, (omega arith, spelt-lt s h))))

unpack-spelt : (s : Bytes) → All IsByte s → unpack (spelt s) ≡ some s
unfolding unpack spelt
unpack-spelt [] h = refl
unpack-spelt (x ∷ []) h = ground arith
unpack-spelt (x ∷ y ∷ []) h = ground arith
unpack-spelt (x ∷ y ∷ z ∷ s) (hx, (hy, (hz, h))) = rw (unpack-spelt s h) (ground arith)

values-letters :
    (vs : Bytes) → All (λ v. v < 64) vs → values (drop_breaks (map (letter standard) vs)) ≡ some vs
unfolding values drop_breaks
values-letters [] h = refl
values-letters (v ∷ vs) (hv, h) =
    rw ((value-letter v hv).1, (value-letter v hv).0, values) (rw (values-letters vs h))

decode-encode : (s : Bytes) → All IsByte s → decode (encode standard s) ≡ some s
unfolding decode
decode-encode s h =
    rw (encode-spelt standard s, values-letters (spelt s) (spelt-lt s h)) (unpack-spelt s h)

-- Bytes that are encoded are read back.
pub strict_base64-encode : (s : Bytes) → All IsByte s → strict_base64 (encode standard s) ≡ some s
unfolding strict_base64
strict_base64-encode s h = rw (decode-encode s h, ==_refl (encode standard s))

recheck-encode : (s b : Bytes) (o : Option Bytes) → recheck s o ≡ some b → encode standard b ≡ s
recheck-encode s b none h = cc
recheck-encode s b (some d) h = ground (arith, bytes_eq_iff (encode standard d) s)

-- Only the encoding of the result is accepted.
pub encode-strict_base64 : (s b : Bytes) → strict_base64 s ≡ some b → encode standard b ≡ s
unfolding strict_base64
encode-strict_base64 s b h = recheck-encode s b (decode s) h

pub length-encode : (a : Alphabet) (s : Bytes) → length (encode a s) * 3 ≤ length s * 4 + 2
unfolding encode
length-encode a [] = omega arith
length-encode a (x ∷ []) = omega arith
length-encode a (x ∷ y ∷ []) = omega arith
length-encode a (x ∷ y ∷ z ∷ s) = omega (arith, length-encode a s)

-- Letters satisfy whatever holds of the letters of all values below 64.
pub encode-all :
    (a : Alphabet) (p : ℕ → Bool) (s : Bytes)
    → All IsByte s
    → ((v : ℕ) → v < 64 → p (letter a v) ≡ true)
    → all p (encode a s) ≡ true
encode-all a p s h k = rw (encode-spelt a s) (letters (spelt s) (spelt-lt s h))
  where
    letters : (vs : Bytes) → All (λ v. v < 64) vs → all p (map (letter a) vs) ≡ true
    letters [] h = refl
    letters (v ∷ vs) (hv, h) = rw (k v hv) (letters vs h)

-- Groups of three bytes are groups of four letters.
pub length-encode_groups :
    (a : Alphabet) (k : ℕ) (s : Bytes) → length s ≡ k * 3 → length (encode a s) ≡ k * 4
unfolding encode
length-encode_groups a k [] h = omega arith
length-encode_groups a k (x ∷ []) h = absurd (omega arith)
length-encode_groups a k (x ∷ y ∷ []) h = absurd (omega arith)
length-encode_groups a zero (x ∷ y ∷ z ∷ s) h = absurd (omega arith)
length-encode_groups a (suc k) (x ∷ y ∷ z ∷ s) h =
    omega (arith, length-encode_groups a k s (omega arith))
