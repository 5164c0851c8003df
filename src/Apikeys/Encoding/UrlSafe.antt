-- ===== src/Apikeys/Encoding/UrlSafe.antt =====
-- `base64.RawURLEncoding`: its decoder passes over line breaks and over bits that are left over.
use go_authbyte.Base.{
  ℕ, ◌+◌, ◌-◌, ◌*◌, ◌/◌, ◌%◌, ◌<◌, ◌≡◌, refl, false, ◌&&◌, ◌||◌, Option, none, some, [], ◌∷◌, arith,
  leb, nat_eq, if◌then◌else◌, All, Bytes, ℕ_comparable, Bytes_comparable,
}
use mathlib.Core.Option
use go_authbyte.Apikeys.Encoding.Base64.{url_safe, letter, encode, drop_breaks, IsByte}

-- The value of a letter.
unfoldable url_value : ℕ → Option ℕ
url_value c =
    if leb b'A' c && leb c b'Z'
    then some (c - b'A')
    else if leb b'a' c && leb c b'z'
    then some (c - b'a' + 26)
    else if leb b'0' c && leb c b'9'
    then some (c - b'0' + 52)
    else if nat_eq c b'-'
    then some 62
    else if nat_eq c b'_'
    then some 63
    else none

unfoldable url_values : Bytes → Option Bytes
unfolding url_value
url_values [] = some []
url_values (c ∷ s) = elim (url_value c) [
  | none ↦ none
  | some v ↦ Option.map (λ vs. v ∷ vs) (url_values s)
]

unfoldable url_unpack : Bytes → Option Bytes
url_unpack [] = some []
url_unpack (p ∷ []) = none
url_unpack (p ∷ q ∷ []) = some ((p * 4 + q / 16) ∷ [])
url_unpack (p ∷ q ∷ r ∷ []) = some ((p * 4 + q / 16) ∷ (q % 16 * 16 + r / 4) ∷ [])
url_unpack (p ∷ q ∷ r ∷ t ∷ s) =
    Option.map (λ bs. (p * 4 + q / 16) ∷ (q % 16 * 16 + r / 4) ∷ (r % 4 * 64 + t) ∷ bs)
      (url_unpack s)

abbrev unpack_some : Option Bytes → Option Bytes
unpack_some none = none
unpack_some (some vs) = url_unpack vs

unfoldable pub url_decode : Bytes → Option Bytes
unfolding drop_breaks url_values url_unpack
url_decode s = unpack_some (url_values (drop_breaks s))

url_value-letter :
    (v : ℕ)
    → v < 64
    → (url_value (letter url_safe v) ≡ some v)
      × ((nat_eq (letter url_safe v) 10 || nat_eq (letter url_safe v) 13) ≡ false)
unfolding url_value letter
url_value-letter v h = ground arith

-- Decoding undoes encoding, behind any letters that decode.
letter-values :
    (v : ℕ) (s vs : Bytes)
    → v < 64
    → url_values (drop_breaks s) ≡ some vs
    → url_values (drop_breaks (letter url_safe v ∷ s)) ≡ some (v ∷ vs)
unfolding url_values drop_breaks
letter-values v s vs h k =
    rw ((url_value-letter v h).1, (url_value-letter v h).0, url_values) (rw k)

abbrev OutOf : Bytes → Bytes → Type 0
OutOf text s = (vs : Bytes) × (url_values (drop_breaks text) ≡ some vs) × (url_unpack vs ≡ some s)

no_letters : url_values (drop_breaks []) ≡ some []
unfolding url_values drop_breaks
no_letters = refl

two_letters :
    (a b : ℕ) (s vs : Bytes)
    → a < 64
    → b < 64
    → url_values (drop_breaks s) ≡ some vs
    → url_values (drop_breaks (letter url_safe a ∷ letter url_safe b ∷ s)) ≡ some (a ∷ b ∷ vs)
two_letters a b s vs ha hb h =
    letter-values a (letter url_safe b ∷ s) (b ∷ vs) ha (letter-values b s vs hb h)

values-encode : (s : Bytes) → All IsByte s → OutOf (encode url_safe s) s
unfolding encode url_unpack
values-encode [] h = ([], no_letters, refl)
values-encode (x ∷ []) (hx, _) = (
  x / 4 ∷ x % 4 * 16 ∷ [],
  two_letters (x / 4) (x % 4 * 16) [] [] (omega arith) (omega arith) no_letters,
  ground arith,
)
values-encode (x ∷ y ∷ []) (hx, (hy, _)) = (
  x / 4 ∷ (x % 4 * 16 + y / 16) ∷ y % 16 * 4 ∷ [],
  two_letters (x / 4) (x % 4 * 16 + y / 16) (letter url_safe (y % 16 * 4) ∷ []) (y % 16 * 4 ∷ [])
      (omega arith) (omega arith) (letter-values (y % 16 * 4) [] [] (omega arith) no_letters),
  ground arith,
)
values-encode (x ∷ y ∷ z ∷ s) (hx, (hy, (hz, h))) =
    let (vs, read, packed) = values-encode s h in
    (
      x / 4 ∷ (x % 4 * 16 + y / 16) ∷ (y % 16 * 4 + z / 64) ∷ z % 64 ∷ vs,
      two_letters (x / 4) (x % 4 * 16 + y / 16)
          (letter url_safe (y % 16 * 4 + z / 64) ∷ letter url_safe (z % 64) ∷ encode url_safe s)
          ((y % 16 * 4 + z / 64) ∷ z % 64 ∷ vs) (omega arith) (omega arith)
          (two_letters (y % 16 * 4 + z / 64) (z % 64) (encode url_safe s) vs (omega arith)
            (omega arith) read),
      rw packed (ground arith),
    )

-- Bytes that are encoded are read back.
pub url_decode-encode : (s : Bytes) → All IsByte s → url_decode (encode url_safe s) ≡ some s
unfolding url_decode
url_decode-encode s h = let (vs, read, packed) = values-encode s h in rw read packed
