-- ===== src/Apikeys/Stored.antt =====
-- apikeys/apikeys.go: the stored string of a key, and its strict reading.
mod Fields
pub mod RoundTrip
pub mod Spelling
mod Tests
use go_authbyte.Base.{
  ℕ, zero, suc, ◌+◌, ◌-◌, ◌*◌, ◌/◌, ◌%◌, ◌^◌, ◌≤◌, ◌<◌, min, max, String, ◌≡◌, refl, sym, ap, ◌∙◌,
  subst, ◌≢◌, ◌↔◌, ◌⊎◌, inl, inr, Bool, true, false, not, ◌&&◌, ◌||◌, Option, none, some, List, [],
  ◌∷◌, ◌++◌, map, append-nil, append_assoc, arith, ltb, leb, nat_eq, if◌then◌else◌, ltb→lt, lt→ltb,
  leb→le, le→leb, nat_eq_iff, Bool-cases, Option-cases, length, take, drop, get_elem?, replicate,
  all, any, length-append, take-append-drop, All, All-append, Comparable, ◌==◌, ==_iff, ==_refl,
  Bytes, codes, bytes_eq, bytes_eq_iff, ℕ_comparable, Bytes_comparable, Result, ok, err, ◌>>=◌,
  bind-ok, ok_or, ok_inj, reverse, reverse_aux,
}
use go_authbyte.Apikeys.Encoding.Base64.{standard, encode, strict_base64}
use go_authbyte.Apikeys.Encoding.Decimal.{format, parse_uint}
use go_authbyte.Apikeys.Encoding.Split.{split}

-- uint32, uint32 and uint8.
pub record Params : Type 0 where
  pub memory : ℕ
  pub iterations : ℕ
  pub parallelism : ℕ

abbrev pub default_params : Params
default_params = record { memory = 19456; iterations = 2; parallelism = 1 }

abbrev pub default_ceiling : Params
default_ceiling = record { memory = 65536; iterations = 3; parallelism = 4 }

unfoldable pub at_least : Params → Params → Bool
at_least p q =
    leb q.memory p.memory && (leb q.iterations p.iterations && leb q.parallelism p.parallelism)

unfoldable pub non_zero : Params → Bool
non_zero p = ltb 0 p.memory && (ltb 0 p.iterations && ltb 0 p.parallelism)

unfoldable pub higher : Params → Params → Params
higher p q = record {
  memory = max p.memory q.memory;
  iterations = max p.iterations q.iterations;
  parallelism = max p.parallelism q.parallelism;
}

-- `p == q` of two structs
abbrev pub params_eq : Params → Params → Bool
params_eq p q =
    nat_eq p.memory q.memory
    && (nat_eq p.iterations q.iterations && nat_eq p.parallelism q.parallelism)

pub record StoredHash : Type 0 where
  pub params : Params
  pub salt : Bytes
  pub tag : Bytes

abbrev pub salt_len : ℕ
salt_len = 16

abbrev pub max_salt_len : ℕ
max_salt_len = 64

abbrev pub tag_len : ℕ
tag_len = 32

abbrev pub max_stored_len : ℕ
max_stored_len = 256

abbrev pub dollar : ℕ
dollar = b'$'

abbrev pub comma : ℕ
comma = b','

-- `argon2.Version`, the constant of the library that derives tags.
abbrev pub version : ℕ
version = 19

unfoldable pub encode_stored : Params → Bytes → Bytes → Bytes
unfolding format encode
encode_stored p salt tag =
    codes "$argon2id$v="
    ++ (format version
        ++ (codes "$m="
            ++ (format p.memory
                ++ (codes ",t="
                    ++ (format p.iterations
                        ++ (codes ",p="
                            ++ (format p.parallelism
                                ++ (codes "$"
                                    ++ (encode standard salt
                                        ++ (codes "$" ++ encode standard tag))))))))))

-- `strings.CutPrefix`
unfoldable pub cut_prefix : Bytes → Bytes → Option Bytes
cut_prefix [] s = some s
cut_prefix (c ∷ p) [] = none
cut_prefix (c ∷ p) (d ∷ s) = let rest = cut_prefix p s in if nat_eq c d then rest else none

abbrev pub canonical_number : Bytes → Option ℕ → Option ℕ
canonical_number v none = none
canonical_number v (some n) = if format n == v then some n else none

abbrev pub number_of : ℕ → Option Bytes → Option ℕ
number_of limit none = none
number_of limit (some v) = canonical_number v (parse_uint limit v)

-- `decimal`; the limit is 2 to the power of its bits.
unfoldable pub decimal : Bytes → Bytes → ℕ → Option ℕ
unfolding cut_prefix parse_uint format
decimal field name limit = number_of limit (cut_prefix name field)

-- The refusals of `decodeStored`, each of which wraps ErrStoredHash.
pub data StoredError : Type 0 where
  too_long not_argon2id not_three_parameters bad_parameters bad_salt_or_tag outside_bounds :
      StoredError

abbrev pub u32 : ℕ
u32 = 2 ^ 32

abbrev pub u8 : ℕ
u8 = 2 ^ 8

-- The parameters of the third field.
abbrev pub params_of : Option ℕ → Option ℕ → Option ℕ → Result StoredError Params
params_of (some m) (some t) (some p) = ok (record { memory = m; iterations = t; parallelism = p })
params_of _ _ _ = err bad_parameters

unfoldable pub read_params : List Bytes → Result StoredError Params
unfolding decimal
read_params (a ∷ b ∷ c ∷ []) =
    params_of (decimal a (codes "m=") u32) (decimal b (codes "t=") u32) (decimal c (codes "p=") u8)
read_params _ = err not_three_parameters

-- The salt and the tag, of the accepted lengths.
abbrev pub bytes_of : Option Bytes → Option Bytes → Result StoredError (Bytes × Bytes)
bytes_of (some salt) (some tag) =
    if (ltb (length salt) salt_len || ltb max_salt_len (length salt))
      || not (nat_eq (length tag) tag_len)
    then err bad_salt_or_tag
    else ok (salt, tag)
bytes_of _ _ = err bad_salt_or_tag

abbrev pub in_bounds : Params → Params → Params → Bool
in_bounds floor ceiling p = at_least p floor && at_least ceiling p

-- The bounds on the parameters, which come after the salt and the tag are read.
unfoldable pub bounded : Params → Params → Params → Bytes × Bytes → Result StoredError StoredHash
unfolding at_least
bounded floor ceiling p (salt, tag) =
    if in_bounds floor ceiling p
    then ok (record { params = p; salt = salt; tag = tag })
    else err outside_bounds

-- The last three fields, once the first three are right.
unfoldable pub read_rest : Params → Params → Bytes → Bytes → Bytes → Result StoredError StoredHash
unfolding read_params strict_base64 bounded
read_rest floor ceiling f3 f4 f5 = do
  p ← read_params (split comma f3)
  b ← bytes_of (strict_base64 f4) (strict_base64 f5)
  bounded floor ceiling p b

unfoldable pub read_fields : Params → Params → List Bytes → Result StoredError StoredHash
unfolding read_rest
read_fields floor ceiling (f0 ∷ f1 ∷ f2 ∷ f3 ∷ f4 ∷ f5 ∷ []) =
    if f0 == [] && (f1 == codes "argon2id" && f2 == codes "v=" ++ format version)
    then read_rest floor ceiling f3 f4 f5
    else err not_argon2id
read_fields floor ceiling _ = err not_argon2id

-- `decodeStored`, at the scheme's floor and ceiling.
unfoldable pub decode_stored : Params → Params → Bytes → Result StoredError StoredHash
unfolding split read_fields
decode_stored floor ceiling h =
    if ltb max_stored_len (length h)
    then err too_long
    else read_fields floor ceiling (split dollar h)
