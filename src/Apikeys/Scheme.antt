-- ===== src/Apikeys/Scheme.antt =====
-- apikeys/apikeys.go: a key family, its new keys and the reading of a presented key.
-- The derivation of a tag (argon2id) and the system's randomness are arguments.
pub mod Parse
mod Letters
pub mod Mint
pub mod Costs
mod Tests
use go_authbyte.Base.{
  ℕ, zero, suc, ◌+◌, ◌*◌, ◌/◌, ◌%◌, min, max, String, refl, sym, ap, subst, inl, inr, Bool, true,
  false, not, ◌&&◌, ◌||◌, Option, none, some, List, [], ◌∷◌, ◌++◌, map, append-nil, append_assoc,
  arith, ltb, leb, nat_eq, if◌then◌else◌, ltb→lt, lt→ltb, leb→le, le→leb, nat_eq_iff, Bool-cases,
  Option-cases, length, take, drop, get_elem?, replicate, all, any, length-append, take-append-drop,
  All, All-append, Comparable, ◌==◌, ==_iff, ==_refl, Bytes, codes, bytes_eq, bytes_eq_iff,
  ℕ_comparable, Bytes_comparable, Result, ok, err, bind-ok, ok_or, ok_inj, reverse, reverse_aux,
}
use go_authbyte.Apikeys.Stored.{
  Params, StoredHash, default_params, default_ceiling, at_least, non_zero, higher, params_eq,
  encode_stored, tag_len,
}
use go_authbyte.Apikeys.Encoding.Base64.{url_safe, encode}

abbrev pub separator : ℕ
separator = b'_'

abbrev pub lookup_bytes : ℕ
lookup_bytes = 5

abbrev pub lookup_len : ℕ
lookup_len = 8

abbrev pub secret_bytes : ℕ
secret_bytes = 24

abbrev pub secret_len : ℕ
secret_len = 32

abbrev lookup_alphabet : Bytes
lookup_alphabet = codes "0123456789ABCDEFGHJKMNPQRSTVWXYZ"

abbrev secret_alphabet : Bytes
secret_alphabet = codes "ABCDEFGHIJKLMNOPQRSTUVWXYZabcdefghijklmnopqrstuvwxyz0123456789-_"

-- `charset`, as a test.
unfoldable charset : Bytes → ℕ → Bool
charset [] c = false
charset (b ∷ s) c = nat_eq b c || charset s c

unfoldable pub lookup_chars : ℕ → Bool
unfolding charset
lookup_chars c = charset lookup_alphabet c

unfoldable pub secret_chars : ℕ → Bool
unfolding charset
secret_chars c = charset secret_alphabet c

pub record Config : Type 0 where
  pub scheme : Bytes
  pub params : Params
  pub floor : Params
  pub ceiling : Params

pub record Scheme : Type 0 where
  pub name : Bytes
  pub mint : Params
  pub floor : Params
  pub ceiling : Params
  pub dummy : StoredHash

abbrev pub is_lower : ℕ → Bool
is_lower c = leb b'a' c && leb c b'z'

abbrev pub is_digit : ℕ → Bool
is_digit c = leb b'0' c && leb c b'9'

unfoldable pub valid_scheme : Bytes → Bool
valid_scheme [] = false
valid_scheme (c ∷ name) =
    not (ltb (length (c ∷ name)) 2 || ltb 8 (length (c ∷ name)))
    && (is_lower c && all (λ d. is_lower d || is_digit d) (c ∷ name))

-- The refusals of `NewScheme`.
pub data SchemeError : Type 0 where
  bad_name zero_params below_default minted_below_floor ceiling_below_minted no_randomness :
      SchemeError

abbrev pub no_params : Params
no_params = record { memory = 0; iterations = 0; parallelism = 0 }

abbrev pub params_or : Params → Params → Params
params_or default p = if params_eq p no_params then default else p

-- `NewScheme` below its defaults, with what the two reads of the system's randomness give.
unfoldable pub check_scheme :
    Bytes → Params → Params → Params → Option Bytes → Option Bytes → Result SchemeError Scheme
unfolding non_zero at_least
check_scheme name mint floor ceiling salt tag =
    if not (non_zero mint) || not (non_zero floor)
    then err zero_params
    else if ltb floor.memory default_params.memory || ltb floor.iterations default_params.iterations
    then err below_default
    else if not (at_least mint floor)
    then err minted_below_floor
    else if not (at_least ceiling mint)
    then err ceiling_below_minted
    else dummy_scheme salt tag
  where
    dummy_scheme : Option Bytes → Option Bytes → Result SchemeError Scheme
    dummy_scheme (some salt) (some tag) = ok (record {
      name = name;
      mint = mint;
      floor = floor;
      ceiling = ceiling;
      dummy = record { params = mint; salt = salt; tag = tag };
    })
    dummy_scheme _ _ = err no_randomness

unfoldable pub new_scheme : Config → Option Bytes → Option Bytes → Result SchemeError Scheme
unfolding valid_scheme check_scheme higher
new_scheme c salt tag =
    let mint = params_or default_params c.params in
    if not (valid_scheme c.scheme)
    then err bad_name
    else check_scheme c.scheme mint (params_or default_params c.floor)
        (params_or (higher default_ceiling mint) c.ceiling) salt tag

pub record ParsedKey : Type 0 where
  pub lookup : Bytes
  pub secret : Bytes

abbrev pub is_byte : Option ℕ → ℕ → Bool
is_byte none c = false
is_byte (some b) c = nat_eq b c

-- The guard of `parse`; each index is within the length that the first test asks for.
unfoldable pub shaped : Bytes → Bytes → Bool
shaped name key =
    let n = length name in
    nat_eq (length key) (n + 1 + lookup_len + 1 + secret_len)
    && (take n key == name
        && (is_byte (get_elem? key n) separator
            && is_byte (get_elem? key (n + 1 + lookup_len)) separator))

-- `parse`; `none` is ErrInvalid.
unfoldable pub parse : Bytes → Bytes → Option ParsedKey
unfolding shaped lookup_chars secret_chars
parse name key =
    let n = length name in
    let lookup = take lookup_len (drop (n + 1) key) in
    let secret = drop (n + 2 + lookup_len) key in
    if shaped name key && (all lookup_chars lookup && all secret_chars secret)
    then some (record { lookup = lookup; secret = secret })
    else none

-- Crockford's Base32 without padding.
abbrev pub letter32 : ℕ → ℕ
letter32 v = letter_of (get_elem? lookup_alphabet v)
  where
    letter_of : Option ℕ → ℕ
    letter_of none = 0
    letter_of (some c) = c

unfoldable pub encode32 : Bytes → Bytes
encode32 [] = []
encode32 (a ∷ []) = letter32 (a / 8) ∷ letter32 (a % 8 * 4) ∷ []
encode32 (a ∷ b ∷ []) =
    letter32 (a / 8)
    ∷ letter32 (a % 8 * 4 + b / 64)
    ∷ letter32 (b / 2 % 32)
    ∷ letter32 (b % 2 * 16)
    ∷ []
encode32 (a ∷ b ∷ c ∷ []) =
    letter32 (a / 8)
    ∷ letter32 (a % 8 * 4 + b / 64)
    ∷ letter32 (b / 2 % 32)
    ∷ letter32 (b % 2 * 16 + c / 16)
    ∷ letter32 (c % 16 * 2)
    ∷ []
encode32 (a ∷ b ∷ c ∷ d ∷ []) =
    letter32 (a / 8)
    ∷ letter32 (a % 8 * 4 + b / 64)
    ∷ letter32 (b / 2 % 32)
    ∷ letter32 (b % 2 * 16 + c / 16)
    ∷ letter32 (c % 16 * 2 + d / 128)
    ∷ letter32 (d / 4 % 32)
    ∷ letter32 (d % 4 * 8)
    ∷ []
encode32 (a ∷ b ∷ c ∷ d ∷ e ∷ s) =
    letter32 (a / 8)
    ∷ letter32 (a % 8 * 4 + b / 64)
    ∷ letter32 (b / 2 % 32)
    ∷ letter32 (b % 2 * 16 + c / 16)
    ∷ letter32 (c % 16 * 2 + d / 128)
    ∷ letter32 (d / 4 % 32)
    ∷ letter32 (d % 4 * 8 + e / 32)
    ∷ letter32 (e % 32)
    ∷ encode32 s

pub record Minted : Type 0 where
  pub key : Bytes
  pub lookup : Bytes
  pub hash : Bytes

-- argon2id: a secret, a salt, the costs and the length of the tag.
abbrev pub Derive : Type 0
Derive = Bytes → Bytes → Params → ℕ → Bytes

unfoldable pub hash_with : Derive → ParsedKey → Bytes → Params → Bytes
unfolding encode_stored
hash_with derive k salt p = encode_stored p salt (derive k.secret salt p tag_len)

-- `Mint` with the bytes that `io.ReadFull` fills the buffer with.
unfoldable pub mint_key : Derive → Scheme → Bytes → Minted
unfolding hash_with encode encode32
mint_key derive s buf =
    let lookup = encode32 (take lookup_bytes buf) in
    let secret = encode url_safe (take secret_bytes (drop lookup_bytes buf)) in
    record {
      key = s.name ++ separator ∷ (lookup ++ separator ∷ secret);
      lookup = lookup;
      hash =
          hash_with derive (record { lookup = lookup; secret = secret })
            (drop (lookup_bytes + secret_bytes) buf) s.mint;
    }

-- `none` of the randomness is its error, and of the result that `Mint` fails with it.
unfoldable pub mint : Derive → Scheme → Option Bytes → Option Minted
unfolding mint_key
mint derive s none = none
mint derive s (some buf) = some (mint_key derive s buf)

unfoldable pub rehash_to : Scheme → Params → Params × Bool
unfolding higher
rehash_to s p = let to = higher p s.mint in (to, not (params_eq to p))

-- A whole key; what prints, marshals or logs one writes the placeholder.
pub record Secret : Type 0 where
  pub v : Bytes

abbrev redacted : Bytes
redacted = codes "[redacted]"

unfoldable pub reveal : Secret → Bytes
reveal s = s.v

-- `String`, `GoString`, `Format`, `MarshalText` and `LogValue`; `MarshalJSON` puts it in quotes.
unfoldable pub shown : Secret → Bytes
shown s = redacted

unfoldable pub presented : Scheme → Bytes → Option Secret
unfolding parse
presented s key = elim (parse s.name key) [ none ↦ none | some k ↦ some (record { v = key }) ]
