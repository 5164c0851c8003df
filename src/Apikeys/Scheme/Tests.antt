-- ===== src/Apikeys/Scheme/Tests.antt =====
-- apikeys/apikeys.go: a scheme at the default costs, a key of it and its minting.
use go_authbyte.Base.{
  ℕ, zero, suc, ◌%◌, ◌<◌, ◌≡◌, refl, ap, ◌↔◌, none, some, arith, length, replicate, All, Bytes,
  codes, ℕ_comparable, Bytes_comparable,
}
use go_authbyte.Apikeys.Scheme.{Config, Scheme, ParsedKey, Derive, new_scheme, parse, no_params}
use go_authbyte.Apikeys.Scheme.Parse.{parse-spelling_iff, spelling, AreParts}
use go_authbyte.Apikeys.Scheme.Mint.{IsDerive}
use go_authbyte.Apikeys.Scheme.Costs.{IsScheme, new_scheme-IsScheme}
use go_authbyte.Apikeys.Encoding.Base64.{IsByte}
use go_authbyte.Apikeys.Stored.{Params, default_params, default_ceiling}

abbrev config : Config
config = record { scheme = codes "gmb"; params = no_params; floor = no_params; ceiling = no_params }

abbrev pub scheme : Scheme
scheme = record {
  name = codes "gmb";
  mint = default_params;
  floor = default_params;
  ceiling = default_ceiling;
  dummy = record { params = default_params; salt = replicate 16 1; tag = replicate 32 2 };
}

-- A stand-in for argon2id: it repeats the number of passes.
abbrev pub flat_derive : Derive
flat_derive secret salt p n = replicate n (p.iterations % 256)

replicate_bytes : (n b : ℕ) → b < 256 → (length (replicate n b) ≡ n) × All IsByte (replicate n b)
replicate_bytes zero b h = (refl, tt)
replicate_bytes (suc n) b h = (ap suc (replicate_bytes n b h).0, (h, (replicate_bytes n b h).1))

flat_derive-IsDerive : IsDerive flat_derive
flat_derive-IsDerive = λ secret salt p n. replicate_bytes n (p.iterations % 256) (omega arith)

new_scheme-IsScheme_example : IsScheme scheme
unfolding new_scheme
new_scheme-IsScheme_example =
    new_scheme-IsScheme config (some (replicate 16 1)) (some (replicate 32 2)) scheme refl

abbrev key : Bytes
key = codes "gmb_01234567_abcdefghijklmnopqrstuvwxyz012345"

abbrev parsed : ParsedKey
parsed = record { lookup = codes "01234567"; secret = codes "abcdefghijklmnopqrstuvwxyz012345" }

parse_example : parse (codes "gmb") key ≡ some parsed
unfolding parse
parse_example = refl

misread_letter_is_refused :
    parse (codes "gmb") (codes "gmb_0123456I_abcdefghijklmnopqrstuvwxyz012345") ≡ none
unfolding parse
misread_letter_is_refused = refl

parse-spelling_iff_example : (parse (codes "gmb") key ≡ some parsed) ↔ (
    (key ≡ spelling (codes "gmb") parsed.lookup parsed.secret)
    × AreParts parsed.lookup parsed.secret)
parse-spelling_iff_example = parse-spelling_iff (codes "gmb") key parsed

abbrev zeros : Bytes
zeros = replicate 45 0

abbrev cheap : Params
cheap = record { memory = 19456; iterations = 3; parallelism = 2 }
