-- ===== src/Apikeys/Scheme/Mint.antt =====
-- apikeys/apikeys.go: a minted key is read back, and so is its stored string.
use go_authbyte.Base.{
  ℕ, zero, suc, ◌≤◌, ◌≡◌, refl, true, some, [], ◌∷◌, ◌++◌, arith, length, take, drop, All, Bytes,
  ℕ_comparable, Bytes_comparable, ok,
}
use go_authbyte.Base.Slices.{length-take, length-drop}
use go_authbyte.Apikeys.Scheme.{
  encode32, separator, Scheme, ParsedKey, Derive, mint_key, hash_with, parse, lookup_bytes,
  secret_bytes,
}
use go_authbyte.Apikeys.Scheme.Parse.{parse-spelling_iff}
use go_authbyte.Apikeys.Scheme.Letters.{encode32-lookup, encode-secret}
use go_authbyte.Apikeys.Stored.{Params, decode_stored, in_bounds, salt_len, max_salt_len, tag_len}
use go_authbyte.Apikeys.Stored.RoundTrip.{FitsParams, decode_stored-encode_stored}
use go_authbyte.Apikeys.Encoding.Base64.{encode, url_safe, IsByte}

-- argon2id gives the tag the length that is asked for, in bytes.
abbrev pub IsDerive : Derive → Type 0
IsDerive derive =
    (secret salt : Bytes) (p : Params) (n : ℕ)
    → (length (derive secret salt p n) ≡ n) × All IsByte (derive secret salt p n)

All-take : (P : ℕ → Type 0) (n : ℕ) (s : Bytes) → All P s → All P (take n s)
All-take P zero s h = tt
All-take P (suc n) [] h = tt
All-take P (suc n) (c ∷ s) (p, h) = (p, All-take P n s h)

All-drop : (P : ℕ → Type 0) (n : ℕ) (s : Bytes) → All P s → All P (drop n s)
All-drop P zero s h = h
All-drop P (suc n) [] h = tt
All-drop P (suc n) (c ∷ s) (p, h) = All-drop P n s h

-- A stored string made by `hashWith` is read as its costs, its salt and the derived tag.
pub decode_stored-hash_with :
    (derive : Derive) (floor ceiling p : Params) (k : ParsedKey) (salt : Bytes)
    → IsDerive derive
    → All IsByte salt
    → FitsParams p
    → in_bounds floor ceiling p ≡ true
    → salt_len ≤ length salt
    → length salt ≤ max_salt_len
    → decode_stored floor ceiling (hash_with derive k salt p)
      ≡ ok (record { params = p; salt = salt; tag = derive k.secret salt p tag_len })
unfolding hash_with
decode_stored-hash_with derive floor ceiling p k salt hd hs fits within least most =
    decode_stored-encode_stored floor ceiling p salt (derive k.secret salt p tag_len) hs
      (hd k.secret salt p tag_len).1 fits within least most (hd k.secret salt p tag_len).0

-- The scheme's own costs are accepted by it.
abbrev pub AcceptsMinted : Scheme → Type 0
AcceptsMinted s = FitsParams s.mint × (in_bounds s.floor s.ceiling s.mint ≡ true)

-- A key minted from 45 random bytes by a scheme that accepts its own costs is read as a key of
-- its family with the minted lookup part, and the minted stored string is read as the scheme's
-- costs, the random salt and the tag derived from the secret of that key.
pub mint_key-parse :
    (derive : Derive) (s : Scheme) (buf : Bytes)
    → IsDerive derive
    → AcceptsMinted s
    → All IsByte buf
    → length buf ≡ 45
    → (secret : Bytes) × (parse s.name (mint_key derive s buf).key
        ≡ some (record { lookup = (mint_key derive s buf).lookup; secret = secret }))
      × (decode_stored s.floor s.ceiling (mint_key derive s buf).hash
          ≡ ok (record {
            params = s.mint;
            salt = drop 29 buf;
            tag = derive secret (drop 29 buf) s.mint tag_len;
          }))
unfolding mint_key
mint_key-parse derive s buf hd (fits, within) hb size =
    let first = take lookup_bytes buf in
    let next = take secret_bytes (drop lookup_bytes buf) in
    let (len_lookup, in_lookup) =
      encode32-lookup first (All-take IsByte lookup_bytes buf hb)
        (length-take lookup_bytes buf (omega arith)) in
    let (len_secret, in_secret) =
      encode-secret next
        (All-take IsByte secret_bytes (drop lookup_bytes buf) (All-drop IsByte lookup_bytes buf hb))
        (length-take secret_bytes (drop lookup_bytes buf)
          (omega (arith, length-drop lookup_bytes buf))) in
    let k : ParsedKey = record { lookup = encode32 first; secret = encode url_safe next } in
    (
      k.secret,
      (parse-spelling_iff s.name (s.name ++ separator ∷ (k.lookup ++ separator ∷ k.secret)) k).1
          (refl, (len_lookup, len_secret, in_lookup, in_secret)),
      decode_stored-hash_with derive s.floor s.ceiling s.mint k (drop 29 buf) hd
          (All-drop IsByte 29 buf hb) fits within (omega (arith, length-drop 29 buf))
          (omega (arith, length-drop 29 buf)),
    )
