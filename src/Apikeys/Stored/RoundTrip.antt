-- ===== src/Apikeys/Stored/RoundTrip.antt =====
-- apikeys/apikeys.go: a stored string is read back.
use go_authbyte.Base.{
  ℕ, ◌^◌, ◌≤◌, ◌<◌, ◌≡◌, refl, true, false, some, [], ◌∷◌, ◌++◌, arith, ltb, nat_eq_iff, length,
  length-append, All, ==_refl, Bytes, codes, ℕ_comparable, Bytes_comparable, ok,
}
use go_authbyte.Apikeys.Stored.{
  Params, encode_stored, cut_prefix, decimal, read_params, bytes_of, in_bounds, read_fields,
  decode_stored, comma, version, u32, u8, salt_len, max_salt_len, tag_len, max_stored_len,
}
use go_authbyte.Apikeys.Encoding.Base64.{standard, IsByte, strict_base64-encode, length-encode}
use go_authbyte.Apikeys.Encoding.Decimal.{format, parse_uint-format, length-format}
use go_authbyte.Apikeys.Encoding.Split.{split, joined_by, split-joined_by}
use go_authbyte.Apikeys.Stored.Fields.{
  parameter_fields, fields, parameter_fields_lack, split-encode_stored,
}

-- A number below its limit is read behind its name.
decimal-format :
    (c n limit : ℕ)
    → limit ≤ 2 ^ 64
    → n < limit
    → decimal (c ∷ b'=' ∷ format n) (c ∷ b'=' ∷ []) limit ≡ some n
unfolding decimal cut_prefix
decimal-format c n limit h k =
    rw ((nat_eq_iff c c).1 refl, parse_uint-format limit n h k, ==_refl (format n)) refl

abbrev pub FitsParams : Params → Type 0
FitsParams p = (p.memory < u32) × (p.iterations < u32) × (p.parallelism < u8)

read_params-joined_by :
    (p : Params)
    → FitsParams p
    → read_params (split comma (joined_by comma (parameter_fields p))) ≡ ok p
unfolding read_params
read_params-joined_by p (hm, ht, hp) =
    rw
      (
        split-joined_by comma (codes "m=" ++ format p.memory)
            ((codes "t=" ++ format p.iterations) ∷ (codes "p=" ++ format p.parallelism) ∷ [])
            (parameter_fields_lack p),
        decimal-format b'm' p.memory u32 (omega arith) hm,
        decimal-format b't' p.iterations u32 (omega arith) ht,
        decimal-format b'p' p.parallelism u8 (omega arith) hp,
      )
      refl

length-encode_stored :
    (p : Params) (salt tag : Bytes)
    → length salt ≤ 64
    → length tag ≤ 32
    → length (encode_stored p salt tag) ≤ 256
unfolding encode_stored
length-encode_stored p salt tag h k = simp (length-append) (
    omega (
      arith,
      length-format version,
      length-format p.memory,
      length-format p.iterations,
      length-format p.parallelism,
      length-encode standard salt,
      length-encode standard tag,
    ))

bytes_of-ok :
    (salt tag : Bytes)
    → salt_len ≤ length salt
    → length salt ≤ max_salt_len
    → length tag ≡ tag_len
    → bytes_of (some salt) (some tag) ≡ ok (salt, tag)
bytes_of-ok salt tag h k l = ground (arith, nat_eq_iff (length tag) tag_len)

read_fields-fields :
    (floor ceiling p : Params) (salt tag : Bytes)
    → All IsByte salt
    → All IsByte tag
    → FitsParams p
    → in_bounds floor ceiling p ≡ true
    → salt_len ≤ length salt
    → length salt ≤ max_salt_len
    → length tag ≡ tag_len
    → read_fields floor ceiling (fields p salt tag)
      ≡ ok (record { params = p; salt = salt; tag = tag })
unfolding read_fields
read_fields-fields floor ceiling p salt tag hs hg fits within least most exact =
    rw
      (
        read_params-joined_by p fits,
        strict_base64-encode salt hs,
        strict_base64-encode tag hg,
        bytes_of-ok salt tag least most exact,
        within,
      )
      refl

-- A stored string of parameters between the scheme's floor and ceiling, a salt of an accepted
-- length and a tag of 32 bytes is read back as those parameters, that salt and that tag.
pub decode_stored-encode_stored :
    (floor ceiling p : Params) (salt tag : Bytes)
    → All IsByte salt
    → All IsByte tag
    → FitsParams p
    → in_bounds floor ceiling p ≡ true
    → salt_len ≤ length salt
    → length salt ≤ max_salt_len
    → length tag ≡ tag_len
    → decode_stored floor ceiling (encode_stored p salt tag)
      ≡ ok (record { params = p; salt = salt; tag = tag })
unfolding decode_stored
decode_stored-encode_stored floor ceiling p salt tag hs hg fits within least most exact =
    let short : ltb max_stored_len (length (encode_stored p salt tag)) ≡ false =
      ground (arith, length-encode_stored p salt tag) in
    rw (short, split-encode_stored p salt tag hs hg)
      (read_fields-fields floor ceiling p salt tag hs hg fits within least most exact)
