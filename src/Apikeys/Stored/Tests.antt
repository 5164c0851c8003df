-- ===== src/Apikeys/Stored/Tests.antt =====
-- apikeys/apikeys.go: a stored string at a concrete salt and tag.
use go_authbyte.Base.{
  ◌≡◌, refl, arith, replicate, Bytes, codes, ℕ_comparable, Bytes_comparable, ok, err,
}
use go_authbyte.Apikeys.Encoding.Base64.{letter}
use go_authbyte.Apikeys.Stored.{
  StoredHash, default_params, default_ceiling, encode_stored, decode_stored, at_least,
  outside_bounds, not_argon2id,
}
use go_authbyte.Apikeys.Stored.RoundTrip.{decode_stored-encode_stored}
use go_authbyte.Apikeys.Stored.Spelling.{Accepted, decode_stored-ok}

abbrev salt : Bytes
salt = replicate 16 255

abbrev tag : Bytes
tag = replicate 32 7

abbrev stored : StoredHash
stored = record { params = default_params; salt = salt; tag = tag }

decode_stored-encode_stored_example :
    decode_stored default_params default_ceiling (encode_stored default_params salt tag) ≡ ok stored
unfolding at_least
decode_stored-encode_stored_example =
    decode_stored-encode_stored default_params default_ceiling default_params salt tag (omega arith)
      (omega arith) (omega arith, omega arith, omega arith) refl (omega arith) (omega arith) refl

decode_stored-ok_example :
    (encode_stored default_params salt tag ≡ encode_stored default_params salt tag)
    × Accepted default_params default_ceiling stored
decode_stored-ok_example =
    decode_stored-ok default_params default_ceiling (encode_stored default_params salt tag) stored
      decode_stored-encode_stored_example

weak_is_refused :
    decode_stored default_params default_ceiling
      (encode_stored (record { memory = 8; iterations = 1; parallelism = 1 }) salt tag)
    ≡ err outside_bounds
unfolding decode_stored encode_stored letter
weak_is_refused = refl

other_version_is_refused :
    decode_stored default_params default_ceiling (codes "$argon2id$v=16$m=19456,t=2,p=1$AA$AA")
    ≡ err not_argon2id
unfolding decode_stored
other_version_is_refused = refl
