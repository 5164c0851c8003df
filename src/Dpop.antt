-- ===== src/Dpop.antt =====
-- dpop/dpop.go: the checks of a DPoP proof. The parsers of tokens, keys and addresses, SHA-256 and
-- the folding of letters are arguments.
pub mod Accepts
pub mod Generate
pub mod RoundTrip
mod Tests
use go_authbyte.Base.{
  ℕ, zero, suc, ◌+◌, ◌-◌, min, max, String, refl, sym, ap, subst, inl, inr, Bool, true, false, not,
  ◌&&◌, ◌||◌, Option, none, some, List, [], ◌∷◌, map, append-nil, append_assoc, arith, ltb, leb,
  nat_eq, if◌then◌else◌, ltb→lt, lt→ltb, leb→le, le→leb, nat_eq_iff, Bool-cases, Option-cases,
  length, take, drop, get_elem?, replicate, all, any, length-append, take-append-drop, All,
  All-append, Comparable, ◌==◌, ==_iff, ==_refl, Bytes, codes, bytes_eq, bytes_eq_iff, ℕ_comparable,
  Bytes_comparable, Result, ok, err, ◌>>=◌, bind-ok, ok_or, ok_inj, reverse, reverse_aux,
}
use go_authbyte.Apikeys.Encoding.Base64.{url_safe, encode}

abbrev pub header_type : Bytes
header_type = codes "dpop+jwt"

pub data Error : Type 0 where
  malformed wrong_type bad_key bad_signature wrong_method wrong_url wrong_hash expired
        missing_nonce :
      Error

-- A key that the library reads from a header: whether it is public, whether it is of the curve
-- type, and its digest, where one can be made.
pub record Jwk : Type 0 where
  pub is_public : Bool
  pub is_ecdsa : Bool
  pub digest : Option Bytes

-- A proof's header: its type where that is a text, and its key; `none` inside is a key that does
-- not encode or decode.
pub record Header : Type 0 where
  pub typ : Option Bytes
  pub jwk : Option (Option Jwk)

pub record ProofClaims : Type 0 where
  pub id : Bytes
  pub issued_at : Option ℕ
  pub htm : Bytes
  pub htu : Bytes
  pub ath : Bytes
  pub nonce : Bytes

pub record VerifyOptions : Type 0 where
  pub method : Bytes
  pub url : Bytes
  pub access_token : Bytes
  pub max_age : ℕ
  pub leeway : ℕ
  pub require_nonce : Bool

-- The validated content of a proof.
pub record Proved : Type 0 where
  pub thumbprint : Bytes
  pub jti : Bytes
  pub nonce : Bytes

-- A parsed address: what stands before the query and the fragment, and these two.
pub record Url : Type 0 where
  pub base : Bytes
  pub raw_query : Bytes
  pub fragment : Bytes

-- `unverified` reads the header of a token of the accepted method; `verified` then checks its
-- signature by the key and reads its claims.
pub record Libraries : Type 0 where
  pub unverified : Bytes → Option Header
  pub verified : Bytes → Jwk → Option ProofClaims
  pub parse_url : Bytes → Option Url
  pub url_string : Url → Bytes
  pub sha256 : Bytes → Bytes
  pub equal_fold : Bytes → Bytes → Bool

unfoldable pub access_token_hash : (Bytes → Bytes) → Bytes → Bytes
unfolding encode
access_token_hash sha256 token = encode url_safe (sha256 token)

unfoldable pub normalize_htu : Libraries → Bytes → Result Error Bytes
normalize_htu w raw = elim (w.parse_url raw) [
  | none ↦ err malformed
  | some u ↦ ok (w.url_string (record u { raw_query = []; fragment = [] }))
]

-- A key that may sign a proof, with its thumbprint.
abbrev pub thumbprint_of : Jwk → Option Bytes → Result Error (Jwk × Bytes)
thumbprint_of k none = err bad_key
thumbprint_of k (some d) = ok (k, encode url_safe d)

abbrev pub usable : Option (Option Jwk) → Result Error (Jwk × Bytes)
usable none = err bad_key
usable (some none) = err bad_key
usable (some (some k)) = if k.is_public && k.is_ecdsa then thumbprint_of k k.digest else err bad_key

unfoldable pub key_from_header : Header → Result Error (Jwk × Bytes)
unfolding encode
key_from_header h = usable h.jwk

abbrev pub is_type : Option Bytes → Bool
is_type none = false
is_type (some t) = t == header_type

-- The function that the parser asks for the key.
unfoldable pub proof_key : Header → Result Error (Jwk × Bytes)
unfolding key_from_header
proof_key h = if is_type h.typ then key_from_header h else err wrong_type

abbrev pub signed : Bytes → Option ProofClaims → Result Error (Bytes × ProofClaims)
signed thumbprint none = err bad_signature
signed thumbprint (some c) = ok (thumbprint, c)

abbrev pub parse_with : Libraries → Bytes → Option Header → Result Error (Bytes × ProofClaims)
parse_with w proof none = err bad_signature
parse_with w proof (some h) = proof_key h >>= λ k. signed k.1 (w.verified proof k.0)

-- `ParseWithClaims`, and what its errors become.
unfoldable pub parse_proof : Libraries → Bytes → Result Error (Bytes × ProofClaims)
unfolding proof_key
parse_proof w proof = parse_with w proof (w.unverified proof)

abbrev pub is_empty : Bytes → Bool
is_empty [] = true
is_empty (c ∷ s) = false

-- Too old, or from the future; a difference below zero is within both bounds, and is 0 here.
unfoldable pub out_of_window : VerifyOptions → ℕ → ℕ → Bool
out_of_window opt iat now = ltb (opt.max_age + opt.leeway) (now - iat) || ltb opt.leeway (iat - now)

abbrev pub not_fresh : VerifyOptions → ℕ → Option ℕ → Bool
not_fresh opt now none = true
not_fresh opt now (some iat) = out_of_window opt iat now

-- The checks behind the parser, against the normalized address of the request.
unfoldable pub check_claims :
    Libraries → VerifyOptions → ℕ → Bytes → ProofClaims → Bytes → Result Error Proved
unfolding access_token_hash out_of_window
check_claims w opt now thumbprint c want =
    if not (c.htu == want)
    then err wrong_url
    else if not (is_empty opt.access_token)
        && not (c.ath == access_token_hash w.sha256 opt.access_token)
    then err wrong_hash
    else if not_fresh opt now c.issued_at
    then err expired
    else if opt.require_nonce && is_empty c.nonce
    then err missing_nonce
    else ok (record { thumbprint = thumbprint; jti = c.id; nonce = c.nonce })

unfoldable pub check_proof :
    Libraries → VerifyOptions → ℕ → Bytes × ProofClaims → Result Error Proved
unfolding check_claims normalize_htu
check_proof w opt now (thumbprint, c) =
    if not (w.equal_fold c.htm opt.method)
    then err wrong_method
    else normalize_htu w opt.url >>= check_claims w opt now thumbprint c

-- `Verify` at the clock's time `now`.
unfoldable pub verify : Libraries → VerifyOptions → ℕ → Bytes → Result Error Proved
unfolding parse_proof check_proof
verify w opt now proof = parse_proof w proof >>= check_proof w opt now
