-- ===== src/Dpop/Generate.antt =====
-- dpop/dpop.go: the making of a proof. A method is ASCII; the key's public part, the signature and
-- the random bytes come from libraries.
use go_authbyte.Base.{
  ℕ, ◌*◌, ◌/◌, ◌≡◌, true, Option, none, some, [], map, if◌then◌else◌, Bytes, ℕ_comparable,
  Bytes_comparable, Result, ok, err, ◌>>=◌,
}
use go_authbyte.Base.Texts.{to_upper}
use go_authbyte.Apikeys.Encoding.Base64.{url_safe, encode}
use go_authbyte.Dpop.{
  Jwk, Header, ProofClaims, Libraries, header_type, access_token_hash, normalize_htu, is_empty,
}

abbrev pub second : ℕ
second = 1000000000

pub data GenerateError : Type 0 where
  bad_url no_random bad_key not_signed : GenerateError

-- What the libraries make of a key: its public part, as a header has it, and a signed proof.
pub record Signer (Key : Type 0) : Type 0 where
  pub public : Key → Option Jwk
  pub sign : Key → Header → ProofClaims → Option Bytes

-- `randomID`
unfoldable pub random_id : Option Bytes → Result GenerateError Bytes
unfolding encode
random_id none = err no_random
random_id (some b) = ok (encode url_safe b)

-- `Thumbprint`
unfoldable pub thumbprint : Jwk → Option Bytes
unfolding encode
thumbprint k = elim k.digest [ none ↦ none | some d ↦ some (encode url_safe d) ]

abbrev pub proof_url : Libraries → Bytes → Result GenerateError Bytes
proof_url w url = elim (normalize_htu w url) [ err e ↦ err bad_url | ok u ↦ ok u ]

-- The claims of a proof; its time has the precision of a second.
abbrev pub new_claims : Libraries → ℕ → Bytes → Bytes → Bytes → Bytes → Bytes → ProofClaims
new_claims w now jti method htu access_token nonce = record {
  id = jti;
  issued_at = some (now / second * second);
  htm = map to_upper method;
  htu = htu;
  ath = if is_empty access_token then [] else access_token_hash w.sha256 access_token;
  nonce = nonce;
}

module _ {Key : Type 0} where
  -- `publicJWKHeader`
  abbrev pub public_header : Signer Key → Key → Result GenerateError Jwk
  public_header s key = elim (s.public key) [ none ↦ err bad_key | some k ↦ ok k ]

  abbrev pub sign_with : Signer Key → Key → ProofClaims → Jwk → Result GenerateError Bytes
  sign_with s key c k =
      elim (s.sign key (record { typ = some header_type; jwk = some (some k) }) c) [
        | none ↦ err not_signed
        | some proof ↦ ok proof
      ]

  unfoldable pub generate_proof :
      Libraries
      → Signer Key
      → ℕ
      → Option Bytes
      → Key
      → Bytes
      → Bytes
      → Bytes
      → Bytes
      → Result GenerateError Bytes
  unfolding random_id normalize_htu access_token_hash to_upper
  generate_proof w s now random key method url access_token nonce = proof_url w url >>= λ htu.
      random_id random >>= λ jti.
      public_header s key >>= sign_with s key (new_claims w now jti method htu access_token nonce)

  -- The libraries read a signed proof back, with its header, and verify it by the public key.
  pub record IsSigner (w : Libraries) (s : Signer Key) : Type 0 where
    pub read :
        (key : Key) (h : Header) (c : ProofClaims) (proof : Bytes)
        → s.sign key h c ≡ some proof
        → w.unverified proof ≡ some h
    pub verifies :
        (key : Key) (k : Jwk) (h : Header) (c : ProofClaims) (proof : Bytes)
        → s.public key ≡ some k
        → s.sign key h c ≡ some proof
        → w.verified proof k ≡ some c
    pub public_is :
        (key : Key) (k : Jwk) → s.public key ≡ some k → (k.is_public ≡ true) × (k.is_ecdsa ≡ true)
