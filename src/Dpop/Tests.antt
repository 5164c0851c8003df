-- ===== src/Dpop/Tests.antt =====
-- dpop/dpop.go: a proof of a request, by libraries that know one proof.
use go_authbyte.Base.{
  ℕ, ◌≡◌, refl, sym, ap, ◌∙◌, inl, inr, Bool, true, false, ◌&&◌, Option, none, some, [], ◌++◌, map,
  arith, nat_eq, if◌then◌else◌, nat_eq_iff, Bool-cases, ◌==◌, ==_iff, Bytes, codes, bytes_eq,
  ℕ_comparable, Bytes_comparable, ok, err,
}
use go_authbyte.Apikeys.Encoding.Base64.{url_safe, letter, encode}
use go_authbyte.Base.Texts.{to_upper}
use go_authbyte.Dpop.{
  Jwk, Header, ProofClaims, VerifyOptions, Proved, Libraries, header_type, is_type, expired,
  wrong_type, verify,
}
use go_authbyte.Dpop.Generate.{Signer, IsSigner, random_id, generate_proof}
use go_authbyte.Dpop.RoundTrip.{verify-generate_proof}
use go_authbyte.Dpop.Accepts.{IsSigned, NamesRequest, verify-ok}

abbrev jwk : Jwk
jwk = record { is_public = true; is_ecdsa = true; digest = some (codes "abc") }

abbrev claims : ProofClaims
claims = record {
  id = codes "id1";
  issued_at = some 100;
  htm = codes "GET";
  htu = codes "https://a/b";
  ath = [];
  nonce = codes "n";
}

abbrev libraries : Libraries
libraries = record {
  unverified = λ proof. some (record {
    typ = if proof == codes "p" then some header_type else none;
    jwk = some (some jwk);
  });
  verified = λ proof k. some claims;
  parse_url =
      λ raw. some (record { base = codes "https://a/b"; raw_query = codes "q"; fragment = [] });
  url_string = λ u. u.base ++ (u.raw_query ++ u.fragment);
  sha256 = λ s. s;
  equal_fold = bytes_eq;
}

abbrev options : VerifyOptions
options = record {
  method = codes "GET";
  url = codes "https://a/b?q";
  access_token = [];
  max_age = 60;
  leeway = 5;
  require_nonce = true;
}

abbrev proved : Proved
proved = record { thumbprint = encode url_safe (codes "abc"); jti = codes "id1"; nonce = codes "n" }

accepted : verify libraries options 130 (codes "p") ≡ ok proved
unfolding verify
accepted = refl

too_old : verify libraries options 166 (codes "p") ≡ err expired
unfolding verify
too_old = refl

other_type : verify libraries options 130 (codes "x") ≡ err wrong_type
unfolding verify
other_type = refl

verify-ok_example :
    (c : ProofClaims) × IsSigned libraries (codes "p") proved.thumbprint c
    × NamesRequest libraries options 130 c
    × (codes "id1" ≡ c.id)
    × (codes "n" ≡ c.nonce)
verify-ok_example = verify-ok libraries options 130 (codes "p") proved accepted

-- A signer of one proof.
abbrev digest_is : Option Bytes → Bool
digest_is none = false
digest_is (some d) = d == codes "abc"

abbrev jwk_is : Option (Option Jwk) → Bool
jwk_is none = false
jwk_is (some none) = false
jwk_is (some (some k)) = k.is_public && (k.is_ecdsa && digest_is k.digest)

abbrev at_is : Option ℕ → Bool
at_is none = false
at_is (some n) = nat_eq n 100000000000

abbrev made : ProofClaims
made = record {
  id = encode url_safe (codes "0");
  issued_at = some 100000000000;
  htm = codes "GET";
  htu = codes "https://a/b";
  ath = [];
  nonce = codes "n";
}

abbrev claims_are : ProofClaims → Bool
claims_are c =
    c.id == made.id
    && (at_is c.issued_at
        && (c.htm == made.htm
            && (c.htu == made.htu && (c.ath == made.ath && c.nonce == made.nonce))))

abbrev header : Header
header = record { typ = some header_type; jwk = some (some jwk) }

and_true : (a b : Bool) → (a && b) ≡ true → (a ≡ true) × (b ≡ true)
and_true true true h = (refl, refl)
and_true true false h = cc
and_true false b h = cc

type_is : (o : Option Bytes) → is_type o ≡ true → o ≡ header.typ
type_is none h = cc
type_is (some t) h = ap some ((==_iff t header_type).0 h)

digest-is : (o : Option Bytes) → digest_is o ≡ true → o ≡ jwk.digest
digest-is none h = cc
digest-is (some d) h = ap some ((==_iff d (codes "abc")).0 h)

key-is : (k : Jwk) → (k.is_public && (k.is_ecdsa && digest_is k.digest)) ≡ true → k ≡ jwk
key-is k h =
    let (p, h1) = and_true k.is_public _ h in
    let (q, h2) = and_true k.is_ecdsa _ h1 in let r = digest-is k.digest h2 in cc

jwk-is : (o : Option (Option Jwk)) → jwk_is o ≡ true → o ≡ header.jwk
jwk-is none h = cc
jwk-is (some none) h = cc
jwk-is (some (some k)) h = ap (λ x. some (some x)) (key-is k h)

at-is : (o : Option ℕ) → at_is o ≡ true → o ≡ made.issued_at
at-is none h = cc
at-is (some n) h = ap some ((nat_eq_iff n 100000000000).0 h)

claims-are : (c : ProofClaims) → claims_are c ≡ true → c ≡ made
claims-are c h =
    let (h1, t1) = and_true (c.id == made.id) _ h in
    let (h2, t2) = and_true (at_is c.issued_at) _ t1 in
    let (h3, t3) = and_true (c.htm == made.htm) _ t2 in
    let (h4, t4) = and_true (c.htu == made.htu) _ t3 in
    let (h5, h6) = and_true (c.ath == made.ath) (c.nonce == made.nonce) t4 in
    let e1 = (==_iff c.id made.id).0 h1 in
    let e2 = at-is c.issued_at h2 in
    let e3 = (==_iff c.htm made.htm).0 h3 in
    let e4 = (==_iff c.htu made.htu).0 h4 in
    let e5 = (==_iff c.ath made.ath).0 h5 in let e6 = (==_iff c.nonce made.nonce).0 h6 in cc

abbrev signing : Libraries
signing = record libraries { verified = λ proof k. some made }

abbrev header_is : Header → Bool
header_is h = is_type h.typ && jwk_is h.jwk

header-is : (h : Header) → header_is h ≡ true → h ≡ header
header-is h e =
    let (p, q) = and_true (is_type h.typ) (jwk_is h.jwk) e in
    let e1 = type_is h.typ p in let e2 = jwk-is h.jwk q in cc

abbrev signer : Signer ℕ
signer = record {
  public = λ key. some jwk;
  sign = λ key h c. if claims_are c && header_is h then some (codes "p") else none;
}

signer-sign :
    (h : Header) (c : ProofClaims) (proof : Bytes)
    → signer.sign 0 h c ≡ some proof
    → (proof ≡ codes "p") × (h ≡ header) × (c ≡ made)
signer-sign h c proof e = elim (Bool-cases (claims_are c && header_is h)) [
  | inl y ↦
      let (p, q) = and_true (claims_are c) (header_is h) y in
      (ground arith, header-is h q, claims-are c p)
  | inr n ↦ ground arith
]

signer-IsSigner : IsSigner signing signer
signer-IsSigner = record {
  read = λ key h c proof e.
      let (p, q, r) = signer-sign h c proof e in ap signing.unverified p ∙ ap some (sym q);
  verifies = λ key k h c proof d e. let (p, q, r) = signer-sign h c proof e in ap some (sym r);
  public_is = λ key k e. (cc, cc);
}

generated :
    generate_proof signing signer 100000000500
      (some (codes "0"))
      7
      (codes "get")
      (codes "https://a/b?q")
      []
      (codes "n")
    ≡ ok (codes "p")
unfolding generate_proof letter
generated = refl

upper_get : signing.equal_fold (map to_upper (codes "get")) options.method ≡ true
unfolding to_upper
upper_get = refl

verify-generate_proof_example :
    (jti : Bytes) × (random_id (some (codes "0")) ≡ ok jti)
    × (verify signing options 100000000030 (codes "p")
        ≡ ok (record { thumbprint = encode url_safe (codes "abc"); jti = jti; nonce = codes "n" }))
verify-generate_proof_example =
    verify-generate_proof signing signer 7 100000000500 100000000030 (some (codes "0"))
      (codes "get") (codes "https://a/b?q") [] (codes "n") jwk (codes "abc") (codes "p") options
      signer-IsSigner refl refl generated upper_get refl refl (omega arith, omega arith) (inr refl)
