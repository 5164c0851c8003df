-- ===== src/Authclient/Inbound/Tests.antt =====
-- authclient/middleware.go: one request at a service that asks for a proof and a nonce.
use go_authbyte.Base.{
  ℕ, ◌*◌, ◌≡◌, refl, ◌≢◌, inr, true, false, none, some, [], ◌∷◌, arith, nat_eq, if◌then◌else◌,
  replicate, ◌==◌, Bytes, codes, bytes_eq, ℕ_comparable, Bytes_comparable, ok,
}
use go_authbyte.Base.Map.{lookup}
use go_authbyte.Apikeys.Encoding.Base64.{url_safe, letter, encode}
use go_authbyte.Claims.{Claims, nobody, to_user_claims, UserClaims}
use go_authbyte.Dpop.{Libraries, Jwk, ProofClaims, header_type, Proved}
use go_authbyte.Nonce.{Issuer, issue}
use go_authbyte.Replay.{new_memory}
use go_authbyte.Authclient.Inbound.{Configuration, memory, Gate, Request, request_url, bearer_token}
use go_authbyte.Authclient.Inbound.Checks.{
  TokenLibrary, Reading, proof_options, parse_token, proceeds, answered, handle,
}
use go_authbyte.Authclient.Inbound.Accepts.{Admits, handle-Admits}
use go_authbyte.Authclient.Inbound.Refusals.{asks, IsSetUp, Told, handle-Told}
use go_authbyte.Authclient.Inbound.Replays.{
  Arrival, proof_of, arrive, arrive_all, arrive-accepted-once,
}
use go_authbyte.Jwks
use go_authbyte.Dpop

abbrev second : ℕ
second = 1000000000

abbrev cfg : Configuration
cfg = record {
  issuer_url = codes "https://i/";
  jwks_url = [];
  jwks_cache_ttl = 1000 * second;
  service_audience = codes "svc";
  also_accepted_audiences = [] ∷ codes "web" ∷ [];
  dpop_proof_max_age = 60 * second;
  token_clock_skew_leeway = 30 * second;
  dpop_replay_backend = [];
  redis_url = [];
  dpop_nonce_enabled = true;
  dpop_nonce_ttl = 300 * second;
  require_dpop = true;
}

abbrev claims : Claims
claims = record {
  subject = codes "u";
  scope = [];
  loa = [];
  login_method = [];
  name = [];
  given_name = [];
  family_name = [];
  serial_number = [];
  tenant = [];
  client_id = [];
  confirmation = some (record { jkt = encode url_safe (codes "abc") });
  act = nobody;
}

abbrev tokens : TokenLibrary ℕ
tokens = record {
  header = λ tok. if tok == codes "t" then some (codes "k1") else none;
  verified = λ p tok k at. if nat_eq k 5 then some claims else none;
}

abbrev issuer : Issuer
issuer = record { mac = λ payload. replicate 32 7; ttl = cfg.dpop_nonce_ttl }

abbrev proof_claims : ProofClaims
proof_claims = record {
  id = codes "id1";
  issued_at = some (100 * second);
  htm = codes "GET";
  htu = codes "https://a/b";
  ath = encode url_safe (codes "t");
  nonce = issue issuer (100 * second);
}

abbrev jwk : Jwk
jwk = record { is_public = true; is_ecdsa = true; digest = some (codes "abc") }

abbrev libraries : Libraries
libraries = record {
  unverified = λ proof. some (record { typ = some header_type; jwk = some (some jwk) });
  verified = λ proof k.
      if proof == codes "p"
      then some proof_claims
      else if proof == codes "old"
      then some (record proof_claims { nonce = codes "x" })
      else none;
  parse_url = λ raw. some (record { base = raw; raw_query = []; fragment = [] });
  url_string = λ u. u.base;
  sha256 = λ s. s;
  equal_fold = bytes_eq;
}

abbrev gate : Gate ℕ ℕ
gate = record {
  jwks = record {
    ttl = 1000 * second;
    min_interval = second;
    keys = (codes "k1", 5) ∷ [];
    fetched_at = 0;
    last_attempt = 0;
  };
  replay = memory new_memory;
  nonce = some issuer;
}

abbrev at : ℕ → Reading ℕ ℕ
at now = record {
  key_first = now;
  key_now = now;
  key_done = now;
  key_last = now;
  reply = Jwks.unreachable;
  token_at = now;
  proof_at = now;
  nonce_at = now;
  replay_at = now;
  challenge_at = now;
  set_nx = λ r. none;
}

abbrev request : Bytes → Request
request proof = record {
  authorization = codes "dPoP  t";
  dpop = proof;
  forwarded_proto = codes "https, http";
  forwarded_host = codes " a ";
  method = codes "GET";
  host = codes "pod";
  path = codes "/b";
  is_tls = false;
}

request_url_test : request_url (request []) ≡ codes "https://a/b"
unfolding request_url
request_url_test = refl

bearer_token_test : bearer_token (codes " Bearer a b ") ≡ codes "a b"
unfolding bearer_token
bearer_token_test = refl

abbrev user_claims : UserClaims
user_claims = to_user_claims claims

admitted :
    (handle tokens libraries cfg (at (110 * second)) gate (request (codes "p"))).1
    ≡ proceeds (some user_claims)
unfolding handle lookup new_memory letter
admitted = refl

abbrev token : Bytes
token = bearer_token (request (codes "p")).authorization

handle-Admits_example :
    (v : UserClaims) × (some user_claims ≡ some v)
    × Admits tokens libraries cfg (at (110 * second)) gate (request (codes "p")) v
handle-Admits_example =
    handle-Admits tokens libraries cfg (at (110 * second)) gate (request (codes "p"))
      (some user_claims) admitted

-- A stale nonce is answered by a new one, a bad proof by a 401 that names it, a bad token by a plain one.
stale_nonce :
    (handle tokens libraries cfg (at (110 * second)) gate (request (codes "old"))).1
    ≡ answered (asks (issue issuer (110 * second))) none
unfolding handle lookup letter
stale_nonce = refl

gate-IsSetUp : IsSetUp {K = ℕ} {R = ℕ} cfg gate
gate-IsSetUp = inr (issuer, refl)

handle-Told_example :
    Told tokens libraries cfg
      (at (110 * second))
      gate
      (parse_token tokens cfg (at (110 * second)) gate.jwks token).1
      (Dpop.verify libraries
        (proof_options cfg (request (codes "p")) token)
        (at (110 * second)).proof_at
        (request (codes "p")).dpop)
      (handle tokens libraries cfg (at (110 * second)) gate (request (codes "p"))).1
unfolding bearer_token
handle-Told_example =
    handle-Told tokens libraries cfg (at (110 * second)) gate (request (codes "p")) gate-IsSetUp

abbrev first : Arrival ℕ ℕ
first = record { reading = at (110 * second); request = request (codes "p") }

abbrev again : Arrival ℕ ℕ
again = record { reading = at (120 * second); request = request (codes "p") }

abbrev proved : Proved
proved = record {
  thumbprint = encode url_safe (codes "abc");
  jti = codes "id1";
  nonce = issue issuer (100 * second);
}

first_proof : proof_of tokens libraries cfg first ≡ ok proved
unfolding Dpop.verify request_url bearer_token letter issue
first_proof = refl

again_proof : proof_of tokens libraries cfg again ≡ ok proved
unfolding Dpop.verify request_url bearer_token letter issue
again_proof = refl

arrive-accepted-once_example :
    (arrive tokens libraries cfg
      (arrive_all tokens libraries cfg (arrive tokens libraries cfg gate first).0 (first ∷ []))
      again).1
    ≢ proceeds (some user_claims)
unfolding new_memory
arrive-accepted-once_example =
    arrive-accepted-once tokens libraries cfg gate first (some user_claims) (first ∷ []) again
      proved proved refl (omega arith) (new_memory, refl, tt) admitted
      (omega arith, (omega arith, tt)) first_proof again_proof refl (some user_claims)
