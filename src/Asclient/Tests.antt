-- ===== src/Asclient/Tests.antt =====
-- asclient: a client of a server that answers one code, and signs out connections.
use go_authbyte.Base.{
  ℕ, suc, ◌≡◌, refl, not, Option, none, some, [], ◌∷◌, ◌++◌, if◌then◌else◌, ◌==◌, Bytes, codes,
  ℕ_comparable, Bytes_comparable, ok,
}
use go_authbyte.Base.Integers.{pos}
use go_authbyte.Base.Map.{lookup}
use go_authbyte.Authclient.Tokens.{Form}
use go_authbyte.Authclient.Headers.{get_header, canonical}
use go_authbyte.Authclient.Calls.{Sent, Answer, Resource}
use go_authbyte.Asclient.{
  Client, with_client_secret, with_issuer, new, Libraries, Wire, request_of, exchange_code,
}
use go_authbyte.Asclient.SignIn.{
  wrong_issuer, check_issuer, IdTokenCheck, IdTokenClaims, check_claims, id_of, TokenLibrary,
  Reading, Tokens, Session, exchange_sign_in,
}
use go_authbyte.Asclient.SignIn.Checks.{Outcome, exchange_sign_in-Outcome}
use go_authbyte.Asclient.Connections.{segment, sign_out_assistant_connection}
use go_authbyte.Asclient.Connections.Segments
use go_authbyte.Asclient.Connections.Segments.{sign_out_assistant_connection-Ends}
use go_authbyte.Jwks

abbrev client : Client
client =
    new (codes "https://a/") (codes "http://b") (codes "edge") (codes "https://edge/back")
      (with_issuer (codes "https://a") ∷ with_client_secret (codes "s") ∷ [])

new_example : client.public_url ≡ codes "https://a"
unfolding new with_issuer with_client_secret
new_example = refl

issuer_example : check_issuer client (codes "https://z") ≡ some wrong_issuer
unfolding new with_issuer with_client_secret check_issuer
issuer_example = refl

abbrev encode_form : Form → Bytes
encode_form [] = []
encode_form ((name, value) ∷ form) =
    name ++ (codes "=" ++ (value ++ (codes "&" ++ encode_form form)))

abbrev libraries : Libraries
libraries = record {
  prove = λ s. codes "proof";
  encode_form = encode_form;
  query_escape = λ s. s;
  path_escape = λ s. s;
  basic = λ user secret. codes "Basic " ++ user;
  correlation_header = codes "X-Correlation-Id";
  correlation_id = [];
}

-- A server that asks for its nonce, answers a code with its token, and ends sessions.
abbrev answer : Sent → Answer
answer s =
    if not (s.nonce == codes "n1")
    then record {
      status = 401;
      headers = (canonical (codes "DPoP-Nonce"), codes "n1" ∷ []) ∷ [];
      body = [];
    }
    else if s.method == codes "DELETE"
    then record { status = 204; headers = []; body = [] }
    else record { status = 200; headers = []; body = codes "tok" }

abbrev server : Resource ℕ
server = record { send = λ x s. (suc x, ok (answer s)) }

abbrev wire : Wire ℕ
wire = record { resource = 0; sent = [] }

ended_after_two :
    (sign_out_assistant_connection server libraries client wire
      (codes "t")
      (codes "bot")
      (codes "c1")).0.resource
    ≡ 2
unfolding sign_out_assistant_connection request_of get_header lookup
ended_after_two = refl

no_parent_segment : segment libraries (codes "..") ≡ none
unfolding segment
no_parent_segment = refl

sign_out_assistant_connection-Ends_example :
    Segments.Outcome server libraries client wire (codes "t") (codes "bot") (codes "c1") (
      sign_out_assistant_connection server libraries client wire
        (codes "t")
        (codes "bot")
        (codes "c1"))
sign_out_assistant_connection-Ends_example =
    sign_out_assistant_connection-Ends server libraries client wire (codes "t") (codes "bot")
      (codes "c1")

abbrev decode : Bytes → Option Tokens
decode body = some (record {
  access_token = body;
  token_type = codes "DPoP";
  expires_in = pos 300;
  refresh_token = codes "r";
  id_token = codes "id";
})

abbrev check : IdTokenCheck
check = record {
  nonce = codes "n";
  max_age = some 0;
  started = 2000000000000;
  acr_values = codes "eid smart";
}

abbrev claims_of : Bytes → IdTokenClaims
claims_of nonce = record {
  audience = codes "edge" ∷ [];
  subject = codes "p";
  issued_at = some 2000000000000;
  nonce = nonce;
  auth_time = some 1990000000000;
  acr = codes "smart";
  amr = [];
  sid = codes "s1";
}

abbrev tokens : Bytes → TokenLibrary ℕ
tokens nonce = record {
  header = λ raw. some (codes "k");
  verified = λ parser raw k at. some (claims_of nonce);
}

abbrev reading : Reading ℕ
reading = record {
  key_first = 200;
  key_now = 200;
  key_done = 200;
  key_last = 200;
  reply = Jwks.key_set ((codes "k", 7) ∷ []);
  token_at = 200;
  now = 200;
}

abbrev session : Session ℕ ℕ
session = record {
  keys = record {
    ttl = 300;
    min_interval = 30;
    keys = (codes "k", 7) ∷ [];
    fetched_at = 100;
    last_attempt = 100;
  };
  wire = wire;
}

proved_claims : check_claims check 200 (claims_of (codes "n")) ≡ ok (id_of (claims_of (codes "n")))
unfolding check_claims
proved_claims = refl

other_sign_in_revoked :
    (exchange_sign_in
      (tokens (codes "z"))
      server
      libraries
      decode
      client
      reading
      session
      (codes "code")
      (codes "v")
      check).0.wire.resource
    ≡ 4
unfolding exchange_sign_in request_of get_header check_claims new with_client_secret with_issuer
    lookup
other_sign_in_revoked = refl

exchange_sign_in-Outcome_example :
    Outcome
      (tokens (codes "n"))
      client
      reading
      server
      libraries
      decode
      session.keys
      check
      (exchange_code server libraries client decode session.wire (codes "code") (codes "v"))
      (exchange_sign_in
        (tokens (codes "n"))
        server
        libraries
        decode
        client
        reading
        session
        (codes "code")
        (codes "v")
        check)
unfolding new with_issuer with_client_secret
exchange_sign_in-Outcome_example =
    exchange_sign_in-Outcome (tokens (codes "n")) client reading server libraries decode session
      (codes "code") (codes "v") check refl refl
