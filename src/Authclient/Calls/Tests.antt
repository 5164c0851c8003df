-- ===== src/Authclient/Calls/Tests.antt =====
-- authclient/background.go: calls to a service that asks for a nonce.
use go_authbyte.Base.{
  ℕ, suc, ◌≡◌, refl, sym, ap, ◌∙◌, none, some, [], ◌∷◌, ◌++◌, if◌then◌else◌, ◌==◌, Bytes, codes,
  ℕ_comparable, Bytes_comparable, ok, err, ok_inj,
}
use go_authbyte.Base.Map.{lookup, insert}
use go_authbyte.Base.Integers.{pos}
use go_authbyte.Authclient.Tokens.{Outbound, Endpoint, Form, service, form_of, Clock, Client}
use go_authbyte.Authclient.Tokens.Grants.{Honest}
use go_authbyte.Authclient.Tokens.Origin.{fresh}
use go_authbyte.Authclient.Headers.{canonical}
use go_authbyte.Authclient.Calls.{
  Sent, Answer, Resource, Caller, Asked, Correlation, do_background, do_with_dpop,
  unexpected_status,
}
use go_authbyte.Authclient.Calls.Services.{do_service_for_tenant}
use go_authbyte.Authclient.Calls.Nonces.{AllNew, Carries, do_service_for_tenant-Grants}

abbrev outbound : Outbound
outbound = record { client_id = codes "edge"; client_secret = codes "s"; early_refresh = 5 }

abbrev endpoint : Endpoint ℕ
endpoint = record {
  post = λ x form nonce.
      (suc x, ok (record { status = 200; dpop_nonce = []; retry_after = []; body = codes "tok" }));
  read_token = λ body. some (body, pos 300);
}

abbrev Granted : Form → Bytes → Type 0
Granted form token = token ≡ codes "tok"

endpoint-Honest : Honest endpoint Granted
endpoint-Honest x form nonce r i h k e =
    sym (ap (λ o. elim o [ none ↦ r.body | some j ↦ j.0 ]) e) ∙ sym (ap (λ a. a.body) (ok_inj h))

-- A service that answers requests over its nonce.
abbrev answer : Sent → Answer
answer s =
    if s.nonce == codes "r1"
    then record { status = 200; headers = []; body = codes "yes" }
    else record {
      status = 401;
      headers = (canonical (codes "DPoP-Nonce"), codes "r1" ∷ []) ∷ [];
      body = [];
    }

abbrev resource : Resource ℕ
resource = record { send = λ x s. (suc x, ok (answer s)) }

abbrev caller : Caller ℕ
caller = record { nonces = []; resource = 0; sent = [] }

abbrev asked : Asked
asked = record {
  method = codes "get";
  url = codes "https://a/b";
  headers = (codes "authorization", codes "Basic x" ∷ []) ∷ [];
  body = none;
}

abbrev correlation : Correlation
correlation = record { header = codes "X-Correlation-ID"; id = codes "c1" }

abbrev prove : Sent → Bytes
prove s = s.method ++ s.nonce

answered :
    (do_background resource prove correlation caller (codes "a") (codes "tok") asked).1
    ≡ ok (record { status = 200; headers = []; body = codes "yes" })
unfolding do_background lookup insert
answered = refl

-- The second call is answered at once.
kept_nonce :
    (do_background resource prove correlation
      (do_background resource prove correlation caller (codes "a") (codes "tok") asked).0
      (codes "a")
      (codes "tok")
      asked).0.resource
    ≡ 3
unfolding do_background lookup insert
kept_nonce = refl

refused :
    (do_with_dpop
      (record { send = λ x s. (suc x, ok (record { status = 403; headers = []; body = [] })) })
      prove
      correlation
      caller
      (codes "a")
      (codes "tok")
      asked).1
    ≡ err (unexpected_status 403)
unfolding do_with_dpop lookup
refused = refl

abbrev clock : Clock
clock = record { looked = 10; issued = 11; stored = 12 }

abbrev client : Client ℕ
client = record { tokens = []; world = record { server = 0; posts = [] } }

do_service_for_tenant-Grants_example :
    AllNew resource
      (codes "a")
      (λ s.
        Granted (form_of outbound (service (codes "a") (codes "s") (codes "org"))) s.token
        × Carries prove s.token asked s)
      caller
      (do_service_for_tenant endpoint outbound resource prove correlation clock client caller
        (codes "a")
        (codes "s")
        (codes "org")
        asked).0.1
do_service_for_tenant-Grants_example =
    do_service_for_tenant-Grants endpoint outbound Granted endpoint-Honest (λ u. []) (λ u. none)
      resource prove correlation clock client client caller (codes "a") (codes "s") (codes "org")
      asked (fresh client.world) (refl, refl, refl)
