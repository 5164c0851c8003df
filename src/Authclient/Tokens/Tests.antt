-- ===== src/Authclient/Tokens/Tests.antt =====
-- authclient/outbound.go: tokens at an endpoint that asks for a nonce and answers a form's values.
use go_authbyte.Base.{
  ℕ, suc, ◌<◌, ◌≡◌, refl, sym, ap, ◌∙◌, ◌⊎◌, Option, none, some, [], ◌∷◌, ◌++◌, arith, replicate,
  Bytes, codes, ℕ_comparable, Bytes_comparable, ok, err, ok_inj,
}
use go_authbyte.Base.Map.{lookup, insert, retain}
use go_authbyte.Base.Integers.{pos, negsuc}
use go_authbyte.Authclient.Tokens.{
  Outbound, Form, service, delegated, form_of, Response, refused, Endpoint, World, lifetime,
  post_token_form, Clock, Client, acquire_service_token_for_tenant, acquire_delegated_token,
}
use go_authbyte.Authclient.Tokens.Keys.{service_key-inj}
use go_authbyte.Authclient.Tokens.Grants.{Honest}
use go_authbyte.Authclient.Tokens.Origin.{
  Runs, fresh, more, for_service, for_subject, acquire_service_token_for_tenant-Grants,
  acquire_delegated_token-Grants,
}
use go_authbyte.Authclient.Tokens.Refusals.{Explains, post_token_form-Explains}

abbrev outbound : Outbound
outbound = record { client_id = codes "edge"; client_secret = codes "s"; early_refresh = 5 }

abbrev values : Form → Bytes
values [] = []
values ((name, value) ∷ form) = value ++ values form

-- A proof over no nonce is challenged; any other is answered by the form's values.
abbrev answer : Form → Bytes → Response
answer form [] = record {
  status = 401;
  dpop_nonce = codes "n1";
  retry_after = [];
  body = codes "use_dpop_nonce";
}
answer form (c ∷ nonce) = record {
  status = 200;
  dpop_nonce = [];
  retry_after = [];
  body = values form;
}

abbrev endpoint : Endpoint ℕ
endpoint = record {
  post = λ x form nonce. (suc x, ok (answer form nonce));
  read_token = λ body. some (body, pos 300);
}

abbrev Granted : Form → Bytes → Type 0
Granted form token = token ≡ values form

endpoint-Honest : Honest endpoint Granted
endpoint-Honest x form [] r i h k e = ground arith
endpoint-Honest x form (c ∷ nonce) r i h k e =
    let same = ap (λ o. elim o [ none ↦ r.body | some j ↦ j.0 ]) e in
    sym same ∙ sym (ap (λ a. a.body) (ok_inj h))

-- An endpoint that refuses.
abbrev closed : Endpoint ℕ
closed = record {
  post = λ x form nonce. (
    suc x,
    ok (record { status = 403; dpop_nonce = []; retry_after = codes "7"; body = codes "no" }),
  );
  read_token = λ body. none;
}

abbrev clock : Clock
clock = record { looked = 10; issued = 11; stored = 12 }

abbrev world : World ℕ
world = record { server = 0; posts = [] }

abbrev client : Client ℕ
client = record { tokens = []; world = world }

abbrev digest : Bytes → Bytes
digest u = replicate 2 171

abbrev expiry : Bytes → Option ℕ
expiry u = some 1000

abbrev after_service : Client ℕ
after_service =
    (acquire_service_token_for_tenant endpoint outbound clock client (codes "a") (codes "s")
      (codes "org")).0

abbrev after_subject : Client ℕ
after_subject =
    (acquire_delegated_token endpoint outbound digest expiry clock after_service (codes "a")
      (codes "s") (codes "u")).0

after_service_test :
    (acquire_service_token_for_tenant endpoint outbound clock client
      (codes "a")
      (codes "s")
      (codes "org")).1
    ≡ ok (codes "client_credentialsedgesasorg")
unfolding acquire_service_token_for_tenant lookup
after_service_test = refl

-- The second time the token comes from the cache: the posts are those of the first.
cached_test :
    (acquire_service_token_for_tenant endpoint outbound clock after_service
      (codes "a")
      (codes "s")
      (codes "org")).0.world.posts
    ≡ codes "n1" ∷ [] ∷ []
unfolding acquire_service_token_for_tenant lookup insert retain
cached_test = refl

lifetime_test : lifetime (pos 9223372037) ≡ negsuc 9223372036709551615
unfolding lifetime
lifetime_test = refl

acquired : Runs digest expiry endpoint outbound Granted endpoint-Honest client after_subject
acquired =
    more
      (more (fresh world)
        (for_service clock client (codes "a") (codes "s") (codes "org") (refl, refl, refl)))
      (for_subject clock after_service (codes "a") (codes "s") (codes "u")
        (refl, refl, (omega arith, (omega arith, tt))))

abbrev service_token : Bytes
service_token = codes "client_credentialsedgesasorg"

granted :
    (acquire_service_token_for_tenant endpoint outbound clock after_subject
      (codes "a")
      (codes "s")
      (codes "org")).1
    ≡ ok service_token
unfolding acquire_service_token_for_tenant acquire_delegated_token lookup insert retain
granted = refl

acquire_service_token_for_tenant-Grants_example :
    Granted (form_of outbound (service (codes "a") (codes "s") (codes "org"))) service_token
acquire_service_token_for_tenant-Grants_example =
    acquire_service_token_for_tenant-Grants digest expiry endpoint outbound Granted endpoint-Honest
      client after_subject acquired clock (codes "a") (codes "s") (codes "org") service_token
      (refl, refl, refl) granted

abbrev subject_token : Bytes
subject_token = values (form_of outbound (delegated (codes "a") (codes "s") (codes "u")))

granted_subject :
    (acquire_delegated_token endpoint outbound digest expiry clock after_subject
      (codes "a")
      (codes "s")
      (codes "u")).1
    ≡ ok subject_token
unfolding acquire_service_token_for_tenant acquire_delegated_token lookup insert retain
granted_subject = refl

acquire_delegated_token-Grants_example :
    Granted (form_of outbound (delegated (codes "a") (codes "s") (codes "u"))) subject_token
    ⊎ ((v : Bytes) × (digest (codes "u") ≡ digest v)
        × Granted (form_of outbound (delegated (codes "a") (codes "s") v)) subject_token
        × (n : ℕ) × (expiry v ≡ some n)
        × ((n ≡ 0) ⊎ (clock.looked < n)))
acquire_delegated_token-Grants_example =
    acquire_delegated_token-Grants digest expiry endpoint outbound Granted endpoint-Honest client
      after_subject acquired clock (codes "a") (codes "s") (codes "u") subject_token
      (refl, refl, (omega arith, (omega arith, tt))) granted_subject

service_key-inj_example : (codes "a" ≡ codes "a") × (codes "" ≡ codes "") × (codes "t" ≡ codes "t")
service_key-inj_example =
    service_key-inj (codes "a") (codes "") (codes "t") (codes "a") (codes "") (codes "t")
      (refl, refl, refl) (refl, refl, refl) refl

refuses : (post_token_form closed world []).1 ≡ err (refused 403 (codes "no") (codes "7"))
unfolding post_token_form
refuses = refl

post_token_form-Explains_example : Explains closed [] (refused 403 (codes "no") (codes "7"))
post_token_form-Explains_example =
    post_token_form-Explains closed [] world (refused 403 (codes "no") (codes "7")) refuses
