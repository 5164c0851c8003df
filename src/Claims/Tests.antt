-- ===== src/Claims/Tests.antt =====
-- claims/claims.go: the claims of a delegated token.
use go_authbyte.Base.{◌≡◌, refl, true, none, [], ◌∷◌, codes, ℕ_comparable, Bytes_comparable}
use go_authbyte.Claims.{Claims, nobody, actor, chain, to_user_claims, is_service, fields}
use go_authbyte.Claims.User.{IsUser, lookup-to_user_claims}

abbrev token : Claims
token = record {
  subject = codes "svc:x";
  scope = codes " a:read  b:write";
  loa = codes "high";
  login_method = [];
  name = [];
  given_name = [];
  family_name = [];
  serial_number = [];
  tenant = codes "t";
  client_id = codes "portal";
  confirmation = none;
  act = actor (codes "bff") (actor (codes "portal") (actor [] (actor (codes "lost") nobody)));
}

chain_example : chain token.act ≡ codes "bff" ∷ codes "portal" ∷ []
unfolding chain
chain_example = refl

fields_example : fields token.scope ≡ codes "a:read" ∷ codes "b:write" ∷ []
unfolding fields
fields_example = refl

is_service_example : is_service token ≡ true
unfolding is_service
is_service_example = refl

lookup-to_user_claims_example : IsUser token (to_user_claims token)
lookup-to_user_claims_example = lookup-to_user_claims token
