-- ===== src/Placement/Register/Tests.antt =====
-- placement/register.go: one answer of the register.
use go_authbyte.Base.{
  true, ◌↔◌, ℕ, ◌≡◌, refl, false, none, some, List, [], ◌∷◌, Bytes, codes, ℕ_comparable,
  Bytes_comparable, ok,
}
use go_authbyte.Base.Texts.{is_in, is_empty}
use go_authbyte.Base.Map.{lookup}
use go_authbyte.Base.Sorting.{Ascending}
use go_authbyte.Authclient.Headers.{get_header, canonical}
use go_authbyte.Authclient.Calls.{Answer}
use go_authbyte.Placement.{Role, Definitions}
use go_authbyte.Placement.Register.{Register, Network, new_register, own, read_definitions}
use go_authbyte.Placement.Register.Own.{InGroups, Copies, own_iff, read_definitions-Copies}

abbrev register : Register
register = record {
  base = codes "https://m";
  audience = codes "membership";
  groups = codes "projects" ∷ [];
}

abbrev perms : List Bytes
perms = codes "projects/b:x" ∷ codes "other/a:x" ∷ codes "projects/a:x" ∷ codes "projects/b:x" ∷ []

own_test : own register perms ≡ codes "projects/a:x" ∷ codes "projects/b:x" ∷ []
unfolding own
own_test = refl

own_iff_example :
    Ascending (own register perms)
    × ((is_in (own register perms) (codes "other/a:x") ≡ true)
        ↔ ((is_in perms (codes "other/a:x") ≡ true) × InGroups register.groups (codes "other/a:x")))
own_iff_example = own_iff register perms (codes "other/a:x")

abbrev role : Role
role = record {
  id = codes "r1";
  seed = [];
  name = codes "n";
  labels = [];
  description = [];
  keys = perms;
}

abbrev network : Network ℕ
network = record {
  parse_url = λ s. some (codes "https", codes "m");
  path_escape = λ s. s;
  call = λ x audience scope tenant a. (x, ok (record { status = 304; headers = []; body = [] }));
  encode_counts = λ c. none;
  decode_roles = λ b. some (role ∷ []);
  decode_unknown = λ b. none;
}

new_register_test :
    new_register network (codes "https://m//") (codes "membership") (codes "projects" ∷ [])
    ≡ ok register
unfolding new_register
new_register_test = refl

abbrev answer : Answer
answer = record {
  status = 200;
  headers = (canonical (codes "ETag"), codes "v1" ∷ []) ∷ [];
  body = codes "{}";
}

abbrev definitions : Definitions
definitions = record {
  version = codes "v1";
  roles = record role { keys = own register perms } ∷ [];
}

read : read_definitions network register answer ≡ ok (some definitions)
unfolding read_definitions lookup canonical
read = refl

read_definitions-Copies_example :
    (answer.status ≡ 200)
    × (is_empty definitions.version ≡ false)
    × (definitions.version ≡ get_header answer.headers (codes "ETag"))
    × (answered : List Role) × (some (role ∷ []) ≡ some answered)
    × Copies register answered definitions.roles
read_definitions-Copies_example = read_definitions-Copies network register answer definitions read
