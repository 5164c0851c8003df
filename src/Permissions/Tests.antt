-- ===== src/Permissions/Tests.antt =====
-- permissions/: the model at fixed inputs, and instances of the theorems.
use go_authbyte.Base.{
  ℕ, ◌≡◌, refl, ◌↔◌, ◌⊎◌, true, false, ◌&&◌, none, some, [], ◌∷◌, get_elem?, ◌==◌, codes,
  ℕ_comparable, Bytes_comparable, ok, err,
}
use go_authbyte.Base.Map.{lookup, insert}
use go_authbyte.IdentityCode.Chars.{trim_space, is_letter, is_lower, is_digit}
use go_authbyte.Permissions.Shapes.{
  service_shape, act_shape, feature_shape, language_shape, byte_len, is_ragged, is_alnum,
}
use go_authbyte.Permissions.{
  Permission, Set, Perm, Error, Scopes, ordinary, object, check, new, find, name, label, held_by,
  held_any,
}
use go_authbyte.Permissions.Index.{IsIndexed, new-IsIndexed, joined, find_iff}
use go_authbyte.Permissions.Gate.{
  required, Level, gate, levels, one_of, all_of, member, handled, refused, level_holds, HeldSome,
  one_of-handled,
}

abbrev comment : Permission
comment = record {
  feature = codes "task/file";
  act = codes "add";
  description = codes "Add a file";
  class = ordinary;
  plane = object;
  labels = (codes "lv", codes "Pievienot") ∷ [];
  retired = false;
  seeds = codes "worker" ∷ [];
}

abbrev remove : Permission
remove = record comment { act = codes "delete"; seeds = []; labels = [] }

abbrev projects : Set
projects = record {
  service = codes "projects";
  display_name = codes "Projects";
  list = comment ∷ remove ∷ [];
  index = (codes "task/file:add", 0) ∷ (codes "task/file:delete", 1) ∷ [];
}

program : Unit {0}
unfolding new check service_shape act_shape feature_shape language_shape byte_len is_ragged is_alnum
    trim_space lookup insert is_letter is_lower is_digit
program = tt

projects_built :
    new (codes "projects") (codes "Projects") ((comment ∷ []) ∷ (remove ∷ []) ∷ []) ≡ ok projects
unfolding program
projects_built = refl

refusals :
    (new (codes "Projects") (codes "Projects") [] ≡ err (Error.bad_service ∷ []))
    × (new (codes "projects") (codes " ") [] ≡ err (Error.no_display_name ∷ []))
    × (new (codes "projects") (codes "P") ((comment ∷ comment ∷ []) ∷ [])
        ≡ err (Error.declared_twice ∷ []))
    × (check (record comment { feature = codes "task//file" }) ≡ some Error.bad_feature)
    × (check (record comment { seeds = codes "a" ∷ codes "a" ∷ [] }) ≡ some Error.seed_twice)
    × (check (record comment { labels = (codes "lv-", codes "x") ∷ [] }) ≡ some Error.bad_language)
unfolding program
refusals = (refl, refl, refl, refl, refl, refl)

labels_found :
    (label (λ s. s) comment (codes "lv-LV") ≡ codes "Pievienot")
    × (label (λ s. s) comment (codes "en") ≡ codes "Add a file")
    × (name (codes "projects") comment ≡ codes "projects/task/file:add")
unfolding label lookup name
labels_found = (refl, refl, refl)

abbrev perm_of : Permission → Perm
perm_of p = record { service = codes "projects"; feature = p.feature; act = p.act }

-- A caller who may add a file.
adder : Scopes
adder group level = group == codes "projects/task/file" && level == codes "add"

abbrev no_level : Level
no_level = record { name = []; holds = none }

guards :
    ((one_of (gate projects) no_level (perm_of remove ∷ perm_of comment ∷ [])).1 adder ≡ handled)
    × ((all_of
            (gate projects)
            (levels (codes "projects") (codes "write" ∷ []))
            (perm_of remove ∷ perm_of comment ∷ [])).1
          adder
        ≡ refused
            (codes "projects:write or all of projects/task/file:delete projects/task/file:add"))
    × (member (gate projects) no_level adder ≡ handled)
unfolding one_of all_of member gate adder held_by held_any levels required
guards = (refl, refl, refl)

projects-IsIndexed :
    IsIndexed projects
    × (projects.list ≡ joined ((comment ∷ []) ∷ (remove ∷ []) ∷ []))
    × (projects.service ≡ codes "projects")
projects-IsIndexed =
    new-IsIndexed (codes "projects") (codes "Projects") ((comment ∷ []) ∷ (remove ∷ []) ∷ [])
      projects_built

find_iff_example : (find projects (codes "task/file") (codes "add") ≡ some comment) ↔ (
    (i : ℕ) × (get_elem? projects.list i ≡ some comment)
    × (comment.feature ≡ codes "task/file")
    × (comment.act ≡ codes "add"))
find_iff_example = find_iff projects (codes "task/file") (codes "add") comment projects-IsIndexed.0

one_of-handled_example :
    ((one_of (gate projects) no_level (perm_of remove ∷ [])).1 adder ≡ handled)
    ↔ ((level_holds no_level adder ≡ true) ⊎ HeldSome adder (perm_of remove ∷ []))
one_of-handled_example = one_of-handled (gate projects) no_level (perm_of remove ∷ []) adder
