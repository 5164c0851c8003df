-- ===== src/Permissions.antt =====
-- permissions/: the acts that a service declares, and the checks of its routes.
-- A class and a plane are texts, as in the source. `clone` has no counterpart, since a value of the
-- model is never changed in place.
pub mod Shapes
pub mod Index
pub mod Gate
mod Tests
use go_authbyte.Base.{
  ℕ, zero, suc, min, max, String, refl, sym, ap, subst, inl, inr, Bool, true, false, not, ◌&&◌,
  ◌||◌, Option, none, some, List, [], ◌∷◌, ◌++◌, map, append-nil, append_assoc, arith, ltb, leb,
  nat_eq, if◌then◌else◌, ltb→lt, lt→ltb, leb→le, le→leb, nat_eq_iff, Bool-cases, Option-cases,
  length, take, drop, get_elem?, replicate, all, any, length-append, take-append-drop, All,
  All-append, Comparable, ◌==◌, ==_iff, ==_refl, Bytes, codes, bytes_eq, bytes_eq_iff, ℕ_comparable,
  Bytes_comparable, Result, ok, err, bind-ok, reverse, reverse_aux,
}
use go_authbyte.Base.Map.{
  lookup, insert, retain, kept, Distinct, lookup-insert, insert-Distinct, lookup-retain,
  retain-Distinct, length-insert, length-retain,
}
use go_authbyte.IdentityCode.Chars.{trim_space}
use go_authbyte.Permissions.Shapes.{
  colon, slash, service_shape, act_shape, feature_shape, language_shape, byte_len, is_ragged,
}

abbrev pub ordinary : Bytes
ordinary = codes "ordinary"

abbrev pub tenant_configuration : Bytes
tenant_configuration = codes "tenantConfiguration"

abbrev pub role_management : Bytes
role_management = codes "roleManagement"

abbrev pub per_field : Bytes
per_field = codes "perField"

abbrev pub tenant : Bytes
tenant = codes "tenant"

abbrev pub object : Bytes
object = codes "object"

abbrev pub chart : Bytes
chart = codes "chart"

pub record Permission : Type 0 where
  pub feature : Bytes
  pub act : Bytes
  pub description : Bytes
  pub class : Bytes
  pub plane : Bytes
  pub labels : List (Bytes × Bytes)
  pub retired : Bool
  pub seeds : List Bytes

unfoldable pub name : Bytes → Permission → Bytes
name service p = service ++ slash ∷ (p.feature ++ colon ∷ p.act)

-- The part of a text before the first hyphen: `strings.Cut(s, "-")`.
unfoldable pub before_hyphen : Bytes → Bytes
before_hyphen [] = []
before_hyphen (c ∷ s) = let rest = before_hyphen s in if nat_eq c b'-' then [] else c ∷ rest

abbrev or_label : Option Bytes → Bytes → Bytes
or_label none other = other
or_label (some l) other = l

-- `Label`; `strings.ToLower` is an argument.
unfoldable pub label : (Bytes → Bytes) → Permission → Bytes → Bytes
unfolding before_hyphen
label to_lower p lang =
    or_label (lookup p.labels lang)
      (or_label (lookup p.labels (before_hyphen (to_lower lang))) p.description)

abbrev pub max_service : ℕ
max_service = 64

abbrev max_feature : ℕ
max_feature = 128

abbrev max_act : ℕ
max_act = 64

abbrev max_label : ℕ
max_label = 256

pub data Error : Type 0 where
  bad_service no_display_name : Error
  bad_feature bad_act bad_description bad_class bad_plane bad_family bad_chart bad_seeding : Error
  bad_seed seed_twice bad_language bad_label declared_twice : Error

abbrev Check : Type 0
Check = Option Error

-- The first of two refusals.
infixr 30 ◌andthen◌
abbrev ◌andthen◌ : Check → Check → Check
none andthen next = next
some e andthen next = some e

-- `case bad: return fmt.Errorf(…)`
abbrev refuse : Bool → Error → Check
refuse bad e = if bad then some e else none

abbrev contains : List Bytes → Bytes → Bool
contains xs s = any (λ x. s == x) xs

-- The loop over `p.Seeds`; the first argument is `seen`.
unfoldable check_seeds : List Bytes → List Bytes → Check
check_seeds seen [] = none
check_seeds seen (seed ∷ seeds) =
    let rest = check_seeds (seed ∷ seen) seeds in
    refuse (ltb max_act (byte_len seed) || not (act_shape seed)) Error.bad_seed
    andthen (refuse (contains seen seed) Error.seed_twice andthen rest)

-- The loop over `p.Labels`, in one of the orders that a map may be walked in.
unfoldable check_labels : List (Bytes × Bytes) → Check
check_labels [] = none
check_labels ((lang, text) ∷ labels) =
    let rest = check_labels labels in
    refuse (not (language_shape lang)) Error.bad_language
    andthen (refuse (is_ragged text || ltb max_label (byte_len text)) Error.bad_label andthen rest)

abbrev is_some_seed : List Bytes → Bool
is_some_seed [] = false
is_some_seed (s ∷ seeds) = true

-- The `switch` of `check`.
unfoldable check_shape : Permission → Check
check_shape p =
    refuse (ltb max_feature (byte_len p.feature) || not (feature_shape p.feature)) Error.bad_feature
    andthen (refuse (ltb max_act (byte_len p.act) || not (act_shape p.act)) Error.bad_act
        andthen (refuse (is_ragged p.description) Error.bad_description
            andthen (refuse
                  (not (
                    contains (ordinary ∷ tenant_configuration ∷ role_management ∷ per_field ∷ [])
                      p.class))
                  Error.bad_class
                andthen (refuse (not (contains (tenant ∷ object ∷ chart ∷ []) p.plane))
                      Error.bad_plane
                    andthen (refuse (p.class == per_field && not (p.plane == object))
                          Error.bad_family
                        andthen refuse (p.plane == chart && not (p.class == ordinary))
                            Error.bad_chart)))))

unfoldable pub check : Permission → Check
unfolding check_shape check_seeds check_labels
check p =
    check_shape p
    andthen (refuse (is_some_seed p.seeds && (not (p.plane == object) || not (p.class == ordinary)))
          Error.bad_seeding
        andthen (check_seeds [] p.seeds andthen check_labels p.labels))

pub record Set : Type 0 where
  pub service : Bytes
  pub display_name : Bytes
  pub list : List Permission
  pub index : List (Bytes × ℕ)

-- `p.Feature + ":" + p.Act`
abbrev pub key : Bytes → Bytes → Bytes
key feature act = feature ++ colon ∷ act

abbrev is_some : {A : Type 0} → Option A → Bool
is_some none = false
is_some (some a) = true

-- What `New` keeps while it walks the lists: the set so far and the errors.
abbrev pub Walk : Type 0
Walk = Set × List Error

-- One round of the inner loop.
unfoldable pub declare : Walk → Permission → Walk
unfolding check
declare (s, errs) p = elim (check p) [
  | some e ↦ (s, errs ++ e ∷ [])
  | none ↦
      if is_some (lookup s.index (key p.feature p.act))
      then (s, errs ++ Error.declared_twice ∷ [])
      else (
        record s {
          index = insert s.index (key p.feature p.act) (length s.list);
          list = s.list ++ p ∷ [];
        },
        errs,
      )
]

unfoldable pub declare_list : Walk → List Permission → Walk
unfolding declare
declare_list w [] = w
declare_list w (p ∷ list) = declare_list (declare w p) list

unfoldable pub declare_lists : Walk → List (List Permission) → Walk
unfolding declare_list
declare_lists w [] = w
declare_lists w (list ∷ lists) = declare_lists (declare_list w list) lists

-- `if len(errs) > 0`
abbrev pub finish : Walk → Result (List Error) Set
finish (s, []) = ok s
finish (s, e ∷ errs) = err (e ∷ errs)

unfoldable pub new : Bytes → Bytes → List (List Permission) → Result (List Error) Set
unfolding declare_lists
new service display_name lists =
    if ltb max_service (byte_len service) || not (service_shape service)
    then err (Error.bad_service ∷ [])
    else if trim_space display_name == []
    then err (Error.no_display_name ∷ [])
    else finish (
        declare_lists
          (record { service = service; display_name = display_name; list = []; index = [] }, [])
          lists)

-- `s.list[i]`, behind the index
abbrev pub at_index : List Permission → Option ℕ → Option Permission
at_index list none = none
at_index list (some i) = get_elem? list i

-- `Lookup`
unfoldable pub find : Set → Bytes → Bytes → Option Permission
find s feature act = at_index s.list (lookup s.index (key feature act))

pub record Perm : Type 0 where
  pub service : Bytes
  pub feature : Bytes
  pub act : Bytes

-- `Declared`; `none` is the panic.
unfoldable pub declared : Set → Bytes → Bytes → Option Perm
declared s feature act =
    if is_some (lookup s.index (key feature act))
    then some (record { service = s.service; feature = feature; act = act })
    else none

unfoldable pub perm_string : Perm → Bytes
perm_string p = p.service ++ slash ∷ (p.feature ++ colon ∷ p.act)

-- `HasScopeLevel` of the caller, by the group and the level.
abbrev pub Scopes : Type 0
Scopes = Bytes → Bytes → Bool

unfoldable pub held_by : Scopes → Perm → Bool
held_by u p = u (p.service ++ slash ∷ p.feature) p.act

-- The loop of `HeldAny`.
unfoldable pub held_among : Scopes → Bytes → List Permission → Bool
held_among u service [] = false
held_among u service (p ∷ list) =
    let rest = held_among u service list in
    if u (service ++ slash ∷ p.feature) p.act then true else rest

unfoldable pub held_any : Scopes → Set → Bool
unfolding held_among
held_any u s = held_among u s.service s.list
