-- ===== src/Placement/Register.antt =====
-- placement/register.go: the membership register reached over the network. The client that makes the
-- calls, the parser of addresses, the escape of a path and JSON are arguments.
pub mod Own
mod Tests
use go_authbyte.Base.{
  ℕ, zero, suc, min, max, String, refl, sym, ap, subst, inl, inr, Bool, true, false, not, ◌&&◌,
  ◌||◌, Option, none, some, List, [], ◌∷◌, ◌++◌, map, append-nil, append_assoc, arith, ltb, leb,
  nat_eq, if◌then◌else◌, ltb→lt, lt→ltb, leb→le, le→leb, nat_eq_iff, Bool-cases, Option-cases,
  length, take, drop, get_elem?, replicate, all, any, length-append, take-append-drop, All,
  All-append, Comparable, ==_iff, ==_refl, Bytes, codes, bytes_eq, bytes_eq_iff, ℕ_comparable,
  Bytes_comparable, Result, ok, err, ◌>>=◌, bind-ok, ok_or, ok_inj, reverse, reverse_aux,
}
use go_authbyte.Base.Texts.{is_empty, is_in, has_byte, cut}
use go_authbyte.Base.Sorting.{sort, compact}
use go_authbyte.Authclient.Headers.{Headers, set_header, get_header}
use go_authbyte.Authclient.Calls.{Answer, CallError, Asked}
use go_authbyte.Placement.{Role, Definitions, Counts}

pub data RegisterError : Type 0 where
  not_absolute no_audience no_groups bad_group no_version bad_body no_id : RegisterError
  call_failed : CallError → RegisterError
  -- an *authclient.Error at the resource
  refused : ℕ → Bytes → RegisterError

pub record Register : Type 0 where
  pub base : Bytes
  pub audience : Bytes
  pub groups : List Bytes

-- What is outside: `parse_url` gives an address's scheme and host; `call` is
-- `DoServiceForTenant` by audience, scope and tenant.
pub record Network (T : Type 0) : Type 0 where
  pub parse_url : Bytes → Option (Bytes × Bytes)
  pub path_escape : Bytes → Bytes
  pub call : T → Bytes → Bytes → Bytes → Asked → T × Result CallError Answer
  pub encode_counts : Counts → Option Bytes
  pub decode_roles : Bytes → Option (List Role)
  pub decode_unknown : Bytes → Option (List Bytes)

abbrev pub is_absolute : Option (Bytes × Bytes) → Bool
is_absolute none = false
is_absolute (some (scheme, host)) = not (is_empty scheme) && not (is_empty host)

abbrev pub is_group : Bytes → Bool
is_group g = not (is_empty g) && not (has_byte b'/' g || has_byte b':' g)

abbrev no_groups_named : List Bytes → Bool
no_groups_named [] = true
no_groups_named (g ∷ groups) = false

-- `strings.TrimRight` by `/`
abbrev slashed : ℕ → Bytes → Bytes
slashed c [] = if nat_eq c b'/' then [] else c ∷ []
slashed c (d ∷ s) = c ∷ d ∷ s

unfoldable pub trim_slashes : Bytes → Bytes
trim_slashes [] = []
trim_slashes (c ∷ s) = slashed c (trim_slashes s)

-- `NewRegister` with a client.
unfoldable pub new_register :
    {T : Type 0} → Network T → Bytes → Bytes → List Bytes → Result RegisterError Register
unfolding trim_slashes
new_register n base audience groups =
    if not (is_absolute (n.parse_url base))
    then err not_absolute
    else if is_empty audience
    then err no_audience
    else if no_groups_named groups
    then err no_groups
    else if not (all is_group groups)
    then err bad_group
    else ok (record { base = trim_slashes base; audience = audience; groups = groups })

-- The group of a permission, where it has one.
abbrev pub is_own : List Bytes → Bytes → Bool
is_own groups p = elim (cut b'/' p) [ none ↦ false | some (group, rest) ↦ is_in groups group ]

abbrev pub filter_own : List Bytes → List Bytes → List Bytes
filter_own groups [] = []
filter_own groups (p ∷ perms) =
    let rest = filter_own groups perms in if is_own groups p then p ∷ rest else rest

unfoldable pub own : Register → List Bytes → List Bytes
unfolding cut sort compact
own r perms = compact (sort (filter_own r.groups perms))

unfoldable pub tenant_url : {T : Type 0} → Network T → Register → Bytes → Bytes → Bytes
tenant_url n r tenant what =
    r.base ++ (codes "/api/v1/tenants/" ++ (n.path_escape tenant ++ (codes "/" ++ what)))

-- The roles of the answer, each with an identifier and its own permissions.
unfoldable pub copy_roles : Register → List Role → Result RegisterError (List Role)
unfolding own
copy_roles r [] = ok []
copy_roles r (role ∷ roles) =
    let rest = copy_roles r roles in
    if is_empty role.id
    then err no_id
    else (rest >>= λ copied. ok (record role { keys = own r role.keys } ∷ copied))

abbrev copied : Register → Bytes → Option (List Role) → Result RegisterError (Option Definitions)
copied r etag none = err bad_body
copied r etag (some roles) =
    copy_roles r roles >>= λ d. ok (some (record { version = etag; roles = d }))

-- How an answer is read; `none` is one that is not changed.
unfoldable pub read_definitions :
    {T : Type 0} → Network T → Register → Answer → Result RegisterError (Option Definitions)
unfolding copy_roles get_header
read_definitions n r a =
    if nat_eq a.status 304
    then ok none
    else if not (nat_eq a.status 200)
    then err (refused a.status a.body)
    else if is_empty (get_header a.headers (codes "ETag"))
    then err no_version
    else copied r (get_header a.headers (codes "ETag")) (n.decode_roles a.body)

abbrev json : Headers
json = (codes "Accept", codes "application/json" ∷ []) ∷ []

module _ {T : Type 0} (n : Network T) (r : Register) where
  abbrev pub definitions_of :
      T × Result CallError Answer → T × Result RegisterError (Option Definitions)
  definitions_of (x, err e) = (x, err (call_failed e))
  definitions_of (x, ok a) = (x, read_definitions n r a)

  -- `Definitions`
  unfoldable pub definitions : T → Bytes → Bytes → T × Result RegisterError (Option Definitions)
  unfolding read_definitions tenant_url set_header
  definitions x tenant version =
      let headers =
        if is_empty version then json else set_header json (codes "If-None-Match") version in
      definitions_of (
        n.call x r.audience (codes "membership:definitions") tenant (record {
          method = codes "GET";
          url = tenant_url n r tenant (codes "role-definitions");
          headers = headers;
          body = none;
        }))

  abbrev read_unknown : Option (List Bytes) → Result RegisterError (List Bytes)
  read_unknown none = err bad_body
  read_unknown (some ids) = ok ids

  abbrev unknown_of : T × Result CallError Answer → T × Result RegisterError (List Bytes)
  unknown_of (x, err e) = (x, err (call_failed e))
  unknown_of (x, ok a) = (
    x,
    if nat_eq a.status 200
        then read_unknown (n.decode_unknown a.body)
        else err (refused a.status a.body),
  )

  abbrev put_counts : T → Bytes → Option Bytes → T × Result RegisterError (List Bytes)
  put_counts x tenant none = (x, err bad_body)
  put_counts x tenant (some payload) = unknown_of (
      n.call x r.audience (codes "membership:placements") tenant (record {
        method = codes "PUT";
        url = tenant_url n r tenant (codes "role-placements");
        headers = (codes "Content-Type", codes "application/json" ∷ []) ∷ json;
        body = some payload;
      }))

  -- `Report`
  unfoldable pub report : T → Bytes → Counts → T × Result RegisterError (List Bytes)
  unfolding tenant_url
  report x tenant counts = put_counts x tenant (n.encode_counts counts)
