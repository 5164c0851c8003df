-- ===== src/Placement/Register/Own.antt =====
-- placement/register.go: the keys that a copied role keeps.
use go_authbyte.Base.{
  ◌↔◌, ◌++◌, ◌≡◌, refl, sym, ap, ◌∙◌, subst, inl, inr, Bool, true, false, not, ◌&&◌, ◌||◌, Option,
  none, some, List, [], ◌∷◌, arith, nat_eq, if◌then◌else◌, nat_eq_iff, Bool-cases, ◌==◌, ==_iff,
  Bytes, codes, ℕ_comparable, Bytes_comparable, Result, ok, err, ◌>>=◌, bind-ok, ok_inj,
}
use go_authbyte.Base.Texts.{cut, cut-some, cut-append, has_byte, is_in, is_empty}
use go_authbyte.Base.Sorting.{sort, Ascending, is_in-sort, is_in-compact, compact-sort-Ascending}
use go_authbyte.Authclient.Headers.{get_header}
use go_authbyte.Authclient.Calls.{Answer}
use go_authbyte.Placement.{Role, Definitions}
use go_authbyte.Placement.Register.{
  RegisterError, no_id, no_version, refused, Network, copied, read_definitions, Register, is_own,
  filter_own, own, copy_roles,
}

kept :
    (a b c g : Bool) (f : List Bytes) (q p : Bytes)
    → (q == p) ≡ c
    → is_in f p ≡ (b && g)
    → (c ≡ true → a ≡ b)
    → is_in (if a then q ∷ f else f) p ≡ (b && (c || g))
kept true true true g f q p e h k = ap (λ x. x || is_in f p) e
kept false false true g f q p e h k = h
kept true false true g f q p e h k = let x = k refl in cc
kept false true true g f q p e h k = let x = k refl in cc
kept true b false g f q p e h k = ap (λ x. x || is_in f p) e ∙ h
kept false b false g f q p e h k = h

is_in-filter_own :
    (groups perms : List Bytes) (p : Bytes)
    → is_in (filter_own groups perms) p ≡ (is_own groups p && is_in perms p)
is_in-filter_own groups [] p = and_false (is_own groups p)
  where
    and_false : (b : Bool) → false ≡ (b && false)
    and_false true = refl
    and_false false = refl
is_in-filter_own groups (q ∷ perms) p =
    kept (is_own groups q) (is_own groups p) (q == p) (is_in perms p) (filter_own groups perms) q p
      refl (is_in-filter_own groups perms p) (λ e. ap (is_own groups) ((==_iff q p).0 e))

-- A permission of one of the groups: the group, a slash, and the rest.
abbrev pub InGroups : List Bytes → Bytes → Type 0
InGroups groups p =
    (g : Bytes) × (rest : Bytes) × (is_in groups g ≡ true)
    × (has_byte b'/' g ≡ false)
    × (p ≡ g ++ b'/' ∷ rest)

is_own-InGroups : (groups : List Bytes) (p : Bytes) → is_own groups p ≡ true → InGroups groups p
is_own-InGroups groups p h = go (cut b'/' p) refl h
  where
    go :
        (o : Option (Bytes × Bytes))
        → cut b'/' p ≡ o
        → elim o [ none ↦ false | some (g, rest) ↦ is_in groups g ] ≡ true
        → InGroups groups p
    go none e h = cc
    go (some (g, rest)) e h =
        let (same, none_in) = cut-some b'/' p g rest e in (g, rest, h, none_in, same)

InGroups-is_own : (groups : List Bytes) (p : Bytes) → InGroups groups p → is_own groups p ≡ true
InGroups-is_own groups p (g, rest, h, n, e) =
    ap (λ o. elim o [ none ↦ false | some (g, rest) ↦ is_in groups g ])
      (ap (cut b'/') e ∙ cut-append b'/' g rest n)
    ∙ h

and_iff : (a b : Bool) → ((a && b) ≡ true) ↔ ((b ≡ true) × (a ≡ true))
and_iff true b = (λ h. (h, refl), λ h. h.0)
and_iff false b = (λ h. cc, λ h. cc)

-- The keys of a role are in order, each once, and a text is one of them exactly where it is one of
-- the permissions given and has a slash behind the name of one of the groups that the service checks.
pub own_iff :
    (r : Register) (perms : List Bytes) (p : Bytes)
    → Ascending (own r perms)
      × ((is_in (own r perms) p ≡ true) ↔ ((is_in perms p ≡ true) × InGroups r.groups p))
unfolding own
own_iff r perms p =
    let same =
      is_in-compact (sort (filter_own r.groups perms)) p
      ∙ is_in-sort (filter_own r.groups perms) p
      ∙ is_in-filter_own r.groups perms p in
    let (there, back) = and_iff (is_own r.groups p) (is_in perms p) in
    (
      compact-sort-Ascending (filter_own r.groups perms),
      (
        (λ h. let (a, b) = there (sym same ∙ h) in (a, is_own-InGroups r.groups p b)),
        (λ h. same ∙ back (h.0, InGroups-is_own r.groups p h.1)),
      ),
    )

-- Each copied role is one of the answer's with its own keys, in the answer's order.
abbrev pub Copies : Register → List Role → List Role → Type 0
Copies r [] [] = Unit
Copies r [] (d ∷ ds) = ⊥
Copies r (a ∷ answered) [] = ⊥
Copies r (a ∷ answered) (d ∷ ds) =
    (d ≡ record a { keys = own r a.keys }) × (is_empty a.id ≡ false) × Copies r answered ds

copy_roles-Copies :
    (r : Register) (answered ds : List Role) → copy_roles r answered ≡ ok ds → Copies r answered ds
unfolding copy_roles
copy_roles-Copies r [] ds h = subst (Copies r []) (ok_inj h) tt
copy_roles-Copies r (a ∷ answered) ds h = elim (Bool-cases (is_empty a.id)) [
  | inl e ↦ ground arith
  | inr e ↦
      (let (rest, same, made) =
          bind-ok (copy_roles r answered) (λ copied. ok (record a { keys = own r a.keys } ∷ copied))
            (unnamed e h) in
        subst (Copies r (a ∷ answered)) (ok_inj made)
          (refl, e, copy_roles-Copies r answered rest same))
]
  where
    unnamed :
        is_empty a.id ≡ false
        → (if is_empty a.id
            then err no_id
            else (copy_roles r answered >>= λ copied.
                ok (record a { keys = own r a.keys } ∷ copied)))
          ≡ ok ds
        → (copy_roles r answered >>= λ copied. ok (record a { keys = own r a.keys } ∷ copied))
          ≡ ok ds
    unnamed e h =
        sym (
          ap
            (λ b.
              if b
              then err no_id
              else (copy_roles r answered >>= λ copied.
                  ok (record a { keys = own r a.keys } ∷ copied)))
            e)
        ∙ h

copied-ok :
    (r : Register) (etag : Bytes) (o : Option (List Role)) (d : Definitions)
    → copied r etag o ≡ ok (some d)
    → (answered : List Role) × (o ≡ some answered) × (d.version ≡ etag) × Copies r answered d.roles
copied-ok r etag none d h = cc
copied-ok r etag (some roles) d h =
    let (ds, same, made) =
      bind-ok (copy_roles r roles) (λ d. ok (some (record { version = etag; roles = d }))) h in
    let e : record { version = etag; roles = ds } ≡ d = cc in
    (
      roles,
      refl,
      sym (ap (λ x. x.version) e),
      subst (Copies r roles) (ap (λ x. x.roles) e) (copy_roles-Copies r roles ds same),
    )

-- A changed copy is read only from an answer 200 with a header ETag that is not empty, which is then
-- the copy's version; its roles
-- are those of the answer, in order, each with an identifier and with the keys of the service's own
-- groups.
pub read_definitions-Copies :
    {T : Type 0} (n : Network T) (r : Register) (a : Answer) (d : Definitions)
    → read_definitions n r a ≡ ok (some d)
    → (a.status ≡ 200)
      × (is_empty d.version ≡ false)
      × (d.version ≡ get_header a.headers (codes "ETag"))
      × (answered : List Role) × (n.decode_roles a.body ≡ some answered)
      × Copies r answered d.roles
unfolding read_definitions
read_definitions-Copies n r a d h =
    let etag = get_header a.headers (codes "ETag") in
    let (good, versioned, made) =
      guards (nat_eq a.status 304) (nat_eq a.status 200) (is_empty etag)
        (copied r etag (n.decode_roles a.body)) a h in
    let (answered, decoded, version, copies) = copied-ok r etag (n.decode_roles a.body) d made in
    (
      (nat_eq_iff a.status 200).0 good,
      ap is_empty version ∙ versioned,
      version,
      answered,
      decoded,
      copies,
    )
  where
    guards :
        (b c e : Bool) (x : Result RegisterError (Option Definitions)) (a : Answer)
        → (if b
            then ok none
            else if not c
            then err (refused a.status a.body)
            else if e
            then err no_version
            else x)
          ≡ ok (some d)
        → (c ≡ true) × (e ≡ false) × (x ≡ ok (some d))
    guards true c e x a h = cc
    guards false false e x a h = cc
    guards false true true x a h = cc
    guards false true false x a h = (refl, refl, h)
