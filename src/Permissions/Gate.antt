-- ===== src/Permissions/Gate.antt =====
-- permissions/gate.go: the guard of a route. A request is the scopes of its caller, and a guarded
-- handler says whether the handler behind it runs.
use go_authbyte.Base.{
  ◌≡◌, refl, ◌↔◌, ◌⊎◌, inl, inr, Bool, true, false, not, ◌&&◌, ◌||◌, Option, none, some, List, [],
  ◌∷◌, ◌++◌, map, arith, if◌then◌else◌, All, Bytes, codes, ℕ_comparable, Bytes_comparable,
}
use go_authbyte.Permissions.{
  Perm, Permission, Scopes, Set, held_by, held_any, held_among, perm_string, colon,
}

-- `Holds` may be nil.
pub record Level : Type 0 where
  pub name : Bytes
  pub holds : Option (Scopes → Bool)

unfoldable pub join : Bytes → Bytes → Bytes
join [] b = b
join (c ∷ a) b = (c ∷ a) ++ (codes " or " ++ b)

-- `strings.Join`
unfoldable join_all : Bytes → List Bytes → Bytes
join_all sep [] = []
join_all sep (s ∷ []) = s
join_all sep (s ∷ t ∷ rest) = s ++ (sep ++ join_all sep (t ∷ rest))

-- The loop of the check that `Levels` builds.
unfoldable holds_level : Scopes → Bytes → List Bytes → Bool
holds_level u group [] = false
holds_level u group (l ∷ levels) =
    let rest = holds_level u group levels in if u group l then true else rest

unfoldable pub levels : Bytes → List Bytes → Level
unfolding holds_level join_all
levels group ls = record {
  name = join_all (codes " or ") (map (λ l. group ++ colon ∷ l) ls);
  holds = some (λ u. holds_level u group ls);
}

-- `holds`: the first permission that is held where not all are needed, or not held where all are,
-- decides.
unfoldable pub holds : Scopes → List Perm → Bool → Bool
holds u [] needs_all = needs_all
holds u (p ∷ perms) needs_all =
    let rest = holds u perms needs_all in
    if held_by u p then (if needs_all then rest else true) else (if needs_all then false else rest)

-- A gate: its set, and the permissions that some guarded route accepts.
pub record Gate : Type 0 where
  pub set : Set
  pub accepted : List Perm

unfoldable pub gate : Set → Gate
gate s = record { set = s; accepted = [] }

-- Whether the handler runs, or else the sentence that the refusal names.
pub data Outcome : Type 0 where
  handled : Outcome
  refused : Bytes → Outcome

abbrev pub level_holds : Level → Scopes → Bool
level_holds level u = elim level.holds [ none ↦ false | some check ↦ check u ]

abbrev pub is_empty : List Perm → Bool
is_empty [] = true
is_empty (p ∷ perms) = false

unfoldable pub required : Level → List Perm → Bool → Bytes
unfolding join join_all perm_string
required level perms needs_all =
    if is_empty perms
    then level.name
    else if needs_all
    then join level.name (codes "all of " ++ join_all (codes " ") (map perm_string perms))
    else join level.name (join_all (codes " or ") (map perm_string perms))

-- The handler that `guard` returns.
unfoldable guarded : Level → List Perm → Bool → Scopes → Outcome
unfolding holds
guarded level perms needs_all u =
    if level_holds level u
    then handled
    else if not (is_empty perms) && holds u perms needs_all
    then handled
    else refused (required level perms needs_all)

-- `guard`: the gate records every permission that the route accepts.
unfoldable pub guard : Gate → Level → List Perm → Bool → Gate × (Scopes → Outcome)
unfolding guarded
guard g level perms needs_all =
    (record g { accepted = g.accepted ++ perms }, guarded level perms needs_all)

unfoldable pub one_of : Gate → Level → List Perm → Gate × (Scopes → Outcome)
unfolding guard
one_of g level accepts = guard g level accepts false

unfoldable pub all_of : Gate → Level → List Perm → Gate × (Scopes → Outcome)
unfolding guard
all_of g level needs = guard g level needs true

unfoldable pub member : Gate → Level → Scopes → Outcome
member g level u =
    if level_holds level u || held_any u g.set
    then handled
    else refused (join level.name (codes "any " ++ (g.set.service ++ codes "/ permission")))

-- Some permission of the list is held, and every one of them is.
abbrev pub HeldSome : Scopes → List Perm → Type 0
HeldSome u [] = ⊥
HeldSome u (p ∷ perms) = (held_by u p ≡ true) ⊎ HeldSome u perms

abbrev pub HeldAll : Scopes → List Perm → Type 0
HeldAll u = All (λ p. held_by u p ≡ true)

holds-HeldSome : (u : Scopes) (perms : List Perm) → (holds u perms false ≡ true) ↔ HeldSome u perms
unfolding holds
holds-HeldSome u [] = (λ h. absurd (cc), λ h. absurd h)
holds-HeldSome u (p ∷ perms) = ground (arith, holds-HeldSome u perms)

holds-HeldAll : (u : Scopes) (perms : List Perm) → (holds u perms true ≡ true) ↔ HeldAll u perms
unfolding holds
holds-HeldAll u [] = (λ h. tt, λ h. refl)
holds-HeldAll u (p ∷ perms) = ground (arith, holds-HeldAll u perms)

guarded_iff :
    (level : Level) (perms : List Perm) (needs_all : Bool) (u : Scopes)
    → (guarded level perms needs_all u ≡ handled)
      ↔ ((level_holds level u ≡ true) ⊎ ((not (is_empty perms) && holds u perms needs_all) ≡ true))
unfolding guarded
guarded_iff level perms needs_all u =
    branch (level_holds level u) (not (is_empty perms) && holds u perms needs_all) _
  where
    branch :
        (a b : Bool) (r : Bytes)
        → ((if a then handled else if b then handled else refused r) ≡ handled)
          ↔ ((a ≡ true) ⊎ (b ≡ true))
    branch true b r = (λ h. inl refl, λ h. refl)
    branch false true r = (λ h. inr refl, λ h. refl)
    branch false false r = ground arith

-- A route guarded by `OneOf` runs its handler exactly for a caller who passes the level or holds
-- some permission that the route names.
pub one_of-handled :
    (g : Gate) (level : Level) (accepts : List Perm) (u : Scopes)
    → ((one_of g level accepts).1 u ≡ handled) ↔ ((level_holds level u ≡ true) ⊎ HeldSome u accepts)
unfolding one_of
one_of-handled g level [] u = ground (arith, guarded_iff level [] false u)
one_of-handled g level (p ∷ accepts) u =
    ground (arith, guarded_iff level (p ∷ accepts) false u, holds-HeldSome u (p ∷ accepts))

-- A route guarded by `AllOf` runs its handler exactly for a caller who passes the level, or holds
-- every permission that the route names, of which there must be one.
all_of-handled :
    (g : Gate) (level : Level) (needs : List Perm) (u : Scopes)
    → ((all_of g level needs).1 u ≡ handled)
      ↔ ((level_holds level u ≡ true) ⊎ ((is_empty needs ≡ false) × HeldAll u needs))
unfolding all_of
all_of-handled g level [] u = ground (arith, guarded_iff level [] true u)
all_of-handled g level (p ∷ needs) u =
    ground (arith, guarded_iff level (p ∷ needs) true u, holds-HeldAll u (p ∷ needs))

-- Some permission of the list is held under the service's key.
abbrev pub HeldListed : Scopes → Bytes → List Permission → Type 0
HeldListed u service [] = ⊥
HeldListed u service (p ∷ list) =
    (held_by u (record { service = service; feature = p.feature; act = p.act }) ≡ true)
    ⊎ HeldListed u service list

held_among_iff :
    (u : Scopes) (service : Bytes) (list : List Permission)
    → (held_among u service list ≡ true) ↔ HeldListed u service list
unfolding held_among held_by
held_among_iff u service [] = (λ h. absurd (cc), λ h. absurd h)
held_among_iff u service (p ∷ list) = ground (arith, held_among_iff u service list)

-- A route guarded by `Member` runs its handler exactly for a caller who passes the level or holds
-- some permission that the gate's set declares.
member-handled :
    (g : Gate) (level : Level) (u : Scopes)
    → (member g level u ≡ handled)
      ↔ ((level_holds level u ≡ true) ⊎ HeldListed u g.set.service g.set.list)
unfolding member held_any
member-handled g level u =
    branch (level_holds level u) (held_among u g.set.service g.set.list) _
      (held_among_iff u g.set.service g.set.list)
  where
    branch :
        (a b : Bool) (r : Bytes) {P : Type 0}
        → (b ≡ true) ↔ P
        → ((if a || b then handled else refused r) ≡ handled) ↔ ((a ≡ true) ⊎ P)
    branch true b r (to, from) = (λ h. inl refl, λ h. refl)
    branch false true r (to, from) = (λ h. inr (to refl), λ h. refl)
    branch false false r (to, from) =
        (λ h. absurd (cc), λ h. elim h [ inl e ↦ absurd (cc) | inr p ↦ absurd (cc (from p)) ])
