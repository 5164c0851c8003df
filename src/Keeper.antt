-- ===== src/Keeper.antt =====
-- placement/placement.go and chart/chart.go: the keeper of a service's copies, which both packages
-- have, with what they add to it as a parameter. The source of the copies, the store, the clock and
-- the context are one state outside; a time is the nanoseconds since the zero `time.Time`. The lock
-- makes each access to the keeper's maps one step.
pub mod Extra
pub mod Confirms
pub mod Readiness
mod Tests
use go_authbyte.Base.{
  ℕ, zero, suc, ◌-◌, ◌*◌, min, max, String, refl, sym, ap, subst, inl, inr, Bool, true, false, not,
  Option, none, some, List, [], ◌∷◌, ◌++◌, map, append-nil, append_assoc, arith, ltb, leb, nat_eq,
  if◌then◌else◌, ltb→lt, lt→ltb, leb→le, le→leb, nat_eq_iff, Bool-cases, Option-cases, length, take,
  drop, get_elem?, replicate, all, any, length-append, take-append-drop, All, All-append,
  Comparable, ◌==◌, ==_iff, ==_refl, Bytes, codes, bytes_eq, bytes_eq_iff, ℕ_comparable,
  Bytes_comparable, Result, ok, err, bind-ok, ok_or, ok_inj, reverse, reverse_aux,
}
use go_authbyte.Base.Map.{lookup, insert, retain}
use go_authbyte.Base.Integers.{ℤ, pos, negsuc}
use go_authbyte.Base.Texts.{is_empty}
use go_authbyte.Base.Sorting.{sort}

abbrev second : ℕ
second = 1000000000

abbrev default_interval : ℕ
default_interval = 10 * second

abbrev default_trust_window : ℕ
default_trust_window = 15 * 60 * second

-- The durations of a configuration, as given and as taken.
pub record Config : Type 0 where
  pub interval : ℤ
  pub trust_window : ℤ

pub record Settings : Type 0 where
  pub interval : ℕ
  pub trust_window : ℕ

pub data NewError : Type 0 where
  negative too_short : NewError

abbrev or_default : ℕ → ℕ → ℕ
or_default d zero = d
or_default d (suc n) = suc n

abbrev checked : Settings → Result NewError Settings
checked s = if leb s.trust_window s.interval then err too_short else ok s

-- The checks of `New` on the configuration; the source and the store are there.
unfoldable pub new_settings : Config → Result NewError Settings
new_settings c = elim c.interval [
  | negsuc n ↦ err negative
  | pos i ↦ elim c.trust_window [
    | negsuc n ↦ err negative
    | pos w ↦ checked (record {
      interval = or_default default_interval i;
      trust_window = or_default default_trust_window w;
    })
  ]
]

-- A keeper, with what else it remembers; `extra` is the tenants woken that the store does not list.
pub record Keeper (X : Type 0) : Type 0 where
  pub started : Bool
  pub confirmed : List (Bytes × ℕ)
  pub extra : List (Bytes × Bool)
  pub wake : List Bytes
  pub rest : X

unfoldable pub new_keeper : {X : Type 0} → X → Keeper X
new_keeper x = record { started = false; confirmed = []; extra = []; wake = []; rest = x }

unfoldable pub trusted_since : Settings → ℕ → ℕ
trusted_since c now = now - c.trust_window

-- `make(chan string, 64)`
abbrev pub queue : ℕ
queue = 64

unfoldable pub wake : {X : Type 0} → Keeper X → Bytes → Keeper X
wake k tenant =
    if is_empty tenant
    then k
    else if ltb (length k.wake) queue
    then record k { wake = k.wake ++ tenant ∷ [] }
    else k

pub data SyncError : Type 0 where
  no_tenants no_version no_answer not_kept not_counted not_reported : SyncError
  unknown : List Bytes → SyncError

-- The source of copies of type D, the store, and the rest outside. Each call may fail; `fetch` gives
-- a changed copy, if there is one.
pub record Outside (S D : Type 0) : Type 0 where
  pub tenants : S → S × Option (List Bytes)
  pub version : S → Bytes → S × Option Bytes
  pub fetch : S → Bytes → Bytes → S × Option (Option D)
  pub replace : S → Bytes → D → ℕ → S × Bool
  pub confirm : S → Bytes → ℕ → S × Bool
  pub now : S → ℕ
  pub ended : S → Bool
  pub on_error : S → Bytes → SyncError → S

pub record Running (X S : Type 0) : Type 0 where
  pub keeper : Keeper X
  pub outside : S

-- What follows the confirmation of a copy.
abbrev pub Rest : Type 0 → Type 0 → Type 0
Rest X S = Running X S → Bytes → Running X S × Option SyncError

-- `for _, t := range tenants { delete(k.extra, t) }`
abbrev pub unlisted : List Bytes → List (Bytes × Bool) → List (Bytes × Bool)
unlisted tenants extra = retain (λ e. not (any (λ t. t == e.0) tenants)) extra

module _ {X S D : Type 0} (o : Outside S D) where
  abbrev pub kept : Rest X S → Keeper X → Bytes → ℕ → S × Bool → Running X S × Option SyncError
  kept rest k tenant at (s, false) = (record { keeper = k; outside = s }, some not_kept)
  kept rest k tenant at (s, true) =
      rest (record { keeper = record k { confirmed = insert k.confirmed tenant at }; outside = s })
        tenant

  abbrev pub answered :
      Rest X S → Keeper X → Bytes → S × Option (Option D) → Running X S × Option SyncError
  answered rest k tenant (s, none) = (record { keeper = k; outside = s }, some no_answer)
  answered rest k tenant (s, some none) =
      kept rest k tenant (o.now s) (o.confirm s tenant (o.now s))
  answered rest k tenant (s, some (some d)) =
      kept rest k tenant (o.now s) (o.replace s tenant d (o.now s))

  abbrev pub asked : Rest X S → Keeper X → Bytes → S × Option Bytes → Running X S × Option SyncError
  asked rest k tenant (s, none) = (record { keeper = k; outside = s }, some no_version)
  asked rest k tenant (s, some version) = answered rest k tenant (o.fetch s tenant version)

  -- `Sync`
  unfoldable pub sync : Rest X S → Running X S → Bytes → Running X S × Option SyncError
  sync rest r tenant = asked rest r.keeper tenant (o.version r.outside tenant)

  unfoldable pub fail : Bytes → Running X S × Option SyncError → Running X S
  fail tenant (r, none) = r
  fail tenant (r, some e) = record r { outside = o.on_error r.outside tenant e }

  -- The tenants in turn, until the context ends.
  unfoldable pub sync_all : Rest X S → Running X S → List Bytes → Running X S
  unfolding fail sync
  sync_all rest r [] = r
  sync_all rest r (t ∷ tenants) =
      let more = sync_all rest (fail t (sync rest r t)) tenants in
      if o.ended r.outside then r else more

  abbrev pub refreshed : Rest X S → Keeper X → S × Option (List Bytes) → Running X S
  refreshed rest k (s, none) = fail [] (record { keeper = k; outside = s }, some no_tenants)
  refreshed rest k (s, some tenants) =
      let extra = unlisted tenants k.extra in
      sync_all rest (record { keeper = record k { extra = extra }; outside = s })
        (tenants ++ map (λ e. e.0) extra)

  abbrev pub start : Running X S → Running X S
  start r = record r { keeper = record r.keeper { started = true } }

  unfoldable pub cycle : Rest X S → Running X S → Running X S
  unfolding sync_all
  cycle rest r = start (refreshed rest r.keeper (o.tenants r.outside))

  abbrev pub take_woken : Rest X S → Running X S → List Bytes → Running X S
  take_woken rest r [] = r
  take_woken rest r (t ∷ queued) =
      let k = record r.keeper { wake = queued; extra = insert r.keeper.extra t true } in
      fail t (sync rest (record r { keeper = k }) t)

  -- One turn of `Run` for a woken tenant.
  unfoldable pub run_woken : Rest X S → Running X S → Running X S
  unfolding fail sync
  run_woken rest r = take_woken rest r r.keeper.wake

-- The tenants whose copy is too old, and those woken that have none.
abbrev pub stale : {X : Type 0} → Keeper X → ℕ → List Bytes
stale k since =
    map (λ e. e.0) (retain (λ e. ltb e.1 since) k.confirmed)
    ++ map (λ e. e.0)
        (retain (λ e. elim (lookup k.confirmed e.0) [ none ↦ true | some at ↦ false ]) k.extra)

pub data Unready : Type 0 where
  not_started : Unready
  unconfirmed : List Bytes → Unready

abbrev pub named : List Bytes → Option Unready
named [] = none
named (t ∷ tenants) = some (unconfirmed (t ∷ tenants))

-- `Ready` at a time.
unfoldable pub ready : {X : Type 0} → Settings → Keeper X → ℕ → Option Unready
unfolding trusted_since sort
ready c k now = if k.started then named (sort (stale k (trusted_since c now))) else some not_started
