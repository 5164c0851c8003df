-- ===== src/Placement.antt =====
-- placement/placement.go: the roles that a service places on its objects, and the counts that it
-- reports of them. The cycle of the keeper is in Keeper.
pub mod Register
mod Reports
mod Tests
use go_authbyte.Base.{
  ℕ, zero, suc, min, max, String, refl, sym, ap, subst, inl, inr, Bool, true, false, not, ◌&&◌,
  Option, none, some, List, [], ◌∷◌, map, append-nil, append_assoc, arith, ltb, leb, nat_eq,
  if◌then◌else◌, ltb→lt, lt→ltb, leb→le, le→leb, nat_eq_iff, Bool-cases, Option-cases, length, take,
  drop, get_elem?, replicate, all, any, length-append, take-append-drop, All, All-append,
  Comparable, ==_iff, ==_refl, Bytes, codes, bytes_eq, bytes_eq_iff, ℕ_comparable, Bytes_comparable,
  Result, ok, err, bind-ok, ok_or, ok_inj, reverse, reverse_aux,
}
use go_authbyte.Base.Map.{lookup, insert, Distinct}
use go_authbyte.Base.Texts.{is_in}
use go_authbyte.Keeper.{
  Keeper, Running, Outside, Config, Settings, NewError, new_settings, new_keeper, SyncError,
  not_counted, not_reported, unknown, sync, cycle,
}

pub record Role : Type 0 where
  pub id : Bytes
  pub seed : Bytes
  pub name : Bytes
  pub labels : List (Bytes × Bytes)
  pub description : Bytes
  pub keys : List Bytes

pub record Definitions : Type 0 where
  pub version : Bytes
  pub roles : List Role

-- `Holds` of the text of a permission
unfoldable pub holds : List Bytes → Bytes → Bool
holds keys p = is_in keys p

abbrev pub Counts : Type 0
Counts = List (Bytes × ℕ)

-- The counts that the register last accepted of each tenant.
abbrev pub Reported : Type 0
Reported = List (Bytes × Counts)

-- The counts of the store, and the reports to the register.
pub record Reporting (S : Type 0) : Type 0 where
  pub counts : S → Bytes → S × Option Counts
  pub report : S → Bytes → Counts → S × Option (List Bytes)

abbrev same_count : Option ℕ → ℕ → Bool
same_count none n = false
same_count (some m) n = nat_eq m n

-- `maps.Equal`
unfoldable pub maps_equal : Counts → Counts → Bool
maps_equal a b = nat_eq (length a) (length b) && all (λ e. same_count (lookup b e.0) e.1) a

abbrev pub is_reported : Option Counts → Counts → Bool
is_reported none counts = false
is_reported (some last) counts = maps_equal last counts

abbrev pub unknown_roles : List Bytes → Option SyncError
unknown_roles [] = none
unknown_roles (id ∷ ids) = some (unknown (id ∷ ids))

module _ {S : Type 0} (o : Reporting S) where
  abbrev pub accept_report :
      Keeper Reported
      → Bytes
      → Counts
      → S × Option (List Bytes)
      → Running Reported S × Option SyncError
  accept_report k tenant counts (s, none) = (record { keeper = k; outside = s }, some not_reported)
  accept_report k tenant counts (s, some ids) = (
    record { keeper = record k { rest = insert k.rest tenant counts }; outside = s },
    unknown_roles ids,
  )

  abbrev pub counted :
      Keeper Reported → Bytes → S × Option Counts → Running Reported S × Option SyncError
  counted k tenant (s, none) = (record { keeper = k; outside = s }, some not_counted)
  counted k tenant (s, some counts) =
      if is_reported (lookup k.rest tenant) counts
      then (record { keeper = k; outside = s }, none)
      else accept_report k tenant counts (o.report s tenant counts)

  unfoldable pub report_counts : Running Reported S → Bytes → Running Reported S × Option SyncError
  unfolding maps_equal
  report_counts r tenant = counted r.keeper tenant (o.counts r.outside tenant)

-- `Sync` and `cycle` with the counts reported behind each confirmation.
module _ {S : Type 0} (o : Outside S Definitions) (p : Reporting S) where
  unfoldable pub sync_roles : Running Reported S → Bytes → Running Reported S × Option SyncError
  unfolding sync report_counts
  sync_roles r tenant = sync o (report_counts p) r tenant

  unfoldable pub cycle_roles : Running Reported S → Running Reported S
  unfolding cycle report_counts
  cycle_roles r = cycle o (report_counts p) r
