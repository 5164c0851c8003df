-- ===== src/Placement/Tests.antt =====
-- placement/placement.go: the counts of one tenant.
use go_authbyte.Base.{
  Bytes, ◌≤◌, ℕ, false, none, leb, leb→le, All, ℕ, ◌+◌, ◌≡◌, refl, true, some, [], ◌∷◌, codes,
}
use go_authbyte.Base.Map.{lookup, insert}
use go_authbyte.Keeper.{Keeper, Running, unknown}
use go_authbyte.Base.Map.{retain}
use go_authbyte.Keeper.{Outside, new_keeper, ready}
use go_authbyte.Keeper.Readiness.{Trusted}
use go_authbyte.Keeper.Confirms.{begun, cycled, ready-Holds}
use go_authbyte.Placement.{Definitions, cycle_roles}
use go_authbyte.Placement.Reports.{report_counts-Keeps}
use go_authbyte.Placement.{Reported, Reporting, report_counts}
use go_authbyte.Placement.Reports.{Outcome, report_counts-Outcome}

-- A register that knows one role, and counts the reports it gets.
abbrev reporting : Reporting ℕ
reporting = record {
  counts = λ s t. (s, some ((codes "r1", 2) ∷ (codes "r2", 1) ∷ []));
  report = λ s t c. (s + 1, some (codes "r2" ∷ []));
}

abbrev keeper : Keeper Reported
keeper = record { started = true; confirmed = []; extra = []; wake = []; rest = [] }

abbrev running : Running Reported ℕ
running = record { keeper = keeper; outside = 0 }

first_report : (report_counts reporting running (codes "t")).1 ≡ some (unknown (codes "r2" ∷ []))
unfolding report_counts lookup
first_report = refl

second_report :
    (report_counts reporting (report_counts reporting running (codes "t")).0 (codes "t")).0.outside
    ≡ 1
unfolding report_counts lookup insert
second_report = refl

report_counts-Outcome_example :
    Outcome reporting keeper
      (codes "t")
      0
      ((codes "r1", 2) ∷ (codes "r2", 1) ∷ [])
      (report_counts reporting running (codes "t"))
report_counts-Outcome_example =
    report_counts-Outcome reporting running (codes "t") ((codes "r1", 2) ∷ (codes "r2", 1) ∷ [])
      refl

-- A store of one tenant, whose copy is found current.
abbrev outside : Outside ℕ Definitions
outside = record {
  tenants = λ s. (s, some (codes "t" ∷ []));
  version = λ s t. (s, some (codes "v1"));
  fetch = λ s t version. (s, some none);
  replace = λ s t d at. (s, false);
  confirm = λ s t at. (s, leb 7 at);
  now = λ s. 7;
  ended = λ s. false;
  on_error = λ s t e. s;
}

abbrev Held : Bytes → ℕ → Type 0
Held t at = 7 ≤ at

cycled_is_ready :
    ready
      (record { interval = 1; trust_window = 5 })
      (cycle_roles outside reporting running).keeper
      9
    ≡ none
unfolding ready cycle_roles lookup insert retain
cycled_is_ready = refl

confirmed_is_Held :
    All
      (λ e. Held e.0 e.1 × Trusted (record { interval = 1; trust_window = 5 }) 9 e.1)
      (cycle_roles outside reporting
        (record { keeper = new_keeper []; outside = 0 })).keeper.confirmed
unfolding cycle_roles ready new_keeper lookup insert retain
confirmed_is_Held =
    (ready-Holds outside (report_counts reporting) Held (record { interval = 1; trust_window = 5 })
      [] _ 9
      (report_counts-Keeps reporting outside Held (λ s t d at h. cc) (λ s t at h. leb→le 7 at h))
      (cycled _ [] (begun [] 0)) refl).0
