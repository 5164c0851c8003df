-- ===== src/Keeper/Tests.antt =====
-- The keeper of placement/placement.go over a store that counts its calls.
use go_authbyte.Base.{
  ◌≤◌, leb, leb→le, ℕ, ◌+◌, ◌≡◌, refl, ◌↔◌, false, none, some, [], ◌∷◌, All, Bytes, codes,
  ℕ_comparable, Bytes_comparable, ok, err,
}
use go_authbyte.Base.Map.{lookup, insert, retain}
use go_authbyte.Base.Integers.{pos, negsuc}
use go_authbyte.Keeper.{
  Config, Settings, negative, new_settings, new_keeper, wake, Outside, Running, Rest, cycle,
  run_woken, ready,
}
use go_authbyte.Keeper.Confirms.{Keeps, Runs, begun, cycled, woken, taken, ready-Holds}
use go_authbyte.Keeper.Readiness.{Trusted, IsReady, ready_iff}

abbrev config : Config
config = record { interval = pos 0; trust_window = pos 0 }

new_settings_test :
    new_settings config ≡ ok (record { interval = 10000000000; trust_window = 900000000000 })
unfolding new_settings
new_settings_test = refl

negative_test : new_settings (record { interval = negsuc 0; trust_window = pos 5 }) ≡ err negative
unfolding new_settings
negative_test = refl

-- A store of two tenants, whose state is the time, and which keeps nothing before 100.
abbrev outside : Outside ℕ Bytes
outside = record {
  tenants = λ s. (s, some (codes "a" ∷ codes "b" ∷ []));
  version = λ s t. (s, some []);
  fetch = λ s t version. (s + 1, some none);
  replace = λ s t d at. (s, leb 100 at);
  confirm = λ s t at. (s, leb 100 at);
  now = λ s. s;
  ended = λ s. false;
  on_error = λ s t e. s;
}

abbrev no_rest : Rest Unit ℕ
no_rest r t = (r, none)

abbrev Held : Bytes → ℕ → Type 0
Held t at = 100 ≤ at

keeps : Keeps outside no_rest Held
keeps = record {
  replaces = λ s t d at h. leb→le 100 at h;
  confirms = λ s t at h. leb→le 100 at h;
  leaves = λ r t. refl;
  leaves_extra = λ r t. refl;
}

abbrev beginning : Running Unit ℕ
beginning = record { keeper = new_keeper tt; outside = 100 }

abbrev running : Running Unit ℕ
running = run_woken outside no_rest (record (cycle outside no_rest beginning) {
  keeper = wake (cycle outside no_rest beginning).keeper (codes "c");
})

running-Runs : Runs outside no_rest Held (codes "c" ∷ []) running
unfolding wake cycle new_keeper lookup insert retain
running-Runs = taken _ [] (codes "c") [] refl (woken _ [] (codes "c") (cycled _ [] (begun tt 100)))

abbrev settings : Settings
settings = record { interval = 5; trust_window = 50 }

is_ready : ready settings running.keeper 150 ≡ none
unfolding ready run_woken cycle wake new_keeper lookup insert retain
is_ready = refl

ready-Holds_example :
    All (λ e. Held e.0 e.1 × Trusted settings 150 e.1) running.keeper.confirmed
    × All (λ t. (at : ℕ) × Held t at × Trusted settings 150 at) (codes "c" ∷ [])
ready-Holds_example =
    ready-Holds outside no_rest Held settings (codes "c" ∷ []) running 150 keeps running-Runs
      is_ready

ready_iff_example : (ready settings running.keeper 160 ≡ none) ↔ IsReady settings running.keeper 160
ready_iff_example = ready_iff settings running.keeper 160
