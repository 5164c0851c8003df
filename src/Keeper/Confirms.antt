-- ===== src/Keeper/Confirms.antt =====
-- placement/placement.go and chart/chart.go: what a keeper's confirmations mean.
use go_authbyte.Base.{
  ℕ, ◌≡◌, refl, sym, subst, inl, inr, Bool, true, false, Option, none, some, List, [], ◌∷◌, ◌++◌,
  map, arith, Bool-cases, Option-cases, All, Bytes, ℕ_comparable, Bytes_comparable,
}
use go_authbyte.Base.Map.{lookup, insert}
use go_authbyte.Base.Entries.{All-lookup, All-insert}
use go_authbyte.Keeper.{
  Settings, Keeper, new_keeper, wake, SyncError, Outside, Running, Rest, kept, answered, asked,
  sync, fail, sync_all, unlisted, refreshed, cycle, take_woken, run_woken, ready,
}
use go_authbyte.Keeper.Extra.{
  Remembers, still, cycle-Remembers, run_woken-Remembers, wake-Remembers,
}
use go_authbyte.Keeper.Readiness.{Trusted, Seen, ready_iff}

module _ {X S D : Type 0} (o : Outside S D) (rest : Rest X S) (Holds : Bytes → ℕ → Type 0) where
  -- A copy is held for a tenant at a time where the store has kept or confirmed it then.
  pub record Keeps : Type 0 where
    pub replaces : (s : S) (t : Bytes) (d : D) (at : ℕ) → (o.replace s t d at).1 ≡ true → Holds t at
    pub confirms : (s : S) (t : Bytes) (at : ℕ) → (o.confirm s t at).1 ≡ true → Holds t at
    -- what follows a confirmation changes none, and no tenant woken
    pub leaves_extra : (r : Running X S) (t : Bytes) → (rest r t).0.keeper.extra ≡ r.keeper.extra
    pub leaves : (r : Running X S) (t : Bytes) → (rest r t).0.keeper.confirmed ≡ r.keeper.confirmed

  -- Each confirmation is of a copy held at its time.
  abbrev pub IsHonest : Running X S → Type 0
  IsHonest r = All (λ e. Holds e.0 e.1) r.keeper.confirmed

  module _ (v : Keeps) where
    kept-IsHonest :
        (k : Keeper X) (t : Bytes) (at : ℕ) (p : S × Bool)
        → All (λ e. Holds e.0 e.1) k.confirmed
        → (p.1 ≡ true → Holds t at)
        → IsHonest (kept o rest k t at p).0
    kept-IsHonest k t at (s, false) h f = h
    kept-IsHonest k t at (s, true) h f =
        subst (All (λ e. Holds e.0 e.1))
          (sym (
            v.leaves
              (record { keeper = record k { confirmed = insert k.confirmed t at }; outside = s })
              t))
          (All-insert (λ e. Holds e.0 e.1) k.confirmed t at h (f refl))

    answered-IsHonest :
        (k : Keeper X) (t : Bytes) (p : S × Option (Option D))
        → All (λ e. Holds e.0 e.1) k.confirmed
        → IsHonest (answered o rest k t p).0
    answered-IsHonest k t (s, none) h = h
    answered-IsHonest k t (s, some none) h =
        kept-IsHonest k t (o.now s) (o.confirm s t (o.now s)) h (v.confirms s t (o.now s))
    answered-IsHonest k t (s, some (some d)) h =
        kept-IsHonest k t (o.now s) (o.replace s t d (o.now s)) h (v.replaces s t d (o.now s))

    asked-IsHonest :
        (k : Keeper X) (t : Bytes) (p : S × Option Bytes)
        → All (λ e. Holds e.0 e.1) k.confirmed
        → IsHonest (asked o rest k t p).0
    asked-IsHonest k t (s, none) h = h
    asked-IsHonest k t (s, some version) h = answered-IsHonest k t (o.fetch s t version) h

    sync-IsHonest : (r : Running X S) (t : Bytes) → IsHonest r → IsHonest (sync o rest r t).0
    unfolding sync
    sync-IsHonest r t h = asked-IsHonest r.keeper t (o.version r.outside t) h

    fail-IsHonest :
        (t : Bytes) (p : Running X S × Option SyncError) → IsHonest p.0 → IsHonest (fail o t p)
    unfolding fail
    fail-IsHonest t (r, none) h = h
    fail-IsHonest t (r, some e) h = h

    sync_all-IsHonest :
        (r : Running X S) (ts : List Bytes) → IsHonest r → IsHonest (sync_all o rest r ts)
    unfolding sync_all
    sync_all-IsHonest r [] h = h
    sync_all-IsHonest r (t ∷ ts) h = elim (Bool-cases (o.ended r.outside)) [
      | inl e ↦ rw e h
      | inr e ↦ rw e (
          sync_all-IsHonest (fail o t (sync o rest r t)) ts
            (fail-IsHonest t (sync o rest r t) (sync-IsHonest r t h)))
    ]

    refreshed-IsHonest :
        (k : Keeper X) (p : S × Option (List Bytes))
        → All (λ e. Holds e.0 e.1) k.confirmed
        → IsHonest (refreshed o rest k p)
    refreshed-IsHonest k (s, none) h = fail-IsHonest [] _ h
    refreshed-IsHonest k (s, some ts) h =
        sync_all-IsHonest
          (record { keeper = record k { extra = unlisted ts k.extra }; outside = s })
          (ts ++ map (λ e. e.0) (unlisted ts k.extra)) h

    cycle-IsHonest : (r : Running X S) → IsHonest r → IsHonest (cycle o rest r)
    unfolding cycle
    cycle-IsHonest r h = refreshed-IsHonest r.keeper (o.tenants r.outside) h

    take_woken-IsHonest :
        (r : Running X S) (ts : List Bytes) → IsHonest r → IsHonest (take_woken o rest r ts)
    take_woken-IsHonest r [] h = h
    take_woken-IsHonest r (t ∷ ts) h = fail-IsHonest t _ (
        sync-IsHonest
          (record r {
            keeper = record r.keeper { wake = ts; extra = insert r.keeper.extra t true };
          })
          t h)

  -- What happens to a keeper that runs: a cycle, a woken tenant taken from the queue, a call of
  -- `Wake`, and any change outside; with the tenants taken since the store last listed them.
  pub data Runs : List Bytes → Running X S → Type 0 where
    begun : (x : X) (s : S) → Runs [] (record { keeper = new_keeper x; outside = s })
    cycled :
        (r : Running X S) (ts : List Bytes)
        → Runs ts r
        → Runs (still (o.tenants r.outside).1 ts) (cycle o rest r)
    taken :
        (r : Running X S) (ts : List Bytes) (t : Bytes) (queued : List Bytes)
        → r.keeper.wake ≡ t ∷ queued
        → Runs ts r
        → Runs (t ∷ ts) (run_woken o rest r)
    woken :
        (r : Running X S) (ts : List Bytes) (t : Bytes)
        → Runs ts r
        → Runs ts (record r { keeper = wake r.keeper t })
    passed :
        (r : Running X S) (ts : List Bytes) (s : S) → Runs ts r → Runs ts (record r { outside = s })

  wake-confirmed : (k : Keeper X) (t : Bytes) → (wake k t).confirmed ≡ k.confirmed
  unfolding wake
  wake-confirmed k t = ground arith

  Runs-IsHonest : Keeps → (ts : List Bytes) (r : Running X S) → Runs ts r → IsHonest r
  unfolding new_keeper run_woken
  Runs-IsHonest v us r (begun x s) = tt
  Runs-IsHonest v us r (cycled q ts p) = cycle-IsHonest v q (Runs-IsHonest v ts q p)
  Runs-IsHonest v us r (taken q ts t queued e p) =
      take_woken-IsHonest v q q.keeper.wake (Runs-IsHonest v ts q p)
  Runs-IsHonest v us r (woken q ts t p) =
      subst (All (λ e. Holds e.0 e.1)) (sym (wake-confirmed q.keeper t)) (Runs-IsHonest v ts q p)
  Runs-IsHonest v us r (passed q ts s p) = Runs-IsHonest v ts q p

  Runs-Remembers :
      Keeps → (ts : List Bytes) (r : Running X S) → Runs ts r → All (Remembers r.keeper) ts
  Runs-Remembers v us r (begun x s) = tt
  Runs-Remembers v us r (cycled q ts p) =
      cycle-Remembers o rest v.leaves_extra q ts (Runs-Remembers v ts q p)
  Runs-Remembers v us r (taken q ts t queued e p) =
      run_woken-Remembers o rest v.leaves_extra q t queued ts e (Runs-Remembers v ts q p)
  Runs-Remembers v us r (woken q ts t p) = wake-Remembers q.keeper t ts (Runs-Remembers v ts q p)
  Runs-Remembers v us r (passed q ts s p) = Runs-Remembers v ts q p

  -- While a keeper that has run in any way is ready, the store holds, for every tenant that it has
  -- confirmed, and for every tenant that it took from the queue of the woken ones and that no list of
  -- the store has named since, a copy kept or confirmed at a time within the trust window. Of a tenant
  -- that still waits in the queue, or that the store listed and whose copy was never confirmed,
  -- nothing is said.
  pub ready-Holds :
      (c : Settings) (ts : List Bytes) (r : Running X S) (now : ℕ)
      → Keeps
      → Runs ts r
      → ready c r.keeper now ≡ none
      → All (λ e. Holds e.0 e.1 × Trusted c now e.1) r.keeper.confirmed
        × All (λ t. (at : ℕ) × Holds t at × Trusted c now at) ts
  ready-Holds c ts r now v p h =
      let (on, fresh, seen) = (ready_iff c r.keeper now).0 h in
      let honest = both r.keeper.confirmed (Runs-IsHonest v ts r p) fresh in
      (honest, each ts honest seen (Runs-Remembers v ts r p))
    where
      both :
          (m : List (Bytes × ℕ))
          → All (λ e. Holds e.0 e.1) m
          → All (λ e. Trusted c now e.1) m
          → All (λ e. Holds e.0 e.1 × Trusted c now e.1) m
      both [] h k = tt
      both (e ∷ m) (p, h) (q, k) = ((p, q), both m h k)

      found :
          All (λ e. Holds e.0 e.1 × Trusted c now e.1) r.keeper.confirmed
          → (t : Bytes) → Seen r.keeper t
          → (at : ℕ) × Holds t at × Trusted c now at
      found honest t s = elim (Option-cases (lookup r.keeper.confirmed t)) [
        | inl n ↦ absurd (s n)
        | inr (at, e) ↦
            (let (p, q) =
                All-lookup (λ e. Holds e.0 e.1 × Trusted c now e.1) r.keeper.confirmed t at honest
                  e in
              (at, p, q))
      ]

      each :
          (us : List Bytes)
          → All (λ e. Holds e.0 e.1 × Trusted c now e.1) r.keeper.confirmed
          → All (λ e. Seen r.keeper e.0) r.keeper.extra
          → All (Remembers r.keeper) us
          → All (λ t. (at : ℕ) × Holds t at × Trusted c now at) us
      each [] honest seen h = tt
      each (t ∷ us) honest seen ((u, e), h) = (
        found honest t (All-lookup (λ e. Seen r.keeper e.0) r.keeper.extra t u seen e),
        each us honest seen h,
      )
