-- ===== src/Keeper/Extra.antt =====
-- placement/placement.go and chart/chart.go: the tenants woken that a keeper remembers.
use go_authbyte.Base.{
  ℕ, ◌≡◌, refl, sym, ap, ◌∙◌, subst, inl, inr, Bool, true, false, not, ◌||◌, Option, none, some,
  List, [], ◌∷◌, ◌++◌, map, arith, if◌then◌else◌, Bool-cases, any, All, ◌==◌, ==_iff, ==_refl,
  Bytes, ℕ_comparable, Bytes_comparable,
}
use go_authbyte.Base.Map.{lookup, insert, retain, lookup-insert}
use go_authbyte.Base.Texts.{is_in}
use go_authbyte.Keeper.{
  Keeper, SyncError, Outside, Running, Rest, kept, answered, asked, sync, fail, sync_all, unlisted,
  refreshed, cycle, start, take_woken, run_woken, wake, no_tenants,
}

any-is_in : (listed : List Bytes) (t : Bytes) → any (λ u. u == t) listed ≡ is_in listed t
any-is_in [] t = refl
any-is_in (u ∷ listed) t = ap (λ b. u == t || b) (any-is_in listed t)

lookup-unlisted :
    (listed : List Bytes) (m : List (Bytes × Bool)) (t : Bytes) (v : Bool)
    → is_in listed t ≡ false
    → lookup m t ≡ some v
    → lookup (unlisted listed m) t ≡ some v
unfolding lookup retain
lookup-unlisted listed [] t v h e = cc
lookup-unlisted listed (entry ∷ m) t v h e =
    go (t == entry.0) refl (not (any (λ u. u == entry.0) listed)) refl
      (lookup-unlisted listed m t v h) e
  where
    go :
        (a : Bool)
        → (t == entry.0) ≡ a
        → (b : Bool) → not (any (λ u. u == entry.0) listed) ≡ b
        → (lookup m t ≡ some v → lookup (unlisted listed m) t ≡ some v)
        → (if a then some entry.1 else lookup m t) ≡ some v
        → lookup (if b then entry ∷ unlisted listed m else unlisted listed m) t ≡ some v
    go true p true q more e =
        ap (λ c. if c then some entry.1 else lookup (unlisted listed m) t) p ∙ e
    go true p false q more e =
        let z = any-is_in listed entry.0 ∙ ap (is_in listed) (sym ((==_iff t entry.0).0 p)) ∙ h in
        ground arith
    go false p true q more e =
        ap (λ c. if c then some entry.1 else lookup (unlisted listed m) t) p ∙ more e
    go false p false q more e = more e

-- A keeper remembers a tenant that was woken.
abbrev pub Remembers : {X : Type 0} → Keeper X → Bytes → Type 0
Remembers k t = (v : Bool) × (lookup k.extra t ≡ some v)

-- The tenants that a list of the store, where it is answered, does not name.
abbrev pub still : Option (List Bytes) → List Bytes → List Bytes
still none ts = ts
still (some listed) [] = []
still (some listed) (t ∷ ts) =
    let rest = still (some listed) ts in if is_in listed t then rest else t ∷ rest

module _ {X S D : Type 0} (o : Outside S D) (rest : Rest X S)
    (leaves : (r : Running X S) (t : Bytes) → (rest r t).0.keeper.extra ≡ r.keeper.extra) where
  kept-extra :
      (k : Keeper X) (t : Bytes) (at : ℕ) (p : S × Bool)
      → (kept o rest k t at p).0.keeper.extra ≡ k.extra
  kept-extra k t at (s, false) = refl
  kept-extra k t at (s, true) =
      leaves (record { keeper = record k { confirmed = insert k.confirmed t at }; outside = s }) t

  answered-extra :
      (k : Keeper X) (t : Bytes) (p : S × Option (Option D))
      → (answered o rest k t p).0.keeper.extra ≡ k.extra
  answered-extra k t (s, none) = refl
  answered-extra k t (s, some none) = kept-extra k t (o.now s) (o.confirm s t (o.now s))
  answered-extra k t (s, some (some d)) = kept-extra k t (o.now s) (o.replace s t d (o.now s))

  asked-extra :
      (k : Keeper X) (t : Bytes) (p : S × Option Bytes)
      → (asked o rest k t p).0.keeper.extra ≡ k.extra
  asked-extra k t (s, none) = refl
  asked-extra k t (s, some version) = answered-extra k t (o.fetch s t version)

  fail-extra :
      (t : Bytes) (p : Running X S × Option SyncError)
      → (fail o t p).keeper.extra ≡ p.0.keeper.extra
  unfolding fail
  fail-extra t (r, none) = refl
  fail-extra t (r, some e) = refl

  synced-extra :
      (r : Running X S) (t : Bytes) → (fail o t (sync o rest r t)).keeper.extra ≡ r.keeper.extra
  unfolding sync
  synced-extra r t = fail-extra t (sync o rest r t) ∙ asked-extra r.keeper t (o.version r.outside t)

  sync_all-extra :
      (r : Running X S) (ts : List Bytes) → (sync_all o rest r ts).keeper.extra ≡ r.keeper.extra
  unfolding sync_all
  sync_all-extra r [] = refl
  sync_all-extra r (t ∷ ts) = elim (Bool-cases (o.ended r.outside)) [
    | inl e ↦ rw e refl
    | inr e ↦ rw e (sync_all-extra (fail o t (sync o rest r t)) ts ∙ synced-extra r t)
  ]

  All-still :
      (k : Keeper X) (j : Running X S) (listed ts : List Bytes)
      → j.keeper.extra ≡ unlisted listed k.extra
      → All (Remembers k) ts
      → All (Remembers j.keeper) (still (some listed) ts)
  All-still k j listed [] same h = tt
  All-still k j listed (t ∷ ts) same ((v, e), h) =
      go (is_in listed t) refl (All-still k j listed ts same h)
    where
      go :
          (b : Bool)
          → is_in listed t ≡ b
          → All (Remembers j.keeper) (still (some listed) ts)
          → All
              (Remembers j.keeper)
              (if b then still (some listed) ts else t ∷ still (some listed) ts)
      go true p more = more
      go false p more =
          ((v, ap (λ m. lookup m t) same ∙ lookup-unlisted listed k.extra t v p e), more)

  -- A cycle forgets only tenants that the store lists.
  pub cycle-Remembers :
      (r : Running X S) (ts : List Bytes)
      → All (Remembers r.keeper) ts
      → All (Remembers (cycle o rest r).keeper) (still (o.tenants r.outside).1 ts)
  unfolding cycle
  cycle-Remembers r ts h = go (o.tenants r.outside)
    where
      go :
          (p : S × Option (List Bytes))
          → All (Remembers (start o (refreshed o rest r.keeper p)).keeper) (still p.1 ts)
      go (s, none) =
          subst (λ m. All (λ t. (v : Bool) × (lookup m t ≡ some v)) ts)
            (sym (fail-extra [] (record { keeper = r.keeper; outside = s }, some no_tenants))) h
      go (s, some listed) =
          All-still r.keeper (start o (refreshed o rest r.keeper (s, some listed))) listed ts
            (sync_all-extra
              (record {
                keeper = record r.keeper { extra = unlisted listed r.keeper.extra };
                outside = s;
              })
              (listed ++ map (λ e. e.0) (unlisted listed r.keeper.extra)))
            h

  -- A tenant taken from the queue is remembered, with those remembered before.
  pub run_woken-Remembers :
      (r : Running X S) (t : Bytes) (queued ts : List Bytes)
      → r.keeper.wake ≡ t ∷ queued
      → All (Remembers r.keeper) ts
      → All (Remembers (run_woken o rest r).keeper) (t ∷ ts)
  unfolding run_woken
  run_woken-Remembers r t queued ts e h =
      subst (λ q. All (Remembers (take_woken o rest r q).keeper) (t ∷ ts)) (sym e)
        (subst (λ m. All (λ t. (v : Bool) × (lookup m t ≡ some v)) (t ∷ ts))
          (sym (
            synced-extra
              (record r {
                keeper = record r.keeper { wake = queued; extra = insert r.keeper.extra t true };
              })
              t))
          ((true, lookup-insert r.keeper.extra t t true ∙ rw (==_refl t) refl), each ts h))
    where
      one :
          (j : Bytes) (v : Bool)
          → lookup r.keeper.extra j ≡ some v
          → (b : Bool) → (u : Bool) × ((if b then some true else lookup r.keeper.extra j) ≡ some u)
      one j v e true = (true, refl)
      one j v e false = (v, e)

      each :
          (us : List Bytes)
          → All (Remembers r.keeper) us
          → All (λ j. (v : Bool) × (lookup (insert r.keeper.extra t true) j ≡ some v)) us
      each [] h = tt
      each (j ∷ us) ((v, p), h) = (
        subst (λ x. (u : Bool) × (x ≡ some u)) (sym (lookup-insert r.keeper.extra t j true))
            (one j v p (j == t)),
        each us h,
      )

module _ {X : Type 0} where
  wake-extra : (k : Keeper X) (t : Bytes) → (wake k t).extra ≡ k.extra
  unfolding wake
  wake-extra k t = ground arith

  pub wake-Remembers :
      (k : Keeper X) (t : Bytes) (ts : List Bytes)
      → All (Remembers k) ts
      → All (Remembers (wake k t)) ts
  wake-Remembers k t ts h =
      subst (λ m. All (λ t. (v : Bool) × (lookup m t ≡ some v)) ts) (sym (wake-extra k t)) h
