-- ===== src/Placement/Reports.antt =====
-- placement/placement.go: the counts that the register holds of a tenant.
use go_authbyte.Base.{
  ◌↔◌, ◌&&◌, [], ◌∷◌, nat_eq, nat_eq_iff, length, all, All, ℕ, ◌≡◌, refl, sym, ap, ◌∙◌, subst, ◌≢◌,
  ◌⊎◌, inl, inr, Bool, true, false, Option, none, some, List, if◌then◌else◌, Bool-cases, ==_refl,
  Bytes, ℕ_comparable, Bytes_comparable,
}
use go_authbyte.Base.Map.{lookup, lookup-insert}
use go_authbyte.Keeper.{not_reported, unknown, Outside, Keeper, Running, SyncError}
use go_authbyte.Keeper.Confirms.{Keeps}
use go_authbyte.Placement.{
  maps_equal, same_count, Definitions, Counts, Reported, Reporting, is_reported, unknown_roles,
  accept_report, counted, report_counts,
}

some_same : (d c : Counts) → some c ≡ some d → c ≡ d
some_same d c h = cc

-- The two hold the same counts: as many, and each of the one is in the other.
abbrev pub SameCounts : Counts → Counts → Type 0
SameCounts a b = (length a ≡ length b) × All (λ e. lookup b e.0 ≡ some e.1) a

same_count_iff : (o : Option ℕ) (n : ℕ) → (same_count o n ≡ true) ↔ (o ≡ some n)
same_count_iff none n = (λ h. cc, λ h. cc)
same_count_iff (some m) n = (λ h. ap some ((nat_eq_iff m n).0 h), λ h. (nat_eq_iff m n).1 cc)

and_iff : (a b : Bool) → ((a && b) ≡ true) ↔ ((a ≡ true) × (b ≡ true))
and_iff true b = (λ h. (refl, h), λ h. h.1)
and_iff false b = (λ h. cc, λ h. cc)

all_iff :
    {A : Type 0} {P : A → Type 0} (f : A → Bool)
    → ((x : A) → (f x ≡ true) ↔ P x)
    → (xs : List A) → (all f xs ≡ true) ↔ All P xs
all_iff f g [] = (λ h. tt, λ h. refl)
all_iff f g (x ∷ xs) = (
  λ h. let (a, b) = (and_iff (f x) (all f xs)).0 h in ((g x).0 a, (all_iff f g xs).0 b),
  λ h. (and_iff (f x) (all f xs)).1 ((g x).1 h.0, (all_iff f g xs).1 h.1),
)

maps_equal_iff : (a b : Counts) → (maps_equal a b ≡ true) ↔ SameCounts a b
unfolding maps_equal
maps_equal_iff a b =
    let (there, back) =
      and_iff (nat_eq (length a) (length b)) (all (λ e. same_count (lookup b e.0) e.1) a) in
    let each =
      all_iff (λ e. same_count (lookup b e.0) e.1) (λ e. same_count_iff (lookup b e.0) e.1) a in
    (
      λ h. let (m, n) = there h in ((nat_eq_iff (length a) (length b)).0 m, each.0 n),
      λ h. back ((nat_eq_iff (length a) (length b)).1 h.0, each.1 h.1),
    )

-- The counts are those last accepted.
abbrev pub IsLast : Option Counts → Counts → Type 0
IsLast o c = (last : Counts) × (o ≡ some last) × SameCounts last c

is_reported_iff : (o : Option Counts) (c : Counts) → (is_reported o c ≡ true) ↔ IsLast o c
is_reported_iff none c = (λ h. cc, λ h. let (last, e, x) = h in cc)
is_reported_iff (some last) c = (
  λ h. (last, refl, (maps_equal_iff last c).0 h),
  λ h.
      let (l, e, same) = h in
      (maps_equal_iff last c).1 (subst (λ m. SameCounts m c) (sym (some_same l last e)) same),
)

module _ {S : Type 0} (o : Reporting S) where
  -- What a report comes to.
  abbrev pub Accepted :
      Keeper Reported → Bytes → S → Counts → Running Reported S × Option SyncError → Type 0
  Accepted k t s c q =
      (((o.report s t c).1 ≡ none) × (q.0.keeper.rest ≡ k.rest) × (q.1 ≡ some not_reported))
      ⊎ ((ids : List Bytes) × ((o.report s t c).1 ≡ some ids)
          × (lookup q.0.keeper.rest t ≡ some c)
          × (((ids ≡ []) × (q.1 ≡ none)) ⊎ ((ids ≢ []) × (q.1 ≡ some (unknown ids)))))

  -- Counts that are not those the register last accepted are sent, and no others.
  abbrev pub Outcome :
      Keeper Reported → Bytes → S → Counts → Running Reported S × Option SyncError → Type 0
  Outcome k t s c q =
      (IsLast (lookup k.rest t) c × (q.0.outside ≡ s) × (q.0.keeper.rest ≡ k.rest) × (q.1 ≡ none))
      ⊎ ((¬ IsLast (lookup k.rest t) c) × (q.0.outside ≡ (o.report s t c).0) × Accepted k t s c q)

  unknown_roles-cases :
      (ids : List Bytes)
      → ((ids ≡ []) × (unknown_roles ids ≡ none))
        ⊎ ((ids ≢ []) × (unknown_roles ids ≡ some (unknown ids)))
  unknown_roles-cases [] = inl (refl, refl)
  unknown_roles-cases (id ∷ ids) = inr ((λ q. cc), refl)

  accept_report-Outcome :
      (k : Keeper Reported) (t : Bytes) (s : S) (c : Counts) (p : S × Option (List Bytes))
      → o.report s t c ≡ p
      → ¬ IsLast (lookup k.rest t) c
      → Outcome k t s c (accept_report o k t c p)
  accept_report-Outcome k t s c (x, none) e h =
      inr (h, sym (ap (λ p. p.0) e), inl (ap (λ p. p.1) e, refl, refl))
  accept_report-Outcome k t s c (x, some ids) e h = inr (
    h,
    sym (ap (λ p. p.0) e),
    inr (
      ids,
      ap (λ p. p.1) e,
      lookup-insert k.rest t t c ∙ rw (==_refl t) refl,
      unknown_roles-cases ids,
    ),
  )

  counted-Outcome :
      (k : Keeper Reported) (t : Bytes) (s : S) (c : Counts)
      → Outcome k t s c (counted o k t (s, some c))
  counted-Outcome k t s c = elim (Bool-cases (is_reported (lookup k.rest t) c)) [
    | inl e ↦ branch true e (inl ((is_reported_iff (lookup k.rest t) c).0 e, refl, refl, refl))
    | inr e ↦ branch false e (
        accept_report-Outcome k t s c (o.report s t c) refl
          (λ l. let x = (is_reported_iff (lookup k.rest t) c).1 l in cc))
  ]
    where
      branch :
          (b : Bool)
          → is_reported (lookup k.rest t) c ≡ b
          → Outcome k t s c (
              if b
              then (record { keeper = k; outside = s }, none)
              else accept_report o k t c (o.report s t c))
          → Outcome k t s c (counted o k t (s, some c))
      branch b e x =
          subst
            (λ b. Outcome k t s c (
              if b
              then (record { keeper = k; outside = s }, none)
              else accept_report o k t c (o.report s t c)))
            (sym e) x

  -- Where the register last accepted the same counts of a tenant, nothing is sent and nothing changes.
  -- Where it did not, the counts are sent, once; a report that is accepted is remembered, even where
  -- some roles are not known, which are then the error, and one that fails is not.
  pub report_counts-Outcome :
      (r : Running Reported S) (t : Bytes) (c : Counts)
      → (o.counts r.outside t).1 ≡ some c
      → Outcome r.keeper t (o.counts r.outside t).0 c (report_counts o r t)
  unfolding report_counts
  report_counts-Outcome r t c h = go (o.counts r.outside t) h
    where
      go :
          (p : S × Option Counts) → p.1 ≡ some c → Outcome r.keeper t p.0 c (counted o r.keeper t p)
      go (s, none) h = cc
      go (s, some d) h =
          subst (λ x. Outcome r.keeper t s c (counted o r.keeper t (s, some x)))
            (some_same d c (sym h)) (counted-Outcome r.keeper t s c)

  report_counts-kept :
      (r : Running Reported S) (t : Bytes)
      → ((report_counts o r t).0.keeper.confirmed ≡ r.keeper.confirmed)
        × ((report_counts o r t).0.keeper.extra ≡ r.keeper.extra)
  unfolding report_counts
  report_counts-kept r t = go (o.counts r.outside t)
    where
      Kept : Keeper Reported → Type 0
      Kept k = (k.confirmed ≡ r.keeper.confirmed) × (k.extra ≡ r.keeper.extra)

      accepted :
          (c : Counts) (p : S × Option (List Bytes))
          → Kept (accept_report o r.keeper t c p).0.keeper
      accepted c (s, none) = (refl, refl)
      accepted c (s, some ids) = (refl, refl)

      go : (p : S × Option Counts) → Kept (counted o r.keeper t p).0.keeper
      go (s, none) = (refl, refl)
      go (s, some c) = elim (Bool-cases (is_reported (lookup r.keeper.rest t) c)) [
        | inl e ↦ rw e (refl, refl)
        | inr e ↦ rw e (accepted c (o.report s t c))
      ]

  -- The reports change no confirmation.
  pub report_counts-Keeps :
      (q : Outside S Definitions) (Holds : Bytes → ℕ → Type 0)
      → ((s : S) (t : Bytes) (d : Definitions) (at : ℕ)
          → (q.replace s t d at).1 ≡ true
          → Holds t at)
      → ((s : S) (t : Bytes) (at : ℕ) → (q.confirm s t at).1 ≡ true → Holds t at)
      → Keeps q (report_counts o) Holds
  report_counts-Keeps q Holds f g = record {
    replaces = f;
    confirms = g;
    leaves = λ r t. (report_counts-kept r t).0;
    leaves_extra = λ r t. (report_counts-kept r t).1;
  }
