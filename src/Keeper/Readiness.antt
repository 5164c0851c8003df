-- ===== src/Keeper/Readiness.antt =====
-- `Ready` of placement/placement.go and chart/chart.go.
use go_authbyte.Base.{
  ℕ, ◌+◌, ◌-◌, ◌≤◌, ◌≡◌, refl, sym, ap, ◌∙◌, ◌≢◌, ◌↔◌, inl, inr, Bool, true, false, Option, none,
  some, List, [], ◌∷◌, ◌++◌, map, arith, ltb, if◌then◌else◌, Bool-cases, All, ==_refl, Bytes,
  ℕ_comparable, Bytes_comparable,
}
use go_authbyte.Base.Map.{lookup, retain}
use go_authbyte.Base.Sorting.{sort, is_in-sort}
use go_authbyte.Base.Texts.{is_in}
use go_authbyte.Keeper.{Settings, Keeper, stale, named, ready, not_started}

-- No entry is left where each is refused, and then only.
retain-none :
    {V : Type 0} (keep : Bytes × V → Bool) (m : List (Bytes × V))
    → (map (λ e. e.0) (retain keep m) ≡ []) ↔ All (λ e. keep e ≡ false) m
unfolding retain
retain-none keep [] = (λ h. tt, λ h. refl)
retain-none keep (e ∷ m) = elim (Bool-cases (keep e)) [
  | inl k ↦ rw k (λ h. cc, λ h. cc)
  | inr k ↦ rw k (λ h. (refl, (retain-none keep m).0 h), λ h. (retain-none keep m).1 h.1)
]

sort-empty : (ts : List Bytes) → sort ts ≡ [] → ts ≡ []
sort-empty [] h = refl
sort-empty (t ∷ ts) h = absurd (absent (ap (λ xs. is_in xs t) h ∙ refl))
  where
    absent : is_in (sort (t ∷ ts)) t ≢ false
    absent q = ground (arith, is_in-sort (t ∷ ts) t, ==_refl t)

append-empty : (xs ys : List Bytes) → xs ++ ys ≡ [] → (xs ≡ []) × (ys ≡ [])
append-empty [] ys h = (refl, h)
append-empty (x ∷ xs) ys h = cc

named-none : (ts : List Bytes) → named ts ≡ none → ts ≡ []
named-none [] h = refl
named-none (t ∷ ts) h = cc

-- A copy confirmed at a time is trusted at another.
abbrev pub Trusted : Settings → ℕ → ℕ → Type 0
Trusted c now at = now ≤ at + c.trust_window

abbrev pub Seen : {X : Type 0} → Keeper X → Bytes → Type 0
Seen k t = lookup k.confirmed t ≢ none

All-iff :
    {A : Type 0} {P Q : A → Type 0} (f : (x : A) → P x ↔ Q x) (xs : List A) → All P xs ↔ All Q xs
All-iff f [] = (λ h. tt, λ h. tt)
All-iff f (x ∷ xs) =
    (λ h. ((f x).0 h.0, (All-iff f xs).0 h.1), λ h. ((f x).1 h.0, (All-iff f xs).1 h.1))

old_iff : (at now window : ℕ) → (ltb at (now - window) ≡ false) ↔ (now ≤ at + window)
old_iff at now window = (λ h. ground arith, λ h. ground arith)

is_unconfirmed : Option ℕ → Bool
is_unconfirmed o = elim o [ none ↦ true | some at ↦ false ]

is_unconfirmed_iff : (o : Option ℕ) → (is_unconfirmed o ≡ false) ↔ (o ≢ none)
unfolding is_unconfirmed
is_unconfirmed_iff none = (λ h. cc, λ h. absurd (h refl))
is_unconfirmed_iff (some at) = (λ h q. cc, λ h. refl)

module _ {X : Type 0} (c : Settings) (k : Keeper X) (now : ℕ) where
  -- What a keeper that is ready has confirmed.
  abbrev pub IsReady : Type 0
  IsReady =
      (k.started ≡ true) × All (λ e. Trusted c now e.1) k.confirmed × All (λ e. Seen k e.0) k.extra

  stale-IsReady : k.started ≡ true → stale k (now - c.trust_window) ≡ [] → IsReady
  unfolding is_unconfirmed
  stale-IsReady on h =
      let (old, missing) =
        append-empty (map (λ e. e.0) (retain (λ e. ltb e.1 (now - c.trust_window)) k.confirmed)) _
          h in
      (
        on,
        (All-iff (λ e. old_iff e.1 now c.trust_window) k.confirmed).0
            ((retain-none (λ e. ltb e.1 (now - c.trust_window)) k.confirmed).0 old),
        (All-iff (λ e. is_unconfirmed_iff (lookup k.confirmed e.0)) k.extra).0
            ((retain-none (λ e. is_unconfirmed (lookup k.confirmed e.0)) k.extra).0 missing),
      )

  IsReady-stale : IsReady → stale k (now - c.trust_window) ≡ []
  unfolding is_unconfirmed
  IsReady-stale (on, fresh, seen) =
      let old =
        (retain-none (λ e. ltb e.1 (now - c.trust_window)) k.confirmed).1
          ((All-iff (λ e. old_iff e.1 now c.trust_window) k.confirmed).1 fresh) in
      let missing =
        (retain-none (λ e. is_unconfirmed (lookup k.confirmed e.0)) k.extra).1
          ((All-iff (λ e. is_unconfirmed_iff (lookup k.confirmed e.0)) k.extra).1 seen) in
      ap
        (λ ts. ts ++ map (λ e. e.0) (retain (λ e. is_unconfirmed (lookup k.confirmed e.0)) k.extra))
        old
      ∙ missing

  -- `Ready` answers nil exactly once the first cycle has run and while every copy confirmed in this
  -- process was confirmed within the trust window and every tenant remembered as woken has one.
  pub ready_iff : (ready c k now ≡ none) ↔ IsReady
  unfolding ready
  ready_iff = (there, back)
    where
      there : ready c k now ≡ none → IsReady
      there h = elim (Bool-cases k.started) [
        | inl on ↦ stale-IsReady on (
            sort-empty (stale k (now - c.trust_window)) (
              named-none _ (
                sym (
                  ap
                    (λ b.
                      if b then named (sort (stale k (now - c.trust_window))) else some not_started)
                    on)
                ∙ h)))
        | inr off ↦ ground arith
      ]

      back : IsReady → ready c k now ≡ none
      back r =
          ap (λ b. if b then named (sort (stale k (now - c.trust_window))) else some not_started)
            r.0
          ∙ ap (λ ts. named (sort ts)) (IsReady-stale r)
