-- ===== src/Apikeys/Limit/Rate.antt =====
-- apikeys/limit.go: how many attempts the limiter allows, whatever the calls.
use go_authbyte.Base.{
  ℕ, suc, ◌+◌, ◌*◌, ◌≤◌, ◌≡◌, refl, ap, ◌∙◌, subst, ◌⊎◌, inl, inr, Bool, true, false, not, ◌&&◌,
  List, [], ◌∷◌, arith, ltb, if◌then◌else◌, ◌==◌, ==_iff, Bytes, Bytes_comparable,
}
use mathlib.Core.Path.{subst₂}
use native.Mathlib.Nat.{mul-le-mul_right, add-mul}
use go_authbyte.Base.Map.{lookup, retain, lookup-insert, lookup-retain}
use go_authbyte.Apikeys.Limit.{MemoryLimiter, take, sweep, allow_id, later, due_of, tracked, full}
use go_authbyte.Apikeys.Limit.Bounds.{IsValid, allow_id-IsValid, allow_id_fixed}

-- A call: the caller's digest, and the time.
abbrev pub Call : Type 0
Call = Bytes × ℕ

-- The calls come in the order of their times, from `t` to `last`.
abbrev pub Ordered : ℕ → List Call → ℕ → Type 0
Ordered t [] last = t ≤ last
Ordered t ((c, now) ∷ calls) last = (t ≤ now) × Ordered now calls last

-- Whether a call is answered from the allowance that untracked callers share.
abbrev pub is_shared : MemoryLimiter → Bytes → ℕ → Bool
is_shared l id now = (not (tracked (lookup l.due id)) && full l) && full (sweep l now)

-- The attempts of one caller that its own allowance lets through.
unfoldable pub own_allowed : Bytes → MemoryLimiter → List Call → ℕ
own_allowed id l [] = 0
own_allowed id l ((c, now) ∷ calls) =
    let rest = own_allowed id (allow_id l c now).0 calls in
    if c == id && (not (is_shared l c now) && (allow_id l c now).1.0) then suc rest else rest

-- The attempts of any callers that the shared allowance lets through.
unfoldable pub shared_allowed : MemoryLimiter → List Call → ℕ
shared_allowed l [] = 0
shared_allowed l ((c, now) ∷ calls) =
    let rest = shared_allowed (allow_id l c now).0 calls in
    if is_shared l c now && (allow_id l c now).1.0 then suc rest else rest

-- What one call does to the caller's own due time.
own_step :
    (l : MemoryLimiter) (id c : Bytes) (now : ℕ)
    → IsValid l
    → let d = due_of (lookup l.due id) in
      let d' = due_of (lookup (allow_id l c now).0.due id) in
      if c == id && (not (is_shared l c now) && (allow_id l c now).1.0)
      then (later d now ≤ now + l.tolerance) × (d' ≡ later d now + l.interval)
      else later d' now ≡ later d now
unfolding allow_id
own_step l id c now v = ground (
  arith,
  ==_iff c id,
  ==_iff id c,
  lookup-retain (λ e. ltb now e.1) l.due id v.distinct,
  lookup-insert l.due c id (take l (due_of (lookup l.due c)) now).0,
  lookup-insert (retain (λ e. ltb now e.1) l.due) c id (take l (due_of (lookup l.due c)) now).0,
)

shared_step :
    (l : MemoryLimiter) (c : Bytes) (now : ℕ)
    → let l' = (allow_id l c now).0 in
      if is_shared l c now && (allow_id l c now).1.0
      then (later l.overflow now ≤ now + l.tolerance)
        × (l'.overflow ≡ later l.overflow now + l.interval)
      else later l'.overflow now ≡ later l.overflow now
unfolding allow_id
shared_step l c now = ground arith

later-le : (d t now : ℕ) → t ≤ now → later d t ≤ later d now
later-le d t now h = ground arith

Ordered-le : (t : ℕ) (calls : List Call) (last : ℕ) → Ordered t calls last → t ≤ last
Ordered-le t [] last h = h
Ordered-le t ((c, now) ∷ calls) last h = omega (arith, Ordered-le now calls last h.1)

-- The bound that both counts keep: `d` is the due time that the allowance stands at, `w` the window.
abbrev IsBounded : ℕ → ℕ → ℕ → ℕ → ℕ → Type 0
IsBounded n i d last w = (n ≡ 0) ⊎ (n * i + d ≤ last + w)

-- One more attempt moved the due time from `a` to `a + i`, at most a window behind the clock.
IsBounded-suc :
    (n i a now last w : ℕ)
    → a + i ≤ now + w
    → now ≤ last
    → IsBounded n i (a + i) last w
    → IsBounded (suc n) i a last w
IsBounded-suc n i a now last w h k (inl e) = inr (rw e (omega arith))
IsBounded-suc n i a now last w h k (inr b) = inr (omega arith)

IsBounded-le : (n i a b last w : ℕ) → a ≤ b → IsBounded n i b last w → IsBounded n i a last w
IsBounded-le n i a b last w h (inl e) = inl e
IsBounded-le n i a b last w h (inr k) = inr (omega arith)

-- `later` leaves a time that is ahead of the clock.
later-add : (d now i : ℕ) → later (later d now + i) now ≡ later d now + i
later-add d now i = ground arith

-- One call, counted or not, in front of calls that keep the bound.
step_bound :
    (b : Bool) (n i tol d d' t now last : ℕ)
    → t ≤ now
    → now ≤ last
    → (if b then (later d now ≤ now + tol) × (d' ≡ later d now + i) else later d' now ≡ later d now)
    → IsBounded n i (later d' now) last (i + tol)
    → IsBounded (if b then suc n else n) i (later d t) last (i + tol)
step_bound true n i tol d d' t now last h k (near, moved) ih =
    IsBounded-le _ i _ (later d now) last (i + tol) (later-le d t now h) (
      IsBounded-suc n i (later d now) now last (i + tol) (omega arith) k (
        subst (λ x. IsBounded n i x last (i + tol))
          (ap (λ x. later x now) moved ∙ later-add d now i) ih))
step_bound false n i tol d d' t now last h k same ih =
    IsBounded-le _ i _ (later d now) last (i + tol) (later-le d t now h)
      (subst (λ x. IsBounded n i x last (i + tol)) same ih)

own_bound :
    (id : Bytes) (l : MemoryLimiter) (calls : List Call) (t last : ℕ)
    → IsValid l
    → Ordered t calls last
    → IsBounded
        (own_allowed id l calls)
        l.interval
        (later (due_of (lookup l.due id)) t)
        last
        (l.interval + l.tolerance)
unfolding own_allowed
own_bound id l [] t last v h = inl refl
own_bound id l ((c, now) ∷ calls) t last v (h, o) =
    let (_, same_i, same_tol) = allow_id_fixed l c now in
    step_bound _ (own_allowed id (allow_id l c now).0 calls) l.interval l.tolerance
      (due_of (lookup l.due id)) (due_of (lookup (allow_id l c now).0.due id)) t now last h
      (Ordered-le now calls last o) (own_step l id c now v)
      (subst₂
        (λ i w.
          IsBounded (own_allowed id (allow_id l c now).0 calls) i
            (later (due_of (lookup (allow_id l c now).0.due id)) now) last (i + w))
        same_i same_tol
        (own_bound id (allow_id l c now).0 calls now last (allow_id-IsValid c now v) o))

shared_bound :
    (l : MemoryLimiter) (calls : List Call) (t last : ℕ)
    → Ordered t calls last
    → IsBounded
        (shared_allowed l calls)
        l.interval
        (later l.overflow t)
        last
        (l.interval + l.tolerance)
unfolding shared_allowed
shared_bound l [] t last h = inl refl
shared_bound l ((c, now) ∷ calls) t last (h, o) =
    let (_, same_i, same_tol) = allow_id_fixed l c now in
    step_bound _ (shared_allowed (allow_id l c now).0 calls) l.interval l.tolerance l.overflow
      (allow_id l c now).0.overflow t now last h (Ordered-le now calls last o) (shared_step l c now)
      (subst₂
        (λ i w.
          IsBounded (shared_allowed (allow_id l c now).0 calls) i
            (later (allow_id l c now).0.overflow now) last (i + w))
        same_i same_tol (shared_bound (allow_id l c now).0 calls now last o))

-- The attempts of a caller that are let through, by its own allowance or by the shared one.
unfoldable pub allowed : Bytes → MemoryLimiter → List Call → ℕ
allowed id l [] = 0
allowed id l ((c, now) ∷ calls) =
    let rest = allowed id (allow_id l c now).0 calls in
    if c == id && (allow_id l c now).1.0 then suc rest else rest

sum_step :
    (a b c : Bool) (n o p : ℕ)
    → n ≤ o + p
    → (if a && c then suc n else n)
      ≤ (if a && (not b && c) then suc o else o) + (if b && c then suc p else p)
sum_step a b c n o p h = ground arith

allowed-le :
    (id : Bytes) (l : MemoryLimiter) (calls : List Call)
    → allowed id l calls ≤ own_allowed id l calls + shared_allowed l calls
unfolding allowed own_allowed shared_allowed
allowed-le id l [] = omega arith
allowed-le id l ((c, now) ∷ calls) =
    sum_step (c == id) (is_shared l c now) (allow_id l c now).1.0 _ _ _
      (allowed-le id (allow_id l c now).0 calls)

own_bounded :
    (id : Bytes) (l : MemoryLimiter) (calls : List Call) (t last : ℕ)
    → IsValid l
    → Ordered t calls last
    → own_allowed id l calls * l.interval + t ≤ last + (l.interval + l.tolerance)
own_bounded id l calls t last v o = elim (own_bound id l calls t last v o) [
  | inl e ↦ rw e (omega (arith, Ordered-le t calls last o))
  | inr b ↦ grind arith
]

-- The same bound holds of all attempts that the shared allowance lets through, however many
-- callers are not tracked.
pub shared_allowed_bounded :
    (l : MemoryLimiter) (calls : List Call) (t last : ℕ)
    → Ordered t calls last
    → shared_allowed l calls * l.interval + t ≤ last + (l.interval + l.tolerance)
shared_allowed_bounded l calls t last o = elim (shared_bound l calls t last o) [
  | inl e ↦ rw e (omega (arith, Ordered-le t calls last o))
  | inr b ↦ grind arith
]

twice : (n o p i t u : ℕ) → n ≤ o + p → o * i + t ≤ u → p * i + t ≤ u → n * i + 2 * t ≤ 2 * u
twice n o p i t u h k m = omega (arith, mul-le-mul_right i h, add-mul o p i)

-- However the calls of all callers interleave, a caller's own allowance lets through at most a
-- window's attempts and one more for each interval that passes: `n` of its attempts between the times
-- `t` and `last` satisfy n * interval ≤ window + (last - t), where the window is
-- `interval + tolerance`. Attempts made while the caller was not tracked are let through by the shared
-- allowance beside it, so all of its attempts together are bounded by twice that, and not by that. The
-- limiter is valid, and the calls are in the order of their times.
pub own_allowed_bounded :
    (id : Bytes) (l : MemoryLimiter) (calls : List Call) (t last : ℕ)
    → IsValid l
    → Ordered t calls last
    → (own_allowed id l calls * l.interval + t ≤ last + (l.interval + l.tolerance))
      × (allowed id l calls * l.interval + 2 * t ≤ 2 * (last + (l.interval + l.tolerance)))
own_allowed_bounded id l calls t last v o =
    let own = own_bounded id l calls t last v o in
    (
      own,
      twice _ _ _ l.interval t _ (allowed-le id l calls) own
          (shared_allowed_bounded l calls t last o),
    )
