-- ===== src/Jwks/Fetches.antt =====
-- jwks/jwks.go: how often the issuer is asked, whatever keys are asked for.
use go_authbyte.Base.{
  ℕ, suc, ◌+◌, ◌≤◌, ◌<◌, ◌≡◌, refl, ap, ◌∙◌, inl, inr, Bool, true, false, none, List, [], ◌∷◌,
  arith, nat_eq_iff, Bool-cases, All, ℕ_comparable, Bytes_comparable,
}
use go_authbyte.Jwks.{
  Client, Reply, bad_request, unreachable, unreadable, unparsed, status, key_set, fetch, fetches,
  refresh,
}

-- A call of `refresh`: the stamp that its caller saw, and what it meets.
pub record Call (K : Type 0) : Type 0 where
  pub seen_at : ℕ
  pub now : ℕ
  pub done : ℕ
  pub reply : Reply K

abbrev one_if : Bool → ℕ
one_if true = 1
one_if false = 0

-- The time of the call is within the interval that begins at `start`, which is not the zero time.
abbrev IsWithin : {K : Type 0} → ℕ → ℕ → Call K → Type 0
IsWithin start interval x = (0 < start) × (start ≤ x.now) × (x.now < start + interval)

module _ {K : Type 0} where
  -- How many of the calls reach the issuer.
  pub fetched : Client K → List (Call K) → ℕ
  unfolding refresh
  fetched c [] = 0
  fetched c (x ∷ calls) =
      one_if (fetches c x.seen_at x.now)
      + fetched (refresh c x.seen_at x.now x.done x.reply).0 calls

  fetch_keeps :
      (c : Client K) (done : ℕ) (reply : Reply K)
      → ((fetch c done reply).0.last_attempt ≡ c.last_attempt)
        × ((fetch c done reply).0.min_interval ≡ c.min_interval)
  unfolding fetch
  fetch_keeps c done bad_request = (refl, refl)
  fetch_keeps c done unreachable = (refl, refl)
  fetch_keeps c done unreadable = (refl, refl)
  fetch_keeps c done unparsed = (refl, refl)
  fetch_keeps c done (status n) = (refl, refl)
  fetch_keeps c done (key_set set) = (refl, refl)

  refresh_shut :
      (c : Client K) (x : Call K)
      → fetches c x.seen_at x.now ≡ false
      → refresh c x.seen_at x.now x.done x.reply ≡ (c, none)
  unfolding refresh
  refresh_shut c x h = rw h refl

  refresh_open :
      (c : Client K) (x : Call K)
      → fetches c x.seen_at x.now ≡ true
      → ((refresh c x.seen_at x.now x.done x.reply).0.last_attempt ≡ x.now)
        × ((refresh c x.seen_at x.now x.done x.reply).0.min_interval ≡ c.min_interval)
  unfolding refresh
  refresh_open c x h = rw h (fetch_keeps (record c { last_attempt = x.now }) x.done x.reply)

  fetched_shut :
      (c : Client K) (x : Call K) (calls : List (Call K))
      → fetches c x.seen_at x.now ≡ false
      → fetched c (x ∷ calls) ≡ fetched c calls
  unfolding fetched
  fetched_shut c x calls h =
      let rest : fetched (refresh c x.seen_at x.now x.done x.reply).0 calls ≡ fetched c calls =
        ap (λ r. fetched r.0 calls) (refresh_shut c x h) in
      let first : one_if (fetches c x.seen_at x.now) ≡ 0 = ap one_if h in omega arith

  fetched_open :
      (c : Client K) (x : Call K) (calls : List (Call K))
      → fetches c x.seen_at x.now ≡ true
      → fetched c (x ∷ calls) ≡ suc (fetched (refresh c x.seen_at x.now x.done x.reply).0 calls)
  unfolding fetched
  fetched_open c x calls h =
      let first : one_if (fetches c x.seen_at x.now) ≡ 1 = ap one_if h in omega arith

  closed :
      (start interval : ℕ) (c : Client K) (x : Call K)
      → c.min_interval ≡ interval
      → start ≤ c.last_attempt
      → IsWithin start interval x
      → fetches c x.seen_at x.now ≡ false
  unfolding fetches
  closed start interval c x same h (pos, low, high) = ground (arith, nat_eq_iff c.last_attempt 0)

  -- Once an attempt lies in the window, no call within it reaches the issuer.
  fetched_none :
      (start interval : ℕ) (c : Client K) (calls : List (Call K))
      → c.min_interval ≡ interval
      → start ≤ c.last_attempt
      → All (IsWithin start interval) calls
      → fetched c calls ≡ 0
  unfolding fetched
  fetched_none start interval c [] same h k = refl
  fetched_none start interval c (x ∷ calls) same h (within, k) =
      fetched_shut c x calls (closed start interval c x same h within)
      ∙ fetched_none start interval c calls same h k

  -- Of the calls within one refresh interval, at most one reaches the issuer, whatever keys they
  -- ask for, whatever they saw before and whatever the issuer answers.
  pub fetched-bound :
      (start : ℕ) (c : Client K) (calls : List (Call K))
      → All (IsWithin start c.min_interval) calls
      → fetched c calls ≤ 1
  unfolding fetched
  fetched-bound start c [] k = omega arith
  fetched-bound start c (x ∷ calls) (within, k) = elim (Bool-cases (fetches c x.seen_at x.now)) [
    | inl e ↦
        let (attempt, interval) = refresh_open c x e in
        let none_left =
          fetched_none start c.min_interval (refresh c x.seen_at x.now x.done x.reply).0 calls
            interval (omega arith) k in
        omega (arith, fetched_open c x calls e)
    | inr e ↦ omega (arith, fetched_shut c x calls e, fetched-bound start c calls k)
  ]
