-- ===== src/Apikeys/Verify/New.antt =====
-- apikeys/verify.go: `NewVerifier`, and the state that checks start from.
use go_authbyte.Base.{
  ℕ, ◌<◌, ◌≡◌, refl, sym, subst, ◌⊎◌, inl, inr, Bool, true, false, not, ◌||◌, Option, none, some,
  [], arith, ltb, nat_eq, if◌then◌else◌, Bool-cases, All, ℕ_comparable, Bytes_comparable, Result,
  ok, err, ◌>>=◌, bind-ok, ok_inj,
}
use go_authbyte.Base.Integers.{ℤ, is_negative, count}
use go_authbyte.Apikeys.Limit.{MemoryLimiter, default_limit_config, new_memory_limiter, second}
use go_authbyte.Apikeys.Scheme.{Scheme}
use go_authbyte.Apikeys.Cache.{SuccessCache}
use go_authbyte.Apikeys.Verify.{Services, Verifier, State}
use go_authbyte.Apikeys.Verify.Running.{IsRunning}
use go_authbyte.Apikeys.Verify.Sound.{CacheSound, GenuineEntry}

-- The limiter of a verifier: the one that is configured, or one in memory.
pub data Limiter (L : Type 0) : Type 0 where
  configured : L → Limiter L
  in_memory : MemoryLimiter → Limiter L

-- The durations are nanoseconds; `none` of the limiter is nil. The clock is given to each check.
pub record VerifierConfig (L : Type 0) : Type 0 where
  pub limiter : Option L
  pub max_derives : ℤ
  pub busy_retry_after : ℤ
  pub cache_ttl : ℤ
  pub cache_size : ℤ

pub data VerifierError : Type 0 where
  needs_lookup negative_limits limiter_refused : VerifierError

abbrev default_max_derives : ℕ
default_max_derives = 4

abbrev default_busy_retry_after : ℕ
default_busy_retry_after = second

abbrev default_cache_size : ℕ
default_cache_size = 1024

abbrev or_default : ℕ → ℕ → ℕ
or_default default n = if nat_eq n 0 then default else n

abbrev or_in_memory :
    {L : Type 0} → Option MemoryLimiter → Option L → Result VerifierError (Limiter L)
or_in_memory m (some l) = ok (configured l)
or_in_memory none none = err limiter_refused
or_in_memory (some m) none = ok (in_memory m)

unfoldable new_cache : ℕ → ℕ → Option SuccessCache
new_cache ttl size =
    if ltb 0 ttl
    then some (record { ttl = ttl; size = or_default default_cache_size size; entries = [] })
    else none

-- `NewVerifier`; `has_lookup` is whether the lookup is not nil.
unfoldable pub new_verifier :
    {L : Type 0}
    → Scheme
    → Bool
    → VerifierConfig L
    → Result VerifierError (Verifier × State (Limiter L))
unfolding new_cache new_memory_limiter
new_verifier s has_lookup c =
    if not has_lookup
    then err needs_lookup
    else if is_negative c.max_derives
        || (is_negative c.busy_retry_after || (is_negative c.cache_ttl || is_negative c.cache_size))
    then err negative_limits
    else (do
      l ← or_in_memory (new_memory_limiter default_limit_config) c.limiter
      ok (
        record {
          scheme = s;
          max_derives = or_default default_max_derives (count c.max_derives);
          busy_after = or_default default_busy_retry_after (count c.busy_retry_after);
        },
        record {
          limiter = l;
          slots = 0;
          cache = new_cache (count c.cache_ttl) (count c.cache_size);
          spent = [];
        },
      ))

-- What a new verifier starts from.
abbrev IsNew : {L : Type 0} → Verifier × State (Limiter L) → Type 0
IsNew (v, s) =
    (0 < v.max_derives)
    × (s.slots ≡ 0)
    × (s.spent ≡ [])
    × ((s.cache ≡ none)
        ⊎ ((c : SuccessCache) × (s.cache ≡ some c) × (c.entries ≡ []) × (0 < c.size)))

new_cache-cases :
    (ttl size : ℕ)
    → (new_cache ttl size ≡ none)
      ⊎ ((c : SuccessCache) × (new_cache ttl size ≡ some c) × (c.entries ≡ []) × (0 < c.size))
unfolding new_cache
new_cache-cases ttl size = elim (Bool-cases (ltb 0 ttl)) [
  | inl e ↦ inr (
    record { ttl = ttl; size = or_default default_cache_size size; entries = [] },
    rw e refl,
    refl,
    ground arith,
  )
  | inr e ↦ inl (rw e refl)
]

built : {L : Type 0} → Scheme → VerifierConfig L → Limiter L → Verifier × State (Limiter L)
unfolding new_cache
built s c l = (
  record {
    scheme = s;
    max_derives = or_default default_max_derives (count c.max_derives);
    busy_after = or_default default_busy_retry_after (count c.busy_retry_after);
  },
  record {
    limiter = l;
    slots = 0;
    cache = new_cache (count c.cache_ttl) (count c.cache_size);
    spent = [];
  },
)

built-IsNew : {L : Type 0} (s : Scheme) (c : VerifierConfig L) (l : Limiter L) → IsNew (built s c l)
unfolding built
built-IsNew s c l =
    (ground arith, refl, refl, new_cache-cases (count c.cache_ttl) (count c.cache_size))

-- Every verifier starts with at least one slot, all of them free, and no entry in its cache.
new_verifier-IsNew :
    {L : Type 0} (s : Scheme) (has_lookup : Bool) (c : VerifierConfig L)
    (r : Verifier × State (Limiter L))
    → new_verifier s has_lookup c ≡ ok r
    → IsNew r
unfolding new_verifier built
new_verifier-IsNew s false c r h = cc
new_verifier-IsNew {L} s true c r h =
    go
      (is_negative c.max_derives
        || (is_negative c.busy_retry_after
            || (is_negative c.cache_ttl || is_negative c.cache_size)))
      h
  where
    go :
        (b : Bool)
        → (if b
            then err negative_limits
            else (or_in_memory (new_memory_limiter default_limit_config) c.limiter >>= λ l.
                ok (built s c l)))
          ≡ ok r
        → IsNew r
    go true k = cc
    go false k =
        let (l, _, made) =
          bind-ok (or_in_memory (new_memory_limiter default_limit_config) c.limiter)
            (λ l. ok (built s c l)) k in
        subst IsNew (ok_inj made) (built-IsNew s c l)

-- The checks of a verifier that `NewVerifier` returns start with at least one slot, as many taken as
-- checks run, which is none, and a cache that holds no key, so that the invariant of every run holds.
new_verifier-IsRunning :
    {L E : Type 0} (w : Services (Limiter L) E) (s : Scheme) (has_lookup : Bool)
    (c : VerifierConfig L) (v : Verifier) (start : State (Limiter L))
    → new_verifier s has_lookup c ≡ ok (v, start)
    → (0 < v.max_derives) × IsRunning w v (record { state = start; running = [] })
new_verifier-IsRunning w s has_lookup c v start h =
    let (room, slots, _, empty) = new_verifier-IsNew s has_lookup c (v, start) h in
    (room, (slots, omega arith, sound empty, tt))
  where
    sound :
        (start.cache ≡ none)
          ⊎ ((d : SuccessCache) × (start.cache ≡ some d) × (d.entries ≡ []) × (0 < d.size))
        → CacheSound w v start.cache
    sound (inl e) = subst (CacheSound w v) (sym e) tt
    sound (inr (d, e, entries, _)) =
        subst (CacheSound w v) (sym e) (subst (All (GenuineEntry w v)) (sym entries) tt)
