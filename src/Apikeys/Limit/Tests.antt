-- ===== src/Apikeys/Limit/Tests.antt =====
-- apikeys/limit.go: the model at fixed inputs, and instances of the theorems.
use go_authbyte.Base.{
  ◌+◌, ◌*◌, ◌≤◌, ◌≡◌, refl, some, List, [], ◌∷◌, arith, Bytes, codes, Bytes_comparable,
}
use go_authbyte.Base.Map.{lookup, insert, retain}
use go_authbyte.Apikeys.Limit.{LimitConfig, MemoryLimiter, new_memory_limiter, allow_id}
use go_authbyte.Apikeys.Limit.Bounds.{IsValid, new_memory_limiter-IsValid}
use go_authbyte.Apikeys.Limit.Rate.{
  Call, own_allowed, allowed, shared_allowed, own_allowed_bounded, shared_allowed_bounded,
}

-- Three attempts in 30 ns, room for one caller.
abbrev small : LimitConfig
small = record { attempts = 3; window = 30; max_callers = 1 }

abbrev start : MemoryLimiter
start = record { interval = 10; tolerance = 20; max = 1; due = []; overflow = 0; swept = 0 }

start_of_small : new_memory_limiter small ≡ some start
unfolding new_memory_limiter
start_of_small = refl

start-IsValid : IsValid start
start-IsValid = (new_memory_limiter-IsValid small start_of_small).0

abbrev ann : Bytes
ann = codes "ann"

abbrev bob : Bytes
bob = codes "bob"

-- The fourth attempt at once waits one interval; the second caller shares the overflow.
abbrev calls : List Call
calls = (ann, 100) ∷ (ann, 100) ∷ (bob, 100) ∷ (ann, 100) ∷ (ann, 100) ∷ (ann, 111) ∷ []

calls_counts : (own_allowed ann start calls ≡ 4) × (shared_allowed start calls ≡ 1)
unfolding own_allowed shared_allowed allow_id lookup insert retain
calls_counts = (refl, refl)

own_allowed_bounded_example :
    (own_allowed ann start calls * 10 + 100 ≤ 111 + 30)
    × (allowed ann start calls * 10 + 2 * 100 ≤ 2 * (111 + 30))
own_allowed_bounded_example =
    own_allowed_bounded ann start calls 100 111 start-IsValid (omega arith)

shared_allowed_bounded_example : shared_allowed start calls * 10 + 100 ≤ 111 + 30
shared_allowed_bounded_example = shared_allowed_bounded start calls 100 111 (omega arith)
