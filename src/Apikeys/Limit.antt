-- ===== src/Apikeys/Limit.antt =====
-- apikeys/limit.go: the rate limit of each caller, by the generic cell rate algorithm.
-- A time is the nanoseconds since the zero `time.Time`, a duration a number of nanoseconds. `Sub`
-- stops at 0 where the difference is negative: it is only compared with bounds that are not.
pub mod Bounds
pub mod Rate
pub mod Retry
mod Tests
use go_authbyte.Base.{
  ℕ, zero, suc, ◌+◌, ◌-◌, ◌*◌, ◌/◌, min, Bool, true, false, not, ◌&&◌, ◌||◌, Option, none, some,
  List, [], Bytes, Bytes_comparable, ltb, leb, nat_eq, if◌then◌else◌, length, codes,
}
use go_authbyte.Base.Map.{lookup, insert, retain}

pub record LimitConfig : Type 0 where
  pub attempts : ℕ
  pub window : ℕ
  pub max_callers : ℕ

abbrev pub second : ℕ
second = 1000000000

abbrev pub default_limit_config : LimitConfig
default_limit_config = record { attempts = 60; window = 60 * second; max_callers = 10000 }

pub record MemoryLimiter : Type 0 where
  pub interval : ℕ
  pub tolerance : ℕ
  pub max : ℕ
  pub due : List (Bytes × ℕ)
  pub overflow : ℕ
  pub swept : ℕ

-- `none` is the error. `c.Attempts` and `c.MaxCallers` are ints: what is below 1 is 0 here.
unfoldable pub new_memory_limiter : LimitConfig → Option MemoryLimiter
new_memory_limiter c =
    if ltb c.attempts 1 || (leb c.window 0 || ltb c.max_callers 1)
    then none
    else let interval = c.window / c.attempts in
      if leb interval 0
      then none
      else some (record {
        interval = interval;
        tolerance = c.window - interval;
        max = c.max_callers;
        due = [];
        overflow = 0;
        swept = 0;
      })

-- The answer of `Allow`: whether the attempt is allowed, and how long to wait if not.
abbrev pub Answer : Type 0
Answer = Bool × ℕ

-- `Before`, and the assignment `t = now` under it.
abbrev pub later : ℕ → ℕ → ℕ
later due now = if ltb due now then now else due

-- `take`: the allowance after the call, and the answer.
unfoldable pub take : MemoryLimiter → ℕ → ℕ → ℕ × Answer
take l due now =
    let t = later due now in
    if ltb l.tolerance (t - now)
    then (due, (false, t - now - l.tolerance))
    else (t + l.interval, (true, 0))

unfoldable pub sweep : MemoryLimiter → ℕ → MemoryLimiter
sweep l now =
    if ltb (now - l.swept) l.interval
    then l
    else record l { swept = now; due = retain (λ e. ltb now e.1) l.due }

-- The map's zero value, read for a caller that is not tracked.
abbrev pub due_of : Option ℕ → ℕ
due_of none = 0
due_of (some due) = due

abbrev pub tracked : Option ℕ → Bool
tracked none = false
tracked (some due) = true

-- `return l.take(&l.overflow, now)`
unfoldable pub take_overflow : MemoryLimiter → ℕ → MemoryLimiter × Answer
unfolding take
take_overflow l now =
    let (due, answer) = take l l.overflow now in (record l { overflow = due }, answer)

-- The last three statements of `Allow`.
unfoldable pub take_tracked : MemoryLimiter → Bytes → ℕ → ℕ → MemoryLimiter × Answer
unfolding take
take_tracked l id due now =
    let (due', answer) = take l due now in (record l { due = insert l.due id due' }, answer)

-- Whether `Allow` answers from the allowance that untracked callers share: the table is full, and
-- stays full after a sweep.
abbrev pub full : MemoryLimiter → Bool
full l = leb l.max (length l.due)

-- `Allow`, below the digest of the caller's name.
unfoldable pub allow_id : MemoryLimiter → Bytes → ℕ → MemoryLimiter × Answer
unfolding take_overflow take_tracked sweep
allow_id l id now =
    let entry = lookup l.due id in
    let due = due_of entry in
    let l' = sweep l now in
    if not (tracked entry) && full l
    then (if full l' then take_overflow l' now else take_tracked l' id due now)
    else take_tracked l id due now

-- SHA-256 is an argument; the clock's time is given.
unfoldable pub allow : (Bytes → Bytes) → MemoryLimiter → Bytes → ℕ → MemoryLimiter × Answer
unfolding allow_id
allow digest l caller now = allow_id l (digest caller) now

-- `callers`
unfoldable pub callers : MemoryLimiter → ℕ
callers l = length l.due
