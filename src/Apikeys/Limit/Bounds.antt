-- ===== src/Apikeys/Limit/Bounds.antt =====
-- apikeys/limit.go: what the limiter keeps between two calls.
use go_authbyte.Base.{
  ℕ, ◌+◌, ◌*◌, ◌≤◌, ◌<◌, ◌≡◌, ◌⊎◌, true, some, arith, ltb, length, Bytes, Bytes_comparable,
}
use go_authbyte.Base.Map.{
  lookup, Distinct, insert-Distinct, retain-Distinct, length-insert, length-retain,
}
use go_authbyte.Apikeys.Limit.{
  tracked, due_of, callers, LimitConfig, MemoryLimiter, new_memory_limiter, take, take_tracked,
  take_overflow, sweep, allow_id, allow,
}

pub record IsValid (l : MemoryLimiter) : Type 0 where
  pub distinct : Distinct l.due
  pub bounded : length l.due ≤ l.max
  pub room : 0 < l.max
  pub share : 0 < l.interval

-- The limiter that `NewMemoryLimiter` returns is valid, and its shares fit the window.
pub new_memory_limiter-IsValid :
    (c : LimitConfig) {l : MemoryLimiter}
    → new_memory_limiter c ≡ some l
    → IsValid l × (l.interval + l.tolerance ≡ c.window) × (c.attempts * l.interval ≤ c.window)
unfolding new_memory_limiter
new_memory_limiter-IsValid c h = grind arith

sweep-IsValid : {l : MemoryLimiter} (now : ℕ) → IsValid l → IsValid (sweep l now)
unfolding sweep
sweep-IsValid {l} now v =
    ground (arith, retain-Distinct (λ e. ltb now e.1) l.due, length-retain (λ e. ltb now e.1) l.due)

module _ {l : MemoryLimiter} (id : Bytes) (now : ℕ) (v : IsValid l) where
  take_overflow-IsValid : IsValid (take_overflow l now).0
  unfolding take_overflow
  take_overflow-IsValid = ground arith

  -- An entry that is there, or room for one more, keeps the table within its bound.
  take_tracked-IsValid :
      (d : ℕ)
      → (tracked (lookup l.due id) ≡ true) ⊎ (length l.due < l.max)
      → IsValid (take_tracked l id d now).0
  unfolding take_tracked
  take_tracked-IsValid d h = ground (
    arith,
    insert-Distinct l.due id (take l d now).0 v.distinct,
    length-insert l.due id (take l d now).0,
  )

-- The settings never change.
pub allow_id_fixed :
    (l : MemoryLimiter) (id : Bytes) (now : ℕ)
    → let l' = (allow_id l id now).0 in
      (l'.max ≡ l.max) × (l'.interval ≡ l.interval) × (l'.tolerance ≡ l.tolerance)
unfolding allow_id
allow_id_fixed l id now = ground arith

pub allow_id-IsValid :
    {l : MemoryLimiter} (id : Bytes) (now : ℕ) → IsValid l → IsValid (allow_id l id now).0
unfolding allow_id
allow_id-IsValid {l} id now v = ground (
  arith,
  sweep-IsValid now v,
  take_overflow-IsValid id now (sweep-IsValid now v),
  take_tracked-IsValid id now (sweep-IsValid now v) (due_of (lookup l.due id)),
  take_tracked-IsValid id now v (due_of (lookup l.due id)),
)

-- Every call keeps the limiter valid: its callers are distinct and never more than its maximum.
allow-IsValid :
    (digest : Bytes → Bytes) {l : MemoryLimiter} (caller : Bytes) (now : ℕ)
    → IsValid l
    → IsValid (allow digest l caller now).0 × (callers (allow digest l caller now).0 ≤ l.max)
unfolding allow callers
allow-IsValid digest {l} caller now v =
    let v' = allow_id-IsValid (digest caller) now v in
    (v', omega (arith, v'.bounded, allow_id_fixed l (digest caller) now))
