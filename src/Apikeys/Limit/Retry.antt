-- ===== src/Apikeys/Limit/Retry.antt =====
-- apikeys/limit.go: what a caller is promised: the retry delay, and a window's attempts at once.
use go_authbyte.Base.{
  ℕ, zero, suc, ◌+◌, ◌*◌, ◌≤◌, ◌<◌, ◌≡◌, refl, ap, ◌⊎◌, inl, true, false, some, arith, leb, length,
  replicate, ==_refl, Bytes, Bytes_comparable,
}
use go_authbyte.Base.Map.{lookup, lookup-insert}
use go_authbyte.Apikeys.Limit.{MemoryLimiter, take, allow_id, later, due_of, tracked}
use go_authbyte.Apikeys.Limit.Bounds.{IsValid, allow_id-IsValid, allow_id_fixed}
use go_authbyte.Apikeys.Limit.Rate.{is_shared, own_allowed}

-- The delay that a refused attempt carries is exact: the same allowance refuses every attempt
-- before it has passed, and allows one from then on.
take_retry :
    (l : MemoryLimiter) (due now after k : ℕ)
    → (take l due now).1 ≡ (false, after)
    → (0 < after) × ((take l (take l due now).0 (now + k)).1.0 ≡ leb after k)
unfolding take
take_retry l due now after k h = ground arith

burst_step :
    (id : Bytes) (now : ℕ) (l : MemoryLimiter)
    → (tracked (lookup l.due id) ≡ true) ⊎ (length l.due < l.max)
    → later (due_of (lookup l.due id)) now ≤ now + l.tolerance
    → (is_shared l id now ≡ false)
      × ((allow_id l id now).1.0 ≡ true)
      × (lookup (allow_id l id now).0.due id
          ≡ some (later (due_of (lookup l.due id)) now + l.interval))
unfolding allow_id
burst_step id now l room h =
    ground (arith, ==_refl id, lookup-insert l.due id id (take l (due_of (lookup l.due id)) now).0)

-- `n` attempts at once, while the allowance lasts.
burst :
    (id : Bytes) (now n : ℕ) (l : MemoryLimiter)
    → IsValid l
    → (tracked (lookup l.due id) ≡ true) ⊎ (length l.due < l.max)
    → later (due_of (lookup l.due id)) now + n * l.interval ≤ now + (l.interval + l.tolerance)
    → own_allowed id l (replicate n (id, now)) ≡ n
unfolding own_allowed
burst id now zero l v room h = refl
burst id now (suc n) l v room h =
    let (own, ok, due) = burst_step id now l room (omega arith) in
    let (_, same_i, same_tol) = allow_id_fixed l id now in
    rw (==_refl id, own, ok)
      (ap suc (
        burst id now n (allow_id l id now).0 (allow_id-IsValid id now v) (inl (ap tracked due))
          (rw (due, same_i, same_tol) (ground arith))))

-- A caller whose allowance is whole, and who is tracked or finds room in the table, may make a
-- whole window's attempts at once: all `n` attempts at one time are allowed if `n` intervals fit
-- the window.
own_allowed_burst :
    (id : Bytes) (now n : ℕ) (l : MemoryLimiter)
    → IsValid l
    → (tracked (lookup l.due id) ≡ true) ⊎ (length l.due < l.max)
    → due_of (lookup l.due id) ≤ now
    → n * l.interval ≤ l.interval + l.tolerance
    → own_allowed id l (replicate n (id, now)) ≡ n
own_allowed_burst id now n l v room whole fits = burst id now n l v room (ground arith)
