-- ===== src/Replay.antt =====
-- replay/replay.go: the store of DPoP proof identifiers that have been seen.
-- A time is the nanoseconds since the zero `time.Time`; `Sub` stops at 0 where the difference is
-- negative, as it is only compared with one second.
pub mod Spec
mod Tests
use go_authbyte.Base.{
  ℕ, zero, suc, ◌+◌, ◌-◌, min, max, String, refl, sym, ap, subst, inl, inr, Bool, true, false, not,
  Option, none, some, List, [], ◌++◌, map, append-nil, append_assoc, arith, ltb, leb, nat_eq,
  if◌then◌else◌, ltb→lt, lt→ltb, leb→le, le→leb, nat_eq_iff, Bool-cases, Option-cases, length,
  get_elem?, replicate, all, any, length-append, take-append-drop, All, All-append, Comparable,
  ==_iff, ==_refl, Bytes, codes, bytes_eq, bytes_eq_iff, ℕ_comparable, Bytes_comparable,
}
use go_authbyte.Base.Map.{
  lookup, insert, retain, kept, Distinct, lookup-insert, insert-Distinct, lookup-retain,
  retain-Distinct, length-insert, length-retain,
}

abbrev pub second : ℕ
second = 1000000000

pub record Memory : Type 0 where
  pub seen : List (Bytes × ℕ)
  pub last_gc : ℕ

unfoldable pub new_memory : Memory
new_memory = record { seen = []; last_gc = 0 }

unfoldable pub gc : Memory → ℕ → Memory
gc m now =
    if ltb (now - m.last_gc) second
    then m
    else record { seen = retain (λ e. ltb now e.1) m.seen; last_gc = now }

-- `exp, ok := m.seen[jti]; ok && exp.After(now)`
abbrev pub is_live : Option ℕ → ℕ → Bool
is_live none now = false
is_live (some exp) now = ltb now exp

-- The store after the call, and whether the identifier is seen for the first time; the error is
-- always nil.
unfoldable pub check_and_set : Memory → Bytes → ℕ → ℕ → Memory × Bool
unfolding gc
check_and_set m jti ttl now =
    if is_live (lookup m.seen jti) now
    then (m, false)
    else (gc (record m { seen = insert m.seen jti (now + ttl) }) now, true)

pub record Redis (Reply : Type 0) : Type 0 where
  -- `SET key value NX EX ttl` of the client
  pub set_nx : Bytes → ℕ → ℕ → Reply
  pub prefix : Bytes

unfoldable pub new_redis : {Reply : Type 0} → (Bytes → ℕ → ℕ → Reply) → Redis Reply
new_redis client = record { set_nx = client; prefix = codes "dpop:jti:" }

unfoldable pub redis_check_and_set : {Reply : Type 0} → Redis Reply → Bytes → ℕ → Reply
redis_check_and_set r jti ttl = r.set_nx (r.prefix ++ jti) 1 ttl
