-- ===== src/Replay/Spec.antt =====
-- replay/replay.go: the memory store against a store that forgets nothing.
use go_authbyte.Base.{
  ℕ, suc, ◌+◌, ◌≤◌, ◌<◌, ◌≡◌, refl, sym, ◌∙◌, inl, inr, Bool, true, false, not, ◌&&◌, some, List,
  [], ◌∷◌, arith, ltb, if◌then◌else◌, Bool-cases, ◌==◌, ==_iff, ==_refl, Bytes, ℕ_comparable,
  Bytes_comparable,
}
use mathlib.Core.Path.{ap₂}
use go_authbyte.Base.Map.{
  lookup, insert, kept, Distinct, lookup-insert, insert-Distinct, lookup-retain, retain-Distinct,
}
use go_authbyte.Replay.{new_memory, Memory, gc, is_live, check_and_set}

-- A call: the identifier, how long its proof is valid, and the time.
pub record Call : Type 0 where
  pub jti : Bytes
  pub ttl : ℕ
  pub now : ℕ

-- The calls come in the order of their times, from `t` to `last`.
abbrev pub Ordered : ℕ → List Call → ℕ → Type 0
Ordered t [] last = t ≤ last
Ordered t (c ∷ calls) last = (t ≤ c.now) × Ordered c.now calls last

Ordered-le : (t : ℕ) (calls : List Call) (last : ℕ) → Ordered t calls last → t ≤ last
Ordered-le t [] last h = h
Ordered-le t (c ∷ calls) last h = omega (arith, Ordered-le c.now calls last h.1)

-- The answers of the store to a run of calls.
unfoldable pub answers : Memory → List Call → List Bool
answers m [] = []
answers m (c ∷ calls) =
    let rest = answers (check_and_set m c.jti c.ttl c.now).0 calls in
    (check_and_set m c.jti c.ttl c.now).1 ∷ rest

-- The specification: every identifier ever accepted, with the time until which its proof is valid.
abbrev Ledger : Type 0
Ledger = Bytes → ℕ

abbrev accept : Ledger → Call → Ledger
accept f c = λ j. if j == c.jti then c.now + c.ttl else f j

abbrev replayed : Ledger → Call → Bool
replayed f c = ltb c.now (f c.jti)

abbrev pub next : Ledger → Call → Ledger
next f c = if replayed f c then f else accept f c

unfoldable pub spec_answers : Ledger → List Call → List Bool
spec_answers f [] = []
spec_answers f (c ∷ calls) = let rest = spec_answers (next f c) calls in not (replayed f c) ∷ rest

-- The store and the ledger say the same of every proof that is still valid at `t`.
record Agrees (m : Memory) (f : Ledger) (t : ℕ) : Type 0 where
  distinct : Distinct m.seen
  live : (j : Bytes) (now : ℕ) → t ≤ now → is_live (lookup m.seen j) now ≡ ltb now (f j)

-- A collection only forgets what is no longer valid.
gc-live :
    (m : Memory) (now u : ℕ) (j : Bytes)
    → Distinct m.seen
    → now ≤ u
    → is_live (lookup (gc m now).seen j) u ≡ is_live (lookup m.seen j) u
unfolding gc
gc-live m now u j d h = ground (arith, lookup-retain (λ e. ltb now e.1) m.seen j d)

gc-Distinct : (m : Memory) (now : ℕ) → Distinct m.seen → Distinct (gc m now).seen
unfolding gc
gc-Distinct m now d = ground (arith, retain-Distinct (λ e. ltb now e.1) m.seen d)

remember : Memory → Call → Memory
remember m c = record m { seen = insert m.seen c.jti (c.now + c.ttl) }

-- Recording a proof agrees with the ledger's.
remember-Agrees :
    (m : Memory) (f : Ledger) (t : ℕ) (c : Call)
    → Agrees m f t
    → t ≤ c.now
    → Agrees (gc (remember m c) c.now) (accept f c) c.now
unfolding remember
remember-Agrees m f t c a h =
    let d = insert-Distinct m.seen c.jti (c.now + c.ttl) a.distinct in
    record {
      distinct = gc-Distinct _ c.now d;
      live = λ j u k.
          gc-live (remember m c) c.now u j d k
          ∙ ground (arith, lookup-insert m.seen c.jti j (c.now + c.ttl), a.live j u);
    }

module _ (m : Memory) (f : Ledger) (t : ℕ) (c : Call) (a : Agrees m f t) (h : t ≤ c.now) where
  check-eq : (check_and_set m c.jti c.ttl c.now).1 ≡ not (replayed f c)
  unfolding check_and_set
  check-eq = ground (arith, a.live c.jti c.now h)

  check_and_set-Agrees : Agrees (check_and_set m c.jti c.ttl c.now).0 (next f c) c.now
  unfolding check_and_set remember
  check_and_set-Agrees = elim (Bool-cases (is_live (lookup m.seen c.jti) c.now)) [
    | inl e ↦
        rw (e, sym (a.live c.jti c.now h) ∙ e)
          (record { distinct = a.distinct; live = λ j u k. a.live j u (omega arith) })
    | inr e ↦ rw (e, sym (a.live c.jti c.now h) ∙ e) (remember-Agrees m f t c a h)
  ]

answers-eq :
    (m : Memory) (f : Ledger) (calls : List Call) (t last : ℕ)
    → Agrees m f t
    → Ordered t calls last
    → answers m calls ≡ spec_answers f calls
unfolding answers spec_answers
answers-eq m f [] t last a o = refl
answers-eq m f (c ∷ calls) t last a (h, o) = ap₂ ◌∷◌ (check-eq m f t c a h) (
    answers-eq (check_and_set m c.jti c.ttl c.now).0 (next f c) calls c.now last
      (check_and_set-Agrees m f t c a h) o)

-- Over any run of calls in the order of their times, the store answers as one that forgets
-- nothing: a proof identifier is refused exactly while an accepted proof that carried it is valid,
-- and the collections in between change no answer.
pub answers-spec_answers :
    (calls : List Call) (t last : ℕ)
    → Ordered t calls last
    → answers new_memory calls ≡ spec_answers (λ _. 0) calls
unfolding new_memory lookup
answers-spec_answers calls t last o =
    answers-eq new_memory (λ _. 0) calls t last
      (record { distinct = tt; live = λ j u k. ground arith }) o

-- How often a run accepts an identifier.
unfoldable pub accepted : Bytes → Memory → List Call → ℕ
accepted j m [] = 0
accepted j m (c ∷ calls) =
    let rest = accepted j (check_and_set m c.jti c.ttl c.now).0 calls in
    if c.jti == j && (check_and_set m c.jti c.ttl c.now).1 then suc rest else rest

-- The store never holds an identifier twice.
pub check_and_set-Distinct :
    (m : Memory) (c : Call) → Distinct m.seen → Distinct (check_and_set m c.jti c.ttl c.now).0.seen
unfolding check_and_set
check_and_set-Distinct m c d = ground (
  arith,
  insert-Distinct m.seen c.jti (c.now + c.ttl) d,
  retain-Distinct (λ e. ltb c.now e.1) m.seen d,
  retain-Distinct (λ e. ltb c.now e.1) (insert m.seen c.jti (c.now + c.ttl)),
)

-- An entry stays as long as it is valid, whatever is called in between.
pub keeps_live :
    (m : Memory) (c : Call) (j : Bytes) {exp : ℕ}
    → Distinct m.seen
    → lookup m.seen j ≡ some exp
    → c.now < exp
    → (lookup (check_and_set m c.jti c.ttl c.now).0.seen j ≡ some exp)
      × ((c.jti == j && (check_and_set m c.jti c.ttl c.now).1) ≡ false)
unfolding check_and_set
keeps_live m c j d e h = ground (
  arith,
  ==_iff c.jti j,
  ==_iff j c.jti,
  lookup-insert m.seen c.jti j (c.now + c.ttl),
  insert-Distinct m.seen c.jti (c.now + c.ttl) d,
  lookup-retain (λ e. ltb c.now e.1) (insert m.seen c.jti (c.now + c.ttl)) j,
)

live_accepted :
    (m : Memory) (calls : List Call) (j : Bytes) (exp t last : ℕ)
    → Distinct m.seen
    → lookup m.seen j ≡ some exp
    → Ordered t calls last
    → last < exp
    → accepted j m calls ≡ 0
unfolding accepted
live_accepted m [] j exp t last d e o h = refl
live_accepted m (c ∷ calls) j exp t last d e (k, o) h =
    let (kept, refused) = keeps_live m c j d e (omega (arith, Ordered-le c.now calls last o)) in
    rw refused (
      live_accepted (check_and_set m c.jti c.ttl c.now).0 calls j exp c.now last
        (check_and_set-Distinct m c d) kept o h)

pub accept_entry :
    (m : Memory) (c : Call)
    → Distinct m.seen
    → 0 < c.ttl
    → (check_and_set m c.jti c.ttl c.now).1 ≡ true
    → lookup (check_and_set m c.jti c.ttl c.now).0.seen c.jti ≡ some (c.now + c.ttl)
unfolding check_and_set
accept_entry m c d p h = ground (
  arith,
  ==_refl c.jti,
  lookup-insert m.seen c.jti c.jti (c.now + c.ttl),
  insert-Distinct m.seen c.jti (c.now + c.ttl) d,
  lookup-retain (λ e. ltb c.now e.1) (insert m.seen c.jti (c.now + c.ttl)) c.jti,
)

-- A proof accepted at one call is accepted by no later call before it expires, whatever other
-- calls come in between: the store holds no identifier twice, and the calls are in the order of
-- their times, the last before the proof's expiry.
pub accepted-check_and_set :
    (m : Memory) (c : Call) (calls : List Call) (last : ℕ)
    → Distinct m.seen
    → (check_and_set m c.jti c.ttl c.now).1 ≡ true
    → Ordered c.now calls last
    → last < c.now + c.ttl
    → accepted c.jti (check_and_set m c.jti c.ttl c.now).0 calls ≡ 0
accepted-check_and_set m c calls last d e o h =
    live_accepted _ calls c.jti (c.now + c.ttl) c.now last (check_and_set-Distinct m c d)
      (accept_entry m c d (omega (arith, Ordered-le c.now calls last o)) e) o h
