-- ===== src/Apikeys/Verify/Running.antt =====
-- apikeys/verify.go: checks that run at the same time. A step begins a check or finishes any one of
-- those that hold a slot, in any order.
use go_authbyte.Base.{
  ℕ, suc, ◌-◌, ◌≤◌, ◌≡◌, refl, sym, ap, ◌∙◌, subst, Bool, true, false, Option, none, some, List, [],
  ◌∷◌, ◌++◌, arith, length, length-append, All, All-append, Bytes, ℕ_comparable, Bytes_comparable,
}
use go_authbyte.Apikeys.Stored.{Params}
use go_authbyte.Apikeys.Scheme.{ParsedKey}
use go_authbyte.Apikeys.Verify.{
  malformed, unknown, corrupt, known, pass, spend, hash_of, secret_of, tag_matches, Services,
  Verifier, State, Found, Admitted, answered, deriving_slot, ContextError, admit, finish, judge,
}
use go_authbyte.Apikeys.Verify.Sound.{CacheSound, Traced, find_key-Traced}
use go_authbyte.Apikeys.Verify.Keeps.{Leaves, admit-Leaves, finish-CacheSound}

-- The verifier's state, and the keys of the checks that hold a slot.
pub record System (L : Type 0) : Type 0 where
  pub state : State L
  pub running : List (Bytes × Found)

module _ {L E : Type 0} (w : Services L E) (v : Verifier) where
  abbrev pub begun : Bytes → List (Bytes × Found) → State L × Admitted E → System L
  begun key running (s, answered r) = record { state = s; running = running }
  begun key running (s, deriving_slot f) = record { state = s; running = (key, f) ∷ running }

  pub data Step : System L → System L → Type 0 where
    begin :
        (y : System L) (now : ℕ) (caller key : Bytes)
        → Step y (begun key y.running (admit w v y.state now caller key))
    end :
        (s : State L) (before after : List (Bytes × Found)) (key : Bytes) (f : Found) (now : ℕ)
        (expired : Option ContextError) (salt : Option Bytes)
        → Step
            (record { state = s; running = before ++ (key, f) ∷ after })
            (record { state = (finish w v s now expired salt f).0; running = before ++ after })

  pub data Steps : System L → System L → Type 0 where
    done : (y : System L) → Steps y y
    more : {x y z : System L} → Steps x y → Step y z → Steps x z

  abbrev IsTraced : Bytes × Found → Type 0
  IsTraced r = Traced w v r.0 r.1

  -- One slot is taken for each check that runs, and no more than the cap; each of them has found
  -- what the store says of its key, and the cache is genuine.
  abbrev pub IsRunning : System L → Type 0
  IsRunning y =
      (y.state.slots ≡ length y.running)
      × (y.state.slots ≤ v.max_derives)
      × CacheSound w v y.state.cache
      × All IsTraced y.running

  All-before : (xs ys : List (Bytes × Found)) → All IsTraced (xs ++ ys) → All IsTraced xs
  All-before [] ys h = tt
  All-before (x ∷ xs) ys (p, h) = (p, All-before xs ys h)

  All-after : (xs ys : List (Bytes × Found)) → All IsTraced (xs ++ ys) → All IsTraced ys
  All-after [] ys h = h
  All-after (x ∷ xs) ys (p, h) = All-after xs ys h

  pass-slots :
      (s : State L) (now : ℕ) (salt : Option Bytes) (k : ParsedKey) (stored : Bytes) (p : Params)
      → (pass w v s now salt k stored p).0.slots ≡ s.slots
  unfolding pass
  pass-slots s now none k stored p = ground arith
  pass-slots s now (some r) k stored p = ground arith

  judge-slots :
      (s : State L) (now : ℕ) (salt : Option Bytes) (matches : Bool) (f : Found)
      → (judge w v s now salt matches f).0.slots ≡ s.slots
  unfolding judge
  judge-slots s now salt matches malformed = refl
  judge-slots s now salt matches (unknown k) = refl
  judge-slots s now salt matches (corrupt k x) = refl
  judge-slots s now salt false (known k stored st) = refl
  judge-slots s now salt true (known k stored st) = pass-slots s now salt k stored st.params

  finish-slots :
      (s : State L) (now : ℕ) (expired : Option ContextError) (salt : Option Bytes) (f : Found)
      → (finish w v s now expired salt f).0.slots ≡ s.slots - 1
  unfolding finish
  finish-slots s now (some x) salt f = refl
  finish-slots s now none salt f =
      ap (λ n. n - 1)
        (judge-slots (spend s (hash_of v.scheme f).params) now salt
          (tag_matches w (secret_of f) (hash_of v.scheme f)) f)

  begun-IsRunning :
      (y : System L) (key : Bytes) (a : State L × Admitted E)
      → IsRunning y
      → Leaves w v key y.state a
      → IsRunning (begun key y.running a)
  begun-IsRunning y key (s, answered r) (count, cap, sound, traced) (same, _, slots) =
      (slots ∙ count, omega arith, subst (CacheSound w v) (sym same) sound, traced)
  begun-IsRunning y key (s, deriving_slot f) (count, cap, sound, traced)
        (same, _, slots, free, found) =
      (
        slots ∙ ap suc count,
        omega arith,
        subst (CacheSound w v) (sym same) sound,
        (find_key-Traced w v key f found, traced),
      )

  -- Every step keeps it.
  Step-IsRunning : {x y : System L} → Step x y → IsRunning x → IsRunning y
  Step-IsRunning (begin y now caller key) h =
      begun-IsRunning y key (admit w v y.state now caller key) h
        (admit-Leaves w v y.state now caller key)
  Step-IsRunning (end s before after key f now expired salt) (count, cap, sound, traced) =
      let slots = finish-slots s now expired salt f in
      (
        omega (arith, length-append before ((key, f) ∷ after), length-append before after),
        omega arith,
        finish-CacheSound w v key s now expired salt f sound
            (All-after before ((key, f) ∷ after) traced).0,
        All-append IsTraced before after (All-before before ((key, f) ∷ after) traced)
            (All-after before ((key, f) ∷ after) traced).1,
      )

  -- Whatever checks begin and finish, in whatever order, as many slots are taken as checks are
  -- between the slot and their return, never more than the cap, and the cache stays genuine.
  pub Steps-IsRunning : {x y : System L} → Steps x y → IsRunning x → IsRunning y
  Steps-IsRunning (done y) h = h
  Steps-IsRunning (more before step) h = Step-IsRunning step (Steps-IsRunning before h)
