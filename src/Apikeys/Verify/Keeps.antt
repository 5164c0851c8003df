-- ===== src/Apikeys/Verify/Keeps.antt =====
-- apikeys/verify.go: a check leaves the entries of the cache genuine, and gives its slot back.
use go_authbyte.Base.{
  ℕ, suc, ◌<◌, ◌≡◌, refl, sym, subst, inl, inr, Bool, true, false, Option, none, some, [], ◌∷◌, ltb,
  ltb→lt, Bool-cases, Bytes, ℕ_comparable, Bytes_comparable, Result, ok, err,
}
use mathlib.Core.Option
use go_authbyte.Apikeys.Stored.{StoredHash, Params}
use go_authbyte.Apikeys.Scheme.{ParsedKey, rehash_to}
use go_authbyte.Apikeys.Cache.{SuccessCache, put}
use go_authbyte.Apikeys.Cache.Bounds.{All-put}
use go_authbyte.Apikeys.Verify.{
  Services, Verifier, State, Found, malformed, unknown, corrupt, known, Admitted, answered,
  deriving_slot, ContextError, find_key, cached, take_slot, admit_found, admit, pass, judge, finish,
  verify, tag_matches, finish_admitted, spend,
}
use go_authbyte.Apikeys.Verify.Sound.{Genuine, GenuineEntry, CacheSound, Traced, find_key-Traced}

module _ {L E : Type 0} (w : Services L E) (v : Verifier) where
  remember-CacheSound :
      (c : Option SuccessCache) (now : ℕ) (k : ParsedKey) (stored : Bytes)
      → CacheSound w v c
      → Genuine w v k.secret stored
      → CacheSound w v (Option.map (λ c. put w.digest c k.lookup stored k.secret now) c)
  remember-CacheSound none now k stored c g = tt
  remember-CacheSound (some cache) now k stored c g =
      All-put (GenuineEntry w v) w.digest cache k.lookup stored k.secret now c (k.secret, refl, g)

  pass-CacheSound :
      (s : State L) (now : ℕ) (salt : Option Bytes) (k : ParsedKey) (stored : Bytes) (p : Params)
      → CacheSound w v s.cache
      → Genuine w v k.secret stored
      → CacheSound w v (pass w v s now salt k stored p).0.cache
  unfolding pass
  pass-CacheSound s now none k stored p c g = elim (Bool-cases (rehash_to v.scheme p).1) [
    | inl e ↦ rw e c
    | inr e ↦ rw e (remember-CacheSound s.cache now k stored c g)
  ]
  pass-CacheSound s now (some r) k stored p c g = elim (Bool-cases (rehash_to v.scheme p).1) [
    | inl e ↦ rw e c
    | inr e ↦ rw e (remember-CacheSound s.cache now k stored c g)
  ]

  judge-known-CacheSound :
      (key : Bytes) (s : State L) (now : ℕ) (salt : Option Bytes) (matches : Bool) (k : ParsedKey)
      (stored : Bytes) (st : StoredHash)
      → CacheSound w v s.cache
      → Traced w v key (known k stored st)
      → tag_matches w k.secret st ≡ matches
      → CacheSound w v (judge w v s now salt matches (known k stored st)).0.cache
  unfolding judge
  judge-known-CacheSound key s now salt false k stored st c t m = c
  judge-known-CacheSound key s now salt true k stored st c (parsed, found, decoded) m =
      pass-CacheSound s now salt k stored st.params c (st, decoded, m)

  -- The second step of a check leaves the entries of the cache genuine.
  pub finish-CacheSound :
      (key : Bytes) (s : State L) (now : ℕ) (expired : Option ContextError) (salt : Option Bytes)
      (f : Found)
      → CacheSound w v s.cache
      → Traced w v key f
      → CacheSound w v (finish w v s now expired salt f).0.cache
  unfolding finish judge
  finish-CacheSound key s now (some x) salt f c t = c
  finish-CacheSound key s now none salt malformed c t = c
  finish-CacheSound key s now none salt (unknown k) c t = c
  finish-CacheSound key s now none salt (corrupt k x) c t = c
  finish-CacheSound key s now none salt (known k stored st) c t =
      judge-known-CacheSound key (spend s st.params) now salt (tag_matches w k.secret st) k stored
        st c t refl

  -- What the first step leaves: the cache as it was, and a traced key where a slot is taken.
  abbrev pub Leaves : Bytes → State L → State L × Admitted E → Type 0
  Leaves key s (s', answered r) = (s'.cache ≡ s.cache) × (s'.spent ≡ s.spent) × (s'.slots ≡ s.slots)
  Leaves key s (s', deriving_slot f) =
      (s'.cache ≡ s.cache)
      × (s'.spent ≡ s.spent)
      × (s'.slots ≡ suc s.slots)
      × (s.slots < v.max_derives)
      × (find_key v.scheme w.find key ≡ ok f)

  take_slot-Leaves :
      (key : Bytes) (s : State L) (f : Found)
      → find_key v.scheme w.find key ≡ ok f
      → Leaves key s (take_slot v s f)
  unfolding take_slot
  take_slot-Leaves key s f h = elim (Bool-cases (ltb s.slots v.max_derives)) [
    | inl e ↦ rw e (refl, refl, refl, ltb→lt s.slots v.max_derives e, h)
    | inr e ↦ rw e (refl, refl, refl)
  ]

  admit_found-Leaves :
      (key : Bytes) (s : State L) (now : ℕ) (r : Result E Found)
      → find_key v.scheme w.find key ≡ r
      → Leaves key s (admit_found w v s now r)
  unfolding admit_found
  admit_found-Leaves key s now (err x) h = (refl, refl, refl)
  admit_found-Leaves key s now (ok f) h = elim (Bool-cases (cached w.digest s.cache now f)) [
    | inl e ↦ rw e (refl, refl, refl)
    | inr e ↦ rw e (take_slot-Leaves key s f h)
  ]

  -- The first step runs no derive and leaves the cache; it takes a slot only where one is free, for
  -- the key that was found.
  pub admit-Leaves :
      (s : State L) (now : ℕ) (caller key : Bytes) → Leaves key s (admit w v s now caller key)
  unfolding admit
  admit-Leaves s now [] key = (refl, refl, refl)
  admit-Leaves s now (b ∷ caller) key = elim (Bool-cases (w.allow s.limiter (b ∷ caller)).1.0) [
    | inl e ↦ rw e (
        admit_found-Leaves key (record s { limiter = (w.allow s.limiter (b ∷ caller)).0 }) now
          (find_key v.scheme w.find key) refl)
    | inr e ↦ rw e (refl, refl, refl)
  ]

  finish_admitted-CacheSound :
      (now : ℕ) (expired : Option ContextError) (salt : Option Bytes) (key : Bytes) (s : State L)
      (a : State L × Admitted E)
      → CacheSound w v s.cache
      → Leaves key s a
      → CacheSound w v (finish_admitted w v now expired salt a).0.cache
  unfolding finish
  finish_admitted-CacheSound now expired salt key s (s', answered r) c (same, _, _) =
      subst (CacheSound w v) (sym same) c
  finish_admitted-CacheSound now expired salt key s (s', deriving_slot f) c (same, _, _, _, found) =
      finish-CacheSound key s' now expired salt f (subst (CacheSound w v) (sym same) c)
        (find_key-Traced w v key f found)

  -- A check leaves the entries of the cache genuine, whatever its outcome.
  pub verify-CacheSound :
      (s : State L) (now : ℕ) (expired : Option ContextError) (salt : Option Bytes)
      (caller key : Bytes)
      → CacheSound w v s.cache
      → CacheSound w v (verify w v s now expired salt caller key).0.cache
  unfolding verify
  verify-CacheSound s now expired salt caller key c =
      finish_admitted-CacheSound now expired salt key s (admit w v s now caller key) c
        (admit-Leaves s now caller key)
