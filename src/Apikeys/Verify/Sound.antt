-- ===== src/Apikeys/Verify/Sound.antt =====
-- apikeys/verify.go: a check passes only for a key that the store knows and whose secret matches.
use go_authbyte.Base.{
  ℕ, ◌≡◌, refl, sym, ap, ◌∙◌, subst, inl, inr, Bool, true, false, Option, none, some, [], ◌∷◌,
  arith, ltb, Bool-cases, All, Bytes, ℕ_comparable, Bytes_comparable, Result, ok, err, ok_inj,
}
use go_authbyte.Apikeys.Stored.{StoredHash, StoredError, Params, decode_stored}
use go_authbyte.Apikeys.Scheme.{ParsedKey, parse}
use go_authbyte.Apikeys.Cache.{CacheEntry, SuccessCache}
use go_authbyte.Apikeys.Cache.Bounds.{hit-All}
use go_authbyte.Apikeys.Verify.{
  Services, Verifier, State, Passed, Found, malformed, unknown, corrupt, known, Admitted, answered,
  deriving_slot, ContextError, read_stored, found_in, find_parsed, find_key, cached, take_slot,
  admit_found, admit, pass, judge, finish, verify, tag_matches, lookup_part, finish_admitted, spend,
}

module _ {L E : Type 0} (w : Services L E) (v : Verifier) where
  -- The secret is the one behind the stored string.
  abbrev pub Genuine : Bytes → Bytes → Type 0
  Genuine secret stored =
      (st : StoredHash) × (decode_stored v.scheme.floor v.scheme.ceiling stored ≡ ok st)
      × (tag_matches w secret st ≡ true)

  -- An entry of the cache has the digest of a secret that is genuine for its stored string.
  abbrev pub GenuineEntry : Bytes × CacheEntry → Type 0
  GenuineEntry e = (secret : Bytes) × (w.digest secret ≡ e.1.digest) × Genuine secret e.1.stored

  abbrev pub CacheSound : Option SuccessCache → Type 0
  CacheSound none = Unit
  CacheSound (some c) = All GenuineEntry c.entries

  -- The text is a key of the family whose lookup part the store knows, and a secret with the digest
  -- of the key's secret is genuine for the stored string.
  abbrev pub Passes : Bytes → Bytes → Type 0
  Passes key lookup =
      (k : ParsedKey) × (stored : Bytes) × (parse v.scheme.name key ≡ some k)
      × (w.find k.lookup ≡ ok (some stored))
      × (k.lookup ≡ lookup)
      × (secret : Bytes) × (w.digest secret ≡ w.digest k.secret)
      × Genuine secret stored

  -- What `find_key` has found of a known key.
  abbrev pub Traced : Bytes → Found → Type 0
  Traced key malformed = Unit
  Traced key (unknown k) = Unit
  Traced key (corrupt k e) = Unit
  Traced key (known k stored st) =
      (parse v.scheme.name key ≡ some k)
      × (w.find k.lookup ≡ ok (some stored))
      × (decode_stored v.scheme.floor v.scheme.ceiling stored ≡ ok st)

  read_stored-Traced :
      (key : Bytes) (k : ParsedKey) (stored : Bytes) (r : Result StoredError StoredHash)
      → parse v.scheme.name key ≡ some k
      → w.find k.lookup ≡ ok (some stored)
      → decode_stored v.scheme.floor v.scheme.ceiling stored ≡ r
      → Traced key (read_stored k stored r)
  read_stored-Traced key k stored (ok st) h i e = (h, i, e)
  read_stored-Traced key k stored (err x) h i e = tt

  found_in-Traced :
      (key : Bytes) (k : ParsedKey) (r : Result E (Option Bytes)) (f : Found)
      → parse v.scheme.name key ≡ some k
      → w.find k.lookup ≡ r
      → found_in v.scheme k r ≡ ok f
      → Traced key f
  found_in-Traced key k (err x) f h i e = cc
  found_in-Traced key k (ok none) f h i e = subst (Traced key) (ok_inj e) tt
  found_in-Traced key k (ok (some stored)) f h i e = subst (Traced key) (ok_inj e) (
      read_stored-Traced key k stored (decode_stored v.scheme.floor v.scheme.ceiling stored) h i
        refl)

  find_parsed-Traced :
      (key : Bytes) (o : Option ParsedKey) (f : Found)
      → parse v.scheme.name key ≡ o
      → find_parsed v.scheme w.find o ≡ ok f
      → Traced key f
  find_parsed-Traced key none f h e = subst (Traced key) (ok_inj e) tt
  find_parsed-Traced key (some k) f h e = found_in-Traced key k (w.find k.lookup) f h refl e

  pub find_key-Traced :
      (key : Bytes) (f : Found) → find_key v.scheme w.find key ≡ ok f → Traced key f
  unfolding find_key
  find_key-Traced key f e = find_parsed-Traced key (parse v.scheme.name key) f refl e

  cached-Passes :
      (key : Bytes) (c : Option SuccessCache) (now : ℕ) (f : Found)
      → CacheSound c
      → Traced key f
      → cached w.digest c now f ≡ true
      → Passes key (lookup_part f)
  cached-Passes key none now f h t e = cc
  cached-Passes key (some c) now malformed h t e = cc
  cached-Passes key (some c) now (unknown k) h t e = cc
  cached-Passes key (some c) now (corrupt k x) h t e = cc
  cached-Passes key (some c) now (known k stored st) h (parsed, found, decoded) e =
      let (entry, (secret, digest, genuine), same, same_digest, fresh) =
        hit-All GenuineEntry w.digest c k.lookup stored k.secret now h e in
      (
        k,
        stored,
        parsed,
        found,
        refl,
        secret,
        digest ∙ same_digest,
        subst (Genuine secret) same genuine,
      )

  pass-lookup :
      (s : State L) (now : ℕ) (salt : Option Bytes) (k : ParsedKey) (stored : Bytes) (p : Params)
      → (pass w v s now salt k stored p).1.lookup ≡ k.lookup
  unfolding pass
  pass-lookup s now none k stored p = ground arith
  pass-lookup s now (some r) k stored p = ground arith

  judge-known-Passes :
      (key : Bytes) (s : State L) (now : ℕ) (salt : Option Bytes) (matches : Bool) (k : ParsedKey)
      (stored : Bytes) (st : StoredHash) (r : Passed)
      → Traced key (known k stored st)
      → tag_matches w k.secret st ≡ matches
      → (judge w v s now salt matches (known k stored st)).1 ≡ ok r
      → Passes key r.lookup
  unfolding judge
  judge-known-Passes key s now salt false k stored st r t m e = cc
  judge-known-Passes key s now salt true k stored st r (parsed, found, decoded) m e = (
    k,
    stored,
    parsed,
    found,
    sym (pass-lookup s now salt k stored st.params) ∙ ap (λ q. q.lookup) (ok_inj e),
    k.secret,
    refl,
    (st, decoded, m),
  )

  finish-Passes :
      (key : Bytes) (s : State L) (now : ℕ) (expired : Option ContextError) (salt : Option Bytes)
      (f : Found) (r : Passed)
      → Traced key f
      → (finish w v s now expired salt f).1 ≡ ok r
      → Passes key r.lookup
  unfolding finish judge
  finish-Passes key s now (some x) salt f r t e = cc
  finish-Passes key s now none salt malformed r t e = cc
  finish-Passes key s now none salt (unknown k) r t e = cc
  finish-Passes key s now none salt (corrupt k x) r t e = cc
  finish-Passes key s now none salt (known k stored st) r t e =
      judge-known-Passes key (spend s st.params) now salt (tag_matches w k.secret st) k stored st r
        t refl e

  -- What `admit` returns, for the proofs below: a pass from the cache, or a traced key with a slot.
  abbrev Sound : Bytes → Admitted E → Type 0
  Sound key (answered (ok r)) = Passes key r.lookup
  Sound key (answered (err x)) = Unit
  Sound key (deriving_slot f) = Traced key f

  take_slot-Sound :
      (key : Bytes) (s : State L) (f : Found) → Traced key f → Sound key (take_slot v s f).1
  unfolding take_slot
  take_slot-Sound key s f t = elim (Bool-cases (ltb s.slots v.max_derives)) [
    | inl e ↦ rw e t
    | inr e ↦ rw e tt
  ]

  admit_found-Sound :
      (key : Bytes) (s : State L) (now : ℕ) (r : Result E Found)
      → find_key v.scheme w.find key ≡ r
      → CacheSound s.cache
      → Sound key (admit_found w v s now r).1
  unfolding admit_found
  admit_found-Sound key s now (err x) h c = tt
  admit_found-Sound key s now (ok f) h c = elim (Bool-cases (cached w.digest s.cache now f)) [
    | inl e ↦ rw e (cached-Passes key s.cache now f c (find_key-Traced key f h) e)
    | inr e ↦ rw e (take_slot-Sound key s f (find_key-Traced key f h))
  ]

  admit-Sound :
      (s : State L) (now : ℕ) (caller key : Bytes)
      → CacheSound s.cache
      → Sound key (admit w v s now caller key).1
  unfolding admit
  admit-Sound s now [] key c = tt
  admit-Sound s now (b ∷ caller) key c = elim (Bool-cases (w.allow s.limiter (b ∷ caller)).1.0) [
    | inl e ↦ rw e (
        admit_found-Sound key (record s { limiter = (w.allow s.limiter (b ∷ caller)).0 }) now
          (find_key v.scheme w.find key) refl c)
    | inr e ↦ rw e tt
  ]

  finish_admitted-Passes :
      (now : ℕ) (expired : Option ContextError) (salt : Option Bytes) (key : Bytes) (s : State L)
      (a : Admitted E) (r : Passed)
      → Sound key a
      → (finish_admitted w v now expired salt (s, a)).1 ≡ ok r
      → Passes key r.lookup
  unfolding finish
  finish_admitted-Passes now expired salt key s (answered (ok q)) r h e =
      subst (Passes key) (ap (λ q. q.lookup) (ok_inj e)) h
  finish_admitted-Passes now expired salt key s (answered (err x)) r h e = cc
  finish_admitted-Passes now expired salt key s (deriving_slot f) r h e =
      finish-Passes key s now expired salt f r h e

  -- A check passes only for a text that is a key of the family, whose lookup part the store knows at
  -- the time of the check, with a readable stored string, and then only if a secret with the same
  -- digest as the key's is genuine for that stored string: for a revoked key none passes. The
  -- entries of the cache are assumed genuine.
  pub verify-Passes :
      (s : State L) (now : ℕ) (expired : Option ContextError) (salt : Option Bytes)
      (caller key : Bytes) (r : Passed)
      → CacheSound s.cache
      → (verify w v s now expired salt caller key).1 ≡ ok r
      → Passes key r.lookup
  unfolding verify
  verify-Passes s now expired salt caller key r c e =
      finish_admitted-Passes now expired salt key (admit w v s now caller key).0
        (admit w v s now caller key).1 r (admit-Sound s now caller key c) e
