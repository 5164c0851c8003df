-- ===== src/Apikeys/Verify.antt =====
-- apikeys/verify.go: the check of a presented key. A check is two steps: `admit`, up to the derive
-- slot, and `finish`, from the slot to its return; other checks may run between the two.
-- The limiter, the store, argon2id, SHA-256, the clock and the randomness are arguments; the state
-- keeps, beside the verifier's own, the costs of the derives run so far, the newest first.
pub mod Sound
pub mod Keeps
pub mod Spent
pub mod Running
pub mod Accepts
pub mod New
mod Tests
use mathlib.Core.Option
use go_authbyte.Base.{
  ℕ, zero, suc, ◌-◌, min, max, String, refl, sym, ap, subst, inl, inr, Bool, true, false, not,
  Option, none, some, List, [], ◌∷◌, map, append-nil, append_assoc, arith, ltb, leb, nat_eq,
  if◌then◌else◌, ltb→lt, lt→ltb, leb→le, le→leb, nat_eq_iff, Bool-cases, Option-cases, length, take,
  drop, get_elem?, replicate, all, any, length-append, take-append-drop, All, All-append,
  Comparable, ◌==◌, ==_iff, ==_refl, Bytes, codes, bytes_eq, bytes_eq_iff, ℕ_comparable,
  Bytes_comparable, Result, ok, err, bind-ok, ok_or, ok_inj, reverse, reverse_aux,
}
use go_authbyte.Apikeys.Stored.{Params, StoredHash, StoredError, decode_stored, higher}
use go_authbyte.Apikeys.Scheme.{Scheme, ParsedKey, Derive, parse, hash_with, rehash_to, secret_len}
use go_authbyte.Apikeys.Cache.{SuccessCache, Digest, hit, put}
use go_authbyte.Apikeys.Limit.{Answer}

-- The limiter with its state, and the store with its errors.
pub record Services (L E : Type 0) : Type 0 where
  pub allow : L → Bytes → L × Answer
  pub find : Bytes → Result E (Option Bytes)
  pub derive : Derive
  pub digest : Digest

pub record Verifier : Type 0 where
  pub scheme : Scheme
  pub max_derives : ℕ
  pub busy_after : ℕ

pub record State (L : Type 0) : Type 0 where
  pub limiter : L
  pub slots : ℕ
  pub cache : Option SuccessCache
  pub spent : List Params

-- `ctx.Err()`
pub data ContextError : Type 0 where
  canceled deadline_exceeded : ContextError

pub data VerifyError (E : Type 0) : Type 0 where
  no_caller invalid : VerifyError E
  limited busy : ℕ → VerifyError E
  unavailable : E → VerifyError E
  stored_hash : StoredError → VerifyError E
  context : ContextError → VerifyError E

-- The result of a passed check; `rehash` is the new stored string and the one that it replaces.
pub record Passed : Type 0 where
  pub lookup : Bytes
  pub rehash : Option (Bytes × Bytes)

-- What is known of the presented key before the slot.
pub data Found : Type 0 where
  malformed : Found
  unknown : ParsedKey → Found
  corrupt : ParsedKey → StoredError → Found
  known : ParsedKey → Bytes → StoredHash → Found

abbrev pub read_stored : ParsedKey → Bytes → Result StoredError StoredHash → Found
read_stored k stored (ok st) = known k stored st
read_stored k stored (err e) = corrupt k e

abbrev pub found_in : {E : Type 0} → Scheme → ParsedKey → Result E (Option Bytes) → Result E Found
found_in s k (err e) = err e
found_in s k (ok none) = ok (unknown k)
found_in s k (ok (some stored)) = ok (read_stored k stored (decode_stored s.floor s.ceiling stored))

abbrev pub find_parsed :
    {E : Type 0} → Scheme → (Bytes → Result E (Option Bytes)) → Option ParsedKey → Result E Found
find_parsed s find none = ok malformed
find_parsed s find (some k) = found_in s k (find k.lookup)

-- The key's shape, its lookup and the reading of its stored string.
unfoldable pub find_key :
    {E : Type 0} → Scheme → (Bytes → Result E (Option Bytes)) → Bytes → Result E Found
unfolding parse decode_stored
find_key s find key = find_parsed s find (parse s.name key)

abbrev pub cached : Digest → Option SuccessCache → ℕ → Found → Bool
cached digest none now f = false
cached digest (some c) now malformed = false
cached digest (some c) now (unknown k) = false
cached digest (some c) now (corrupt k e) = false
cached digest (some c) now (known k stored st) = hit digest c k.lookup stored k.secret now

abbrev pub lookup_part : Found → Bytes
lookup_part malformed = []
lookup_part (unknown k) = k.lookup
lookup_part (corrupt k e) = k.lookup
lookup_part (known k stored st) = k.lookup

abbrev pub secret_of : Found → Bytes
secret_of malformed = replicate secret_len 0
secret_of (unknown k) = k.secret
secret_of (corrupt k e) = k.secret
secret_of (known k stored st) = k.secret

-- The hash that the secret is checked against: the dummy, but for a known key.
abbrev pub hash_of : Scheme → Found → StoredHash
hash_of s malformed = s.dummy
hash_of s (unknown k) = s.dummy
hash_of s (corrupt k e) = s.dummy
hash_of s (known k stored st) = st

-- How `admit` ends: with the check's result, or with a slot taken.
pub data Admitted (E : Type 0) : Type 0 where
  answered : Result (VerifyError E) Passed → Admitted E
  deriving_slot : Found → Admitted E

-- One derive at the costs `p`.
abbrev pub spend : {L : Type 0} → State L → Params → State L
spend s p = record s { spent = p ∷ s.spent }

-- `<-v.slots`
abbrev release : {L : Type 0} → State L → State L
release s = record s { slots = s.slots - 1 }

module _ {L E : Type 0} where
  unfoldable pub take_slot : Verifier → State L → Found → State L × Admitted E
  take_slot v s f =
      if ltb s.slots v.max_derives
      then (record s { slots = suc s.slots }, deriving_slot f)
      else (s, answered (err (busy v.busy_after)))

  -- From the lookup's result to the slot.
  unfoldable pub admit_found :
      Services L E → Verifier → State L → ℕ → Result E Found → State L × Admitted E
  unfolding take_slot hit
  admit_found w v s now (err e) = (s, answered (err (unavailable e)))
  admit_found w v s now (ok f) =
      if cached w.digest s.cache now f
      then (s, answered (ok (record { lookup = lookup_part f; rehash = none })))
      else take_slot v s f

  unfoldable pub admit :
      Services L E → Verifier → State L → ℕ → Bytes → Bytes → State L × Admitted E
  unfolding find_key admit_found
  admit w v s now [] key = (s, answered (err no_caller))
  admit w v s now (c ∷ caller) key =
      let (l, (allowed, after)) = w.allow s.limiter (c ∷ caller) in
      let s' = record s { limiter = l } in
      if allowed
      then admit_found w v s' now (find_key v.scheme w.find key)
      else (s', answered (err (limited after)))

  abbrev pub remember : Services L E → State L → ℕ → ParsedKey → Bytes → State L
  remember w s now k stored = record s {
    cache = Option.map (λ c. put w.digest c k.lookup stored k.secret now) s.cache;
  }

  -- A passed check: the upgrade, if the randomness gives a salt, or else the cache.
  unfoldable pub pass :
      Services L E
      → Verifier
      → State L
      → ℕ
      → Option Bytes
      → ParsedKey
      → Bytes
      → Params
      → State L × Passed
  unfolding rehash_to hash_with put
  pass w v s now salt k stored p =
      let (to, wanted) = rehash_to v.scheme p in
      if wanted
      then elim salt [
        | none ↦ (s, record { lookup = k.lookup; rehash = none })
        | some r ↦ (
          spend s to,
          record { lookup = k.lookup; rehash = some (hash_with w.derive k r to, stored) },
        )
      ]
      else (remember w s now k stored, record { lookup = k.lookup; rehash = none })

  -- `errors` before a pass: a refused stored string, an unknown key, or one that does not match.
  unfoldable pub judge :
      Services L E
      → Verifier
      → State L
      → ℕ
      → Option Bytes
      → Bool
      → Found
      → State L × Result (VerifyError E) Passed
  unfolding pass
  judge w v s now salt matches malformed = (s, err invalid)
  judge w v s now salt matches (unknown k) = (s, err invalid)
  judge w v s now salt matches (corrupt k e) = (s, err (stored_hash e))
  judge w v s now salt matches (known k stored st) =
      if matches
      then (let (s', r) = pass w v s now salt k stored st.params in (s', ok r))
      else (s, err invalid)

  -- `ConstantTimeCompare(derive(…), st.tag) == 1`
  abbrev pub tag_matches : Services L E → Bytes → StoredHash → Bool
  tag_matches w secret st = w.derive secret st.salt st.params (length st.tag) == st.tag

  -- From the slot to the return, where the deferred function gives the slot back; `expired` is
  -- `ctx.Err()`, `salt` what the randomness gives for an upgrade.
  unfoldable pub finish :
      Services L E
      → Verifier
      → State L
      → ℕ
      → Option ContextError
      → Option Bytes
      → Found
      → State L × Result (VerifyError E) Passed
  unfolding judge
  finish w v s now (some e) salt f = (release s, err (context e))
  finish w v s now none salt f =
      let st = hash_of v.scheme f in
      let (s', r) = judge w v (spend s st.params) now salt (tag_matches w (secret_of f) st) f in
      (release s', r)

  abbrev pub finish_admitted :
      Services L E
      → Verifier
      → ℕ
      → Option ContextError
      → Option Bytes
      → State L × Admitted E
      → State L × Result (VerifyError E) Passed
  finish_admitted w v now expired salt (s, answered r) = (s, r)
  finish_admitted w v now expired salt (s, deriving_slot f) = finish w v s now expired salt f

  -- `Verify` with no other check in between.
  unfoldable pub verify :
      Services L E
      → Verifier
      → State L
      → ℕ
      → Option ContextError
      → Option Bytes
      → Bytes
      → Bytes
      → State L × Result (VerifyError E) Passed
  unfolding admit finish
  verify w v s now expired salt caller key =
      finish_admitted w v now expired salt (admit w v s now caller key)

-- `RetryAfter`
unfoldable pub retry_after : {E : Type 0} → VerifyError E → Option ℕ
retry_after (limited after) = some after
retry_after (busy after) = some after
retry_after _ = none

-- `HTTPStatus` of a check's result; a wrapped store error that is itself one of the refusals is
-- left out.
unfoldable pub http_status : {E : Type 0} → Result (VerifyError E) Passed → ℕ
http_status (ok r) = 200
http_status (err invalid) = 401
http_status (err (limited after)) = 429
http_status (err (busy after)) = 503
http_status (err (unavailable e)) = 503
http_status (err (context e)) = 503
http_status (err (stored_hash e)) = 500
http_status (err no_caller) = 500
