-- ===== src/Apikeys/Verify/Spent.antt =====
-- apikeys/verify.go: the derives that a check pays for once it has a slot.
use go_authbyte.Base.{
  ℕ, ◌-◌, ◌≡◌, refl, inl, inr, Bool, true, false, Option, none, some, List, [], ◌∷◌, ◌++◌,
  Bool-cases, Bytes, ℕ_comparable, Bytes_comparable, Result, ok, err,
}
use go_authbyte.Apikeys.Stored.{StoredHash, Params}
use go_authbyte.Apikeys.Scheme.{ParsedKey, rehash_to}
use go_authbyte.Apikeys.Verify.{
  Services, Verifier, State, Passed, VerifyError, Found, malformed, unknown, corrupt, known,
  hash_of, pass, judge, finish, tag_matches, spend, invalid,
}

module _ {L E : Type 0} (w : Services L E) (v : Verifier) where
  -- The derive of the new stored string, where a pass has one.
  abbrev rehash_costs : Params → Option (Bytes × Bytes) → List Params
  rehash_costs p none = []
  rehash_costs p (some r) = (rehash_to v.scheme p).0 ∷ []

  abbrev pub upgrade_costs : Params → Result (VerifyError E) Passed → List Params
  upgrade_costs p (err e) = []
  upgrade_costs p (ok r) = rehash_costs p r.rehash

  pass-spent :
      (s : State L) (now : ℕ) (salt : Option Bytes) (k : ParsedKey) (stored : Bytes) (p : Params)
      → (pass w v s now salt k stored p).0.spent
        ≡ upgrade_costs p (ok (pass w v s now salt k stored p).1) ++ s.spent
  unfolding pass
  pass-spent s now none k stored p = elim (Bool-cases (rehash_to v.scheme p).1) [
    | inl e ↦ rw e refl
    | inr e ↦ rw e refl
  ]
  pass-spent s now (some r) k stored p = elim (Bool-cases (rehash_to v.scheme p).1) [
    | inl e ↦ rw e refl
    | inr e ↦ rw e refl
  ]

  judge-known-spent :
      (s : State L) (now : ℕ) (salt : Option Bytes) (matches : Bool) (k : ParsedKey)
      (stored : Bytes) (st : StoredHash)
      → (judge w v s now salt matches (known k stored st)).0.spent
        ≡ upgrade_costs st.params (judge w v s now salt matches (known k stored st)).1 ++ s.spent
  unfolding judge
  judge-known-spent s now salt false k stored st = refl
  judge-known-spent s now salt true k stored st = pass-spent s now salt k stored st.params

  -- A check with a slot whose context is not done derives once at the costs of the hash that it
  -- checks against, and once more exactly if it passes with a new stored string.
  pub finish-spent :
      (s : State L) (now : ℕ) (salt : Option Bytes) (f : Found)
      → (finish w v s now none salt f).0.spent
        ≡ upgrade_costs (hash_of v.scheme f).params (finish w v s now none salt f).1
          ++ (hash_of v.scheme f).params ∷ s.spent
  unfolding finish judge
  finish-spent s now salt malformed = refl
  finish-spent s now salt (unknown k) = refl
  finish-spent s now salt (corrupt k x) = refl
  finish-spent s now salt (known k stored st) =
      judge-known-spent (spend s st.params) now salt (tag_matches w k.secret st) k stored st

  -- A malformed key, an unknown one, and a known one at the minted costs whose secret is wrong.
  abbrev IsWrong : Found → Type 0
  IsWrong malformed = Unit
  IsWrong (unknown k) = Unit
  IsWrong (corrupt k e) = ⊥
  IsWrong (known k stored st) = (st.params ≡ v.scheme.mint) × (tag_matches w k.secret st ≡ false)

  -- Such keys are refused alike: by the same error, for one derive at the minted costs, and with
  -- nothing else of the state changed but the slot that is given back.
  pub finish_wrong :
      (s : State L) (now : ℕ) (salt : Option Bytes) (f : Found)
      → v.scheme.dummy.params ≡ v.scheme.mint
      → IsWrong f
      → finish w v s now none salt f ≡ (
        record {
          limiter = s.limiter;
          slots = s.slots - 1;
          cache = s.cache;
          spent = v.scheme.mint ∷ s.spent;
        },
        err invalid,
      )
  unfolding finish judge
  finish_wrong s now salt malformed d h = rw d refl
  finish_wrong s now salt (unknown k) d h = rw d refl
  finish_wrong s now salt (corrupt k x) d h = absurd h
  finish_wrong s now salt (known k stored st) d (same, differs) = rw (differs, same) refl
