-- ===== src/Apikeys/Verify/Accepts.antt =====
-- apikeys/verify.go: the keys that pass, and the new stored string that a pass may hand back.
use go_authbyte.Base.{
  ℕ, suc, ◌<◌, max, ◌≡◌, refl, sym, ap, ◌∙◌, inl, inr, Bool, true, false, Option, none, some, ◌∷◌,
  arith, if◌then◌else◌, lt→ltb, nat_eq_iff, Bool-cases, length, drop, All, Bytes, bytes_eq_iff,
  ℕ_comparable, Bytes_comparable, ok,
}
use go_authbyte.Apikeys.Stored.{
  StoredHash, Params, decode_stored, in_bounds, at_least, higher, salt_len, tag_len,
}
use go_authbyte.Apikeys.Stored.RoundTrip.{FitsParams}
use go_authbyte.Apikeys.Encoding.Base64.{IsByte}
use go_authbyte.Apikeys.Scheme.{ParsedKey, parse, hash_with, rehash_to, mint_key}
use go_authbyte.Apikeys.Scheme.Mint.{
  IsDerive, AcceptsMinted, mint_key-parse, decode_stored-hash_with,
}
use go_authbyte.Apikeys.Scheme.Costs.{rehash_to_upgrade}
use go_authbyte.Apikeys.Verify.{
  Services, Verifier, State, Passed, known, find_key, cached, take_slot, admit_found, admit, pass,
  judge, finish, verify, tag_matches, finish_admitted, spend, remember,
}

module _ {L E : Type 0} (w : Services L E) (v : Verifier) where
  -- What the store and the family say of a text that is a known key.
  abbrev IsKnown : Bytes → ParsedKey → Bytes → StoredHash → Type 0
  IsKnown key k stored st =
      (parse v.scheme.name key ≡ some k)
      × (w.find k.lookup ≡ ok (some stored))
      × (decode_stored v.scheme.floor v.scheme.ceiling stored ≡ ok st)

  find_key-known :
      (key : Bytes) (k : ParsedKey) (stored : Bytes) (st : StoredHash)
      → IsKnown key k stored st
      → find_key v.scheme w.find key ≡ ok (known k stored st)
  unfolding find_key
  find_key-known key k stored st (parsed, found, decoded) = rw (parsed, found, decoded) refl

  finish-known :
      (s : State L) (now : ℕ) (salt : Option Bytes) (k : ParsedKey) (stored : Bytes)
      (st : StoredHash)
      → tag_matches w k.secret st ≡ true
      → (rehash_to v.scheme st.params).1 ≡ false
      → (finish w v s now none salt (known k stored st)).1
        ≡ ok (record { lookup = k.lookup; rehash = none })
  unfolding finish judge pass
  finish-known s now salt k stored st matches current = rw (matches, current) refl

  admit_found-known :
      (s : State L) (now later : ℕ) (salt : Option Bytes) (k : ParsedKey) (stored : Bytes)
      (st : StoredHash)
      → s.slots < v.max_derives
      → tag_matches w k.secret st ≡ true
      → (rehash_to v.scheme st.params).1 ≡ false
      → (finish_admitted w v later none salt (admit_found w v s now (ok (known k stored st)))).1
        ≡ ok (record { lookup = k.lookup; rehash = none })
  unfolding admit_found take_slot finish
  admit_found-known s now later salt k stored st free matches current =
      elim (Bool-cases (cached w.digest s.cache now (known k stored st))) [
        | inl e ↦ rw e refl
        | inr e ↦
            rw (e, lt→ltb s.slots v.max_derives free)
              (finish-known (record s { slots = suc s.slots }) later salt k stored st matches
                current)
      ]

  -- A key at the minted costs that the store knows and whose secret matches passes, if the limiter
  -- allows its caller, a slot is free and the context is not done.
  verify-known :
      (s : State L) (now : ℕ) (salt : Option Bytes) (c : ℕ) (caller key : Bytes) (k : ParsedKey)
      (stored : Bytes) (st : StoredHash)
      → (w.allow s.limiter (c ∷ caller)).1.0 ≡ true
      → s.slots < v.max_derives
      → IsKnown key k stored st
      → tag_matches w k.secret st ≡ true
      → (rehash_to v.scheme st.params).1 ≡ false
      → (verify w v s now none salt (c ∷ caller) key).1
        ≡ ok (record { lookup = k.lookup; rehash = none })
  unfolding verify admit
  verify-known s now salt c caller key k stored st allowed free is_known matches current =
      rw (allowed, find_key-known key k stored st is_known)
        (admit_found-known (record s { limiter = (w.allow s.limiter (c ∷ caller)).0 }) now now salt
          k stored st free matches current)

  rehash_to_mint : (rehash_to v.scheme v.scheme.mint).1 ≡ false
  unfolding rehash_to higher
  rehash_to_mint =
      ground
        (arith, nat_eq_iff (max v.scheme.mint.memory v.scheme.mint.memory) v.scheme.mint.memory)

  -- A minted key passes once the store has its stored string under its lookup part, if the limiter
  -- allows the caller, a slot is free and the context is not done.
  pub verify-mint_key :
      (s : State L) (now : ℕ) (salt : Option Bytes) (c : ℕ) (caller buf : Bytes)
      → IsDerive w.derive
      → AcceptsMinted v.scheme
      → All IsByte buf
      → length buf ≡ 45
      → w.find (mint_key w.derive v.scheme buf).lookup
        ≡ ok (some (mint_key w.derive v.scheme buf).hash)
      → (w.allow s.limiter (c ∷ caller)).1.0 ≡ true
      → s.slots < v.max_derives
      → (verify w v s now none salt (c ∷ caller) (mint_key w.derive v.scheme buf).key).1
        ≡ ok (record { lookup = (mint_key w.derive v.scheme buf).lookup; rehash = none })
  verify-mint_key s now salt c caller buf hd accepts hb size found allowed free =
      let m = mint_key w.derive v.scheme buf in
      let (secret, parsed, decoded) = mint_key-parse w.derive v.scheme buf hd accepts hb size in
      let k : ParsedKey = record { lookup = m.lookup; secret = secret } in
      let st : StoredHash = record {
        params = v.scheme.mint;
        salt = drop 29 buf;
        tag = w.derive secret (drop 29 buf) v.scheme.mint tag_len;
      } in
      let sized : length st.tag ≡ tag_len = (hd secret (drop 29 buf) v.scheme.mint tag_len).0 in
      verify-known s now salt c caller m.key k m.hash st allowed free (parsed, found, decoded)
        ((bytes_eq_iff (w.derive secret st.salt st.params (length st.tag)) st.tag).1
          (ap (w.derive secret st.salt st.params) sized))
        rehash_to_mint

  FitsParams-rehash_to :
      (p : Params) → FitsParams p → FitsParams v.scheme.mint → FitsParams (rehash_to v.scheme p).0
  unfolding rehash_to higher
  FitsParams-rehash_to p (a, b, c) (d, e, f) = (omega arith, omega arith, omega arith)

  some_pair :
      {a b c d : Bytes}
      → ◌≡◌ {A = Option (Bytes × Bytes)} (some (a, b)) (some (c, d))
      → (a ≡ c) × (b ≡ d)
  some_pair h = ground arith

  pass_new :
      (s : State L) (now : ℕ) (salt : Bytes) (k : ParsedKey) (stored new old : Bytes) (p : Params)
      → (pass w v s now (some salt) k stored p).1.rehash ≡ some (new, old)
      → (hash_with w.derive k salt (rehash_to v.scheme p).0 ≡ new) × (stored ≡ old)
  unfolding pass
  pass_new s now salt k stored new old p h = wanted (rehash_to v.scheme p).1 h
    where
      wanted :
          (b : Bool)
          → (if◌then◌else◌ {A = State L × Passed} b
              (
                spend s (rehash_to v.scheme p).0,
                record {
                  lookup = k.lookup;
                  rehash = some (hash_with w.derive k salt (rehash_to v.scheme p).0, stored);
                },
              )
              (remember w s now k stored, record { lookup = k.lookup; rehash = none })).1.rehash
            ≡ some (new, old)
          → (hash_with w.derive k salt (rehash_to v.scheme p).0 ≡ new) × (stored ≡ old)
      wanted true e = some_pair e
      wanted false e = cc

  -- The new stored string that a pass hands back is read with raised costs, is one that the key's
  -- secret matches, and needs no new one.
  pass_rehash :
      (s : State L) (now : ℕ) (salt : Bytes) (k : ParsedKey) (stored new old : Bytes) (p : Params)
      → IsDerive w.derive
      → All IsByte salt
      → length salt ≡ salt_len
      → FitsParams p
      → AcceptsMinted v.scheme
      → in_bounds v.scheme.floor v.scheme.ceiling p ≡ true
      → (pass w v s now (some salt) k stored p).1.rehash ≡ some (new, old)
      → (old ≡ stored)
        × (st : StoredHash) × (decode_stored v.scheme.floor v.scheme.ceiling new ≡ ok st)
        × (tag_matches w k.secret st ≡ true)
        × (at_least st.params p ≡ true)
        × ((rehash_to v.scheme st.params).1 ≡ false)
  unfolding pass
  pass_rehash s now salt k stored new old p hd hb size fits accepts within h =
      let (made, kept) = pass_new s now salt k stored new old p h in
      let up = rehash_to_upgrade v.scheme p accepts.1 within in
      let to = (rehash_to v.scheme p).0 in
      let st : StoredHash = record {
        params = to;
        salt = salt;
        tag = w.derive k.secret salt to tag_len;
      } in
      let sized : length st.tag ≡ tag_len = (hd k.secret salt to tag_len).0 in
      let decoded =
        decode_stored-hash_with w.derive v.scheme.floor v.scheme.ceiling to k salt hd hb
          (FitsParams-rehash_to p fits accepts.0) up.3 (omega arith) (omega arith) in
      (
        sym kept,
        st,
        ap (decode_stored v.scheme.floor v.scheme.ceiling) (sym made) ∙ decoded,
        (bytes_eq_iff (w.derive k.secret st.salt st.params (length st.tag)) st.tag).1
            (ap (w.derive k.secret st.salt st.params) sized),
        up.0,
        up.4,
      )
