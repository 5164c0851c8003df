-- ===== src/Jwks/Rotation.antt =====
-- jwks/jwks.go: the keys that `Key` returns, and when a rotated key is found.
use go_authbyte.Base.{
  ℕ, ◌-◌, ◌≤◌, ◌≡◌, refl, ap, ◌∙◌, ◌⊎◌, inl, inr, true, Option, none, some, List, [], ◌∷◌, arith,
  if◌then◌else◌, nat_eq_iff, ◌==◌, Bytes, ℕ_comparable, Bytes_comparable, Result, ok, ok_inj,
}
use go_authbyte.Base.Map.{lookup, insert, lookup-insert}
use go_authbyte.Jwks.{
  Client, Reply, key_set, KeyError, cached, indexed, fetch, fetches, refresh, known, after_refresh,
  or_refresh, key,
}

module _ {K : Type 0} where
  -- The last key of the set with this identifier.
  abbrev last_of : Bytes → List (Bytes × K) → Option K → Option K
  last_of kid [] found = found
  last_of kid ((j, k) ∷ set) found = last_of kid set (if kid == j then some k else found)

  lookup-indexed :
      (m set : List (Bytes × K)) (kid : Bytes)
      → lookup (indexed m set) kid ≡ last_of kid set (lookup m kid)
  unfolding indexed
  lookup-indexed m [] kid = refl
  lookup-indexed m ((j, k) ∷ set) kid =
      lookup-indexed (insert m j k) set kid ∙ ap (last_of kid set) (lookup-insert m j kid k)

  cached-fresh :
      (c : Client K) (now : ℕ) (kid : Bytes) (k : K)
      → cached c now kid ≡ some k
      → (lookup c.keys kid ≡ some k) × (now - c.fetched_at ≤ c.ttl)
  unfolding cached
  cached-fresh c now kid k h = ground arith

  found-cached :
      (c : Client K) (now : ℕ) (kid : Bytes) (k : K)
      → lookup c.keys kid ≡ some k
      → now - c.fetched_at ≤ c.ttl
      → cached c now kid ≡ some k
  unfolding cached
  found-cached c now kid k h fresh = ground arith

  -- A key that is rotated in is found by the first call that asks for it, if the issuer answers
  -- with a set that has it, the last attempt is as long ago as the interval, and the two looks at
  -- the clock after the fetch lie within the time to live.
  key-key_set :
      (c : Client K) (first now done last : ℕ) (set : List (Bytes × K)) (kid : Bytes) (k : K)
      → cached c first kid ≡ none
      → c.min_interval ≤ now - c.last_attempt
      → last - done ≤ c.ttl
      → last_of kid set none ≡ some k
      → (key c first now done last (key_set set) kid).1 ≡ ok k
  unfolding key refresh fetch lookup
  key-key_set c first now done last set kid k miss due prompt has =
      let open_ : fetches c c.fetched_at now ≡ true =
        unfold fetches in ground (arith, nat_eq_iff c.fetched_at c.fetched_at) in
      rw (miss, open_)
        (ap known (
          found-cached (record c { keys = indexed [] set; fetched_at = done; last_attempt = now })
            last kid k (lookup-indexed [] set kid ∙ has) prompt))

  known-ok : (o : Option K) (k : K) → known o ≡ ok k → o ≡ some k
  known-ok none k h = cc
  known-ok (some j) k h = ap some (ok_inj h)

  -- The key of a set that was fetched no longer ago than the time to live.
  abbrev pub IsFresh : Client K → ℕ → Bytes → K → Type 0
  IsFresh c now kid k = (lookup c.keys kid ≡ some k) × (now - c.fetched_at ≤ c.ttl)

  after_refresh-IsFresh :
      (last : ℕ) (kid : Bytes) (r : Client K × Option KeyError) (k : K)
      → (after_refresh last kid r).1 ≡ ok k
      → IsFresh (after_refresh last kid r).0 last kid k
  unfolding cached
  after_refresh-IsFresh last kid (c, some e) k h = cc
  after_refresh-IsFresh last kid (c, none) k h =
      cached-fresh c last kid k (known-ok (cached c last kid) k h)

  or_refresh-IsFresh :
      (c : Client K) (first last : ℕ) (kid : Bytes) (r : Client K × Result KeyError K)
      (o : Option K) (k : K)
      → cached c first kid ≡ o
      → (r.1 ≡ ok k → IsFresh r.0 last kid k)
      → (or_refresh c r o).1 ≡ ok k
      → IsFresh (or_refresh c r o).0 first kid k ⊎ IsFresh (or_refresh c r o).0 last kid k
  or_refresh-IsFresh c first last kid r none k e h g = inr (h g)
  or_refresh-IsFresh c first last kid r (some j) k e h g =
      inl (cached-fresh c first kid k (e ∙ ap some (ok_inj g)))

  -- A key is returned only from the set that the client then holds, and only while that set is not
  -- older than the time to live, at the first look at the clock or at the last.
  pub key-IsFresh :
      (c : Client K) (first now done last : ℕ) (reply : Reply K) (kid : Bytes) (k : K)
      → (key c first now done last reply kid).1 ≡ ok k
      → IsFresh (key c first now done last reply kid).0 first kid k
        ⊎ IsFresh (key c first now done last reply kid).0 last kid k
  unfolding key
  key-IsFresh c first now done last reply kid k h =
      let r = after_refresh last kid (refresh c c.fetched_at now done reply) in
      or_refresh-IsFresh c first last kid r (cached c first kid) k refl
        (after_refresh-IsFresh last kid (refresh c c.fetched_at now done reply) k) h
