-- ===== src/Apikeys/Cache/Bounds.antt =====
-- apikeys/verify.go: the size of the cache, and which entries it holds.
use go_authbyte.Base.{
  ℕ, ◌+◌, ◌≤◌, ◌<◌, ◌≡◌, refl, inl, inr, Bool, true, false, not, ◌&&◌, Option, none, some, List, [],
  ◌∷◌, arith, ltb, leb, if◌then◌else◌, Bool-cases, length, All, Bytes, bytes_eq_iff, ℕ_comparable,
  Bytes_comparable,
}
use go_authbyte.Base.Map.{lookup, insert, retain, length-insert}
use go_authbyte.Base.Entries.{All-lookup, All-insert, All-retain}
use go_authbyte.Apikeys.Cache.{
  CacheEntry, SuccessCache, Digest, entry_hit, hit, evict, make_room, is_held, put,
}

length-evict : (size : ℕ) (m : List (Bytes × CacheEntry)) → 0 < size → length (evict size m) < size
unfolding evict
length-evict size [] h = h
length-evict size (entry ∷ m) h = ground (arith, length-evict size m)

-- The cache never grows past its size.
put-bound :
    (digest : Digest) (c : SuccessCache) (key stored secret : Bytes) (now : ℕ)
    → 0 < c.size
    → length c.entries ≤ c.size
    → length (put digest c key stored secret now).entries ≤ c.size
unfolding put make_room
put-bound digest c key stored secret now h k = ground (
  arith,
  length-insert c.entries key
      (record { stored = stored; digest = digest secret; expires = now + c.ttl }),
  length-insert (make_room c.size now c.entries) key
      (record { stored = stored; digest = digest secret; expires = now + c.ttl }),
  length-evict c.size (retain (λ e. ltb now e.1.expires) c.entries),
)

module _ (P : Bytes × CacheEntry → Type 0) where
  All-evict : (size : ℕ) (m : List (Bytes × CacheEntry)) → All P m → All P (evict size m)
  unfolding evict
  All-evict size [] h = tt
  All-evict size (entry ∷ m) (p, h) = elim (Bool-cases (ltb (length (entry ∷ m)) size)) [
    | inl e ↦ rw e (p, h)
    | inr e ↦ rw e (All-evict size m h)
  ]

  -- What holds of every entry still holds after `put`, if it holds of the new one.
  pub All-put :
      (digest : Digest) (c : SuccessCache) (key stored secret : Bytes) (now : ℕ)
      → All P c.entries
      → P (key, record { stored = stored; digest = digest secret; expires = now + c.ttl })
      → All P (put digest c key stored secret now).entries
  unfolding put make_room
  All-put digest c key stored secret now h p =
      go (not (is_held (lookup c.entries key)) && leb c.size (length c.entries))
    where
      go :
          (full : Bool)
          → All P (
              insert
                (if full then make_room c.size now c.entries else c.entries)
                key
                (record { stored = stored; digest = digest secret; expires = now + c.ttl }))
      go true =
          All-insert P (make_room c.size now c.entries) key
            (record { stored = stored; digest = digest secret; expires = now + c.ttl })
            (All-evict c.size (retain (λ e. ltb now e.1.expires) c.entries)
              (All-retain P (λ e. ltb now e.1.expires) c.entries h))
            p
      go false =
          All-insert P c.entries key
            (record { stored = stored; digest = digest secret; expires = now + c.ttl }) h p

  -- A hit is an entry for the lookup part, with the stored string and the digest of the secret.
  pub hit-All :
      (digest : Digest) (c : SuccessCache) (key stored secret : Bytes) (now : ℕ)
      → All P c.entries
      → hit digest c key stored secret now ≡ true
      → (e : CacheEntry) × P (key, e)
        × (e.stored ≡ stored)
        × (e.digest ≡ digest secret)
        × (now < e.expires)
  unfolding hit
  hit-All digest c key stored secret now h k = found (lookup c.entries key) refl k
    where
      found :
          (o : Option CacheEntry)
          → lookup c.entries key ≡ o
          → entry_hit digest o stored secret now ≡ true
          → (e : CacheEntry) × P (key, e)
            × (e.stored ≡ stored)
            × (e.digest ≡ digest secret)
            × (now < e.expires)
      found none e l = cc
      found (some entry) e l = (
        entry,
        All-lookup P c.entries key entry h e,
        ground (arith, bytes_eq_iff entry.stored stored),
        ground (arith, bytes_eq_iff entry.digest (digest secret)),
        ground arith,
      )
