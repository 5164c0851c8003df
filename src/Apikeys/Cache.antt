-- ===== src/Apikeys/Cache.antt =====
-- apikeys/verify.go: the cache of passed checks. The order of the entries stands for the order in
-- which `range` goes through the map; SHA-256 is an argument, and the clock's time is given.
pub mod Bounds
mod Tests
use go_authbyte.Base.{
  ℕ, zero, suc, ◌+◌, min, max, String, refl, sym, ap, subst, inl, inr, Bool, true, false, not, ◌&&◌,
  Option, none, some, List, [], ◌∷◌, map, append-nil, append_assoc, arith, ltb, leb, nat_eq,
  if◌then◌else◌, ltb→lt, lt→ltb, leb→le, le→leb, nat_eq_iff, Bool-cases, Option-cases, length, take,
  drop, get_elem?, replicate, all, any, length-append, take-append-drop, All, All-append,
  Comparable, ◌==◌, ==_iff, ==_refl, Bytes, codes, bytes_eq, bytes_eq_iff, ℕ_comparable,
  Bytes_comparable, Result, ok, err, bind-ok, ok_or, ok_inj, reverse, reverse_aux,
}
use go_authbyte.Base.Map.{
  lookup, insert, retain, kept, Distinct, lookup-insert, insert-Distinct, lookup-retain,
  retain-Distinct, length-insert, length-retain,
}

pub record CacheEntry : Type 0 where
  pub stored : Bytes
  pub digest : Bytes
  pub expires : ℕ

pub record SuccessCache : Type 0 where
  pub ttl : ℕ
  pub size : ℕ
  pub entries : List (Bytes × CacheEntry)

abbrev pub Digest : Type 0
Digest = Bytes → Bytes

abbrev pub entry_hit : Digest → Option CacheEntry → Bytes → Bytes → ℕ → Bool
entry_hit digest none stored secret now = false
entry_hit digest (some e) stored secret now =
    ltb now e.expires && (e.stored == stored && e.digest == digest secret)

unfoldable pub hit : Digest → SuccessCache → Bytes → Bytes → Bytes → ℕ → Bool
hit digest c key stored secret now = entry_hit digest (lookup c.entries key) stored secret now

-- `for k := range c.entries`, until the size is below the bound.
unfoldable pub evict : ℕ → List (Bytes × CacheEntry) → List (Bytes × CacheEntry)
evict size [] = []
evict size (entry ∷ m) =
    let rest = evict size m in if ltb (length (entry ∷ m)) size then entry ∷ m else rest

-- The room that `put` makes.
unfoldable pub make_room : ℕ → ℕ → List (Bytes × CacheEntry) → List (Bytes × CacheEntry)
unfolding evict
make_room size now m = evict size (retain (λ e. ltb now e.1.expires) m)

abbrev pub is_held : Option CacheEntry → Bool
is_held none = false
is_held (some e) = true

unfoldable pub put : Digest → SuccessCache → Bytes → Bytes → Bytes → ℕ → SuccessCache
unfolding make_room
put digest c key stored secret now =
    let entry : CacheEntry = record {
      stored = stored;
      digest = digest secret;
      expires = now + c.ttl;
    } in
    let full = not (is_held (lookup c.entries key)) && leb c.size (length c.entries) in
    record c {
      entries = insert (if full then make_room c.size now c.entries else c.entries) key entry;
    }
