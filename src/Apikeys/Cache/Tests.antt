-- ===== src/Apikeys/Cache/Tests.antt =====
-- apikeys/verify.go: the cache at concrete entries.
use go_authbyte.Base.{◌≡◌, refl, true, false, [], codes}
use go_authbyte.Base.Map.{lookup, insert}
use go_authbyte.Apikeys.Cache.{SuccessCache, Digest, hit, put}

abbrev empty : SuccessCache
empty = record { ttl = 10; size = 1; entries = [] }

abbrev same : Digest
same s = s

hit_until_expiry :
    hit same
      (put same empty (codes "k") (codes "h") (codes "s") 5)
      (codes "k")
      (codes "h")
      (codes "s")
      14
    ≡ true
unfolding hit put lookup insert
hit_until_expiry = refl

miss_at_expiry :
    hit same
      (put same empty (codes "k") (codes "h") (codes "s") 5)
      (codes "k")
      (codes "h")
      (codes "s")
      15
    ≡ false
unfolding hit put lookup insert
miss_at_expiry = refl

miss_after_change :
    hit same
      (put same empty (codes "k") (codes "h") (codes "s") 5)
      (codes "k")
      (codes "new")
      (codes "s")
      6
    ≡ false
unfolding hit put lookup insert
miss_after_change = refl
