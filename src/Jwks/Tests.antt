-- ===== src/Jwks/Tests.antt =====
-- jwks/jwks.go: a client at concrete replies.
use go_authbyte.Base.{
  ℕ, ◌*◌, ◌≤◌, ◌≡◌, refl, ◌⊎◌, List, [], ◌∷◌, arith, Bytes, codes, ℕ_comparable, Bytes_comparable,
  ok, err,
}
use go_authbyte.Base.Map.{lookup, insert}
use go_authbyte.Jwks.{
  Client, status, key_set, new, with_min_refresh_interval, cached, key, refresh, second,
  unknown_key,
}
use go_authbyte.Jwks.Fetches.{Call, fetched, fetched-bound}
use go_authbyte.Jwks.Rotation.{IsFresh, key-IsFresh}

abbrev client : Client ℕ
client = record {
  ttl = 300 * second;
  min_interval = 30 * second;
  keys = (codes "old", 1) ∷ [];
  fetched_at = 100 * second;
  last_attempt = 100 * second;
}

new_example :
    new {K = ℕ} 5 (with_min_refresh_interval 7 ∷ [])
    ≡ record { ttl = 5; min_interval = 7; keys = []; fetched_at = 0; last_attempt = 0 }
unfolding new with_min_refresh_interval
new_example = refl

abbrev rotated : List (Bytes × ℕ)
rotated = (codes "old", 1) ∷ (codes "new", 2) ∷ []

too_soon_is_unknown :
    (key client
      (110 * second)
      (110 * second)
      (111 * second)
      (111 * second)
      (key_set rotated)
      (codes "new")).1
    ≡ err unknown_key
unfolding key cached lookup refresh
too_soon_is_unknown = refl

rotated_is_found :
    (key client
      (140 * second)
      (140 * second)
      (141 * second)
      (141 * second)
      (key_set rotated)
      (codes "new")).1
    ≡ ok 2
unfolding key cached lookup refresh insert
rotated_is_found = refl

abbrev renewed : Client ℕ
renewed =
    (key client (140 * second) (140 * second) (141 * second) (141 * second) (key_set rotated)
      (codes "new")).0

key-IsFresh_example :
    IsFresh renewed (140 * second) (codes "new") 2 ⊎ IsFresh renewed (141 * second) (codes "new") 2
unfolding lookup
key-IsFresh_example =
    key-IsFresh client (140 * second) (140 * second) (141 * second) (141 * second) (key_set rotated)
      (codes "new") 2 rotated_is_found

abbrev calls : List (Call ℕ)
calls =
    record { seen_at = 100 * second; now = 140 * second; done = 141 * second; reply = status 500 }
    ∷ record {
      seen_at = 100 * second;
      now = 150 * second;
      done = 151 * second;
      reply = key_set rotated;
    }
    ∷ []

fetched-bound_example : fetched client calls ≤ 1
fetched-bound_example =
    fetched-bound (140 * second) client calls
      ((omega arith, omega arith, omega arith), ((omega arith, omega arith, omega arith), tt))
