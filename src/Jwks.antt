-- ===== src/Jwks.antt =====
-- jwks/jwks.go: the cache of an issuer's public keys. What the issuer answers to a fetch is an
-- argument, and so is the type of keys; a time is the nanoseconds since the zero `time.Time`. The
-- lock makes each call of `cached` and of `refresh` one step.
pub mod Fetches
pub mod Rotation
mod Tests
use go_authbyte.Base.{
  ℕ, zero, suc, ◌-◌, ◌*◌, min, max, String, refl, sym, ap, subst, inl, inr, Bool, true, false, not,
  ◌&&◌, Option, none, some, List, [], ◌∷◌, map, append-nil, append_assoc, arith, ltb, leb, nat_eq,
  if◌then◌else◌, ltb→lt, lt→ltb, leb→le, le→leb, nat_eq_iff, Bool-cases, Option-cases, length, take,
  drop, get_elem?, replicate, all, any, length-append, take-append-drop, All, All-append,
  Comparable, ==_iff, ==_refl, Bytes, codes, bytes_eq, bytes_eq_iff, ℕ_comparable, Bytes_comparable,
  Result, ok, err, bind-ok, ok_or, ok_inj, reverse, reverse_aux,
}
use go_authbyte.Base.Map.{
  lookup, insert, retain, kept, Distinct, lookup-insert, insert-Distinct, lookup-retain,
  retain-Distinct, length-insert, length-retain,
}

-- A fetch, from building its request to decoding its body.
pub data Reply (K : Type 0) : Type 0 where
  bad_request unreachable unreadable unparsed : Reply K
  status : ℕ → Reply K
  key_set : List (Bytes × K) → Reply K

pub data KeyError : Type 0 where
  unknown_key request_refused fetch_failed body_refused parse_failed : KeyError
  unexpected_status : ℕ → KeyError

abbrev pub second : ℕ
second = 1000000000

abbrev default_min_refresh_interval : ℕ
default_min_refresh_interval = 30 * second

pub record Client (K : Type 0) : Type 0 where
  pub ttl : ℕ
  pub min_interval : ℕ
  pub keys : List (Bytes × K)
  pub fetched_at : ℕ
  pub last_attempt : ℕ

-- What an option may change of a client, below the HTTP client.
abbrev Setting : Type 0 → Type 0
Setting K = Client K → Client K

module _ {K : Type 0} where
  unfoldable pub with_min_refresh_interval : ℕ → Setting K
  with_min_refresh_interval d c = record c { min_interval = d }

  abbrev apply_all : List (Setting K) → Client K → Client K
  apply_all [] c = c
  apply_all (o ∷ opts) c = apply_all opts (o c)

  -- `New`
  unfoldable pub new : ℕ → List (Setting K) → Client K
  new ttl opts = apply_all opts (record {
    ttl = ttl;
    min_interval = default_min_refresh_interval;
    keys = [];
    fetched_at = 0;
    last_attempt = 0;
  })

  unfoldable pub cached : Client K → ℕ → Bytes → Option K
  cached c now kid = if ltb c.ttl (now - c.fetched_at) then none else lookup c.keys kid

  -- `for i := range set.Keys { keys[k.KeyID] = k.Key }`
  unfoldable pub indexed : List (Bytes × K) → List (Bytes × K) → List (Bytes × K)
  indexed m [] = m
  indexed m ((kid, k) ∷ set) = indexed (insert m kid k) set

  -- The statements of `refresh` behind its two early returns; `done` is the time when the body is
  -- decoded.
  unfoldable pub fetch : Client K → ℕ → Reply K → Client K × Option KeyError
  unfolding indexed
  fetch c done bad_request = (c, some request_refused)
  fetch c done unreachable = (c, some fetch_failed)
  fetch c done (status n) = (c, some (unexpected_status n))
  fetch c done unreadable = (c, some body_refused)
  fetch c done unparsed = (c, some parse_failed)
  fetch c done (key_set set) = (record c { keys = indexed [] set; fetched_at = done }, none)

  -- Whether `refresh` reaches the issuer.
  unfoldable pub fetches : Client K → ℕ → ℕ → Bool
  fetches c seen_at now =
      nat_eq c.fetched_at seen_at
      && not (not (nat_eq c.last_attempt 0) && ltb (now - c.last_attempt) c.min_interval)

  unfoldable pub refresh : Client K → ℕ → ℕ → ℕ → Reply K → Client K × Option KeyError
  unfolding fetches fetch
  refresh c seen_at now done reply =
      if fetches c seen_at now
      then fetch (record c { last_attempt = now }) done reply
      else (c, none)

  abbrev pub known : Option K → Result KeyError K
  known none = err unknown_key
  known (some k) = ok k

  -- `Key` behind the refresh, at the time `then_` of the second look.
  abbrev pub after_refresh : ℕ → Bytes → Client K × Option KeyError → Client K × Result KeyError K
  after_refresh last kid (c, some e) = (c, err e)
  after_refresh last kid (c, none) = (c, known (cached c last kid))

  abbrev pub or_refresh :
      Client K → Client K × Result KeyError K → Option K → Client K × Result KeyError K
  or_refresh c refreshed (some k) = (c, ok k)
  or_refresh c refreshed none = refreshed

  -- `Key` with no other call in between: the times of its four looks at the clock, and the reply.
  unfoldable pub key : Client K → ℕ → ℕ → ℕ → ℕ → Reply K → Bytes → Client K × Result KeyError K
  unfolding cached refresh
  key c first now done last reply kid =
      or_refresh c (after_refresh last kid (refresh c c.fetched_at now done reply))
        (cached c first kid)
