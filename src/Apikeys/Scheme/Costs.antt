-- ===== src/Apikeys/Scheme/Costs.antt =====
-- apikeys/apikeys.go: the costs of a scheme, its floor and ceiling, and a stored string's upgrade.
use go_authbyte.Base.{
  ◌≤◌, ◌<◌, ◌≡◌, refl, Bool, true, false, not, Option, none, some, arith, if◌then◌else◌, Bytes,
  ℕ_comparable, Bytes_comparable, Result, ok, err,
}
use go_authbyte.Apikeys.Scheme.{
  Config, Scheme, SchemeError, bad_name, new_scheme, check_scheme, valid_scheme, params_or,
  rehash_to,
}
use go_authbyte.Apikeys.Stored.{
  Params, at_least, non_zero, higher, in_bounds, default_params, default_ceiling,
}

-- What a scheme promises: a valid name, minted costs between its floor and its ceiling, a floor that
-- is not below the memory and the passes of the defaults, and a dummy at the minted costs.
abbrev pub IsScheme : Scheme → Type 0
IsScheme s =
    (valid_scheme s.name ≡ true)
    × (in_bounds s.floor s.ceiling s.mint ≡ true)
    × (default_params.memory ≤ s.floor.memory)
    × (default_params.iterations ≤ s.floor.iterations)
    × (0 < s.floor.parallelism)
    × (s.dummy.params ≡ s.mint)

check_scheme_cases :
    (name : Bytes) (mint floor ceiling : Params) (salt tag : Option Bytes) (s : Scheme)
    → valid_scheme name ≡ true
    → check_scheme name mint floor ceiling salt tag ≡ ok s
    → IsScheme s
unfolding check_scheme at_least non_zero
check_scheme_cases name mint floor ceiling none tag s h k = ground arith
check_scheme_cases name mint floor ceiling (some salt) none s h k = ground arith
check_scheme_cases name mint floor ceiling (some salt) (some tag) s h k = ground arith

-- A scheme that `NewScheme` returns keeps those promises, whatever the configuration.
pub new_scheme-IsScheme :
    (c : Config) (salt tag : Option Bytes) (s : Scheme) → new_scheme c salt tag ≡ ok s → IsScheme s
unfolding new_scheme
new_scheme-IsScheme c salt tag s h = named (valid_scheme c.scheme) refl h
  where
    checked : Result SchemeError Scheme
    checked =
        check_scheme c.scheme (params_or default_params c.params) (params_or default_params c.floor)
          (params_or (higher default_ceiling (params_or default_params c.params)) c.ceiling) salt
          tag

    named :
        (b : Bool)
        → valid_scheme c.scheme ≡ b
        → (if not b then err bad_name else checked) ≡ ok s
        → IsScheme s
    named false e k = cc
    named true e k =
        check_scheme_cases c.scheme (params_or default_params c.params)
          (params_or default_params c.floor)
          (params_or (higher default_ceiling (params_or default_params c.params)) c.ceiling) salt
          tag s e k

-- An upgrade raises each cost to the minted one and lowers none, is asked for exactly if a cost is
-- below the minted one, stays between the floor and the ceiling, and needs no further upgrade.
pub rehash_to_upgrade :
    (s : Scheme) (p : Params)
    → in_bounds s.floor s.ceiling s.mint ≡ true
    → in_bounds s.floor s.ceiling p ≡ true
    → (at_least (rehash_to s p).0 p ≡ true)
      × (at_least (rehash_to s p).0 s.mint ≡ true)
      × ((rehash_to s p).1 ≡ not (at_least p s.mint))
      × (in_bounds s.floor s.ceiling (rehash_to s p).0 ≡ true)
      × ((rehash_to s (rehash_to s p).0).1 ≡ false)
unfolding rehash_to at_least higher
rehash_to_upgrade s p h k = (ground arith, ground arith, ground arith, ground arith, ground arith)
