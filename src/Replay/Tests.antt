-- ===== src/Replay/Tests.antt =====
-- replay/replay.go: the model at fixed inputs, and instances of the theorems.
use go_authbyte.Base.{
  ℕ, ◌≡◌, refl, true, false, List, [], ◌∷◌, arith, Bytes, codes, ℕ_comparable, Bytes_comparable,
}
use go_authbyte.Base.Map.{lookup, insert, retain}
use go_authbyte.Replay.{new_memory, check_and_set, new_redis, redis_check_and_set}
use go_authbyte.Replay.Spec.{
  Call, answers, spec_answers, accepted, answers-spec_answers, accepted-check_and_set,
}

abbrev proof_of : Bytes → ℕ → Call
proof_of jti now = record { jti = jti; ttl = 5; now = now }

abbrev one : Bytes
one = codes "one"

abbrev two : Bytes
two = codes "two"

abbrev calls : List Call
calls = proof_of one 10 ∷ proof_of two 11 ∷ proof_of one 14 ∷ proof_of one 15 ∷ []

calls-answers : answers new_memory calls ≡ true ∷ true ∷ false ∷ true ∷ []
unfolding answers new_memory check_and_set lookup insert retain
calls-answers = refl

redis_key : redis_check_and_set (new_redis (λ key value ttl. key)) one 5 ≡ codes "dpop:jti:one"
unfolding redis_check_and_set new_redis
redis_key = refl

answers-spec_answers_example : answers new_memory calls ≡ spec_answers (λ _. 0) calls
answers-spec_answers_example = answers-spec_answers calls 10 15 (omega arith)

accepted-check_and_set_example :
    accepted one (check_and_set new_memory one 5 10).0 (proof_of two 11 ∷ proof_of one 14 ∷ []) ≡ 0
unfolding new_memory check_and_set lookup insert retain
accepted-check_and_set_example =
    accepted-check_and_set new_memory (proof_of one 10) (proof_of two 11 ∷ proof_of one 14 ∷ []) 14
      tt refl (omega arith) (omega arith)
