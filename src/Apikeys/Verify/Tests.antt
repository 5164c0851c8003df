-- ===== src/Apikeys/Verify/Tests.antt =====
-- apikeys/verify.go: the checks of one key at a concrete store.
use go_authbyte.Base.{
  ℕ, zero, suc, ◌≡◌, refl, ap, true, none, some, [], ◌∷◌, ◌++◌, arith, length, replicate, All,
  Bytes, codes, ℕ_comparable, Bytes_comparable, ok, err,
}
use go_authbyte.Apikeys.Stored.{Params, default_params, default_ceiling, at_least}
use go_authbyte.Apikeys.Encoding.Base64.{IsByte}
use go_authbyte.Apikeys.Scheme.{Scheme, ParsedKey, Derive, mint_key, hash_with}
use go_authbyte.Apikeys.Scheme.Mint.{IsDerive}
use go_authbyte.Apikeys.Verify.{
  Services, Verifier, State, Found, malformed, known, invalid, admit, finish, verify, canceled,
}
use go_authbyte.Apikeys.Verify.Sound.{Passes, verify-Passes}
use go_authbyte.Apikeys.Verify.Spent.{upgrade_costs, finish-spent, finish_wrong}
use go_authbyte.Apikeys.Verify.Running.{System, begin, end, done, more, IsRunning, Steps-IsRunning}
use go_authbyte.Base.Integers.{pos, negsuc}
use go_authbyte.Apikeys.Limit.{second}
use go_authbyte.Apikeys.Verify.New.{
  VerifierConfig, Limiter, configured, new_verifier, negative_limits,
}
use go_authbyte.Apikeys.Verify.Accepts.{verify-mint_key}

abbrev scheme : Scheme
scheme = record {
  name = codes "gmb";
  mint = default_params;
  floor = default_params;
  ceiling = default_ceiling;
  dummy = record { params = default_params; salt = replicate 16 1; tag = replicate 32 2 };
}

abbrev verifier : Verifier
verifier = record { scheme = scheme; max_derives = 4; busy_after = 1 }

-- A stand-in for argon2id.
abbrev flat_derive : Derive
flat_derive secret salt p n = replicate n 7

replicate_sevens : (n : ℕ) → (length (replicate {A = ℕ} n 7) ≡ n) × All IsByte (replicate n 7)
replicate_sevens zero = (refl, tt)
replicate_sevens (suc n) = (ap suc (replicate_sevens n).0, (omega arith, (replicate_sevens n).1))

flat_derive-IsDerive : IsDerive flat_derive
flat_derive-IsDerive = λ secret salt p n. replicate_sevens n

abbrev zeros : Bytes
zeros = replicate 45 0

-- A limiter that allows every caller, and a store of the one minted key.
abbrev services : Services ℕ ℕ
services = record {
  allow = λ l caller. (suc l, (true, 0));
  find = λ key. ok (some (mint_key flat_derive scheme zeros).hash);
  derive = flat_derive;
  digest = λ s. s;
}

abbrev idle : State ℕ
idle = record {
  limiter = 0;
  slots = 0;
  cache = some (record { ttl = 10; size = 2; entries = [] });
  spent = [];
}

verify-mint_key_example :
    (verify services verifier idle 3 none none
      (codes "c")
      (mint_key flat_derive scheme zeros).key).1
    ≡ ok (record { lookup = (mint_key flat_derive scheme zeros).lookup; rehash = none })
unfolding at_least
verify-mint_key_example =
    verify-mint_key services verifier idle 3 none b'c' [] zeros flat_derive-IsDerive
      ((omega arith, omega arith, omega arith), refl) (omega arith) refl refl refl (omega arith)

verify-Passes_example :
    Passes services verifier
      (mint_key flat_derive scheme zeros).key
      (mint_key flat_derive scheme zeros).lookup
verify-Passes_example =
    verify-Passes services verifier idle 3 none none (codes "c")
      (mint_key flat_derive scheme zeros).key
      (record { lookup = (mint_key flat_derive scheme zeros).lookup; rehash = none }) tt
      verify-mint_key_example

abbrev parsed : ParsedKey
parsed = record { lookup = codes "00000000"; secret = replicate 32 b'A' }

abbrev cheap : Params
cheap = record { memory = 19456; iterations = 2; parallelism = 1 }

abbrev wrong : Found
wrong =
    known parsed (codes "h")
      (record { params = cheap; salt = replicate 16 0; tag = replicate 32 9 })

finish_wrong_example : finish services verifier (record idle { slots = 1 }) 3 none none wrong ≡ (
  record { limiter = 0; slots = 0; cache = idle.cache; spent = default_params ∷ [] },
  err invalid,
)
finish_wrong_example =
    finish_wrong services verifier (record idle { slots = 1 }) 3 none wrong refl (refl, refl)

finish-spent_example :
    (finish services verifier (record idle { slots = 1 }) 3 none none wrong).0.spent
    ≡ upgrade_costs services verifier cheap
        (finish services verifier (record idle { slots = 1 }) 3 none none wrong).1
      ++ cheap ∷ []
finish-spent_example = finish-spent services verifier (record idle { slots = 1 }) 3 none wrong

abbrev raised : Verifier
raised = record {
  scheme = record scheme { mint = record { memory = 20000; iterations = 2; parallelism = 1 } };
  max_derives = 4;
  busy_after = 1;
}

abbrev salt : Bytes
salt = replicate 16 5

abbrev new_hash : Bytes
new_hash = hash_with flat_derive parsed salt raised.scheme.mint

abbrev start : System ℕ
start = record { state = idle; running = [] }

abbrev one : System ℕ
one = record {
  state = record idle { limiter = 1; slots = 1 };
  running = (codes "bad", malformed) ∷ [];
}

abbrev two : System ℕ
two = record {
  state = (finish services verifier one.state 4 (some canceled) none malformed).0;
  running = [];
}

Steps-IsRunning_example : IsRunning services verifier two
unfolding admit
Steps-IsRunning_example =
    Steps-IsRunning services verifier
      (more (more (done start) (begin start 3 (codes "c") (codes "bad")))
        (end one.state [] [] (codes "bad") malformed 4 (some canceled) none))
      (refl, omega arith, tt, tt)

abbrev config : VerifierConfig ℕ
config = record {
  limiter = some 0;
  max_derives = pos 0;
  busy_retry_after = pos 0;
  cache_ttl = pos 10;
  cache_size = pos 0;
}

abbrev made : Verifier × State (Limiter ℕ)
made = (
  record { scheme = scheme; max_derives = 4; busy_after = second },
  record {
    limiter = configured 0;
    slots = 0;
    cache = some (record { ttl = 10; size = 1024; entries = [] });
    spent = [];
  },
)

abbrev made_services : Services (Limiter ℕ) ℕ
made_services = record {
  allow = λ l caller. (l, (true, 0));
  find = services.find;
  derive = flat_derive;
  digest = services.digest;
}

negative_is_refused :
    new_verifier scheme true (record config { max_derives = negsuc 0 }) ≡ err negative_limits
unfolding new_verifier
negative_is_refused = refl
