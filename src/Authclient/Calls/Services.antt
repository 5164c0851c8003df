-- ===== src/Authclient/Calls/Services.antt =====
-- authclient/background.go and authclient/outbound.go: the calls with a token that the client acquires.
use go_authbyte.Base.{
  ℕ, Option, none, some, [], ◌∷◌, Bytes, codes, ℕ_comparable, Bytes_comparable, Result, ok, err,
}
use go_authbyte.Authclient.Tokens.{
  Outbound, Endpoint, TokenError, Clock, Client, acquire_service_token,
  acquire_service_token_for_tenant, acquire_delegated_token,
}
use go_authbyte.Authclient.Calls.{
  Resource, Caller, Sent, Answer, CallError, Asked, Correlation, do_background, do_with_dpop,
  no_token, bad_json,
}

-- The token, and then the call with it.
abbrev pub with_token :
    {W T A : Type 0}
    → Client W × Result TokenError Bytes
    → Caller T
    → (Bytes → Caller T × Result CallError A)
    → (Client W × Caller T) × Result CallError A
with_token (c, err e) d call = ((c, d), err (no_token e))
with_token (c, ok token) d call = let (d2, r) = call token in ((c, d2), r)

-- `if len(body) > 0 && v != nil { return json.Unmarshal(body, v) }`
abbrev pub unmarshal :
    {V : Type 0} → (Bytes → Option V) → Result CallError Bytes → Result CallError (Option V)
unmarshal decode (err e) = err e
unmarshal decode (ok []) = ok none
unmarshal decode (ok (b ∷ body)) = elim (decode (b ∷ body)) [
  | none ↦ err bad_json
  | some v ↦ ok (some v)
]

module _ {W T : Type 0} (e : Endpoint W) (o : Outbound) (w : Resource T) (prove : Sent → Bytes)
    (x : Correlation) (t : Clock) where
  unfoldable pub do_service :
      Client W → Caller T → Bytes → Bytes → Asked → (Client W × Caller T) × Result CallError Answer
  unfolding acquire_service_token do_background
  do_service c d audience scope a =
      with_token (acquire_service_token e o t c audience scope) d
        (λ token. do_background w prove x d audience token a)

  unfoldable pub do_service_for_tenant :
      Client W
      → Caller T
      → Bytes
      → Bytes
      → Bytes
      → Asked
      → (Client W × Caller T) × Result CallError Answer
  unfolding acquire_service_token_for_tenant do_background
  do_service_for_tenant c d audience scope tenant a =
      with_token (acquire_service_token_for_tenant e o t c audience scope tenant) d
        (λ token. do_background w prove x d audience token a)

  unfoldable pub do_service_on_behalf :
      (Bytes → Bytes)
      → (Bytes → Option ℕ)
      → Client W
      → Caller T
      → Bytes
      → Bytes
      → Bytes
      → Asked
      → (Client W × Caller T) × Result CallError Answer
  unfolding acquire_delegated_token do_background
  do_service_on_behalf sha256 expiry c d audience scope subject a =
      with_token (acquire_delegated_token e o sha256 expiry t c audience scope subject) d
        (λ token. do_background w prove x d audience token a)

  module _ {V : Type 0} (decode : Bytes → Option V) where
    abbrev pub decoded :
        (Client W × Caller T) × Result CallError Bytes
        → (Client W × Caller T) × Result CallError (Option V)
    decoded (s, r) = (s, unmarshal decode r)

    unfoldable pub get_json :
        Client W
        → Caller T
        → Bytes
        → Bytes
        → Bytes
        → (Client W × Caller T) × Result CallError (Option V)
    unfolding acquire_service_token do_with_dpop
    get_json c d audience scope url = decoded (
        with_token (acquire_service_token e o t c audience scope) d (λ token.
          do_with_dpop w prove x d audience token
            (record { method = codes "GET"; url = url; headers = []; body = none })))

    -- `none` of the request's body is one that does not encode.
    unfoldable pub post_json :
        Client W
        → Caller T
        → Bytes
        → Bytes
        → Bytes
        → Option Bytes
        → (Client W × Caller T) × Result CallError (Option V)
    unfolding acquire_service_token do_with_dpop
    post_json c d audience scope url none = ((c, d), err bad_json)
    post_json c d audience scope url (some body) = decoded (
        with_token (acquire_service_token e o t c audience scope) d (λ token.
          do_with_dpop w prove x d audience token
            (record { method = codes "POST"; url = url; headers = []; body = some body })))

    unfoldable pub get_json_on_behalf :
        (Bytes → Bytes)
        → (Bytes → Option ℕ)
        → Client W
        → Caller T
        → Bytes
        → Bytes
        → Bytes
        → Bytes
        → (Client W × Caller T) × Result CallError (Option V)
    unfolding acquire_delegated_token do_with_dpop
    get_json_on_behalf sha256 expiry c d audience scope subject url = decoded (
        with_token (acquire_delegated_token e o sha256 expiry t c audience scope subject) d
          (λ token.
            do_with_dpop w prove x d audience token
              (record { method = codes "GET"; url = url; headers = []; body = none })))

    unfoldable pub post_json_on_behalf :
        (Bytes → Bytes)
        → (Bytes → Option ℕ)
        → Client W
        → Caller T
        → Bytes
        → Bytes
        → Bytes
        → Bytes
        → Option Bytes
        → (Client W × Caller T) × Result CallError (Option V)
    unfolding acquire_delegated_token do_with_dpop
    post_json_on_behalf sha256 expiry c d audience scope subject url none = ((c, d), err bad_json)
    post_json_on_behalf sha256 expiry c d audience scope subject url (some body) = decoded (
        with_token (acquire_delegated_token e o sha256 expiry t c audience scope subject) d
          (λ token.
            do_with_dpop w prove x d audience token
              (record { method = codes "POST"; url = url; headers = []; body = some body })))
