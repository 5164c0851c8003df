-- ===== src/Authclient/Calls.antt =====
-- authclient/background.go and the resource calls of authclient/outbound.go: requests with a token and
-- a fresh proof. The service called is a state of its own that answers each request; making the
-- proof and sending are one step of it.
pub mod Services
mod Nonces
mod Tests
use go_authbyte.Base.{
  ℕ, zero, suc, ◌/◌, min, max, String, refl, sym, ap, subst, inl, inr, Bool, true, false, not, ◌&&◌,
  Option, none, some, List, [], ◌∷◌, ◌++◌, map, append-nil, append_assoc, arith, ltb, leb, nat_eq,
  if◌then◌else◌, ltb→lt, lt→ltb, leb→le, le→leb, nat_eq_iff, Bool-cases, Option-cases, length, take,
  drop, get_elem?, replicate, all, any, length-append, take-append-drop, All, All-append,
  Comparable, ==_iff, ==_refl, Bytes, codes, bytes_eq, bytes_eq_iff, ℕ_comparable, Bytes_comparable,
  Result, ok, err, bind-ok, ok_or, ok_inj, reverse, reverse_aux,
}
use go_authbyte.Base.Map.{lookup, insert}
use go_authbyte.Base.Texts.{is_empty, to_upper, to_lower}
use go_authbyte.IdentityCode.Chars.{trim_space}
use go_authbyte.Authclient.Tokens.{
  Outbound, Endpoint, TokenError, Clock, Client, acquire_service_token,
  acquire_service_token_for_tenant, acquire_delegated_token,
}
use go_authbyte.Authclient.Headers.{
  Headers, canonical, first_of, get_header, set_header, add_header, add_all,
}

-- A request as it is sent; its proof is made of the method, the address, the token and the nonce,
-- and stands in the header DPoP.
pub record Sent : Type 0 where
  pub method : Bytes
  pub url : Bytes
  pub token : Bytes
  pub nonce : Bytes
  pub headers : Headers
  pub body : Option Bytes

pub record Answer : Type 0 where
  pub status : ℕ
  pub headers : Headers
  pub body : Bytes

-- A request that is not answered: in the proof, in the request or on the way.
pub data SendError : Type 0 where
  no_proof bad_request not_answered : SendError

pub record Resource (T : Type 0) : Type 0 where
  pub send : T → Sent → T × Result SendError Answer

pub data CallError : Type 0 where
  no_token : TokenError → CallError
  not_sent : SendError → CallError
  empty_token : CallError
  unexpected_status : ℕ → CallError
  bad_json : CallError

-- The client's nonces by audience, the service called, and the requests it was sent, the newest
-- first.
pub record Caller (T : Type 0) : Type 0 where
  pub nonces : List (Bytes × Bytes)
  pub resource : T
  pub sent : List Sent

-- What a call is asked to send.
pub record Asked : Type 0 where
  pub method : Bytes
  pub url : Bytes
  pub headers : Headers
  pub body : Option Bytes

abbrev text_or_empty : Option Bytes → Bytes
text_or_empty none = []
text_or_empty (some s) = s

-- What the caller's context carries: the name of the correlation header, and its value.
pub record Correlation : Type 0 where
  pub header : Bytes
  pub id : Bytes

-- `if cid != "" { req.Header.Set(propagation.HeaderCorrelationID, cid) }`
abbrev with_correlation : Correlation → Headers → Headers
with_correlation c h = if is_empty c.id then h else set_header h c.header c.id

-- `if body != nil && req.Header.Get("Content-Type") == ""`
abbrev with_content_type : Option Bytes → Headers → Headers
with_content_type none h = h
with_content_type (some body) h =
    if is_empty (get_header h (codes "Content-Type"))
    then set_header h (codes "Content-Type") (codes "application/json")
    else h

-- A request without its headers.
abbrev bare : Bytes → Asked → Bytes → Sent
bare token a nonce = record {
  method = map to_upper a.method;
  url = a.url;
  token = token;
  nonce = nonce;
  headers = [];
  body = a.body;
}

-- The request of a background call, with the proof in its header.
unfoldable pub background_request : (Sent → Bytes) → Correlation → Bytes → Asked → Bytes → Sent
unfolding add_all set_header get_header to_upper
background_request prove c token a nonce =
    let given = with_correlation c (add_all [] a.headers) in
    let proved =
      set_header (set_header given (codes "Authorization") (codes "DPoP " ++ token)) (codes "DPoP")
        (prove (bare token a nonce)) in
    record (bare token a nonce) { headers = with_content_type a.body proved }

-- The request of a call in a request's context; the framework's header keeps one value of a name.
unfoldable pub context_request : (Sent → Bytes) → Correlation → Bytes → Asked → Bytes → Sent
unfolding set_header to_upper
context_request prove c token a nonce =
    let proved =
      set_header (set_header [] (codes "Authorization") (codes "DPoP " ++ token)) (codes "DPoP")
        (prove (bare token a nonce)) in
    let correlated = with_correlation c proved in
    record (bare token a nonce) {
      headers = elim a.body [
        | none ↦ correlated
        | some b ↦ set_header correlated (codes "Content-Type") (codes "application/json")
      ];
    }

abbrev challenge_nonce : Answer → Bytes
challenge_nonce r = get_header r.headers (codes "DPoP-Nonce")

-- An answer that asks for a proof over its nonce.
abbrev pub challenges : Answer → Bool
challenges r = nat_eq r.status 401 && not (is_empty (challenge_nonce r))

abbrev pub answer_of : Result SendError Answer → Result CallError Answer
answer_of (err e) = err (not_sent e)
answer_of (ok r) = ok r

abbrev pub accept_2xx : Result CallError Answer → Result CallError Bytes
accept_2xx (err e) = err e
accept_2xx (ok r) =
    if nat_eq (r.status / 100) 2 then ok r.body else err (unexpected_status r.status)

module _ {T : Type 0} where
  unfoldable pub resource_nonce : Caller T → Bytes → Bytes
  resource_nonce c audience = text_or_empty (lookup c.nonces audience)

  unfoldable pub set_resource_nonce : Caller T → Bytes → Bytes → Caller T
  set_resource_nonce c audience nonce = record c { nonces = insert c.nonces audience nonce }

  abbrev pub transmit : Resource T → Caller T → Sent → Caller T × Result SendError Answer
  transmit w c s =
      let (x, r) = w.send c.resource s in (record c { resource = x; sent = s ∷ c.sent }, r)

  -- The first round's answer, or the second round's over the nonce that it asks for. The request is
  -- made by `build` of a nonce.
  abbrev pub after_first :
      Resource T
      → Bytes
      → (Bytes → Sent)
      → Caller T × Result SendError Answer
      → Caller T × Result CallError Answer
  after_first w key build (c, err e) = (c, err (not_sent e))
  after_first w key build (c, ok r) =
      let kept = set_resource_nonce c key (challenge_nonce r) in
      let (d, second) = transmit w kept (build (resource_nonce kept key)) in
      if challenges r then (d, answer_of second) else (c, ok r)

  unfoldable pub rounds :
      Resource T → Caller T → Bytes → (Bytes → Sent) → Caller T × Result CallError Answer
  unfolding set_resource_nonce resource_nonce get_header
  rounds w c key build = after_first w key build (transmit w c (build (resource_nonce c key)))

  -- `doBackgroundWith`; the transport does not matter here.
  unfoldable pub do_background :
      Resource T
      → (Sent → Bytes)
      → Correlation
      → Caller T
      → Bytes
      → Bytes
      → Asked
      → Caller T × Result CallError Answer
  unfolding rounds background_request
  do_background w prove x c key token a = rounds w c key (background_request prove x token a)

  unfoldable pub do_with_dpop :
      Resource T
      → (Sent → Bytes)
      → Correlation
      → Caller T
      → Bytes
      → Bytes
      → Asked
      → Caller T × Result CallError Bytes
  unfolding rounds context_request
  do_with_dpop w prove x c key token a =
      let (d, r) = rounds w c key (context_request prove x token a) in (d, accept_2xx r)

  unfoldable pub do_with_token :
      Resource T
      → (Sent → Bytes)
      → Correlation
      → Caller T
      → Bytes
      → Bytes
      → Asked
      → Caller T × Result CallError Answer
  unfolding do_background trim_space
  do_with_token w prove x c key token a =
      if is_empty (trim_space token)
      then (c, err empty_token)
      else do_background w prove x c key token a
