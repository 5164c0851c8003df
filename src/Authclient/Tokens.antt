-- ===== src/Authclient/Tokens.antt =====
-- authclient/outbound.go and authclient/keyexchange.go: the tokens that a service asks for and keeps.
-- The token endpoint is a state of its own that answers each post; a time is the nanoseconds since
-- the zero `time.Time`, and each reading of the clock is given.
pub mod Keys
pub mod Grants
pub mod Origin
mod Refusals
mod Tests
use go_authbyte.Base.{
  ℕ, zero, suc, ◌+◌, ◌-◌, ◌*◌, ◌/◌, ◌%◌, ◌^◌, min, max, String, refl, sym, ap, subst, inl, inr,
  Bool, true, false, not, ◌&&◌, ◌||◌, Option, none, some, List, [], ◌∷◌, ◌++◌, map, append-nil,
  append_assoc, arith, ltb, leb, nat_eq, if◌then◌else◌, ltb→lt, lt→ltb, leb→le, le→leb, nat_eq_iff,
  Bool-cases, Option-cases, length, take, drop, get_elem?, replicate, all, any, length-append,
  take-append-drop, All, All-append, Comparable, ==_iff, ==_refl, Bytes, codes, bytes_eq,
  bytes_eq_iff, ℕ_comparable, Bytes_comparable, Result, ok, err, bind-ok, ok_or, ok_inj, reverse,
  reverse_aux,
}
use go_authbyte.Base.Map.{
  lookup, insert, retain, kept, Distinct, lookup-insert, insert-Distinct, lookup-retain,
  retain-Distinct, length-insert, length-retain,
}
use go_authbyte.Base.Integers.{ℤ, pos, negsuc}
use go_authbyte.Base.Texts.{is_empty, hex, to_bits, of_bits}
use go_authbyte.Apikeys.Scheme.{Secret, reveal}

abbrev second : ℕ
second = 1000000000

-- What of the configuration the outbound calls read.
pub record Outbound : Type 0 where
  pub client_id : Bytes
  pub client_secret : Bytes
  pub early_refresh : ℕ

pub record CachedToken : Type 0 where
  pub token : Bytes
  pub exp : ℕ
  pub not_after : ℕ

unfoldable pub servable : CachedToken → ℕ → ℕ → Bool
servable t now early = ltb (now + early) t.exp && (nat_eq t.not_after 0 || ltb now t.not_after)

-- `c.tokens`
abbrev pub Cache : Type 0
Cache = List (Bytes × CachedToken)

abbrev pub serve : ℕ → ℕ → Option CachedToken → Option Bytes
serve now early none = none
serve now early (some t) = if servable t now early then some t.token else none

unfoldable pub cached : Cache → Bytes → ℕ → ℕ → Option Bytes
unfolding servable
cached m key now early = serve now early (lookup m key)

unfoldable pub store : Cache → Bytes → CachedToken → ℕ → ℕ → Cache
unfolding servable
store m key t now early =
    let swept = retain (λ e. servable e.1 now early) m in
    if servable t now early then insert swept key t else swept

abbrev pub Form : Type 0
Form = List (Bytes × Bytes)

-- `if value != "" { form.Set(name, value) }`
abbrev pub optional : Bytes → Bytes → Form → Form
optional name [] form = form
optional name (c ∷ value) form = (name, c ∷ value) ∷ form

-- What a service asks a token for.
pub data Request : Type 0 where
  service : Bytes → Bytes → Bytes → Request
  delegated : Bytes → Bytes → Bytes → Request
  exchanged : Bytes → Bytes → Bytes → Request

abbrev pub token_type_access_token : Bytes
token_type_access_token = codes "urn:ietf:params:oauth:token-type:access_token"

-- `apikeys.TokenType`
abbrev pub token_type_api_key : Bytes
token_type_api_key = codes "urn:gmb:params:oauth:token-type:api-key"

abbrev pub grant_token_exchange : Bytes
grant_token_exchange = codes "urn:ietf:params:oauth:grant-type:token-exchange"

-- The forms of the two exchanges, which differ in the type of the subject token.
abbrev pub exchange_form : Outbound → Bytes → Bytes → Bytes → Bytes → Form
exchange_form o audience scope subject typ =
    (codes "grant_type", grant_token_exchange)
    ∷ (codes "client_id", o.client_id)
    ∷ (codes "client_secret", o.client_secret)
    ∷ (codes "audience", audience)
    ∷ (codes "subject_token", subject)
    ∷ (codes "subject_token_type", typ)
    ∷ optional (codes "scope") scope []

unfoldable pub form_of : Outbound → Request → Form
form_of o (service audience scope tenant) =
    (codes "grant_type", codes "client_credentials")
    ∷ (codes "client_id", o.client_id)
    ∷ (codes "client_secret", o.client_secret)
    ∷ (codes "audience", audience)
    ∷ optional (codes "scope") scope (optional (codes "tenant") tenant [])
form_of o (delegated audience scope subject) =
    exchange_form o audience scope subject token_type_access_token
form_of o (exchanged audience scope key) = exchange_form o audience scope key token_type_api_key

abbrev pub bar : ℕ
bar = b'|'

abbrev pub tenant_part : Bytes → Bytes
tenant_part [] = []
tenant_part (c ∷ tenant) = codes "|tenant=" ++ (c ∷ tenant)

-- The cache's key of a request; an exchange of an API key has none.
unfoldable pub service_key : Bytes → Bytes → Bytes → Bytes
service_key audience scope tenant = audience ++ bar ∷ (scope ++ tenant_part tenant)

unfoldable pub delegated_key : (Bytes → Bytes) → Bytes → Bytes → Bytes → Bytes
unfolding hex
delegated_key sha256 audience scope subject =
    codes "obo|" ++ (audience ++ bar ∷ (scope ++ bar ∷ hex (sha256 subject)))

-- An answer of the token endpoint.
pub record Response : Type 0 where
  pub status : ℕ
  pub dpop_nonce : Bytes
  pub retry_after : Bytes
  pub body : Bytes

-- A post that fails before an answer: in the proof, in the request or on the way.
pub data Failure : Type 0 where
  no_proof bad_request unreachable : Failure

pub data TokenError : Type 0 where
  failed : Failure → TokenError
  refused : ℕ → Bytes → Bytes → TokenError
  invalid_response nonce_unsatisfied empty_key : TokenError

-- The endpoint: a post of a form with a proof over a nonce, and the reading of an answer's body.
pub record Endpoint (W : Type 0) : Type 0 where
  pub post : W → Form → Bytes → W × Result Failure Response
  pub read_token : Bytes → Option (Bytes × ℤ)

-- The endpoint's state, with the nonces of the posts so far, the newest first.
pub record World (W : Type 0) : Type 0 where
  pub server : W
  pub posts : List Bytes

-- `time.Duration(tr.ExpiresIn) * time.Second`
unfoldable pub lifetime : ℤ → ℤ
lifetime expires_in = of_bits (to_bits expires_in * second % 2 ^ 64)

abbrev pub Issued : Type 0
Issued = Bytes × ℤ

-- A challenge: the answer asks for a proof over its nonce.
abbrev pub challenges : Response → Bool
challenges r = nat_eq r.status 401 && not (is_empty r.dpop_nonce)

abbrev pub read_issued : Option (Bytes × ℤ) → Result TokenError Issued
read_issued none = err invalid_response
read_issued (some (token, expires_in)) = ok (token, lifetime expires_in)

module _ {W : Type 0} where
  -- The answer of a post that is not a challenge to answer.
  unfoldable pub read_answer : Endpoint W → Response → Result TokenError Issued
  unfolding lifetime
  read_answer w r =
      if nat_eq (r.status / 100) 2
      then read_issued (w.read_token r.body)
      else err (refused r.status r.body r.retry_after)

  abbrev pub send : Endpoint W → World W → Form → Bytes → World W × Result Failure Response
  send w x form nonce =
      let (server, answer) = w.post x.server form nonce in
      (record { server = server; posts = nonce ∷ x.posts }, answer)

  -- The second round of the loop, in which no challenge is answered.
  unfoldable pub last_round :
      Endpoint W → World W × Result Failure Response → World W × Result TokenError Issued
  unfolding read_answer
  last_round w (x, err e) = (x, err (failed e))
  last_round w (x, ok r) = (x, read_answer w r)

  unfoldable pub first_round :
      Endpoint W → Form → World W × Result Failure Response → World W × Result TokenError Issued
  unfolding last_round
  first_round w form (x, err e) = (x, err (failed e))
  first_round w form (x, ok r) =
      if challenges r then last_round w (send w x form r.dpop_nonce) else (x, read_answer w r)

  -- `postTokenForm`: the first round's proof is over no nonce.
  unfoldable pub post_token_form : Endpoint W → World W → Form → World W × Result TokenError Issued
  unfolding first_round
  post_token_form w x form = first_round w form (send w x form [])

-- `time.Now().Add(ttl)`; what would lie before the zero time is the zero time.
abbrev pub add_duration : ℕ → ℤ → ℕ
add_duration now (pos n) = now + n
add_duration now (negsuc n) = now - suc n

-- The readings of the clock of one acquisition: at the look into the cache, at the token's arrival,
-- and at the store.
pub record Clock : Type 0 where
  pub looked : ℕ
  pub issued : ℕ
  pub stored : ℕ

pub record Client (W : Type 0) : Type 0 where
  pub tokens : Cache
  pub world : World W

module _ {W : Type 0} where
  abbrev pub kept_token : Outbound → Clock → Bytes → Option ℕ → Client W → Issued → Client W
  kept_token o t key none c (token, ttl) = c
  kept_token o t key (some not_after) c (token, ttl) = record c {
    tokens =
        store c.tokens key
          (record { token = token; exp = add_duration t.issued ttl; not_after = not_after })
          t.stored o.early_refresh;
  }

  abbrev pub keep :
      Outbound
      → Clock
      → Bytes
      → Option ℕ
      → Client W
      → World W × Result TokenError Issued
      → Client W × Result TokenError Bytes
  keep o t key not_after c (x, err e) = (record c { world = x }, err e)
  keep o t key not_after c (x, ok i) =
      (kept_token o t key not_after (record c { world = x }) i, ok i.0)

  -- The token in the cache under the key, or else a new one, kept if `not_after` is known.
  abbrev pub or_request :
      Endpoint W
      → Outbound
      → Clock
      → Bytes
      → Option ℕ
      → Form
      → Client W
      → Option Bytes
      → Client W × Result TokenError Bytes
  or_request w o t key not_after form c (some token) = (c, ok token)
  or_request w o t key not_after form c none =
      keep o t key not_after c (post_token_form w c.world form)

  unfoldable pub acquire_service_token_for_tenant :
      Endpoint W
      → Outbound
      → Clock
      → Client W
      → Bytes
      → Bytes
      → Bytes
      → Client W × Result TokenError Bytes
  unfolding cached store service_key form_of post_token_form
  acquire_service_token_for_tenant w o t c audience scope tenant =
      let key = service_key audience scope tenant in
      or_request w o t key (some 0) (form_of o (service audience scope tenant)) c
        (cached c.tokens key t.looked o.early_refresh)

  unfoldable pub acquire_service_token :
      Endpoint W → Outbound → Clock → Client W → Bytes → Bytes → Client W × Result TokenError Bytes
  unfolding acquire_service_token_for_tenant
  acquire_service_token w o t c audience scope =
      acquire_service_token_for_tenant w o t c audience scope []

  -- `expiry` reads the expiry that a subject token states, without its signature.
  unfoldable pub acquire_delegated_token :
      Endpoint W
      → Outbound
      → (Bytes → Bytes)
      → (Bytes → Option ℕ)
      → Clock
      → Client W
      → Bytes
      → Bytes
      → Bytes
      → Client W × Result TokenError Bytes
  unfolding cached store delegated_key form_of post_token_form
  acquire_delegated_token w o sha256 expiry t c audience scope subject =
      let key = delegated_key sha256 audience scope subject in
      or_request w o t key (expiry subject) (form_of o (delegated audience scope subject)) c
        (cached c.tokens key t.looked o.early_refresh)

  abbrev pub token_only :
      Client W → World W × Result TokenError Issued → Client W × Result TokenError Bytes
  token_only c (x, err e) = (record c { world = x }, err e)
  token_only c (x, ok i) = (record c { world = x }, ok i.0)

  unfoldable pub exchange_delegated_token :
      Endpoint W → Outbound → Client W → Bytes → Bytes → Bytes → Client W × Result TokenError Bytes
  unfolding form_of post_token_form
  exchange_delegated_token w o c audience scope subject =
      token_only c (post_token_form w c.world (form_of o (delegated audience scope subject)))

  unfoldable pub exchange_key :
      Endpoint W → Outbound → World W → Bytes → Bytes → Secret → World W × Result TokenError Issued
  unfolding form_of post_token_form reveal
  exchange_key w o x audience scope key =
      if is_empty (reveal key)
      then (x, err empty_key)
      else post_token_form w x (form_of o (exchanged audience scope (reveal key)))
