-- ===== src/Asclient.antt =====
-- asclient/client.go: the calls of a service that signs people in, to the authorization server. The
-- server is a state of its own that answers each request; the encoding of forms, HTTP Basic and JSON
-- are arguments.
pub mod SignIn
pub mod Connections
pub mod Labels
mod Ends
mod Tests
use go_authbyte.Base.{
  ℕ, zero, suc, min, max, String, refl, sym, ap, subst, inl, inr, Bool, true, false, not, ◌&&◌,
  Option, none, some, List, [], ◌∷◌, ◌++◌, map, append-nil, append_assoc, arith, ltb, leb, nat_eq,
  if◌then◌else◌, ltb→lt, lt→ltb, leb→le, le→leb, nat_eq_iff, Bool-cases, Option-cases, length, take,
  drop, get_elem?, replicate, all, any, length-append, take-append-drop, All, All-append,
  Comparable, ==_iff, ==_refl, Bytes, codes, bytes_eq, bytes_eq_iff, ℕ_comparable, Bytes_comparable,
  Result, ok, err, bind-ok, ok_or, ok_inj, reverse, reverse_aux,
}
use go_authbyte.Base.Texts.{is_empty, trim_slash}
use go_authbyte.Authclient.Tokens.{Form, optional}
use go_authbyte.Authclient.Headers.{Headers, set_header, get_header}
use go_authbyte.Authclient.Calls.{Sent, Answer, SendError, Resource}

pub record Client : Type 0 where
  pub public_url : Bytes
  pub internal_url : Bytes
  pub client_id : Bytes
  pub client_secret : Bytes
  pub redirect_uri : Bytes
  pub issuer : Bytes

abbrev pub Setting : Type 0
Setting = Client → Client

unfoldable pub with_client_secret : Bytes → Setting
with_client_secret secret c = record c { client_secret = secret }

unfoldable pub with_issuer : Bytes → Setting
with_issuer issuer c = record c { issuer = issuer }

abbrev apply_all : List Setting → Client → Client
apply_all [] c = c
apply_all (o ∷ opts) c = apply_all opts (o c)

-- `New`, below the HTTP client and the key set.
unfoldable pub new : Bytes → Bytes → Bytes → Bytes → List Setting → Client
new public_url internal_url client_id redirect_uri opts = apply_all opts (record {
  public_url = trim_slash public_url;
  internal_url = trim_slash internal_url;
  client_id = client_id;
  client_secret = [];
  redirect_uri = redirect_uri;
  issuer = [];
})

-- What the code calls: the proof of a request by the session's key, the encodings, and HTTP Basic.
pub record Libraries : Type 0 where
  pub prove : Sent → Bytes
  pub encode_form : Form → Bytes
  pub query_escape : Bytes → Bytes
  pub path_escape : Bytes → Bytes
  pub basic : Bytes → Bytes → Bytes
  pub correlation_header : Bytes
  pub correlation_id : Bytes

pub data CallError : Type 0 where
  not_sent : SendError → CallError
  -- *Error
  responded : ℕ → Bytes → CallError
  bad_json : CallError
  nothing_named : CallError

-- The server, and the requests it was sent, the newest first.
pub record Wire (T : Type 0) : Type 0 where
  pub resource : T
  pub sent : List Sent

-- What a call sends, below the proof.
pub record Ask : Type 0 where
  pub method : Bytes
  pub path : Bytes
  pub access_token : Bytes
  pub content_type : Bytes
  pub body : Option Bytes

abbrev authorized : Libraries → Client → Bytes → Headers → Headers
authorized l c [] h =
    if is_empty c.client_secret
    then h
    else set_header h (codes "Authorization")
        (l.basic (l.query_escape c.client_id) (l.query_escape c.client_secret))
authorized l c (b ∷ token) h = set_header h (codes "Authorization") (codes "DPoP " ++ (b ∷ token))

abbrev if_any : Bytes → Bytes → Headers → Headers
if_any name value h = if is_empty value then h else set_header h name value

unfoldable pub request_of : Libraries → Client → Ask → Bytes → Sent
unfolding set_header
request_of l c a nonce =
    let bare : Sent = record {
      method = a.method;
      url = c.internal_url ++ a.path;
      token = a.access_token;
      nonce = nonce;
      headers = [];
      body = a.body;
    } in
    let h = authorized l c a.access_token (set_header [] (codes "DPoP") (l.prove bare)) in
    record bare {
      headers =
          if_any l.correlation_header l.correlation_id
            (if_any (codes "Content-Type") a.content_type h);
    }

abbrev pub challenge_nonce : Answer → Bytes
challenge_nonce r = get_header r.headers (codes "DPoP-Nonce")

abbrev pub challenges : Answer → Bool
challenges r = nat_eq r.status 401 && not (is_empty (challenge_nonce r))

abbrev pub answer_of : Result SendError Answer → Result CallError Answer
answer_of (err e) = err (not_sent e)
answer_of (ok r) = ok r

module _ {T : Type 0} (w : Resource T) (l : Libraries) (c : Client) where
  abbrev pub transmit : Wire T → Sent → Wire T × Result SendError Answer
  transmit x s =
      let (r, answer) = w.send x.resource s in (record { resource = r; sent = s ∷ x.sent }, answer)

  abbrev pub second : Wire T × Result SendError Answer → Wire T × Result CallError Answer
  second (x, r) = (x, answer_of r)

  abbrev pub first : Ask → Wire T × Result SendError Answer → Wire T × Result CallError Answer
  first a (x, err e) = (x, err (not_sent e))
  first a (x, ok r) =
      if challenges r then second (transmit x (request_of l c a (challenge_nonce r))) else (x, ok r)

  unfoldable pub dpop_do : Wire T → Ask → Wire T × Result CallError Answer
  unfolding request_of get_header
  dpop_do x a = first a (transmit x (request_of l c a []))

  -- The answer of a call that expects one status.
  abbrev pub expecting : ℕ → Result CallError Answer → Result CallError Bytes
  expecting n (err e) = err e
  expecting n (ok r) = if nat_eq r.status n then ok r.body else err (responded r.status r.body)

  abbrev pub form_ask : Bytes → Form → Ask
  form_ask path form = record {
    method = codes "POST";
    path = path;
    access_token = [];
    content_type = codes "application/x-www-form-urlencoded";
    body = some (l.encode_form form);
  }

  abbrev pub done : Wire T × Result CallError Bytes → Wire T × Option CallError
  done (x, err e) = (x, some e)
  done (x, ok body) = (x, none)

  abbrev pub expect : ℕ → Wire T × Result CallError Answer → Wire T × Result CallError Bytes
  expect n (x, r) = (x, expecting n r)

  abbrev pub revoke_form : Bytes → Form
  revoke_form refresh_token =
      (codes "token", refresh_token)
      ∷ (codes "token_type_hint", codes "refresh_token")
      ∷ (codes "client_id", c.client_id)
      ∷ []

  unfoldable pub revoke : Wire T → Bytes → Wire T × Option CallError
  unfolding dpop_do
  revoke x refresh_token =
      done (expect 200 (dpop_do x (form_ask (codes "/revoke") (revoke_form refresh_token))))

  module _ {V : Type 0} (decode : Bytes → Option V) where
    abbrev pub decoded : Wire T × Result CallError Bytes → Wire T × Result CallError V
    decoded (x, err e) = (x, err e)
    decoded (x, ok body) = (x, elim (decode body) [ none ↦ err bad_json | some v ↦ ok v ])

    unfoldable pub token_request : Wire T → Form → Wire T × Result CallError V
    unfolding dpop_do
    token_request x form = decoded (expect 200 (dpop_do x (form_ask (codes "/token") form)))

    unfoldable pub exchange_code : Wire T → Bytes → Bytes → Wire T × Result CallError V
    unfolding token_request
    exchange_code x code verifier = token_request x (
        (codes "grant_type", codes "authorization_code")
        ∷ (codes "code", code)
        ∷ (codes "client_id", c.client_id)
        ∷ (codes "code_verifier", verifier)
        ∷ (codes "redirect_uri", c.redirect_uri)
        ∷ [])

    unfoldable pub refresh : Wire T → Bytes → Wire T × Result CallError V
    unfolding token_request
    refresh x refresh_token = token_request x (
        (codes "grant_type", codes "refresh_token")
        ∷ (codes "refresh_token", refresh_token)
        ∷ (codes "client_id", c.client_id)
        ∷ [])

    unfoldable pub identity : Wire T → Bytes → Wire T × Result CallError V
    unfolding dpop_do
    identity x access_token = decoded (
        expect 200 (
          dpop_do x (record {
            method = codes "GET";
            path = codes "/identity";
            access_token = access_token;
            content_type = [];
            body = none;
          })))

-- The part of an authorization request that every sign-in sends, and the addresses of the browser.
unfoldable pub authorize_query : Client → Bytes → Bytes → Bytes → Form
authorize_query c challenge state acr_values =
    (codes "client_id", c.client_id)
    ∷ (codes "response_type", codes "code")
    ∷ (codes "code_challenge", challenge)
    ∷ (codes "code_challenge_method", codes "S256")
    ∷ (codes "redirect_uri", c.redirect_uri)
    ∷ (codes "state", state)
    ∷ optional (codes "acr_values") acr_values []

unfoldable pub authorize_url : Libraries → Client → Bytes → Bytes → Bytes → Bytes
unfolding authorize_query
authorize_url l c challenge state acr_values =
    c.public_url
    ++ (codes "/authorize?" ++ l.encode_form (authorize_query c challenge state acr_values))

unfoldable pub browser_logout_url : Libraries → Client → Bytes → Bytes → Bytes
browser_logout_url l c redirect_uri login_method =
    c.public_url
    ++ (codes "/logout?"
        ++ l.encode_form (
            (codes "client_id", c.client_id)
            ∷ (codes "redirect_uri", redirect_uri)
            ∷ optional (codes "login_method") login_method []))
