-- ===== src/Authclient/Calls/Nonces.antt =====
-- authclient/background.go: what a call sends, and the nonces that it keeps.
use go_authbyte.Base.{
  ℕ, ◌≤◌, ◌≡◌, refl, sym, ap, ◌∙◌, subst, ◌≢◌, ◌⊎◌, inl, inr, true, false, Option, none, some, List,
  [], ◌∷◌, ◌++◌, arith, if◌then◌else◌, Bool-cases, length, All, ◌==◌, ==_refl, Bytes, codes,
  ℕ_comparable, Bytes_comparable, Result, ok, err,
}
use go_authbyte.Base.Map.{lookup, insert, lookup-insert}
use go_authbyte.Base.Texts.{is_empty}
use go_authbyte.Authclient.Tokens.{
  Outbound, Endpoint, Form, service, form_of, TokenError, Clock, Client,
  acquire_service_token_for_tenant,
}
use go_authbyte.Authclient.Tokens.Keys.{Clean}
use go_authbyte.Authclient.Tokens.Grants.{Honest}
use go_authbyte.Authclient.Tokens.Origin.{Runs, acquire_service_token_for_tenant-Grants}
use go_authbyte.Authclient.Headers.{Headers, canonical, get_header, set_header}
use go_authbyte.Authclient.Calls.{
  Sent, Answer, SendError, Resource, Caller, Asked, Correlation, bare, with_content_type,
  background_request, challenge_nonce, challenges, text_or_empty, resource_nonce,
  set_resource_nonce, transmit, after_first, rounds, do_background,
}
use go_authbyte.Authclient.Calls.Services.{with_token, do_service_for_tenant}

-- The names of the headers are apart.
apart :
    ((canonical (codes "DPoP") == canonical (codes "Authorization")) ≡ false)
    × ((canonical (codes "Authorization") == canonical (codes "Content-Type")) ≡ false)
    × ((canonical (codes "Authorization") == canonical (codes "DPoP")) ≡ false)
    × ((canonical (codes "DPoP") == canonical (codes "Content-Type")) ≡ false)
unfolding canonical
apart = (refl, refl, refl, refl)

lookup-set_header :
    (h : Headers) (name value j : Bytes)
    → lookup (set_header h name value) j
      ≡ (if j == canonical name then some (value ∷ []) else lookup h j)
unfolding set_header
lookup-set_header h name value j = lookup-insert h (canonical name) j (value ∷ [])

with_content_type-other :
    (b : Option Bytes) (h : Headers) (j : Bytes)
    → (j == canonical (codes "Content-Type")) ≡ false
    → lookup (with_content_type b h) j ≡ lookup h j
with_content_type-other none h j e = refl
with_content_type-other (some b) h j e =
    elim (Bool-cases (is_empty (get_header h (codes "Content-Type")))) [
      | inl y ↦
          rw y (lookup-set_header h (codes "Content-Type") (codes "application/json") j ∙ rw e refl)
      | inr n ↦ rw n refl
    ]

-- A request carries the token and its own proof, each once.
abbrev pub Carries : (Sent → Bytes) → Bytes → Asked → Sent → Type 0
Carries prove token a s =
    (s.token ≡ token)
    × (lookup s.headers (canonical (codes "Authorization")) ≡ some ((codes "DPoP " ++ token) ∷ []))
    × (lookup s.headers (canonical (codes "DPoP")) ≡ some (prove (bare token a s.nonce) ∷ []))

proved-headers :
    (given : Headers) (token proof : Bytes) (b : Option Bytes)
    → (lookup
          (with_content_type b
            (set_header (set_header given (codes "Authorization") token) (codes "DPoP") proof))
          (canonical (codes "Authorization"))
        ≡ some (token ∷ []))
      × (lookup
            (with_content_type b
              (set_header (set_header given (codes "Authorization") token) (codes "DPoP") proof))
            (canonical (codes "DPoP"))
          ≡ some (proof ∷ []))
proved-headers given token proof b =
    let (dpop, auth, other, content) = apart in
    let h = set_header given (codes "Authorization") token in
    (
      with_content_type-other b _ _ auth
          ∙ lookup-set_header h (codes "DPoP") proof (canonical (codes "Authorization"))
          ∙ rw other (
              lookup-set_header given (codes "Authorization") token
                (canonical (codes "Authorization"))
              ∙ rw (==_refl (canonical (codes "Authorization"))) refl),
      with_content_type-other b _ _ content
          ∙ lookup-set_header h (codes "DPoP") proof (canonical (codes "DPoP"))
          ∙ rw (==_refl (canonical (codes "DPoP"))) refl,
    )

background_request-Carries :
    (prove : Sent → Bytes) (x : Correlation) (token : Bytes) (a : Asked) (nonce : Bytes)
    → Carries prove token a (background_request prove x token a nonce)
unfolding background_request
background_request-Carries prove x token a nonce =
    let (auth, dpop) =
      proved-headers _ (codes "DPoP " ++ token) (prove (bare token a nonce)) a.body in
    (refl, auth, dpop)

module _ {T : Type 0} (w : Resource T) (key : Bytes) where
  -- The requests and the nonces of one call: one request over the nonce kept for the audience, or two,
  -- the second over the nonce that the first answer asks for, which is then kept for this audience.
  abbrev pub Sends : (Bytes → Sent) → Caller T → Caller T → Type 0
  Sends build c d =
      ((d.sent ≡ build (resource_nonce c key) ∷ c.sent) × (d.nonces ≡ c.nonces))
      ⊎ ((n : Bytes) × (n ≢ [])
          × (d.sent ≡ build n ∷ build (resource_nonce c key) ∷ c.sent)
          × (d.nonces ≡ insert c.nonces key n))

  resource_nonce-set :
      (c : Caller T) (n : Bytes) → resource_nonce (set_resource_nonce c key n) key ≡ n
  unfolding resource_nonce set_resource_nonce
  resource_nonce-set c n =
      ap text_or_empty (lookup-insert c.nonces key key n) ∙ rw (==_refl key) refl

  challenges-nonce : (r : Answer) → challenges r ≡ true → challenge_nonce r ≢ []
  challenges-nonce r h q = ground arith

  after_first-Sends :
      (build : Bytes → Sent) (c : Caller T) (p : Caller T × Result SendError Answer)
      → p.0.sent ≡ build (resource_nonce c key) ∷ c.sent
      → p.0.nonces ≡ c.nonces
      → Sends build c (after_first w key build p).0
  unfolding set_resource_nonce
  after_first-Sends build c (d, err e) s n = inl (s, n)
  after_first-Sends build c (d, ok r) s n = elim (Bool-cases (challenges r)) [
    | inr other ↦ rw other (inl (s, n))
    | inl asks ↦ rw asks (
        inr (
          challenge_nonce r,
          challenges-nonce r asks,
          ap (λ m. build m ∷ d.sent) (resource_nonce-set d (challenge_nonce r))
              ∙ ap (◌∷◌ (build (challenge_nonce r))) s,
          ap (λ m. insert m key (challenge_nonce r)) n,
        ))
  ]

  -- A call sends one request, over the nonce kept for its audience, or two: the second over the nonce
  -- that the first answer asks for, which is then the nonce kept for this audience.
  rounds-Sends : (c : Caller T) (build : Bytes → Sent) → Sends build c (rounds w c key build).0
  unfolding rounds
  rounds-Sends c build =
      after_first-Sends build c (transmit w c (build (resource_nonce c key))) refl refl

  -- The requests that are new.
  abbrev pub AllNew : (Sent → Type 0) → Caller T → Caller T → Type 0
  AllNew P c d = (new : List Sent) × (d.sent ≡ new ++ c.sent) × (length new ≤ 2) × All P new

  do_background-AllNew :
      (prove : Sent → Bytes) (x : Correlation) (c : Caller T) (token : Bytes) (a : Asked)
      → AllNew (Carries prove token a) c (do_background w prove x c key token a).0
  unfolding do_background
  do_background-AllNew prove x c token a =
      let build = background_request prove x token a in
      let carries = background_request-Carries prove x token a in
      elim (rounds-Sends c build) [
        | inl (s, n) ↦ (
          build (resource_nonce c key) ∷ [],
          s,
          omega arith,
          (carries (resource_nonce c key), tt),
        )
        | inr (n, e, s, k) ↦ (
          build n ∷ build (resource_nonce c key) ∷ [],
          s,
          omega arith,
          (carries n, (carries (resource_nonce c key), tt)),
        )
      ]

All-map :
    {A : Type 0} {P Q : A → Type 0} (xs : List A) → ((x : A) → P x → Q x) → All P xs → All Q xs
All-map [] f h = tt
All-map (x ∷ xs) f (p, h) = (f x p, All-map xs f h)

module _ {W T : Type 0} (e : Endpoint W) (o : Outbound) (Grants : Form → Bytes → Type 0)
    (honest : Honest e Grants) (sha256 : Bytes → Bytes) (expiry : Bytes → Option ℕ) (w : Resource T)
    (prove : Sent → Bytes) (x : Correlation) (t : Clock) where
  -- If the endpoint answers a form with tokens granted for it, and in this call and every earlier one
  -- no audience, scope or organisation holds the byte | that joins them in a cache key, and
  -- the digest of a subject token is of bytes, then a call as
  -- a service for an organisation sends at most two requests, and each carries, once in its header and
  -- in its proof, a token that the endpoint granted for this audience, scope and organisation.
  pub do_service_for_tenant-Grants :
      (start c : Client W) (d : Caller T) (audience scope tenant : Bytes) (a : Asked)
      → Runs sha256 expiry e o Grants honest start c
      → Clean audience × Clean scope × Clean tenant
      → AllNew w audience
          (λ s.
            Grants (form_of o (service audience scope tenant)) s.token × Carries prove s.token a s)
          d
          (do_service_for_tenant e o w prove x t c d audience scope tenant a).0.1
  unfolding do_service_for_tenant
  do_service_for_tenant-Grants start c d audience scope tenant a runs clean =
      go (acquire_service_token_for_tenant e o t c audience scope tenant) (λ token h.
        acquire_service_token_for_tenant-Grants sha256 expiry e o Grants honest start c runs t
          audience scope tenant token clean h)
    where
      go :
          (p : Client W × Result TokenError Bytes)
          → ((token : Bytes)
              → p.1 ≡ ok token
              → Grants (form_of o (service audience scope tenant)) token)
          → AllNew w audience
              (λ s.
                Grants (form_of o (service audience scope tenant)) s.token
                × Carries prove s.token a s)
              d
              (with_token p d (λ token. do_background w prove x d audience token a)).0.1
      go (c2, err f) g = ([], refl, omega arith, tt)
      go (c2, ok token) g =
          let (new, s, l, carried) = do_background-AllNew w audience prove x d token a in
          (
            new,
            s,
            l,
            All-map new
                (λ s h. (
                  subst (Grants (form_of o (service audience scope tenant))) (sym h.0)
                      (g token refl),
                  subst (λ k. Carries prove k a s) (sym h.0) h,
                ))
                carried,
          )
