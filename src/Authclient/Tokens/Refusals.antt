-- ===== src/Authclient/Tokens/Refusals.antt =====
-- postTokenForm of authclient/outbound.go: its errors, and how often it asks.
use go_authbyte.Base.{
  ◌/◌, ◌≡◌, refl, sym, ap, ◌∙◌, subst, ◌≢◌, ◌⊎◌, inl, inr, true, false, Option, none, some, [], ◌∷◌,
  arith, nat_eq, if◌then◌else◌, Bool-cases, Bytes, ℕ_comparable, Bytes_comparable, Result, ok, err,
  err_inj,
}
use go_authbyte.Authclient.Tokens.{
  Form, Response, Failure, TokenError, failed, refused, invalid_response, nonce_unsatisfied,
  empty_key, Endpoint, World, Issued, challenges, read_issued, read_answer, send, last_round,
  first_round, post_token_form,
}

module _ {W : Type 0} (w : Endpoint W) (form : Form) where
  -- An answer of the endpoint to the form, with a proof over the nonce.
  abbrev pub Answers : Bytes → Response → Type 0
  Answers nonce r = (x : W) × ((w.post x form nonce).1 ≡ ok r)

  -- What an error says: what the endpoint answered, or that it was not reached.
  abbrev pub Explains : TokenError → Type 0
  Explains (failed f) = (x : W) × (nonce : Bytes) × ((w.post x form nonce).1 ≡ err f)
  Explains (refused status body retry_after) =
      (nonce : Bytes) × (r : Response) × Answers nonce r
      × (r.status ≡ status)
      × (r.body ≡ body)
      × (r.retry_after ≡ retry_after)
      × (status / 100 ≢ 2)
      × ((challenges r ≡ false) ⊎ (nonce ≢ []))
  Explains invalid_response =
      (nonce : Bytes) × (r : Response) × Answers nonce r
      × (r.status / 100 ≡ 2)
      × (w.read_token r.body ≡ none)
  Explains nonce_unsatisfied = ⊥
  Explains empty_key = ⊥

  read_answer-Explains :
      (nonce : Bytes) (r : Response) (e : TokenError)
      → Answers nonce r
      → (challenges r ≡ false) ⊎ (nonce ≢ [])
      → read_answer w r ≡ err e
      → Explains e
  unfolding read_answer
  read_answer-Explains nonce r e a f h = elim (Bool-cases (nat_eq (r.status / 100) 2)) [
    | inl good ↦ go (w.read_token r.body) refl (
        sym (
          ap
            (λ b.
              if b
              then read_issued (w.read_token r.body)
              else err (refused r.status r.body r.retry_after))
            good)
        ∙ h)
    | inr bad ↦
        subst Explains {x = refused r.status r.body r.retry_after}
          (err_inj {A = Issued} (ground arith)) (nonce, r, a, refl, refl, refl, ground arith, f)
  ]
    where
      go :
          (o : Option _)
          → w.read_token r.body ≡ o
          → ◌≡◌ {A = Result TokenError Issued} (read_issued o) (err e)
          → Explains e
      go none q k = subst Explains (err_inj k) (nonce, r, a, ground arith, q)
      go (some i) q k = cc

  last_round-Explains :
      (nonce : Bytes) (p : World W × Result Failure Response) (e : TokenError)
      → nonce ≢ []
      → ((r : Response) → p.1 ≡ ok r → Answers nonce r)
      → ((f : Failure) → p.1 ≡ err f → Explains (failed f))
      → (last_round w p).1 ≡ err e
      → Explains e
  unfolding last_round
  last_round-Explains nonce (x, err f) e n a b h = subst Explains (err_inj h) (b f refl)
  last_round-Explains nonce (x, ok r) e n a b h =
      read_answer-Explains nonce r e (a r refl) (inr n) h

  send-Answers :
      (x : World W) (nonce : Bytes) (r : Response)
      → (send w x form nonce).1 ≡ ok r
      → Answers nonce r
  send-Answers x nonce r h = (x.server, h)

  first_round-Explains :
      (p : World W × Result Failure Response) (e : TokenError)
      → ((r : Response) → p.1 ≡ ok r → Answers [] r)
      → ((f : Failure) → p.1 ≡ err f → Explains (failed f))
      → (first_round w form p).1 ≡ err e
      → Explains e
  unfolding first_round
  first_round-Explains (x, err f) e a b h = subst Explains (err_inj h) (b f refl)
  first_round-Explains (x, ok r) e a b h = elim (Bool-cases (challenges r)) [
    | inl c ↦
        last_round-Explains r.dpop_nonce (send w x form r.dpop_nonce) e (challenges-nonce r c)
          (send-Answers x r.dpop_nonce) (λ f q. (x.server, r.dpop_nonce, q)) (ground arith)
    | inr n ↦ read_answer-Explains [] r e (a r refl) (inl n) (ground arith)
  ]
    where
      challenges-nonce : (r : Response) → challenges r ≡ true → r.dpop_nonce ≢ []
      challenges-nonce r c = λ q. ground arith

  -- An error says what happened: a post failed; or the endpoint gave an answer that is no 2xx, and
  -- status, body and waiting time are that answer's, which is no challenge unless it answers a
  -- proof over a nonce; or a 2xx answer holds no token. There is no other error.
  pub post_token_form-Explains :
      (x : World W) (e : TokenError) → (post_token_form w x form).1 ≡ err e → Explains e
  unfolding post_token_form
  post_token_form-Explains x e h =
      first_round-Explains (send w x form []) e (send-Answers x []) (λ f q. (x.server, [], q)) h

  last_round-posts : (p : World W × Result Failure Response) → (last_round w p).0.posts ≡ p.0.posts
  unfolding last_round
  last_round-posts (x, err f) = refl
  last_round-posts (x, ok r) = refl

  first_round-posts :
      (p : World W × Result Failure Response)
      → ((first_round w form p).0.posts ≡ p.0.posts)
        ⊎ ((r : Response) × (p.1 ≡ ok r)
            × (challenges r ≡ true)
            × ((first_round w form p).0.posts ≡ r.dpop_nonce ∷ p.0.posts))
  unfolding first_round
  first_round-posts (x, err f) = inl refl
  first_round-posts (x, ok r) = elim (Bool-cases (challenges r)) [
    | inl c ↦ inr (r, refl, c, rw c (last_round-posts (send w x form r.dpop_nonce)))
    | inr n ↦ inl (rw n refl)
  ]

  -- The form is posted once, over no nonce, or twice, and the second time exactly when the first
  -- answer is a challenge, over its nonce.
  post_token_form-posts :
      (x : World W)
      → ((post_token_form w x form).0.posts ≡ [] ∷ x.posts)
        ⊎ ((r : Response) × Answers [] r
            × (challenges r ≡ true)
            × ((post_token_form w x form).0.posts ≡ r.dpop_nonce ∷ [] ∷ x.posts))
  unfolding post_token_form
  post_token_form-posts x = elim (first_round-posts (send w x form [])) [
    | inl e ↦ inl e
    | inr (r, h, c, e) ↦ inr (r, send-Answers x [] r h, c, e)
  ]
