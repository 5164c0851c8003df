-- ===== src/Asclient/Ends.antt =====
-- dpopDo of asclient/client.go: what a call sends.
use go_authbyte.Base.{
  Bool, ◌∙◌, arith, ◌↔◌, false, not, ◌&&◌, ◌++◌, nat_eq, codes, ok_inj, some, ◌≡◌, refl, sym, ap,
  subst, ◌⊎◌, inl, inr, true, [], ◌∷◌, Bool-cases, Bytes, codes, ℕ_comparable, Bytes_comparable,
  Result, ok, err,
}
use go_authbyte.Base.Texts.{is_empty}
use go_authbyte.Authclient.Headers.{get_header}
use go_authbyte.Authclient.Calls.{Sent, Answer, SendError, Resource}
use go_authbyte.Asclient.{
  Client, Libraries, CallError, Wire, Ask, request_of, challenge_nonce, challenges, transmit, first,
  dpop_do, expect, done, revoke,
}

module _ {T : Type 0} (w : Resource T) (l : Libraries) (c : Client) where
  -- An answer that asks for a proof over its nonce.
  abbrev pub IsChallenge : Answer → Type 0
  IsChallenge r = (r.status ≡ 401) × (is_empty (get_header r.headers (codes "DPoP-Nonce")) ≡ false)

  -- A request of a call, below its headers: its proof is over the nonce.
  abbrev pub IsRequest : Ask → Bytes → Sent → Type 0
  IsRequest a nonce s =
      (s.method ≡ a.method)
      × (s.url ≡ c.internal_url ++ a.path)
      × (s.token ≡ a.access_token)
      × (s.nonce ≡ nonce)
      × (s.body ≡ a.body)

  -- The requests of one call, and the server behind them: one without a nonce where its answer is no
  -- challenge, or else a second one over the nonce of the challenge.
  abbrev pub Sends : Wire T → Ask → Wire T → Type 0
  Sends x a y =
      (s : Sent) × IsRequest a [] s
      × (((y.sent ≡ s ∷ x.sent)
            × (y.resource ≡ (w.send x.resource s).0)
            × ((r : Answer) → (w.send x.resource s).1 ≡ ok r → ¬ IsChallenge r))
          ⊎ ((r : Answer) × ((w.send x.resource s).1 ≡ ok r)
              × IsChallenge r
              × (s2 : Sent) × IsRequest a (get_header r.headers (codes "DPoP-Nonce")) s2
              × (y.sent ≡ s2 ∷ s ∷ x.sent)
              × (y.resource ≡ (w.send (w.send x.resource s).0 s2).0)))

  challenges_iff : (r : Answer) → (challenges r ≡ true) ↔ IsChallenge r
  challenges_iff r = go (is_empty (challenge_nonce r))
    where
      go : (b : Bool) → ((nat_eq r.status 401 && not b) ≡ true) ↔ ((r.status ≡ 401) × (b ≡ false))
      go true = (λ h. ground arith, λ h. cc)
      go false = (λ h. (ground arith, refl), λ h. ground arith)

  request_of-IsRequest : (a : Ask) (nonce : Bytes) → IsRequest a nonce (request_of l c a nonce)
  unfolding request_of
  request_of-IsRequest a nonce = (refl, refl, refl, refl, refl)

  first-Sends :
      (x : Wire T) (a : Ask) (p : Wire T × Result SendError Answer)
      → p.0.sent ≡ request_of l c a [] ∷ x.sent
      → p.0.resource ≡ (w.send x.resource (request_of l c a [])).0
      → (w.send x.resource (request_of l c a [])).1 ≡ p.1
      → Sends x a (first w l c a p).0
  first-Sends x a (y, err e) s t h =
      (request_of l c a [], request_of-IsRequest a [], inl (s, t, λ r q. let z = sym h ∙ q in cc))
  first-Sends x a (y, ok r) s t h = elim (Bool-cases (challenges r)) [
    | inl e ↦ rw e (
      request_of l c a [],
      request_of-IsRequest a [],
      inr (
        r,
        h,
        (challenges_iff r).0 e,
        request_of l c a (challenge_nonce r),
        request_of-IsRequest a (challenge_nonce r),
        ap (◌∷◌ (request_of l c a (challenge_nonce r))) s,
        ap (λ z. (w.send z (request_of l c a (challenge_nonce r))).0) t,
      ),
    )
    | inr e ↦ rw e (
      request_of l c a [],
      request_of-IsRequest a [],
      inl (
        s,
        t,
        λ v q d. let z = (challenges_iff r).1 (subst IsChallenge (ok_inj (sym q ∙ h)) d) in cc,
      ),
    )
  ]

  pub dpop_do-Sends : (x : Wire T) (a : Ask) → Sends x a (dpop_do w l c x a).0
  unfolding dpop_do
  dpop_do-Sends x a = first-Sends x a (transmit w l c x (request_of l c a [])) refl refl refl

  pub done-wire : (p : Wire T × Result CallError Bytes) → (done w l c p).0 ≡ p.0
  done-wire (x, err e) = refl
  done-wire (x, ok b) = refl

  -- What a revocation asks: the refresh token is presented by this client.
  abbrev pub revocation : Bytes → Ask
  revocation refresh_token = record {
    method = codes "POST";
    path = codes "/revoke";
    access_token = [];
    content_type = codes "application/x-www-form-urlencoded";
    body = some (
        l.encode_form (
          (codes "token", refresh_token)
          ∷ (codes "token_type_hint", codes "refresh_token")
          ∷ (codes "client_id", c.client_id)
          ∷ []));
  }

  pub revoke-Sends :
      (x : Wire T) (refresh_token : Bytes)
      → Sends x (revocation refresh_token) (revoke w l c x refresh_token).0
  unfolding revoke
  revoke-Sends x refresh_token =
      subst (Sends x (revocation refresh_token))
        (sym (done-wire (expect w l c 200 (dpop_do w l c x (revocation refresh_token)))))
        (dpop_do-Sends x (revocation refresh_token))
