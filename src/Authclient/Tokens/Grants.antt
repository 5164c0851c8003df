-- ===== src/Authclient/Tokens/Grants.antt =====
-- authclient/outbound.go: a token that is issued is one that the endpoint grants for the form posted.
use go_authbyte.Base.{
  ◌/◌, ◌≡◌, refl, subst, inl, inr, Option, none, some, [], arith, nat_eq, Bool-cases, Bytes,
  ℕ_comparable, Bytes_comparable, Result, ok, err, ok_inj,
}
use go_authbyte.Base.Integers.{ℤ}
use go_authbyte.Authclient.Tokens.{
  Form, Response, Failure, Endpoint, World, Issued, challenges, read_issued, read_answer, send,
  last_round, first_round, post_token_form,
}

module _ {W : Type 0} (w : Endpoint W) (Grants : Form → Bytes → Type 0) where
  -- Every token in a 2xx answer of the endpoint to a form is one it grants for the form.
  abbrev pub Honest : Type 0
  Honest =
      (x : W) (form : Form) (nonce : Bytes) (r : Response) (i : Bytes × ℤ)
      → (w.post x form nonce).1 ≡ ok r
      → r.status / 100 ≡ 2
      → w.read_token r.body ≡ some i
      → Grants form i.0

  read_issued-Grants :
      (form : Form) (o : Option (Bytes × ℤ)) (i : Issued)
      → ((j : Bytes × ℤ) → o ≡ some j → Grants form j.0)
      → read_issued o ≡ ok i
      → Grants form i.0
  read_issued-Grants form none i h e = cc
  read_issued-Grants form (some (token, n)) i h e =
      subst (λ j. Grants form j.0) (ok_inj e) (h (token, n) refl)

  read_answer-Grants :
      (form : Form) (r : Response) (i : Issued)
      → (r.status / 100 ≡ 2 → (j : Bytes × ℤ) → w.read_token r.body ≡ some j → Grants form j.0)
      → read_answer w r ≡ ok i
      → Grants form i.0
  unfolding read_answer
  read_answer-Grants form r i h e = elim (Bool-cases (nat_eq (r.status / 100) 2)) [
    | inl good ↦ read_issued-Grants form (w.read_token r.body) i (h (ground arith)) (ground arith)
    | inr bad ↦ ground arith
  ]

  -- What the body of a 2xx answer holds is granted for the form.
  Genuine : Form → Result Failure Response → Type 0
  Genuine form answer =
      (r : Response)
      → answer ≡ ok r
      → r.status / 100 ≡ 2
      → (j : Bytes × ℤ) → w.read_token r.body ≡ some j
      → Grants form j.0

  last_round-Grants :
      (form : Form) (p : World W × Result Failure Response) (i : Issued)
      → Genuine form p.1
      → (last_round w p).1 ≡ ok i
      → Grants form i.0
  unfolding last_round Genuine
  last_round-Grants form (x, err f) i h e = cc
  last_round-Grants form (x, ok r) i h e = read_answer-Grants form r i (h r refl) e

  module _ (honest : Honest) where
    send-Genuine :
        (x : World W) (form : Form) (nonce : Bytes) → Genuine form (send w x form nonce).1
    unfolding Genuine
    send-Genuine x form nonce r e k j = honest x.server form nonce r j e k

    first_round-Grants :
        (form : Form) (p : World W × Result Failure Response) (i : Issued)
        → Genuine form p.1
        → (first_round w form p).1 ≡ ok i
        → Grants form i.0
    unfolding first_round Genuine
    first_round-Grants form (x, err f) i h e = cc
    first_round-Grants form (x, ok r) i h e = elim (Bool-cases (challenges r)) [
      | inl c ↦
          last_round-Grants form (send w x form r.dpop_nonce) i (send-Genuine x form r.dpop_nonce)
            (ground arith)
      | inr n ↦ read_answer-Grants form r i (h r refl) (ground arith)
    ]

    pub post_token_form-Grants :
        (x : World W) (form : Form) (i : Issued)
        → (post_token_form w x form).1 ≡ ok i
        → Grants form i.0
    unfolding post_token_form
    post_token_form-Grants x form i e =
        first_round-Grants form (send w x form []) i (send-Genuine x form []) e
