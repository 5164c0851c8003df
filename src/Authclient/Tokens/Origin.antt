-- ===== src/Authclient/Tokens/Origin.antt =====
-- authclient/outbound.go: what the cache keeps and hands out was issued for the same request.
use go_authbyte.Base.{
  ℕ, ◌<◌, ◌≡◌, refl, sym, ap, subst, ◌⊎◌, inl, inr, true, Option, none, some, [], arith, nat_eq,
  Bool-cases, Option-cases, All, Bytes, ℕ_comparable, Bytes_comparable, Result, ok, err, ok_inj,
}
use go_authbyte.Base.Map.{lookup}
use go_authbyte.Base.Entries.{All-lookup, All-insert, All-retain}
use go_authbyte.Authclient.Tokens.{
  Outbound, CachedToken, servable, Cache, cached, store, Form, Request, service, delegated,
  exchanged, form_of, service_key, delegated_key, TokenError, Endpoint, World, Issued,
  post_token_form, add_duration, Clock, Client, kept_token, keep, or_request,
  acquire_service_token_for_tenant, acquire_delegated_token,
}
use go_authbyte.Authclient.Tokens.Keys.{
  Clean, IsOctet, service_key-inj, delegated_key-inj, service_key-delegated_key,
}
use go_authbyte.Authclient.Tokens.Grants.{Honest, post_token_form-Grants}

module _ (sha256 : Bytes → Bytes) (expiry : Bytes → Option ℕ) where
  -- The key under which the token of a request is kept; the names in it hold no separator.
  data IsKeyOf : Request → Bytes → Type 0 where
    of_service :
        (a s t : Bytes) → Clean a × Clean s × Clean t → IsKeyOf (service a s t) (service_key a s t)
    of_delegated :
        (a s u : Bytes)
        → Clean a × Clean s × All IsOctet (sha256 u)
        → IsKeyOf (delegated a s u) (delegated_key sha256 a s u)

  -- The limit on the reuse of a request's token.
  abbrev limit : Request → Option ℕ
  limit (service a s t) = some 0
  limit (delegated a s u) = expiry u
  limit (exchanged a s k) = none

  -- A request of the same audience, scope and organisation, or of a subject of the same digest.
  abbrev pub SameRequest : Request → Request → Type 0
  SameRequest (delegated a s u) r = (v : Bytes) × (r ≡ delegated a s v) × (sha256 u ≡ sha256 v)
  SameRequest q r = r ≡ q

  same-key : (q r : Request) (j k : Bytes) → IsKeyOf q j → IsKeyOf r k → j ≡ k → SameRequest q r
  same-key q r j k (of_service a s t h) (of_service b u v i) e =
      let same = service_key-inj a s t b u v h i e in cc
  same-key q r j k (of_service a s t h) (of_delegated b u v i) e =
      absurd (service_key-delegated_key sha256 a s t b u v h i e)
  same-key q r j k (of_delegated a s t h) (of_service b u v i) e =
      absurd (service_key-delegated_key sha256 b u v a s t i h (sym e))
  same-key q r j k (of_delegated a s t h) (of_delegated b u v i) e =
      let same = delegated_key-inj sha256 a s t b u v h i e in (v, cc, same.2)

  module _ {W : Type 0} (w : Endpoint W) (o : Outbound) (Grants : Form → Bytes → Type 0)
      (honest : Honest w Grants) where
    -- An entry's token was granted for a request that the entry's key stands for.
    abbrev Origin : Bytes × CachedToken → Type 0
    Origin e =
        (r : Request) × IsKeyOf r e.0
        × Grants (form_of o r) e.1.token
        × (limit r ≡ some e.1.not_after)

    store-Origin :
        (m : Cache) (key : Bytes) (t : CachedToken) (now early : ℕ)
        → All Origin m
        → Origin (key, t)
        → All Origin (store m key t now early)
    unfolding store
    store-Origin m key t now early h q = elim (Bool-cases (servable t now early)) [
      | inl e ↦ rw e (All-insert Origin _ key t (All-retain Origin _ m h) q)
      | inr e ↦ rw e (All-retain Origin _ m h)
    ]

    -- A token found in the cache has the origin of its entry, and is still servable.
    cached-Origin :
        (m : Cache) (key token : Bytes) (now early : ℕ)
        → All Origin m
        → cached m key now early ≡ some token
        → (t : CachedToken) × Origin (key, t) × (t.token ≡ token) × (servable t now early ≡ true)
    unfolding cached
    cached-Origin m key token now early h e = elim (Option-cases (lookup m key)) [
      | inl n ↦ ground arith
      | inr (t, s) ↦ (t, All-lookup Origin m key t h s, ground arith, ground arith)
    ]

    module _ (r : Request) (key : Bytes) (k : IsKeyOf r key) (t : Clock) (c : Client W)
        (h : All Origin c.tokens) where
      kept_token-Origin :
          (x : Client W) (i : Issued) (l : Option ℕ)
          → All Origin x.tokens
          → Grants (form_of o r) i.0
          → limit r ≡ l
          → All Origin (kept_token o t key l x i).tokens
      kept_token-Origin x i none a g q = a
      kept_token-Origin x i (some n) a g q =
          store-Origin x.tokens key
            (record { token = i.0; exp = add_duration t.issued i.1; not_after = n }) t.stored
            o.early_refresh a (r, k, g, q)

      keep-Origin :
          (p : World W × Result TokenError Issued)
          → ((i : Issued) → p.1 ≡ ok i → Grants (form_of o r) i.0)
          → All Origin (keep o t key (limit r) c p).0.tokens
      keep-Origin (x, err e) g = h
      keep-Origin (x, ok i) g =
          kept_token-Origin (record c { world = x }) i (limit r) h (g i refl) refl

      or_request-Origin :
          (found : Option Bytes)
          → All Origin (or_request w o t key (limit r) (form_of o r) c found).0.tokens
      or_request-Origin (some token) = h
      or_request-Origin none =
          keep-Origin (post_token_form w c.world (form_of o r))
            (post_token_form-Grants w Grants honest c.world (form_of o r))

      keep-ok :
          (p : World W × Result TokenError Issued) (token : Bytes)
          → (keep o t key (limit r) c p).1 ≡ ok token
          → (i : Issued) × (p.1 ≡ ok i) × (i.0 ≡ token)
      keep-ok (x, err e) token q = cc
      keep-ok (x, ok i) token q = (i, refl, ok_inj q)

      -- The token is the one found, or one granted now.
      or_request-ok :
          (found : Option Bytes) (token : Bytes)
          → (or_request w o t key (limit r) (form_of o r) c found).1 ≡ ok token
          → (found ≡ some token) ⊎ ((found ≡ none) × Grants (form_of o r) token)
      or_request-ok (some a) token q = inl (ap some (ok_inj q))
      or_request-ok none token q =
          let (i, e, same) = keep-ok (post_token_form w c.world (form_of o r)) token q in
          inr (
            refl,
            subst (Grants (form_of o r)) same
                (post_token_form-Grants w Grants honest c.world (form_of o r) i e),
          )

    servable-not_after :
        (e : CachedToken) (now early : ℕ)
        → servable e now early ≡ true
        → (e.not_after ≡ 0) ⊎ (now < e.not_after)
    unfolding servable
    servable-not_after e now early h = elim (Bool-cases (nat_eq e.not_after 0)) [
      | inl z ↦ inl (ground arith)
      | inr z ↦ inr (ground arith)
    ]

    -- A call for a token: what is asked, and the readings of the clock.
    pub data Acquires : Client W → Client W → Type 0 where
      for_service :
          (t : Clock) (c : Client W) (audience scope tenant : Bytes)
          → Clean audience × Clean scope × Clean tenant
          → Acquires c (acquire_service_token_for_tenant w o t c audience scope tenant).0
      for_subject :
          (t : Clock) (c : Client W) (audience scope subject : Bytes)
          → Clean audience × Clean scope × All IsOctet (sha256 subject)
          → Acquires c (acquire_delegated_token w o sha256 expiry t c audience scope subject).0

    Acquires-Origin : (c d : Client W) → Acquires c d → All Origin c.tokens → All Origin d.tokens
    unfolding acquire_service_token_for_tenant acquire_delegated_token
    Acquires-Origin c d (for_service t _ a s n p) h =
        or_request-Origin (service a s n) (service_key a s n) (of_service a s n p) t c h
          (cached c.tokens (service_key a s n) t.looked o.early_refresh)
    Acquires-Origin c d (for_subject t _ a s u p) h =
        or_request-Origin (delegated a s u) (delegated_key sha256 a s u) (of_delegated a s u p) t c
          h (cached c.tokens (delegated_key sha256 a s u) t.looked o.early_refresh)

    pub data Runs : Client W → Client W → Type 0 where
      fresh :
          (x : World W)
          → Runs (record { tokens = []; world = x }) (record { tokens = []; world = x })
      more : {a b c : Client W} → Runs a b → Acquires b c → Runs a c

    Runs-Origin : (a b : Client W) → Runs a b → All Origin b.tokens
    Runs-Origin a b (fresh x) = tt
    Runs-Origin a c (more {b} s p) = Acquires-Origin b c p (Runs-Origin a b s)

    module _ (start c : Client W) (s : Runs start c) (t : Clock) (audience scope : Bytes) where
      -- If the endpoint answers a form with tokens granted for it, and in this call and every earlier one
      -- no audience, scope or organisation holds the byte | that joins them in a cache key, and
      -- the digest of a subject token is of bytes, then a service
      -- token that the client hands out was granted for the same audience, scope and organisation,
      -- whatever those earlier calls were.
      pub acquire_service_token_for_tenant-Grants :
          (tenant token : Bytes)
          → Clean audience × Clean scope × Clean tenant
          → (acquire_service_token_for_tenant w o t c audience scope tenant).1 ≡ ok token
          → Grants (form_of o (service audience scope tenant)) token
      unfolding acquire_service_token_for_tenant
      acquire_service_token_for_tenant-Grants tenant token p q =
          let key = service_key audience scope tenant in
          let r = service audience scope tenant in
          let k = of_service audience scope tenant p in
          let h = Runs-Origin start c s in
          elim (or_request-ok r key k t c h (cached c.tokens key t.looked o.early_refresh) token
            q) [
              | inl found ↦
                  (let (e, (q, j, g, l), same, live) =
                      cached-Origin c.tokens key token t.looked o.early_refresh h found in
                    subst (λ x. Grants (form_of o x) token) (same-key r q key key k j refl)
                      (subst (Grants (form_of o q)) same g))
              | inr (n, g) ↦ g
            ]

      -- If the endpoint answers a form with tokens granted for it, and in this call and every earlier one
      -- no audience, scope or organisation holds the byte | that joins them in a cache key, and
      -- the digest of a subject token is of bytes, then a token
      -- that acts for a subject was granted now, for the very subject token, whatever its expiry; or it
      -- was found in the cache, granted for a subject token of the same digest whose expiry was read and
      -- is zero, which no time is past, or has not come.
      pub acquire_delegated_token-Grants :
          (subject token : Bytes)
          → Clean audience × Clean scope × All IsOctet (sha256 subject)
          → (acquire_delegated_token w o sha256 expiry t c audience scope subject).1 ≡ ok token
          → Grants (form_of o (delegated audience scope subject)) token
            ⊎ ((v : Bytes) × (sha256 subject ≡ sha256 v)
                × Grants (form_of o (delegated audience scope v)) token
                × (n : ℕ) × (expiry v ≡ some n)
                × ((n ≡ 0) ⊎ (t.looked < n)))
      unfolding acquire_delegated_token
      acquire_delegated_token-Grants subject token p q =
          let key = delegated_key sha256 audience scope subject in
          let r = delegated audience scope subject in
          let k = of_delegated audience scope subject p in
          let h = Runs-Origin start c s in
          elim (or_request-ok r key k t c h (cached c.tokens key t.looked o.early_refresh) token
            q) [
              | inl found ↦
                  (let (e, (q, j, g, l), same, live) =
                      cached-Origin c.tokens key token t.looked o.early_refresh h found in
                    let (v, eq, digest) = same-key r q key key k j refl in
                    inr (
                      v,
                      digest,
                      subst (λ x. Grants (form_of o x) token) eq
                          (subst (Grants (form_of o q)) same g),
                      e.not_after,
                      subst (λ x. limit x ≡ some e.not_after) eq l,
                      servable-not_after e t.looked o.early_refresh live,
                    ))
              | inr (n, g) ↦ inl g
            ]
