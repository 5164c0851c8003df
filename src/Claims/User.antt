-- ===== src/Claims/User.antt =====
-- claims/claims.go: the claims that a request's user has, and the client that brought the request.
use go_authbyte.Base.{
  ℕ, sym, subst, ◌≢◌, inl, inr, Bool, true, false, ◌++◌, All, Bool-cases, ==_iff, ◌≡◌, refl, ap,
  ◌∙◌, Option, none, some, List, [], ◌∷◌, arith, if◌then◌else◌, ◌==◌, Bytes, codes, ℕ_comparable,
  Bytes_comparable,
}
use go_authbyte.Base.Map.{lookup, insert, lookup-insert}
use go_authbyte.IdentityCode.Chars.{is_space, trim_space}
use go_authbyte.Claims.{
  word_of, split_words, fields, Claims, Actor, nobody, actor, chain, scopes, single, set_all, run,
  statements, to_user_claims, UserClaims, ClaimReader, or_client, acting_client,
}

-- A claim with values; one without is not in the map.
abbrev pub present : List Bytes → Option (List Bytes) → Option (List Bytes)
present [] other = other
present (v ∷ values) other = some (v ∷ values)

lookup-set_all :
    (claim : Bytes) (values : List Bytes) (m : UserClaims) (j : Bytes)
    → lookup (set_all claim values m) j
      ≡ (if j == claim then present values (lookup m j) else lookup m j)
unfolding set_all
lookup-set_all claim [] m j = ground arith
lookup-set_all claim (v ∷ values) m j = lookup-insert m claim j (v ∷ values)

-- What the statements make of the values that a claim has before them.
abbrev after : Bytes → UserClaims → Option (List Bytes) → Option (List Bytes)
after j [] o = o
after j ((claim, values) ∷ rest) o = after j rest (if j == claim then present values o else o)

lookup-run : (rest m : UserClaims) (j : Bytes) → lookup (run rest m) j ≡ after j rest (lookup m j)
unfolding run
lookup-run [] m j = refl
lookup-run ((claim, values) ∷ rest) m j =
    lookup-run rest (set_all claim values m) j ∙ ap (after j rest) (lookup-set_all claim values m j)

lookup-sub :
    (subject j : Bytes)
    → lookup (insert [] (codes "sub") (subject ∷ [])) j
      ≡ (if j == codes "sub" then some (subject ∷ []) else none)
unfolding lookup
lookup-sub subject j = lookup-insert [] (codes "sub") j (subject ∷ [])

claim-after :
    (c : Claims) (j : Bytes)
    → lookup (to_user_claims c) j
      ≡ after j (statements c) (if j == codes "sub" then some (c.subject ∷ []) else none)
unfolding to_user_claims
claim-after c j =
    lookup-run (statements c) (insert [] (codes "sub") (c.subject ∷ [])) j
    ∙ ap (after j (statements c)) (lookup-sub c.subject j)

-- The actors of a token's delegation, from the first, up to one without a name.
pub data IsChain : Actor → List Bytes → Type 0 where
  ends : IsChain nobody []
  unnamed : (act : Actor) → IsChain (actor [] act) []
  named :
      (subject : Bytes) (act : Actor) (rest : List Bytes)
      → subject ≢ []
      → IsChain act rest
      → IsChain (actor subject act) (subject ∷ rest)

chain-IsChain : (a : Actor) → IsChain a (chain a)
unfolding chain
chain-IsChain nobody = ends
chain-IsChain (actor [] act) = unnamed act
chain-IsChain (actor (c ∷ subject) act) =
    named (c ∷ subject) act (chain act) (λ q. cc) (chain-IsChain act)

-- A text is at its end, or at a white space.
abbrev pub Stops : Bytes → Type 0
Stops [] = Unit
Stops (c ∷ s) = is_space c ≡ true

-- The words of a text: they are not empty and without white space, and only white space is between.
pub data IsWords : Bytes → List Bytes → Type 0 where
  over : IsWords [] []
  space :
      (c : ℕ) (s : Bytes) (words : List Bytes)
      → is_space c ≡ true
      → IsWords s words
      → IsWords (c ∷ s) words
  word :
      (w s : Bytes) (words : List Bytes)
      → w ≢ []
      → All (λ c. is_space c ≡ false) w
      → Stops s
      → IsWords s words
      → IsWords (w ++ s) (w ∷ words)

-- A text begins with its first word, which may be empty.
Begins : Bytes → Bytes × List Bytes → Type 0
Begins s q =
    (rest : Bytes) × (s ≡ q.0 ++ rest)
    × All (λ c. is_space c ≡ false) q.0
    × Stops rest
    × IsWords rest q.1

word_of-IsWords :
    (s w : Bytes) (words : List Bytes) → Begins s (w, words) → IsWords s (word_of w words)
unfolding Begins
word_of-IsWords s [] words (rest, e, clear, stops, h) = subst (λ x. IsWords x words) (sym e) h
word_of-IsWords s (c ∷ w) words (rest, e, clear, stops, h) =
    subst (λ x. IsWords x ((c ∷ w) ∷ words)) (sym e)
      (word (c ∷ w) rest words (λ q. cc) clear stops h)

split_words-Begins : (s : Bytes) → Begins s (split_words s)
unfolding split_words Begins
split_words-Begins [] = ([], refl, tt, tt, over)
split_words-Begins (c ∷ s) = go (split_words s) (split_words-Begins s) (is_space c) refl
  where
    go :
        (q : Bytes × List Bytes)
        → Begins s q
        → (b : Bool) → is_space c ≡ b
        → Begins (c ∷ s) (if b then ([], word_of q.0 q.1) else (c ∷ q.0, q.1))
    go q h true e =
        (c ∷ s, refl, tt, e, space c s (word_of q.0 q.1) e (word_of-IsWords s q.0 q.1 h))
    go q (rest, same, clear, stops, h) false e = (rest, ap (◌∷◌ c) same, (e, clear), stops, h)

scopes-IsWords : (c : Claims) → IsWords c.scope (scopes c)
unfolding scopes fields
scopes-IsWords c =
    word_of-IsWords c.scope (split_words c.scope).0 (split_words c.scope).1
      (split_words-Begins c.scope)

-- The claims that a user may have.
abbrev pub names : List Bytes
names =
    codes "sub"
    ∷ codes "scope"
    ∷ codes "loa"
    ∷ codes "login_method"
    ∷ codes "name"
    ∷ codes "given_name"
    ∷ codes "family_name"
    ∷ codes "serial_number"
    ∷ codes "tenant"
    ∷ codes "client_id"
    ∷ codes "act"
    ∷ []

after-none :
    (j : Bytes) (rest : UserClaims) → All (λ e. (j == e.0) ≡ false) rest → after j rest none ≡ none
after-none j [] h = refl
after-none j (e ∷ rest) (p, h) =
    ap (λ b. after j rest (if b then present e.1 none else none)) p ∙ after-none j rest h

other : (c : Claims) (j : Bytes) → All (λ n. j ≢ n) names → lookup (to_user_claims c) j ≡ none
other c j (a, (b, (d, (e, (f, (g, (h, (i, (k, (l, (m, u))))))))))) =
    claim-after c j
    ∙ ap (λ x. after j (statements c) (if x then some (c.subject ∷ []) else none))
        (apart (codes "sub") a)
    ∙ after-none j (statements c) (
      apart _ b,
      (
        apart _ d,
        (
          apart _ e,
          (
            apart _ f,
            (apart _ g, (apart _ h, (apart _ i, (apart _ k, (apart _ l, (apart _ m, tt)))))),
          ),
        ),
      ),
    )
  where
    apart : (n : Bytes) → j ≢ n → (j == n) ≡ false
    apart n d = elim (Bool-cases (j == n)) [ inl e ↦ absurd (d ((==_iff j n).0 e)) | inr e ↦ e ]

-- A claim has the value that a text is, or is missing where the text is empty.
abbrev pub HasText : UserClaims → Bytes → Bytes → Type 0
HasText m j [] = lookup m j ≡ none
HasText m j (c ∷ value) = lookup m j ≡ some ((c ∷ value) ∷ [])

text-HasText :
    (m : UserClaims) (j value : Bytes)
    → lookup m j ≡ present (single value) none
    → HasText m j value
text-HasText m j [] h = h
text-HasText m j (c ∷ value) h = h

-- A claim has the values given, or is missing where there are none.
abbrev pub HasValues : UserClaims → Bytes → List Bytes → Type 0
HasValues m j [] = lookup m j ≡ none
HasValues m j (v ∷ values) = lookup m j ≡ some (v ∷ values)

values-HasValues :
    (m : UserClaims) (j : Bytes) (values : List Bytes)
    → lookup m j ≡ present values none
    → HasValues m j values
values-HasValues m j [] h = h
values-HasValues m j (v ∷ values) h = h

-- What a user is to have of a token.
abbrev pub IsUser : Claims → UserClaims → Type 0
IsUser c m =
    (lookup m (codes "sub") ≡ some (c.subject ∷ []))
    × HasText m (codes "loa") c.loa
    × HasText m (codes "login_method") c.login_method
    × HasText m (codes "name") c.name
    × HasText m (codes "given_name") c.given_name
    × HasText m (codes "family_name") c.family_name
    × HasText m (codes "serial_number") c.serial_number
    × HasText m (codes "tenant") c.tenant
    × HasText m (codes "client_id") c.client_id
    × ((words : List Bytes) × IsWords c.scope words × HasValues m (codes "scope") words)
    × ((actors : List Bytes) × IsChain c.act actors × HasValues m (codes "act") actors)
    × ((j : Bytes) → All (λ n. j ≢ n) names → lookup m j ≡ none)

-- The user has the token's subject, each of its texts that is not empty, the words of its scope, the
-- actors of its delegation up to one without a name, and no other claim.
pub lookup-to_user_claims : (c : Claims) → IsUser c (to_user_claims c)
lookup-to_user_claims c =
    let m = to_user_claims c in
    (
      claim-after c (codes "sub"),
      text-HasText m (codes "loa") c.loa (claim-after c (codes "loa")),
      text-HasText m (codes "login_method") c.login_method (claim-after c (codes "login_method")),
      text-HasText m (codes "name") c.name (claim-after c (codes "name")),
      text-HasText m (codes "given_name") c.given_name (claim-after c (codes "given_name")),
      text-HasText m (codes "family_name") c.family_name (claim-after c (codes "family_name")),
      text-HasText m (codes "serial_number") c.serial_number
          (claim-after c (codes "serial_number")),
      text-HasText m (codes "tenant") c.tenant (claim-after c (codes "tenant")),
      text-HasText m (codes "client_id") c.client_id (claim-after c (codes "client_id")),
      (
        scopes c,
        scopes-IsWords c,
        values-HasValues m (codes "scope") (scopes c) (claim-after c (codes "scope")),
      ),
      (
        chain c.act,
        chain-IsChain c.act,
        values-HasValues m (codes "act") (chain c.act) (claim-after c (codes "act")),
      ),
      other c,
    )

-- The first value of a claim, which is empty where the user has none.
abbrev first_value : Option (List Bytes) → Bytes
first_value none = []
first_value (some []) = []
first_value (some (v ∷ values)) = v

abbrev pub reader_of : UserClaims → ClaimReader
reader_of m j = first_value (lookup m j)

first-single : (value : Bytes) → first_value (present (single value) none) ≡ value
first-single [] = refl
first-single (c ∷ value) = refl

-- Whom a token's chain names first: nobody where it is empty.
abbrev first_actor : Actor → Bytes
first_actor nobody = []
first_actor (actor subject act) = subject

first-chain : (a : Actor) → first_value (present (chain a) none) ≡ first_actor a
unfolding chain
first-chain nobody = refl
first-chain (actor [] act) = refl
first-chain (actor (c ∷ subject) act) = refl

or_client-client :
    (u t : ClaimReader)
    → u (codes "client_id") ≡ t (codes "client_id")
    → (a : Bytes) → or_client u a ≡ or_client t a
or_client-client u t k [] = ap trim_space k
or_client-client u t k (c ∷ a) = refl

-- The acting client of a user who is built from a token is the subject of the token's actor, or the
-- token's client where it has no actor or one without a name, less the white space around it; for a
-- reader that gives the first value of a claim.
acting_client-to_user_claims :
    (c : Claims)
    → acting_client (some (reader_of (to_user_claims c)))
      ≡ acting_client (some (λ j. if j == codes "act" then first_actor c.act else c.client_id))
unfolding acting_client
acting_client-to_user_claims c =
    let act : reader_of (to_user_claims c) (codes "act") ≡ first_actor c.act =
      ap first_value (claim-after c (codes "act")) ∙ first-chain c.act in
    let client : reader_of (to_user_claims c) (codes "client_id") ≡ c.client_id =
      ap first_value (claim-after c (codes "client_id")) ∙ first-single c.client_id in
    both (reader_of (to_user_claims c))
      (λ j. if j == codes "act" then first_actor c.act else c.client_id) act client
  where
    both :
        (u t : ClaimReader)
        → u (codes "act") ≡ t (codes "act")
        → u (codes "client_id") ≡ t (codes "client_id")
        → or_client u (trim_space (u (codes "act"))) ≡ or_client t (trim_space (t (codes "act")))
    both u t h k =
        or_client-client u t k (trim_space (u (codes "act")))
        ∙ ap (λ x. or_client t (trim_space x)) h
