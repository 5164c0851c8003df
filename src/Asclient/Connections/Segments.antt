-- ===== src/Asclient/Connections/Segments.antt =====
-- asclient/connections.go: the paths of the calls.
use go_authbyte.Base.{
  ◌↔◌, ℕ, ◌==◌, ==_iff, All, arith, ◌≡◌, refl, sym, subst, ◌≢◌, ◌⊎◌, inl, inr, Bool, true, false,
  ◌||◌, Option, none, some, [], ◌∷◌, ◌++◌, if◌then◌else◌, Bool-cases, any, Bytes, codes,
  ℕ_comparable, Bytes_comparable,
}
use go_authbyte.Base.Texts.{is_empty, is_in}
use go_authbyte.IdentityCode.Chars.{trim_space}
use go_authbyte.Authclient.Calls.{Resource}
use go_authbyte.Asclient.{Ask, Client, Libraries, CallError, nothing_named, Wire, dpop_do, expect}
use go_authbyte.Asclient.Ends.{Sends, dpop_do-Sends, done-wire}
use go_authbyte.Asclient.Connections.{
  is_separator, segment, connections_end, end_at, assistant_path, sign_out_assistant_connection,
}

-- A byte that neither parts a path nor ends it: none of / \ ? # and %.
abbrev pub IsPlain : ℕ → Type 0
IsPlain b = (b ≢ 47) × (b ≢ 92) × (b ≢ 63) × (b ≢ 35) × (b ≢ 37)

-- A name that a path reads as one segment.
abbrev pub IsSegment : Bytes → Type 0
IsSegment name =
    (name ≢ codes ".")
    × (name ≢ codes "..")
    × All IsPlain name
    × (is_empty (trim_space name) ≡ false)

or_iff : (a b : Bool) → ((a || b) ≡ false) ↔ ((a ≡ false) × (b ≡ false))
or_iff true b = (λ h. cc, λ h. cc)
or_iff false b = (λ h. (refl, h), λ h. h.1)

IsPlain-iff : (b : ℕ) → (is_separator b ≡ false) ↔ IsPlain b
IsPlain-iff b = (
  (λ h. (
    (λ e. ground arith),
    (λ e. ground arith),
    (λ e. ground arith),
    (λ e. ground arith),
    (λ e. ground arith),
  )),
  (λ h. ground arith),
)

All-IsPlain_iff : (name : Bytes) → (any is_separator name ≡ false) ↔ All IsPlain name
All-IsPlain_iff [] = (λ h. tt, λ h. refl)
All-IsPlain_iff (b ∷ name) = (
  (λ h.
      let (p, q) = (or_iff (is_separator b) (any is_separator name)).0 h in
      ((IsPlain-iff b).0 p, (All-IsPlain_iff name).0 q)),
  (λ h.
      (or_iff (is_separator b) (any is_separator name)).1
        ((IsPlain-iff b).1 h.0, (All-IsPlain_iff name).1 h.1)),
)

dots_iff :
    (name : Bytes)
    → (is_in (codes "." ∷ codes ".." ∷ []) name ≡ false)
      ↔ ((name ≢ codes ".") × (name ≢ codes ".."))
dots_iff name = (
  (λ h.
      let (p, q) = (or_iff (codes "." == name) (codes ".." == name || false)).0 h in
      (
        λ e. let z = (==_iff (codes ".") name).1 (sym e) in cc,
        λ e.
            let z = (==_iff (codes "..") name).1 (sym e) in
            let y = (or_iff (codes ".." == name) false).0 q in cc,
      )),
  (λ h. (or_iff (codes "." == name) (codes ".." == name || false)).1 (
    differ (codes ".") h.0,
    (or_iff (codes ".." == name) false).1 (differ (codes "..") h.1, refl),
  )),
)
  where
    differ : (d : Bytes) → name ≢ d → (d == name) ≡ false
    differ d n = elim (Bool-cases (d == name)) [
      | inl e ↦ absurd (n (sym ((==_iff d name).0 e)))
      | inr e ↦ e
    ]

-- A name is a segment exactly where the code says so, and its escape is then the segment.
segment_cases :
    (l : Libraries) (name : Bytes)
    → (IsSegment name × (segment l name ≡ some (l.path_escape name)))
      ⊎ ((¬ IsSegment name) × (segment l name ≡ none))
unfolding segment
segment_cases l name =
    go (is_empty (trim_space name)) (is_in (codes "." ∷ codes ".." ∷ []) name)
      (any is_separator name) refl refl refl
  where
    go :
        (a b c : Bool)
        → is_empty (trim_space name) ≡ a
        → is_in (codes "." ∷ codes ".." ∷ []) name ≡ b
        → any is_separator name ≡ c
        → (IsSegment name
            × ((if a || (b || c) then none else some (l.path_escape name))
                ≡ some (l.path_escape name)))
          ⊎ ((¬ IsSegment name)
              × ((if a || (b || c) then none else some (l.path_escape name)) ≡ none))
    go true b c e f g = inr ((λ h. let (x, y, z, u) = h in cc), refl)
    go false true c e f g =
        inr ((λ h. let (x, y, z, u) = h in let v = (dots_iff name).1 (x, y) in cc), refl)
    go false false true e f g =
        inr ((λ h. let (x, y, z, u) = h in let v = (All-IsPlain_iff name).1 z in cc), refl)
    go false false false e f g =
        let (x, y) = (dots_iff name).0 f in inl ((x, y, (All-IsPlain_iff name).0 g, e), refl)

module _ {T : Type 0} (w : Resource T) (l : Libraries) (c : Client) (x : Wire T)
    (access_token : Bytes) where
  abbrev pub Refused : Wire T × Option CallError → Type 0
  Refused q = (q.0 ≡ x) × (q.1 ≡ some nothing_named)

  -- A DELETE of a path, with the token.
  abbrev pub deletion : Bytes → Ask
  deletion path = record {
    method = codes "DELETE";
    path = path;
    access_token = access_token;
    content_type = [];
    body = none;
  }

  connections_end-Sends :
      (path : Bytes)
      → ((is_empty (trim_space access_token) ≡ true)
          × Refused (connections_end w l c x access_token path))
        ⊎ ((is_empty (trim_space access_token) ≡ false)
            × Sends w l c x (deletion path) (connections_end w l c x access_token path).0)
  unfolding connections_end
  connections_end-Sends path = elim (Bool-cases (is_empty (trim_space access_token))) [
    | inl e ↦ inl (e, (rw e refl, rw e refl))
    | inr e ↦ inr (
      e,
      rw e (
          subst (Sends w l c x (deletion path))
            (sym (done-wire w l c (expect w l c 204 (dpop_do w l c x (deletion path)))))
            (dpop_do-Sends w l c x (deletion path))),
    )
  ]

  -- The path of an assistant's connection.
  abbrev pub path_of : Bytes → Bytes → Bytes
  path_of assistant id =
      codes "/identity/assistants/"
      ++ (l.path_escape assistant ++ (codes "/connections/" ++ l.path_escape id))

  -- There is a token, and both names are segments.
  abbrev pub Addresses : Bytes → Bytes → Type 0
  Addresses assistant id =
      (is_empty (trim_space access_token) ≡ false) × IsSegment assistant × IsSegment id

  abbrev pub Outcome : Bytes → Bytes → Wire T × Option CallError → Type 0
  Outcome assistant id q =
      ((¬ Addresses assistant id) × Refused q)
      ⊎ (Addresses assistant id × Sends w l c x (deletion (path_of assistant id)) q.0)

  -- Signing out an assistant's connection sends a DELETE, to the path of the escaped names and to no
  -- other, exactly where there is a token and both names are one segment of a path: not blank, neither
  -- "." nor "..", and without the bytes / \ ? # and %. Else it sends nothing and is an error.
  pub sign_out_assistant_connection-Ends :
      (assistant id : Bytes)
      → Outcome assistant id (sign_out_assistant_connection w l c x access_token assistant id)
  unfolding sign_out_assistant_connection
  sign_out_assistant_connection-Ends assistant id =
      go (segment l assistant) (segment l id) (segment_cases l assistant) (segment_cases l id)
    where
      Case : Bytes → Option Bytes → Type 0
      Case name o =
          (IsSegment name × (o ≡ some (l.path_escape name))) ⊎ ((¬ IsSegment name) × (o ≡ none))

      sent :
          IsSegment assistant
          → IsSegment id
          → Outcome assistant id (
              end_at w l c x access_token
                (assistant_path w l c (some (l.path_escape assistant)) (some (l.path_escape id))))
      sent one other = elim (connections_end-Sends (path_of assistant id)) [
        | inl (e, r) ↦ inl ((λ h. let z = h.0 in cc), r)
        | inr (e, s) ↦ inr ((e, one, other), s)
      ]

      no_second :
          (a : Option Bytes) → Refused (end_at w l c x access_token (assistant_path w l c a none))
      no_second none = (refl, refl)
      no_second (some a) = (refl, refl)

      go :
          (a b : Option Bytes)
          → Case assistant a
          → Case id b
          → Outcome assistant id (end_at w l c x access_token (assistant_path w l c a b))
      go a b (inr (n, e)) k = inl (
        (λ h. n h.1),
        subst (λ a. Refused (end_at w l c x access_token (assistant_path w l c a b))) (sym e)
            (refl, refl),
      )
      go a b (inl p) (inr (n, e)) = inl (
        (λ h. n h.2),
        subst (λ b. Refused (end_at w l c x access_token (assistant_path w l c a b))) (sym e)
            (no_second a),
      )
      go a b (inl (one, e)) (inl (other, f)) =
          subst (λ a. Outcome assistant id (end_at w l c x access_token (assistant_path w l c a b)))
            (sym e)
            (subst
              (λ b. Outcome assistant id (
                end_at w l c x access_token
                  (assistant_path w l c (some (l.path_escape assistant)) b)))
              (sym f) (sent one other))
