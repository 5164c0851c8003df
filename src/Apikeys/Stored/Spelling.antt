-- ===== src/Apikeys/Stored/Spelling.antt =====
-- apikeys/apikeys.go: a stored string is the only spelling of what is read.
use go_authbyte.Base.{
  ℕ, ◌≤◌, ◌<◌, ◌≡◌, refl, sym, ap, ◌∙◌, subst, inl, inr, Bool, true, false, ◌&&◌, Option, none,
  some, List, [], ◌∷◌, ◌++◌, arith, ltb, if◌then◌else◌, nat_eq_iff, Bool-cases, length, ◌==◌, Bytes,
  codes, bytes_eq_iff, ℕ_comparable, Bytes_comparable, Result, ok, err, ◌>>=◌, bind-ok, ok_inj,
}
use go_authbyte.Apikeys.Stored.{
  Params, StoredHash, encode_stored, cut_prefix, decimal, read_params, bytes_of, params_of,
  in_bounds, read_fields, read_rest, bounded, decode_stored, dollar, comma, version, u32, u8,
  salt_len, max_salt_len, tag_len, max_stored_len, StoredError, too_long, not_argon2id,
  outside_bounds, number_of, canonical_number,
}
use go_authbyte.Apikeys.Encoding.Base64.{standard, encode, strict_base64, encode-strict_base64}
use go_authbyte.Apikeys.Encoding.Decimal.{format, parse_uint, parse_uint-lt}
use go_authbyte.Apikeys.Stored.RoundTrip.{FitsParams}
use go_authbyte.Apikeys.Encoding.Split.{split, joined_by, joined_by-split}
use go_authbyte.Apikeys.Stored.Fields.{parameter_fields, fields, encode_stored-joined_by}

cut_prefix-some : (p s r : Bytes) → cut_prefix p s ≡ some r → p ++ r ≡ s
unfolding cut_prefix
cut_prefix-some [] s r h = cc
cut_prefix-some (c ∷ p) [] r h = cc
cut_prefix-some (c ∷ p) (d ∷ s) r h = ground (arith, nat_eq_iff c d, cut_prefix-some p s r)

canonical_number-some :
    (v : Bytes) (n : ℕ) (o : Option ℕ)
    → canonical_number v o ≡ some n
    → (format n ≡ v) × (o ≡ some n)
canonical_number-some v n none h = cc
canonical_number-some v n (some m) h = ground (arith, bytes_eq_iff (format m) v)

number_of-some :
    (name field : Bytes) (limit n : ℕ) (o : Option Bytes)
    → 0 < limit
    → cut_prefix name field ≡ o
    → number_of limit o ≡ some n
    → (name ++ format n ≡ field) × (n < limit)
number_of-some name field limit n none p e h = cc
number_of-some name field limit n (some v) p e h =
    let (spelt, read) = canonical_number-some v n (parse_uint limit v) h in
    (ap (◌++◌ name) spelt ∙ cut_prefix-some name field v e, parse_uint-lt limit v n p read)

-- A number that is read is below its limit, and the one that its field spells behind the name.
decimal-some :
    (field name : Bytes) (limit n : ℕ)
    → 0 < limit
    → decimal field name limit ≡ some n
    → (name ++ format n ≡ field) × (n < limit)
unfolding decimal
decimal-some field name limit n p h =
    number_of-some name field limit n (cut_prefix name field) p refl h

params_of-ok :
    (a b c : Option ℕ) (p : Params)
    → params_of a b c ≡ ok p
    → (a ≡ some p.memory) × (b ≡ some p.iterations) × (c ≡ some p.parallelism)
params_of-ok (some m) (some t) (some l) p h = (
  ap some (ap (λ q. q.memory) (ok_inj h)),
  ap some (ap (λ q. q.iterations) (ok_inj h)),
  ap some (ap (λ q. q.parallelism) (ok_inj h)),
)
params_of-ok none b c p h = cc
params_of-ok (some m) none c p h = cc
params_of-ok (some m) (some t) none p h = cc

read_params_three :
    (a b c : Bytes) (p : Params)
    → read_params (a ∷ b ∷ c ∷ []) ≡ ok p
    → (a ∷ b ∷ c ∷ [] ≡ parameter_fields p) × FitsParams p
unfolding read_params
read_params_three a b c p h =
    let (read_m, read_t, read_p) =
      params_of-ok (decimal a (codes "m=") u32) (decimal b (codes "t=") u32)
        (decimal c (codes "p=") u8) p h in
    let (m, fits_m) = decimal-some a (codes "m=") u32 p.memory (omega arith) read_m in
    let (t, fits_t) = decimal-some b (codes "t=") u32 p.iterations (omega arith) read_t in
    let (l, fits_p) = decimal-some c (codes "p=") u8 p.parallelism (omega arith) read_p in
    (rw (sym m, sym t, sym l) refl, (fits_m, fits_t, fits_p))

read_params-ok :
    (l : List Bytes) (p : Params) → read_params l ≡ ok p → (l ≡ parameter_fields p) × FitsParams p
unfolding read_params
read_params-ok (a ∷ b ∷ c ∷ []) p h = read_params_three a b c p h
read_params-ok [] p h = cc
read_params-ok (a ∷ []) p h = cc
read_params-ok (a ∷ b ∷ []) p h = cc
read_params-ok (a ∷ b ∷ c ∷ d ∷ l) p h = cc

bytes_of-ok_iff :
    (a b : Option Bytes) (salt tag : Bytes)
    → bytes_of a b ≡ ok (salt, tag)
    → (a ≡ some salt)
      × (b ≡ some tag)
      × (salt_len ≤ length salt)
      × (length salt ≤ max_salt_len)
      × (length tag ≡ tag_len)
bytes_of-ok_iff none b salt tag h = cc
bytes_of-ok_iff (some s) none salt tag h = cc
bytes_of-ok_iff (some s) (some t) salt tag h = ground (arith, nat_eq_iff (length t) tag_len)

-- What an accepted stored string satisfies.
abbrev pub Accepted : Params → Params → StoredHash → Type 0
Accepted floor ceiling st =
    FitsParams st.params
    × (in_bounds floor ceiling st.params ≡ true)
    × (salt_len ≤ length st.salt)
    × (length st.salt ≤ max_salt_len)
    × (length st.tag ≡ tag_len)

bounded-ok :
    (floor ceiling p : Params) (salt tag : Bytes) (st : StoredHash)
    → bounded floor ceiling p (salt, tag) ≡ ok st
    → (in_bounds floor ceiling p ≡ true) × (p ≡ st.params) × (salt ≡ st.salt) × (tag ≡ st.tag)
unfolding bounded
bounded-ok floor ceiling p salt tag st h = elim (Bool-cases (in_bounds floor ceiling p)) [
  | inl e ↦
      let same =
        subst
          (λ b.
            (if b then ok (record { params = p; salt = salt; tag = tag }) else err outside_bounds)
            ≡ ok st)
          e h in
      (
        e,
        ap (λ q. q.params) (ok_inj same),
        ap (λ q. q.salt) (ok_inj same),
        ap (λ q. q.tag) (ok_inj same),
      )
  | inr e ↦ absurd (
      err-ne-ok (
        subst
          (λ b.
            (if b then ok (record { params = p; salt = salt; tag = tag }) else err outside_bounds)
            ≡ ok st)
          e h))
]
  where
    err-ne-ok : ◌≡◌ {A = Result StoredError StoredHash} (err outside_bounds) (ok st) → ⊥
    err-ne-ok h = cc

same_pair : {a b c d : Bytes} → a ≡ b → c ≡ d → ◌≡◌ {A = Bytes × Bytes} (a, c) (b, d)
same_pair h k = cc

read_rest-ok :
    (floor ceiling : Params) (f3 f4 f5 : Bytes) (st : StoredHash)
    → read_rest floor ceiling f3 f4 f5 ≡ ok st
    → (f3 ∷ f4 ∷ f5 ∷ []
        ≡ joined_by comma (parameter_fields st.params)
          ∷ encode standard st.salt
          ∷ encode standard st.tag
          ∷ [])
      × Accepted floor ceiling st
unfolding read_rest
read_rest-ok floor ceiling f3 f4 f5 st h =
    let (p, read, h1) =
      bind-ok (read_params (split comma f3))
        (λ p. bytes_of (strict_base64 f4) (strict_base64 f5) >>= λ b. bounded floor ceiling p b)
        h in
    let (b, decoded, h2) =
      bind-ok (bytes_of (strict_base64 f4) (strict_base64 f5)) (bounded floor ceiling p) h1 in
    let (within, same_p, same_salt, same_tag) = bounded-ok floor ceiling p b.0 b.1 st h2 in
    let (parts, fits) = read_params-ok (split comma f3) st.params (read ∙ ap ok same_p) in
    let (s4, s5, least, most, exact) =
      bytes_of-ok_iff (strict_base64 f4) (strict_base64 f5) st.salt st.tag
        (decoded ∙ ap ok (same_pair same_salt same_tag)) in
    let e3 : joined_by comma (parameter_fields st.params) ≡ f3 =
      ap (joined_by comma) (sym parts) ∙ joined_by-split comma f3 in
    (
      rw (sym e3, encode-strict_base64 f4 st.salt s4, encode-strict_base64 f5 st.tag s5) refl,
      (fits, rw (sym same_p) within, least, most, exact),
    )

three_tests : (a b c : Bool) → (a && (b && c)) ≡ true → (a ≡ true) × (b ≡ true) × (c ≡ true)
three_tests a b c h = ground arith

six_fields-ok :
    (floor ceiling : Params) (f0 f1 f2 f3 f4 f5 : Bytes) (st : StoredHash)
    → read_fields floor ceiling (f0 ∷ f1 ∷ f2 ∷ f3 ∷ f4 ∷ f5 ∷ []) ≡ ok st
    → (f0 ∷ f1 ∷ f2 ∷ f3 ∷ f4 ∷ f5 ∷ [] ≡ fields st.params st.salt st.tag)
      × Accepted floor ceiling st
unfolding read_fields
six_fields-ok floor ceiling f0 f1 f2 f3 f4 f5 st h =
    go (f0 == [] && (f1 == codes "argon2id" && f2 == codes "v=" ++ format version)) refl h
  where
    go :
        (b : Bool)
        → (f0 == [] && (f1 == codes "argon2id" && f2 == codes "v=" ++ format version)) ≡ b
        → (if b then read_rest floor ceiling f3 f4 f5 else err not_argon2id) ≡ ok st
        → (f0 ∷ f1 ∷ f2 ∷ f3 ∷ f4 ∷ f5 ∷ [] ≡ fields st.params st.salt st.tag)
          × Accepted floor ceiling st
    go false e k = cc
    go true e k =
        let (e0, e1, e2) =
          three_tests (f0 == []) (f1 == codes "argon2id") (f2 == codes "v=" ++ format version) e in
        let (rest, accepted) = read_rest-ok floor ceiling f3 f4 f5 st k in
        (
          rw
              (
                (bytes_eq_iff f0 []).0 e0,
                (bytes_eq_iff f1 (codes "argon2id")).0 e1,
                (bytes_eq_iff f2 (codes "v=" ++ format version)).0 e2,
              )
              (ap (λ l. [] ∷ codes "argon2id" ∷ (codes "v=" ++ format version) ∷ l) rest),
          accepted,
        )

read_fields-ok :
    (floor ceiling : Params) (l : List Bytes) (st : StoredHash)
    → read_fields floor ceiling l ≡ ok st
    → (l ≡ fields st.params st.salt st.tag) × Accepted floor ceiling st
unfolding read_fields
read_fields-ok floor ceiling (f0 ∷ f1 ∷ f2 ∷ f3 ∷ f4 ∷ f5 ∷ []) st h =
    six_fields-ok floor ceiling f0 f1 f2 f3 f4 f5 st h
read_fields-ok floor ceiling [] st h = cc
read_fields-ok floor ceiling (f0 ∷ []) st h = cc
read_fields-ok floor ceiling (f0 ∷ f1 ∷ []) st h = cc
read_fields-ok floor ceiling (f0 ∷ f1 ∷ f2 ∷ []) st h = cc
read_fields-ok floor ceiling (f0 ∷ f1 ∷ f2 ∷ f3 ∷ []) st h = cc
read_fields-ok floor ceiling (f0 ∷ f1 ∷ f2 ∷ f3 ∷ f4 ∷ []) st h = cc
read_fields-ok floor ceiling (f0 ∷ f1 ∷ f2 ∷ f3 ∷ f4 ∷ f5 ∷ f6 ∷ l) st h = cc

-- A stored string that is read is the very string that its parameters, salt and tag are stored
-- as: there is one spelling only. Each number fits its type, the parameters are between the
-- floor and the ceiling, the salt has 16 to 64 bytes, and the tag has 32.
pub decode_stored-ok :
    (floor ceiling : Params) (h : Bytes) (st : StoredHash)
    → decode_stored floor ceiling h ≡ ok st
    → (encode_stored st.params st.salt st.tag ≡ h) × Accepted floor ceiling st
unfolding decode_stored
decode_stored-ok floor ceiling h st e =
    let (parts, accepted) =
      read_fields-ok floor ceiling (split dollar h) st (short (ltb max_stored_len (length h)) e) in
    (
      encode_stored-joined_by st.params st.salt st.tag
          ∙ ap (joined_by dollar) (sym parts)
          ∙ joined_by-split dollar h,
      accepted,
    )
  where
    short :
        (b : Bool)
        → (if b then err too_long else read_fields floor ceiling (split dollar h)) ≡ ok st
        → read_fields floor ceiling (split dollar h) ≡ ok st
    short true e = cc
    short false e = e
