-- ===== src/Apikeys/Stored/Fields.antt =====
-- apikeys/apikeys.go: the fields of a stored string, between its separators.
use go_authbyte.Base.{
  ℕ, ◌<◌, ◌≡◌, refl, ap, ◌∙◌, Bool, true, false, not, List, [], ◌∷◌, ◌++◌, append_assoc, arith,
  nat_eq, nat_eq_iff, all, All, Bytes, codes, ℕ_comparable, Bytes_comparable,
}
use go_authbyte.Apikeys.Stored.{Params, encode_stored, dollar, comma, version}
use go_authbyte.Apikeys.Encoding.Base64.{standard, letter, encode, IsByte, encode-all}
use go_authbyte.Apikeys.Encoding.Decimal.{format, format-decimal, is_decimal}
use go_authbyte.Apikeys.Encoding.Split.{split, joined_by, Lacks, split-joined_by}

-- The fields that a stored string spells between its dollars, and the parameters between commas.
abbrev pub parameter_fields : Params → List Bytes
parameter_fields p =
    (codes "m=" ++ format p.memory)
    ∷ (codes "t=" ++ format p.iterations)
    ∷ (codes "p=" ++ format p.parallelism)
    ∷ []

abbrev pub fields : Params → Bytes → Bytes → List Bytes
fields p salt tag =
    []
    ∷ codes "argon2id"
    ∷ (codes "v=" ++ format version)
    ∷ joined_by comma (parameter_fields p)
    ∷ encode standard salt
    ∷ encode standard tag
    ∷ []

pub encode_stored-joined_by :
    (p : Params) (salt tag : Bytes)
    → encode_stored p salt tag ≡ joined_by dollar (fields p salt tag)
unfolding encode_stored
encode_stored-joined_by p salt tag = simp append_assoc

all-weaken :
    {p q : ℕ → Bool}
    → ((c : ℕ) → p c ≡ true → q c ≡ true)
    → (s : Bytes) → all p s ≡ true
    → all q s ≡ true
all-weaken k [] h = refl
all-weaken k (c ∷ s) h = ground (arith, k c, all-weaken k s)

all-append : (p : ℕ → Bool) (s t : Bytes) → all p s ≡ true → all p t ≡ true → all p (s ++ t) ≡ true
all-append p [] t h k = k
all-append p (c ∷ s) t h k = ground (arith, all-append p s t)

-- No separator among digits or base64 letters.
format-Lacks : (sep n : ℕ) → is_decimal sep ≡ false → Lacks sep (format n)
format-Lacks sep n h =
    all-weaken (λ c k. ground (arith, nat_eq_iff c sep)) (format n) (format-decimal n)

encode-Lacks : (s : Bytes) → All IsByte s → Lacks dollar (encode standard s)
unfolding letter
encode-Lacks s h = encode-all standard (λ c. not (nat_eq c dollar)) s h letter_differs
  where
    letter_differs : (v : ℕ) → v < 64 → not (nat_eq (letter standard v) dollar) ≡ true
    letter_differs v k = ground arith

named-Lacks :
    (sep c n : ℕ)
    → is_decimal sep ≡ false
    → nat_eq c sep ≡ false
    → nat_eq b'=' sep ≡ false
    → Lacks sep (c ∷ b'=' ∷ format n)
named-Lacks sep c n h k l = ground (arith, format-Lacks sep n h)

pub parameter_fields_lack : (p : Params) → All (Lacks comma) (parameter_fields p)
parameter_fields_lack p = (
  named-Lacks comma b'm' p.memory refl refl refl,
  (
    named-Lacks comma b't' p.iterations refl refl refl,
    (named-Lacks comma b'p' p.parallelism refl refl refl, tt),
  ),
)

abbrev is_not_dollar : ℕ → Bool
is_not_dollar c = not (nat_eq c dollar)

joined-Lacks : (p : Params) → Lacks dollar (joined_by comma (parameter_fields p))
joined-Lacks p =
    all-append is_not_dollar (codes "m=" ++ format p.memory)
      (comma
        ∷ ((codes "t=" ++ format p.iterations) ++ comma ∷ (codes "p=" ++ format p.parallelism)))
      (named-Lacks dollar b'm' p.memory refl refl refl)
      (all-append is_not_dollar (codes "t=" ++ format p.iterations)
        (comma ∷ (codes "p=" ++ format p.parallelism))
        (named-Lacks dollar b't' p.iterations refl refl refl)
        (named-Lacks dollar b'p' p.parallelism refl refl refl))

fields_lack :
    (p : Params) (salt tag : Bytes)
    → All IsByte salt
    → All IsByte tag
    → All (Lacks dollar) (fields p salt tag)
fields_lack p salt tag h k = (
  refl,
  (
    refl,
    (
      named-Lacks dollar b'v' version refl refl refl,
      (joined-Lacks p, (encode-Lacks salt h, (encode-Lacks tag k, tt))),
    ),
  ),
)

pub split-encode_stored :
    (p : Params) (salt tag : Bytes)
    → All IsByte salt
    → All IsByte tag
    → split dollar (encode_stored p salt tag) ≡ fields p salt tag
split-encode_stored p salt tag h k =
    ap (split dollar) (encode_stored-joined_by p salt tag)
    ∙ split-joined_by dollar []
        (codes "argon2id"
          ∷ (codes "v=" ++ format version)
          ∷ joined_by comma (parameter_fields p)
          ∷ encode standard salt
          ∷ encode standard tag
          ∷ [])
        (fields_lack p salt tag h k)
