-- ===== src/Apikeys/Scheme/Parse.antt =====
-- apikeys/apikeys.go: which texts `parse` takes for a key, and what it reads from them.
use go_authbyte.Base.{
  ℕ, suc, ◌+◌, ◌≤◌, ◌≡◌, refl, sym, ap, ◌∙◌, subst, ◌↔◌, Bool, true, false, ◌&&◌, Option, none,
  some, ◌∷◌, ◌++◌, arith, nat_eq, if◌then◌else◌, nat_eq_iff, length, take, drop, get_elem?, all,
  length-append, ◌==◌, Bytes, bytes_eq_iff, ℕ_comparable, Bytes_comparable,
}
use go_authbyte.Base.Slices.{
  take-length-append, drop-length-append, get_elem_length-append, drop-drop, get_elem-drop,
  take-drop_elem, length-take, length-drop,
}
use go_authbyte.Apikeys.Scheme.{
  separator, lookup_len, secret_len, lookup_chars, secret_chars, ParsedKey, is_byte, shaped, parse,
}

-- The text of a key of the family `name`.
abbrev pub spelling : Bytes → Bytes → Bytes → Bytes
spelling name lookup secret = name ++ separator ∷ (lookup ++ separator ∷ secret)

-- The two parts are of their lengths and of their characters.
abbrev pub AreParts : Bytes → Bytes → Type 0
AreParts lookup secret =
    (length lookup ≡ lookup_len)
    × (length secret ≡ secret_len)
    × (all lookup_chars lookup ≡ true)
    × (all secret_chars secret ≡ true)

is_byte-some : (o : Option ℕ) (c : ℕ) → is_byte o c ≡ true → o ≡ some c
is_byte-some none c h = cc
is_byte-some (some b) c h = ap some ((nat_eq_iff b c).0 h)

four_tests :
    (a b c d : Bool)
    → (a && (b && (c && d))) ≡ true
    → (a ≡ true) × (b ≡ true) × (c ≡ true) × (d ≡ true)
four_tests a b c d h = ground arith

-- A key of the right shape is its parts with the separators between them.
shaped-spelling :
    (name key : Bytes)
    → shaped name key ≡ true
    → (spelling name
          (take lookup_len (drop (length name + 1) key))
          (drop (length name + 2 + lookup_len) key)
        ≡ key)
      × (length key ≡ length name + 42)
unfolding shaped
shaped-spelling name key h =
    let n = length name in
    let (size, scheme, first, second) =
      four_tests (nat_eq (length key) (n + 1 + lookup_len + 1 + secret_len)) (take n key == name)
        (is_byte (get_elem? key n) separator)
        (is_byte (get_elem? key (n + 1 + lookup_len)) separator) h in
    let body = drop (n + 1) key in
    let at_first : get_elem? key n ≡ some separator =
      is_byte-some (get_elem? key n) separator first in
    let at_second : get_elem? body lookup_len ≡ some separator =
      get_elem-drop lookup_len (n + 1) key
      ∙ is_byte-some (get_elem? key (n + 1 + lookup_len)) separator second in
    let rest : drop (suc lookup_len) body ≡ drop (n + 2 + lookup_len) key =
      drop-drop (suc lookup_len) (n + 1) key ∙ ap (λ k. drop k key) (omega arith) in
    let inner : take lookup_len body ++ separator ∷ drop (n + 2 + lookup_len) key ≡ body =
      ap (λ l. take lookup_len body ++ separator ∷ l) (sym rest)
      ∙ take-drop_elem lookup_len body separator at_second in
    let next : n + 1 ≡ suc n = omega arith in
    let outer : take n key ++ separator ∷ body ≡ key =
      ap (λ k. take n key ++ separator ∷ drop k key) next
      ∙ take-drop_elem n key separator at_first in
    (
      ap (λ l. name ++ separator ∷ l) inner
          ∙ ap (λ l. l ++ separator ∷ body) (sym ((bytes_eq_iff (take n key) name).0 scheme))
          ∙ outer,
      omega (arith, (nat_eq_iff (length key) (n + 1 + lookup_len + 1 + secret_len)).0 size),
    )

three_tests : (a b c : Bool) → (a && (b && c)) ≡ true → (a ≡ true) × (b ≡ true) × (c ≡ true)
three_tests a b c h = ground arith

abbrev key_or : ParsedKey → Option ParsedKey → ParsedKey
key_or k none = k
key_or k (some l) = l

parse-some :
    (name key : Bytes) (k : ParsedKey)
    → parse name key ≡ some k
    → (key ≡ spelling name k.lookup k.secret) × AreParts k.lookup k.secret
unfolding parse
parse-some name key k h =
    let lookup = take lookup_len (drop (length name + 1) key) in
    let secret = drop (length name + 2 + lookup_len) key in
    go lookup secret (shaped name key && (all lookup_chars lookup && all secret_chars secret)) refl
      refl refl h
  where
    go :
        (lookup secret : Bytes) (b : Bool)
        → (shaped name key && (all lookup_chars lookup && all secret_chars secret)) ≡ b
        → take lookup_len (drop (length name + 1) key) ≡ lookup
        → drop (length name + 2 + lookup_len) key ≡ secret
        → (if b then some (record { lookup = lookup; secret = secret }) else none) ≡ some k
        → (key ≡ spelling name k.lookup k.secret) × AreParts k.lookup k.secret
    go lookup secret false e el es h = cc
    go lookup secret true e el es h =
        let (shape, in_lookup, in_secret) =
          three_tests (shaped name key) (all lookup_chars lookup) (all secret_chars secret) e in
        let (spelt, size) = shaped-spelling name key shape in
        let long : lookup_len ≤ length (drop (length name + 1) key) =
          omega (arith, length-drop (length name + 1) key) in
        let parts : AreParts lookup secret = (
          ap length (sym el) ∙ length-take lookup_len (drop (length name + 1) key) long,
          ap length (sym es) ∙ (length-drop (length name + 2 + lookup_len) key ∙ omega arith),
          in_lookup,
          in_secret,
        ) in
        subst (λ p. (key ≡ spelling name p.lookup p.secret) × AreParts p.lookup p.secret)
          (ap (key_or k) h) (sym spelt ∙ rw (el, es) refl, parts)

all_true :
    (a b c d : Bool) → a ≡ true → b ≡ true → c ≡ true → d ≡ true → (a && (b && (c && d))) ≡ true
all_true a b c d ha hb hc hd = ground arith

body_lookup :
    (name lookup secret : Bytes)
    → drop (length name + 1) (spelling name lookup secret) ≡ lookup ++ separator ∷ secret
body_lookup name lookup secret =
    drop-length-append name (separator ∷ (lookup ++ separator ∷ secret)) 1

length-spelling :
    (name lookup secret : Bytes)
    → length (spelling name lookup secret) ≡ length name + 2 + length lookup + length secret
length-spelling name lookup secret = omega (
  arith,
  length-append name (separator ∷ (lookup ++ separator ∷ secret)),
  length-append lookup (separator ∷ secret),
)

take-body :
    (lookup secret : Bytes)
    → length lookup ≡ lookup_len
    → take lookup_len (lookup ++ separator ∷ secret) ≡ lookup
take-body lookup secret h =
    ap (λ k. take k (lookup ++ separator ∷ secret)) (sym h)
    ∙ take-length-append lookup (separator ∷ secret)

drop-spelling :
    (name lookup secret : Bytes)
    → length lookup ≡ lookup_len
    → drop (length name + 2 + lookup_len) (spelling name lookup secret) ≡ secret
drop-spelling name lookup secret h =
    let away : length name + 2 + lookup_len ≡ length name + suc (length lookup + 1) = omega arith in
    ap (λ k. drop k (spelling name lookup secret)) away
    ∙ (drop-length-append name (separator ∷ (lookup ++ separator ∷ secret))
          (suc (length lookup + 1))
        ∙ drop-length-append lookup (separator ∷ secret) 1)

separators :
    (name lookup secret : Bytes)
    → length lookup ≡ lookup_len
    → (get_elem? (spelling name lookup secret) (length name) ≡ some separator)
      × (get_elem? (spelling name lookup secret) (length name + 1 + lookup_len) ≡ some separator)
separators name lookup secret h =
    let here : length name ≡ length name + 0 = omega arith in
    let there : length name + 1 + lookup_len ≡ length name + suc (length lookup + 0) =
      omega arith in
    (
      ap (get_elem? (spelling name lookup secret)) here
          ∙ get_elem_length-append name (separator ∷ (lookup ++ separator ∷ secret)) 0,
      ap (get_elem? (spelling name lookup secret)) there
          ∙ (get_elem_length-append name (separator ∷ (lookup ++ separator ∷ secret))
                (suc (length lookup + 0))
              ∙ get_elem_length-append lookup (separator ∷ secret) 0),
    )

spelling-shaped :
    (name lookup secret : Bytes)
    → AreParts lookup secret
    → shaped name (spelling name lookup secret) ≡ true
unfolding shaped
spelling-shaped name lookup secret (hl, hs, cl, cs) =
    let key = spelling name lookup secret in
    let n = length name in
    let (first, second) = separators name lookup secret hl in
    all_true (nat_eq (length key) (n + 1 + lookup_len + 1 + secret_len)) (take n key == name)
      (is_byte (get_elem? key n) separator) (is_byte (get_elem? key (n + 1 + lookup_len)) separator)
      ((nat_eq_iff (length key) (n + 1 + lookup_len + 1 + secret_len)).1
        (length-spelling name lookup secret ∙ omega arith))
      ((bytes_eq_iff (take n key) name).1
        (take-length-append name (separator ∷ (lookup ++ separator ∷ secret))))
      (ap (λ o. is_byte o separator) first) (ap (λ o. is_byte o separator) second)

parse-spelling :
    (name lookup secret : Bytes)
    → AreParts lookup secret
    → parse name (spelling name lookup secret) ≡ some (record { lookup = lookup; secret = secret })
unfolding parse
parse-spelling name lookup secret parts =
    rw
      (
        spelling-shaped name lookup secret parts,
        body_lookup name lookup secret,
        take-body lookup secret parts.0,
        drop-spelling name lookup secret parts.0,
        parts.2,
        parts.3,
      )
      refl

-- A text is read as a key exactly if it is the family's name, a separator, a lookup part of 8
-- characters of its alphabet, a separator and a secret of 32 characters of its alphabet.
pub parse-spelling_iff :
    (name key : Bytes) (k : ParsedKey)
    → (parse name key ≡ some k)
      ↔ ((key ≡ spelling name k.lookup k.secret) × AreParts k.lookup k.secret)
parse-spelling_iff name key k =
    (parse-some name key k, λ h. ap (parse name) h.0 ∙ parse-spelling name k.lookup k.secret h.1)
