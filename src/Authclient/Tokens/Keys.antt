-- ===== src/Authclient/Tokens/Keys.antt =====
-- The cache's keys of authclient/outbound.go: what a key tells of the request it was made for.
use go_authbyte.Base.{
  ℕ, ◌/◌, ◌%◌, ◌<◌, ◌≡◌, refl, sym, ap, ◌∙◌, ◌≢◌, true, not, List, [], ◌∷◌, ◌++◌, append-nil, arith,
  nat_eq, All, Bytes, codes, ℕ_comparable, Bytes_comparable,
}
use go_authbyte.Base.Texts.{hex, hex_digit}
use go_authbyte.Apikeys.Encoding.Split.{split, joined_by, Lacks, split-joined_by}
use go_authbyte.Authclient.Tokens.{bar, service_key, delegated_key}

-- A name without the byte that separates the parts of a key.
abbrev pub Clean : Bytes → Type 0
Clean = Lacks bar

-- The parts of a key that name the organisation.
abbrev tenant_parts : Bytes → List Bytes
tenant_parts [] = []
tenant_parts (c ∷ tenant) = (codes "tenant=" ++ (c ∷ tenant)) ∷ []

service_key-joined_by : (a s t : Bytes) → service_key a s t ≡ joined_by bar (a ∷ s ∷ tenant_parts t)
unfolding service_key
service_key-joined_by a s [] = ap (λ x. a ++ bar ∷ x) (append-nil s)
service_key-joined_by a s (c ∷ t) = refl

tenant_parts-Clean : (t : Bytes) → Clean t → All Clean (tenant_parts t)
tenant_parts-Clean [] h = tt
tenant_parts-Clean (c ∷ t) h = (h, tt)

service_key-split :
    (a s t : Bytes)
    → Clean a
    → Clean s
    → Clean t
    → split bar (service_key a s t) ≡ a ∷ s ∷ tenant_parts t
service_key-split a s t ha hs ht =
    ap (split bar) (service_key-joined_by a s t)
    ∙ split-joined_by bar a (s ∷ tenant_parts t) (ha, (hs, tenant_parts-Clean t ht))

hex_digit-Clean : (d : ℕ) → d < 16 → not (nat_eq (hex_digit d) bar) ≡ true
unfolding hex_digit
hex_digit-Clean d h = ground arith

hex_digit-inj : (c d : ℕ) → c < 16 → d < 16 → hex_digit c ≡ hex_digit d → c ≡ d
unfolding hex_digit
hex_digit-inj c d hc hd h = ground arith

-- The bytes of a digest.
abbrev pub IsOctet : ℕ → Type 0
IsOctet b = b < 256

hex-Clean : (s : Bytes) → All IsOctet s → Clean (hex s)
unfolding hex
hex-Clean [] h = refl
hex-Clean (b ∷ s) (p, h) = ground (
  arith,
  hex_digit-Clean (b / 16) (omega arith),
  hex_digit-Clean (b % 16) (omega arith),
  hex-Clean s h,
)

hex-inj : (s t : Bytes) → All IsOctet s → All IsOctet t → hex s ≡ hex t → s ≡ t
unfolding hex
hex-inj [] [] h k e = refl
hex-inj [] (b ∷ t) h k e = cc
hex-inj (b ∷ s) [] h k e = cc
hex-inj (b ∷ s) (c ∷ t) (p, h) (q, k) e = ground (
  arith,
  hex_digit-inj (b / 16) (c / 16) (omega arith) (omega arith),
  hex_digit-inj (b % 16) (c % 16) (omega arith) (omega arith),
  hex-inj s t h k,
)

delegated_key-split :
    (sha256 : Bytes → Bytes) (a s u : Bytes)
    → Clean a
    → Clean s
    → All IsOctet (sha256 u)
    → split bar (delegated_key sha256 a s u) ≡ codes "obo" ∷ a ∷ s ∷ hex (sha256 u) ∷ []
unfolding delegated_key
delegated_key-split sha256 a s u ha hs hd =
    split-joined_by bar (codes "obo") (a ∷ s ∷ hex (sha256 u) ∷ [])
      (refl, (ha, (hs, (hex-Clean (sha256 u) hd, tt))))

-- The organisation is read back from its parts.
tenant_parts-inj : (t u : Bytes) → tenant_parts t ≡ tenant_parts u → t ≡ u
tenant_parts-inj [] [] h = refl
tenant_parts-inj [] (d ∷ u) h = cc
tenant_parts-inj (c ∷ t) [] h = cc
tenant_parts-inj (c ∷ t) (d ∷ u) h = cc

-- Two service tokens share a key only if they are for the same audience, scope and organisation,
-- none of which has the separator in it.
pub service_key-inj :
    (a s t b u v : Bytes)
    → Clean a × Clean s × Clean t
    → Clean b × Clean u × Clean v
    → service_key a s t ≡ service_key b u v
    → (a ≡ b) × (s ≡ u) × (t ≡ v)
service_key-inj a s t b u v (ha, hs, ht) (hb, hu, hv) e =
    let parts =
      sym (service_key-split a s t ha hs ht)
      ∙ ap (split bar) e
      ∙ service_key-split b u v hb hu hv in
    (cc, cc, tenant_parts-inj t v cc)

pub delegated_key-inj :
    (sha256 : Bytes → Bytes) (a s t b u v : Bytes)
    → Clean a × Clean s × All IsOctet (sha256 t)
    → Clean b × Clean u × All IsOctet (sha256 v)
    → delegated_key sha256 a s t ≡ delegated_key sha256 b u v
    → (a ≡ b) × (s ≡ u) × (sha256 t ≡ sha256 v)
delegated_key-inj sha256 a s t b u v (ha, hs, ht) (hb, hu, hv) e =
    let parts =
      sym (delegated_key-split sha256 a s t ha hs ht)
      ∙ ap (split bar) e
      ∙ delegated_key-split sha256 b u v hb hu hv in
    (cc, cc, hex-inj (sha256 t) (sha256 v) ht hv cc)

-- The keys of the two kinds of tokens are apart.
pub service_key-delegated_key :
    (sha256 : Bytes → Bytes) (a s t b u v : Bytes)
    → Clean a × Clean s × Clean t
    → Clean b × Clean u × All IsOctet (sha256 v)
    → service_key a s t ≢ delegated_key sha256 b u v
service_key-delegated_key sha256 a s t b u v (ha, hs, ht) (hb, hu, hv) e = apart t (
    sym (service_key-split a s t ha hs ht)
    ∙ ap (split bar) e
    ∙ delegated_key-split sha256 b u v hb hu hv)
  where
    apart :
        (t : Bytes)
        → ◌≢◌ {A = List Bytes} (a ∷ s ∷ tenant_parts t) (codes "obo" ∷ b ∷ u ∷ hex (sha256 v) ∷ [])
    apart [] e = cc
    apart (c ∷ t) e = cc
