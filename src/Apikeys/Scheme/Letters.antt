-- ===== src/Apikeys/Scheme/Letters.antt =====
-- apikeys/apikeys.go: the characters of a minted lookup part and of a minted secret.
use go_authbyte.Base.{
  ℕ, zero, suc, ◌+◌, ◌*◌, ◌/◌, ◌%◌, ◌<◌, ◌≡◌, refl, ap, ◌∙◌, inl, inr, Bool, true, ◌&&◌, [], ◌∷◌,
  arith, nat_eq, nat_eq_iff, Bool-cases, length, all, All, Bytes, ℕ_comparable, Bytes_comparable,
}
use go_authbyte.Apikeys.Scheme.{
  lookup_chars, secret_chars, letter32, encode32, lookup_bytes, lookup_len, secret_bytes,
  secret_len,
}
use go_authbyte.Apikeys.Encoding.Base64.{
  url_safe, letter, encode, IsByte, encode-all, length-encode_groups,
}

-- Whether a test holds of every number below `n`.
abbrev below : (ℕ → Bool) → ℕ → Bool
below p zero = true
below p (suc n) = p n && below p n

below-all : (p : ℕ → Bool) (n v : ℕ) → below p n ≡ true → v < n → p v ≡ true
below-all p zero v h k = absurd (omega arith)
below-all p (suc n) v h k = elim (Bool-cases (nat_eq v n)) [
  | inl e ↦ ap p ((nat_eq_iff v n).0 e) ∙ ground arith
  | inr e ↦ below-all p n v (ground arith) (ground (arith, nat_eq_iff v n))
]

letter32-lookup_chars : (v : ℕ) → v < 32 → lookup_chars (letter32 v) ≡ true
unfolding lookup_chars
letter32-lookup_chars v h = below-all (λ v. lookup_chars (letter32 v)) 32 v refl h

letter-secret_chars : (v : ℕ) → v < 64 → secret_chars (letter url_safe v) ≡ true
unfolding secret_chars letter
letter-secret_chars v h = below-all (λ v. secret_chars (letter url_safe v)) 64 v refl h

eight_letters :
    (p : ℕ → Bool) (a b c d e f g h : ℕ)
    → p a ≡ true
    → p b ≡ true
    → p c ≡ true
    → p d ≡ true
    → p e ≡ true
    → p f ≡ true
    → p g ≡ true
    → p h ≡ true
    → all p (a ∷ b ∷ c ∷ d ∷ e ∷ f ∷ g ∷ h ∷ []) ≡ true
eight_letters p a b c d e f g h ha hb hc hd he hf hg hh = ground arith

five_bytes :
    (a b c d e : ℕ)
    → All IsByte (a ∷ b ∷ c ∷ d ∷ e ∷ [])
    → (length (encode32 (a ∷ b ∷ c ∷ d ∷ e ∷ [])) ≡ lookup_len)
      × (all lookup_chars (encode32 (a ∷ b ∷ c ∷ d ∷ e ∷ [])) ≡ true)
unfolding encode32
five_bytes a b c d e (ha, (hb, (hc, (hd, (he, _))))) = (
  refl,
  eight_letters lookup_chars (letter32 (a / 8)) (letter32 (a % 8 * 4 + b / 64))
      (letter32 (b / 2 % 32)) (letter32 (b % 2 * 16 + c / 16)) (letter32 (c % 16 * 2 + d / 128))
      (letter32 (d / 4 % 32)) (letter32 (d % 4 * 8 + e / 32)) (letter32 (e % 32))
      (letter32-lookup_chars (a / 8) (omega arith))
      (letter32-lookup_chars (a % 8 * 4 + b / 64) (omega arith))
      (letter32-lookup_chars (b / 2 % 32) (omega arith))
      (letter32-lookup_chars (b % 2 * 16 + c / 16) (omega arith))
      (letter32-lookup_chars (c % 16 * 2 + d / 128) (omega arith))
      (letter32-lookup_chars (d / 4 % 32) (omega arith))
      (letter32-lookup_chars (d % 4 * 8 + e / 32) (omega arith))
      (letter32-lookup_chars (e % 32) (omega arith)),
)

pub encode32-lookup :
    (s : Bytes)
    → All IsByte s
    → length s ≡ lookup_bytes
    → (length (encode32 s) ≡ lookup_len) × (all lookup_chars (encode32 s) ≡ true)
encode32-lookup (a ∷ b ∷ c ∷ d ∷ e ∷ []) h k = five_bytes a b c d e h
encode32-lookup [] h k = absurd (omega arith)
encode32-lookup (a ∷ []) h k = absurd (omega arith)
encode32-lookup (a ∷ b ∷ []) h k = absurd (omega arith)
encode32-lookup (a ∷ b ∷ c ∷ []) h k = absurd (omega arith)
encode32-lookup (a ∷ b ∷ c ∷ d ∷ []) h k = absurd (omega arith)
encode32-lookup (a ∷ b ∷ c ∷ d ∷ e ∷ f ∷ s) h k = absurd (omega arith)

pub encode-secret :
    (s : Bytes)
    → All IsByte s
    → length s ≡ secret_bytes
    → (length (encode url_safe s) ≡ secret_len) × (all secret_chars (encode url_safe s) ≡ true)
encode-secret s h k =
    (length-encode_groups url_safe 8 s k, encode-all url_safe secret_chars s h letter-secret_chars)
