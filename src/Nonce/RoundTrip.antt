-- ===== src/Nonce/RoundTrip.antt =====
-- nonce/nonce.go: a nonce that is issued is accepted for as long as it may live, and no longer.
use go_authbyte.Base.{
  ℕ, ◌+◌, ◌-◌, ◌*◌, ◌/◌, ◌%◌, ◌^◌, ◌<◌, ◌≡◌, refl, ap, ◌∙◌, true, [], ◌∷◌, ◌++◌, arith, leb, nat_eq,
  lt→ltb, nat_eq_iff, length, All, All-append, ==_refl, Bytes, ℕ_comparable, Bytes_comparable,
}
use go_authbyte.Apikeys.Encoding.Base64.{url_safe, encode, IsByte}
use go_authbyte.Apikeys.Encoding.UrlSafe.{url_decode, url_decode-encode}
use go_authbyte.Nonce.{
  Issuer, second, put_uint64, big_endian, issue, check_raw, check_decoded, verify,
}

big_endian-put_uint64 : (n : ℕ) → n < 2 ^ 64 → big_endian 0 (put_uint64 n) ≡ n
unfolding put_uint64
big_endian-put_uint64 n h = omega arith

put_uint64-IsByte : (n : ℕ) → All IsByte (put_uint64 n)
unfolding put_uint64
put_uint64-IsByte n = (
  omega arith,
  (
    omega arith,
    (omega arith, (omega arith, (omega arith, (omega arith, (omega arith, (omega arith, tt)))))),
  ),
)

-- HMAC-SHA-256 gives 32 bytes.
abbrev pub IsMac : Issuer → Type 0
IsMac i = (payload : Bytes) → (length (i.mac payload) ≡ 32) × All IsByte (i.mac payload)

encode-cons : (x : ℕ) (s : Bytes) → 0 < length (encode url_safe (x ∷ s))
unfolding encode
encode-cons x [] = omega arith
encode-cons x (y ∷ []) = omega arith
encode-cons x (y ∷ z ∷ s) = omega arith

verify-cons :
    (i : Issuer) (s : Bytes) (leeway now : ℕ)
    → 0 < length s
    → verify i s leeway now ≡ check_decoded i leeway now (url_decode s)
unfolding verify
verify-cons i [] leeway now h = absurd (omega arith)
verify-cons i (c ∷ s) leeway now h = refl

abbrev raw_of : Issuer → ℕ → Bytes
raw_of i n = put_uint64 n ++ i.mac (put_uint64 n)

check_raw-raw_of :
    (i : Issuer) (n leeway now : ℕ)
    → IsMac i
    → n < 2 ^ 63
    → check_raw i leeway now (raw_of i n) ≡ leb (now - n * second) (i.ttl + leeway)
unfolding check_raw put_uint64
check_raw-raw_of i n leeway now h k =
    let size : nat_eq (length (raw_of i n)) 40 ≡ true =
      (nat_eq_iff (length (raw_of i n)) 40).1 (omega (arith, (h (put_uint64 n)).0)) in
    rw
      (
        size,
        ==_refl (i.mac (put_uint64 n)),
        big_endian-put_uint64 n (omega arith),
        lt→ltb n (2 ^ 63) k,
      )
      refl

raw_of-cons : (i : Issuer) (n : ℕ) → 0 < length (encode url_safe (raw_of i n))
unfolding put_uint64
raw_of-cons i n = encode-cons (n / 2 ^ 56 % 256) (
    n / 2 ^ 48 % 256
    ∷ n / 2 ^ 40 % 256
    ∷ n / 2 ^ 32 % 256
    ∷ n / 2 ^ 24 % 256
    ∷ n / 2 ^ 16 % 256
    ∷ n / 2 ^ 8 % 256
    ∷ n % 256
    ∷ i.mac (put_uint64 n))

-- A nonce that is issued is accepted exactly as long as the time since the second it was issued in is
-- at most its life and the leeway, by the issuer of any process that has the same key; for times that
-- a signed 64-bit number of seconds can hold.
pub verify-issue :
    (i : Issuer) (issued leeway now : ℕ)
    → IsMac i
    → issued / second < 2 ^ 63
    → verify i (issue i issued) leeway now ≡ leb (now - issued / second * second) (i.ttl + leeway)
unfolding issue
verify-issue i issued leeway now h k =
    let n = issued / second in
    let kept : n % 2 ^ 64 ≡ n = omega arith in
    ap (λ m. verify i (encode url_safe (put_uint64 m ++ i.mac (put_uint64 m))) leeway now) kept
    ∙ (verify-cons i (encode url_safe (raw_of i n)) leeway now (raw_of-cons i n)
        ∙ (ap (check_decoded i leeway now) (
              url_decode-encode (raw_of i n) (
                All-append IsByte (put_uint64 n) (i.mac (put_uint64 n)) (put_uint64-IsByte n)
                  (h (put_uint64 n)).1))
            ∙ check_raw-raw_of i n leeway now h k))
