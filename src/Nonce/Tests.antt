-- ===== src/Nonce/Tests.antt =====
-- nonce/nonce.go: a nonce of an issuer at a concrete time.
use go_authbyte.Base.{
  ◌*◌, ◌≡◌, refl, true, false, arith, replicate, codes, ℕ_comparable, Bytes_comparable,
}
use go_authbyte.Nonce.{Issuer, second, issue, verify}
use go_authbyte.Nonce.RoundTrip.{IsMac, verify-issue}

-- A stand-in for HMAC-SHA-256.
abbrev issuer : Issuer
issuer = record { mac = λ payload. replicate 32 7; ttl = 60 * second }

issuer-IsMac : IsMac issuer
issuer-IsMac = λ payload. (refl, omega arith)

verify-issue_example : verify issuer (issue issuer (100 * second)) 0 (150 * second) ≡ true
verify-issue_example =
    verify-issue issuer (100 * second) 0 (150 * second) issuer-IsMac (omega arith)

forged_is_refused :
    verify issuer (codes "AAAAAAAAAAAAAAAAAAAAAAAAAAAAAAAAAAAAAAAAAAAAAAAAAAAAAA") 0 0 ≡ false
unfolding verify
forged_is_refused = refl
