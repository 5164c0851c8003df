-- ===== src/Apikeys/Encoding.antt =====
-- The encodings of the standard library that apikeys/apikeys.go and nonce/nonce.go use:
-- base64 without padding, decimal numbers and `strings.Split`, on lists of bytes.
pub mod Base64
pub mod Decimal
pub mod Split
pub mod UrlSafe
