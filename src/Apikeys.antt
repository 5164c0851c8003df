-- ===== src/Apikeys.antt =====
-- apikeys/: API keys, their stored strings, the check of a presented key and its rate limit.
pub mod Limit
pub mod Encoding
pub mod Stored
pub mod Scheme
pub mod Cache
pub mod Verify
