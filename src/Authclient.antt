-- ===== src/Authclient.antt =====
-- authclient/: what a service does to check the tokens of its callers and to make its own calls.
pub mod Headers
pub mod Tokens
pub mod Calls
pub mod Inbound
