-- ===== src/Totp.antt =====
-- Base32 secrets and one-time codes (crates/keys-engine/src/totp.rs).
pub mod Base32
pub mod Code
pub mod Uri
pub mod Tests
