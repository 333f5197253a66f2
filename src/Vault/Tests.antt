-- ===== src/Vault/Tests.antt =====
-- Tests of the vault's operations, and its theorems at concrete mirrors
-- (crates/keys-engine/src/mutations.rs).
pub mod Samples
pub mod Groups
pub mod Entries
pub mod Purges
