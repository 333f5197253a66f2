-- ===== src/Vault.antt =====
-- The mirror database's group tree, its entries, tombstones and recycle bin
-- (crates/keys-engine/src/mutations.rs, meta.rs, util/sql.rs).
pub mod Tables
pub mod Queries
pub mod Rows
pub mod Tombstones
pub mod Bin
pub mod Entries
pub mod Groups
pub mod Purge
pub mod Reach
pub mod Tests
