-- ===== src/Lib.antt =====
-- keys-core: a password vault's engine keeps a KeePass vault in SQLite tables and edits it there. This
-- library models the engine's own logic (crates/keys-engine/src), and a part of the sync node's.
--
-- Vault models the tables as a record `Db` of lists of rows (Vault/Tables) and the operations of
-- mutations.rs as functions from `Db` to a result. A call runs in one transaction: an error carries no
-- state, since the transaction is rolled back. SQL text is modelled by what it selects or changes.
--   Vault/Queries: the lookups (`recycle_bin_uuid`, `group_exists`, `group_in_bin_subtree`),
--     tombstones, and the collection of unused tags.
--   Vault/Bin: the recycle bin's designation in meta.rs and its creation (`ensure_recycle_bin`).
--   Vault/Entries: `recycle_entry`, `restore_entry`, `delete_entry`, `move_entry`.
--   Vault/Groups: `create_group`, `update_group`, `move_group`, `recycle_group`, `restore_group`, and
--     `reorder_group` with the order of siblings (Vault/Groups/Reorder).
--   Vault/Purge: `delete_group`, `empty_recycle_bin` and their recursion.
--   Vault/Reach: one operation after another, as a step relation.
-- A tree of groups is what Vault/Groups/Ancestors (`IsTree`) and Vault/Groups/Roots (`IsRooted`) say.
-- History models an entry's history in mutations.rs: `archive_snapshot`, `prune_history` and its
-- tombstones (History/Prune), and `delete_history_at`, on the rows of one entry. An UPDATE goes row by
-- row and is refused where the primary key is taken. The caps are parameters: that reading them can fail
-- is left out.
-- Tree models the walks of util/tree.rs and `swap_entry_in_tree`, and Reconcile the parked conflicts of
-- conflict_rows.rs and reconcile.rs: what is decided about an entry's rows and the loop that settles
-- them (Reconcile/Decide). Migrations models `apply_pending` of migrations.rs.
-- Settings models the scalar settings of meta.rs, which hold the history caps.
-- Groups and entries meet in the bin: whether an entry counts as recycled follows from where its group
-- stands in the tree of groups, which is what the group operations change.
-- Predicate models predicate.rs (its JSON form in Predicate/Wire) and, in Predicate/Sql, the compiler
-- of predicate_sql.rs from a smart folder's predicate to a WHERE clause and its bound values.
-- Kdf models kdf_cost.rs: the cost of opening a file, the gate in front of it, and its display text.
-- Totp models totp.rs: Base32 secrets (Totp/Base32), code generation (Totp/Code) and otpauth URIs
-- (Totp/Uri). Uuids models the seeded source of uuid_source.rs.
-- Ingest models the reconciliation of a peer's vault (`ingest_peer` of ingest.rs) on the tables of Vault:
--   Ingest/Groups: the peer's group tree. Its groups are adopted, each group takes the later metadata
--     and the later place of the two sides, and the cycles that this can leave are broken.
--   Ingest/Locations: the place of an entry that both sides hold.
--   Ingest/Tombstones: the union of the tombstones, and the entries that the peer deleted.
--   Ingest/Resolutions: what becomes of a conflict that one side, or both, have resolved.
--   Ingest/Materialize: which groups with a tombstone go, and which live on without it.
-- Two replicas are two values of `Db`; what one sees of the other is the projection of its rows.
-- Urls models url_matcher.rs: the domains that a site is looked up under, and the one that a credential
-- of it is filed under.
-- Redial models the watch of crates/keys-iroh-sync/src/node.rs that re-dials the peers a doc owes a
-- sync round, as a machine that events drive.
-- Codec models util/codec.rs. Base holds the shared names, tests, lists, integers, bits and text.
--
-- Identifiers are numbers (a UUID is only compared). Stamps are 64-bit integers (Base/Int). Text that
-- is only stored is a String; text that is taken apart is its list of code points. u32 and u8 wrap
-- where the source's do.
--
-- Fuel: the loop of `move_group` up the tree and the recursion of `delete_group_recursive` have no
-- bound in the source; they take a number of rounds here, and theorems say how many are enough. The
-- walk of `group_in_bin_subtree` has the source's bound of 10_000. The loop of `settle_entry_rows` takes
-- a number of passes, and as many as the entry has parked rows, and one, are enough. The search for a
-- cycle, its repetition, and the recursion of `group_alive` take a number of rounds, and the number of
-- groups, and one, is enough. `group_depth` has the source's bound.
--
-- Parameters: the HMAC functions of a code, the JSON values, floats and serde's reader and writer of a
-- predicate, the float operations, the unnamed KDF families and the equality test of the KDF gate.
-- For the reconciliation: the merge, entries and their equality, and, as an interface, the projection
-- of the mirror and its ingestion, which do not touch the conflict tables. For the history: snapshots
-- as JSON, the session key and the tombstone writer. SQLite's execution of a migration's script.
-- For an otpauth URI, the URL parser and the conversion between bytes and text; for ids, the making of
-- a UUID from two u64.
-- For a site, the URL parser, the public suffix list, and the trimming and lowering of text.
-- For a peer's groups, the order in which a HashMap is iterated. For stamps that a peer reads, which
-- instants are dates of the calendar, and what a saved vault keeps of an instant.
-- What is relied on of them is a named hypothesis.
--
-- Not modelled: parsing and writing KDBX files, encryption, the field edits of entries, the
-- entries' content in ingest, projection, reads, the conflict resolver, the FFI, the rest of peer
-- sync and the command line tools: they are SQL text, calls of other crates and I/O for the larger
-- part.
pub mod Base
pub mod Vault
pub mod History
pub mod Tree
pub mod Reconcile
pub mod Migrations
pub mod Settings
pub mod Uuids
pub mod Predicate
pub mod Kdf
pub mod Totp
pub mod Codec
pub mod Ingest
pub mod Redial
pub mod Urls
