-- ===== src/Ingest/Tombstones.antt =====
-- Tombstones between replicas: `tombstone_map`, `union_tombstone`, `union_peer_tombstones`,
-- `remove_tombstone` and `reconcile_peer_deletes` of crates/keys-engine/src/ingest.rs. A HashMap is
-- the list of its entries in the order of an iteration.
pub mod Union
pub mod Converge
pub mod Deletes
use keys_core.Base.{
  ℕ, Bool, true, false, Option, none, some, List, [], ◌∷◌, ◌++◌, ◌==◌, not, if◌then◌else◌, keep_if,
  ◌&&◌, any,
}
use keys_core.Base.Order.{leq, option_ord, int_ord}
use keys_core.Vault.Tables.{Uuid, Millis, Db}
use keys_core.Vault.Queries.{entry_exists, delete_entry_row, gc_orphan_tags}
use keys_core.Vault.Tombstones.{tombstone_of}
use keys_core.Ingest.{earliest, live_edit_wins}

abbrev pub Stones : Type 0
Stones = List (Uuid × Option Millis)

-- `HashMap::entry(uuid).and_modify(earliest).or_insert(deleted_at)`
unfoldable pub fold_stone : Uuid → Option Millis → Stones → Stones
fold_stone u t [] = (u, t) ∷ []
fold_stone u t ((v, s) ∷ ds) = if v == u then (v, earliest s t) ∷ ds else (v, s) ∷ fold_stone u t ds

unfoldable pub tombstone_map_from : Stones → Stones → Stones
tombstone_map_from out [] = out
tombstone_map_from out ((u, t) ∷ deleted) = tombstone_map_from (fold_stone u t out) deleted

unfoldable pub tombstone_map : Stones → Stones
tombstone_map deleted = tombstone_map_from [] deleted

-- UPDATE meta_deleted_object SET deleted_at = ? WHERE uuid = ?
unfoldable pub set_stone : Uuid → Option Millis → Stones → Stones
set_stone u t [] = []
set_stone u t ((v, s) ∷ ds) = (if v == u then (v, t) else (v, s)) ∷ set_stone u t ds

abbrev same_time : Option Millis → Option Millis → Bool
same_time a b = leq a b && leq b a

unfoldable pub union_tombstone : Uuid → Option Millis → Stones → Stones
union_tombstone u t ds = elim (tombstone_of u ds) [
  | none ↦ ds ++ (u, t) ∷ []
  | some old ↦
      let merged = earliest old t in if same_time merged old then ds else set_stone u merged ds
]

-- DELETE FROM meta_deleted_object WHERE uuid = ?
unfoldable pub remove_tombstone : Uuid → Stones → Stones
remove_tombstone u ds = keep_if (λ d. not (d.0 == u)) ds

unfoldable pub union_peer_tombstones : Stones → Db → Db
union_peer_tombstones [] db = db
union_peer_tombstones ((u, t) ∷ peer_tomb) db =
    if entry_exists db.entries u
    then union_peer_tombstones peer_tomb db
    else union_peer_tombstones peer_tomb
        (record db { deleted_objects = union_tombstone u t db.deleted_objects })

unfoldable pub delete_local_entry : Uuid → Db → Db
delete_local_entry u db = gc_orphan_tags (delete_entry_row u db)

-- One turn of the loop: is the local entry, with the time of its last edit, to go?
abbrev pub peer_deletes : List Uuid → Stones → Uuid → Option Millis → Bool
peer_deletes peer_uuids peer_tomb u edited =
    if any (λ v. v == u) peer_uuids then false else elim (tombstone_of u peer_tomb) [
      | none ↦ false
      | some deleted_at ↦ not (live_edit_wins edited deleted_at)
    ]

-- `ms_to_dt` of crates/keys-engine/src/meta.rs, which keeps the milliseconds.
abbrev instant : (Millis → Bool) → Option Millis → Option Millis
instant in_range none = none
instant in_range (some ms) = if in_range ms then some ms else none

-- The rows as `Vault::deleted_objects` (crates/keys-engine/src/meta.rs).
unfoldable pub read_deleted_objects : (Millis → Bool) → Stones → Stones
read_deleted_objects in_range [] = []
read_deleted_objects in_range ((u, t) ∷ rows) =
    (u, instant in_range t) ∷ read_deleted_objects in_range rows

-- `local_by_uuid` is the local entries with the times of their last edits; `deleted` is the field of
-- the outcome.
unfoldable pub reconcile_peer_deletes :
    List (Uuid × Option Millis) → List Uuid → Stones → Db × List Uuid → Db × List Uuid
reconcile_peer_deletes [] peer_uuids peer_tomb s = s
reconcile_peer_deletes ((u, edited) ∷ local_by_uuid) peer_uuids peer_tomb (db, deleted) =
    if peer_deletes peer_uuids peer_tomb u edited
    then reconcile_peer_deletes local_by_uuid peer_uuids peer_tomb
        (delete_local_entry u db, deleted ++ u ∷ [])
    else reconcile_peer_deletes local_by_uuid peer_uuids peer_tomb (db, deleted)
