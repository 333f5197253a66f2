-- ===== src/Vault/Entries.antt =====
-- Where an entry lives: `recycle_entry`, `restore_entry`, `delete_entry` and `move_entry` of
-- crates/keys-engine/src/mutations.rs.
pub mod Flags
pub mod Subtree
pub mod RoundTrip
pub mod Recycling
use keys_core.Base.{Bool, true, false, Option, none, some, ◌&&◌, not, if◌then◌else◌}
use keys_core.Vault.Tables.{
  Uuid, Millis, Group, Entry, Db, not_found, sqlite, Result, ok, ◌>>=◌, ◌>>◌, ok_or, find_entry,
  update_entries, entry, group, require,
}
use keys_core.Vault.Queries.{
  group_exists, root_uuid, group_in_bin_subtree, record_tombstone, gc_orphan_tags, delete_entry_row,
}
use keys_core.Vault.Bin.{resolve_bin}
use keys_core.Base.{List}

-- UPDATE entry SET is_recycled, previous_parent_uuid = group_uuid, group_uuid, modified_at,
-- location_changed_at: the statement of the three relocations.
abbrev pub relocate : Uuid → Bool → Millis → Entry → Entry
relocate dest recycled now e = record e {
  is_recycled = recycled;
  previous_parent_uuid = some e.group_uuid;
  group_uuid = dest;
  modified_at = now;
  location_changed_at = some now;
}

-- DELETE FROM entry, the sweep of tags and the tombstone.
unfoldable pub hard_delete : Uuid → Millis → Db → Db
unfolding delete_entry_row gc_orphan_tags
hard_delete u now db =
    let swept = gc_orphan_tags (delete_entry_row u db) in
    record swept { deleted_objects = record_tombstone u now swept.deleted_objects }

abbrev pub recycle_into : Uuid → Millis → Db × Option Uuid → Db
recycle_into u now (db, some bin) = record db {
  entries = update_entries u (relocate bin true now) db.entries;
}
recycle_into u now (db, none) = hard_delete u now db

unfoldable pub recycle_entry : Db → Uuid → Millis → Uuid → Result Db
unfolding hard_delete
recycle_entry db u now bin_uuid = do
  e ← ok_or (find_entry db.entries u) (not_found entry)
  if group_in_bin_subtree db.groups e.group_uuid
      then ok db
      else resolve_bin db now bin_uuid >>= λ r. ok (recycle_into u now r)

-- The `match previous` that picks the destination.
unfoldable pub restore_destination : List Group → Option Uuid → Result Uuid
restore_destination gs none = ok_or (root_uuid gs) sqlite
restore_destination gs (some prev) =
    if group_exists gs prev && not (group_in_bin_subtree gs prev)
    then ok prev
    else ok_or (root_uuid gs) sqlite

-- UPDATE entry SET is_recycled = 0 WHERE uuid = ? AND is_recycled = 1
abbrev pub clear_recycled : Entry → Entry
clear_recycled e = if e.is_recycled then record e { is_recycled = false } else e

unfoldable pub restore_entry : Db → Uuid → Millis → Result Db
restore_entry db u now = do
  e ← ok_or (find_entry db.entries u) (not_found entry)
  if not (group_in_bin_subtree db.groups e.group_uuid)
      then ok (record db { entries = update_entries u clear_recycled db.entries })
      else restore_destination db.groups e.previous_parent_uuid >>= λ dest.
          ok (record db { entries = update_entries u (relocate dest false now) db.entries })

-- The result of `delete_entry`: the group that held the entry.
unfoldable pub delete_entry : Db → Uuid → Millis → Result (Db × Uuid)
unfolding hard_delete
delete_entry db u now = do
  e ← ok_or (find_entry db.entries u) (not_found entry)
  ok (hard_delete u now db, e.group_uuid)

pub record MoveEntryOutcome : Type 0 where
  pub from_group : Uuid
  pub to_group : Uuid

unfoldable pub move_entry : Db → Uuid → Uuid → Millis → Result (Db × MoveEntryOutcome)
move_entry db u dest now = do
  e ← ok_or (find_entry db.entries u) (not_found entry)
  require (group_exists db.groups dest) (not_found group)
  let moved = relocate dest (group_in_bin_subtree db.groups dest) now
  ok (
    record db { entries = update_entries u moved db.entries },
    record { from_group = e.group_uuid; to_group = dest },
  )
