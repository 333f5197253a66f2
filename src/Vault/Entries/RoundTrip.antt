-- ===== src/Vault/Entries/RoundTrip.antt =====
-- Recycling and restoring an entry, and what a permanent deletion leaves
-- (crates/keys-engine/src/mutations.rs).
use keys_core.Base.{
  true, false, not, none, some, List, [], ◌∷◌, ◌==◌, ◌≡◌, ◌≢◌, refl, ◌∙◌, arith, All, keep_if,
  keep_if-All, any,
}
use keys_core.Vault.Tables.{Uuid, Millis, Entry, Db, find_entry, update_entries, ok}
use keys_core.Vault.Queries.{group_exists, recycle_bin_uuid, group_in_bin_subtree}
use keys_core.Vault.Tombstones.{tombstone_of, tombstone_of-record_self, tombstone_of-record_ne}
use keys_core.Vault.Rows.{find_entry-update_self, find_entry-update_ne}
use keys_core.Vault.Bin.{resolve_bin, read_recycle_bin_enabled}
use keys_core.Vault.Entries.Flags.{group_in_bin_subtree_self}
use keys_core.Vault.Entries.{
  relocate, hard_delete, recycle_entry, restore_entry, restore_destination, delete_entry,
}

-- Recycling an entry that lies outside the bin's subtree and restoring it brings it back to its
-- group, with only the flag, the previous parent and the two stamps set; every other entry and all
-- the groups are as before.
pub restore-recycle :
    (db : Db) (u bin : Uuid) (e : Entry) (now later : Millis) (new : Uuid)
    → find_entry db.entries u ≡ some e
    → recycle_bin_uuid db.groups ≡ some bin
    → group_exists db.groups e.group_uuid ≡ true
    → group_in_bin_subtree db.groups e.group_uuid ≡ false
    → (binned restored : Db) × (recycle_entry db u now new ≡ ok binned)
      × (restore_entry binned u later ≡ ok restored)
      × (find_entry restored.entries u
          ≡ some (record e {
            is_recycled = false;
            previous_parent_uuid = some bin;
            modified_at = later;
            location_changed_at = some later;
          }))
      × ((v : Uuid) → v ≢ u → find_entry restored.entries v ≡ find_entry db.entries v)
      × (restored.groups ≡ db.groups)
unfolding recycle_entry restore_entry restore_destination
restore-recycle db u bin e now later new found is_bin there live =
    let into = relocate bin true now in
    let back = relocate e.group_uuid false later in
    let binned_entries = update_entries u into db.entries in
    let moved : find_entry binned_entries u ≡ some (into e) =
      find_entry-update_self into (λ x. refl) db.entries u e found in
    let inside = group_in_bin_subtree_self db.groups bin is_bin in
    (
      record db { entries = binned_entries },
      record db { entries = update_entries u back binned_entries },
      unfold resolve_bin in ground arith,
      ground arith,
      find_entry-update_self back (λ x. refl) binned_entries u (into e) moved,
      λ v ne.
          find_entry-update_ne back (λ x. refl) binned_entries u v ne
          ∙ find_entry-update_ne into (λ x. refl) db.entries u v ne,
      refl,
    )

-- Where there is no bin and it is disabled, recycling an entry is deleting it.
pub recycle_entry-delete_entry :
    (db : Db) (u : Uuid) (e : Entry) (now : Millis) (new : Uuid)
    → find_entry db.entries u ≡ some e
    → recycle_bin_uuid db.groups ≡ none
    → read_recycle_bin_enabled db ≡ false
    → (db' : Db) × (recycle_entry db u now new ≡ ok db')
      × (delete_entry db u now ≡ ok (db', e.group_uuid))
unfolding recycle_entry delete_entry resolve_bin group_in_bin_subtree
recycle_entry-delete_entry db u e now new found binless disabled =
    (hard_delete u now db, ground arith, ground arith)

pub find_entry-delete_self :
    (es : List Entry) (u : Uuid) → find_entry (keep_if (λ e. not (e.uuid == u)) es) u ≡ none
unfolding find_entry
find_entry-delete_self [] u = refl
find_entry-delete_self (e ∷ es) u = ground (arith, find_entry-delete_self es u)

pub find_entry-delete_ne :
    (es : List Entry) (u v : Uuid)
    → v ≢ u
    → find_entry (keep_if (λ e. not (e.uuid == u)) es) v ≡ find_entry es v
unfolding find_entry
find_entry-delete_ne [] u v h = refl
find_entry-delete_ne (e ∷ es) u v h = ground (arith, find_entry-delete_ne es u v h)

-- A deleted entry is gone, its tombstone bears the time of the deletion, every tag that remains is
-- in use, and the other entries and their tombstones are as before.
pub delete_entry_removes :
    (db : Db) (u : Uuid) (now : Millis) (db' : Db) (held_by : Uuid)
    → delete_entry db u now ≡ ok (db', held_by)
    → (find_entry db'.entries u ≡ none)
      × (tombstone_of u db'.deleted_objects ≡ some (some now))
      × All (λ t. any (λ l. l.1 == t.0) db'.entry_tags ≡ true) db'.tags
      × ((v : Uuid)
          → v ≢ u
          → (find_entry db'.entries v ≡ find_entry db.entries v)
            × (tombstone_of v db'.deleted_objects ≡ tombstone_of v db.deleted_objects))
unfolding delete_entry
delete_entry_removes db u now db' held_by h =
    let done : hard_delete u now db ≡ db' = ground arith in
    rw (← done) (
      find_entry-delete_self db.entries u,
      tombstone_of-record_self u now db.deleted_objects,
      keep_if-All _ db.tags,
      λ v ne. (
        find_entry-delete_ne db.entries u v ne,
        tombstone_of-record_ne u v now db.deleted_objects ne,
      ),
    )
