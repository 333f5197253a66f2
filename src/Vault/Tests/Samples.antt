-- ===== src/Vault/Tests/Samples.antt =====
-- A small mirror (crates/keys-engine/src/migrations).
use keys_core.Base.{ℕ, pos, Bool, true, false, Option, none, some, List, [], ◌∷◌, arith}
use keys_core.Vault.Tables.{
  Uuid, Group, Entry, Db, find_group, find_entry, update_groups, update_entries,
}
use keys_core.Vault.Queries.{
  group_exists, parent_of, recycle_bin_uuid, root_uuid, next_sort_order, walk_to_bin, max_walk,
  group_in_bin_subtree, child_groups, record_tombstone, gc_orphan_tags, delete_entry_row,
  entry_exists,
}
use keys_core.Vault.Bin.{set_recycle_bin, ensure_recycle_bin, read_recycle_bin_enabled}
use keys_core.Vault.Groups.{create_group, move_group, recycle_group, climb}
use keys_core.Vault.Groups.Ancestors.{IsTree}
use keys_core.Vault.Groups.Depth.{IsTree-of_depth}
use keys_core.Vault.Entries.{
  recycle_entry, restore_entry, restore_destination, delete_entry, move_entry,
}
use keys_core.Vault.Tombstones.{tombstone_of}
use keys_core.Vault.Purge.{
  delete_self, delete_direct_child_entries, list_entries, child_entries, delete_group,
  delete_group_recursive, empty_recycle_bin,
}

-- Everything that a run calls.
unfoldable pub runs : Unit {0}
unfolding delete_self delete_direct_child_entries list_entries child_entries find_group find_entry
    update_groups update_entries group_exists parent_of recycle_bin_uuid root_uuid next_sort_order
    walk_to_bin max_walk group_in_bin_subtree child_groups record_tombstone gc_orphan_tags
    delete_entry_row entry_exists set_recycle_bin ensure_recycle_bin read_recycle_bin_enabled
    create_group move_group recycle_group climb recycle_entry restore_entry restore_destination
    delete_entry move_entry delete_group delete_group_recursive empty_recycle_bin tombstone_of
runs = tt

abbrev pub row : Uuid → Option Uuid → Bool → ℕ → Group
row u parent bin order = record {
  uuid = u;
  parent_uuid = parent;
  name = "g";
  icon_index = some 48;
  icon_custom_uuid = none;
  notes = "";
  created_at = pos 0;
  modified_at = pos 0;
  expires_at = none;
  is_recycle_bin = bin;
  sort_order = order;
  location_changed_at = none;
}

abbrev pub item : Uuid → Uuid → Bool → Entry
item u place recycled = record {
  uuid = u;
  group_uuid = place;
  title = "e";
  modified_at = pos 0;
  is_recycled = recycled;
  previous_parent_uuid = none;
  location_changed_at = none;
}

abbrev pub mirror : List Group → List Entry → Db
mirror gs es = record {
  groups = gs;
  entries = es;
  tags = (1, "t") ∷ [];
  entry_tags = (10, 1) ∷ [];
  deleted_objects = [];
  recycle_bin_enabled = some (1 ∷ []);
  recycle_bin_changed = none;
}

-- 1 is the root, 2 and the bin 3 are its children, 4 is below 2; 11 is in the bin.
abbrev pub tree : List Group
tree =
    row 1 none false 0
    ∷ row 2 (some 1) false 0
    ∷ row 3 (some 1) true 1
    ∷ row 4 (some 2) false 0
    ∷ []

abbrev pub sample : Db
sample = mirror tree (item 10 4 false ∷ item 11 3 true ∷ [])

pub tree-IsTree : IsTree tree
unfolding runs
tree-IsTree =
    IsTree-of_depth tree (λ u. u)
      ((λ q e. cc), ((λ q e. ground arith), ((λ q e. ground arith), ((λ q e. ground arith), tt))))
      ((λ q e. cc), ((λ q e. ground arith), ((λ q e. ground arith), ((λ q e. ground arith), tt))))
