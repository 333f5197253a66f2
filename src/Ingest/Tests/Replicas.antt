-- ===== src/Ingest/Tests/Replicas.antt =====
-- Two small mirrors that reconcile one group and one entry (crates/keys-engine/src/ingest.rs).
use keys_core.Base.{pos, true, false, none, some, [], ◌∷◌, ◌≡◌, refl, inl, inr}
use keys_core.Vault.Tables.{Group, Entry, Db, err, sqlite, custom, find_group, find_entry}
use keys_core.Vault.Groups.{GroupUpdate, update_group}
use keys_core.Vault.Entries.Flags.{FlagsMatch}
use keys_core.Vault.Tests.Samples.{row, item, sample, runs}
use keys_core.Ingest.{floored, floor_to_second, ms_to_dt}
use keys_core.Ingest.Groups.{
  PeerTree, PeerTrees, Pass, collect, reconcile_group_metadata, reconcile_group_location,
  reconcile_peer_groups,
}
use keys_core.Ingest.Groups.NullIcon.{update_group-refused}
use keys_core.Ingest.Groups.Replicas.{
  builtin_icon_index, projected, IsSameVersion, reconcile_group_metadata-agree,
  reconcile_group_location-agree,
}
use keys_core.Ingest.Locations.{reconcile_entry_location, projected_place}
use keys_core.Ingest.Locations.Agree.{reconcile_entry_location-agree}
use keys_core.Ingest.Tests.{row_keys, pass, any_date}

-- The same second, and another name.
abbrev ours : Group
ours = record (row 2 (some 1) false 0) { name = "a"; modified_at = pos 1700 }

abbrev theirs : Group
theirs = record (row 2 (some 4) false 0) { name = "b"; modified_at = pos 1300 }

abbrev mine : Pass
mine = pass (row 1 none false 0 ∷ ours ∷ [])

abbrev yours : Pass
yours = pass (row 1 none false 0 ∷ theirs ∷ [])

abbrev settled : Group
settled = record theirs { modified_at = pos 1000 }

reconcile_group_metadata-agree_example :
    (x : Group) × (y : Group) × (find_group
        (row 1 none false 0 ∷ record settled { parent_uuid = some 1 } ∷ [])
        2
      ≡ some x)
    × (find_group yours.groups 2 ≡ some y)
    × IsSameVersion x y
unfolding runs reconcile_group_metadata floor_to_second ms_to_dt builtin_icon_index
reconcile_group_metadata-agree_example =
    reconcile_group_metadata-agree any_date 2 mine yours
      (record mine {
        groups = row 1 none false 0 ∷ record settled { parent_uuid = some 1 } ∷ [];
        groups_updated = 2 ∷ [];
      })
      yours ours theirs 48 48 refl refl refl refl refl refl refl refl refl refl refl refl

reconcile_group_location-agree_example :
    (x : Group) × (y : Group) × (find_group
        (reconcile_group_location (projected any_date theirs) 4 mine).groups
        2
      ≡ some x)
    × (find_group (reconcile_group_location (projected any_date ours) 1 yours).groups 2 ≡ some y)
    × (x.parent_uuid ≡ y.parent_uuid)
unfolding runs
reconcile_group_location-agree_example =
    reconcile_group_location-agree any_date 2 1 4 mine yours ours theirs refl refl refl refl refl
      refl tt tt

-- The entry 10 was moved from 4 to the bin there.
abbrev binned : Entry
binned = record (item 10 3 true) {
  previous_parent_uuid = some 4;
  location_changed_at = some (pos 5000);
}

abbrev other : Db
other = record sample { entries = binned ∷ item 11 3 true ∷ [] }

moved_to_bin :
    reconcile_entry_location sample 10 (projected_place any_date binned)
    ≡ (record sample { entries = binned ∷ item 11 3 true ∷ [] }, true)
unfolding runs reconcile_entry_location floor_to_second ms_to_dt
moved_to_bin = refl

sample-FlagsMatch : FlagsMatch sample.groups sample.entries
unfolding runs
sample-FlagsMatch = (refl, (refl, tt))

reconcile_entry_location-agree_example :
    (x : Entry) × (y : Entry) × (find_entry
        (reconcile_entry_location sample 10 (projected_place any_date binned)).0.entries
        10
      ≡ some x)
    × (find_entry
          (reconcile_entry_location other 10 (projected_place any_date (item 10 4 false))).0.entries
          10
        ≡ some y)
    × (x.group_uuid ≡ y.group_uuid)
    × (x.previous_parent_uuid ≡ y.previous_parent_uuid)
    × (floored x.location_changed_at ≡ floored y.location_changed_at)
unfolding runs
reconcile_entry_location-agree_example =
    reconcile_entry_location-agree any_date 10 sample other (item 10 4 false) binned refl refl refl
      refl tt refl

abbrev dress_up : GroupUpdate
dress_up = record { name = none; notes = none; icon = some (custom 99); expires_at = none }

abbrev dressed : Db
dressed = record sample {
  groups =
      row 1 none false 0
      ∷ record (row 2 (some 1) false 0) {
        icon_index = none;
        icon_custom_uuid = some 99;
        modified_at = pos 8;
      }
      ∷ row 3 (some 1) true 1
      ∷ row 4 (some 2) false 0
      ∷ [];
}

abbrev peer : PeerTree
peer = PeerTree.node (projected any_date (row 1 none false 0)) (
    PeerTrees.cons (PeerTree.node (projected any_date (row 2 (some 1) false 0)) PeerTrees.nil)
      PeerTrees.nil)

update_group-refused_example :
    reconcile_peer_groups row_keys 9 peer (pass dressed.groups) ≡ some (err sqlite)
unfolding runs update_group collect
update_group-refused_example =
    update_group-refused row_keys 9 peer sample dressed 2 99 dress_up (pos 8) (pass dressed.groups)
      refl refl refl (inr (inl refl))
