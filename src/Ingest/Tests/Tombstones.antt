-- ===== src/Ingest/Tests/Tombstones.antt =====
-- Deletions of a peer on small mirrors (crates/keys-engine/src/ingest.rs).
use keys_core.Base.{
  pos, ◌⊎◌, Bool, true, false, none, some, List, [], ◌∷◌, ◌≡◌, refl, arith, length,
}
use keys_core.Vault.Tables.{Uuid, Db, ok}
use keys_core.Vault.Queries.{entry_exists}
use keys_core.Vault.Tombstones.{tombstone_of}
use keys_core.Vault.Tests.Samples.{row, item, sample, tree-IsTree, runs}
use keys_core.Ingest.{earliest, live_edit_wins, floor_to_second}
use keys_core.Ingest.Tombstones.{
  Stones, fold_stone, tombstone_map_from, tombstone_map, set_stone, union_tombstone,
  union_peer_tombstones, read_deleted_objects, remove_tombstone, delete_local_entry,
  reconcile_peer_deletes,
}
use keys_core.Ingest.Tombstones.Converge.{AllDates, carried, second_of, union_peer_tombstones-agree}
use keys_core.Ingest.Tombstones.Deletes.{IsGone, reconcile_peer_deletes-IsGone}
use keys_core.Ingest.Tests.{any_date}
use keys_core.Ingest.Materialize.{
  contains, holds_entry, tombstoned, any_alive, group_alive, depth_rounds, max_depth, group_depth,
  insert_deepest, sort_deepest, sift, delete_group_row, delete_group_rows,
  materialize_group_tombstones,
}
use keys_core.Ingest.Materialize.Orphans.{
  IsMaterialized, materialize_group_tombstones-IsMaterialized,
}

-- 20 was deleted on both sides, 21 only there.
abbrev ours : Db
ours = record sample { deleted_objects = (20, some (pos 2500)) ∷ [] }

abbrev theirs : Db
theirs = record sample { deleted_objects = (20, some (pos 1300)) ∷ (21, none) ∷ [] }

united :
    (union_peer_tombstones (tombstone_map theirs.deleted_objects) ours).deleted_objects
    ≡ (20, some (pos 1300)) ∷ (21, none) ∷ []
unfolding runs earliest fold_stone tombstone_map_from tombstone_map set_stone union_tombstone
    union_peer_tombstones keys_core.Base.Order.earlier
united = refl

ours_AllDates : AllDates any_date ours.deleted_objects
ours_AllDates = ((λ t e. refl), tt)

theirs_AllDates : AllDates any_date theirs.deleted_objects
theirs_AllDates = ((λ t e. refl), ((λ t e. refl), tt))

union_peer_tombstones-agree_example :
    second_of (
      tombstone_of 20
        (union_peer_tombstones
          (tombstone_map
            (carried floor_to_second (read_deleted_objects any_date theirs.deleted_objects)))
          ours).deleted_objects)
    ≡ second_of (
        tombstone_of 20
          (union_peer_tombstones
            (tombstone_map
              (carried floor_to_second (read_deleted_objects any_date ours.deleted_objects)))
            theirs).deleted_objects)
unfolding runs
union_peer_tombstones-agree_example =
    union_peer_tombstones-agree any_date floor_to_second 20 ours theirs (λ t. refl) (tt, tt)
      (((λ i. ground arith), tt), (tt, tt)) refl refl ours_AllDates theirs_AllDates

-- 10 was edited before the peer deleted it, and 11 after.
abbrev local : Stones
local = (10, some (pos 100)) ∷ (11, some (pos 900)) ∷ []

abbrev peer_tomb : Stones
peer_tomb = (10, some (pos 200)) ∷ (11, some (pos 200)) ∷ []

deletes : (reconcile_peer_deletes local [] peer_tomb (sample, [])).1 ≡ 10 ∷ []
unfolding runs reconcile_peer_deletes live_edit_wins delete_local_entry
deletes = refl

reconcile_peer_deletes-IsGone_example :
    (IsGone [] peer_tomb 10 local
      × (entry_exists (reconcile_peer_deletes local [] peer_tomb (sample, [])).0.entries 10
          ≡ false))
    ⊎ ((¬ IsGone [] peer_tomb 10 local)
        × (entry_exists (reconcile_peer_deletes local [] peer_tomb (sample, [])).0.entries 10
            ≡ entry_exists sample.entries 10))
reconcile_peer_deletes-IsGone_example =
    reconcile_peer_deletes-IsGone [] peer_tomb local sample [] 10

-- The groups 2 and 4 have tombstones; the entry in 4 is gone, or it is not.
abbrev marked : Db
marked = record sample {
  entries = item 11 3 true ∷ [];
  deleted_objects = (2, some (pos 7)) ∷ (4, some (pos 6)) ∷ (20, none) ∷ [];
}

abbrev held : Db
held = record marked { entries = sample.entries }

both_deleted :
    materialize_group_tombstones 9 marked
    ≡ some (
        ok (record marked { groups = row 1 none false 0 ∷ row 3 (some 1) true 1 ∷ [] }, 4 ∷ 2 ∷ []))
unfolding runs contains holds_entry tombstoned any_alive group_alive depth_rounds max_depth
    group_depth insert_deepest sort_deepest sift delete_group_row delete_group_rows
    materialize_group_tombstones
both_deleted = refl

both_kept :
    materialize_group_tombstones 9 held
    ≡ some (ok (record held { deleted_objects = (20, none) ∷ [] }, []))
unfolding runs contains holds_entry tombstoned any_alive group_alive depth_rounds max_depth
    group_depth insert_deepest sort_deepest sift delete_group_row delete_group_rows
    materialize_group_tombstones remove_tombstone
both_kept = refl

materialize_group_tombstones-IsMaterialized_example :
    (db' : Db) × (deleted : List Uuid) × (materialize_group_tombstones 9 marked
      ≡ some (ok (db', deleted)))
    × IsMaterialized marked db' deleted
unfolding runs max_depth
materialize_group_tombstones-IsMaterialized_example =
    materialize_group_tombstones-IsMaterialized 9 marked tree-IsTree
      (refl, (refl, (refl, (refl, tt)))) (refl, tt) (omega arith) (omega arith)
