-- ===== src/Ingest/Tests.antt =====
-- The reconciliation of a peer run on small mirrors (crates/keys-engine/src/ingest.rs).
pub mod Tombstones
pub mod Replicas
use keys_core.Base.{
  Bool, true, ℕ, pos, false, Option, none, some, List, [], ◌∷◌, ◌==◌, ◌≡◌, refl, arith, inl, inr,
  Bool-cases, ==_iff,
}
use keys_core.Vault.Tables.{Millis, Uuid, Group, Result, ok, find_group}
use keys_core.Vault.Queries.{parent_of}
use keys_core.Vault.Groups.Ancestors.{IsTree}
use keys_core.Vault.Groups.Depth.{IsTree-of_depth}
use keys_core.Vault.Tests.Samples.{row, runs}
use keys_core.Ingest.{floor_to_second, edited_after}
use keys_core.Ingest.Groups.{
  PeerTree, PeerTrees, Pass, collect, adopt_groups, reconcile_group_metadata,
  reconcile_group_location, reconcile_groups, from_position, walk, find_one_cycle, victim,
  break_group_cycles, reconcile_peer_groups,
}
use keys_core.Ingest.Groups.Cycles.{AreKeys, IsLinked}
use keys_core.Ingest.Groups.Succeeds.{reconcile_peer_groups_succeeds}
use keys_core.Ingest.Groups.Replicas.{builtin_icon_index, projected}
use keys_core.Vault.Groups.Roots.{IsRooted}
use keys_core.Ingest.Resolutions.{
  keep, resolution_holds, decide_conflict, AreMirrored, decide_conflict-mirrored,
}

-- The keys in the order of the rows.
pub row_keys : List Group → List Uuid
row_keys [] = []
row_keys (g ∷ gs) = g.uuid ∷ row_keys gs

row_keys-AreKeys : AreKeys row_keys
unfolding row_keys parent_of find_group
row_keys-AreKeys [] u p h = cc
row_keys-AreKeys (g ∷ gs) u p h = elim (Bool-cases (g.uuid == u)) [
  | inl same ↦ inl ((==_iff g.uuid u).0 same)
  | inr other ↦ inr (row_keys-AreKeys gs u p (ground arith))
]

abbrev pub pass : List Group → Pass
pass gs = record { groups = gs; groups_added = []; groups_updated = []; groups_moved = [] }

abbrev placed_at : Option ℕ → Group → Group
placed_at none g = record g { location_changed_at = none }
placed_at (some t) g = record g { location_changed_at = some (pos t) }

-- Every second is a date here.
abbrev pub any_date : Millis → Bool
any_date ms = true

abbrev leaf : Group → PeerTrees → PeerTree
leaf g kids = PeerTree.node (projected any_date g) kids

-- 4 was moved below 2 here, and 2 below 4 there.
abbrev here : List Group
here =
    row 1 none false 0
    ∷ row 2 (some 1) false 0
    ∷ placed_at (some 9000) (row 4 (some 2) false 0)
    ∷ []

abbrev there : PeerTree
there = leaf (row 1 none false 0) (
    PeerTrees.cons
      (leaf (row 4 (some 1) false 0) (
        PeerTrees.cons (leaf (placed_at (some 8000) (row 2 (some 4) false 0)) PeerTrees.nil)
          PeerTrees.nil))
      PeerTrees.nil)

here-IsLinked : IsLinked 1 here
unfolding runs
here-IsLinked = record { parents = t.parents; root_is = refl; root_exists = refl }
  where
    t : IsTree here
    t =
        IsTree-of_depth here (λ u. u)
          ((λ q e. cc), ((λ q e. ground arith), ((λ q e. ground arith), tt)))
          ((λ q e. cc), ((λ q e. ground arith), ((λ q e. ground arith), tt)))

-- The circle of 2 and 4 is broken at 2.
broken_at_2 :
    reconcile_peer_groups row_keys 9 there (pass here)
    ≡ some (
        ok (record {
          groups =
              row 1 none false 0
              ∷ placed_at (some 8000) (row 2 (some 1) false 0)
              ∷ placed_at (some 9000) (row 4 (some 2) false 0)
              ∷ [];
          groups_added = [];
          groups_updated = [];
          groups_moved = 2 ∷ 2 ∷ [];
        }))
unfolding runs row_keys collect adopt_groups reconcile_group_metadata reconcile_group_location
    reconcile_groups from_position walk find_one_cycle victim break_group_cycles
    reconcile_peer_groups builtin_icon_index floor_to_second keys_core.Ingest.ms_to_dt
    keys_core.Base.Order.earlier
broken_at_2 = refl

reconcile_peer_groups_succeeds_example :
    (done : Pass) × (reconcile_peer_groups row_keys 9 there (pass here) ≡ some (ok done))
    × IsTree done.groups
    × IsLinked 1 done.groups
    × IsRooted 1 done.groups
unfolding collect
reconcile_peer_groups_succeeds_example =
    reconcile_peer_groups_succeeds row_keys 9 there (pass here) row_keys-AreKeys (omega arith)
      here-IsLinked ((λ p e. cc), ((λ p e. ground arith), ((λ p e. ground arith), tt)))
      ((48, refl), ((48, refl), ((48, refl), tt))) ((λ e. refl), ((λ e. cc), ((λ e. cc), tt)))

-- Both sides resolved the conflict in one second: each keeps its own value.
both_resolved :
    (decide_conflict (some (pos 1000)) (some (pos 1000)) (some (pos 1000)) (some (pos 1000)) ≡ keep)
unfolding decide_conflict resolution_holds edited_after
both_resolved = refl

decide_conflict-mirrored_example :
    AreMirrored
      (some (pos 3000))
      (some (pos 4000))
      (some (pos 5000))
      none
      (decide_conflict (some (pos 3000)) (some (pos 4000)) (some (pos 5000)) none)
      (decide_conflict (some (pos 4000)) (some (pos 3000)) none (some (pos 5000)))
decide_conflict-mirrored_example =
    decide_conflict-mirrored (some (pos 3000)) (some (pos 4000)) (some (pos 5000)) none
