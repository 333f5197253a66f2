-- ===== src/Vault/Tests/Entries.antt =====
-- The entry operations and the recycle bin on a small mirror
-- (crates/keys-engine/src/mutations.rs).
use keys_core.Base.{pos, true, false, none, some, [], ◌∷◌, ◌≡◌, ◌≢◌, refl, sym, subst, arith}
use keys_core.Vault.Tables.{Uuid, Db, find_entry, ok}
use keys_core.Vault.Queries.{recycle_bin_uuid, root_uuid}
use keys_core.Vault.Bin.{set_recycle_bin, ensure_recycle_bin}
use keys_core.Vault.Groups.Ancestors.{IsTree, IsAncestor, self, above}
use keys_core.Vault.Groups.Depth.{IsTree-of_depth}
use keys_core.Vault.Entries.{recycle_entry, restore_entry, delete_entry, move_entry}
use keys_core.Vault.Entries.Flags.{FlagsMatch}
use keys_core.Vault.Entries.Subtree.{IsBelowBin, AreFlagged, restore_entry-AreFlagged}
use keys_core.Vault.Entries.Recycling.{recycle_entry-FlagsMatch}
use keys_core.Vault.Entries.RoundTrip.{restore-recycle}
use keys_core.Vault.Tests.Samples.{runs, row, item, mirror, tree, tree-IsTree, sample}

abbrev designated : Db
designated = elim (set_recycle_bin sample false (some 4) (pos 5)) [ ok db ↦ db | _ ↦ sample ]

-- Enabled, and without a bin.
abbrev binless : Db
binless = mirror (row 1 none false 0 ∷ row 2 (some 1) false 0 ∷ []) (item 10 2 false ∷ [])

abbrev ensured : Db
ensured = elim (ensure_recycle_bin binless (pos 5) 9) [ ok (db, bin) ↦ db | _ ↦ binless ]

ensured_runs : ensure_recycle_bin binless (pos 5) 9 ≡ ok (ensured, some 9)
unfolding runs
ensured_runs = refl

binless-IsTree : IsTree binless.groups
unfolding runs
binless-IsTree =
    IsTree-of_depth binless.groups (λ u. u) ((λ q e. cc), ((λ q e. ground arith), tt))
      ((λ q e. cc), ((λ q e. ground arith), tt))

abbrev moved : Db
moved = elim (move_entry sample 10 3 (pos 5)) [ ok (db, o) ↦ db | _ ↦ sample ]

abbrev restored : Db
restored = elim (restore_entry sample 11 (pos 5)) [ ok db ↦ db | _ ↦ sample ]

root_is_first : (root : Uuid) → root_uuid sample.groups ≡ some root → 1 ≡ root
unfolding runs
root_is_first root e = cc

bin_is_third : (bin : Uuid) → recycle_bin_uuid sample.groups ≡ some bin → 3 ≡ bin
unfolding runs
bin_is_third bin e = cc

not_below_first : ¬ IsAncestor sample.groups 3 1
unfolding runs
not_below_first (self e) = absurd (omega arith)
not_below_first (above p h k) = cc

root_is_live : (root : Uuid) → root_uuid sample.groups ≡ some root → ¬ IsBelowBin sample.groups root
root_is_live root e (bin, is, k) = not_below_first (
    subst (λ b. IsAncestor sample.groups b 1) (sym (bin_is_third bin is))
      (subst (IsAncestor sample.groups bin) (sym (root_is_first root e)) k))

not_below_fourth : ¬ IsAncestor sample.groups 3 4
unfolding runs
not_below_fourth (self e) = absurd (omega arith)
not_below_fourth (above p h k) = below_second (subst (IsAncestor sample.groups 3) (sym (cc h)) k)
  where
    below_second : ¬ IsAncestor sample.groups 3 2
    below_second (self e) = absurd (omega arith)
    below_second (above q e l) = not_below_first (subst (IsAncestor sample.groups 3) (sym (cc e)) l)

sample-AreFlagged : AreFlagged sample.groups sample.entries
unfolding runs
sample-AreFlagged = (
  (
    λ e. cc,
    λ b. absurd (
        not_below_fourth
          (subst (λ x. IsAncestor sample.groups x 4) (sym (bin_is_third b.0 b.1)) b.2)),
  ),
  ((λ e. (3, refl, self refl), λ b. refl), tt),
)

restore_entry-AreFlagged_example : AreFlagged restored.groups restored.entries
unfolding runs
restore_entry-AreFlagged_example =
    restore_entry-AreFlagged sample 11 (pos 5) restored tree-IsTree (omega arith) root_is_live
      (refl, (refl, tt)) sample-AreFlagged refl

abbrev recycled : Db
recycled = elim (recycle_entry binless 10 (pos 5) 9) [ ok db ↦ db | _ ↦ sample ]

recycle_entry-FlagsMatch_example : FlagsMatch recycled.groups recycled.entries
unfolding runs
recycle_entry-FlagsMatch_example =
    recycle_entry-FlagsMatch binless 10 (pos 5) 9 recycled binless-IsTree (refl, tt) (refl, tt) refl

-- The recycled entry lies in the bin that was made for it.
recycle_creates_bin :
    recycled.entries
    ≡ record (item 10 9 true) {
      modified_at = pos 5;
      previous_parent_uuid = some 2;
      location_changed_at = some (pos 5);
    }
      ∷ []
unfolding runs
recycle_creates_bin = refl

restore-recycle_example :
    (binned restored : Db) × (recycle_entry sample 10 (pos 5) 9 ≡ ok binned)
    × (restore_entry binned 10 (pos 6) ≡ ok restored)
    × (find_entry restored.entries 10
        ≡ some (record (item 10 4 false) {
          is_recycled = false;
          previous_parent_uuid = some 3;
          modified_at = pos 6;
          location_changed_at = some (pos 6);
        }))
    × ((v : Uuid) → v ≢ 10 → find_entry restored.entries v ≡ find_entry sample.entries v)
    × (restored.groups ≡ tree)
unfolding runs
restore-recycle_example =
    restore-recycle sample 10 3 (item 10 4 false) (pos 5) (pos 6) 9 refl refl refl refl

-- Disabled, and without a bin.
abbrev disabled : Db
disabled = record binless { recycle_bin_enabled = some (0 ∷ []) }

abbrev deleted : Db
deleted = elim (delete_entry sample 10 (pos 5)) [ ok (db, g) ↦ db | _ ↦ sample ]
