-- ===== src/Vault/Tests/Purges.antt =====
-- The bulk deletions on a small mirror (crates/keys-engine/src/mutations.rs).
use keys_core.Base.{pos, ◌-◌, true, not, none, some, [], ◌∷◌, ◌≡◌, ◌≢◌, refl, arith, All, ◌==◌}
use keys_core.Vault.Tables.{ok}
use keys_core.Vault.Purge.{Purge, start, delete_group, empty_recycle_bin}
use keys_core.Vault.Purge.Removal.{
  IsConsistent, delete_group-IsConsistent, empty_recycle_bin_empties, delete_group_returns,
}
use keys_core.Vault.Purge.Accounting.{
  IsAccounted, delete_group-IsAccounted, empty_recycle_bin-IsAccounted,
}
use keys_core.Vault.Tests.Samples.{runs, sample}

abbrev purged : Purge
purged = elim (delete_group 9 sample 2 (pos 5)) [ some (ok s) ↦ s | _ ↦ start sample ]

purge_runs : delete_group 9 sample 2 (pos 5) ≡ some (ok purged)
unfolding runs
purge_runs = refl

-- The children go first; each is listed with its parent.
purge_order : purged.deleted_groups ≡ (4, some 2) ∷ (2, some 1) ∷ []
unfolding runs
purge_order = refl

sample-IsConsistent : IsConsistent sample
unfolding runs
sample-IsConsistent = record {
  parents =
      ((λ q e. cc), ((λ q e. ground arith), ((λ q e. ground arith), ((λ q e. ground arith), tt))));
  places = (refl, (refl, tt));
}

delete_group-IsConsistent_example :
    IsConsistent purged.db × All (λ g. (not (g.uuid == 2)) ≡ true) purged.db.groups
delete_group-IsConsistent_example =
    delete_group-IsConsistent 9 sample 2 (pos 5) purged sample-IsConsistent purge_runs

delete_group-IsAccounted_example : IsAccounted sample (pos 5) purged.db
delete_group-IsAccounted_example = delete_group-IsAccounted 9 sample 2 (pos 5) purged purge_runs

delete_group_returns_example : delete_group 9 sample 2 (pos 5) ≢ none
delete_group_returns_example =
    delete_group_returns (λ u. 8 - u) 9 sample 2 (pos 5)
      ((λ q e. cc), ((λ q e. ground arith), ((λ q e. ground arith), ((λ q e. ground arith), tt))))
      (omega arith)

abbrev emptied : Purge
emptied = elim (empty_recycle_bin 9 sample (pos 5)) [ some s ↦ s | _ ↦ start sample ]

empty_runs : empty_recycle_bin 9 sample (pos 5) ≡ some emptied
unfolding runs
empty_runs = refl

empty_recycle_bin_empties_example :
    All (λ g. g.parent_uuid ≢ some 3) emptied.db.groups
    × All (λ e. (not (e.group_uuid == 3)) ≡ true) emptied.db.entries
    × IsConsistent emptied.db
unfolding runs
empty_recycle_bin_empties_example =
    empty_recycle_bin_empties 9 sample (pos 5) 3 emptied refl sample-IsConsistent refl

empty_recycle_bin-IsAccounted_example : IsAccounted sample (pos 5) emptied.db
empty_recycle_bin-IsAccounted_example =
    empty_recycle_bin-IsAccounted 9 sample (pos 5) emptied empty_runs
