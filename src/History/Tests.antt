-- ===== src/History/Tests.antt =====
-- Histories of a few snapshots (crates/keys-engine/src/mutations.rs).
use keys_core.Base.{
  ℕ, ◌≡◌, ◌≤◌, refl, arith, pos, negsuc, false, none, some, List, [], ◌∷◌, ◌++◌, ◌==◌,
  if◌then◌else◌, length,
}
use keys_core.Base.Fallible.{Result, ok, err, ◌>>=◌}
use keys_core.History.{
  EntryHistory, Failure, entry, update_rows, delete_row, insert_by_index, by_index,
  delete_history_at,
}
use keys_core.History.Prune.{
  Crates, items_cap, size_cap, choose, kept_of, dropped_of, delete_rows, renumber, repack, add_all,
  tombstone_quota_trimmed_snapshots, prune_rows, prune_history, archive_snapshot, other,
}
use keys_core.History.Selection.{sum, IsGreedy, choose-IsGreedy}
use keys_core.History.Refinement.{listed, prune_listed, archive_snapshot-listed}
use keys_core.History.Deletion.{without, deleted, delete_history_at-listed}

-- A snapshot is its length; the snapshot 13 cannot be rebuilt, and a tombstone list is the lengths.
abbrev crates : Crates ℕ ℕ (List ℕ) (Unit {0}) ℕ ℕ (List ℕ) ℕ
crates = record {
  to_string = λ s. ok s;
  size_bytes = λ j. j;
  session_key = ok tt;
  no_pool = 0;
  snapshot_json_to_entry = λ key j pool. (pool, if j == 13 then none else some j);
  carrier = λ existing. elim existing [ none ↦ [] | some l ↦ l ];
  add_history_tombstone = λ k e pool. ok (k ++ e ∷ []);
  item = λ k. some k;
}

-- The large newer snapshot goes, and the older small one stays.
pruned :
    prune_history crates (pos 2) (pos 60) (listed (5 ∷ 90 ∷ 13 ∷ []) none)
    ≡ ok (listed (5 ∷ 13 ∷ []) (some (90 ∷ [])))
unfolding prune_history prune_rows by_index insert_by_index items_cap size_cap choose kept_of
    dropped_of tombstone_quota_trimmed_snapshots add_all repack renumber update_rows delete_rows
    delete_row
pruned = refl

no_such_entry :
    ◌≡◌ {A = Result (Failure ℕ) (EntryHistory ℕ ℕ)}
      (delete_history_at (record (listed (5 ∷ []) none) { is_there = false }) 0)
      (err (Failure.not_found entry))
unfolding delete_history_at
no_such_entry = refl

-- Sizes, oldest first.
abbrev sizes : List ℕ
sizes = 5 ∷ 90 ∷ 13 ∷ []

choose-IsGreedy_example :
    IsGreedy 2 60 (choose 2 60 sizes).0 sizes
    × (length (kept_of (choose 2 60 sizes).0 sizes) ≤ 2)
    × (sum (kept_of (choose 2 60 sizes).0 sizes) ≤ 60)
choose-IsGreedy_example = choose-IsGreedy 2 60 sizes (omega arith)

archive_snapshot-listed_example :
    archive_snapshot crates (pos 2) (negsuc 0) (listed (5 ∷ 90 ∷ []) none) 7 ≡ (
      other crates (ok 7) >>= λ json.
      prune_listed crates (pos 2) (negsuc 0) none (5 ∷ 90 ∷ json ∷ []))
archive_snapshot-listed_example =
    archive_snapshot-listed crates (pos 2) (negsuc 0) (5 ∷ 90 ∷ []) none 7 (omega arith)

delete_history_at-listed_example :
    ◌≡◌ {A = Result (Failure ℕ) (EntryHistory ℕ (List ℕ))}
      (delete_history_at (listed (5 ∷ 90 ∷ 13 ∷ []) none) 1)
      (deleted none (without 1 (5 ∷ 90 ∷ 13 ∷ [])))
delete_history_at-listed_example = delete_history_at-listed (5 ∷ 90 ∷ 13 ∷ []) none 1
