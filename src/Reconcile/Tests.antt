-- ===== src/Reconcile/Tests.antt =====
-- Runs of the reconciliation (crates/keys-engine/src/reconcile.rs).
use keys_core.Base.{
  ℕ, ◌≡◌, refl, arith, inl, true, false, some, List, [], ◌∷◌, ◌==◌, ◌&&◌, if◌then◌else◌,
}
use keys_core.Tree.{
  Group, Groups, find, find_entry, find_entry_with_parent, replace, swap_entry_in_tree,
}
use keys_core.Reconcile.{
  Vault, ConflictRow, Engine, Crates, insert_sorted, conflict_owners_for, find_row,
  drop_conflict_rows_for_owner, drop_owners,
}
use keys_core.Base.Fallible.{Result, ok}
use keys_core.Reconcile.Settling.{IsLive}
use keys_core.Reconcile.Sparing.{Spares, dissolve_decision-Spares}
use keys_core.Reconcile.Decide.{
  DissolveDecision, theirs_vault, sort_fields, sorted, same_entry, is_unchanged, decide_owners,
  decide_for, dissolve_decision, apply_dissolve, settle_for, settle_once, settle_entry_rows,
  reconcile_all_conflict_rows,
}
use keys_core.Reconcile.Loop.{IsSettled}
use keys_core.Reconcile.Settled.{settle_entry_rows-IsSettled, reconcile_all_conflict_rows_returns}

-- Entries are an id and a content; the mirror is the vault itself.
abbrev Local : Type 0
Local = Vault (ℕ × ℕ) (Unit {0}) (Unit {0})

abbrev first_content : Group (ℕ × ℕ) → ℕ
first_content (Group.node g [] gs) = 0
first_content (Group.node g (e ∷ es) gs) = e.1

-- A merge takes the other vault; a content of 9 conflicts.
abbrev merge : Local → Local → Result ℕ (List ℕ)
merge local theirs = ok (if first_content theirs.root == 9 then 1 ∷ [] else [])

abbrev crates : Crates Local (ℕ × ℕ) (ℕ × ℕ) (Unit {0}) (Unit {0}) ℕ ℕ (List ℕ)
crates = record {
  id = λ e. e.0;
  key = λ f. f;
  custom_fields = λ e. [];
  history = λ e. [];
  with_fields = λ fs e. e;
  with_history = λ es e. e;
  same = λ a b. a.0 == b.0 && a.1 == b.1;
  with_placement = λ peer e. peer;
  rebuild = λ x j pool. ok (j, pool);
  merge = merge;
  entry_conflicts = λ o. o;
  delete_edit_conflicts = λ o. [];
  apply_merge = λ local theirs o. ok theirs;
  reconcile_timestamps = λ merged theirs. merged;
  acquire_session_key = ok tt;
  project = λ x. ok x;
  ingest = λ v x. ok v;
}

abbrev vault_of : ℕ → Local
vault_of content = record {
  root = Group.node 0 ((1, content) ∷ []) Groups.nil;
  binaries = tt;
  rest = tt;
}

abbrev row : ℕ → ℕ → ConflictRow (ℕ × ℕ)
row owner content = record { owner = owner; entry_uuid = 1; entry_json = (1, content) }

-- Three peers: one agrees with the local entry, one has an edit that merges, one conflicts.
abbrev parked : Engine Local (ℕ × ℕ)
parked = record {
  mirror = vault_of 5;
  conflict_entry = row 30 9 ∷ row 10 5 ∷ row 20 6 ∷ [];
  conflict_entry_blob_ref = [];
  events = [];
}

abbrev settled : Engine Local (ℕ × ℕ)
settled = record {
  mirror = vault_of 6;
  conflict_entry = row 30 9 ∷ [];
  conflict_entry_blob_ref = [];
  events = (1 ∷ []) ∷ [];
}

settle_parked :
    settle_entry_rows crates 4 parked (vault_of 5) 1 false ≡ some (ok (settled, vault_of 6, true))
unfolding settle_entry_rows settle_once settle_for conflict_owners_for insert_sorted
    dissolve_decision decide_for find_entry find_entry_with_parent find decide_owners theirs_vault
    find_row swap_entry_in_tree replace is_unchanged same_entry sorted apply_dissolve sort_fields
    drop_conflict_rows_for_owner drop_owners
settle_parked = refl

settle_entry_rows-IsSettled_example : IsSettled crates parked (vault_of 6) 1 settled
settle_entry_rows-IsSettled_example =
    settle_entry_rows-IsSettled crates 4 parked (vault_of 5) 1 false settled (vault_of 6) true
      settle_parked

reconcile_all_conflict_rows_returns_example :
    (r : Result ℕ (Engine Local (ℕ × ℕ) × List ℕ)) × (reconcile_all_conflict_rows crates 4 parked
      ≡ some r)
reconcile_all_conflict_rows_returns_example =
    reconcile_all_conflict_rows_returns crates 4 parked (omega arith)

-- The row of the owner 30 conflicts with the vault at the start.
row-IsLive : IsLive crates parked (vault_of 5) 1 30
unfolding find_entry find_entry_with_parent find theirs_vault find_row swap_entry_in_tree replace
row-IsLive = record {
  entry = (1, 5);
  theirs = vault_of 9;
  outcome = 1 ∷ [];
  found = refl;
  parked = refl;
  merges = refl;
  conflicts = inl (λ e. cc);
}

-- The first owner has nothing new, and the second is adopted.
decided :
    dissolve_decision crates parked (vault_of 5) 1 (10 ∷ 20 ∷ 30 ∷ [])
    ≡ ok (DissolveDecision.settle (10 ∷ []) (some (20, vault_of 6)))
unfolding dissolve_decision decide_for decide_owners find_entry find_entry_with_parent find
    theirs_vault find_row swap_entry_in_tree replace is_unchanged same_entry sorted sort_fields
decided = refl

dissolve_decision-Spares_example :
    Spares 30 (DissolveDecision.settle (10 ∷ []) (some (20, vault_of 6)))
dissolve_decision-Spares_example =
    dissolve_decision-Spares crates parked (vault_of 5) 1 (10 ∷ 20 ∷ 30 ∷ []) 30 _ row-IsLive
      decided
