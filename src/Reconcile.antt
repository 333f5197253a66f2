-- ===== src/Reconcile.antt =====
-- Parked conflicts and their reconciliation with the local vault
-- (crates/keys-engine/src/reconcile.rs, crates/keys-engine/src/conflict_rows.rs). The merge and the
-- vault's records are another crate's: parameters. The projection of the mirror's other tables and
-- their ingestion are taken as an interface. Owners and ids are numbers.
pub mod Rows
pub mod Decide
pub mod Settling
pub mod Loop
pub mod Sparing
pub mod Settled
pub mod Tests
use keys_core.Base.{
  ℕ, zero, suc, Bool, true, false, not, ◌&&◌, Option, none, some, List, [], ◌∷◌, ◌++◌, map, ◌==◌,
  ltb, leb, if◌then◌else◌, keep_if, all, ◌≡◌, refl,
}
use keys_core.Base.Fallible.{Result, ok, err}
use keys_core.Tree.{Group}

-- `keepass_core::model::Vault`: the tree, the binary pool, and the rest.
pub record Vault (E B R : Type 0) : Type 0 where
  pub root : Group E
  pub binaries : B
  pub rest : R

-- A row of conflict_entry, and of conflict_entry_blob_ref.
pub record ConflictRow (J : Type 0) : Type 0 where
  pub owner : ℕ
  pub entry_uuid : ℕ
  pub entry_json : J

pub record BlobRef : Type 0 where
  pub owner : ℕ
  pub entry_uuid : ℕ
  pub blob_sha256 : ℕ

-- The engine: the mirror's other tables as X, the two tables, and the events it has emitted
-- (`EntriesUpdated`).
pub record Engine (X J : Type 0) : Type 0 where
  pub mirror : X
  pub conflict_entry : List (ConflictRow J)
  pub conflict_entry_blob_ref : List BlobRef
  pub events : List (List ℕ)

-- What the other crates give: entries with their fields, the derived equality of entries, the record
-- that a row holds, the merge, and the mirror's projection and ingestion.
pub record Crates (X J E B R F Er O : Type 0) : Type 0 where
  pub id : E → ℕ
  pub key : F → ℕ
  pub custom_fields : E → List F
  pub history : E → List E
  pub with_fields : List F → E → E
  pub with_history : List E → E → E
  pub same : E → E → Bool
  -- `times.location_changed` and `previous_parent_group`, copied from the second entry.
  pub with_placement : E → E → E
  -- `reconstruct_peer_entry` of a row that is there: the entry and the grown binary pool.
  pub rebuild : X → J → B → Result Er (E × B)
  pub merge : Vault E B R → Vault E B R → Result Er O
  pub entry_conflicts : O → List ℕ
  pub delete_edit_conflicts : O → List ℕ
  pub apply_merge : Vault E B R → Vault E B R → O → Result Er (Vault E B R)
  pub reconcile_timestamps : Vault E B R → Vault E B R → Vault E B R
  pub acquire_session_key : Result Er (Unit {0})
  pub project : X → Result Er (Vault E B R)
  pub ingest : Vault E B R → X → Result Er X

-- ORDER BY owner, and by entry_uuid with DISTINCT.
unfoldable pub insert_sorted : ℕ → List ℕ → List ℕ
insert_sorted a [] = a ∷ []
insert_sorted a (b ∷ bs) = let rest = insert_sorted a bs in if leb a b then a ∷ b ∷ bs else b ∷ rest

unfoldable pub insert_distinct : ℕ → List ℕ → List ℕ
insert_distinct a [] = a ∷ []
insert_distinct a (b ∷ bs) =
    let rest = insert_distinct a bs in
    if a == b then b ∷ bs else (if ltb a b then a ∷ b ∷ bs else b ∷ rest)

module _ {J : Type 0} where
  unfoldable pub parked_conflict_uuids : List (ConflictRow J) → List ℕ
  parked_conflict_uuids [] = []
  parked_conflict_uuids (r ∷ rs) = insert_distinct r.entry_uuid (parked_conflict_uuids rs)

  unfoldable pub conflict_owners_for : List (ConflictRow J) → ℕ → List ℕ
  conflict_owners_for [] uuid = []
  conflict_owners_for (r ∷ rs) uuid =
      let rest = conflict_owners_for rs uuid in
      if r.entry_uuid == uuid then insert_sorted r.owner rest else rest

  -- SELECT entry_json … WHERE owner = ?1 AND entry_uuid = ?2
  unfoldable pub find_row : List (ConflictRow J) → ℕ → ℕ → Option J
  find_row [] owner uuid = none
  find_row (r ∷ rs) owner uuid =
      let rest = find_row rs owner uuid in
      if r.owner == owner && r.entry_uuid == uuid then some r.entry_json else rest

module _ {X J : Type 0} where
  unfoldable pub drop_conflict_rows : ℕ → Engine X J → Engine X J
  drop_conflict_rows uuid en = record en {
    conflict_entry = keep_if (λ r. not (r.entry_uuid == uuid)) en.conflict_entry;
    conflict_entry_blob_ref = keep_if (λ b. not (b.entry_uuid == uuid)) en.conflict_entry_blob_ref;
  }

  unfoldable pub drop_conflict_rows_for_owner : ℕ → ℕ → Engine X J → Engine X J
  drop_conflict_rows_for_owner owner uuid en = record en {
    conflict_entry =
        keep_if (λ r. not (r.owner == owner && r.entry_uuid == uuid)) en.conflict_entry;
    conflict_entry_blob_ref =
        keep_if (λ b. not (b.owner == owner && b.entry_uuid == uuid)) en.conflict_entry_blob_ref;
  }

  -- `for owner in &dropped`.
  unfoldable pub drop_owners : List ℕ → ℕ → Engine X J → Engine X J
  drop_owners [] uuid en = en
  drop_owners (o ∷ os) uuid en = drop_owners os uuid (drop_conflict_rows_for_owner o uuid en)
