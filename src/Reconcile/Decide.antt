-- ===== src/Reconcile/Decide.antt =====
-- What becomes of an entry's parked rows (`theirs_vault`, `dissolve_decision`, `apply_dissolve`,
-- `settle_entry_rows`, `reconcile_conflict_rows` and `reconcile_all_conflict_rows` of
-- crates/keys-engine/src/reconcile.rs). An error comes without the state that it leaves.
use keys_core.Base.{
  ℕ, zero, suc, Bool, true, false, not, ◌||◌, Option, none, some, List, [], ◌∷◌, ◌++◌, map, leb,
  if◌then◌else◌,
}
use mathlib.Core.Option
use keys_core.Tree.{find_entry, swap_entry_in_tree}
use keys_core.Reconcile.{
  Vault, Engine, Crates, parked_conflict_uuids, conflict_owners_for, find_row, drop_conflict_rows,
  drop_conflict_rows_for_owner, drop_owners,
}
use keys_core.Base.Fallible.{Result, ok, err, ◌>>=◌}

-- `DissolveDecision`.
pub data DissolveDecision (V : Type 0) : Type 0 where
  drop_all : DissolveDecision V
  settle : List ℕ → Option (ℕ × V) → DissolveDecision V

module _ {X J E B R F Er O : Type 0} (c : Crates X J E B R F Er O) where
  -- The local entry's placement on the peer's entry.
  abbrev pub placed : E → Option E → E
  placed peer none = peer
  placed peer (some e) = c.with_placement peer e

  abbrev pub spliced : Vault E B R → E × B → Vault E B R
  spliced local (peer, pool) =
      let found = find_entry c.id (c.id peer) local.root in
      record local {
        root = swap_entry_in_tree c.id (placed peer found) local.root;
        binaries = pool;
      }

  -- The clone of the local vault for a row that was found or not.
  abbrev pub theirs_of : X → Vault E B R → Option J → Result Er (Option (Vault E B R))
  theirs_of mirror local none = ok none
  theirs_of mirror local (some json) =
      c.rebuild mirror json local.binaries >>= λ r. ok (some (spliced local r))

  unfoldable pub theirs_vault : Engine X J → Vault E B R → ℕ → ℕ → Result Er (Option (Vault E B R))
  theirs_vault en local owner uuid =
      theirs_of en.mirror local (find_row en.conflict_entry owner uuid)

  -- `sort_by` on the keys of the custom fields, which keeps equal keys in their order.
  unfoldable pub insert_field : F → List F → List F
  insert_field f [] = f ∷ []
  insert_field f (g ∷ gs) =
      let rest = insert_field f gs in if leb (c.key f) (c.key g) then f ∷ g ∷ gs else g ∷ rest

  unfoldable pub sort_fields : List F → List F
  sort_fields [] = []
  sort_fields (f ∷ fs) = insert_field f (sort_fields fs)

  abbrev pub sorted_fields : E → E
  sorted_fields e = c.with_fields (sort_fields (c.custom_fields e)) e

  unfoldable pub sorted : E → E
  sorted e = c.with_history (map sorted_fields (c.history e)) (sorted_fields e)

  unfoldable pub same_entry : E → E → Bool
  same_entry a b = c.same (sorted a) (sorted b)

  abbrev pub is_empty : List ℕ → Bool
  is_empty [] = true
  is_empty (x ∷ xs) = false

  abbrev pub has_conflicts : O → Bool
  has_conflicts o =
      not (is_empty (c.entry_conflicts o)) || not (is_empty (c.delete_edit_conflicts o))

  -- `find_entry(&merged.root, id).is_some_and(|m| same_entry(m, local_entry))`.
  unfoldable pub is_unchanged : ℕ → E → Vault E B R → Bool
  is_unchanged uuid local_entry merged = elim (find_entry c.id uuid merged.root) [
    | none ↦ false
    | some m ↦ same_entry m local_entry
  ]

  -- A clean merge, landed on a clone of the local vault.
  abbrev pub merged_with : Vault E B R → Vault E B R → O → Result Er (Vault E B R)
  merged_with local theirs outcome =
      c.apply_merge local theirs outcome >>= λ merged. ok (c.reconcile_timestamps merged theirs)

  -- The body of the loop over the owners, after the merge and before it; `keep` is the rest of the
  -- loop, and `drop` the rest with the owner dropped.
  abbrev pub decide_merged :
      ℕ
      → E
      → List ℕ
      → ℕ
      → Result Er (DissolveDecision (Vault E B R))
      → Vault E B R
      → Result Er (DissolveDecision (Vault E B R))
  decide_merged uuid local_entry dropped owner drop merged =
      if is_unchanged uuid local_entry merged
      then drop
      else ok (DissolveDecision.settle dropped (some (owner, merged)))

  abbrev pub decide_one :
      Vault E B R
      → ℕ
      → E
      → List ℕ
      → ℕ
      → Result Er (DissolveDecision (Vault E B R))
      → Result Er (DissolveDecision (Vault E B R))
      → Option (Vault E B R)
      → Result Er (DissolveDecision (Vault E B R))
  decide_one local uuid local_entry dropped owner keep drop none = drop
  decide_one local uuid local_entry dropped owner keep drop (some theirs) =
      c.merge local theirs >>= λ outcome.
      if has_conflicts outcome
      then keep
      else (merged_with local theirs outcome >>= decide_merged uuid local_entry dropped owner drop)

  -- The loop over the owners; `dropped` is the vector so far.
  unfoldable pub decide_owners :
      Engine X J
      → Vault E B R
      → ℕ
      → E
      → List ℕ
      → List ℕ
      → Result Er (DissolveDecision (Vault E B R))
  decide_owners en local uuid local_entry dropped [] = ok (DissolveDecision.settle dropped none)
  decide_owners en local uuid local_entry dropped (owner ∷ owners) =
      let keep = decide_owners en local uuid local_entry dropped owners in
      let drop = decide_owners en local uuid local_entry (dropped ++ owner ∷ []) owners in
      theirs_vault en local owner uuid >>= decide_one local uuid local_entry dropped owner keep drop

  -- For an entry that is gone or there.
  unfoldable pub decide_for :
      Engine X J → Vault E B R → ℕ → List ℕ → Option E → Result Er (DissolveDecision (Vault E B R))
  decide_for en local uuid owners none = ok DissolveDecision.drop_all
  decide_for en local uuid owners (some e) = decide_owners en local uuid e [] owners

  unfoldable pub dissolve_decision :
      Engine X J → Vault E B R → ℕ → List ℕ → Result Er (DissolveDecision (Vault E B R))
  dissolve_decision en local uuid owners =
      decide_for en local uuid owners (find_entry c.id uuid local.root)

  unfoldable pub apply_dissolve :
      Engine X J → ℕ → DissolveDecision (Vault E B R) → Result Er (Engine X J × Bool)
  apply_dissolve en uuid DissolveDecision.drop_all = ok (drop_conflict_rows uuid en, false)
  apply_dissolve en uuid (DissolveDecision.settle dropped none) =
      ok (drop_owners dropped uuid en, false)
  apply_dissolve en uuid (DissolveDecision.settle dropped (some (owner, merged))) =
      c.ingest merged (drop_owners dropped uuid en).mirror >>= λ x.
      let landed =
        drop_conflict_rows_for_owner owner uuid
          (record (drop_owners dropped uuid en) { mirror = x }) in
      ok (record landed { events = landed.events ++ (uuid ∷ []) ∷ [] }, true)

  -- After a decision was applied: a landed merge means another pass, on a fresh projection.
  abbrev pub project_again : Engine X J × Bool → Result Er (Engine X J × Option (Vault E B R))
  project_again (en, false) = ok (en, none)
  project_again (en, true) = c.project en.mirror >>= λ v. ok (en, some v)

  -- One pass of the loop of `settle_entry_rows`: without a vault, the loop ends here.
  unfoldable pub settle_for :
      Engine X J → Vault E B R → ℕ → List ℕ → Result Er (Engine X J × Option (Vault E B R))
  settle_for en local uuid [] = ok (en, none)
  settle_for en local uuid (o ∷ os) = dissolve_decision en local uuid (o ∷ os) >>= λ decision.
      apply_dissolve en uuid decision >>= project_again

  unfoldable pub settle_once :
      Engine X J → Vault E B R → ℕ → Result Er (Engine X J × Option (Vault E B R))
  settle_once en local uuid = settle_for en local uuid (conflict_owners_for en.conflict_entry uuid)

  -- `none` means that the loop still runs after `fuel` passes. The result holds the engine, the local
  -- vault as it was last projected, and whether a merge was landed.
  unfoldable pub settle_entry_rows :
      ℕ → Engine X J → Vault E B R → ℕ → Bool → Option (Result Er (Engine X J × Vault E B R × Bool))
  settle_entry_rows zero en local uuid adopted = none
  settle_entry_rows (suc fuel) en local uuid adopted = elim (settle_once en local uuid) [
    | err e ↦ some (err e)
    | ok (en', none) ↦ some (ok (en', local, adopted))
    | ok (en', some local') ↦ settle_entry_rows fuel en' local' uuid true
  ]

  unfoldable pub reconcile_conflict_rows : ℕ → Engine X J → ℕ → Option (Result Er (Engine X J))
  reconcile_conflict_rows fuel en uuid = elim (conflict_owners_for en.conflict_entry uuid) [
    | [] ↦ some (ok en)
    | ◌∷◌ o os ↦ elim (c.project en.mirror >>= λ v. c.acquire_session_key >>= λ _. ok v) [
      | err e ↦ some (err e)
      | ok v ↦ Option.map (λ r. r >>= λ s. ok s.0) (settle_entry_rows fuel en v uuid false)
    ]
  ]

  -- The loop over the parked entries; `adopted` is the vector so far.
  unfoldable pub sweep_entries :
      ℕ → List ℕ → Engine X J → Vault E B R → List ℕ → Option (Result Er (Engine X J × List ℕ))
  sweep_entries fuel [] en local adopted = some (ok (en, adopted))
  sweep_entries fuel (uuid ∷ uuids) en local adopted =
      elim (settle_entry_rows fuel en local uuid false) [
        | none ↦ none
        | some (err e) ↦ some (err e)
        | some (ok (en', local', merged)) ↦
            sweep_entries fuel uuids en' local' (if merged then adopted ++ uuid ∷ [] else adopted)
      ]

  unfoldable pub reconcile_all_conflict_rows :
      ℕ → Engine X J → Option (Result Er (Engine X J × List ℕ))
  reconcile_all_conflict_rows fuel en = elim (parked_conflict_uuids en.conflict_entry) [
    | [] ↦ some (ok (en, []))
    | ◌∷◌ u us ↦ elim (c.project en.mirror >>= λ v. c.acquire_session_key >>= λ _. ok v) [
      | err e ↦ some (err e)
      | ok v ↦ sweep_entries fuel (u ∷ us) en v []
    ]
  ]
