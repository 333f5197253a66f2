-- ===== src/Vault/Purge/Accounting.antt =====
-- Rows, tombstones and reported deletions of `delete_group` and `empty_recycle_bin`
-- (crates/keys-engine/src/mutations.rs).
use keys_core.Base.{
  ℕ, true, not, Option, some, List, [], ◌∷◌, ◌==◌, ◌≡◌, arith, ◌⊎◌, Option-cases, inl, inr, Any,
  keep_if,
}
use keys_core.Vault.Tables.{Uuid, Millis, Group, Entry, Db, find_group, find_entry, ok}
use keys_core.Vault.Queries.{
  group_exists, entry_exists, child_groups, recycle_bin_uuid, gc_orphan_tags,
}
use keys_core.Vault.Tombstones.{tombstone_of, tombstone_of-record_self, tombstone_of-record_keeps}
use keys_core.Vault.Purge.Induction.{
  delete_group-eq-ok, empty_recycle_bin-eq-some, delete_group_recursive_keeps, children_keep,
  list_entries-rows,
}
use keys_core.Vault.Purge.{
  Purge, start, sweep, child_entries, list_entries, delete_direct_child_entries, delete_self,
  delete_group, empty_recycle_bin,
}

-- Each group and each entry of `old` is still stored, or has a tombstone of time `now`.
pub record IsAccounted (old : Db) (now : Millis) (db : Db) : Type 0 where
  pub groups :
      (v : Uuid)
      → group_exists old.groups v ≡ true
      → (group_exists db.groups v ≡ true) ⊎ (tombstone_of v db.deleted_objects ≡ some (some now))
  pub entries :
      (v : Uuid)
      → entry_exists old.entries v ≡ true
      → (entry_exists db.entries v ≡ true) ⊎ (tombstone_of v db.deleted_objects ≡ some (some now))

list_entries_keeps :
    (es : List Uuid) (parent : Uuid) (now : Millis) (s : Purge) (v : Uuid)
    → tombstone_of v s.db.deleted_objects ≡ some (some now)
    → tombstone_of v (list_entries es parent now s).db.deleted_objects ≡ some (some now)
unfolding list_entries
list_entries_keeps [] parent now s v h = h
list_entries_keeps (e ∷ es) parent now s v h =
    list_entries_keeps es parent now _ v (tombstone_of-record_keeps e v now _ h)

list_entries_records :
    (es : List Uuid) (parent : Uuid) (now : Millis) (s : Purge) (v : Uuid)
    → Any (λ c. c ≡ v) es
    → tombstone_of v (list_entries es parent now s).db.deleted_objects ≡ some (some now)
unfolding list_entries
list_entries_records [] parent now s v h = absurd h
list_entries_records (e ∷ es) parent now s v (inl is) =
    list_entries_keeps es parent now _ v (rw (← is) (tombstone_of-record_self e now _))
list_entries_records (e ∷ es) parent now s v (inr later) =
    list_entries_records es parent now _ v later

-- An entry that the statement on a group removes is among the group's child entries.
kept_or_listed :
    (es : List Entry) (u v : Uuid)
    → entry_exists es v ≡ true
    → (entry_exists (keep_if (λ e. not (e.group_uuid == u)) es) v ≡ true)
      ⊎ Any (λ c. c ≡ v) (child_entries es u)
unfolding entry_exists find_entry child_entries
kept_or_listed [] u v h = cc
kept_or_listed (e ∷ es) u v h = ground (arith, kept_or_listed es u v)

group_kept :
    (gs : List Group) (u v : Uuid)
    → group_exists gs v ≡ true
    → (group_exists (keep_if (λ g. not (g.uuid == u)) gs) v ≡ true) ⊎ (v ≡ u)
unfolding group_exists find_group
group_kept [] u v h = cc
group_kept (g ∷ gs) u v h = ground (arith, group_kept gs u v)

module _ (old : Db) (now : Millis) where
  IsAccounted-entries :
      (u parent : Uuid) (s : Purge)
      → IsAccounted old now s.db
      → IsAccounted old now (delete_direct_child_entries u parent now s).db
  unfolding delete_direct_child_entries
  IsAccounted-entries u parent s a = record {
    groups = λ v h. elim (a.groups v h) [
      | inl there ↦
          inl (rw ((list_entries-rows (child_entries s.db.entries u) parent now s).0) there)
      | inr dead ↦ inr (list_entries_keeps (child_entries s.db.entries u) parent now s v dead)
    ];
    entries = λ v h. elim (a.entries v h) [
      | inr dead ↦ inr (list_entries_keeps (child_entries s.db.entries u) parent now s v dead)
      | inl there ↦ elim (kept_or_listed s.db.entries u v there) [
        | inl kept ↦
            inl (rw ((list_entries-rows (child_entries s.db.entries u) parent now s).1) kept)
        | inr listed ↦
            inr (list_entries_records (child_entries s.db.entries u) parent now s v listed)
      ]
    ];
  }

  IsAccounted-delete_self :
      (u : Uuid) (parent : Option Uuid) (s : Purge)
      → IsAccounted old now s.db
      → IsAccounted old now (delete_self u parent now s).db
  unfolding delete_self
  IsAccounted-delete_self u parent s a =
      let a' = IsAccounted-entries u u s a in
      let ds = (delete_direct_child_entries u u now s).db.deleted_objects in
      record {
        groups = λ v h. elim (a'.groups v h) [
          | inr dead ↦ inr (tombstone_of-record_keeps u v now ds dead)
          | inl there ↦ elim (group_kept _ u v there) [
            | inl kept ↦ inl kept
            | inr is ↦ inr (rw is (tombstone_of-record_self u now ds))
          ]
        ];
        entries = λ v h. elim (a'.entries v h) [
          | inl there ↦ inl there
          | inr dead ↦ inr (tombstone_of-record_keeps u v now ds dead)
        ];
      }

IsAccounted-start : (db : Db) (now : Millis) → IsAccounted db now db
IsAccounted-start db now = record { groups = λ v h. inl h; entries = λ v h. inl h }

IsAccounted-sweep :
    (old : Db) (now : Millis) (s : Purge)
    → IsAccounted old now s.db
    → IsAccounted old now (sweep s).db
unfolding gc_orphan_tags
IsAccounted-sweep old now s a = record { groups = a.groups; entries = a.entries }

-- After `delete_group`, every group and entry that was stored is either still stored or has a
-- tombstone of the deletion's time.
pub delete_group-IsAccounted :
    (fuel : ℕ) (db : Db) (u : Uuid) (now : Millis) (s : Purge)
    → delete_group fuel db u now ≡ some (ok s)
    → IsAccounted db now s.db
delete_group-IsAccounted fuel db u now s h =
    let (g, last, found, run, same) = delete_group-eq-ok fuel db u now s h in
    rw (← same) (
      IsAccounted-sweep db now last (
        delete_group_recursive_keeps now (λ x. IsAccounted db now x.db)
          (IsAccounted-delete_self db now) fuel g.parent_uuid u (start db) last run
          (IsAccounted-start db now)))

-- Emptying the bin too leaves every group and entry stored or tombstoned.
pub empty_recycle_bin-IsAccounted :
    (fuel : ℕ) (db : Db) (now : Millis) (s : Purge)
    → empty_recycle_bin fuel db now ≡ some s
    → IsAccounted db now s.db
empty_recycle_bin-IsAccounted fuel db now s h = elim (Option-cases (recycle_bin_uuid db.groups)) [
  | inl binless ↦
      let same : start db ≡ s = unfold empty_recycle_bin in ground arith in
      rw (← same) (IsAccounted-start db now)
  | inr (bin, is_bin) ↦
      let (last, run, same) = empty_recycle_bin-eq-some fuel db now bin s is_bin h in
      rw (← same) (
        IsAccounted-sweep db now (delete_direct_child_entries bin bin now last) (
          IsAccounted-entries db now bin bin last (
            children_keep now (λ x. IsAccounted db now x.db) (IsAccounted-delete_self db now) fuel
              (some bin) (child_groups db.groups bin) (start db) last run
              (IsAccounted-start db now))))
]
