-- ===== src/Vault/Entries/Recycling.antt =====
-- The flag `is_recycled` and `recycle_entry`, also where it creates the recycle bin
-- (crates/keys-engine/src/mutations.rs).
use keys_core.Base.{
  ℕ, zero, suc, true, false, Option, none, some, List, [], ◌∷◌, ◌++◌, ◌≡◌, refl, sym, ◌∙◌, arith,
  Bool-cases, Option-cases, inl, inr, ==_ne, All-keep_if, All-map₂,
}
use keys_core.Vault.Tables.{Uuid, Millis, Group, Entry, Db, find_entry, ok, Result-cases}
use keys_core.Vault.Queries.{
  group_exists, parent_of, recycle_bin_uuid, root_uuid, next_sort_order, walk_to_bin, max_walk,
  group_in_bin_subtree,
}
use keys_core.Vault.Bin.{
  resolve_bin, create_recycle_bin_group, write_recycle_bin_group, read_recycle_bin_enabled, bin_row,
}
use keys_core.Vault.Rows.{root_uuid-exists}
use keys_core.Vault.Groups.Ancestors.{IsTree}
use keys_core.Vault.Groups.Inserts.{
  parent_of-insert_ne, ne_of_exists, parent_of-write_recycle_bin_group,
}
use keys_core.Vault.Bin.Designation.{recycle_bin_uuid-create}
use keys_core.Vault.Entries.Flags.{
  FlagsMatch, EntriesPlaced, FlagsMatch-relocate, group_in_bin_subtree_self,
}
use keys_core.Vault.Entries.{hard_delete, recycle_into, recycle_entry}

walk_to_bin-none : (gs : List Group) (bin : Uuid) (n : ℕ) → walk_to_bin gs bin n none ≡ false
unfolding walk_to_bin
walk_to_bin-none gs bin zero = refl
walk_to_bin-none gs bin (suc n) = refl

-- A walk from a stored group never meets a row that is added.
module _ (gs : List Group) (g : Group) (p : Uuid) (child : g.parent_uuid ≡ some p)
    (fresh : group_exists gs g.uuid ≡ false) (there : group_exists gs p ≡ true)
    (t : IsTree gs) where
  abbrev flagged : List Group
  flagged = write_recycle_bin_group g.uuid (gs ++ g ∷ [])

  walk_to_bin-insert :
      (n : ℕ) (v : Uuid) → group_exists gs v ≡ true → walk_to_bin flagged g.uuid n (some v) ≡ false
  unfolding walk_to_bin
  walk_to_bin-insert zero v h = refl
  walk_to_bin-insert (suc n) v h =
      let off = ne_of_exists g gs p child fresh there t v h in
      let same : parent_of flagged v ≡ parent_of gs v =
        parent_of-write_recycle_bin_group g.uuid _ v
        ∙ parent_of-insert_ne g gs p child fresh there t v off in
      rw (same, ==_ne v g.uuid off)
        (elim (Option-cases (parent_of gs v)) [
          | inl root ↦ rw root (walk_to_bin-none flagged g.uuid n)
          | inr (q, e) ↦ rw e (walk_to_bin-insert n q (t.parents v q e))
        ])

outside_binless :
    (gs : List Group) (v : Uuid) → recycle_bin_uuid gs ≡ none → group_in_bin_subtree gs v ≡ false
unfolding group_in_bin_subtree
outside_binless gs v h = rw (h, group_in_bin_subtree)

create-entries :
    (db : Db) (now : Millis) (new : Uuid) (db' : Db) (bin : Uuid)
    → create_recycle_bin_group db now new ≡ ok (db', bin)
    → db.entries ≡ db'.entries
unfolding create_recycle_bin_group
create-entries db now new db' bin h = ground arith

create_recycle_bin_group-FlagsMatch :
    (db : Db) (now : Millis) (new : Uuid) (db' : Db) (bin : Uuid)
    → IsTree db.groups
    → recycle_bin_uuid db.groups ≡ none
    → create_recycle_bin_group db now new ≡ ok (db', bin)
    → (es : List Entry) → EntriesPlaced db.groups es
    → FlagsMatch db.groups es
    → FlagsMatch db'.groups es
unfolding create_recycle_bin_group
create_recycle_bin_group-FlagsMatch db now new db' bin t binless h es placed fm =
    elim (Option-cases (root_uuid db.groups)) [
      | inl rootless ↦ absurd (ground arith)
      | inr (root, is_root) ↦
          let row = bin_row new root (next_sort_order db.groups root) now in
          let fresh : group_exists db.groups new ≡ false = ground arith in
          let added : db'.groups ≡ write_recycle_bin_group new (db.groups ++ row ∷ []) =
            ground arith in
          let is_bin : some new ≡ some bin = ground arith in
          let found : recycle_bin_uuid (write_recycle_bin_group new (db.groups ++ row ∷ []))
              ≡ some new =
            rw (is_bin, ← added) (recycle_bin_uuid-create db now new db' bin h) in
          let there = root_uuid-exists db.groups root is_root in
          rw added (
            All-map₂ _ _ _
              (λ e at m.
                m
                ∙ outside_binless db.groups e.group_uuid binless
                ∙ sym (outside row root refl fresh there found e.group_uuid at))
              es placed fm)
    ]
  where
    outside :
        (row : Group) (root : Uuid) (child : row.parent_uuid ≡ some root)
        → group_exists db.groups row.uuid ≡ false
        → group_exists db.groups root ≡ true
        → recycle_bin_uuid (write_recycle_bin_group row.uuid (db.groups ++ row ∷ []))
          ≡ some row.uuid
        → (v : Uuid) → group_exists db.groups v ≡ true
        → group_in_bin_subtree (write_recycle_bin_group row.uuid (db.groups ++ row ∷ [])) v ≡ false
    outside row root child fresh there found v at =
        unfold group_in_bin_subtree in
        rw (found, group_in_bin_subtree)
          (walk_to_bin-insert db.groups row root child fresh there t max_walk v at)

-- What `resolve_bin` leaves: the flags are right, the entries are untouched, and the returned bin
-- is the designated one.
resolve_bin-FlagsMatch :
    (db : Db) (now : Millis) (new : Uuid) (db' : Db) (bin : Option Uuid)
    → IsTree db.groups
    → EntriesPlaced db.groups db.entries
    → FlagsMatch db.groups db.entries
    → resolve_bin db now new ≡ ok (db', bin)
    → FlagsMatch db'.groups db'.entries × (recycle_bin_uuid db'.groups ≡ bin)
unfolding resolve_bin
resolve_bin-FlagsMatch db now new db' bin t placed fm h =
    elim (Option-cases (recycle_bin_uuid db.groups)) [
      | inr (b, found) ↦
          let same : db ≡ db' = ground arith in (rw (← same) fm, rw (← same) (ground arith))
      | inl missing ↦ elim (Bool-cases (read_recycle_bin_enabled db)) [
        | inr disabled ↦
            let same : db ≡ db' = ground arith in (rw (← same) fm, rw (← same) (ground arith))
        | inl enabled ↦ elim (Result-cases (create_recycle_bin_group db now new)) [
          | inl (e, failed) ↦ absurd (ground arith)
          | inr ((made, b), is) ↦
              let same : made ≡ db' = ground arith in
              let is_bin : some b ≡ bin = ground arith in
              let rows : db.entries ≡ made.entries = create-entries db now new made b is in
              rw (← same, ← is_bin)
                (
                  rw (← rows) (
                      create_recycle_bin_group-FlagsMatch db now new made b t missing is db.entries
                        placed fm),
                  recycle_bin_uuid-create db now new made b is,
                )
        ]
      ]
    ]

recycle_into-FlagsMatch :
    (db : Db) (bin : Option Uuid) (u : Uuid) (now : Millis)
    → FlagsMatch db.groups db.entries
    → recycle_bin_uuid db.groups ≡ bin
    → FlagsMatch (recycle_into u now (db, bin)).groups (recycle_into u now (db, bin)).entries
unfolding hard_delete
recycle_into-FlagsMatch db none u now fm h = All-keep_if _ _ db.entries fm
recycle_into-FlagsMatch db (some bin) u now fm h =
    FlagsMatch-relocate db.groups bin true now u db.entries
      (sym (group_in_bin_subtree_self db.groups bin h)) fm

-- Recycling an entry keeps the flags right, on every branch: a bin that is there, one that is
-- created, none, and an entry that is in the bin already.
pub recycle_entry-FlagsMatch :
    (db : Db) (u : Uuid) (now : Millis) (new : Uuid) (db' : Db)
    → IsTree db.groups
    → EntriesPlaced db.groups db.entries
    → FlagsMatch db.groups db.entries
    → recycle_entry db u now new ≡ ok db'
    → FlagsMatch db'.groups db'.entries
unfolding recycle_entry
recycle_entry-FlagsMatch db u now new db' t placed fm h =
    elim (Option-cases (find_entry db.entries u)) [
      | inl missing ↦ absurd (ground arith)
      | inr (e, found) ↦ elim (Bool-cases (group_in_bin_subtree db.groups e.group_uuid)) [
        | inl binned ↦ let same : db ≡ db' = ground arith in rw (← same) fm
        | inr live ↦ elim (Result-cases (resolve_bin db now new)) [
          | inl (er, failed) ↦ absurd (ground arith)
          | inr ((made, bin), is) ↦
              let (fm', is_bin) = resolve_bin-FlagsMatch db now new made bin t placed fm is in
              let done : recycle_into u now (made, bin) ≡ db' = ground arith in
              rw (← done) (recycle_into-FlagsMatch made bin u now fm' is_bin)
        ]
      ]
    ]
