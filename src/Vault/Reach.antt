-- ===== src/Vault/Reach.antt =====
-- Runs of the engine's operations on the groups and entries, one after another
-- (crates/keys-engine/src/mutations.rs).
pub mod Rooted
pub mod Tests
use keys_core.Base.{
  ℕ, zero, suc, String, Bool, true, false, Option, none, some, List, [], ◌∷◌, ◌==◌, ◌≡◌, ◌≢◌, refl,
  sym, ap, ◌∙◌, subst, arith, Bool-cases, Option-cases, inl, inr, if◌then◌else◌,
}
use keys_core.Vault.Tables.{
  Uuid, Millis, IconRef, Group, Db, Result, ok, err, ◌>>=◌, Result-cases, find_group, find_entry,
  update_groups, ok_or, not_found, entry,
}
use keys_core.Vault.Queries.{
  group_exists, parent_of, recycle_bin_uuid, group_in_bin_subtree, root_uuid, gc_orphan_tags,
  delete_entry_row,
}
use keys_core.Vault.Bin.{resolve_bin, ensure_recycle_bin}
use keys_core.Vault.Groups.{
  NewGroupFields, GroupUpdate, create_group, set_name, set_notes, set_icon, set_expiry, touch,
  update_group, move_group, MoveGroupOutcome, recycle_group,
}
use keys_core.Vault.Groups.Ancestors.{IsAncestor, IsTree}
use keys_core.Vault.Groups.Inserts.{create_group-IsTree, ensure_recycle_bin-IsTree, IsTree-same}
use keys_core.Vault.Groups.Moves.{move_group-IsTree, recycle_group-IsTree}
use keys_core.Vault.Groups.Reorder.{reorder_group, renumber_siblings, with_sort_order, touched}
use keys_core.Vault.Purge.{Purge, delete_group}
use keys_core.Vault.Purge.Trees.{delete_group-IsTree}
use keys_core.Vault.Entries.Subtree.{groups-restore_entry}
use keys_core.Vault.Entries.{
  recycle_into, recycle_entry, restore_entry, delete_entry, hard_delete, move_entry,
  MoveEntryOutcome,
}

-- One successful operation. Recycling a group is taken away from the bin's own chain of parents.
pub data Step (db : Db) : Db → Type 0 where
  created :
      (parent : Uuid) (fields : NewGroupFields) (now : Millis) (new : Uuid) (db' : Db) (made : Uuid)
      → create_group db parent fields now new ≡ ok (db', made)
      → Step db db'
  updated :
      (u : Uuid) (upd : GroupUpdate) (now : Millis) (db' : Db)
      → update_group db u upd now ≡ ok db'
      → Step db db'
  moved :
      (fuel : ℕ) (u parent : Uuid) (now : Millis) (db' : Db) (o : MoveGroupOutcome)
      → move_group fuel db u parent now ≡ some (ok (db', o))
      → Step db db'
  reordered :
      (u : Uuid) (new_position : ℕ) (now : Millis) (db' : Db) (order : List Uuid)
      → reorder_group db u new_position now ≡ ok (db', order)
      → Step db db'
  recycled :
      (u bin : Uuid) (now : Millis) (db' : Db)
      → recycle_bin_uuid db.groups ≡ some bin
      → ¬ IsAncestor db.groups u bin
      → recycle_group db u now ≡ ok db'
      → Step db db'
  deleted :
      (fuel : ℕ) (u : Uuid) (now : Millis) (s : Purge)
      → delete_group fuel db u now ≡ some (ok s)
      → Step db s.db
  bin_ensured :
      (now : Millis) (new : Uuid) (db' : Db) (bin : Option Uuid)
      → ensure_recycle_bin db now new ≡ ok (db', bin)
      → Step db db'
  entry_recycled :
      (u : Uuid) (now : Millis) (bin_uuid : Uuid) (db' : Db)
      → recycle_entry db u now bin_uuid ≡ ok db'
      → Step db db'
  entry_restored :
      (u : Uuid) (now : Millis) (db' : Db) → restore_entry db u now ≡ ok db' → Step db db'
  entry_moved :
      (u dest : Uuid) (now : Millis) (db' : Db) (o : MoveEntryOutcome)
      → move_entry db u dest now ≡ ok (db', o)
      → Step db db'
  entry_deleted :
      (u : Uuid) (now : Millis) (db' : Db) (from : Uuid)
      → delete_entry db u now ≡ ok (db', from)
      → Step db db'

-- Any number of operations.
pub data Reach (start : Db) : Db → Type 0 where
  nothing : Reach start start
  then : (db db' : Db) → Reach start db → Step db db' → Reach start db'

module _ (f : Group → Group) (keeps : (g : Group) → (f g).uuid ≡ g.uuid)
    (holds : (g : Group) → (f g).parent_uuid ≡ g.parent_uuid) where
  pub parent_of-update_same :
      (gs : List Group) (u v : Uuid) → parent_of (update_groups u f gs) v ≡ parent_of gs v
  unfolding parent_of find_group update_groups
  parent_of-update_same [] u v = refl
  parent_of-update_same (g ∷ gs) u v =
      ground (arith, parent_of-update_same gs u v, keeps g, holds g)

  pub group_exists-update_same :
      (gs : List Group) (u v : Uuid) → group_exists (update_groups u f gs) v ≡ group_exists gs v
  unfolding group_exists find_group update_groups
  group_exists-update_same [] u v = refl
  group_exists-update_same (g ∷ gs) u v = ground (arith, group_exists-update_same gs u v, keeps g)

  IsTree-update_same : (gs : List Group) (u : Uuid) → IsTree gs → IsTree (update_groups u f gs)
  IsTree-update_same gs u t =
      IsTree-same gs (update_groups u f gs) (parent_of-update_same gs u)
        (group_exists-update_same gs u) t

IsTree-renumber_siblings :
    (idx : ℕ) (us : List Uuid) (gs : List Group) → IsTree gs → IsTree (renumber_siblings idx us gs)
unfolding renumber_siblings
IsTree-renumber_siblings idx [] gs t = t
IsTree-renumber_siblings idx (u ∷ us) gs t =
    IsTree-renumber_siblings (suc idx) us (update_groups u (with_sort_order idx) gs)
      (IsTree-update_same (with_sort_order idx) (λ g. refl) (λ g. refl) gs u t)

-- The fields that an update sets are not the links of the tree.
pub set_name-keeps :
    (o : Option String) (g : Group)
    → ((set_name o g).uuid ≡ g.uuid) × ((set_name o g).parent_uuid ≡ g.parent_uuid)
set_name-keeps none g = (refl, refl)
set_name-keeps (some a) g = (refl, refl)

pub set_notes-keeps :
    (o : Option String) (g : Group)
    → ((set_notes o g).uuid ≡ g.uuid) × ((set_notes o g).parent_uuid ≡ g.parent_uuid)
set_notes-keeps none g = (refl, refl)
set_notes-keeps (some a) g = (refl, refl)

pub set_icon-keeps :
    (o : Option IconRef) (g : Group)
    → ((set_icon o g).uuid ≡ g.uuid) × ((set_icon o g).parent_uuid ≡ g.parent_uuid)
set_icon-keeps none g = (refl, refl)
set_icon-keeps (some a) g = (refl, refl)

pub set_expiry-keeps :
    (o : Option (Option Millis)) (g : Group)
    → ((set_expiry o g).uuid ≡ g.uuid) × ((set_expiry o g).parent_uuid ≡ g.parent_uuid)
set_expiry-keeps none g = (refl, refl)
set_expiry-keeps (some a) g = (refl, refl)

update_group-IsTree :
    (db : Db) (u : Uuid) (upd : GroupUpdate) (now : Millis) (db' : Db)
    → IsTree db.groups
    → update_group db u upd now ≡ ok db'
    → IsTree db'.groups
unfolding update_group
update_group-IsTree db u upd now db' t h =
    let named = update_groups u (set_name upd.name) db.groups in
    let noted = update_groups u (set_notes upd.notes) named in
    let pictured = update_groups u (set_icon upd.icon) noted in
    let dated = update_groups u (set_expiry upd.expires_at) pictured in
    let same : db'.groups ≡ update_groups u (touch now) dated = ground arith in
    rw same (
      IsTree-update_same (touch now) (λ g. refl) (λ g. refl) dated u
        (IsTree-update_same (set_expiry upd.expires_at) (λ g. (set_expiry-keeps upd.expires_at g).0)
          (λ g. (set_expiry-keeps upd.expires_at g).1) pictured u
          (IsTree-update_same (set_icon upd.icon) (λ g. (set_icon-keeps upd.icon g).0)
            (λ g. (set_icon-keeps upd.icon g).1) noted u
            (IsTree-update_same (set_notes upd.notes) (λ g. (set_notes-keeps upd.notes g).0)
              (λ g. (set_notes-keeps upd.notes g).1) named u
              (IsTree-update_same (set_name upd.name) (λ g. (set_name-keeps upd.name g).0)
                (λ g. (set_name-keeps upd.name g).1) db.groups u t)))))

reorder_group-IsTree :
    (db : Db) (u : Uuid) (new_position : ℕ) (now : Millis) (db' : Db) (order : List Uuid)
    → IsTree db.groups
    → reorder_group db u new_position now ≡ ok (db', order)
    → IsTree db'.groups
unfolding reorder_group
reorder_group-IsTree db u new_position now db' order t h =
    let same : db'.groups ≡ update_groups u (touched now) (renumber_siblings 0 order db.groups) =
      ground arith in
    rw same (
      IsTree-update_same (touched now) (λ g. refl) (λ g. refl) (renumber_siblings 0 order db.groups)
        u (IsTree-renumber_siblings 0 order db.groups t))

pub groups-recycle_into :
    (u : Uuid) (now : Millis) (r : Db × Option Uuid) → (recycle_into u now r).groups ≡ r.0.groups
unfolding hard_delete gc_orphan_tags delete_entry_row
groups-recycle_into u now (db, none) = refl
groups-recycle_into u now (db, some bin) = refl

recycle_entry-IsTree :
    (db : Db) (u : Uuid) (now : Millis) (bin_uuid : Uuid) (db' : Db)
    → IsTree db.groups
    → recycle_entry db u now bin_uuid ≡ ok db'
    → IsTree db'.groups
unfolding recycle_entry ensure_recycle_bin
recycle_entry-IsTree db u now bin_uuid db' t h = elim (Option-cases (find_entry db.entries u)) [
  | inl missing ↦ absurd (ground arith)
  | inr (e, found) ↦ elim (Bool-cases (group_in_bin_subtree db.groups e.group_uuid)) [
    | inl inside ↦ let same : db'.groups ≡ db.groups = ground arith in rw same t
    | inr outside ↦ elim (Result-cases (resolve_bin db now bin_uuid)) [
      | inl (failure, failed) ↦ absurd (ground arith)
      | inr (r, ready) ↦
          let same : db' ≡ recycle_into u now r = ground arith in
          rw (same, groups-recycle_into u now r)
            (ensure_recycle_bin-IsTree db now bin_uuid r.0 r.1 t ready)
    ]
  ]
]

pub groups-move_entry :
    (db : Db) (u dest : Uuid) (now : Millis) (db' : Db) (o : MoveEntryOutcome)
    → move_entry db u dest now ≡ ok (db', o)
    → db'.groups ≡ db.groups
unfolding move_entry
groups-move_entry db u dest now db' o h = ground arith

pub groups-delete_entry :
    (db : Db) (u : Uuid) (now : Millis) (db' : Db) (from : Uuid)
    → delete_entry db u now ≡ ok (db', from)
    → db'.groups ≡ db.groups
unfolding delete_entry hard_delete gc_orphan_tags delete_entry_row
groups-delete_entry db u now db' from h = ground arith

pub Step-IsTree : (db db' : Db) → IsTree db.groups → Step db db' → IsTree db'.groups
Step-IsTree db db' t (Step.created parent fields now new _ made h) =
    create_group-IsTree db parent fields now new db' made t h
Step-IsTree db db' t (Step.updated u upd now _ h) = update_group-IsTree db u upd now db' t h
Step-IsTree db db' t (Step.moved fuel u parent now _ o h) =
    move_group-IsTree fuel db u parent now db' o t h
Step-IsTree db db' t (Step.reordered u pos now _ order h) =
    reorder_group-IsTree db u pos now db' order t h
Step-IsTree db db' t (Step.recycled u bin now _ is_bin off h) =
    recycle_group-IsTree db u bin now db' is_bin off t h
Step-IsTree db _ t (Step.deleted fuel u now s h) = delete_group-IsTree fuel db u now s t h
Step-IsTree db db' t (Step.bin_ensured now new _ bin h) =
    ensure_recycle_bin-IsTree db now new db' bin t h
Step-IsTree db db' t (Step.entry_recycled u now bin_uuid _ h) =
    recycle_entry-IsTree db u now bin_uuid db' t h
Step-IsTree db db' t (Step.entry_restored u now _ h) = rw (groups-restore_entry db u now db' h) t
Step-IsTree db db' t (Step.entry_moved u dest now _ o h) =
    rw (groups-move_entry db u dest now db' o h) t
Step-IsTree db db' t (Step.entry_deleted u now _ from h) =
    rw (groups-delete_entry db u now db' from h) t
