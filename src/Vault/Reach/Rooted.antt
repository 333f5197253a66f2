-- ===== src/Vault/Reach/Rooted.antt =====
-- One successful operation leaves no group but the root without a parent
-- (crates/keys-engine/src/mutations.rs).
use keys_core.Base.{
  ℕ, suc, sym, ◌∙◌, ◌++◌, false, not, Option, some, List, [], ◌∷◌, ◌==◌, ◌&&◌, ◌≡◌, refl, arith,
  Bool-cases, Option-cases, inl, inr, map,
}
use keys_core.Vault.Tables.{Uuid, Millis, Group, Db, ok, Result-cases, find_entry, update_groups}
use keys_core.Vault.Queries.{
  parent_of, recycle_bin_uuid, root_uuid, group_in_bin_subtree, next_sort_order, gc_orphan_tags,
}
use keys_core.Vault.Bin.{
  resolve_bin, ensure_recycle_bin, create_recycle_bin_group, write_recycle_bin_group, bin_row,
  clear_unless, set_flag, read_recycle_bin_enabled,
}
use keys_core.Vault.Groups.{
  NewGroupFields, GroupUpdate, new_row, create_group, set_name, set_notes, set_icon, set_expiry,
  touch, update_group, move_group, move_row, MoveGroupOutcome, recycle_group, recycle_row, climb,
}
use keys_core.Vault.Groups.Roots.{
  IsRooted, IsRooted-update, IsRooted-place, IsRooted-map, IsRooted-insert, IsRooted-remove,
}
use keys_core.Vault.Groups.Reorder.{reorder_group, renumber_siblings, with_sort_order, touched}
use keys_core.Vault.Purge.{Purge, start, delete_group}
use keys_core.Vault.Purge.Induction.{groups-delete_self, delete_group-eq-ok}
use keys_core.Vault.Purge.Removal.{childless_keeps}
use keys_core.Vault.Groups.Ancestors.{IsTree}
use keys_core.Vault.Entries.Subtree.{groups-restore_entry}
use keys_core.Vault.Reach.{
  Step, Reach, Step-IsTree, set_name-keeps, set_notes-keeps, set_icon-keeps, set_expiry-keeps,
  groups-recycle_into, groups-move_entry, groups-delete_entry,
}
use keys_core.Vault.Entries.{recycle_into, recycle_entry}

module _ (root : Uuid) where
  keeps :
      (f : Group → Group)
      → ((g : Group) → ((f g).uuid ≡ g.uuid) × ((f g).parent_uuid ≡ g.parent_uuid))
      → (u : Uuid) (gs : List Group) → IsRooted root gs
      → IsRooted root (update_groups u f gs)
  keeps f same = IsRooted-update root f (λ g. (same g).0) (λ g e. sym (same g).1 ∙ e)

  create_group-IsRooted :
      (db : Db) (parent : Uuid) (fields : NewGroupFields) (now : Millis) (new : Uuid) (db' : Db)
      (made : Uuid)
      → IsRooted root db.groups
      → create_group db parent fields now new ≡ ok (db', made)
      → IsRooted root db'.groups
  unfolding create_group
  create_group-IsRooted db parent fields now new db' made r h =
      let row = new_row db parent fields now new in
      let grown : db'.groups ≡ db.groups ++ row ∷ [] = ground arith in
      rw grown (IsRooted-insert root parent row db.groups refl r)

  update_group-IsRooted :
      (db : Db) (u : Uuid) (upd : GroupUpdate) (now : Millis) (db' : Db)
      → IsRooted root db.groups
      → update_group db u upd now ≡ ok db'
      → IsRooted root db'.groups
  unfolding update_group
  update_group-IsRooted db u upd now db' r h =
      let named = update_groups u (set_name upd.name) db.groups in
      let noted = update_groups u (set_notes upd.notes) named in
      let pictured = update_groups u (set_icon upd.icon) noted in
      let dated = update_groups u (set_expiry upd.expires_at) pictured in
      let same : db'.groups ≡ update_groups u (touch now) dated = ground arith in
      rw same (
        keeps (touch now) (λ g. (refl, refl)) u dated
          (keeps (set_expiry upd.expires_at) (set_expiry-keeps upd.expires_at) u pictured (
            keeps (set_icon upd.icon) (set_icon-keeps upd.icon) u noted (
              keeps (set_notes upd.notes) (set_notes-keeps upd.notes) u named
                (keeps (set_name upd.name) (set_name-keeps upd.name) u db.groups r)))))

  move_group-IsRooted :
      (fuel : ℕ) (db : Db) (u parent : Uuid) (now : Millis) (db' : Db) (o : MoveGroupOutcome)
      → IsRooted root db.groups
      → move_group fuel db u parent now ≡ some (ok (db', o))
      → IsRooted root db'.groups
  unfolding move_group parent_of
  move_group-IsRooted fuel db u parent now db' o r h =
      let f = move_row parent (next_sort_order db.groups parent) now in
      let walked : climb db.groups u fuel (some parent) ≡ some false = ground arith in
      let moved : db'.groups ≡ update_groups u f db.groups = ground arith in
      rw moved (IsRooted-place root parent f (λ g. refl) (λ g. refl) u db.groups r)

  renumber_siblings-IsRooted :
      (idx : ℕ) (us : List Uuid) (gs : List Group)
      → IsRooted root gs
      → IsRooted root (renumber_siblings idx us gs)
  unfolding renumber_siblings
  renumber_siblings-IsRooted idx [] gs r = r
  renumber_siblings-IsRooted idx (u ∷ us) gs r =
      renumber_siblings-IsRooted (suc idx) us (update_groups u (with_sort_order idx) gs)
        (keeps (with_sort_order idx) (λ g. (refl, refl)) u gs r)

  reorder_group-IsRooted :
      (db : Db) (u : Uuid) (new_position : ℕ) (now : Millis) (db' : Db) (order : List Uuid)
      → IsRooted root db.groups
      → reorder_group db u new_position now ≡ ok (db', order)
      → IsRooted root db'.groups
  unfolding reorder_group
  reorder_group-IsRooted db u new_position now db' order r h =
      let placed = renumber_siblings 0 order db.groups in
      let same : db'.groups ≡ update_groups u (touched now) placed = ground arith in
      rw same (
        keeps (touched now) (λ g. (refl, refl)) u placed
          (renumber_siblings-IsRooted 0 order db.groups r))

  recycle_group-IsRooted :
      (db : Db) (u bin : Uuid) (now : Millis) (db' : Db)
      → recycle_bin_uuid db.groups ≡ some bin
      → IsRooted root db.groups
      → recycle_group db u now ≡ ok db'
      → IsRooted root db'.groups
  unfolding recycle_group
  recycle_group-IsRooted db u bin now db' is_bin r h =
      let f = recycle_row bin now in
      let moved : db'.groups ≡ update_groups u f db.groups = ground arith in
      rw moved (IsRooted-place root bin f (λ g. refl) (λ g. refl) u db.groups r)

  delete_group-IsRooted :
      (fuel : ℕ) (db : Db) (u : Uuid) (now : Millis) (s : Purge)
      → IsRooted root db.groups
      → delete_group fuel db u now ≡ some (ok s)
      → IsRooted root s.db.groups
  delete_group-IsRooted fuel db u now s r h =
      let (g, last, found, run, same) = delete_group-eq-ok fuel db u now s h in
      rw (← same) (
        unfold gc_orphan_tags in
        childless_keeps now (λ x. IsRooted root x.db.groups)
          (λ v p x childless k.
            rw (groups-delete_self v p now x) (IsRooted-remove root _ x.db.groups k))
          fuel g.parent_uuid u (start db) last run r)

  cleared :
      (u : Uuid) (g : Group)
      → ((clear_unless u g).uuid ≡ g.uuid) × ((clear_unless u g).parent_uuid ≡ g.parent_uuid)
  cleared u g = elim (Bool-cases (g.is_recycle_bin && not (g.uuid == u))) [
    | inl flagged ↦ rw flagged (refl, refl)
    | inr plain ↦ rw plain (refl, refl)
  ]

  create_recycle_bin_group-IsRooted :
      (db : Db) (now : Millis) (new : Uuid) (db' : Db) (bin : Uuid)
      → IsRooted root db.groups
      → create_recycle_bin_group db now new ≡ ok (db', bin)
      → IsRooted root db'.groups
  unfolding create_recycle_bin_group write_recycle_bin_group
  create_recycle_bin_group-IsRooted db now new db' bin r h =
      elim (Option-cases (root_uuid db.groups)) [
        | inl missing ↦ absurd (ground arith)
        | inr (top, found) ↦
            let row = bin_row new top (next_sort_order db.groups top) now in
            let grown = db.groups ++ row ∷ [] in
            let same : db'.groups ≡ update_groups new set_flag (map (clear_unless new) grown) =
              ground arith in
            rw same (
              keeps set_flag (λ g. (refl, refl)) new (map (clear_unless new) grown)
                (IsRooted-map root (clear_unless new) (cleared new) grown
                  (IsRooted-insert root top row db.groups refl r)))
      ]

  ensure_recycle_bin-IsRooted :
      (db : Db) (now : Millis) (new : Uuid) (db' : Db) (bin : Option Uuid)
      → IsRooted root db.groups
      → ensure_recycle_bin db now new ≡ ok (db', bin)
      → IsRooted root db'.groups
  unfolding ensure_recycle_bin
  ensure_recycle_bin-IsRooted db now new db' bin r h =
      elim (Option-cases (recycle_bin_uuid db.groups)) [
        | inr (b, found) ↦ let same : db ≡ db' = ground arith in rw (← same) r
        | inl missing ↦ elim (Result-cases (create_recycle_bin_group db now new)) [
          | inl (e, failed) ↦ let same : db ≡ db' = ground arith in rw (← same) r
          | inr ((made, b), is) ↦ elim (Bool-cases (read_recycle_bin_enabled db)) [
            | inl enabled ↦
                let same : made ≡ db' = ground arith in
                create_recycle_bin_group-IsRooted db now new db' b r (rw (← same) is)
            | inr disabled ↦ let same : db ≡ db' = ground arith in rw (← same) r
          ]
        ]
      ]

  recycle_entry-IsRooted :
      (db : Db) (u : Uuid) (now : Millis) (bin_uuid : Uuid) (db' : Db)
      → IsRooted root db.groups
      → recycle_entry db u now bin_uuid ≡ ok db'
      → IsRooted root db'.groups
  unfolding recycle_entry ensure_recycle_bin
  recycle_entry-IsRooted db u now bin_uuid db' r h = elim (Option-cases (find_entry db.entries u)) [
    | inl missing ↦ absurd (ground arith)
    | inr (e, found) ↦ elim (Bool-cases (group_in_bin_subtree db.groups e.group_uuid)) [
      | inl inside ↦ let same : db'.groups ≡ db.groups = ground arith in rw same r
      | inr outside ↦ elim (Result-cases (resolve_bin db now bin_uuid)) [
        | inl (failure, failed) ↦ absurd (ground arith)
        | inr (x, ready) ↦
            let same : db' ≡ recycle_into u now x = ground arith in
            rw (same, groups-recycle_into u now x)
              (ensure_recycle_bin-IsRooted db now bin_uuid x.0 x.1 r ready)
      ]
    ]
  ]

  Step-IsRooted : (db db' : Db) → IsRooted root db.groups → Step db db' → IsRooted root db'.groups
  Step-IsRooted db db' r (Step.created parent fields now new _ made h) =
      create_group-IsRooted db parent fields now new db' made r h
  Step-IsRooted db db' r (Step.updated u upd now _ h) = update_group-IsRooted db u upd now db' r h
  Step-IsRooted db db' r (Step.moved fuel u parent now _ o h) =
      move_group-IsRooted fuel db u parent now db' o r h
  Step-IsRooted db db' r (Step.reordered u pos now _ order h) =
      reorder_group-IsRooted db u pos now db' order r h
  Step-IsRooted db db' r (Step.recycled u bin now _ is_bin off h) =
      recycle_group-IsRooted db u bin now db' is_bin r h
  Step-IsRooted db _ r (Step.deleted fuel u now s h) = delete_group-IsRooted fuel db u now s r h
  Step-IsRooted db db' r (Step.bin_ensured now new _ bin h) =
      ensure_recycle_bin-IsRooted db now new db' bin r h
  Step-IsRooted db db' r (Step.entry_recycled u now bin_uuid _ h) =
      recycle_entry-IsRooted db u now bin_uuid db' r h
  Step-IsRooted db db' r (Step.entry_restored u now _ h) =
      rw (groups-restore_entry db u now db' h) r
  Step-IsRooted db db' r (Step.entry_moved u dest now _ o h) =
      rw (groups-move_entry db u dest now db' o h) r
  Step-IsRooted db db' r (Step.entry_deleted u now _ from h) =
      rw (groups-delete_entry db u now db' from h) r

-- Groups that are one tree below a root at the start (every chain of parents ends, every parent is
-- stored, and no group but the root is without one) are such a tree, or are all gone, after any sequence
-- of successful operations: groups created, updated, moved, reordered and deleted, the bin ensured,
-- entries recycled, restored, moved and deleted, and groups recycled whose subtree does not hold the bin.
pub Reach-IsRooted :
    (root : Uuid) (start db : Db)
    → IsTree start.groups
    → IsRooted root start.groups
    → Reach start db
    → IsTree db.groups × IsRooted root db.groups
Reach-IsRooted root start _ t r Reach.nothing = (t, r)
Reach-IsRooted root start db t r (Reach.then mid _ run step) =
    let (t', r') = Reach-IsRooted root start mid t r run in
    (Step-IsTree mid db t' step, Step-IsRooted root mid db r' step)
