-- ===== src/Vault/Groups/Inserts.antt =====
-- New rows in the group table: `create_group` and the creation of the recycle bin
-- (crates/keys-engine/src/mutations.rs).
use keys_core.Base.{
  true, false, Option, some, List, [], ◌∷◌, ◌++◌, ◌==◌, ◌≡◌, ◌≢◌, refl, sym, ◌∙◌, arith, Bool-cases,
  Option-cases, inl, inr, ==_iff,
}
use keys_core.Vault.Tables.{Uuid, Millis, Group, Db, find_group, ok, Result-cases}
use keys_core.Vault.Queries.{group_exists, parent_of, recycle_bin_uuid, root_uuid, next_sort_order}
use keys_core.Vault.Rows.{root_uuid-exists}
use keys_core.Vault.Bin.{
  write_recycle_bin_group, create_recycle_bin_group, ensure_recycle_bin, read_recycle_bin_enabled,
  bin_row,
}
use keys_core.Vault.Groups.{create_group, NewGroupFields, new_row}
use keys_core.Vault.Groups.Ancestors.{Ends, top, up, IsTree}

module _ (g : Group) where
  find_group-insert_ne :
      (gs : List Group) (v : Uuid) → v ≢ g.uuid → find_group (gs ++ g ∷ []) v ≡ find_group gs v
  unfolding find_group
  find_group-insert_ne [] v h = ground arith
  find_group-insert_ne (x ∷ gs) v h = ground (arith, find_group-insert_ne gs v h)

  find_group-insert_self :
      (gs : List Group) → group_exists gs g.uuid ≡ false → find_group (gs ++ g ∷ []) g.uuid ≡ some g
  unfolding find_group group_exists
  find_group-insert_self [] h = ground arith
  find_group-insert_self (x ∷ gs) h = ground (arith, find_group-insert_self gs)

  module _ (gs : List Group) (p : Uuid) (child : g.parent_uuid ≡ some p)
      (fresh : group_exists gs g.uuid ≡ false) (there : group_exists gs p ≡ true)
      (t : IsTree gs) where
    pub parent_of-insert_ne : (v : Uuid) → v ≢ g.uuid → parent_of (gs ++ g ∷ []) v ≡ parent_of gs v
    unfolding parent_of
    parent_of-insert_ne v h = rw (find_group-insert_ne gs v h)

    parent_of-insert_self : parent_of (gs ++ g ∷ []) g.uuid ≡ some p
    unfolding parent_of
    parent_of-insert_self = rw (find_group-insert_self gs fresh) child

    pub ne_of_exists : (v : Uuid) → group_exists gs v ≡ true → v ≢ g.uuid
    ne_of_exists v h i = cc (h, fresh, i)

    Ends-insert_exists : {v : Uuid} → group_exists gs v ≡ true → Ends gs v → Ends (gs ++ g ∷ []) v
    Ends-insert_exists {v} h (top e) = top (parent_of-insert_ne v (ne_of_exists v h) ∙ e)
    Ends-insert_exists {v} h (up q e ends) =
        up q (parent_of-insert_ne v (ne_of_exists v h) ∙ e)
          (Ends-insert_exists (t.parents v q e) ends)

    Ends-insert : (v : Uuid) → Ends gs v → Ends (gs ++ g ∷ []) v
    Ends-insert v ends = elim (Bool-cases (v == g.uuid)) [
      | inl same ↦
          up p (rw ((==_iff v g.uuid).0 same) parent_of-insert_self)
            (Ends-insert_exists there (t.ends p))
      | inr other ↦ old ends (parent_of-insert_ne v (λ i. ground arith))
    ]
      where
        old :
            {w : Uuid}
            → Ends gs w
            → parent_of (gs ++ g ∷ []) w ≡ parent_of gs w
            → Ends (gs ++ g ∷ []) w
        old (top e) same = top (same ∙ e)
        old {w} (up q e ends') same = up q (same ∙ e) (Ends-insert_exists (t.parents w q e) ends')

    group_exists-insert :
        (v : Uuid) → group_exists gs v ≡ true → group_exists (gs ++ g ∷ []) v ≡ true
    unfolding group_exists
    group_exists-insert v h =
        rw (find_group-insert_ne gs v (unfold group_exists in ne_of_exists v h)) h

    pub IsTree-insert : IsTree (gs ++ g ∷ [])
    IsTree-insert = record {
      ends = λ v. Ends-insert v (t.ends v);
      parents = λ v q h. elim (Bool-cases (v == g.uuid)) [
        | inl same ↦
            let is_p : p ≡ q = cc (parent_of-insert_self, h, (==_iff v g.uuid).0 same) in
            group_exists-insert q (rw (← is_p) there)
        | inr other ↦
            group_exists-insert q
              (t.parents v q (sym (parent_of-insert_ne v (λ i. ground arith)) ∙ h))
      ];
    }

-- Creating a group keeps the groups a tree.
pub create_group-IsTree :
    (db : Db) (parent : Uuid) (fields : NewGroupFields) (now : Millis) (new : Uuid) (db' : Db)
    (made : Uuid)
    → IsTree db.groups
    → create_group db parent fields now new ≡ ok (db', made)
    → IsTree db'.groups
unfolding create_group
create_group-IsTree db parent fields now new db' made t h =
    let row = new_row db parent fields now new in
    let there : group_exists db.groups parent ≡ true = ground arith in
    let fresh : group_exists db.groups new ≡ false = ground arith in
    let added : db'.groups ≡ db.groups ++ row ∷ [] = ground arith in
    rw added (IsTree-insert row db.groups parent refl fresh there t)

pub IsTree-same :
    (gs gs' : List Group)
    → ((v : Uuid) → parent_of gs' v ≡ parent_of gs v)
    → ((v : Uuid) → group_exists gs' v ≡ group_exists gs v)
    → IsTree gs
    → IsTree gs'
IsTree-same gs gs' same there t = record {
  ends = λ v. copy (t.ends v);
  parents = λ v q h. rw (there q) (t.parents v q (sym (same v) ∙ h));
}
  where
    copy : {v : Uuid} → Ends gs v → Ends gs' v
    copy {v} (top e) = top (same v ∙ e)
    copy {v} (up q e ends) = up q (same v ∙ e) (copy ends)

pub parent_of-write_recycle_bin_group :
    (bin : Uuid) (gs : List Group) (v : Uuid)
    → parent_of (write_recycle_bin_group bin gs) v ≡ parent_of gs v
unfolding write_recycle_bin_group parent_of find_group
parent_of-write_recycle_bin_group bin [] v = refl
parent_of-write_recycle_bin_group bin (g ∷ gs) v =
    ground (arith, parent_of-write_recycle_bin_group bin gs v)

group_exists-write_recycle_bin_group :
    (bin : Uuid) (gs : List Group) (v : Uuid)
    → group_exists (write_recycle_bin_group bin gs) v ≡ group_exists gs v
unfolding write_recycle_bin_group group_exists find_group
group_exists-write_recycle_bin_group bin [] v = refl
group_exists-write_recycle_bin_group bin (g ∷ gs) v =
    ground (arith, group_exists-write_recycle_bin_group bin gs v)

create_recycle_bin_group-IsTree :
    (db : Db) (now : Millis) (new : Uuid) (db' : Db) (bin : Uuid)
    → IsTree db.groups
    → create_recycle_bin_group db now new ≡ ok (db', bin)
    → IsTree db'.groups
unfolding create_recycle_bin_group
create_recycle_bin_group-IsTree db now new db' bin t h = elim (Option-cases (root_uuid db.groups)) [
  | inl rootless ↦ absurd (ground arith)
  | inr (root, is_root) ↦
      let row = bin_row new root (next_sort_order db.groups root) now in
      let fresh : group_exists db.groups new ≡ false = ground arith in
      let added : db'.groups ≡ write_recycle_bin_group new (db.groups ++ row ∷ []) = ground arith in
      rw added (
        IsTree-same _ _ (parent_of-write_recycle_bin_group new _)
          (group_exists-write_recycle_bin_group new _)
          (IsTree-insert row db.groups root refl fresh (root_uuid-exists db.groups root is_root) t))
]

-- Ensuring the recycle bin, which creates it where it is enabled and missing, keeps the groups a
-- tree.
pub ensure_recycle_bin-IsTree :
    (db : Db) (now : Millis) (new : Uuid) (db' : Db) (bin : Option Uuid)
    → IsTree db.groups
    → ensure_recycle_bin db now new ≡ ok (db', bin)
    → IsTree db'.groups
unfolding ensure_recycle_bin
ensure_recycle_bin-IsTree db now new db' bin t h =
    elim (Option-cases (recycle_bin_uuid db.groups)) [
      | inr (b, found) ↦ let same : db ≡ db' = ground arith in rw (← same) t
      | inl missing ↦ elim (Result-cases (create_recycle_bin_group db now new)) [
        | inl (e, failed) ↦ let same : db ≡ db' = ground arith in rw (← same) t
        | inr ((made, b), is) ↦ elim (Bool-cases (read_recycle_bin_enabled db)) [
          | inl enabled ↦
              let same : made ≡ db' = ground arith in
              create_recycle_bin_group-IsTree db now new db' b t (rw (← same) is)
          | inr disabled ↦ let same : db ≡ db' = ground arith in rw (← same) t
        ]
      ]
    ]
