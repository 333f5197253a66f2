-- ===== src/Vault/Bin/Designation.antt =====
-- The groups that are designated as the recycle bin, and the operations on the designation
-- (crates/keys-engine/src/mutations.rs, meta.rs).
use keys_core.Base.{
  Bool, true, Option, none, some, List, [], ◌∷◌, ◌++◌, ◌≡◌, refl, arith, Bool-cases, Option-cases,
  inl, inr, All,
}
use keys_core.Vault.Tables.{Uuid, Millis, Group, Db, find_group, ok, Result-cases}
use keys_core.Vault.Queries.{group_exists, recycle_bin_uuid, root_uuid, next_sort_order}
use keys_core.Vault.Bin.{
  write_recycle_bin_group, clear_recycle_bin_group, read_recycle_bin_enabled, set_recycle_bin,
  create_recycle_bin_group, ensure_recycle_bin, bin_row,
}

-- Only the group `bin` carries the flag.
abbrev pub IsOnlyBin : Option Uuid → List Group → Type 0
IsOnlyBin bin gs = All (λ g. g.is_recycle_bin ≡ true → some g.uuid ≡ bin) gs

write-IsOnlyBin : (u : Uuid) (gs : List Group) → IsOnlyBin (some u) (write_recycle_bin_group u gs)
unfolding write_recycle_bin_group
write-IsOnlyBin u [] = tt
write-IsOnlyBin u (g ∷ gs) = ground (arith, write-IsOnlyBin u gs)

clear-IsOnlyBin : (gs : List Group) → IsOnlyBin none (clear_recycle_bin_group gs)
unfolding clear_recycle_bin_group
clear-IsOnlyBin [] = tt
clear-IsOnlyBin (g ∷ gs) = (ground arith, clear-IsOnlyBin gs)

pub recycle_bin_uuid-write :
    (u : Uuid) (gs : List Group)
    → group_exists gs u ≡ true
    → recycle_bin_uuid (write_recycle_bin_group u gs) ≡ some u
unfolding write_recycle_bin_group recycle_bin_uuid group_exists find_group
recycle_bin_uuid-write u [] h = cc
recycle_bin_uuid-write u (g ∷ gs) h = ground (arith, recycle_bin_uuid-write u gs)

recycle_bin_uuid-clear : (gs : List Group) → recycle_bin_uuid (clear_recycle_bin_group gs) ≡ none
unfolding clear_recycle_bin_group recycle_bin_uuid
recycle_bin_uuid-clear [] = refl
recycle_bin_uuid-clear (g ∷ gs) = ground (arith, recycle_bin_uuid-clear gs)

-- A designation that succeeds makes the given group the only bin, or leaves none, whatever was
-- flagged before; and the enabled setting then reads as it was given.
pub set_recycle_bin_designates :
    (db : Db) (enabled : Bool) (bin : Option Uuid) (now : Millis) (db' : Db)
    → set_recycle_bin db enabled bin now ≡ ok db'
    → (recycle_bin_uuid db'.groups ≡ bin)
      × IsOnlyBin bin db'.groups
      × (read_recycle_bin_enabled db' ≡ enabled)
      × (db'.recycle_bin_changed ≡ some now)
unfolding set_recycle_bin read_recycle_bin_enabled
set_recycle_bin_designates db enabled none now db' h =
    let cleared : db'.groups ≡ clear_recycle_bin_group db.groups = ground arith in
    (
      rw cleared (recycle_bin_uuid-clear db.groups),
      rw cleared (clear-IsOnlyBin db.groups),
      ground arith,
      ground arith,
    )
set_recycle_bin_designates db enabled (some u) now db' h =
    let there : group_exists db.groups u ≡ true = ground arith in
    let written : db'.groups ≡ write_recycle_bin_group u db.groups = ground arith in
    (
      rw written (recycle_bin_uuid-write u db.groups there),
      rw written (write-IsOnlyBin u db.groups),
      ground arith,
      ground arith,
    )

group_exists-append : (gs : List Group) (g : Group) → group_exists (gs ++ g ∷ []) g.uuid ≡ true
unfolding group_exists find_group
group_exists-append [] g = ground arith
group_exists-append (x ∷ gs) g = ground (arith, group_exists-append gs g)

pub recycle_bin_uuid-create :
    (db : Db) (now : Millis) (new : Uuid) (db' : Db) (bin : Uuid)
    → create_recycle_bin_group db now new ≡ ok (db', bin)
    → recycle_bin_uuid db'.groups ≡ some bin
unfolding create_recycle_bin_group
recycle_bin_uuid-create db now new db' bin h = elim (Option-cases (root_uuid db.groups)) [
  | inl rootless ↦ absurd (ground arith)
  | inr (root, is_root) ↦
      let row = bin_row new root (next_sort_order db.groups root) now in
      let added : db'.groups ≡ write_recycle_bin_group new (db.groups ++ row ∷ []) = ground arith in
      let same : new ≡ bin = ground arith in
      rw (added, ← same) (recycle_bin_uuid-write new _ (group_exists-append db.groups row))
]

-- Ensuring the bin a second time changes nothing and returns the same bin.
pub ensure_recycle_bin_idempotent :
    (db : Db) (now later : Millis) (new other : Uuid) (db' : Db) (bin : Option Uuid)
    → ensure_recycle_bin db now new ≡ ok (db', bin)
    → ensure_recycle_bin db' later other ≡ ok (db', bin)
unfolding ensure_recycle_bin
ensure_recycle_bin_idempotent db now later new other db' bin h =
    elim (Option-cases (recycle_bin_uuid db.groups)) [
      | inr (b, found) ↦
          let same : db ≡ db' = ground arith in
          let is_bin : some b ≡ bin = ground arith in rw (← same, ← is_bin) (ground arith)
      | inl missing ↦ elim (Bool-cases (read_recycle_bin_enabled db)) [
        | inr disabled ↦
            let same : db ≡ db' = ground arith in
            let is_bin : none ≡ bin = ground arith in rw (← same, ← is_bin) (ground arith)
        | inl enabled ↦ elim (Result-cases (create_recycle_bin_group db now new)) [
          | inl (e, failed) ↦ absurd (ground arith)
          | inr ((made, b), is) ↦
              let same : made ≡ db' = ground arith in
              let is_bin : some b ≡ bin = ground arith in
              let found = recycle_bin_uuid-create db now new made b is in
              rw (← same, ← is_bin) (ground (arith, found))
        ]
      ]
    ]
