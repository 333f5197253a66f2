-- ===== src/Vault/Groups/Moves.antt =====
-- Moving and recycling groups in a tree of groups (`move_group` and `recycle_group` of
-- crates/keys-engine/src/mutations.rs).
use keys_core.Base.{
  ℕ, ◌<◌, ◌≤◌, true, false, none, some, List, [], ◌∷◌, ◌==◌, ◌≡◌, ◌≢◌, refl, ◌↔◌, arith, Bool-cases,
  Option-cases, inl, inr, ==_iff, All,
}
use keys_core.Vault.Tables.{
  Uuid, Millis, Group, Db, find_group, update_groups, Result, ok, err, cycle_detected,
}
use keys_core.Vault.Queries.{group_exists, parent_of, next_sort_order, recycle_bin_uuid}
use keys_core.Vault.Rows.{
  recycle_bin_uuid-exists, find_group-update_self, All-update_ne, next_sort_order-gt,
}
use keys_core.Vault.Groups.{
  climb, move_group, MoveGroupOutcome, move_row, recycle_group, recycle_row,
}
use keys_core.Vault.Groups.Ancestors.{
  Ends, IsAncestor, self, height, climb-true, climb-false, climb_returns, IsTree, IsTree-update,
  not-Ends-update,
}

-- A move that succeeds keeps the groups a tree.
pub move_group-IsTree :
    (fuel : ℕ) (db : Db) (u parent : Uuid) (now : Millis) (db' : Db) (o : MoveGroupOutcome)
    → IsTree db.groups
    → move_group fuel db u parent now ≡ some (ok (db', o))
    → IsTree db'.groups
unfolding move_group parent_of
move_group-IsTree fuel db u parent now db' o t h =
    let order = next_sort_order db.groups parent in
    let walked : climb db.groups u fuel (some parent) ≡ some false = ground arith in
    let there : group_exists db.groups parent ≡ true = ground arith in
    let stored : group_exists db.groups u ≡ true = unfold group_exists in ground arith in
    let moved : db'.groups ≡ update_groups u (move_row parent order now) db.groups = ground arith in
    rw moved (
      IsTree-update (move_row parent order now) parent (λ g. refl) (λ g. refl) db.groups u stored
        there (climb-false db.groups u fuel parent walked) t)

-- A move between stored groups that returns is refused as a cycle exactly when the new parent is
-- the group itself or lies in its subtree.
pub move_group-cycle_iff :
    (fuel : ℕ) (db : Db) (u parent : Uuid) (now : Millis) (r : Result (Db × MoveGroupOutcome))
    → group_exists db.groups u ≡ true
    → group_exists db.groups parent ≡ true
    → move_group fuel db u parent now ≡ some r
    → (r ≡ err cycle_detected) ↔ IsAncestor db.groups u parent
unfolding move_group group_exists
move_group-cycle_iff fuel db u parent now r stored there h = (
  λ e. elim (Bool-cases (u == parent)) [
    | inl same ↦ self ((==_iff u parent).0 same)
    | inr other ↦ climb-true db.groups u fuel parent (ground arith)
  ],
  λ k. elim (Option-cases (climb db.groups u fuel (some parent))) [
    | inl stuck ↦ ground arith
    | inr (true, met) ↦ ground arith
    | inr (false, missed) ↦ elim (Bool-cases (u == parent)) [
      | inl same ↦ ground arith
      | inr other ↦ absurd (climb-false db.groups u fuel parent missed k)
    ]
  ],
)

-- A move returns when the fuel is at least the number of groups on the new parent's chain.
pub move_group_returns :
    (db : Db) (u parent : Uuid) (now : Millis) (e : Ends db.groups parent) (fuel : ℕ)
    → height e ≤ fuel
    → move_group fuel db u parent now ≢ none
unfolding move_group parent_of
move_group_returns db u parent now e fuel le = ground (arith, climb_returns db.groups u e fuel le)

All-weaken :
    (P : Group → Type 0) (gs : List Group) (u : Uuid) → All P gs → All (λ s. s.uuid ≢ u → P s) gs
All-weaken P [] u h = tt
All-weaken P (g ∷ gs) u (h, hs) = (λ ne. h, All-weaken P gs u hs)

-- A moved group is the child of its new parent and comes behind all the other children there; the
-- outcome names the old parent and the new one.
pub move_group_places :
    (fuel : ℕ) (db : Db) (u parent : Uuid) (now : Millis) (db' : Db) (o : MoveGroupOutcome)
    → move_group fuel db u parent now ≡ some (ok (db', o))
    → (g : Group) × (find_group db'.groups u ≡ some g)
      × (g.parent_uuid ≡ some parent)
      × (g.location_changed_at ≡ some now)
      × All (λ s. s.uuid ≢ u → s.parent_uuid ≡ some parent → s.sort_order < g.sort_order) db'.groups
      × (o.to_parent ≡ parent)
      × ((p : Uuid) → parent_of db.groups u ≡ some p → o.from_parent ≡ p)
unfolding move_group parent_of
move_group_places fuel db u parent now db' o h = elim (Option-cases (find_group db.groups u)) [
  | inl missing ↦ absurd (ground arith)
  | inr (g, found) ↦
      let order = next_sort_order db.groups parent in
      let f = move_row parent order now in
      let moved : db'.groups ≡ update_groups u f db.groups = ground arith in
      (
        f g,
        rw moved (find_group-update_self f (λ x. refl) db.groups u g found),
        refl,
        refl,
        rw moved (
            All-update_ne f (λ x. refl) (λ s. s.parent_uuid ≡ some parent → s.sort_order < order)
              db.groups u
              (All-weaken _ db.groups u (next_sort_order-gt db.groups parent order (omega arith)))),
        ground arith,
        λ p is. ground arith,
      )
]

-- `recycle_group` accepts a group that holds the recycle bin in its subtree, and leaves it and the
-- bin in a circle.
pub recycle_group-cycle :
    (db : Db) (u bin : Uuid) (now : Millis)
    → group_exists db.groups u ≡ true
    → recycle_bin_uuid db.groups ≡ some bin
    → bin ≢ u
    → IsAncestor db.groups u bin
    → (db' : Db) × (recycle_group db u now ≡ ok db') × (¬ Ends db'.groups u)
unfolding recycle_group
recycle_group-cycle db u bin now stored is_bin ne k = (
  record db { groups = update_groups u (recycle_row bin now) db.groups },
  ground arith,
  not-Ends-update (recycle_row bin now) bin (λ g. refl) (λ g. refl) db.groups u stored k,
)

-- Recycling a group that does not hold the bin keeps the groups a tree.
pub recycle_group-IsTree :
    (db : Db) (u bin : Uuid) (now : Millis) (db' : Db)
    → recycle_bin_uuid db.groups ≡ some bin
    → ¬ IsAncestor db.groups u bin
    → IsTree db.groups
    → recycle_group db u now ≡ ok db'
    → IsTree db'.groups
unfolding recycle_group
recycle_group-IsTree db u bin now db' is_bin off t h =
    let f = recycle_row bin now in
    let stored : group_exists db.groups u ≡ true = ground arith in
    let moved : db'.groups ≡ update_groups u f db.groups = ground arith in
    rw moved (
      IsTree-update f bin (λ g. refl) (λ g. refl) db.groups u stored
        (recycle_bin_uuid-exists db.groups bin is_bin) off t)
