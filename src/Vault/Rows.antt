-- ===== src/Vault/Rows.antt =====
-- Lookups after the statements on the group rows and the entry rows.
use keys_core.Base.{
  ℕ, ◌<◌, ◌≤◌, true, some, List, [], ◌∷◌, ◌==◌, ◌≡◌, ◌≢◌, refl, arith, Bool-cases, inl, inr, All,
}
use keys_core.Vault.Tables.{
  Uuid, Group, Entry, find_group, find_entry, update_groups, update_entries,
}
use keys_core.Vault.Queries.{group_exists, recycle_bin_uuid, next_sort_order, root_uuid}

pub recycle_bin_uuid-exists :
    (gs : List Group) (bin : Uuid) → recycle_bin_uuid gs ≡ some bin → group_exists gs bin ≡ true
unfolding recycle_bin_uuid group_exists find_group
recycle_bin_uuid-exists [] bin h = cc
recycle_bin_uuid-exists (g ∷ gs) bin h = ground (arith, recycle_bin_uuid-exists gs bin)

pub root_uuid-exists :
    (gs : List Group) (root : Uuid) → root_uuid gs ≡ some root → group_exists gs root ≡ true
unfolding root_uuid group_exists find_group
root_uuid-exists [] root h = cc
root_uuid-exists (g ∷ gs) root h = ground (arith, root_uuid-exists gs root)

module _ (f : Group → Group) (keeps : (g : Group) → (f g).uuid ≡ g.uuid) where
  pub find_group-update_self :
      (gs : List Group) (u : Uuid) (g : Group)
      → find_group gs u ≡ some g
      → find_group (update_groups u f gs) u ≡ some (f g)
  unfolding find_group update_groups
  find_group-update_self [] u g h = cc
  find_group-update_self (x ∷ gs) u g h = ground (arith, find_group-update_self gs u g, keeps x)

  -- What holds of the other rows holds of them afterwards.
  pub All-update_ne :
      (P : Group → Type 0) (gs : List Group) (u : Uuid)
      → All (λ s. s.uuid ≢ u → P s) gs
      → All (λ s. s.uuid ≢ u → P s) (update_groups u f gs)
  unfolding update_groups
  All-update_ne P [] u h = tt
  All-update_ne P (g ∷ gs) u (h, hs) = elim (Bool-cases (g.uuid == u)) [
    | inl same ↦ rw same (λ ne. absurd (ne (ground (arith, keeps g))), All-update_ne P gs u hs)
    | inr other ↦ rw other (h, All-update_ne P gs u hs)
  ]

module _ (f : Entry → Entry) (keeps : (e : Entry) → (f e).uuid ≡ e.uuid) where
  pub find_entry-update_self :
      (es : List Entry) (u : Uuid) (e : Entry)
      → find_entry es u ≡ some e
      → find_entry (update_entries u f es) u ≡ some (f e)
  unfolding find_entry update_entries
  find_entry-update_self [] u e h = cc
  find_entry-update_self (x ∷ es) u e h = ground (arith, find_entry-update_self es u e, keeps x)

  pub find_entry-update_ne :
      (es : List Entry) (u v : Uuid)
      → v ≢ u
      → find_entry (update_entries u f es) v ≡ find_entry es v
  unfolding find_entry update_entries
  find_entry-update_ne [] u v h = refl
  find_entry-update_ne (x ∷ es) u v h = ground (arith, find_entry-update_ne es u v h, keeps x)

-- The next sort_order is above every child's.
pub next_sort_order-gt :
    (gs : List Group) (p : Uuid) (n : ℕ)
    → next_sort_order gs p ≤ n
    → All (λ s. s.parent_uuid ≡ some p → s.sort_order < n) gs
unfolding next_sort_order
next_sort_order-gt [] p n h = tt
next_sort_order-gt (g ∷ gs) p n h = (λ is. ground arith, next_sort_order-gt gs p n (ground arith))
