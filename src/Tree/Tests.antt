-- ===== src/Tree/Tests.antt =====
-- Walks over a small tree (crates/keys-engine/src/util/tree.rs).
use keys_core.Base.{ℕ, ◌≡◌, refl, [], ◌∷◌}
use keys_core.Tree.{
  Group, Groups, find, find_entry_with_parent, contains_entry, walk, replace,
  collect_entries_with_parent, swap_entry_in_tree,
}

-- Two groups below the root, with the id 2 in both.
abbrev forest : Group (ℕ × ℕ)
forest = Group.node 0 ((1, 10) ∷ []) (
    Groups.cons (Group.node 7 ((2, 20) ∷ []) Groups.nil)
      (Groups.cons (Group.node 8 ((2, 21) ∷ (3, 30) ∷ []) Groups.nil) Groups.nil))

abbrev id : ℕ × ℕ → ℕ
id e = e.0

swapped :
    collect_entries_with_parent id (swap_entry_in_tree id (2, 99) forest)
    ≡ ((1, 10), 0) ∷ ((2, 99), 7) ∷ ((2, 21), 8) ∷ ((3, 30), 8) ∷ []
unfolding collect_entries_with_parent swap_entry_in_tree walk replace contains_entry
    find_entry_with_parent find
swapped = refl
