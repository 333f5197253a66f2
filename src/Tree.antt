-- ===== src/Tree.antt =====
-- Walks over the tree of groups that the merge works on (crates/keys-engine/src/util/tree.rs and
-- `swap_entry_in_tree` of crates/keys-engine/src/reconcile.rs). Groups and entries are another crate's
-- records: a group is its id, its entries and its child groups, and an entry a value of the type
-- parameter E with its id.
pub mod Order
pub mod Tests
use keys_core.Base.{
  ℕ, Bool, true, false, Option, none, some, List, [], ◌∷◌, ◌++◌, map, ◌==◌, if◌then◌else◌,
}
use mathlib.Core.Option

mutual
  pub data Group (E : Type 0) : Type 0 where
    node : ℕ → List E → Groups E → Group E

  -- `Vec<Group>`.
  pub data Groups (E : Type 0) : Type 0 where
    nil : Groups E
    cons : Group E → Groups E → Groups E

module _ {E : Type 0} (id : E → ℕ) where
  -- `entries.iter().find(|e| e.id == target)`.
  unfoldable pub find : ℕ → List E → Option E
  find target [] = none
  find target (e ∷ es) = let rest = find target es in if id e == target then some e else rest

  abbrev pub held_by : ℕ → Option E → Option (E × ℕ) → Option (E × ℕ)
  held_by group none below = below
  held_by group (some e) below = some (e, group)

  -- The first hit of two.
  abbrev pub or_else : Option (E × ℕ) → Option (E × ℕ) → Option (E × ℕ)
  or_else none b = b
  or_else (some h) b = some h

  unfoldable mutual
    pub find_entry_with_parent : ℕ → Group E → Option (E × ℕ)
    find_entry_with_parent target (Group.node g es gs) =
        held_by g (find target es) (find_below target gs)

    -- `groups.iter().find_map(…)`.
    pub find_below : ℕ → Groups E → Option (E × ℕ)
    find_below target Groups.nil = none
    find_below target (Groups.cons g gs) =
        or_else (find_entry_with_parent target g) (find_below target gs)

  unfoldable pub find_entry : ℕ → Group E → Option E
  find_entry target g = Option.map (λ hit. hit.0) (find_entry_with_parent target g)

  unfoldable pub find_entry_parent_group : ℕ → Group E → Option ℕ
  find_entry_parent_group target g = Option.map (λ hit. hit.1) (find_entry_with_parent target g)

  unfoldable pub contains_entry : ℕ → Group E → Bool
  contains_entry target g = elim (find_entry_with_parent target g) [
    | none ↦ false
    | some hit ↦ true
  ]

  unfoldable mutual
    -- `walk`, with the vector that it extends.
    pub walk : Group E → List (E × ℕ) → List (E × ℕ)
    walk (Group.node g es gs) out = walk_all gs (out ++ map (λ e. (e, g)) es)

    pub walk_all : Groups E → List (E × ℕ) → List (E × ℕ)
    walk_all Groups.nil out = out
    walk_all (Groups.cons g gs) out = walk_all gs (walk g out)

  unfoldable pub collect_entries_with_parent : Group E → List (E × ℕ)
  collect_entries_with_parent g = walk g []

  unfoldable pub collect_entries : Group E → List E
  collect_entries g = map (λ hit. hit.0) (collect_entries_with_parent g)

  -- `if let Some(slot) = entries.iter_mut().find(…) { *slot = replacement }`.
  unfoldable pub replace : E → List E → Option (List E)
  replace r [] = none
  replace r (e ∷ es) =
      let rest = replace r es in
      if id e == id r then some (r ∷ es) else Option.map (λ l. e ∷ l) rest

  -- The group with the entries that the replacement was found in, or with its children searched.
  abbrev pub put_back : ℕ → List E → Groups E → Groups E → Option (List E) → Group E
  put_back g es gs below none = Group.node g es below
  put_back g es gs below (some es') = Group.node g es' gs

  unfoldable mutual
    pub swap_entry_in_tree : E → Group E → Group E
    swap_entry_in_tree r (Group.node g es gs) = put_back g es gs (swap_below r gs) (replace r es)

    -- The loop over the children, which returns after the first that holds the entry.
    pub swap_below : E → Groups E → Groups E
    swap_below r Groups.nil = Groups.nil
    swap_below r (Groups.cons g gs) =
        let rest = swap_below r gs in
        let here = swap_entry_in_tree r g in
        if contains_entry (id r) g then Groups.cons here gs else Groups.cons g rest
