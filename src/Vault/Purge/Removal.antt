-- ===== src/Vault/Purge/Removal.antt =====
-- References and rows after `delete_group` and `empty_recycle_bin`
-- (crates/keys-engine/src/mutations.rs).
use keys_core.Base.{
  ℕ, zero, suc, ◌<◌, true, false, not, Option, none, some, List, [], ◌∷◌, ◌==◌, ◌≡◌, ◌≢◌, refl, ap,
  ◌∙◌, arith, ◌⊎◌, Bool-cases, Option-cases, inl, inr, All, Any, All-keep_if, keep_if, keep_if-All,
  All-map₂, >>=?-eq-some, is_some_of,
}
use keys_core.Vault.Tables.{Uuid, Millis, Group, Db, find_group, ok}
use keys_core.Vault.Queries.{group_exists, child_groups, recycle_bin_uuid, gc_orphan_tags}
use keys_core.Vault.Purge.Induction.{
  delete_group_recursive_keeps, for_each_keeps, groups-delete_self, entries-delete_self, IsRanked,
  delete_group_recursive_returns, delete_group-eq-ok, empty_recycle_bin-eq-some, list_entries-rows,
  entries-delete_direct_child_entries,
}
use keys_core.Vault.Purge.{
  Purge, start, sweep, child_entries, delete_self, for_each, delete_group_recursive, delete_group,
  empty_recycle_bin, delete_direct_child_entries,
}

module _ (now : Millis) where
  -- What holds of all groups goes on holding of those that are left.
  All-groups_self :
      (P : Group → Type 0) (u : Uuid) (parent : Option Uuid) (s : Purge)
      → All P s.db.groups
      → All P (delete_self u parent now s).db.groups
  All-groups_self P u parent s h =
      rw (groups-delete_self u parent now s) (All-keep_if P _ s.db.groups h)

  removed_self :
      (u : Uuid) (parent : Option Uuid) (s : Purge)
      → All (λ g. (not (g.uuid == u)) ≡ true) (delete_self u parent now s).db.groups
  removed_self u parent s = rw (groups-delete_self u parent now s) (keep_if-All _ s.db.groups)

  removed :
      (fuel : ℕ) (parent : Option Uuid) (u : Uuid) (s s' : Purge)
      → delete_group_recursive fuel now parent u s ≡ some s'
      → All (λ g. (not (g.uuid == u)) ≡ true) s'.db.groups
  unfolding delete_group_recursive
  removed zero parent u s s' h = cc
  removed (suc fuel) parent u s s' h =
      let (mid, children, last) =
        >>=?-eq-some
          (for_each (delete_group_recursive fuel now (some u)) (child_groups s.db.groups u) s)
          (λ x. some (delete_self u parent now x)) h in
      let done : delete_self u parent now mid ≡ s' = ground arith in
      rw (← done) (removed_self u parent mid)

  -- After the loop no row has one of the listed uuids.
  children_removed :
      (fuel : ℕ) (parent : Option Uuid) (P : Group → Type 0) (cs : List Uuid) (s s' : Purge)
      → for_each (delete_group_recursive fuel now parent) cs s ≡ some s'
      → All (λ g. Any (λ c. c ≡ g.uuid) cs ⊎ P g) s.db.groups
      → All P s'.db.groups
  unfolding for_each
  children_removed fuel parent P [] s s' h all =
      let same : s ≡ s' = ground arith in
      rw (← same) (All-map₂ _ _ _ (λ g a b. right g a) _ all all)
    where
      right : (g : Group) → Any (λ c. c ≡ g.uuid) [] ⊎ P g → P g
      right g (inl no_row) = absurd no_row
      right g (inr p) = p
  children_removed fuel parent P (c ∷ cs) s s' h all =
      let (mid, first, rest) =
        >>=?-eq-some (delete_group_recursive fuel now parent c s)
          (for_each (delete_group_recursive fuel now parent) cs) h in
      let kept =
        delete_group_recursive_keeps now
          (λ x. All (λ g. Any (λ d. d ≡ g.uuid) (c ∷ cs) ⊎ P g) x.db.groups) (All-groups_self _)
          fuel parent c s mid first all in
      children_removed fuel parent P cs mid s' rest (
        All-map₂ _ _ _ (λ g a b. drop_head g a b) mid.db.groups kept
          (removed fuel parent c s mid first))
    where
      drop_head :
          (g : Group)
          → Any (λ d. d ≡ g.uuid) (c ∷ cs) ⊎ P g
          → (not (g.uuid == c)) ≡ true
          → Any (λ d. d ≡ g.uuid) cs ⊎ P g
      drop_head g (inr p) n = inr p
      drop_head g (inl (inr later)) n = inl later
      drop_head g (inl (inl is)) n = absurd (ground arith)

-- A row with the parent `u` is among the child groups of `u`.
child_rows :
    (gs : List Group) (u : Uuid) (listed : List Uuid)
    → ((x : Uuid) → Any (λ c. c ≡ x) (child_groups gs u) → Any (λ c. c ≡ x) listed)
    → All (λ g. Any (λ c. c ≡ g.uuid) listed ⊎ (g.parent_uuid ≢ some u)) gs
unfolding child_groups
child_rows [] u listed emb = tt
child_rows (g ∷ gs) u listed emb = elim (Bool-cases (is_some_of g.parent_uuid u)) [
  | inl child ↦ (
    inl (emb g.uuid (rw child (inl refl))),
    child_rows gs u listed (λ x at. emb x (rw child (inr at))),
  )
  | inr other ↦ (inr (λ is. ground arith), child_rows gs u listed (λ x at. emb x (rw other at)))
]

pub group_exists-remove_ne :
    (gs : List Group) (u v : Uuid)
    → v ≢ u
    → group_exists (keep_if (λ g. not (g.uuid == u)) gs) v ≡ group_exists gs v
unfolding group_exists find_group
group_exists-remove_ne [] u v h = refl
group_exists-remove_ne (g ∷ gs) u v h = ground (arith, group_exists-remove_ne gs u v h)

pub group_exists-remove_self :
    (gs : List Group) (u : Uuid) → group_exists (keep_if (λ g. not (g.uuid == u)) gs) u ≡ false
unfolding group_exists find_group
group_exists-remove_self [] u = refl
group_exists-remove_self (g ∷ gs) u = ground (arith, group_exists-remove_self gs u)

-- The foreign keys: every parent and every entry's group is a stored row.
pub record IsConsistent (db : Db) : Type 0 where
  pub parents :
      All (λ g. (p : Uuid) → g.parent_uuid ≡ some p → group_exists db.groups p ≡ true) db.groups
  pub places : All (λ e. group_exists db.groups e.group_uuid ≡ true) db.entries

IsConsistent-delete_self :
    (u : Uuid) (parent : Option Uuid) (now : Millis) (s : Purge)
    → All (λ g. g.parent_uuid ≢ some u) s.db.groups
    → IsConsistent s.db
    → IsConsistent (delete_self u parent now s).db
IsConsistent-delete_self u parent now s childless c = record {
  parents = rw (groups-delete_self u parent now s) (
      All-map₂ _ _ _
        (λ g away old p is.
          group_exists-remove_ne s.db.groups u p (λ i. away (is ∙ ap some i)) ∙ old p is)
        _ (All-keep_if _ _ s.db.groups childless) (All-keep_if _ _ s.db.groups c.parents));
  places =
      rw (groups-delete_self u parent now s, entries-delete_self u parent now s)
        (All-map₂ _ _ _
          (λ e away old.
            group_exists-remove_ne s.db.groups u e.group_uuid (λ i. ground arith) ∙ old)
          _ (keep_if-All _ s.db.entries) (All-keep_if _ _ s.db.entries c.places));
}

-- What the deletion of a childless group keeps, the recursion keeps.
module _ {ℓ} (now : Millis) (I : Purge → Type ℓ)
    (step : (u : Uuid) (parent : Option Uuid) (s : Purge)
      → All (λ g. g.parent_uuid ≢ some u) s.db.groups
      → I s
      → I (delete_self u parent now s)) where
  pub childless_keeps :
      (fuel : ℕ) (parent : Option Uuid) (u : Uuid) (s s' : Purge)
      → delete_group_recursive fuel now parent u s ≡ some s'
      → I s
      → I s'
  unfolding delete_group_recursive
  childless_keeps zero parent u s s' h c = cc
  childless_keeps (suc fuel) parent u s s' h c =
      let (mid, children, last) =
        >>=?-eq-some
          (for_each (delete_group_recursive fuel now (some u)) (child_groups s.db.groups u) s)
          (λ x. some (delete_self u parent now x)) h in
      let done : delete_self u parent now mid ≡ s' = ground arith in
      let childless =
        children_removed now fuel (some u) (λ g. g.parent_uuid ≢ some u)
          (child_groups s.db.groups u) s mid children (child_rows s.db.groups u _ (λ x at. at)) in
      rw (← done) (
        step u parent mid childless (
          for_each_keeps I (delete_group_recursive fuel now (some u))
            (λ d a b. childless_keeps fuel (some u) d a b) (child_groups s.db.groups u) s mid
            children c))

delete_group_recursive-IsConsistent :
    (fuel : ℕ) (now : Millis) (parent : Option Uuid) (u : Uuid) (s s' : Purge)
    → delete_group_recursive fuel now parent u s ≡ some s'
    → IsConsistent s.db
    → IsConsistent s'.db
delete_group_recursive-IsConsistent fuel now parent u s s' h c =
    childless_keeps now (λ x. IsConsistent x.db)
      (λ v p x childless k. IsConsistent-delete_self v p now x childless k) fuel parent u s s' h c

IsConsistent-sweep : (s : Purge) → IsConsistent s.db → IsConsistent (sweep s).db
unfolding gc_orphan_tags
IsConsistent-sweep s c = record { parents = c.parents; places = c.places }

-- A deleted group is gone, and no parent and no entry's group refers to a row that is not stored.
pub delete_group-IsConsistent :
    (fuel : ℕ) (db : Db) (u : Uuid) (now : Millis) (s : Purge)
    → IsConsistent db
    → delete_group fuel db u now ≡ some (ok s)
    → IsConsistent s.db × All (λ g. (not (g.uuid == u)) ≡ true) s.db.groups
delete_group-IsConsistent fuel db u now s c h =
    let (g, last, found, run, same) = delete_group-eq-ok fuel db u now s h in
    rw (← same) (
      IsConsistent-sweep last
          (delete_group_recursive-IsConsistent fuel now g.parent_uuid u (start db) last run c),
      unfold gc_orphan_tags in removed now fuel g.parent_uuid u (start db) last run,
    )

groups-delete_direct_child_entries :
    (u parent : Uuid) (now : Millis) (s : Purge)
    → (delete_direct_child_entries u parent now s).db.groups ≡ s.db.groups
unfolding delete_direct_child_entries
groups-delete_direct_child_entries u parent now s =
    (list_entries-rows (child_entries s.db.entries u) parent now s).0

-- Emptying the bin leaves no group and no entry in it, and no dangling reference.
pub empty_recycle_bin_empties :
    (fuel : ℕ) (db : Db) (now : Millis) (bin : Uuid) (s : Purge)
    → recycle_bin_uuid db.groups ≡ some bin
    → IsConsistent db
    → empty_recycle_bin fuel db now ≡ some s
    → All (λ g. g.parent_uuid ≢ some bin) s.db.groups
      × All (λ e. (not (e.group_uuid == bin)) ≡ true) s.db.entries
      × IsConsistent s.db
empty_recycle_bin_empties fuel db now bin s is_bin c h =
    let (last, run, same) = empty_recycle_bin-eq-some fuel db now bin s is_bin h in
    let emptied = delete_direct_child_entries bin bin now last in
    let groups = groups-delete_direct_child_entries bin bin now last in
    let entries = entries-delete_direct_child_entries bin bin now last in
    let childless =
      children_removed now fuel (some bin) (λ g. g.parent_uuid ≢ some bin)
        (child_groups db.groups bin) (start db) last run
        (child_rows db.groups bin _ (λ x at. at)) in
    let c' =
      for_each_keeps (λ x. IsConsistent x.db) (delete_group_recursive fuel now (some bin))
        (λ d a b. delete_group_recursive-IsConsistent fuel now (some bin) d a b)
        (child_groups db.groups bin) (start db) last run c in
    rw (← same) (
      unfold gc_orphan_tags in rw groups childless,
      unfold gc_orphan_tags in rw entries (keep_if-All _ last.db.entries),
      IsConsistent-sweep emptied (record {
        parents = rw groups c'.parents;
        places = rw (groups, entries) (All-keep_if _ _ last.db.entries c'.places);
      }),
    )

-- `delete_group` returns when the fuel is above the rank of the group, for any rank that falls from
-- every group to its children.
pub delete_group_returns :
    (rank : Uuid → ℕ) (fuel : ℕ) (db : Db) (u : Uuid) (now : Millis)
    → IsRanked rank db.groups
    → rank u < fuel
    → delete_group fuel db u now ≢ none
unfolding delete_group
delete_group_returns rank fuel db u now ranked lt = elim (Option-cases (find_group db.groups u)) [
  | inl missing ↦ ground arith
  | inr (g, found) ↦
      ground
        (arith, delete_group_recursive_returns now rank fuel g.parent_uuid u (start db) ranked lt)
]
