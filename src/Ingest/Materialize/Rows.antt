-- ===== src/Ingest/Materialize/Rows.antt =====
-- The deletion of group rows, the deepest first
-- (the last loop of `materialize_group_tombstones`, crates/keys-engine/src/ingest.rs).
use keys_core.Base.{
  ℕ, ◌≤◌, ◌<◌, true, false, some, List, [], ◌∷◌, ◌==◌, ◌≡◌, ◌≢◌, refl, subst, not, ◌&&◌, arith,
  Bool-cases, inl, inr, ==_iff, ==_refl, All, All-imp, All-keep_if, All-map₂, keep_if-All, keep_if,
  any, is_some_of, leb,
}
use keys_core.Vault.Tables.{Uuid, Group, Entry, ok, find_group}
use keys_core.Vault.Queries.{group_exists}
use keys_core.Vault.Groups.Ancestors.{IsTree}
use keys_core.Vault.Purge.Trees.{IsTree-remove}
use keys_core.Ingest.Materialize.{
  contains, holds_entry, insert_deepest, sort_deepest, delete_group_row, delete_group_rows,
}

pub contains-All :
    (P : Uuid → Type 0) (v : Uuid) (us : List Uuid) → All P us → contains v us ≡ true → P v
unfolding contains
contains-All P v [] h k = cc
contains-All P v (u ∷ us) (h, hs) k = elim (Bool-cases (u == v)) [
  | inl same ↦ subst P ((==_iff u v).0 same) h
  | inr other ↦ contains-All P v us hs (ground arith)
]

module _ (d : Uuid → ℕ) where
  contains-insert :
      (v u : Uuid) (us : List Uuid) → contains v (insert_deepest d u us) ≡ contains v (u ∷ us)
  unfolding contains insert_deepest
  contains-insert v u [] = refl
  contains-insert v u (w ∷ us) = ground (arith, contains-insert v u us)

  pub contains-sort : (v : Uuid) (us : List Uuid) → contains v (sort_deepest d us) ≡ contains v us
  unfolding contains sort_deepest
  contains-sort v [] = refl
  contains-sort v (u ∷ us) =
      ground (arith, contains-insert v u (sort_deepest d us), contains-sort v us)

  -- The deepest first.
  abbrev pub IsDescending : List Uuid → Type 0
  IsDescending [] = Unit
  IsDescending (u ∷ us) = All (λ v. d v ≤ d u) us × IsDescending us

  All-insert :
      (P : Uuid → Type 0) (u : Uuid) (us : List Uuid)
      → P u
      → All P us
      → All P (insert_deepest d u us)
  unfolding insert_deepest
  All-insert P u [] h hs = (h, tt)
  All-insert P u (v ∷ us) h (k, ks) = elim (Bool-cases (leb (d v) (d u))) [
    | inl first ↦ rw first (h, (k, ks))
    | inr behind ↦ rw behind (k, All-insert P u us h ks)
  ]

  pub All-sort : (P : Uuid → Type 0) (us : List Uuid) → All P us → All P (sort_deepest d us)
  unfolding sort_deepest
  All-sort P [] h = tt
  All-sort P (u ∷ us) (h, hs) = All-insert P u (sort_deepest d us) h (All-sort P us hs)

  IsDescending-insert :
      (u : Uuid) (us : List Uuid) → IsDescending us → IsDescending (insert_deepest d u us)
  unfolding insert_deepest
  IsDescending-insert u [] h = (tt, tt)
  IsDescending-insert u (v ∷ us) (k, h) = elim (Bool-cases (leb (d v) (d u))) [
    | inl first ↦
        let le : d v ≤ d u = ground arith in
        rw first (
          (le, All-imp (λ w. d w ≤ d v) (λ w. d w ≤ d u) (λ w x. omega (arith, x, le)) us k),
          (k, h),
        )
    | inr behind ↦
        rw behind (All-insert (λ w. d w ≤ d v) u us (ground arith) k, IsDescending-insert u us h)
  ]

  pub IsDescending-sort : (us : List Uuid) → IsDescending (sort_deepest d us)
  unfolding sort_deepest
  IsDescending-sort [] = tt
  IsDescending-sort (u ∷ us) = IsDescending-insert u (sort_deepest d us) (IsDescending-sort us)

  -- A group is deeper than its parent.
  abbrev pub Deepens : List Group → Type 0
  Deepens gs = All (λ g. (p : Uuid) → g.parent_uuid ≡ some p → d p < d g.uuid) gs

  -- With a group in the list its children are.
  abbrev pub IsClosed : List Uuid → List Group → Type 0
  IsClosed us gs =
      All
        (λ g.
          (p : Uuid) → g.parent_uuid ≡ some p → contains p us ≡ true → contains g.uuid us ≡ true)
        gs

  -- The first group of the list has no children.
  childless :
      (u : Uuid) (us : List Uuid) (gs : List Group)
      → All (λ v. d v ≤ d u) us
      → Deepens gs
      → IsClosed (u ∷ us) gs
      → All (λ g. g.parent_uuid ≢ some u) gs
  unfolding contains
  childless u us gs top deep closed =
      All-map₂ _ _ _
        (λ g below inside is. elim (Bool-cases (u == g.uuid)) [
          | inl same ↦ ground (arith, below u is)
          | inr other ↦
              let there = inside u is (rw (==_refl u) refl) in
              omega (arith, below u is, contains-All (λ v. d v ≤ d u) g.uuid us top (ground arith))
        ])
        gs deep closed

  not-any :
      (u : Uuid) (gs : List Group)
      → All (λ g. g.parent_uuid ≢ some u) gs
      → any (λ g. is_some_of g.parent_uuid u) gs ≡ false
  not-any u [] h = refl
  not-any u (g ∷ gs) (h, hs) = ground (arith, not-any u gs hs)

  IsClosed-rest :
      (u : Uuid) (us : List Uuid) (gs : List Group)
      → IsClosed (u ∷ us) gs
      → IsClosed us (keep_if (λ g. not (g.uuid == u)) gs)
  unfolding contains
  IsClosed-rest u us gs closed =
      All-map₂ _ _ _
        (λ g off inside p is k.
          let there = inside p is (ground (arith, k)) in ground (arith, there, off))
        (keep_if (λ g. not (g.uuid == u)) gs) (keep_if-All (λ g. not (g.uuid == u)) gs)
        (All-keep_if _ (λ g. not (g.uuid == u)) gs closed)

  group_exists-remove :
      (u v : Uuid) (gs : List Group)
      → group_exists (keep_if (λ g. not (g.uuid == u)) gs) v ≡ (group_exists gs v && not (u == v))
  unfolding group_exists find_group
  group_exists-remove u v [] = refl
  group_exists-remove u v (g ∷ gs) = ground (arith, group_exists-remove u v gs)

  -- The rows of the list are deleted without one being refused, and the rest is a tree.
  pub delete_group_rows-IsTree :
      (us : List Uuid) (es : List Entry) (gs : List Group)
      → IsTree gs
      → IsDescending us
      → Deepens gs
      → IsClosed us gs
      → All (λ u. holds_entry es u ≡ false) us
      → (rest : List Group) × (delete_group_rows us es gs ≡ ok rest)
        × IsTree rest
        × ((v : Uuid) → group_exists rest v ≡ (group_exists gs v && not (contains v us)))
  unfolding delete_group_rows delete_group_row contains
  delete_group_rows-IsTree [] es gs t desc deep closed empty = (gs, refl, t, λ v. ground arith)
  delete_group_rows-IsTree (u ∷ us) es gs t (first, desc) deep closed (bare, empty) =
      let leaf = childless u us gs first deep closed in
      let kept = keep_if (λ g. not (g.uuid == u)) gs in
      let goes : delete_group_row u es gs ≡ ok kept =
        rw (not-any u gs leaf, bare, delete_group_row) refl in
      let (rest, ran, tree, left) =
        delete_group_rows-IsTree us es kept (IsTree-remove u gs leaf t) desc
          (All-keep_if _ (λ g. not (g.uuid == u)) gs deep) (IsClosed-rest u us gs closed) empty in
      (
        rest,
        rw (goes, delete_group_rows) ran,
        tree,
        λ v. ground (arith, left v, group_exists-remove u v gs),
      )
