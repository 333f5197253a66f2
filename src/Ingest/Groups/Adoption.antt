-- ===== src/Ingest/Groups/Adoption.antt =====
-- The adoption of the peer's groups, parents before children
-- (pass 1 of `reconcile_peer_groups`, crates/keys-engine/src/ingest.rs).
use keys_core.Base.{
  ℕ, suc, ◌+◌, ◌≤◌, true, Option, none, some, List, [], ◌∷◌, ◌++◌, ◌==◌, ◌≡◌, refl, sym, ◌∙◌, subst,
  arith, Bool-cases, inl, inr, All, All-append, ◌⊎◌, length, length-append, ==_refl,
}
use keys_core.Vault.Tables.{Uuid, Group, find_group}
use keys_core.Vault.Queries.{group_exists, parent_of}
use keys_core.Ingest.Groups.{
  PeerGroup, PeerTree, PeerTrees, Placed, Pass, collect, collect_children, adopt_groups,
  adopted_row, as_u32,
}
use keys_core.Ingest.Groups.Cycles.{IsLinked}

module _ (g : Group) where
  group_exists-insert :
      (gs : List Group) (v : Uuid) → group_exists gs v ≡ true → group_exists (gs ++ g ∷ []) v ≡ true
  unfolding group_exists find_group
  group_exists-insert [] v h = cc
  group_exists-insert (x ∷ gs) v h = ground (arith, group_exists-insert gs v)

  group_exists-insert_self : (gs : List Group) → group_exists (gs ++ g ∷ []) g.uuid ≡ true
  unfolding group_exists find_group
  group_exists-insert_self [] = rw (==_refl g.uuid) refl
  group_exists-insert_self (x ∷ gs) = ground (arith, group_exists-insert_self gs)

  parent_of-insert_old :
      (gs : List Group) (v : Uuid)
      → group_exists gs v ≡ true
      → parent_of (gs ++ g ∷ []) v ≡ parent_of gs v
  unfolding group_exists find_group parent_of
  parent_of-insert_old [] v h = cc
  parent_of-insert_old (x ∷ gs) v h = ground (arith, parent_of-insert_old gs v)

  parent_of-insert :
      (gs : List Group) (v q : Uuid)
      → parent_of (gs ++ g ∷ []) v ≡ some q
      → (parent_of gs v ≡ some q) ⊎ (g.parent_uuid ≡ some q)
  unfolding find_group parent_of
  parent_of-insert [] v q h = inr (ground arith)
  parent_of-insert (x ∷ gs) v q h = elim (Bool-cases (x.uuid == v)) [
    | inl same ↦ inl (ground arith)
    | inr other ↦ elim (parent_of-insert gs v q (ground arith)) [
      | inl k ↦ inl (ground arith)
      | inr k ↦ inr k
    ]
  ]

  IsLinked-insert :
      (root : Uuid) (gs : List Group)
      → ((p : Uuid) → g.parent_uuid ≡ some p → group_exists gs p ≡ true)
      → IsLinked root gs
      → IsLinked root (gs ++ g ∷ [])
  IsLinked-insert root gs there l = record {
    parents = λ u p h.
        group_exists-insert gs p
          (elim (parent_of-insert gs u p h) [ inl k ↦ l.parents u p k | inr k ↦ there p k ]);
    root_is = parent_of-insert_old gs root l.root_exists ∙ l.root_is;
    root_exists = group_exists-insert gs root l.root_exists;
  }

adopt_groups-append :
    (xs ys : List Placed) (s : Pass)
    → adopt_groups (xs ++ ys) s ≡ adopt_groups ys (adopt_groups xs s)
unfolding adopt_groups
adopt_groups-append [] ys s = refl
adopt_groups-append ((g, none, o) ∷ xs) ys s = adopt_groups-append xs ys s
adopt_groups-append ((g, some p, o) ∷ xs) ys s = elim (Bool-cases (group_exists s.groups g.id)) [
  | inl old ↦ rw old (adopt_groups-append xs ys s)
  | inr new ↦ rw new (adopt_groups-append xs ys _)
]

-- No group goes in the adoption.
pub adopt_groups-exists :
    (flat : List Placed) (s : Pass) (v : Uuid)
    → group_exists s.groups v ≡ true
    → group_exists (adopt_groups flat s).groups v ≡ true
unfolding adopt_groups
adopt_groups-exists [] s v h = h
adopt_groups-exists ((g, none, o) ∷ flat) s v h = adopt_groups-exists flat s v h
adopt_groups-exists ((g, some p, o) ∷ flat) s v h = elim (Bool-cases (group_exists s.groups g.id)) [
  | inl old ↦ rw old (adopt_groups-exists flat s v h)
  | inr new ↦
      rw new (adopt_groups-exists flat _ v (group_exists-insert (adopted_row g p o) s.groups v h))
]

pub length-adopt_groups :
    (flat : List Placed) (s : Pass)
    → length (adopt_groups flat s).groups ≤ length s.groups + length flat
unfolding adopt_groups
length-adopt_groups [] s = omega arith
length-adopt_groups ((g, none, o) ∷ flat) s = omega (arith, length-adopt_groups flat s)
length-adopt_groups ((g, some p, o) ∷ flat) s = elim (Bool-cases (group_exists s.groups g.id)) [
  | inl old ↦ rw old (omega (arith, length-adopt_groups flat s))
  | inr new ↦
      let next = record s {
        groups = s.groups ++ adopted_row g p o ∷ [];
        groups_added = s.groups_added ++ g.id ∷ [];
      } in
      rw new (
        omega
          (arith, length-adopt_groups flat next, length-append s.groups (adopted_row g p o ∷ [])))
]

-- The parent of a group of the peer is stored; of the peer's root, itself.
abbrev Fits : List Group → PeerGroup → Option Uuid → Type 0
Fits gs g none = group_exists gs g.id ≡ true
Fits gs g (some p) = group_exists gs p ≡ true

abbrev pub FitsTree : List Group → PeerTree → Option Uuid → Type 0
FitsTree gs (PeerTree.node g kids) parent = Fits gs g parent

fits_some :
    (gs : List Group) (t : PeerTree) (p : Uuid) → group_exists gs p ≡ true → FitsTree gs t (some p)
fits_some gs (PeerTree.node g kids) p h = h

Fits-of :
    (gs : List Group) (g : PeerGroup) (parent : Option Uuid) (p : Uuid)
    → Fits gs g parent
    → parent ≡ some p
    → group_exists gs p ≡ true
Fits-of gs g none p fits e = cc
Fits-of gs g (some q) p fits e = let is : q ≡ p = ground arith in rw (← is) fits

-- The parents of the peer's groups are stored.
abbrev pub AreHoused : List Group → List Placed → Type 0
AreHoused gs flat = All (λ x. (p : Uuid) → x.1 ≡ some p → group_exists gs p ≡ true) flat

AreHoused-adopt :
    (xs flat : List Placed) (s : Pass)
    → AreHoused s.groups flat
    → AreHoused (adopt_groups xs s).groups flat
AreHoused-adopt xs [] s h = tt
AreHoused-adopt xs (x ∷ flat) s (h, hs) =
    ((λ p e. adopt_groups-exists xs s p (h p e)), AreHoused-adopt xs flat s hs)

-- A group that is adopted or there already is stored, and the links are still in order.
adopt_one :
    (root : Uuid) (g : PeerGroup) (parent : Option Uuid) (o : ℕ) (s : Pass)
    → Fits s.groups g parent
    → IsLinked root s.groups
    → IsLinked root (adopt_groups ((g, parent, o) ∷ []) s).groups
      × (group_exists (adopt_groups ((g, parent, o) ∷ []) s).groups g.id ≡ true)
unfolding adopt_groups
adopt_one root g none o s fits l = (l, fits)
adopt_one root g (some p) o s fits l = elim (Bool-cases (group_exists s.groups g.id)) [
  | inl old ↦ rw (old, adopt_groups) (l, old)
  | inr new ↦
      let row = adopted_row g p o in
      rw (new, adopt_groups)
        (
          IsLinked-insert row root s.groups (λ q e. let is : p ≡ q = ground arith in rw (← is) fits)
              l,
          group_exists-insert_self row s.groups,
        )
]

adopt_none :
    (root : Uuid) (s : Pass) → IsLinked root s.groups → IsLinked root (adopt_groups [] s).groups
unfolding adopt_groups
adopt_none root s l = l

mutual
  unfolding collect

  -- The peer's tree is adopted with every parent stored.
  pub adopt_tree :
      (root : Uuid) (t : PeerTree) (parent : Option Uuid) (o : ℕ) (s : Pass)
      → FitsTree s.groups t parent
      → IsLinked root s.groups
      → IsLinked root (adopt_groups (collect t parent o) s).groups
        × AreHoused (adopt_groups (collect t parent o) s).groups (collect t parent o)
  adopt_tree root (PeerTree.node g kids) parent o s fits l =
      let (l1, there) = adopt_one root g parent o s fits l in
      let mid = adopt_groups ((g, parent, o) ∷ []) s in
      let flat = collect_children g.id 0 kids in
      let (l2, housed) = adopt_children root g.id 0 kids mid there l1 in
      subst (λ a. IsLinked root a.groups × AreHoused a.groups ((g, parent, o) ∷ flat))
        (sym (adopt_groups-append ((g, parent, o) ∷ []) flat s))
        (
          l2,
          (
            (λ p e. adopt_groups-exists flat mid p (
                adopt_groups-exists ((g, parent, o) ∷ []) s p
                  (Fits-of s.groups g parent p fits e))),
            housed,
          ),
        )

  adopt_children :
      (root parent : Uuid) (idx : ℕ) (ts : PeerTrees) (s : Pass)
      → group_exists s.groups parent ≡ true
      → IsLinked root s.groups
      → IsLinked root (adopt_groups (collect_children parent idx ts) s).groups
        × AreHoused
            (adopt_groups (collect_children parent idx ts) s).groups
            (collect_children parent idx ts)
  adopt_children root parent idx PeerTrees.nil s there l = (adopt_none root s l, tt)
  adopt_children root parent idx (PeerTrees.cons t ts) s there l =
      let flat = collect t (some parent) (as_u32 idx) in
      let mid = adopt_groups flat s in
      let rest = collect_children parent (suc idx) ts in
      let (l1, h1) =
        adopt_tree root t (some parent) (as_u32 idx) s (fits_some s.groups t parent there) l in
      let (l2, h2) =
        adopt_children root parent (suc idx) ts mid (adopt_groups-exists flat s parent there) l1 in
      subst (λ a. IsLinked root a.groups × AreHoused a.groups (flat ++ rest))
        (sym (adopt_groups-append flat rest s))
        (l2, All-append _ flat rest (AreHoused-adopt rest flat mid h1) h2)
