-- ===== src/Ingest/Groups/Links.antt =====
-- The reconciled groups are a tree (`reconcile_peer_groups` of crates/keys-engine/src/ingest.rs).
use keys_core.Base.{
  ℕ, ◌+◌, ◌<◌, true, Option, none, some, List, [], ◌∷◌, ◌≡◌, ◌≢◌, refl, sym, ◌∙◌, arith, Bool-cases,
  Option-cases, inl, inr, All, length, is_some_of,
}
use keys_core.Base.Order.{leq, pair_ord, option_ord, int_ord, nat_ord, string_ord}
use keys_core.Vault.Tables.{Uuid, Group, Result, ok, err, Result-cases, find_group, update_groups}
use keys_core.Vault.Queries.{group_exists}
use keys_core.Vault.Groups.Ancestors.{
  IsTree, ParentsExist-update, group_exists-update, parent_of-update_ne,
}
use keys_core.Vault.Reach.{parent_of-update_same, group_exists-update_same}
use keys_core.Ingest.Groups.{
  PeerGroup, PeerTree, Placed, Pass, collect, adopt_groups, take_metadata, take_place,
  reconcile_group_metadata, reconcile_group_location, reconcile_groups, place_in, root_id,
  reconcile_peer_groups, peer_generation, local_generation, peer_place, local_place,
}
use keys_core.Ingest.Groups.Cycles.{
  AreKeys, IsLinked, away_le, length-update_groups, break_group_cycles-IsTree,
}
use keys_core.Ingest.Groups.Adoption.{AreHoused, FitsTree, adopt_tree, length-adopt_groups}

-- What pass 2 keeps of the groups at its start.
record IsKept (root : Uuid) (gs gs' : List Group) : Type 0 where
  links : IsLinked root gs'
  stored : (v : Uuid) → group_exists gs' v ≡ group_exists gs v
  count : length gs' ≡ length gs

IsKept-refl : (root : Uuid) (gs : List Group) → IsLinked root gs → IsKept root gs gs
IsKept-refl root gs l = record { links = l; stored = λ v. refl; count = refl }

IsKept-metadata :
    (root : Uuid) (g : PeerGroup) (gs : List Group)
    → IsLinked root gs
    → IsKept root gs (update_groups g.id (take_metadata g) gs)
IsKept-metadata root g gs l =
    let f = take_metadata g in
    let links = parent_of-update_same f (λ x. refl) (λ x. refl) gs g.id in
    let rows = group_exists-update_same f (λ x. refl) (λ x. refl) gs g.id in
    record {
      links = record {
        parents = λ u p h. rows p ∙ l.parents u p (sym (links u) ∙ h);
        root_is = links root ∙ l.root_is;
        root_exists = rows root ∙ l.root_exists;
      };
      stored = rows;
      count = length-update_groups g.id f gs;
    }

IsKept-location :
    (root parent : Uuid) (g : PeerGroup) (gs : List Group)
    → group_exists gs g.id ≡ true
    → group_exists gs parent ≡ true
    → root ≢ g.id
    → IsLinked root gs
    → IsKept root gs (update_groups g.id (take_place g parent) gs)
IsKept-location root parent g gs here there ne l =
    let f = take_place g parent in
    record {
      links = record {
        parents = ParentsExist-update f parent (λ x. refl) (λ x. refl) gs g.id here there l.parents;
        root_is = parent_of-update_ne f parent (λ x. refl) (λ x. refl) gs g.id root ne ∙ l.root_is;
        root_exists = group_exists-update f (λ x. refl) gs g.id root ∙ l.root_exists;
      };
      stored = group_exists-update f (λ x. refl) gs g.id;
      count = length-update_groups g.id f gs;
    }

metadata-IsKept :
    (root : Uuid) (g : PeerGroup) (s s' : Pass)
    → IsLinked root s.groups
    → reconcile_group_metadata g s ≡ ok s'
    → IsKept root s.groups s'.groups
unfolding reconcile_group_metadata
metadata-IsKept root g s s' l h = elim (Option-cases (find_group s.groups g.id)) [
  | inl missing ↦ let same : s ≡ s' = ground arith in rw (← same) (IsKept-refl root s.groups l)
  | inr (row, found) ↦ elim (Option-cases row.icon_index) [
    | inl null ↦ absurd (ground arith)
    | inr (icon, is) ↦ elim (Bool-cases (leq (peer_generation g) (local_generation row icon))) [
      | inl older ↦ let same : s ≡ s' = ground arith in rw (← same) (IsKept-refl root s.groups l)
      | inr newer ↦
          let same : update_groups g.id (take_metadata g) s.groups ≡ s'.groups = ground arith in
          rw (← same) (IsKept-metadata root g s.groups l)
    ]
  ]
]

location-IsKept :
    (root parent : Uuid) (g : PeerGroup) (s : Pass)
    → group_exists s.groups parent ≡ true
    → root ≢ g.id
    → IsLinked root s.groups
    → IsKept root s.groups (reconcile_group_location g parent s).groups
unfolding reconcile_group_location
location-IsKept root parent g s there ne l = elim (Option-cases (find_group s.groups g.id)) [
  | inl missing ↦ rw (missing, reconcile_group_location) (IsKept-refl root s.groups l)
  | inr (row, found) ↦
      let here : group_exists s.groups g.id ≡ true = unfold group_exists in ground arith in
      elim (Bool-cases (leq (peer_place g parent) (local_place row))) [
        | inl older ↦ rw (found, older, reconcile_group_location) (IsKept-refl root s.groups l)
        | inr newer ↦ elim (Bool-cases (is_some_of row.parent_uuid parent)) [
          | inl same ↦
              rw (found, newer, same, reconcile_group_location) (IsKept-refl root s.groups l)
          | inr moves ↦
              rw (found, newer, moves, reconcile_group_location)
                (IsKept-location root parent g s.groups here there ne l)
        ]
      ]
]

-- The groups below the peer's root are not the root of the mirror.
abbrev pub AreBelow : Uuid → List Placed → Type 0
AreBelow root flat = All (λ x. (p : Uuid) → x.1 ≡ some p → root ≢ x.0.id) flat

place-IsKept :
    (root : Uuid) (g : PeerGroup) (parent : Option Uuid) (s : Pass)
    → ((p : Uuid) → parent ≡ some p → group_exists s.groups p ≡ true)
    → ((p : Uuid) → parent ≡ some p → root ≢ g.id)
    → IsLinked root s.groups
    → IsKept root s.groups (place_in g parent s).groups
place-IsKept root g none s there ne l = IsKept-refl root s.groups l
place-IsKept root g (some p) s there ne l = location-IsKept root p g s (there p refl) (ne p refl) l

AreHoused-same :
    (gs gs' : List Group) (flat : List Placed)
    → ((v : Uuid) → group_exists gs' v ≡ group_exists gs v)
    → AreHoused gs flat
    → AreHoused gs' flat
AreHoused-same gs gs' [] same h = tt
AreHoused-same gs gs' (x ∷ flat) same (h, hs) =
    ((λ p e. same p ∙ h p e), AreHoused-same gs gs' flat same hs)

groups-IsKept :
    (root : Uuid) (flat : List Placed) (s s' : Pass)
    → AreHoused s.groups flat
    → AreBelow root flat
    → IsLinked root s.groups
    → reconcile_groups flat s ≡ ok s'
    → IsKept root s.groups s'.groups
unfolding reconcile_groups
groups-IsKept root [] s s' housed below l h =
    let same : s ≡ s' = ground arith in rw (← same) (IsKept-refl root s.groups l)
groups-IsKept root ((g, parent, o) ∷ flat) s s' (there, housed) (ne, below) l h =
    elim (Result-cases (reconcile_group_metadata g s)) [
      | inl (e, failed) ↦ absurd (ground arith)
      | inr (mid, is) ↦
          let k1 = metadata-IsKept root g s mid l is in
          let next = place_in g parent mid in
          let k2 = place-IsKept root g parent mid (λ p e. k1.stored p ∙ there p e) ne k1.links in
          let same : (v : Uuid) → group_exists next.groups v ≡ group_exists s.groups v =
            λ v. k2.stored v ∙ k1.stored v in
          let k3 =
            groups-IsKept root flat next s' (AreHoused-same s.groups next.groups flat same housed)
              below k2.links (ground arith) in
          record {
            links = k3.links;
            stored = λ v. k3.stored v ∙ same v;
            count = k3.count ∙ k2.count ∙ k1.count;
          }
    ]

module _ (keys : List Group → List Uuid) where
  -- Where the links are to stored groups, the peer has the mirror's root, which has no parent, and no
  -- other group of the peer has its id, and the map's keys are all there: with more fuel than the groups
  -- of both sides together the peer's groups are reconciled or refused, and a mirror that comes of it
  -- is a tree below the same root.
  pub reconcile_peer_groups-IsTree :
      (fuel : ℕ) (peer : PeerTree) (s : Pass)
      → AreKeys keys
      → length s.groups + length (collect peer none 0) < fuel
      → IsLinked (root_id peer) s.groups
      → AreBelow (root_id peer) (collect peer none 0)
      → (r : Result Pass) × (reconcile_peer_groups keys fuel peer s ≡ some r)
        × ((done : Pass) → r ≡ ok done → IsTree done.groups × IsLinked (root_id peer) done.groups)
  unfolding reconcile_peer_groups
  reconcile_peer_groups-IsTree fuel peer s complete le l below =
      let root = root_id peer in
      let flat = collect peer none 0 in
      let grown = adopt_groups flat s in
      let (l1, housed) = adopt_tree root peer none 0 s (fits_root peer s l) l in
      elim (Result-cases (reconcile_groups flat grown)) [
        | inl (e, failed) ↦ (err e, ground arith, λ done h. absurd (ground arith))
        | inr (mid, is) ↦
            let k = groups-IsKept root flat grown mid housed below l1 is in
            let small : length mid.groups < fuel =
              omega (arith, le, k.count, length-adopt_groups flat s) in
            let (done, ran, t, linked, same) =
              break_group_cycles-IsTree keys complete fuel fuel root mid small
                (omega (arith, small, away_le root mid.groups)) k.links in
            (
              ok done,
              ground arith,
              λ d h. let is_done : done ≡ d = ground arith in rw (← is_done) (t, linked),
            )
      ]
    where
      fits_root :
          (t : PeerTree) (x : Pass) → IsLinked (root_id t) x.groups → FitsTree x.groups t none
      fits_root (PeerTree.node g kids) x m = m.root_exists
