-- ===== src/Ingest/Groups/Succeeds.antt =====
-- The reconciliation of a peer's groups goes through where every row has a built-in icon
-- (`reconcile_peer_groups` of crates/keys-engine/src/ingest.rs).
use keys_core.Base.{
  ℕ, ◌+◌, ◌<◌, Option, none, some, List, [], ◌∷◌, ◌++◌, ◌==◌, ◌≡◌, ◌≢◌, refl, subst, arith,
  Bool-cases, Option-cases, inl, inr, All, All-append, length, is_some_of,
}
use keys_core.Base.Order.{leq, pair_ord, option_ord, int_ord, nat_ord, string_ord}
use keys_core.Vault.Tables.{
  Uuid, Group, EngineError, ok, err, Result-cases, find_group, update_groups,
}
use keys_core.Vault.Queries.{group_exists}
use keys_core.Vault.Groups.Ancestors.{IsTree}
use keys_core.Vault.Groups.Roots.{IsRooted}
use keys_core.Ingest.Groups.Rooted.{reconcile_peer_groups-IsRooted}
use keys_core.Ingest.Groups.{
  PeerGroup, PeerTree, Placed, Pass, collect, adopt_groups, adopted_row, take_metadata, take_place,
  reconcile_group_metadata, reconcile_group_location, reconcile_groups, place_in, root_id,
  reconcile_peer_groups, peer_generation, local_generation, peer_place, local_place,
}
use keys_core.Ingest.Groups.Cycles.{AreKeys, IsLinked}
use keys_core.Ingest.Groups.Links.{AreBelow, reconcile_peer_groups-IsTree}

-- The row's icon_index is not NULL.
abbrev pub HasIcon : Group → Type 0
HasIcon g = (icon : ℕ) × (g.icon_index ≡ some icon)

abbrev pub HaveIcons : List Group → Type 0
HaveIcons gs = All HasIcon gs

find_group-HasIcon :
    (gs : List Group) (u : Uuid) (g : Group) → HaveIcons gs → find_group gs u ≡ some g → HasIcon g
unfolding find_group
find_group-HasIcon [] u g h e = cc
find_group-HasIcon (x ∷ gs) u g (h, hs) e = elim (Bool-cases (x.uuid == u)) [
  | inl same ↦ subst HasIcon (let is : x ≡ g = ground arith in is) h
  | inr other ↦ find_group-HasIcon gs u g hs (ground arith)
]

HaveIcons-update :
    (f : Group → Group) (u : Uuid) (gs : List Group)
    → ((g : Group) → HasIcon g → HasIcon (f g))
    → HaveIcons gs
    → HaveIcons (update_groups u f gs)
unfolding update_groups
HaveIcons-update f u [] keeps h = tt
HaveIcons-update f u (g ∷ gs) keeps (h, hs) = elim (Bool-cases (g.uuid == u)) [
  | inl same ↦ rw same (keeps g h, HaveIcons-update f u gs keeps hs)
  | inr other ↦ rw other (h, HaveIcons-update f u gs keeps hs)
]

adopt_groups-HaveIcons :
    (flat : List Placed) (s : Pass) → HaveIcons s.groups → HaveIcons (adopt_groups flat s).groups
unfolding adopt_groups
adopt_groups-HaveIcons [] s h = h
adopt_groups-HaveIcons ((g, none, o) ∷ flat) s h = adopt_groups-HaveIcons flat s h
adopt_groups-HaveIcons ((g, some p, o) ∷ flat) s h =
    elim (Bool-cases (group_exists s.groups g.id)) [
      | inl old ↦ rw (old, adopt_groups) (adopt_groups-HaveIcons flat s h)
      | inr new ↦
          rw (new, adopt_groups)
            (adopt_groups-HaveIcons flat _
              (All-append HasIcon s.groups (adopted_row g p o ∷ []) h ((g.icon_id, refl), tt)))
    ]

metadata-HaveIcons :
    (g : PeerGroup) (s : Pass)
    → HaveIcons s.groups
    → (s' : Pass) × (reconcile_group_metadata g s ≡ ok s') × HaveIcons s'.groups
unfolding reconcile_group_metadata
metadata-HaveIcons g s h = elim (Option-cases (find_group s.groups g.id)) [
  | inl missing ↦ (s, ground arith, h)
  | inr (row, found) ↦
      let (icon, is) = find_group-HasIcon s.groups g.id row h found in
      elim (Bool-cases (leq (peer_generation g) (local_generation row icon))) [
        | inl older ↦ (s, ground arith, h)
        | inr newer ↦
            let f = take_metadata g in
            (
              record s {
                groups = update_groups g.id f s.groups;
                groups_updated = s.groups_updated ++ g.id ∷ [];
              },
              ground arith,
              HaveIcons-update f g.id s.groups (λ x k. (g.icon_id, refl)) h,
            )
      ]
]

location-HaveIcons :
    (g : PeerGroup) (p : Uuid) (s : Pass)
    → HaveIcons s.groups
    → HaveIcons (reconcile_group_location g p s).groups
unfolding reconcile_group_location
location-HaveIcons g p s h = elim (Option-cases (find_group s.groups g.id)) [
  | inl missing ↦ rw (missing, reconcile_group_location) h
  | inr (row, found) ↦ elim (Bool-cases (leq (peer_place g p) (local_place row))) [
    | inl older ↦ rw (found, older, reconcile_group_location) h
    | inr newer ↦ elim (Bool-cases (is_some_of row.parent_uuid p)) [
      | inl same ↦ rw (found, newer, same, reconcile_group_location) h
      | inr moves ↦
          rw (found, newer, moves, reconcile_group_location)
            (HaveIcons-update (take_place g p) g.id s.groups (λ x k. k) h)
    ]
  ]
]

place-HaveIcons :
    (g : PeerGroup) (parent : Option Uuid) (s : Pass)
    → HaveIcons s.groups
    → HaveIcons (place_in g parent s).groups
place-HaveIcons g none s h = h
place-HaveIcons g (some p) s h = location-HaveIcons g p s h

groups-HaveIcons :
    (flat : List Placed) (s : Pass)
    → HaveIcons s.groups
    → (s' : Pass) × (reconcile_groups flat s ≡ ok s')
unfolding reconcile_groups
groups-HaveIcons [] s h = (s, refl)
groups-HaveIcons ((g, parent, o) ∷ flat) s h =
    let (mid, is, k) = metadata-HaveIcons g s h in
    let (done, ran) =
      groups-HaveIcons flat (place_in g parent mid) (place-HaveIcons g parent mid k) in
    (done, rw (is, reconcile_groups) ran)

module _ (keys : List Group → List Uuid) where
  not_err :
      (fuel : ℕ) (peer : PeerTree) (s : Pass) (e : EngineError)
      → HaveIcons s.groups
      → reconcile_peer_groups keys fuel peer s ≢ some (err e)
  unfolding reconcile_peer_groups
  not_err fuel peer s e h failed =
      let flat = collect peer none 0 in
      let (mid, is) =
        groups-HaveIcons flat (adopt_groups flat s) (adopt_groups-HaveIcons flat s h) in
      ground (arith, is, failed)

  -- Where no row's icon_index is NULL, every link is to a stored group, the mirror has the peer's root,
  -- which alone has no parent and whose id no other group of the peer has, and the map's keys are all
  -- there: with more fuel than the groups of both sides together the reconciliation succeeds, and the
  -- groups are a tree below the same root: every chain of parents ends, every parent is stored, and the
  -- root is stored and alone without one.
  pub reconcile_peer_groups_succeeds :
      (fuel : ℕ) (peer : PeerTree) (s : Pass)
      → AreKeys keys
      → length s.groups + length (collect peer none 0) < fuel
      → IsLinked (root_id peer) s.groups
      → AreBelow (root_id peer) (collect peer none 0)
      → HaveIcons s.groups
      → IsRooted (root_id peer) s.groups
      → (done : Pass) × (reconcile_peer_groups keys fuel peer s ≡ some (ok done))
        × IsTree done.groups
        × IsLinked (root_id peer) done.groups
        × IsRooted (root_id peer) done.groups
  reconcile_peer_groups_succeeds fuel peer s complete le l below icons rooted =
      let (r, ran, good) = reconcile_peer_groups-IsTree keys fuel peer s complete le l below in
      elim (Result-cases r) [
        | inl (e, is) ↦ absurd (not_err fuel peer s e icons (rw (← is) ran))
        | inr (done, is) ↦
            let (t, links) = good done is in
            let ok_ran : reconcile_peer_groups keys fuel peer s ≡ some (ok done) = rw (← is) ran in
            (
              done,
              ok_ran,
              t,
              links,
              reconcile_peer_groups-IsRooted keys fuel peer s done rooted ok_ran,
            )
      ]
