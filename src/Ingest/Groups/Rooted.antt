-- ===== src/Ingest/Groups/Rooted.antt =====
-- The passes over the peer's groups leave no group but the root without a parent
-- (`reconcile_peer_groups` of crates/keys-engine/src/ingest.rs).
use keys_core.Base.{
  ℕ, zero, suc, Option, none, some, List, [], ◌∷◌, ◌++◌, ◌≡◌, refl, arith, Bool-cases, Option-cases,
  inl, inr, is_some_of,
}
use keys_core.Base.Order.{leq, pair_ord, option_ord, int_ord, nat_ord, string_ord}
use keys_core.Vault.Tables.{Uuid, Group, ok, Result-cases, find_group, update_groups}
use keys_core.Vault.Queries.{group_exists}
use keys_core.Vault.Groups.Roots.{IsRooted, IsRooted-update, IsRooted-place, IsRooted-insert}
use keys_core.Ingest.Groups.{
  PeerGroup, PeerTree, Placed, Pass, collect, adopted_row, adopt_groups, take_metadata, take_place,
  reconcile_group_metadata, reconcile_group_location, reconcile_groups, place_in, root_id, reroot,
  find_one_cycle, victim, break_group_cycles, reconcile_peer_groups, peer_generation,
  local_generation, peer_place, local_place,
}

module _ (root : Uuid) where
  adopt_groups-IsRooted :
      (flat : List Placed) (s : Pass)
      → IsRooted root s.groups
      → IsRooted root (adopt_groups flat s).groups
  unfolding adopt_groups
  adopt_groups-IsRooted [] s r = r
  adopt_groups-IsRooted ((g, none, o) ∷ flat) s r = adopt_groups-IsRooted flat s r
  adopt_groups-IsRooted ((g, some p, o) ∷ flat) s r =
      elim (Bool-cases (group_exists s.groups g.id)) [
        | inl old ↦ rw old (adopt_groups-IsRooted flat s r)
        | inr new ↦ rw new (
            adopt_groups-IsRooted flat _
              (IsRooted-insert root p (adopted_row g p o) s.groups refl r))
      ]

  metadata-IsRooted :
      (g : PeerGroup) (s s' : Pass)
      → IsRooted root s.groups
      → reconcile_group_metadata g s ≡ ok s'
      → IsRooted root s'.groups
  unfolding reconcile_group_metadata
  metadata-IsRooted g s s' r h = elim (Option-cases (find_group s.groups g.id)) [
    | inl missing ↦ let same : s ≡ s' = ground arith in rw (← same) r
    | inr (row, found) ↦ elim (Option-cases row.icon_index) [
      | inl null ↦ absurd (ground arith)
      | inr (icon, is) ↦ elim (Bool-cases (leq (peer_generation g) (local_generation row icon))) [
        | inl older ↦ let same : s ≡ s' = ground arith in rw (← same) r
        | inr newer ↦
            let f = take_metadata g in
            let same : update_groups g.id f s.groups ≡ s'.groups = ground arith in
            rw (← same) (IsRooted-update root f (λ x. refl) (λ x e. e) g.id s.groups r)
      ]
    ]
  ]

  location-IsRooted :
      (parent : Uuid) (g : PeerGroup) (s : Pass)
      → IsRooted root s.groups
      → IsRooted root (reconcile_group_location g parent s).groups
  unfolding reconcile_group_location
  location-IsRooted parent g s r = elim (Option-cases (find_group s.groups g.id)) [
    | inl missing ↦ rw (missing, reconcile_group_location) r
    | inr (row, found) ↦ elim (Bool-cases (leq (peer_place g parent) (local_place row))) [
      | inl older ↦ rw (found, older, reconcile_group_location) r
      | inr newer ↦ elim (Bool-cases (is_some_of row.parent_uuid parent)) [
        | inl same ↦ rw (found, newer, same, reconcile_group_location) r
        | inr moves ↦
            rw (found, newer, moves, reconcile_group_location)
              (IsRooted-place root parent (take_place g parent) (λ x. refl) (λ x. refl) g.id
                s.groups r)
      ]
    ]
  ]

  place-IsRooted :
      (g : PeerGroup) (parent : Option Uuid) (s : Pass)
      → IsRooted root s.groups
      → IsRooted root (place_in g parent s).groups
  place-IsRooted g none s r = r
  place-IsRooted g (some p) s r = location-IsRooted p g s r

  groups-IsRooted :
      (flat : List Placed) (s s' : Pass)
      → IsRooted root s.groups
      → reconcile_groups flat s ≡ ok s'
      → IsRooted root s'.groups
  unfolding reconcile_groups
  groups-IsRooted [] s s' r h = let same : s ≡ s' = ground arith in rw (← same) r
  groups-IsRooted ((g, parent, o) ∷ flat) s s' r h =
      elim (Result-cases (reconcile_group_metadata g s)) [
        | inl (e, failed) ↦ absurd (ground arith)
        | inr (mid, is) ↦
            groups-IsRooted flat (place_in g parent mid) s'
              (place-IsRooted g parent mid (metadata-IsRooted g s mid r is)) (ground arith)
      ]

  module _ (keys : List Group → List Uuid) where
    break_group_cycles-IsRooted :
        (rounds fuel : ℕ) (s done : Pass)
        → IsRooted root s.groups
        → break_group_cycles keys rounds fuel root s ≡ some done
        → IsRooted root done.groups
    unfolding break_group_cycles
    break_group_cycles-IsRooted rounds zero s done r h = cc
    break_group_cycles-IsRooted rounds (suc fuel) s done r h =
        elim (Option-cases (find_one_cycle rounds s.groups (keys s.groups))) [
          | inl stuck ↦ absurd (ground arith)
          | inr (none, off) ↦ let same : s ≡ done = ground arith in rw (← same) r
          | inr (some [], off) ↦ let same : s ≡ done = ground arith in rw (← same) r
          | inr (some (u ∷ us), found) ↦
              let v = victim u us in
              break_group_cycles-IsRooted rounds fuel
                (record s {
                  groups = update_groups v (reroot root) s.groups;
                  groups_moved = s.groups_moved ++ v ∷ [];
                })
                done (IsRooted-place root root (reroot root) (λ x. refl) (λ x. refl) v s.groups r)
                (rw (found, break_group_cycles) at h)
        ]

-- A mirror that comes of the peer's groups has no group without a parent but the root.
pub reconcile_peer_groups-IsRooted :
    (keys : List Group → List Uuid) (fuel : ℕ) (peer : PeerTree) (s done : Pass)
    → IsRooted (root_id peer) s.groups
    → reconcile_peer_groups keys fuel peer s ≡ some (ok done)
    → IsRooted (root_id peer) done.groups
unfolding reconcile_peer_groups
reconcile_peer_groups-IsRooted keys fuel peer s done r h =
    let root = root_id peer in
    let flat = collect peer none 0 in
    let grown = adopt_groups flat s in
    elim (Result-cases (reconcile_groups flat grown)) [
      | inl (e, failed) ↦ absurd (ground arith)
      | inr (mid, is) ↦
          break_group_cycles-IsRooted root keys fuel fuel mid done
            (groups-IsRooted root flat grown mid (adopt_groups-IsRooted root flat s r) is)
            (elim (Option-cases (break_group_cycles keys fuel fuel root mid)) [
              | inl stuck ↦ absurd (ground arith)
              | inr (d, ran) ↦ ground arith
            ])
    ]
