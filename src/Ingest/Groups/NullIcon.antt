-- ===== src/Ingest/Groups/NullIcon.antt =====
-- A group with a custom icon of its own in the mirror (`update_group` of
-- crates/keys-engine/src/mutations.rs), when a peer's groups are reconciled
-- (`reconcile_peer_groups` of crates/keys-engine/src/ingest.rs).
use keys_core.Base.{
  ℕ, Option, none, some, List, [], ◌∷◌, ◌++◌, ◌==◌, ◌≡◌, ◌≢◌, refl, sym, ◌∙◌, ap, subst, arith,
  Bool-cases, Option-cases, inl, inr, ==_iff, Any, is_some_of,
}
use keys_core.Base.Order.{leq, pair_ord, option_ord, int_ord, nat_ord, string_ord}
use keys_core.Vault.Tables.{
  Uuid, Millis, Db, Group, ok, err, sqlite, Result-cases, find_group, update_groups, custom,
}
use keys_core.Vault.Queries.{group_exists}
use keys_core.Vault.Groups.{
  GroupUpdate, update_group, set_name, set_notes, set_icon, set_expiry, touch,
}
use keys_core.Vault.Rows.{find_group-update_self}
use keys_core.Vault.Reach.{set_name-keeps, set_notes-keeps, set_icon-keeps, set_expiry-keeps}
use keys_core.Ingest.Groups.{
  PeerGroup, PeerTree, Placed, Pass, collect, adopt_groups, adopted_row, take_metadata, take_place,
  reconcile_group_metadata, reconcile_group_location, reconcile_groups, place_in,
  reconcile_peer_groups, peer_generation, local_generation, peer_place, local_place,
}

-- The row's icon_index is NULL.
pub record HasNullIcon (gs : List Group) (u : Uuid) : Type 0 where
  pub row : Group
  pub found : find_group gs u ≡ some row
  pub null : row.icon_index ≡ none

module _ (f : Group → Group) (keeps : (g : Group) → (f g).uuid ≡ g.uuid) where
  find_group-update_ne :
      (gs : List Group) (u v : Uuid) → v ≢ u → find_group (update_groups u f gs) v ≡ find_group gs v
  unfolding find_group update_groups
  find_group-update_ne [] u v h = refl
  find_group-update_ne (g ∷ gs) u v h = ground (arith, find_group-update_ne gs u v h, keeps g)

  -- An update that leaves the icon alone, of any row.
  HasNullIcon-update :
      (gs : List Group) (u v : Uuid)
      → ((g : Group) → (f g).icon_index ≡ g.icon_index)
      → HasNullIcon gs v
      → HasNullIcon (update_groups u f gs) v
  HasNullIcon-update gs u v same n = elim (Bool-cases (v == u)) [
    | inl is ↦
        let i : v ≡ u = (==_iff v u).0 is in
        record {
          row = f n.row;
          found = rw (← i) (find_group-update_self f keeps gs v n.row n.found);
          null = same n.row ∙ n.null;
        }
    | inr other ↦ record {
      row = n.row;
      found = find_group-update_ne gs u v (λ i. ground arith) ∙ n.found;
      null = n.null;
    }
  ]

  HasNullIcon-update_ne :
      (gs : List Group) (u v : Uuid)
      → v ≢ u
      → HasNullIcon gs v
      → HasNullIcon (update_groups u f gs) v
  HasNullIcon-update_ne gs u v ne n = record {
    row = n.row;
    found = find_group-update_ne gs u v ne ∙ n.found;
    null = n.null;
  }

find_group-insert :
    (g row : Group) (gs : List Group) (u : Uuid)
    → find_group gs u ≡ some row
    → find_group (gs ++ g ∷ []) u ≡ some row
unfolding find_group
find_group-insert g row [] u h = cc
find_group-insert g row (x ∷ gs) u h = ground (arith, find_group-insert g row gs u)

HasNullIcon-adopt :
    (flat : List Placed) (s : Pass) (u : Uuid)
    → HasNullIcon s.groups u
    → HasNullIcon (adopt_groups flat s).groups u
unfolding adopt_groups
HasNullIcon-adopt [] s u n = n
HasNullIcon-adopt ((g, none, o) ∷ flat) s u n = HasNullIcon-adopt flat s u n
HasNullIcon-adopt ((g, some p, o) ∷ flat) s u n = elim (Bool-cases (group_exists s.groups g.id)) [
  | inl old ↦ rw (old, adopt_groups) (HasNullIcon-adopt flat s u n)
  | inr new ↦
      rw (new, adopt_groups)
        (HasNullIcon-adopt flat _ u (record {
          row = n.row;
          found = find_group-insert (adopted_row g p o) n.row s.groups u n.found;
          null = n.null;
        }))
]

HasNullIcon-location :
    (g : PeerGroup) (p : Uuid) (s : Pass) (u : Uuid)
    → HasNullIcon s.groups u
    → HasNullIcon (reconcile_group_location g p s).groups u
unfolding reconcile_group_location
HasNullIcon-location g p s u n = elim (Option-cases (find_group s.groups g.id)) [
  | inl missing ↦ rw (missing, reconcile_group_location) n
  | inr (row, found) ↦ elim (Bool-cases (leq (peer_place g p) (local_place row))) [
    | inl older ↦ rw (found, older, reconcile_group_location) n
    | inr newer ↦ elim (Bool-cases (is_some_of row.parent_uuid p)) [
      | inl same ↦ rw (found, newer, same, reconcile_group_location) n
      | inr moves ↦
          rw (found, newer, moves, reconcile_group_location)
            (HasNullIcon-update (take_place g p) (λ x. refl) s.groups g.id u (λ x. refl) n)
    ]
  ]
]

HasNullIcon-place :
    (g : PeerGroup) (parent : Option Uuid) (s : Pass) (u : Uuid)
    → HasNullIcon s.groups u
    → HasNullIcon (place_in g parent s).groups u
HasNullIcon-place g none s u n = n
HasNullIcon-place g (some p) s u n = HasNullIcon-location g p s u n

HasNullIcon-metadata :
    (g : PeerGroup) (s s' : Pass) (u : Uuid)
    → u ≢ g.id
    → HasNullIcon s.groups u
    → reconcile_group_metadata g s ≡ ok s'
    → HasNullIcon s'.groups u
unfolding reconcile_group_metadata
HasNullIcon-metadata g s s' u ne n h = elim (Option-cases (find_group s.groups g.id)) [
  | inl missing ↦ let same : s ≡ s' = ground arith in rw (← same) n
  | inr (row, found) ↦ elim (Option-cases row.icon_index) [
    | inl null ↦ absurd (ground arith)
    | inr (icon, is) ↦ elim (Bool-cases (leq (peer_generation g) (local_generation row icon))) [
      | inl older ↦ let same : s ≡ s' = ground arith in rw (← same) n
      | inr newer ↦
          let same : update_groups g.id (take_metadata g) s.groups ≡ s'.groups = ground arith in
          rw (← same) (HasNullIcon-update_ne (take_metadata g) (λ x. refl) s.groups g.id u ne n)
    ]
  ]
]

metadata_error :
    (g : PeerGroup) (s : Pass) (e : _)
    → reconcile_group_metadata g s ≡ err e
    → reconcile_group_metadata g s ≡ err sqlite
unfolding reconcile_group_metadata
metadata_error g s e h = ground arith

metadata_null :
    (g : PeerGroup) (s : Pass)
    → HasNullIcon s.groups g.id
    → reconcile_group_metadata g s ≡ err sqlite
unfolding reconcile_group_metadata
metadata_null g s n = rw (n.found, n.null, reconcile_group_metadata) refl

reconcile_groups-null :
    (flat : List Placed) (s : Pass) (u : Uuid)
    → Any (λ x. x.0.id ≡ u) flat
    → HasNullIcon s.groups u
    → reconcile_groups flat s ≡ err sqlite
unfolding reconcile_groups
reconcile_groups-null [] s u k n = elim k [ ]
reconcile_groups-null ((g, parent, o) ∷ flat) s u (inl i) n =
    rw (metadata_null g s (subst (λ x. HasNullIcon s.groups x) (sym i) n), reconcile_groups) refl
reconcile_groups-null ((g, parent, o) ∷ flat) s u (inr k) n = elim (Bool-cases (u == g.id)) [
  | inl same ↦
      let is : u ≡ g.id = (==_iff u g.id).0 same in
      rw (metadata_null g s (subst (λ x. HasNullIcon s.groups x) is n), reconcile_groups) refl
  | inr other ↦ elim (Result-cases (reconcile_group_metadata g s)) [
    | inl (e, failed) ↦ rw (metadata_error g s e failed, reconcile_groups) refl
    | inr (mid, is) ↦
        let kept = HasNullIcon-metadata g s mid u (λ i. ground arith) n is in
        let placed = HasNullIcon-place g parent mid u kept in
        rw (is, reconcile_groups) (reconcile_groups-null flat (place_in g parent mid) u k placed)
  ]
]

icon_index-set_expiry :
    (o : Option (Option Millis)) (g : Group) → (set_expiry o g).icon_index ≡ g.icon_index
icon_index-set_expiry none g = refl
icon_index-set_expiry (some t) g = refl

update_group-HasNullIcon :
    (db db' : Db) (u c : Uuid) (upd : GroupUpdate) (now : Millis)
    → upd.icon ≡ some (custom c)
    → update_group db u upd now ≡ ok db'
    → HasNullIcon db'.groups u
unfolding update_group group_exists
update_group-HasNullIcon db db' u c upd now icon h = elim (Option-cases (find_group db.groups u)) [
  | inl missing ↦ absurd (ground arith)
  | inr (g, found) ↦
      let named = update_groups u (set_name upd.name) db.groups in
      let noted = update_groups u (set_notes upd.notes) named in
      let pictured = update_groups u (set_icon upd.icon) noted in
      let dated = update_groups u (set_expiry upd.expires_at) pictured in
      let same : db'.groups ≡ update_groups u (touch now) dated = ground arith in
      let g1 = set_name upd.name g in
      let g2 = set_notes upd.notes g1 in
      let g3 = set_icon upd.icon g2 in
      let f1 =
        find_group-update_self (set_name upd.name) (λ x. (set_name-keeps upd.name x).0) db.groups u
          g found in
      let f2 =
        find_group-update_self (set_notes upd.notes) (λ x. (set_notes-keeps upd.notes x).0) named u
          g1 f1 in
      let f3 =
        find_group-update_self (set_icon upd.icon) (λ x. (set_icon-keeps upd.icon x).0) noted u g2
          f2 in
      let f4 =
        find_group-update_self (set_expiry upd.expires_at)
          (λ x. (set_expiry-keeps upd.expires_at x).0) pictured u g3 f3 in
      let f5 =
        find_group-update_self (touch now) (λ x. refl) dated u (set_expiry upd.expires_at g3) f4 in
      record {
        row = touch now (set_expiry upd.expires_at g3);
        found = rw same f5;
        null = icon_index-set_expiry upd.expires_at g3 ∙ ap (λ i. (set_icon i g2).icon_index) icon;
      }
]

-- After update_group gives a group a custom icon, a peer that has the group is refused: the pass over
-- the peer's groups in that mirror is an error.
pub update_group-refused :
    (keys : List Group → List Uuid) (fuel : ℕ) (peer : PeerTree) (db db' : Db) (u c : Uuid)
    (upd : GroupUpdate) (now : Millis) (s : Pass)
    → upd.icon ≡ some (custom c)
    → update_group db u upd now ≡ ok db'
    → s.groups ≡ db'.groups
    → Any (λ x. x.0.id ≡ u) (collect peer none 0)
    → reconcile_peer_groups keys fuel peer s ≡ some (err sqlite)
unfolding reconcile_peer_groups
update_group-refused keys fuel peer db db' u c upd now s icon h is k =
    let null = update_group-HasNullIcon db db' u c upd now icon h in
    let kept = HasNullIcon-adopt (collect peer none 0) s u (rw is null) in
    rw (reconcile_groups-null (collect peer none 0) (adopt_groups (collect peer none 0) s) u k kept)
      refl
