-- ===== src/Ingest/Groups/Replicas.antt =====
-- Two mirrors that take over each other's version of one group
-- (`reconcile_group_metadata` and `reconcile_group_location` of crates/keys-engine/src/ingest.rs on a
-- group that crates/keys-engine/src/projection.rs has read from the other's row).
use keys_core.Base.{
  ℕ, Bool, true, false, Option, none, some, List, ◌≡◌, refl, sym, ◌∙◌, ap, if◌then◌else◌, arith,
  Bool-cases, inl, inr, is_some_of, ◌^◌, ◌-◌, leb,
}
use keys_core.Base.Order.{
  leq, later, later_comm, pair_ord, option_ord, int_ord, nat_ord, string_ord,
}
use keys_core.Vault.Tables.{Uuid, Millis, Group, ok, find_group, update_groups}
use keys_core.Vault.Rows.{find_group-update_self}
use keys_core.Ingest.{
  floor_to_second, floor_to_second_idem, floored_idem, ms_to_dt, then_ms_to_dt, IsDate, AreDates,
  ms_to_dt-IsDate, then_ms_to_dt-AreDates,
}
use keys_core.Ingest.Groups.{
  PeerGroup, Pass, take_metadata, take_place, reconcile_group_metadata, reconcile_group_location,
  peer_generation, local_generation, peer_place, local_place,
}

-- `builtin_icon_index` (crates/keys-engine/src/util/row.rs).
unfoldable pub builtin_icon_index : Option ℕ → ℕ
builtin_icon_index none = 0
builtin_icon_index (some idx) = if leb idx (2 ^ 32 - 1) then idx else 0

abbrev is_some {ℓ} : {A : Type ℓ} → Option A → Bool
is_some none = false
is_some (some a) = true

-- The group of `build_subtree`, with the stamps of `build_times`.
abbrev pub projected : (Millis → Bool) → Group → PeerGroup
projected in_range row = record {
  id = row.uuid;
  name = row.name;
  notes = row.notes;
  icon_id = builtin_icon_index row.icon_index;
  custom_icon_uuid = row.icon_custom_uuid;
  creation_time = ms_to_dt in_range row.created_at;
  last_modification_time = ms_to_dt in_range row.modified_at;
  expires = is_some row.expires_at;
  expiry_time = then_ms_to_dt in_range row.expires_at;
  location_changed = then_ms_to_dt in_range row.location_changed_at;
}

-- A built-in icon index in the range of a u32.
abbrev IsU32 : ℕ → Type 0
IsU32 n = leb n (2 ^ 32 - 1) ≡ true

builtin_icon_index-u32 : (icon : ℕ) → IsU32 icon → builtin_icon_index (some icon) ≡ icon
unfolding builtin_icon_index
builtin_icon_index-u32 icon h = rw h refl

-- The version that the peer sees of a row.
peer_generation-projected :
    (in_range : Millis → Bool) (row : Group) (icon : ℕ)
    → IsDate in_range row.modified_at
    → row.icon_index ≡ some icon
    → IsU32 icon
    → peer_generation (projected in_range row) ≡ local_generation row icon
peer_generation-projected in_range row icon dated h k =
    rw
      (
        ms_to_dt-IsDate in_range row.modified_at dated,
        h,
        builtin_icon_index-u32 icon k,
        floor_to_second_idem row.modified_at,
      )
      refl

-- The version in the row after the other's has been taken over: the later one.
module _ (u : Uuid) (gs : List Group) (a b : Group) (ia ib : ℕ) (here : find_group gs u ≡ some a)
    (b_is : b.uuid ≡ u) (a_icon : a.icon_index ≡ some ia) (b_icon : b.icon_index ≡ some ib)
    (u32 : IsU32 ib) (in_range : Millis → Bool) (dated : IsDate in_range b.modified_at) where
  metadata_later :
      (s s' : Pass)
      → s.groups ≡ gs
      → reconcile_group_metadata (projected in_range b) s ≡ ok s'
      → (row : Group) × (icon : ℕ) × (find_group s'.groups u ≡ some row)
        × (row.icon_index ≡ some icon)
        × (local_generation row icon ≡ later (local_generation a ia) (local_generation b ib))
  unfolding reconcile_group_metadata later
  metadata_later s s' is h =
      let there : find_group s.groups (projected in_range b).id ≡ some a = rw (b_is, is) here in
      let sees = peer_generation-projected in_range b ib dated b_icon u32 in
      elim (Bool-cases (leq (local_generation b ib) (local_generation a ia))) [
        | inl older ↦
            let same : s ≡ s' = ground arith in (a, ia, rw (← same, is) here, a_icon, rw older refl)
        | inr newer ↦
            let f = take_metadata (projected in_range b) in
            let taken : update_groups u f gs ≡ s'.groups = ground arith in
            (
              f a,
              ib,
              rw (← taken) (find_group-update_self f (λ x. refl) gs u a here),
              rw b_icon (ap some (builtin_icon_index-u32 ib u32)),
              rw
                  (
                    newer,
                    ms_to_dt-IsDate in_range b.modified_at dated,
                    floor_to_second_idem b.modified_at,
                  )
                  refl,
            )
      ]

-- The same name, notes, icon and custom icon, changed in the same second.
pub record IsSameVersion (x y : Group) : Type 0 where
  name : x.name ≡ y.name
  notes : x.notes ≡ y.notes
  icon_index : x.icon_index ≡ y.icon_index
  icon_custom_uuid : x.icon_custom_uuid ≡ y.icon_custom_uuid
  modified : floor_to_second x.modified_at ≡ floor_to_second y.modified_at

same_version :
    (x y : Group) (i j : ℕ)
    → x.icon_index ≡ some i
    → y.icon_index ≡ some j
    → local_generation x i ≡ local_generation y j
    → IsSameVersion x y
same_version x y i j h k same = record {
  name = ap (λ g. g.1.0) same;
  notes = ap (λ g. g.1.1.0) same;
  icon_index = h ∙ ap (λ g. some g.1.1.1.0) same ∙ sym k;
  icon_custom_uuid = ap (λ g. g.1.1.1.1) same;
  modified = ap (λ g. g.0) same;
}

-- Two mirrors hold a group with a built-in icon in the range of a u32 each, changed at a date. When each has taken over the other's version, both
-- have the same name, notes, icon and custom icon, and the same second of the last change.
pub reconcile_group_metadata-agree :
    (in_range : Millis → Bool) (u : Uuid) (s t s' t' : Pass) (a b : Group) (ia ib : ℕ)
    → find_group s.groups u ≡ some a
    → find_group t.groups u ≡ some b
    → a.uuid ≡ u
    → b.uuid ≡ u
    → a.icon_index ≡ some ia
    → b.icon_index ≡ some ib
    → IsU32 ia
    → IsU32 ib
    → IsDate in_range a.modified_at
    → IsDate in_range b.modified_at
    → reconcile_group_metadata (projected in_range b) s ≡ ok s'
    → reconcile_group_metadata (projected in_range a) t ≡ ok t'
    → (x : Group) × (y : Group) × (find_group s'.groups u ≡ some x)
      × (find_group t'.groups u ≡ some y)
      × IsSameVersion x y
reconcile_group_metadata-agree in_range u s t s' t' a b ia ib ha hb ua ub ica icb ka kb da db h k =
    let (x, i, fx, ix, gx) =
      metadata_later u s.groups a b ia ib ha ub ica icb kb in_range db s s' refl h in
    let (y, j, fy, iy, gy) =
      metadata_later u t.groups b a ib ia hb ua icb ica ka in_range da t t' refl k in
    (
      x,
      y,
      fx,
      fy,
      same_version x y i j ix iy
          (gx ∙ later_comm (local_generation a ia) (local_generation b ib) ∙ sym gy),
    )

-- The place of a group after the other's has been taken over: its parent is that of the later place.
module _ (u pa pb : Uuid) (a b : Group) (ua : a.uuid ≡ u) (ub : b.uuid ≡ u)
    (in_a : a.parent_uuid ≡ some pa) (in_b : b.parent_uuid ≡ some pb) (in_range : Millis → Bool)
    (dated : AreDates in_range b.location_changed_at) where
  place_later :
      (s : Pass)
      → find_group s.groups u ≡ some a
      → (row : Group) × (find_group (reconcile_group_location (projected in_range b) pb s).groups u
          ≡ some row)
        × (row.parent_uuid ≡ (later (local_place a) (local_place b)).1)
  unfolding reconcile_group_location later
  place_later s here =
      let sees : peer_place (projected in_range b) pb ≡ local_place b =
        rw
          (
            then_ms_to_dt-AreDates in_range b.location_changed_at dated,
            floored_idem b.location_changed_at,
            in_b,
          )
          refl in
      let there : find_group s.groups (projected in_range b).id ≡ some a = rw ub here in
      elim (Bool-cases (leq (local_place b) (local_place a))) [
        | inl older ↦
            let seen : leq (peer_place (projected in_range b) pb) (local_place a) ≡ true =
              ap (λ x. leq x (local_place a)) sees ∙ older in
            let stays : reconcile_group_location (projected in_range b) pb s ≡ s = ground arith in
            (a, rw stays here, rw older refl)
        | inr newer ↦
            let seen : leq (peer_place (projected in_range b) pb) (local_place a) ≡ false =
              ap (λ x. leq x (local_place a)) sees ∙ newer in
            elim (Bool-cases (is_some_of a.parent_uuid pb)) [
              | inl same ↦
                  let stays : reconcile_group_location (projected in_range b) pb s ≡ s =
                    ground arith in
                  (a, rw stays here, rw newer (ground arith))
              | inr moves ↦
                  let f = take_place (projected in_range b) pb in
                  let taken : (reconcile_group_location (projected in_range b) pb s).groups
                      ≡ update_groups (projected in_range b).id f s.groups =
                    ground arith in
                  (
                    f a,
                    rw (taken, ub) (find_group-update_self f (λ x. refl) s.groups u a here),
                    rw newer (sym in_b),
                  )
            ]
      ]

-- Two mirrors hold a group below some group, moved at a date or never. When each has taken over the other's place of it, it has
-- the same parent in both.
pub reconcile_group_location-agree :
    (in_range : Millis → Bool) (u pa pb : Uuid) (s t : Pass) (a b : Group)
    → find_group s.groups u ≡ some a
    → find_group t.groups u ≡ some b
    → a.uuid ≡ u
    → b.uuid ≡ u
    → a.parent_uuid ≡ some pa
    → b.parent_uuid ≡ some pb
    → AreDates in_range a.location_changed_at
    → AreDates in_range b.location_changed_at
    → (x : Group) × (y : Group) × (find_group
          (reconcile_group_location (projected in_range b) pb s).groups
          u
        ≡ some x)
      × (find_group (reconcile_group_location (projected in_range a) pa t).groups u ≡ some y)
      × (x.parent_uuid ≡ y.parent_uuid)
reconcile_group_location-agree in_range u pa pb s t a b ha hb ua ub ina inb da db =
    let (x, fx, px) = place_later u pa pb a b ua ub ina inb in_range db s ha in
    let (y, fy, py) = place_later u pb pa b a ub ua inb ina in_range da t hb in
    (x, y, fx, fy, px ∙ ap (λ z. z.1) (later_comm (local_place a) (local_place b)) ∙ sym py)
