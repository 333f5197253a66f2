-- ===== src/Ingest/Locations/Agree.antt =====
-- The place of an entry, taken over from the other side
-- (`reconcile_entry_location` of crates/keys-engine/src/ingest.rs).
use keys_core.Base.{
  Bool, true, false, some, ◌≡◌, refl, sym, ◌∙◌, ap, arith, Bool-cases, Option-cases, inl, inr,
  All-of,
}
use keys_core.Base.Order.{leq, later, later_comm, pair_ord, option_ord, int_ord, nat_ord}
use keys_core.Vault.Tables.{Uuid, Millis, Entry, Db, find_entry, update_entries}
use keys_core.Vault.Queries.{group_exists, group_in_bin_subtree}
use keys_core.Vault.Rows.{find_entry-update_self}
use keys_core.Vault.Entries.Flags.{FlagsMatch, FlagsMatch-update}
use keys_core.Ingest.{floored, floored_idem, then_ms_to_dt, AreDates, then_ms_to_dt-AreDates}
use keys_core.Ingest.Locations.{
  PeerPlace, local_triple, peer_triple, take_location, reconcile_entry_location, projected_place,
}

-- Taking over a peer's place of an entry keeps the flags of all entries right.
pub reconcile_entry_location-FlagsMatch :
    (db : Db) (u : Uuid) (p : PeerPlace)
    → FlagsMatch db.groups db.entries
    → FlagsMatch
        (reconcile_entry_location db u p).0.groups
        (reconcile_entry_location db u p).0.entries
unfolding reconcile_entry_location
reconcile_entry_location-FlagsMatch db u p fm = elim (Option-cases (find_entry db.entries u)) [
  | inl missing ↦ rw (missing, reconcile_entry_location) fm
  | inr (e, found) ↦ elim (Bool-cases (leq (peer_triple p) (local_triple e))) [
    | inl older ↦ rw (found, older, reconcile_entry_location) fm
    | inr newer ↦ elim (Bool-cases (group_exists db.groups p.parent)) [
      | inr missing ↦ rw (found, newer, missing, reconcile_entry_location) fm
      | inl there ↦
          let f = take_location p (group_in_bin_subtree db.groups p.parent) in
          rw (found, newer, there, reconcile_entry_location)
            (FlagsMatch-update db.groups f u db.entries (All-of _ (λ x _. refl) db.entries) fm)
    ]
  ]
]

location_later :
    (in_range : Millis → Bool) (db : Db) (u : Uuid) (a b : Entry)
    → find_entry db.entries u ≡ some a
    → group_exists db.groups b.group_uuid ≡ true
    → AreDates in_range b.location_changed_at
    → (e : Entry) × (find_entry
          (reconcile_entry_location db u (projected_place in_range b)).0.entries
          u
        ≡ some e)
      × (local_triple e ≡ later (local_triple a) (local_triple b))
unfolding reconcile_entry_location later
location_later in_range db u a b here there dated =
    let p = projected_place in_range b in
    let instant = then_ms_to_dt-AreDates in_range b.location_changed_at dated in
    let sees : peer_triple p ≡ local_triple b =
      ap (λ t. (t, (b.group_uuid, b.previous_parent_uuid)))
        (ap floored instant ∙ floored_idem b.location_changed_at) in
    elim (Bool-cases (leq (local_triple b) (local_triple a))) [
      | inl older ↦
          let seen : leq (peer_triple p) (local_triple a) ≡ true =
            ap (λ x. leq x (local_triple a)) sees ∙ older in
          let stays : (reconcile_entry_location db u p).0 ≡ db = ground arith in
          (a, rw stays here, rw older refl)
      | inr newer ↦
          let seen : leq (peer_triple p) (local_triple a) ≡ false =
            ap (λ x. leq x (local_triple a)) sees ∙ newer in
          let f = take_location p (group_in_bin_subtree db.groups p.parent) in
          let taken : (reconcile_entry_location db u p).0.entries ≡ update_entries u f db.entries =
            ground arith in
          (
            f a,
            rw taken (find_entry-update_self f (λ x. refl) db.entries u a here),
            rw newer (
                ap (λ t. (t, (b.group_uuid, b.previous_parent_uuid)))
                  (floored_idem (then_ms_to_dt in_range b.location_changed_at)
                    ∙ ap floored instant
                    ∙ floored_idem b.location_changed_at)),
          )
    ]

-- Two mirrors hold an entry, moved at a date or never, and each other's group of it. When each has taken over the other's place of
-- the entry, both have the same group, the same group before it and the same second of the move.
pub reconcile_entry_location-agree :
    (in_range : Millis → Bool) (u : Uuid) (s t : Db) (a b : Entry)
    → find_entry s.entries u ≡ some a
    → find_entry t.entries u ≡ some b
    → group_exists s.groups b.group_uuid ≡ true
    → group_exists t.groups a.group_uuid ≡ true
    → AreDates in_range a.location_changed_at
    → AreDates in_range b.location_changed_at
    → (x : Entry) × (y : Entry) × (find_entry
          (reconcile_entry_location s u (projected_place in_range b)).0.entries
          u
        ≡ some x)
      × (find_entry (reconcile_entry_location t u (projected_place in_range a)).0.entries u
          ≡ some y)
      × (x.group_uuid ≡ y.group_uuid)
      × (x.previous_parent_uuid ≡ y.previous_parent_uuid)
      × (floored x.location_changed_at ≡ floored y.location_changed_at)
reconcile_entry_location-agree in_range u s t a b ha hb ga gb da db =
    let (x, fx, px) = location_later in_range s u a b ha ga db in
    let (y, fy, py) = location_later in_range t u b a hb gb da in
    let same = px ∙ later_comm (local_triple a) (local_triple b) ∙ sym py in
    (x, y, fx, fy, ap (λ t. t.1.0) same, ap (λ t. t.1.1) same, ap (λ t. t.0) same)
