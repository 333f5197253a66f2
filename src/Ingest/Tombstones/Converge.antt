-- ===== src/Ingest/Tombstones/Converge.antt =====
-- Two replicas that take over each other's tombstones (`union_peer_tombstones` of
-- crates/keys-engine/src/ingest.rs).
use keys_core.Base.{
  Bool, true, false, pos, negsuc, All, subst, sym, ap, ◌∙◌, Option, none, some, [], ◌∷◌, ◌++◌, ◌==◌,
  ◌≡◌, ◌≢◌, refl, if◌then◌else◌, arith, Bool-cases, Option-cases, inl, inr, ==_iff, map,
}
use keys_core.Base.Order.{
  leq, earlier, option_ord, int_ord, leb_option-antisym, leb_ℤ-total, leb_ℤ-antisym,
}
use keys_core.Vault.Tables.{Uuid, Millis, Db}
use keys_core.Vault.Queries.{entry_exists}
use keys_core.Vault.Tombstones.{tombstone_of}
use keys_core.Uuids.Distinct.{IsDistinct}
use keys_core.Ingest.{earliest, floored, floored_idem, floor_to_second, floor_to_second_idem}
use keys_core.Ingest.Tombstones.{
  Stones, tombstone_map, set_stone, union_tombstone, union_peer_tombstones, instant,
  read_deleted_objects,
}
use keys_core.Ingest.Tombstones.Union.{
  join, join_comm, join_assoc, join-none, earliest_of, earliest_of-tombstone_map, earliest_of-table,
}

tombstone_of-set_self :
    (u : Uuid) (t s : Option Millis) (ds : Stones)
    → tombstone_of u ds ≡ some s
    → tombstone_of u (set_stone u t ds) ≡ some t
unfolding tombstone_of set_stone
tombstone_of-set_self u t s [] h = cc
tombstone_of-set_self u t s ((v, r) ∷ ds) h = ground (arith, tombstone_of-set_self u t s ds)

tombstone_of-set_ne :
    (u v : Uuid) (t : Option Millis) (ds : Stones)
    → v ≢ u
    → tombstone_of v (set_stone u t ds) ≡ tombstone_of v ds
unfolding tombstone_of set_stone
tombstone_of-set_ne u v t [] h = refl
tombstone_of-set_ne u v t ((w, s) ∷ ds) h = ground (arith, tombstone_of-set_ne u v t ds h)

tombstone_of-insert_self :
    (u : Uuid) (t : Option Millis) (ds : Stones)
    → tombstone_of u ds ≡ none
    → tombstone_of u (ds ++ (u, t) ∷ []) ≡ some t
unfolding tombstone_of
tombstone_of-insert_self u t [] h = ground arith
tombstone_of-insert_self u t ((v, s) ∷ ds) h = ground (arith, tombstone_of-insert_self u t ds)

tombstone_of-insert_ne :
    (u v : Uuid) (t : Option Millis) (ds : Stones)
    → v ≢ u
    → tombstone_of v (ds ++ (u, t) ∷ []) ≡ tombstone_of v ds
unfolding tombstone_of
tombstone_of-insert_ne u v t [] h = ground arith
tombstone_of-insert_ne u v t ((w, s) ∷ ds) h = ground (arith, tombstone_of-insert_ne u v t ds h)

tombstone_of-union_self :
    (u : Uuid) (t : Option Millis) (ds : Stones)
    → tombstone_of u (union_tombstone u t ds) ≡ join (tombstone_of u ds) (some t)
unfolding union_tombstone
tombstone_of-union_self u t ds = elim (Option-cases (tombstone_of u ds)) [
  | inl missing ↦ ground (arith, tombstone_of-insert_self u t ds missing)
  | inr (old, found) ↦ ground (
    arith,
    tombstone_of-set_self u (earliest old t) old ds found,
    leb_option-antisym (earliest old t) old,
  )
]

tombstone_of-union_ne :
    (u v : Uuid) (t : Option Millis) (ds : Stones)
    → v ≢ u
    → tombstone_of v (union_tombstone u t ds) ≡ tombstone_of v ds
unfolding union_tombstone
tombstone_of-union_ne u v t ds h = elim (Option-cases (tombstone_of u ds)) [
  | inl missing ↦ ground (arith, tombstone_of-insert_ne u v t ds h)
  | inr (old, found) ↦ ground (arith, tombstone_of-set_ne u v (earliest old t) ds h)
]

-- After the peer's tombstones are taken over, an id that is no entry has the earliest deletion time of
-- both sides, a known time before an unknown one, and the tombstone of an entry is as it was.
pub union_peer_tombstones-earliest :
    (u : Uuid) (peer_tomb : Stones) (db : Db)
    → tombstone_of u (union_peer_tombstones peer_tomb db).deleted_objects ≡ (
        if entry_exists db.entries u
        then tombstone_of u db.deleted_objects
        else join (tombstone_of u db.deleted_objects) (earliest_of u peer_tomb))
unfolding union_peer_tombstones earliest_of
union_peer_tombstones-earliest u [] db =
    ground (arith, join-none (tombstone_of u db.deleted_objects))
union_peer_tombstones-earliest u ((v, t) ∷ peer_tomb) db =
    let next = record db { deleted_objects = union_tombstone v t db.deleted_objects } in
    elim (Bool-cases (entry_exists db.entries v)) [
      | inl live ↦
          rw live (ground (arith, union_peer_tombstones-earliest u peer_tomb db, ==_iff v u))
      | inr dead ↦ elim (Bool-cases (v == u)) [
        | inl same ↦
            let is : v ≡ u = (==_iff v u).0 same in
            let off : entry_exists db.entries u ≡ false = rw (← is) dead in
            let here : tombstone_of u (union_tombstone v t db.deleted_objects)
                ≡ join (tombstone_of u db.deleted_objects) (some t) =
              rw is (tombstone_of-union_self u t db.deleted_objects) in
            let rest = union_peer_tombstones-earliest u peer_tomb next in
            rw (dead, same, off)
              (ground (
                arith,
                rest,
                here,
                off,
                join_assoc (tombstone_of u db.deleted_objects) (some t) (earliest_of u peer_tomb),
              ))
        | inr other ↦
            rw (dead, other)
              (ground (
                arith,
                union_peer_tombstones-earliest u peer_tomb next,
                tombstone_of-union_ne v u t db.deleted_objects (λ i. ground arith),
              ))
      ]
    ]

-- Deletions as a vault's file carries them from one side to the other; what becomes of an instant is
-- the KDBX crate's.
abbrev stamped : (Millis → Millis) → Option Millis → Option Millis
stamped kdbx none = none
stamped kdbx (some t) = some (kdbx t)

unfoldable pub carried : (Millis → Millis) → Stones → Stones
carried kdbx [] = []
carried kdbx ((u, t) ∷ ds) = (u, stamped kdbx t) ∷ carried kdbx ds

-- A deletion to the second.
abbrev pub second_of : Option (Option Millis) → Option (Option Millis)
second_of none = none
second_of (some t) = some (floored t)

abbrev pub AllDates : (Millis → Bool) → Stones → Type 0
AllDates in_range ds = All (λ d. (t : Millis) → d.1 ≡ some t → in_range t ≡ true) ds

floor_mono : (a b : Millis) → leq a b ≡ true → leq (floor_to_second a) (floor_to_second b) ≡ true
unfolding floor_to_second
floor_mono (pos m) (pos n) h = ground arith
floor_mono (pos m) (negsuc n) h = cc
floor_mono (negsuc m) (pos n) h = ground arith
floor_mono (negsuc m) (negsuc n) h = ground arith

floor-earlier :
    (a b : Millis) → floor_to_second (earlier a b) ≡ earlier (floor_to_second a) (floor_to_second b)
unfolding earlier
floor-earlier a b = elim (Bool-cases (leq a b)) [
  | inl h ↦ rw (h, floor_mono a b h) refl
  | inr h ↦
      (let other : leq b a ≡ true = elim (leb_ℤ-total a b) [ inl k ↦ absurd cc | inr k ↦ k ] in
        rw h (elim (Bool-cases (leq (floor_to_second a) (floor_to_second b))) [
          | inl k ↦ rw k (leb_ℤ-antisym _ _ (floor_mono b a other) k)
          | inr k ↦ rw k refl
        ]))
]

second_of-join :
    (a b : Option (Option Millis))
    → second_of (join a (second_of b)) ≡ join (second_of a) (second_of b)
unfolding earliest
second_of-join none none = refl
second_of-join none (some b) = ap some (floored_idem b)
second_of-join (some a) none = refl
second_of-join (some none) (some b) = ap some (floored_idem b)
second_of-join (some (some a)) (some none) = refl
second_of-join (some (some a)) (some (some b)) =
    ap (λ t. some (some t))
      (floor-earlier a (floor_to_second b)
        ∙ ap (λ t. earlier (floor_to_second a) t) (floor_to_second_idem b))

module _ (in_range : Millis → Bool) (kdbx : Millis → Millis)
    (seconds : (t : Millis) → kdbx t ≡ floor_to_second t) where
  stamp-second :
      (t : Option Millis)
      → ((ms : Millis) → t ≡ some ms → in_range ms ≡ true)
      → stamped kdbx (instant in_range t) ≡ floored t
  stamp-second none dated = refl
  stamp-second (some ms) dated = rw (dated ms refl) (ap some (seconds ms))

  tombstone_of-carried :
      (u : Uuid) (ds : Stones)
      → AllDates in_range ds
      → tombstone_of u (carried kdbx (read_deleted_objects in_range ds))
        ≡ second_of (tombstone_of u ds)
  unfolding tombstone_of carried read_deleted_objects
  tombstone_of-carried u [] dated = refl
  tombstone_of-carried u ((v, t) ∷ ds) (d, dated) = elim (Bool-cases (v == u)) [
    | inl same ↦ rw same (ap some (stamp-second t d))
    | inr other ↦ rw other (tombstone_of-carried u ds dated)
  ]

  ids-carried :
      (ds : Stones)
      → map (λ d. d.0) (carried kdbx (read_deleted_objects in_range ds)) ≡ map (λ d. d.0) ds
  unfolding carried read_deleted_objects
  ids-carried [] = refl
  ids-carried ((v, t) ∷ ds) = ap (λ vs. v ∷ vs) (ids-carried ds)

  union-seconds :
      (u : Uuid) (a b : Db)
      → IsDistinct (map (λ d. d.0) b.deleted_objects)
      → entry_exists a.entries u ≡ false
      → AllDates in_range b.deleted_objects
      → second_of (
          tombstone_of u
            (union_peer_tombstones
              (tombstone_map (carried kdbx (read_deleted_objects in_range b.deleted_objects)))
              a).deleted_objects)
        ≡ join
            (second_of (tombstone_of u a.deleted_objects))
            (second_of (tombstone_of u b.deleted_objects))
  union-seconds u a b db ha dated =
      let peer = carried kdbx (read_deleted_objects in_range b.deleted_objects) in
      ap second_of (
        union_peer_tombstones-earliest u (tombstone_map peer) a
        ∙ rw ha refl
        ∙ ap (λ t. join (tombstone_of u a.deleted_objects) t)
            (earliest_of-tombstone_map u peer
              ∙ earliest_of-table u peer (subst IsDistinct (sym (ids-carried b.deleted_objects)) db)
              ∙ tombstone_of-carried u b.deleted_objects dated))
      ∙ second_of-join (tombstone_of u a.deleted_objects) (tombstone_of u b.deleted_objects)

-- Two mirrors keep their deletions to the millisecond, at dates, one row for an id, and each reads the
-- other's from a vault's file, which keeps them to the second. When each has taken over the other's, of
-- an id that is an entry of neither both record a deletion in the same second, or at an unknown time, or
-- neither records one.
pub union_peer_tombstones-agree :
    (in_range : Millis → Bool) (kdbx : Millis → Millis) (u : Uuid) (a b : Db)
    → ((t : Millis) → kdbx t ≡ floor_to_second t)
    → IsDistinct (map (λ d. d.0) a.deleted_objects)
    → IsDistinct (map (λ d. d.0) b.deleted_objects)
    → entry_exists a.entries u ≡ false
    → entry_exists b.entries u ≡ false
    → AllDates in_range a.deleted_objects
    → AllDates in_range b.deleted_objects
    → second_of (
        tombstone_of u
          (union_peer_tombstones
            (tombstone_map (carried kdbx (read_deleted_objects in_range b.deleted_objects)))
            a).deleted_objects)
      ≡ second_of (
          tombstone_of u
            (union_peer_tombstones
              (tombstone_map (carried kdbx (read_deleted_objects in_range a.deleted_objects)))
              b).deleted_objects)
union_peer_tombstones-agree in_range kdbx u a b seconds da db ha hb dated_a dated_b =
    union-seconds in_range kdbx seconds u a b db ha dated_b
    ∙ join_comm (second_of (tombstone_of u a.deleted_objects))
        (second_of (tombstone_of u b.deleted_objects))
    ∙ sym (union-seconds in_range kdbx seconds u b a da hb dated_a)
