-- ===== src/Ingest/Tombstones/Union.antt =====
-- What a union of tombstones holds, and that two replicas come to the same
-- (`union_peer_tombstones` and `tombstone_map` of crates/keys-engine/src/ingest.rs).
use keys_core.Base.{
  false, Option, none, some, [], ◌∷◌, ◌==◌, ◌≡◌, ◌≢◌, refl, sym, ◌∙◌, ap, if◌then◌else◌, arith,
  Bool-cases, inl, inr, ==_iff, map, ==_refl, All, subst,
}
use keys_core.Base.Order.{option_ord, int_ord, earlier_comm, earlier_assoc}
use keys_core.Vault.Tables.{Uuid, Millis}
use keys_core.Vault.Tombstones.{tombstone_of}
use keys_core.Uuids.Distinct.{IsDistinct}
use keys_core.Ingest.{earliest}
use keys_core.Ingest.Tombstones.{Stones, fold_stone, tombstone_map_from, tombstone_map}

pub earliest_comm : (a b : Option Millis) → earliest a b ≡ earliest b a
unfolding earliest
earliest_comm none none = refl
earliest_comm none (some b) = refl
earliest_comm (some a) none = refl
earliest_comm (some a) (some b) = ap some (earlier_comm a b)

earliest_assoc : (a b c : Option Millis) → earliest (earliest a b) c ≡ earliest a (earliest b c)
unfolding earliest
earliest_assoc none b c = refl
earliest_assoc (some a) none c = refl
earliest_assoc (some a) (some b) none = refl
earliest_assoc (some a) (some b) (some c) = ap some (earlier_assoc a b c)

-- A tombstone that may be missing, with a time that may be unknown: the two together.
abbrev pub join : Option (Option Millis) → Option (Option Millis) → Option (Option Millis)
join none b = b
join (some a) none = some a
join (some a) (some b) = some (earliest a b)

pub join_comm : (a b : Option (Option Millis)) → join a b ≡ join b a
join_comm none none = refl
join_comm none (some b) = refl
join_comm (some a) none = refl
join_comm (some a) (some b) = ap some (earliest_comm a b)

pub join_assoc : (a b c : Option (Option Millis)) → join (join a b) c ≡ join a (join b c)
join_assoc none b c = refl
join_assoc (some a) none c = refl
join_assoc (some a) (some b) none = refl
join_assoc (some a) (some b) (some c) = ap some (earliest_assoc a b c)

pub join-none : (a : Option (Option Millis)) → join a none ≡ a
join-none none = refl
join-none (some a) = refl

-- The earliest of all the times that a list holds for an id.
unfoldable pub earliest_of : Uuid → Stones → Option (Option Millis)
earliest_of u [] = none
earliest_of u ((v, t) ∷ ds) =
    let rest = earliest_of u ds in if v == u then join (some t) rest else rest

tombstone_of-fold_self :
    (u : Uuid) (t : Option Millis) (ds : Stones)
    → tombstone_of u (fold_stone u t ds) ≡ join (tombstone_of u ds) (some t)
unfolding tombstone_of fold_stone
tombstone_of-fold_self u t [] = rw (==_refl u) refl
tombstone_of-fold_self u t ((v, s) ∷ ds) = ground (arith, tombstone_of-fold_self u t ds)

tombstone_of-fold_ne :
    (u v : Uuid) (t : Option Millis) (ds : Stones)
    → v ≢ u
    → tombstone_of v (fold_stone u t ds) ≡ tombstone_of v ds
unfolding tombstone_of fold_stone
tombstone_of-fold_ne u v t [] h = ground arith
tombstone_of-fold_ne u v t ((w, s) ∷ ds) h = ground (arith, tombstone_of-fold_ne u v t ds h)

tombstone_of-map_from :
    (u : Uuid) (ds out : Stones)
    → tombstone_of u (tombstone_map_from out ds) ≡ join (tombstone_of u out) (earliest_of u ds)
unfolding tombstone_map_from earliest_of
tombstone_of-map_from u [] out = sym (join-none (tombstone_of u out))
tombstone_of-map_from u ((v, t) ∷ ds) out = elim (Bool-cases (v == u)) [
  | inl same ↦
      let here : tombstone_of u (fold_stone v t out) ≡ join (tombstone_of u out) (some t) =
        rw ((==_iff v u).0 same) (tombstone_of-fold_self u t out) in
      rw (same, tombstone_of-map_from u ds (fold_stone v t out), here)
        (join_assoc (tombstone_of u out) (some t) (earliest_of u ds))
  | inr other ↦
      rw
        (
          other,
          tombstone_of-map_from u ds (fold_stone v t out),
          tombstone_of-fold_ne v u t out (λ i. ground arith),
        )
        refl
]

-- `tombstone_map` holds for every id the earliest of its deletion times, a known time before an unknown
-- one.
pub tombstone_map-earliest :
    (u : Uuid) (deleted : Stones) → tombstone_of u (tombstone_map deleted) ≡ earliest_of u deleted
unfolding tombstone_map tombstone_of
tombstone_map-earliest u deleted = tombstone_of-map_from u deleted []

earliest_of-fold_self :
    (u : Uuid) (t : Option Millis) (ds : Stones)
    → earliest_of u (fold_stone u t ds) ≡ join (earliest_of u ds) (some t)
unfolding earliest_of fold_stone
earliest_of-fold_self u t [] = rw (==_refl u) refl
earliest_of-fold_self u t ((v, s) ∷ ds) = elim (Bool-cases (v == u)) [
  | inl same ↦
      rw (same, same)
        (join_assoc (some s) (some t) (earliest_of u ds)
          ∙ ap (λ x. join (some s) x) (join_comm (some t) (earliest_of u ds))
          ∙ sym (join_assoc (some s) (earliest_of u ds) (some t)))
  | inr other ↦ rw (other, other) (earliest_of-fold_self u t ds)
]

earliest_of-fold_ne :
    (u v : Uuid) (t : Option Millis) (ds : Stones)
    → v ≢ u
    → earliest_of v (fold_stone u t ds) ≡ earliest_of v ds
unfolding earliest_of fold_stone
earliest_of-fold_ne u v t [] h = ground arith
earliest_of-fold_ne u v t ((w, s) ∷ ds) h = elim (Bool-cases (w == u)) [
  | inl same ↦ let off : (w == v) ≡ false = ground arith in rw (same, off) refl
  | inr other ↦ rw (other, earliest_of-fold_ne u v t ds h) refl
]

earliest_of-map_from :
    (u : Uuid) (ds out : Stones)
    → earliest_of u (tombstone_map_from out ds) ≡ join (earliest_of u out) (earliest_of u ds)
unfolding tombstone_map_from earliest_of
earliest_of-map_from u [] out = sym (join-none (earliest_of u out))
earliest_of-map_from u ((v, t) ∷ ds) out = elim (Bool-cases (v == u)) [
  | inl same ↦
      let here : earliest_of u (fold_stone v t out) ≡ join (earliest_of u out) (some t) =
        rw ((==_iff v u).0 same) (earliest_of-fold_self u t out) in
      rw (same, earliest_of-map_from u ds (fold_stone v t out), here)
        (join_assoc (earliest_of u out) (some t) (earliest_of u ds))
  | inr other ↦
      rw
        (
          other,
          earliest_of-map_from u ds (fold_stone v t out),
          earliest_of-fold_ne v u t out (λ i. ground arith),
        )
        refl
]

pub earliest_of-tombstone_map :
    (u : Uuid) (deleted : Stones) → earliest_of u (tombstone_map deleted) ≡ earliest_of u deleted
unfolding tombstone_map earliest_of
earliest_of-tombstone_map u deleted = earliest_of-map_from u deleted []

earliest_of-missing :
    (u : Uuid) (ds : Stones) → All (λ v. v ≢ u) (map (λ d. d.0) ds) → earliest_of u ds ≡ none
unfolding earliest_of
earliest_of-missing u [] h = refl
earliest_of-missing u ((v, t) ∷ ds) (h, hs) = ground (arith, earliest_of-missing u ds hs)

-- A table, in which no id occurs twice, is read in one lookup.
pub earliest_of-table :
    (u : Uuid) (ds : Stones) → IsDistinct (map (λ d. d.0) ds) → earliest_of u ds ≡ tombstone_of u ds
unfolding earliest_of tombstone_of
earliest_of-table u [] h = refl
earliest_of-table u ((v, t) ∷ ds) (h, hs) = elim (Bool-cases (v == u)) [
  | inl same ↦
      rw
        (
          same,
          earliest_of-missing u ds
              (subst (λ x. All (λ w. w ≢ x) (map (λ d. d.0) ds)) ((==_iff v u).0 same) h),
        )
        refl
  | inr other ↦ rw other (earliest_of-table u ds hs)
]
