-- ===== src/Vault/Tombstones.antt =====
-- The tombstone that meta_deleted_object holds for an id (crates/keys-engine/src/mutations.rs).
use keys_core.Base.{
  Option, none, some, List, [], ◌∷◌, ◌==◌, ◌≡◌, ◌≢◌, arith, if◌then◌else◌, Bool-cases, inl, inr,
  ==_iff,
}
use keys_core.Vault.Tables.{Uuid, Millis}
use keys_core.Vault.Queries.{record_tombstone}

-- The deletion time that the tombstones record for an id.
unfoldable pub tombstone_of : Uuid → List (Uuid × Option Millis) → Option (Option Millis)
tombstone_of u [] = none
tombstone_of u ((v, t) ∷ ds) = if v == u then some t else tombstone_of u ds

pub tombstone_of-record_self :
    (u : Uuid) (now : Millis) (ds : List (Uuid × Option Millis))
    → tombstone_of u (record_tombstone u now ds) ≡ some (some now)
unfolding tombstone_of record_tombstone
tombstone_of-record_self u now [] = ground arith
tombstone_of-record_self u now ((v, t) ∷ ds) = ground (arith, tombstone_of-record_self u now ds)

pub tombstone_of-record_ne :
    (u v : Uuid) (now : Millis) (ds : List (Uuid × Option Millis))
    → v ≢ u
    → tombstone_of v (record_tombstone u now ds) ≡ tombstone_of v ds
unfolding tombstone_of record_tombstone
tombstone_of-record_ne u v now [] h = ground arith
tombstone_of-record_ne u v now ((w, t) ∷ ds) h = ground (arith, tombstone_of-record_ne u v now ds h)

-- A tombstone of this deletion stays whatever is recorded after it.
pub tombstone_of-record_keeps :
    (u v : Uuid) (now : Millis) (ds : List (Uuid × Option Millis))
    → tombstone_of v ds ≡ some (some now)
    → tombstone_of v (record_tombstone u now ds) ≡ some (some now)
tombstone_of-record_keeps u v now ds h = elim (Bool-cases (v == u)) [
  | inl same ↦ rw ((==_iff v u).0 same) (tombstone_of-record_self u now ds)
  | inr other ↦ rw (tombstone_of-record_ne u v now ds (λ i. ground arith)) h
]
