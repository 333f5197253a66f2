-- ===== src/Ingest/Tombstones/Deletes.antt =====
-- Which entries a peer's tombstones remove (`reconcile_peer_deletes` of
-- crates/keys-engine/src/ingest.rs).
use keys_core.Base.{
  Bool, true, false, Option, none, some, Option-cases, any, Any, ◌⊎◌, ◌∙◌, sym, subst, ◌≤ℤ◌, List,
  [], ◌∷◌, ◌++◌, ◌==◌, ◌≡◌, ◌≢◌, refl, if◌then◌else◌, arith, Bool-cases, inl, inr, ==_iff,
}
use keys_core.Vault.Tables.{Uuid, Millis, Db}
use keys_core.Vault.Queries.{entry_exists, delete_entry_row, gc_orphan_tags}
use keys_core.Vault.Entries.RoundTrip.{find_entry-delete_self, find_entry-delete_ne}
use keys_core.Base.Order.{int_ord, leb_ℤ-le, le-leb_ℤ}
use keys_core.Vault.Tombstones.{tombstone_of}
use keys_core.Ingest.{live_edit_wins}
use keys_core.Ingest.Tombstones.{Stones, peer_deletes, delete_local_entry, reconcile_peer_deletes}

entry_exists-delete_self :
    (u : Uuid) (db : Db) → entry_exists (delete_local_entry u db).entries u ≡ false
unfolding delete_local_entry gc_orphan_tags delete_entry_row entry_exists
entry_exists-delete_self u db = rw (find_entry-delete_self db.entries u) refl

entry_exists-delete_ne :
    (u v : Uuid) (db : Db)
    → v ≢ u
    → entry_exists (delete_local_entry u db).entries v ≡ entry_exists db.entries v
unfolding delete_local_entry gc_orphan_tags delete_entry_row entry_exists
entry_exists-delete_ne u v db h = rw (find_entry-delete_ne db.entries u v h) refl

any-Any : (u : Uuid) (us : List Uuid) → any (λ w. w == u) us ≡ false → ¬ Any (λ w. w ≡ u) us
any-Any u [] h k = k
any-Any u (w ∷ us) h (inl is) = ground arith
any-Any u (w ∷ us) h (inr k) = any-Any u us (ground arith) k

Any-any : (u : Uuid) (us : List Uuid) → ¬ Any (λ w. w ≡ u) us → any (λ w. w == u) us ≡ false
Any-any u [] h = refl
Any-any u (w ∷ us) h = elim (Bool-cases (w == u)) [
  | inl same ↦ absurd (h (inl ((==_iff w u).0 same)))
  | inr other ↦ ground (arith, other, Any-any u us (λ k. h (inr k)))
]

-- The last edit does not win over a deletion at a known time: it is none, or not after it.
pub data IsOutlived : Option Millis → Millis → Type 0 where
  undated : (d : Millis) → IsOutlived none d
  dated : (e d : Millis) → e ≤ℤ d → IsOutlived (some e) d

not_live-IsOutlived :
    (edited : Option Millis) (d : Millis)
    → live_edit_wins edited (some d) ≡ false
    → IsOutlived edited d
unfolding live_edit_wins
not_live-IsOutlived none d h = undated d
not_live-IsOutlived (some e) d h = dated e d (leb_ℤ-le e d (ground arith))

IsOutlived-not_live :
    {edited : Option Millis} {d : Millis}
    → IsOutlived edited d
    → live_edit_wins edited (some d) ≡ false
unfolding live_edit_wins
IsOutlived-not_live (undated d) = refl
IsOutlived-not_live (dated e d h) = rw (le-leb_ℤ e d h) refl

module _ (peer_uuids : List Uuid) (peer_tomb : Stones) where
  -- An id that the peer does not hold and has deleted, with a last edit that does not win over that.
  pub record IsDeleted (u : Uuid) (edited : Option Millis) : Type 0 where
    pub not_held : ¬ Any (λ w. w ≡ u) peer_uuids
    pub deleted_at : Millis
    pub stone : tombstone_of u peer_tomb ≡ some (some deleted_at)
    pub outlived : IsOutlived edited deleted_at

  -- One of the local entries, by its id, is deleted so.
  abbrev pub IsGone : Uuid → List (Uuid × Option Millis) → Type 0
  IsGone v local_by_uuid = Any (λ e. (e.0 ≡ v) × IsDeleted v e.1) local_by_uuid

  peer_deletes-IsDeleted :
      (u : Uuid) (edited : Option Millis)
      → peer_deletes peer_uuids peer_tomb u edited ≡ true
      → IsDeleted u edited
  peer_deletes-IsDeleted u edited h = elim (Bool-cases (any (λ w. w == u) peer_uuids)) [
    | inl held ↦ absurd (ground arith)
    | inr off ↦ elim (Option-cases (tombstone_of u peer_tomb)) [
      | inl missing ↦ absurd (ground arith)
      | inr (none, found) ↦ absurd (unfold live_edit_wins in ground arith)
      | inr (some d, found) ↦ record {
        not_held = any-Any u peer_uuids off;
        deleted_at = d;
        stone = found;
        outlived = not_live-IsOutlived edited d (ground arith);
      }
    ]
  ]

  IsDeleted-peer_deletes :
      (u : Uuid) (edited : Option Millis)
      → IsDeleted u edited
      → peer_deletes peer_uuids peer_tomb u edited ≡ true
  IsDeleted-peer_deletes u edited h =
      rw (Any-any u peer_uuids h.not_held, h.stone, IsOutlived-not_live h.outlived) refl

  -- A turn of the loop is for the id and removes it.
  gone : Uuid → List (Uuid × Option Millis) → Bool
  gone v [] = false
  gone v ((u, edited) ∷ local_by_uuid) =
      let rest = gone v local_by_uuid in
      if u == v then (if peer_deletes peer_uuids peer_tomb u edited then true else rest) else rest

  gone-cases :
      (v : Uuid) (local_by_uuid : List (Uuid × Option Millis))
      → ((gone v local_by_uuid ≡ true) × IsGone v local_by_uuid)
        ⊎ ((gone v local_by_uuid ≡ false) × ¬ IsGone v local_by_uuid)
  unfolding gone
  gone-cases v [] = inr (refl, λ h. h)
  gone-cases v ((u, edited) ∷ local_by_uuid) = elim (gone-cases v local_by_uuid) [
    | inl (h, later) ↦ inl (ground (arith, h), inr later)
    | inr (h, never) ↦ elim (Bool-cases (u == v)) [
      | inr other ↦ inr (
        ground (arith, h, other),
        λ k. elim k [ inl (same, d) ↦ ground (arith, other) | inr later ↦ never later ],
      )
      | inl same ↦ elim (Bool-cases (peer_deletes peer_uuids peer_tomb u edited)) [
        | inl goes ↦
            (let is : u ≡ v = (==_iff u v).0 same in
              inl (
                ground (arith, same, goes),
                inl (is, subst (λ w. IsDeleted w edited) is (peer_deletes-IsDeleted u edited goes)),
              ))
        | inr stays ↦ inr (
          ground (arith, h, stays),
          λ k. elim k [
            | inl (is, d) ↦
                (let goes =
                    IsDeleted-peer_deletes u edited (subst (λ w. IsDeleted w edited) (sym is) d) in
                  let other : true ≡ false = sym goes ∙ stays in cc)
            | inr later ↦ never later
          ],
        )
      ]
    ]
  ]

  entry_exists-reconcile :
      (local_by_uuid : List (Uuid × Option Millis)) (db : Db) (deleted : List Uuid) (v : Uuid)
      → entry_exists
          (reconcile_peer_deletes local_by_uuid peer_uuids peer_tomb (db, deleted)).0.entries
          v
        ≡ (if gone v local_by_uuid then false else entry_exists db.entries v)
  unfolding reconcile_peer_deletes gone
  entry_exists-reconcile [] db deleted v = refl
  entry_exists-reconcile ((u, edited) ∷ local_by_uuid) db deleted v =
      elim (Bool-cases (peer_deletes peer_uuids peer_tomb u edited)) [
        | inl goes ↦
            let rest =
              entry_exists-reconcile local_by_uuid (delete_local_entry u db) (deleted ++ u ∷ [])
                v in
            elim (Bool-cases (u == v)) [
              | inl same ↦
                  let off : entry_exists (delete_local_entry u db).entries v ≡ false =
                    rw (← (==_iff u v).0 same) (entry_exists-delete_self u db) in
                  ground (arith, rest, off, goes, same)
              | inr other ↦
                  let kept = entry_exists-delete_ne u v db (λ i. ground arith) in
                  ground (arith, rest, kept, goes, other)
            ]
        | inr stays ↦ ground (arith, stays, entry_exists-reconcile local_by_uuid db deleted v)
      ]

  -- Of the local entries, one is gone exactly when the peer does not hold it and has a tombstone of it
  -- with a known time, and its last edit is unknown or not after that time; every other entry stays.
  pub reconcile_peer_deletes-IsGone :
      (local_by_uuid : List (Uuid × Option Millis)) (db : Db) (deleted : List Uuid) (v : Uuid)
      → (IsGone v local_by_uuid
          × (entry_exists
                (reconcile_peer_deletes local_by_uuid peer_uuids peer_tomb (db, deleted)).0.entries
                v
              ≡ false))
        ⊎ ((¬ IsGone v local_by_uuid)
            × (entry_exists
                  (reconcile_peer_deletes local_by_uuid peer_uuids peer_tomb
                    (db, deleted)).0.entries
                  v
                ≡ entry_exists db.entries v))
  reconcile_peer_deletes-IsGone local_by_uuid db deleted v =
      let is = entry_exists-reconcile local_by_uuid db deleted v in
      elim (gone-cases v local_by_uuid) [
        | inl (h, goes) ↦ inl (goes, is ∙ rw h refl)
        | inr (h, stays) ↦ inr (stays, is ∙ rw h refl)
      ]
