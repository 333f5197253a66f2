-- ===== src/Ingest/Materialize/Sift.antt =====
-- The groups with a tombstone that live and those that do not
-- (`materialize_group_tombstones` of crates/keys-engine/src/ingest.rs).
use keys_core.Base.{
  Bool, true, false, Option, none, some, List, [], ◌∷◌, ◌==◌, ◌≡◌, ◌≢◌, refl, ◌∙◌, arith,
  Bool-cases, Option-cases, inl, inr, ==_iff, All,
}
use keys_core.Vault.Tables.{Uuid}
use keys_core.Vault.Tombstones.{tombstone_of}
use keys_core.Ingest.Tombstones.{Stones, remove_tombstone}
use keys_core.Ingest.Materialize.{contains, sift}

tombstone_of-remove_self : (u : Uuid) (ds : Stones) → tombstone_of u (remove_tombstone u ds) ≡ none
unfolding tombstone_of remove_tombstone
tombstone_of-remove_self u [] = refl
tombstone_of-remove_self u ((v, t) ∷ ds) = ground (arith, tombstone_of-remove_self u ds)

tombstone_of-remove_ne :
    (u v : Uuid) (ds : Stones) → v ≢ u → tombstone_of v (remove_tombstone u ds) ≡ tombstone_of v ds
unfolding tombstone_of remove_tombstone
tombstone_of-remove_ne u v [] h = refl
tombstone_of-remove_ne u v ((w, t) ∷ ds) h = ground (arith, tombstone_of-remove_ne u v ds h)

tombstone_of-remove_none :
    (u v : Uuid) (ds : Stones)
    → tombstone_of v ds ≡ none
    → tombstone_of v (remove_tombstone u ds) ≡ none
tombstone_of-remove_none u v ds h = elim (Bool-cases (v == u)) [
  | inl same ↦ rw ((==_iff v u).0 same) (tombstone_of-remove_self u ds)
  | inr other ↦ tombstone_of-remove_ne u v ds (λ i. ground arith) ∙ h
]

module _ (alive : Uuid → Option Bool) where
  -- What the loop over the tombstoned groups makes of them.
  pub record IsSifted (us : List Uuid) (ds rest : Stones) (dead : List Uuid) : Type 0 where
    pub dead_is : All (λ u. alive u ≡ some false) dead
    pub dead_all : (v : Uuid) → contains v us ≡ true → alive v ≡ some false → contains v dead ≡ true
    pub scrubbed :
        (v : Uuid) → contains v us ≡ true → alive v ≡ some true → tombstone_of v rest ≡ none
    pub none_stays : (v : Uuid) → tombstone_of v ds ≡ none → tombstone_of v rest ≡ none
    pub stays : (v : Uuid) → alive v ≡ some false → tombstone_of v rest ≡ tombstone_of v ds

  IsSifted-scrub :
      (u : Uuid) (us : List Uuid) (ds rest : Stones) (dead : List Uuid)
      → alive u ≡ some true
      → IsSifted us (remove_tombstone u ds) rest dead
      → IsSifted (u ∷ us) ds rest dead
  unfolding contains
  IsSifted-scrub u us ds rest dead live s = record {
    dead_is = s.dead_is;
    dead_all = λ v inside h. elim (Bool-cases (u == v)) [
      | inl same ↦ absurd (cc (live, h, (==_iff u v).0 same))
      | inr other ↦ s.dead_all v (ground arith) h
    ];
    scrubbed = λ v inside h. elim (Bool-cases (u == v)) [
      | inl same ↦ s.none_stays v (rw (← (==_iff u v).0 same) (tombstone_of-remove_self u ds))
      | inr other ↦ s.scrubbed v (ground arith) h
    ];
    none_stays = λ v h. s.none_stays v (tombstone_of-remove_none u v ds h);
    stays = λ v h. s.stays v h ∙ tombstone_of-remove_ne u v ds (λ i. cc (i, live, h));
  }

  IsSifted-dead :
      (u : Uuid) (us : List Uuid) (ds rest : Stones) (dead : List Uuid)
      → alive u ≡ some false
      → IsSifted us ds rest dead
      → IsSifted (u ∷ us) ds rest (u ∷ dead)
  unfolding contains
  IsSifted-dead u us ds rest dead gone s = record {
    dead_is = (gone, s.dead_is);
    dead_all = λ v inside h. elim (Bool-cases (u == v)) [
      | inl same ↦ rw (same, contains) refl
      | inr other ↦ rw (other, contains) (s.dead_all v (ground arith) h)
    ];
    scrubbed = λ v inside h. elim (Bool-cases (u == v)) [
      | inl same ↦ absurd (cc (gone, h, (==_iff u v).0 same))
      | inr other ↦ s.scrubbed v (ground arith) h
    ];
    none_stays = s.none_stays;
    stays = s.stays;
  }

  pub sift-IsSifted :
      (us : List Uuid) (ds : Stones)
      → All (λ u. alive u ≢ none) us
      → (rest : Stones) × (dead : List Uuid) × (sift alive us ds ≡ some (rest, dead))
        × IsSifted us ds rest dead
  unfolding sift contains
  sift-IsSifted [] ds h = (
    ds,
    [],
    refl,
    record {
      dead_is = tt;
      dead_all = λ v inside e. cc;
      scrubbed = λ v inside e. cc;
      none_stays = λ v e. e;
      stays = λ v e. refl;
    },
  )
  sift-IsSifted (u ∷ us) ds (h, hs) = elim (Option-cases (alive u)) [
    | inl stuck ↦ absurd (h stuck)
    | inr (true, live) ↦
        let (rest, dead, ran, s) = sift-IsSifted us (remove_tombstone u ds) hs in
        (rest, dead, rw (live, sift) ran, IsSifted-scrub u us ds rest dead live s)
    | inr (false, gone) ↦
        let (rest, dead, ran, s) = sift-IsSifted us ds hs in
        (rest, u ∷ dead, rw (gone, ran, sift) refl, IsSifted-dead u us ds rest dead gone s)
  ]
