-- ===== src/Ingest/Materialize/Orphans.antt =====
-- No group or entry is left without its parent
-- (`materialize_group_tombstones` of crates/keys-engine/src/ingest.rs).
use keys_core.Base.{
  ℕ, ◌≤◌, Bool, true, false, Option, none, some, List, [], ◌∷◌, ◌==◌, ◌≡◌, ◌≢◌, ◌↔◌, refl, sym, ◌∙◌,
  not, ◌&&◌, arith, Bool-cases, Option-cases, inl, inr, ==_iff, All, All-imp, length,
}
use keys_core.Vault.Tables.{Uuid, Group, Db, ok}
use keys_core.Vault.Queries.{group_exists}
use keys_core.Vault.Groups.Ancestors.{IsTree}
use keys_core.Vault.Entries.Flags.{EntriesPlaced}
use keys_core.Vault.Tombstones.{tombstone_of}
use keys_core.Ingest.Tombstones.{Stones}
use keys_core.Ingest.Materialize.{
  contains, holds_entry, tombstoned, group_depth, max_depth, sort_deepest, over_tombstoned,
  materialize_group_tombstones,
}
use keys_core.Ingest.Materialize.Alive.{IsKeyed, group_alive_returns, group_alive-false}
use keys_core.Ingest.Materialize.Kept.{IsKept, group_alive-IsKept, IsKept-alive}
use keys_core.Ingest.Materialize.Sift.{IsSifted, sift-IsSifted}
use keys_core.Ingest.Materialize.Rows.{
  contains-All, contains-sort, All-sort, IsDescending-sort, delete_group_rows-IsTree,
}
use keys_core.Ingest.Materialize.Closed.{
  EntriesPlaced-left, Deepens-depth, lives, IsClosed-dead, tombstoned-exists,
}

-- A stored group that is not among the tombstoned groups has no tombstone.
tombstone_of-untombstoned :
    (gs : List Group) (ds : Stones) (v : Uuid)
    → group_exists gs v ≡ true
    → contains v (tombstoned gs ds) ≡ false
    → tombstone_of v ds ≡ none
unfolding tombstoned contains tombstone_of
tombstone_of-untombstoned gs [] v there h = refl
tombstone_of-untombstoned gs ((u, t) ∷ ds) v there h = elim (Bool-cases (u == v)) [
  | inl same ↦
      let here : group_exists gs u ≡ true = rw ((==_iff u v).0 same) there in absurd (ground arith)
  | inr other ↦ rw (other, tombstone_of) (tombstone_of-untombstoned gs ds v there (ground arith))
]

-- What a finished pass has done to the groups, the entries and the tombstones.
pub record IsMaterialized (db db' : Db) (deleted : List Uuid) : Type 0 where
  pub tree : IsTree db'.groups
  pub placed : EntriesPlaced db'.groups db'.entries
  pub unmarked :
      (v : Uuid) → group_exists db'.groups v ≡ true → tombstone_of v db'.deleted_objects ≡ none
  pub left :
      (v : Uuid)
      → group_exists db'.groups v ≡ (group_exists db.groups v && not (contains v deleted))
  pub kept :
      (v : Uuid)
      → (group_exists db'.groups v ≡ true) ↔ ((group_exists db.groups v ≡ true) × IsKept db v)
  pub marked :
      (v : Uuid)
      → contains v deleted ≡ true
      → tombstone_of v db'.deleted_objects ≡ tombstone_of v db.deleted_objects

-- A group that is left has no tombstone.
unmarked_left :
    (alive : Uuid → Option Bool) (d : Uuid → ℕ) (gs left : List Group) (stones : List Uuid)
    (ds rest : Stones) (dead : List Uuid)
    → IsSifted alive stones ds rest dead
    → All (λ u. alive u ≢ none) stones
    → ((v : Uuid) → group_exists gs v ≡ true → contains v stones ≡ false → tombstone_of v ds ≡ none)
    → ((v : Uuid)
        → group_exists left v ≡ (group_exists gs v && not (contains v (sort_deepest d dead))))
    → (v : Uuid) → group_exists left v ≡ true
    → tombstone_of v rest ≡ none
unmarked_left alive d gs left stones ds rest dead sifted returns off split v h =
    let both : (group_exists gs v && not (contains v (sort_deepest d dead))) ≡ true =
      sym (split v) ∙ h in
    elim (Bool-cases (contains v stones)) [
      | inr outside ↦ sifted.none_stays v (off v (ground arith) outside)
      | inl inside ↦ elim (Option-cases (alive v)) [
        | inl stuck ↦ absurd (contains-All (λ u. alive u ≢ none) v stones returns inside stuck)
        | inr (true, live) ↦ sifted.scrubbed v inside live
        | inr (false, gone) ↦
            let listed = contains-sort d v dead ∙ sifted.dead_all v inside gone in
            absurd (ground (arith, both, listed))
      ]
    ]

-- A group that is among the tombstoned groups has a tombstone.
tombstone_of-tombstoned :
    (gs : List Group) (ds : Stones) (v : Uuid)
    → contains v (tombstoned gs ds) ≡ true
    → tombstone_of v ds ≢ none
unfolding tombstoned contains tombstone_of
tombstone_of-tombstoned gs [] v h e = cc
tombstone_of-tombstoned gs ((u, t) ∷ ds) v h e = elim (Bool-cases (u == v)) [
  | inl same ↦ ground (arith, same)
  | inr other ↦ elim (Bool-cases (group_exists gs u)) [
    | inl there ↦
        tombstone_of-tombstoned gs ds v
          (ground (arith, rw (there, other, tombstoned, contains) at h)) (ground arith)
    | inr missing ↦ tombstone_of-tombstoned gs ds v (rw (missing, tombstoned) at h) (ground arith)
  ]
]

module _ (fuel : ℕ) (db : Db) (stones : List Uuid) (keyed : IsKeyed db.groups)
    (off : (v : Uuid)
      → group_exists db.groups v ≡ true
      → contains v stones ≡ false
      → tombstone_of v db.deleted_objects ≡ none)
    (marks : (v : Uuid) → contains v stones ≡ true → tombstone_of v db.deleted_objects ≢ none) where
  -- The groups that are not listed as dead are those that stay.
  kept_iff :
      (d : Uuid → ℕ) (left : List Group) (ds rest : Stones) (dead : List Uuid)
      → IsSifted (lives fuel db.groups db.entries stones) stones ds rest dead
      → All (λ u. lives fuel db.groups db.entries stones u ≢ none) stones
      → ((v : Uuid)
          → group_exists left v
            ≡ (group_exists db.groups v && not (contains v (sort_deepest d dead))))
      → (v : Uuid)
      → (group_exists left v ≡ true) ↔ ((group_exists db.groups v ≡ true) × IsKept db v)
  kept_iff d left ds rest dead sifted returns split v = (
    λ h.
        (let both : (group_exists db.groups v && not (contains v (sort_deepest d dead))) ≡ true =
            sym (split v) ∙ h in
          let there : group_exists db.groups v ≡ true = ground arith in
          (
            there,
            elim (Bool-cases (contains v stones)) [
              | inr outside ↦ IsKept.unmarked (off v there outside)
              | inl inside ↦ elim (Option-cases (lives fuel db.groups db.entries stones v)) [
                | inl stuck ↦ absurd (
                    contains-All (λ u. lives fuel db.groups db.entries stones u ≢ none) v stones
                      returns inside stuck)
                | inr (true, live) ↦ group_alive-IsKept db stones keyed off marks fuel v there live
                | inr (false, gone) ↦
                    let listed = contains-sort d v dead ∙ sifted.dead_all v inside gone in
                    absurd (ground (arith, both, listed))
              ]
            ],
          )),
    λ k. elim (Bool-cases (contains v (sort_deepest d dead))) [
      | inr stays ↦ split v ∙ rw (k.0, stays) refl
      | inl listed ↦ absurd (
          IsKept-alive db stones keyed off marks fuel k.1 (
            contains-All (λ u. lives fuel db.groups db.entries stones u ≡ some false) v dead
              sifted.dead_is (sym (contains-sort d v dead) ∙ listed)))
    ],
  )

over_tombstoned-IsMaterialized :
    (fuel : ℕ) (db : Db) (stones : List Uuid)
    → IsTree db.groups
    → IsKeyed db.groups
    → EntriesPlaced db.groups db.entries
    → length db.groups ≤ fuel
    → length db.groups ≤ max_depth
    → All (λ u. group_exists db.groups u ≡ true) stones
    → ((v : Uuid)
        → group_exists db.groups v ≡ true
        → contains v stones ≡ false
        → tombstone_of v db.deleted_objects ≡ none)
    → ((v : Uuid) → contains v stones ≡ true → tombstone_of v db.deleted_objects ≢ none)
    → (db' : Db) × (deleted : List Uuid) × (over_tombstoned fuel db stones
        ≡ some (ok (db', deleted)))
      × IsMaterialized db db' deleted
unfolding contains
over_tombstoned-IsMaterialized fuel db [] t keyed placed le small there off marks = (
  db,
  [],
  refl,
  record {
    tree = t;
    placed = placed;
    unmarked = λ v h. off v h refl;
    left = λ v. ground arith;
    kept = λ v. ((λ h. (h, IsKept.unmarked (off v h refl))), λ k. k.0);
    marked = λ v h. cc;
  },
)
over_tombstoned-IsMaterialized fuel db (s ∷ more) t keyed placed le small there off marks =
    let stones = s ∷ more in
    let gs = db.groups in
    let alive = lives fuel gs db.entries stones in
    let d = group_depth gs in
    let returns =
      All-imp (λ u. group_exists gs u ≡ true) (λ u. alive u ≢ none)
        (λ u h. group_alive_returns gs db.entries stones t keyed fuel u h le) stones there in
    let (ds, dead, ran, sifted) = sift-IsSifted alive stones db.deleted_objects returns in
    let order = sort_deepest d dead in
    let bare =
      All-imp (λ u. alive u ≡ some false) (λ u. holds_entry db.entries u ≡ false)
        (λ u h. (group_alive-false gs db.entries stones fuel u h).1) order
        (All-sort d (λ u. alive u ≡ some false) dead sifted.dead_is) in
    let (rest, deleted_ok, tree, left) =
      delete_group_rows-IsTree d order db.entries gs t (IsDescending-sort d dead)
        (Deepens-depth gs t keyed small)
        (IsClosed-dead fuel gs db.entries stones d dead sifted.dead_is sifted.dead_all) bare in
    (
      record db { groups = rest; deleted_objects = ds },
      order,
      rw (ran, deleted_ok) refl,
      record {
        tree = tree;
        placed = EntriesPlaced-left gs rest order db.entries bare left placed;
        unmarked =
            unmarked_left alive d gs rest stones db.deleted_objects ds dead sifted returns off left;
        left = left;
        kept =
            kept_iff fuel db stones keyed off marks d rest db.deleted_objects ds dead sifted returns
              left;
        marked = λ v h. sifted.stays v (
            contains-All (λ u. alive u ≡ some false) v dead sifted.dead_is
              (sym (contains-sort d v dead) ∙ h));
      },
    )

-- Where every chain of parents ends and every parent is stored, every group's row is the one that its id
-- finds, every entry is in a stored group, and there are at most 100,000 groups: with as much fuel as
-- there are groups, the pass returns, and no deletion is refused. The groups that are left are those
-- without a tombstone, those that hold an entry, and those above such a group, and no others; their
-- parents are stored, every chain of parents ends, every entry is in one of them, and none of them has a
-- tombstone then. The others are the deleted ones, and these keep their tombstones.
pub materialize_group_tombstones-IsMaterialized :
    (fuel : ℕ) (db : Db)
    → IsTree db.groups
    → IsKeyed db.groups
    → EntriesPlaced db.groups db.entries
    → length db.groups ≤ fuel
    → length db.groups ≤ 100_000
    → (db' : Db) × (deleted : List Uuid) × (materialize_group_tombstones fuel db
        ≡ some (ok (db', deleted)))
      × IsMaterialized db db' deleted
unfolding materialize_group_tombstones max_depth
materialize_group_tombstones-IsMaterialized fuel db t keyed placed le small =
    over_tombstoned-IsMaterialized fuel db (tombstoned db.groups db.deleted_objects) t keyed placed
      le small (tombstoned-exists db.groups db.deleted_objects)
      (tombstone_of-untombstoned db.groups db.deleted_objects)
      (tombstone_of-tombstoned db.groups db.deleted_objects)
