-- ===== src/Ingest/Materialize/Closed.antt =====
-- The dead groups are closed below, hold no entry, and are deleted from the deepest up
-- (`materialize_group_tombstones` of crates/keys-engine/src/ingest.rs).
use keys_core.Base.{
  ℕ, suc, ◌≤◌, ◌<◌, Bool, true, false, Option, some, List, [], ◌∷◌, ◌≡◌, refl, ◌∙◌, not, ◌&&◌,
  arith, Bool-cases, inl, inr, ==_refl, All, All-imp, All-of, All-map₂, is_some_of, length,
}
use keys_core.Vault.Tables.{Uuid, Group, Entry, find_group}
use keys_core.Vault.Queries.{group_exists, parent_of, child_groups}
use keys_core.Vault.Groups.Ancestors.{IsTree}
use keys_core.Vault.Entries.Flags.{EntriesPlaced}
use keys_core.Ingest.Tombstones.{Stones}
use keys_core.Ingest.Materialize.{
  contains, holds_entry, tombstoned, group_alive, group_depth, max_depth, depth_rounds,
  sort_deepest,
}
use keys_core.Ingest.Materialize.Alive.{IsKeyed, depth-child, group_alive-false}
use keys_core.Ingest.Materialize.Rows.{contains-All, contains-sort, Deepens, IsClosed}

holds_entry-All :
    (es xs : List Entry)
    → ((u : Uuid) → holds_entry xs u ≡ true → holds_entry es u ≡ true)
    → All (λ e. holds_entry es e.group_uuid ≡ true) xs
unfolding holds_entry
holds_entry-All es [] sub = tt
holds_entry-All es (e ∷ xs) sub = (
  sub e.group_uuid (rw (==_refl e.group_uuid) refl),
  holds_entry-All es xs (λ u h. sub u (ground (arith, h))),
)

-- An entry's group is not one that holds no entry.
pub EntriesPlaced-left :
    (gs rest : List Group) (gone : List Uuid) (es : List Entry)
    → All (λ u. holds_entry es u ≡ false) gone
    → ((v : Uuid) → group_exists rest v ≡ (group_exists gs v && not (contains v gone)))
    → EntriesPlaced gs es
    → EntriesPlaced rest es
EntriesPlaced-left gs rest gone es bare left placed =
    All-map₂ _ _ _
      (λ e there holds. elim (Bool-cases (contains e.group_uuid gone)) [
        | inl dead ↦
            absurd
              (cc (contains-All (λ u. holds_entry es u ≡ false) e.group_uuid gone bare dead, holds))
        | inr stays ↦ left e.group_uuid ∙ rw (there, stays) refl
      ])
      es placed (holds_entry-All es es (λ u h. h))

contains-child_groups :
    (gs : List Group) (P : Uuid → Type 0) (u : Uuid)
    → All P (child_groups gs u)
    → All (λ g. g.parent_uuid ≡ some u → P g.uuid) gs
unfolding child_groups
contains-child_groups [] P u h = tt
contains-child_groups (g ∷ gs) P u h = elim (Bool-cases (is_some_of g.parent_uuid u)) [
  | inl child ↦
      let (k, ks) = (rw (child, child_groups) at h) in ((λ i. k), contains-child_groups gs P u ks)
  | inr other ↦
      ((λ i. absurd (ground arith)), contains-child_groups gs P u (rw (other, child_groups) at h))
]

All-swap :
    (P : Uuid → Group → Type 0) (gs : List Group)
    → ((p : Uuid) → All (P p) gs)
    → All (λ g. (p : Uuid) → P p g) gs
All-swap P [] h = tt
All-swap P (g ∷ gs) h = ((λ p. (h p).0), All-swap P gs (λ p. (h p).1))

pub Deepens-depth :
    (gs : List Group) → IsTree gs → IsKeyed gs → length gs ≤ max_depth → Deepens (group_depth gs) gs
unfolding group_depth
Deepens-depth gs t keyed le =
    All-imp (λ g. find_group gs g.uuid ≡ some g)
      (λ g.
        (p : Uuid)
        → g.parent_uuid ≡ some p
        → depth_rounds (suc max_depth) gs p < depth_rounds (suc max_depth) gs g.uuid)
      (λ g found p is. depth-child gs g.uuid p max_depth t le (unfold parent_of in rw found is)) gs
      keyed

module _ (fuel : ℕ) (gs : List Group) (es : List Entry) (stones : List Uuid) where
  abbrev pub lives : Uuid → Option Bool
  lives = group_alive fuel gs es stones

  pub IsClosed-dead :
      (d : Uuid → ℕ) (dead : List Uuid)
      → All (λ u. lives u ≡ some false) dead
      → ((v : Uuid) → contains v stones ≡ true → lives v ≡ some false → contains v dead ≡ true)
      → IsClosed d (sort_deepest d dead) gs
  IsClosed-dead d dead dead_is dead_all =
      All-swap
        (λ p g.
          g.parent_uuid ≡ some p
          → contains p (sort_deepest d dead) ≡ true
          → contains g.uuid (sort_deepest d dead) ≡ true)
        gs
        (λ p. elim (Bool-cases (contains p dead)) [
          | inl inside ↦
              let gone = contains-All (λ u. lives u ≡ some false) p dead dead_is inside in
              let below = (group_alive-false gs es stones fuel p gone).2 in
              All-imp (λ g. g.parent_uuid ≡ some p → lives g.uuid ≡ some false) _
                (λ g h is k.
                  contains-sort d g.uuid dead
                  ∙ dead_all g.uuid (group_alive-false gs es stones fuel g.uuid (h is)).0 (h is))
                gs (contains-child_groups gs (λ c. lives c ≡ some false) p below)
          | inr outside ↦ All-of _ (λ g is k. absurd (cc (k, contains-sort d p dead, outside))) gs
        ])

pub tombstoned-exists :
    (gs : List Group) (ds : Stones) → All (λ u. group_exists gs u ≡ true) (tombstoned gs ds)
unfolding tombstoned
tombstoned-exists gs [] = tt
tombstoned-exists gs ((u, t) ∷ ds) = elim (Bool-cases (group_exists gs u)) [
  | inl there ↦ rw (there, tombstoned) (there, tombstoned-exists gs ds)
  | inr missing ↦ rw (missing, tombstoned) (tombstoned-exists gs ds)
]
