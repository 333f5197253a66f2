-- ===== src/Ingest/Materialize/Kept.antt =====
-- Which groups stay (`group_alive` of crates/keys-engine/src/ingest.rs).
use keys_core.Base.{
  ℕ, zero, suc, Bool, true, false, Option, none, some, List, [], ◌∷◌, ◌==◌, ◌≡◌, ◌≢◌, subst, arith,
  Bool-cases, Option-cases, inl, inr, ==_iff, ==_refl, All, Any, is_some_of,
}
use keys_core.Vault.Tables.{Uuid, Group, Entry, Db, find_group}
use keys_core.Vault.Queries.{group_exists, parent_of, child_groups}
use keys_core.Vault.Tombstones.{tombstone_of}
use keys_core.Ingest.Groups.Walks.{exists_of_parent}
use keys_core.Ingest.Materialize.{contains, holds_entry, any_alive, group_alive}
use keys_core.Ingest.Materialize.Alive.{IsKeyed, child_groups-All, group_alive-false}

-- A group stays if it has no tombstone, holds an entry, or has a child that stays.
pub data IsKept (db : Db) : Uuid → Type 0 where
  unmarked : {u : Uuid} → tombstone_of u db.deleted_objects ≡ none → IsKept db u
  holding : {u : Uuid} → Any (λ e. e.group_uuid ≡ u) db.entries → IsKept db u
  above : {u : Uuid} (c : Uuid) → parent_of db.groups c ≡ some u → IsKept db c → IsKept db u

holds_entry-Any :
    (es : List Entry) (u : Uuid) → holds_entry es u ≡ true → Any (λ e. e.group_uuid ≡ u) es
unfolding holds_entry
holds_entry-Any [] u h = cc
holds_entry-Any (e ∷ es) u h = elim (Bool-cases (e.group_uuid == u)) [
  | inl same ↦ inl ((==_iff e.group_uuid u).0 same)
  | inr other ↦ inr (holds_entry-Any es u (ground (arith, other, h)))
]

Any-holds_entry :
    (es : List Entry) (u : Uuid) → Any (λ e. e.group_uuid ≡ u) es → holds_entry es u ≡ true
unfolding holds_entry
Any-holds_entry [] u k = elim k [ ]
Any-holds_entry (e ∷ es) u (inl is) = ground (arith, is)
Any-holds_entry (e ∷ es) u (inr k) = ground (arith, Any-holds_entry es u k)

any_alive-true :
    (alive : Uuid → Option Bool) (P : Uuid → Type 0) (cs : List Uuid)
    → any_alive alive cs ≡ some true
    → All P cs
    → (c : Uuid) × P c × (alive c ≡ some true)
unfolding any_alive
any_alive-true alive P [] h ps = cc
any_alive-true alive P (c ∷ cs) h (p, ps) = elim (Option-cases (alive c)) [
  | inl stuck ↦ absurd (ground arith)
  | inr (true, is) ↦ (c, p, is)
  | inr (false, is) ↦ any_alive-true alive P cs (ground arith) ps
]

-- A property of the children of a group, at one of them.
All-child :
    (gs : List Group) (P : Uuid → Type 0) (u c : Uuid)
    → All P (child_groups gs u)
    → parent_of gs c ≡ some u
    → P c
unfolding child_groups parent_of find_group
All-child [] P u c h e = cc
All-child (g ∷ gs) P u c h e = elim (Bool-cases (g.uuid == c)) [
  | inl same ↦
      let its : g.parent_uuid ≡ some u = ground arith in
      let k : All P (g.uuid ∷ child_groups gs u) = rw (its, ==_refl u, child_groups) at h in
      subst P ((==_iff g.uuid c).0 same) k.0
  | inr other ↦
      let rest : parent_of gs c ≡ some u = ground arith in
      elim (Bool-cases (is_some_of g.parent_uuid u)) [
        | inl its ↦ All-child gs P u c ((rw (its, child_groups) at h).1) rest
        | inr off ↦ All-child gs P u c (rw (off, child_groups) at h) rest
      ]
]

module _ (db : Db) (stones : List Uuid) (keyed : IsKeyed db.groups)
    (off : (v : Uuid)
      → group_exists db.groups v ≡ true
      → contains v stones ≡ false
      → tombstone_of v db.deleted_objects ≡ none)
    (marks : (v : Uuid) → contains v stones ≡ true → tombstone_of v db.deleted_objects ≢ none) where
  pub group_alive-IsKept :
      (fuel : ℕ) (u : Uuid)
      → group_exists db.groups u ≡ true
      → group_alive fuel db.groups db.entries stones u ≡ some true
      → IsKept db u
  unfolding group_alive
  group_alive-IsKept zero u x h = cc
  group_alive-IsKept (suc fuel) u x h = elim (Bool-cases (contains u stones)) [
    | inr outside ↦ unmarked (off u x outside)
    | inl inside ↦ elim (Bool-cases (holds_entry db.entries u)) [
      | inl holds ↦ holding (holds_entry-Any db.entries u holds)
      | inr bare ↦
          let (c, is, alive) =
            any_alive-true (group_alive fuel db.groups db.entries stones)
              (λ c. parent_of db.groups c ≡ some u) (child_groups db.groups u) (ground arith)
              (child_groups-All db.groups u db.groups keyed) in
          above c is (group_alive-IsKept fuel c (exists_of_parent db.groups c u is) alive)
    ]
  ]

  pub IsKept-alive :
      {u : Uuid} (fuel : ℕ)
      → IsKept db u
      → group_alive fuel db.groups db.entries stones u ≢ some false
  IsKept-alive {u} fuel (unmarked bare) h =
      marks u (group_alive-false db.groups db.entries stones fuel u h).0 bare
  IsKept-alive {u} fuel (holding some_entry) h = cc (
    (group_alive-false db.groups db.entries stones fuel u h).1,
    Any-holds_entry db.entries u some_entry,
  )
  IsKept-alive {u} fuel (above c is k) h = IsKept-alive fuel k (
      All-child db.groups (λ v. group_alive fuel db.groups db.entries stones v ≡ some false) u c
        (group_alive-false db.groups db.entries stones fuel u h).2 is)
