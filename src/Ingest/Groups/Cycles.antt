-- ===== src/Ingest/Groups/Cycles.antt =====
-- The cycles that moves on both sides can leave are broken
-- (`break_group_cycles` of crates/keys-engine/src/ingest.rs).
use keys_core.Base.{
  ℕ, zero, suc, ◌+◌, ◌≤◌, ◌<◌, true, Option, none, some, List, [], ◌∷◌, ◌++◌, ◌==◌, ◌≡◌, ◌≢◌, refl,
  sym, ◌∙◌, subst, if◌then◌else◌, arith, Option-cases, inl, inr, All, Any, length,
}
use keys_core.Vault.Tables.{Uuid, Group, find_group, update_groups}
use keys_core.Vault.Queries.{group_exists, parent_of}
use keys_core.Vault.Groups.Ancestors.{
  Ends, top, up, IsTree, ParentsExist, ParentsExist-update, group_exists-update,
  parent_of-update_ne,
}
use keys_core.Ingest.Groups.{Pass, find_one_cycle, victim, reroot, break_group_cycles}
use keys_core.Ingest.Groups.Walks.{
  find_one_cycle_returns, find_one_cycle-Ends, find_one_cycle-cycle, find_one_cycle-nonempty,
  victim-All, exists_of_parent,
}

-- The keys of the map of parents: every group with a parent is among them.
abbrev pub AreKeys : (List Group → List Uuid) → Type 0
AreKeys keys = (gs : List Group) (u p : Uuid) → parent_of gs u ≡ some p → Any (λ v. v ≡ u) (keys gs)

abbrev is_away : Uuid → Option Uuid → ℕ
is_away root none = 0
is_away root (some p) = if p == root then 0 else 1

-- The number of groups with a parent other than the root.
unfoldable pub away : Uuid → List Group → ℕ
away root [] = 0
away root (g ∷ gs) = is_away root g.parent_uuid + away root gs

pub away_le : (root : Uuid) (gs : List Group) → away root gs ≤ length gs
unfolding away
away_le root [] = omega arith
away_le root (g ∷ gs) = ground (arith, away_le root gs)

away-reroot_le :
    (root v : Uuid) (gs : List Group) → away root (update_groups v (reroot root) gs) ≤ away root gs
unfolding away update_groups
away-reroot_le root v [] = omega arith
away-reroot_le root v (g ∷ gs) = ground (arith, away-reroot_le root v gs)

away-reroot :
    (root v p : Uuid) (gs : List Group)
    → parent_of gs v ≡ some p
    → p ≢ root
    → away root (update_groups v (reroot root) gs) < away root gs
unfolding away update_groups parent_of find_group
away-reroot root v p [] h ne = cc
away-reroot root v p (g ∷ gs) h ne =
    ground (arith, away-reroot root v p gs, away-reroot_le root v gs)

pub length-update_groups :
    (v : Uuid) (f : Group → Group) (gs : List Group) → length (update_groups v f gs) ≡ length gs
unfolding update_groups
length-update_groups v f [] = refl
length-update_groups v f (g ∷ gs) = ground (arith, length-update_groups v f gs)

Ends-member :
    (gs : List Group) (u : Uuid) (us : List Uuid)
    → All (λ v. Ends gs v) us
    → Any (λ v. v ≡ u) us
    → Ends gs u
Ends-member gs u [] es k = elim k [ ]
Ends-member gs u (v ∷ us) (e, es) (inl i) = subst (λ x. Ends gs x) i e
Ends-member gs u (v ∷ us) (e, es) (inr k) = Ends-member gs u us es k

-- The links that the passes leave: to stored groups, and none from the root.
pub record IsLinked (root : Uuid) (gs : List Group) : Type 0 where
  pub parents : ParentsExist gs
  pub root_is : parent_of gs root ≡ none
  pub root_exists : group_exists gs root ≡ true

-- A group whose chain does not end has a parent, and not the root.
parent_of-endless :
    (root : Uuid) (gs : List Group) (v : Uuid)
    → IsLinked root gs
    → ¬ Ends gs v
    → (p : Uuid) × (parent_of gs v ≡ some p) × (p ≢ root)
parent_of-endless root gs v l endless = elim (Option-cases (parent_of gs v)) [
  | inl none_is ↦ absurd (endless (top none_is))
  | inr (p, h) ↦
      (p, h, λ i. endless (up p h (top (subst (λ x. parent_of gs x ≡ none) (sym i) l.root_is))))
]

IsLinked-reroot :
    (root v p : Uuid) (gs : List Group)
    → parent_of gs v ≡ some p
    → IsLinked root gs
    → IsLinked root (update_groups v (reroot root) gs)
IsLinked-reroot root v p gs h l = record {
  parents =
      ParentsExist-update (reroot root) root (λ g. refl) (λ g. refl) gs v
        (exists_of_parent gs v p h) l.root_exists l.parents;
  root_is =
      parent_of-update_ne (reroot root) root (λ g. refl) (λ g. refl) gs v root
        (λ i.
          let is : none ≡ some p = sym l.root_is ∙ subst (λ x. parent_of gs x ≡ some p) (sym i) h in
          cc)
      ∙ l.root_is;
  root_exists = group_exists-update (reroot root) (λ g. refl) gs v root ∙ l.root_exists;
}

module _ (keys : List Group → List Uuid) (complete : AreKeys keys) where
  -- Where every link is to a stored group and the root has no parent, the cycles are broken in at most
  -- as many turns as there are groups below others than the root, and the groups are a tree.
  pub break_group_cycles-IsTree :
      (rounds fuel : ℕ) (root : Uuid) (s : Pass)
      → length s.groups < rounds
      → away root s.groups < fuel
      → IsLinked root s.groups
      → (done : Pass) × (break_group_cycles keys rounds fuel root s ≡ some done)
        × IsTree done.groups
        × IsLinked root done.groups
        × (length done.groups ≡ length s.groups)
  unfolding break_group_cycles
  break_group_cycles-IsTree rounds zero root s lt le l = absurd (omega (arith, le))
  break_group_cycles-IsTree rounds (suc fuel) root s lt le l =
      elim (Option-cases (find_one_cycle rounds s.groups (keys s.groups))) [
        | inl stuck ↦ absurd (find_one_cycle_returns rounds s.groups (keys s.groups) lt stuck)
        | inr (none, off) ↦ (
          s,
          rw (off, break_group_cycles) refl,
          record {
            ends = λ u. elim (Option-cases (parent_of s.groups u)) [
              | inl is_top ↦ top is_top
              | inr (p, h) ↦
                  Ends-member s.groups u (keys s.groups)
                    (find_one_cycle-Ends rounds s.groups (keys s.groups) off)
                    (complete s.groups u p h)
            ];
            parents = l.parents;
          },
          l,
          refl,
        )
        | inr (some [], off) ↦ absurd (find_one_cycle-nonempty rounds s.groups (keys s.groups) off)
        | inr (some (u ∷ us), found) ↦
            let (h, hs) = find_one_cycle-cycle rounds s.groups (keys s.groups) (u ∷ us) found in
            let v = victim u us in
            let endless = victim-All (λ x. ¬ Ends s.groups x) u us h hs in
            let (p, is, ne) = parent_of-endless root s.groups v l endless in
            let (done, ran, t, linked, same) =
              break_group_cycles-IsTree rounds fuel root
                (record s {
                  groups = update_groups v (reroot root) s.groups;
                  groups_moved = s.groups_moved ++ v ∷ [];
                })
                (rw (length-update_groups v (reroot root) s.groups) lt)
                (omega (arith, le, away-reroot root v p s.groups is ne))
                (IsLinked-reroot root v p s.groups is l) in
            (
              done,
              rw (found, break_group_cycles) ran,
              t,
              linked,
              same ∙ length-update_groups v (reroot root) s.groups,
            )
      ]
