-- ===== src/Vault/Groups/Ancestors.antt =====
-- The parent chain of a group: where it ends, what it meets, and what a new parent does to it
-- (the walks of crates/keys-engine/src/mutations.rs).
use keys_core.Base.{
  ℕ, zero, suc, ◌≤◌, true, false, none, some, List, [], ◌∷◌, ◌==◌, ◌≡◌, ◌≢◌, refl, sym, ◌∙◌, arith,
  Bool-cases, Option-cases, subst, inl, inr, ==_iff,
}
use keys_core.Vault.Tables.{Uuid, Group, find_group, update_groups}
use keys_core.Vault.Queries.{group_exists, parent_of}
use keys_core.Vault.Groups.{climb}

-- The chain from `u` up comes to a group without a parent.
pub data Ends (gs : List Group) : Uuid → Type 0 where
  top : {u : Uuid} → parent_of gs u ≡ none → Ends gs u
  up : {u : Uuid} (p : Uuid) → parent_of gs u ≡ some p → Ends gs p → Ends gs u

-- No chain runs in a circle.
abbrev pub Acyclic : List Group → Type 0
Acyclic gs = (u : Uuid) → Ends gs u

-- `IsAncestor gs a u`: `a` is `u` or stands above it.
pub data IsAncestor (gs : List Group) (a : Uuid) : Uuid → Type 0 where
  self : {u : Uuid} → a ≡ u → IsAncestor gs a u
  above : {u : Uuid} (p : Uuid) → parent_of gs u ≡ some p → IsAncestor gs a p → IsAncestor gs a u

-- The number of groups on the chain.
abbrev pub height : {gs : List Group} {u : Uuid} → Ends gs u → ℕ
height (top h) = 1
height (up p h e) = suc (height e)

pub IsAncestor-trans :
    {gs : List Group} {a b c : Uuid} → IsAncestor gs a b → IsAncestor gs b c → IsAncestor gs a c
IsAncestor-trans {gs} {a} h (self e) = subst (λ x. IsAncestor gs a x) e h
IsAncestor-trans h (above p e k) = above p e (IsAncestor-trans h k)

-- A chain that ends does not pass through a group whose parent it reaches again.
pub not-cycle :
    {gs : List Group} {u : Uuid} (q : Uuid)
    → Ends gs u
    → parent_of gs u ≡ some q
    → ¬ IsAncestor gs u q
not-cycle q (top h) e k = cc
not-cycle {gs} {u} q (up p h ends) e (self i) = not-cycle p ends (cc (h, e, i)) (self refl)
not-cycle {gs} {u} q (up p h ends) e (above p' e' k) =
    not-cycle p' ends (cc (h, e, e')) (IsAncestor-trans (above p h (self refl)) k)

ne_of : {u : Uuid} (v : Uuid) → (v == u) ≡ false → v ≢ u
ne_of {u} v h i = ground arith

pub group_exists-update :
    (f : Group → Group) (keeps : (g : Group) → (f g).uuid ≡ g.uuid) (gs : List Group) (u v : Uuid)
    → group_exists (update_groups u f gs) v ≡ group_exists gs v
unfolding group_exists find_group update_groups
group_exists-update f keeps [] u v = refl
group_exists-update f keeps (g ∷ gs) u v =
    ground (arith, group_exists-update f keeps gs u v, keeps g)

-- The references of parent_uuid are to stored rows.
abbrev pub ParentsExist : List Group → Type 0
ParentsExist gs = (u p : Uuid) → parent_of gs u ≡ some p → group_exists gs p ≡ true

-- Every chain of parents ends, and every parent is stored. How many groups have no parent is not said
-- here: `IsRooted` of Vault/Groups/Roots allows the root alone.
pub record IsTree (gs : List Group) : Type 0 where
  pub ends : Acyclic gs
  pub parents : ParentsExist gs

-- UPDATE of the row of `u` that sets its parent.
module _ (f : Group → Group) (p : Uuid) (keeps : (g : Group) → (f g).uuid ≡ g.uuid)
    (sets : (g : Group) → (f g).parent_uuid ≡ some p) where
  find_group-update_ne :
      (gs : List Group) (u v : Uuid) → v ≢ u → find_group (update_groups u f gs) v ≡ find_group gs v
  unfolding find_group update_groups
  find_group-update_ne [] u v h = refl
  find_group-update_ne (g ∷ gs) u v h = ground (arith, find_group-update_ne gs u v h, keeps g)

  pub parent_of-update_ne :
      (gs : List Group) (u v : Uuid) → v ≢ u → parent_of (update_groups u f gs) v ≡ parent_of gs v
  unfolding parent_of
  parent_of-update_ne gs u v h = rw (find_group-update_ne gs u v h)

  pub parent_of-update_self :
      (gs : List Group) (u : Uuid)
      → group_exists gs u ≡ true
      → parent_of (update_groups u f gs) u ≡ some p
  unfolding parent_of find_group update_groups group_exists
  parent_of-update_self [] u h = cc
  parent_of-update_self (g ∷ gs) u h = ground (arith, parent_of-update_self gs u, keeps g, sets g)

  module _ (gs : List Group) (u : Uuid) (stored : group_exists gs u ≡ true) where
    -- A chain that does not meet `u` is the same afterwards.
    Ends-off : {v : Uuid} → ¬ IsAncestor gs u v → Ends gs v → Ends (update_groups u f gs) v
    Ends-off {v} off (top h) = top (parent_of-update_ne gs u v (λ i. off (self (sym i))) ∙ h)
    Ends-off {v} off (up q h e) =
        up q (parent_of-update_ne gs u v (λ i. off (self (sym i))) ∙ h)
          (Ends-off (λ k. off (above q h k)) e)

    Ends-update :
        {v : Uuid} → Ends (update_groups u f gs) p → Ends gs v → Ends (update_groups u f gs) v
    Ends-update {v} ends (top h) = elim (Bool-cases (v == u)) [
      | inl same ↦ up p (rw ((==_iff v u).0 same) (parent_of-update_self gs u stored)) ends
      | inr other ↦ top (parent_of-update_ne gs u v (ne_of v other) ∙ h)
    ]
    Ends-update {v} ends (up q h e) = elim (Bool-cases (v == u)) [
      | inl same ↦ up p (rw ((==_iff v u).0 same) (parent_of-update_self gs u stored)) ends
      | inr other ↦ up q (parent_of-update_ne gs u v (ne_of v other) ∙ h) (Ends-update ends e)
    ]

    -- A group may be put below any group that is not in its subtree.
    pub Acyclic-update : ¬ IsAncestor gs u p → Acyclic gs → Acyclic (update_groups u f gs)
    Acyclic-update off ends v = Ends-update (Ends-off off (ends p)) (ends v)

    pub ParentsExist-update :
        group_exists gs p ≡ true → ParentsExist gs → ParentsExist (update_groups u f gs)
    ParentsExist-update there old v q h = elim (Bool-cases (v == u)) [
      | inl same ↦
          let is_p : p ≡ q = cc (parent_of-update_self gs u stored, h, (==_iff v u).0 same) in
          rw (group_exists-update f keeps gs u q) (rw (← is_p) there)
      | inr other ↦
          rw (group_exists-update f keeps gs u q)
            (old v q (sym (parent_of-update_ne gs u v (ne_of v other)) ∙ h))
    ]

    pub IsTree-update :
        group_exists gs p ≡ true → ¬ IsAncestor gs u p → IsTree gs → IsTree (update_groups u f gs)
    IsTree-update there off t = record {
      ends = Acyclic-update off t.ends;
      parents = ParentsExist-update there t.parents;
    }

    IsAncestor-update : {v : Uuid} → IsAncestor gs u v → IsAncestor (update_groups u f gs) u v
    IsAncestor-update (self i) = self i
    IsAncestor-update {v} (above q h k) = elim (Bool-cases (v == u)) [
      | inl same ↦ self (sym ((==_iff v u).0 same))
      | inr other ↦ above q (parent_of-update_ne gs u v (ne_of v other) ∙ h) (IsAncestor-update k)
    ]

    -- A group put below a group of its own subtree is in a circle.
    pub not-Ends-update : IsAncestor gs u p → ¬ Ends (update_groups u f gs) u
    not-Ends-update k ends =
        not-cycle p ends (parent_of-update_self gs u stored) (IsAncestor-update k)

module _ (gs : List Group) (u : Uuid) where
  pub climb-true : (fuel : ℕ) (c : Uuid) → climb gs u fuel (some c) ≡ some true → IsAncestor gs u c
  unfolding climb
  climb-true zero c h = cc
  climb-true (suc n) c h = elim (Bool-cases (c == u)) [
    | inl same ↦ self (sym ((==_iff c u).0 same))
    | inr other ↦ elim (Option-cases (parent_of gs c)) [
      | inl root ↦ absurd (ground arith)
      | inr (q, e) ↦ above q e (climb-true n q (ground arith))
    ]
  ]

  pub climb-false :
      (fuel : ℕ) (c : Uuid) → climb gs u fuel (some c) ≡ some false → ¬ IsAncestor gs u c
  unfolding climb
  climb-false zero c h k = cc
  climb-false (suc n) c h (self i) = ground arith
  climb-false (suc n) c h (above q e k) = climb-false n q (ground arith) k

  -- A chain that ends is walked in as many rounds as it has groups.
  pub climb_returns :
      {c : Uuid} (e : Ends gs c) (fuel : ℕ) → height e ≤ fuel → climb gs u fuel (some c) ≢ none
  unfolding climb
  climb_returns (top h) zero le = absurd (omega arith)
  climb_returns (top h) (suc n) le = ground arith
  climb_returns (up p h e) zero le = absurd (omega arith)
  climb_returns (up p h e) (suc n) le = ground (arith, climb_returns e n (omega arith))
