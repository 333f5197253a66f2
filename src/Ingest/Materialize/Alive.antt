-- ===== src/Ingest/Materialize/Alive.antt =====
-- Which groups live, and how deep they are
-- (`group_alive` and `group_depth` of crates/keys-engine/src/ingest.rs).
use keys_core.Base.{
  ℕ, zero, suc, ◌+◌, ◌≤◌, ◌<◌, Bool, true, false, Option, none, some, List, [], ◌∷◌, ◌≡◌, ◌≢◌, refl,
  ap, subst, not, ◌||◌, arith, Bool-cases, Option-cases, inl, inr, All, All-imp, length, is_some_of,
}
use keys_core.Vault.Tables.{Uuid, Group, Entry, find_group}
use keys_core.Vault.Queries.{group_exists, parent_of, child_groups}
use keys_core.Vault.Groups.Ancestors.{
  Ends, top, up, IsAncestor, self, above, not-cycle, height, IsTree,
}
use keys_core.Uuids.Distinct.{IsDistinct}
use keys_core.Ingest.Groups.Counting.{length-distinct}
use keys_core.Ingest.Groups.Walks.{exists_of_parent}
use keys_core.Ingest.Materialize.{contains, holds_entry, any_alive, group_alive, depth_rounds}

-- The primary key: the row that a uuid finds is the row that has it.
abbrev pub IsKeyed : List Group → Type 0
IsKeyed gs = All (λ g. find_group gs g.uuid ≡ some g) gs

module _ (gs : List Group) where
  chain : {u : Uuid} → Ends gs u → List Uuid
  chain {u} (top h) = u ∷ []
  chain {u} (up p h e) = u ∷ chain e

  chain-above :
      {a : Uuid} (u : Uuid) (e : Ends gs a)
      → IsAncestor gs a u
      → All (λ v. IsAncestor gs v u) (chain e)
  unfolding chain
  chain-above u (top h) k = (k, tt)
  chain-above {a} u (up p h e) k = (k, chain-above u e (over k))
    where
      over : {w : Uuid} → IsAncestor gs a w → IsAncestor gs p w
      over (self i) = above p (subst (λ x. parent_of gs x ≡ some p) i h) (self refl)
      over (above q hq m) = above q hq (over m)

  All-ne :
      (u p : Uuid) (vs : List Uuid)
      → Ends gs u
      → parent_of gs u ≡ some p
      → All (λ v. IsAncestor gs v p) vs
      → All (λ v. v ≢ u) vs
  All-ne u p [] e h k = tt
  All-ne u p (v ∷ vs) e h (k, ks) =
      ((λ i. not-cycle p e h (subst (λ x. IsAncestor gs x p) i k)), All-ne u p vs e h ks)

  IsDistinct-chain : {u : Uuid} (e : Ends gs u) → IsDistinct (chain e)
  unfolding chain
  IsDistinct-chain (top h) = (tt, tt)
  IsDistinct-chain {u} (up p h e) =
      (All-ne u p (chain e) (up p h e) h (chain-above p e (self refl)), IsDistinct-chain e)

  chain-exists :
      {u : Uuid} (e : Ends gs u)
      → IsTree gs
      → group_exists gs u ≡ true
      → All (λ v. group_exists gs v ≡ true) (chain e)
  unfolding chain
  chain-exists (top h) t x = (x, tt)
  chain-exists {u} (up p h e) t x = (x, chain-exists e t (t.parents u p h))

  length-chain : {u : Uuid} (e : Ends gs u) → length (chain e) ≡ height e
  unfolding chain
  length-chain (top h) = refl
  length-chain (up p h e) = ap suc (length-chain e)

  -- A chain of stored groups is no longer than there are groups.
  pub height_le :
      {u : Uuid} (e : Ends gs u) → IsTree gs → group_exists gs u ≡ true → height e ≤ length gs
  height_le e t x = omega (
    arith,
    length-chain e,
    length-distinct gs (chain e) (IsDistinct-chain e) (chain-exists e t x),
  )

  -- More rounds than the height give the same depth.
  depth-more :
      {u : Uuid} (e : Ends gs u) (n : ℕ)
      → height e ≤ n
      → depth_rounds (suc n) gs u ≡ depth_rounds n gs u
  unfolding depth_rounds
  depth-more (top h) zero le = absurd (omega (arith, le))
  depth-more (top h) (suc n) le = ground arith
  depth-more (up p h e) zero le = absurd (omega (arith, le))
  depth-more (up p h e) (suc n) le = ground (arith, depth-more e n (omega (arith, le)))

  -- A child is deeper than its parent.
  pub depth-child :
      (c p : Uuid) (n : ℕ)
      → IsTree gs
      → length gs ≤ n
      → parent_of gs c ≡ some p
      → depth_rounds (suc n) gs p < depth_rounds (suc n) gs c
  unfolding depth_rounds
  depth-child c p n t le h =
      let small = height_le (t.ends p) t (t.parents c p h) in
      let same : depth_rounds (suc n) gs p ≡ depth_rounds n gs p =
        depth-more (t.ends p) n (omega (arith, small, le)) in
      let deeper : depth_rounds (suc n) gs c ≡ suc (depth_rounds n gs p) = ground arith in
      omega (arith, same, deeper)

  pub child_groups-All :
      (u : Uuid) (xs : List Group)
      → All (λ g. find_group gs g.uuid ≡ some g) xs
      → All (λ c. parent_of gs c ≡ some u) (child_groups xs u)
  unfolding child_groups parent_of
  child_groups-All u [] k = tt
  child_groups-All u (g ∷ xs) (k, ks) = elim (Bool-cases (is_some_of g.parent_uuid u)) [
    | inl child ↦ rw child (ground arith, child_groups-All u xs ks)
    | inr other ↦ rw other (child_groups-All u xs ks)
  ]

  module _ (es : List Entry) (stones : List Uuid) (t : IsTree gs) (keyed : IsKeyed gs) where
    any_alive_returns :
        (alive : Uuid → Option Bool) (cs : List Uuid)
        → All (λ c. alive c ≢ none) cs
        → any_alive alive cs ≢ none
    unfolding any_alive
    any_alive_returns alive [] h e = cc
    any_alive_returns alive (c ∷ cs) (h, hs) e = elim (Option-cases (alive c)) [
      | inl stuck ↦ h stuck
      | inr (true, is) ↦ ground arith
      | inr (false, is) ↦ any_alive_returns alive cs hs (ground arith)
    ]

    -- With as much fuel as there are groups above the depth of a group, it is known whether it lives.
    group_alive_down :
        (fuel : ℕ) (u : Uuid) (e : Ends gs u)
        → group_exists gs u ≡ true
        → length gs < fuel + height e
        → group_alive fuel gs es stones u ≢ none
    unfolding group_alive
    group_alive_down zero u e x lt k = omega (arith, lt, height_le e t x)
    group_alive_down (suc fuel) u e x lt k =
        elim (Bool-cases (not (contains u stones) || holds_entry es u)) [
          | inl alive ↦ ground arith
          | inr unsure ↦
              any_alive_returns (group_alive fuel gs es stones) (child_groups gs u)
                (All-imp (λ c. parent_of gs c ≡ some u)
                  (λ c. group_alive fuel gs es stones c ≢ none)
                  (λ c h.
                    group_alive_down fuel c (up u h e) (exists_of_parent gs c u h)
                      (omega (arith, lt)))
                  (child_groups gs u) (child_groups-All u gs keyed))
                (ground arith)
        ]

    pub group_alive_returns :
        (fuel : ℕ) (u : Uuid)
        → group_exists gs u ≡ true
        → length gs ≤ fuel
        → group_alive fuel gs es stones u ≢ none
    group_alive_returns fuel u x le = group_alive_down fuel u (t.ends u) x (tall (t.ends u))
      where
        tall : (e : Ends gs u) → length gs < fuel + height e
        tall (top h) = omega (arith, le)
        tall (up p h e) = omega (arith, le)

  any_alive-false :
      (alive : Uuid → Option Bool) (cs : List Uuid)
      → any_alive alive cs ≡ some false
      → All (λ c. alive c ≡ some false) cs
  unfolding any_alive
  any_alive-false alive [] h = tt
  any_alive-false alive (c ∷ cs) h = elim (Option-cases (alive c)) [
    | inl stuck ↦ absurd (ground arith)
    | inr (true, is) ↦ absurd (ground arith)
    | inr (false, is) ↦ (is, any_alive-false alive cs (ground arith))
  ]

  any_alive-more :
      (a b : Uuid → Option Bool) (cs : List Uuid) (r : Bool)
      → ((c : Uuid) (x : Bool) → a c ≡ some x → b c ≡ some x)
      → any_alive a cs ≡ some r
      → any_alive b cs ≡ some r
  unfolding any_alive
  any_alive-more a b [] r more h = h
  any_alive-more a b (c ∷ cs) r more h = elim (Option-cases (a c)) [
    | inl stuck ↦ absurd (ground arith)
    | inr (true, is) ↦ rw (more c true is, any_alive) (ground arith)
    | inr (false, is) ↦
        rw (more c false is, any_alive) (any_alive-more a b cs r more (ground arith))
  ]

  module _ (es : List Entry) (stones : List Uuid) where
    group_alive-more :
        (fuel : ℕ) (u : Uuid) (r : Bool)
        → group_alive fuel gs es stones u ≡ some r
        → group_alive (suc fuel) gs es stones u ≡ some r
    unfolding group_alive
    group_alive-more zero u r h = cc
    group_alive-more (suc fuel) u r h =
        elim (Bool-cases (not (contains u stones) || holds_entry es u)) [
          | inl alive ↦ rw (alive, group_alive) (ground arith)
          | inr unsure ↦
              rw (unsure, group_alive)
                (any_alive-more (group_alive fuel gs es stones)
                  (group_alive (suc fuel) gs es stones) (child_groups gs u) r
                  (λ c x k. group_alive-more fuel c x k) (ground arith))
        ]

    -- A dead group has a tombstone and no entry, and its children are dead.
    pub group_alive-false :
        (fuel : ℕ) (u : Uuid)
        → group_alive fuel gs es stones u ≡ some false
        → (contains u stones ≡ true)
          × (holds_entry es u ≡ false)
          × All (λ c. group_alive fuel gs es stones c ≡ some false) (child_groups gs u)
    unfolding group_alive
    group_alive-false zero u h = cc
    group_alive-false (suc fuel) u h =
        elim (Bool-cases (not (contains u stones) || holds_entry es u)) [
          | inl alive ↦ absurd (ground arith)
          | inr unsure ↦ (
            ground arith,
            ground arith,
            All-imp (λ c. group_alive fuel gs es stones c ≡ some false)
                (λ c. group_alive (suc fuel) gs es stones c ≡ some false)
                (λ c k. group_alive-more fuel c false k) (child_groups gs u)
                (any_alive-false (group_alive fuel gs es stones) (child_groups gs u)
                  (ground arith)),
          )
        ]
