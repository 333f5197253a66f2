-- ===== src/Ingest/Groups/Walks.antt =====
-- The walk for a cycle: what it finds, and that it ends (`find_one_cycle` of
-- crates/keys-engine/src/ingest.rs).
use keys_core.Base.{
  ℕ, zero, suc, ◌+◌, ◌<◌, true, none, some, List, [], ◌∷◌, ◌++◌, ◌==◌, ◌≡◌, ◌≢◌, refl, sym, subst,
  arith, Bool-cases, Option-cases, inl, inr, ==_iff, All, All-append, length, length-append,
}
use keys_core.Base.Order.{earlier, leq, nat_ord}
use keys_core.Vault.Tables.{Uuid, Group}
use keys_core.Vault.Queries.{group_exists, parent_of}
use keys_core.Vault.Groups.Ancestors.{
  Ends, top, up, IsAncestor, self, above, IsAncestor-trans, not-cycle,
}
use keys_core.Uuids.Distinct.{IsDistinct, IsDistinct-append}
use keys_core.Ingest.Groups.Counting.{length-distinct}
use keys_core.Ingest.Groups.{from_position, walk, find_one_cycle, victim}

module _ (gs : List Group) where
  Ends-ancestor : {a u : Uuid} → IsAncestor gs a u → Ends gs u → Ends gs a
  Ends-ancestor (self i) e = subst (λ x. Ends gs x) (sym i) e
  Ends-ancestor (above p h k) (top e) = cc (h, e)
  Ends-ancestor {a} (above p h k) (up q e ends) =
      Ends-ancestor (subst (λ x. IsAncestor gs a x) (cc (h, e)) k) ends

  -- `a` stands above `u`.
  abbrev IsAbove : Uuid → Uuid → Type 0
  IsAbove a u = (p : Uuid) × (parent_of gs u ≡ some p) × IsAncestor gs a p

  IsAbove-next : (a c p : Uuid) → IsAbove c a → parent_of gs c ≡ some p → IsAbove p a
  IsAbove-next a c p (q, h, k) e = (q, h, IsAncestor-trans (above p e (self refl)) k)

  All-next :
      (c p : Uuid) (path : List Uuid)
      → All (λ n. IsAbove c n) path
      → parent_of gs c ≡ some p
      → All (λ n. IsAbove p n) path
  All-next c p [] h e = tt
  All-next c p (n ∷ path) (h, hs) e = (IsAbove-next n c p h e, All-next c p path hs e)

  -- On a path up to `c` that comes to `c` again, no chain ends.
  not-Ends_of : (c n : Uuid) → IsAbove c c → IsAbove c n → ¬ Ends gs n
  not-Ends_of c n (p, e, k) (q, h, l) ends = not-cycle p (Ends-ancestor (above q h l) ends) e k

  All-cycle :
      (c : Uuid) (path : List Uuid)
      → IsAbove c c
      → All (λ n. IsAbove c n) path
      → All (λ n. ¬ Ends gs n) path
  All-cycle c [] loop h = tt
  All-cycle c (n ∷ path) loop (h, hs) = (not-Ends_of c n loop h, All-cycle c path loop hs)

  from_position-All :
      (c : Uuid) (path cycle : List Uuid)
      → All (λ n. IsAbove c n) path
      → from_position c path ≡ some cycle
      → All (λ n. ¬ Ends gs n) cycle
  unfolding from_position
  from_position-All c [] cycle h e = cc
  from_position-All c (n ∷ path) cycle (h, hs) e = elim (Bool-cases (n == c)) [
    | inl same ↦
        let is : n ∷ path ≡ cycle = ground arith in
        let loop : IsAbove c c = subst (λ x. IsAbove c x) ((==_iff n c).0 same) h in
        subst (λ l. All (λ x. ¬ Ends gs x) l) is (All-cycle c (n ∷ path) loop (h, hs))
    | inr other ↦ from_position-All c path cycle hs (ground arith)
  ]

  from_position-ne :
      (c : Uuid) (path : List Uuid) → from_position c path ≡ none → All (λ n. c ≢ n) path
  unfolding from_position
  from_position-ne c [] h = tt
  from_position-ne c (n ∷ path) h = elim (Bool-cases (n == c)) [
    | inl same ↦ absurd (ground arith)
    | inr other ↦ ((λ i. ground arith), from_position-ne c path (ground arith))
  ]

  pub walk-Ends :
      (fuel : ℕ) (path : List Uuid) (c : Uuid) → walk fuel gs path c ≡ some none → Ends gs c
  unfolding walk
  walk-Ends zero path c h = cc
  walk-Ends (suc fuel) path c h = elim (Option-cases (from_position c path)) [
    | inr (cycle, found) ↦ absurd (ground arith)
    | inl new ↦ elim (Option-cases (parent_of gs c)) [
      | inl root ↦ top root
      | inr (p, e) ↦ up p e (walk-Ends fuel (path ++ c ∷ []) p (ground arith))
    ]
  ]

  pub walk-cycle :
      (fuel : ℕ) (path : List Uuid) (c : Uuid) (cycle : List Uuid)
      → All (λ n. IsAbove c n) path
      → walk fuel gs path c ≡ some (some cycle)
      → All (λ n. ¬ Ends gs n) cycle
  unfolding walk
  walk-cycle zero path c cycle h e = cc
  walk-cycle (suc fuel) path c cycle h e = elim (Option-cases (from_position c path)) [
    | inr (found, is) ↦ from_position-All c path cycle h (ground arith)
    | inl new ↦ elim (Option-cases (parent_of gs c)) [
      | inl root ↦ absurd (ground arith)
      | inr (p, k) ↦
          walk-cycle fuel (path ++ c ∷ []) p cycle
            (All-append (λ n. IsAbove p n) path (c ∷ []) (All-next c p path h k)
              ((p, k, self refl), tt))
            (ground arith)
    ]
  ]

pub exists_of_parent :
    (gs : List Group) (u p : Uuid) → parent_of gs u ≡ some p → group_exists gs u ≡ true
unfolding parent_of group_exists
exists_of_parent gs u p h = ground arith

ne_after :
    (c : Uuid) (path : List Uuid)
    → All (λ n. c ≢ n) path
    → All (λ x. All (λ y. y ≢ x) (c ∷ [])) path
ne_after c [] h = tt
ne_after c (n ∷ path) (h, hs) = ((h, tt), ne_after c path hs)

walk_returns :
    (fuel : ℕ) (gs : List Group) (path : List Uuid) (c : Uuid)
    → IsDistinct path
    → All (λ u. group_exists gs u ≡ true) path
    → length gs < fuel + length path
    → walk fuel gs path c ≢ none
unfolding walk
walk_returns zero gs path c d h lt e = omega (arith, lt, length-distinct gs path d h)
walk_returns (suc fuel) gs path c d h lt e = elim (Option-cases (from_position c path)) [
  | inr (cycle, found) ↦ ground arith
  | inl new ↦ elim (Option-cases (parent_of gs c)) [
    | inl root ↦ ground arith
    | inr (p, k) ↦
        walk_returns fuel gs (path ++ c ∷ []) p
          (IsDistinct-append path (c ∷ []) d (tt, tt)
            (ne_after c path (from_position-ne gs c path new)))
          (All-append (λ u. group_exists gs u ≡ true) path (c ∷ []) h
            (exists_of_parent gs c p k, tt))
          (omega (arith, lt, length-append path (c ∷ []))) (ground arith)
  ]
]

-- The search for a cycle returns after as many rounds of each walk as there are groups, and one more.
pub find_one_cycle_returns :
    (fuel : ℕ) (gs : List Group) (starts : List Uuid)
    → length gs < fuel
    → find_one_cycle fuel gs starts ≢ none
unfolding find_one_cycle
find_one_cycle_returns fuel gs [] lt e = cc
find_one_cycle_returns fuel gs (u ∷ us) lt e = elim (Option-cases (walk fuel gs [] u)) [
  | inl stuck ↦ walk_returns fuel gs [] u tt tt (omega (arith, lt)) stuck
  | inr (some cycle, found) ↦ ground arith
  | inr (none, off) ↦ find_one_cycle_returns fuel gs us lt (ground arith)
]

-- Without a cycle from any start, every start's chain ends.
pub find_one_cycle-Ends :
    (fuel : ℕ) (gs : List Group) (starts : List Uuid)
    → find_one_cycle fuel gs starts ≡ some none
    → All (λ u. Ends gs u) starts
unfolding find_one_cycle
find_one_cycle-Ends fuel gs [] h = tt
find_one_cycle-Ends fuel gs (u ∷ us) h = elim (Option-cases (walk fuel gs [] u)) [
  | inl stuck ↦ absurd (ground arith)
  | inr (some cycle, found) ↦ absurd (ground arith)
  | inr (none, off) ↦ (walk-Ends gs fuel [] u off, find_one_cycle-Ends fuel gs us (ground arith))
]

pub find_one_cycle-cycle :
    (fuel : ℕ) (gs : List Group) (starts cycle : List Uuid)
    → find_one_cycle fuel gs starts ≡ some (some cycle)
    → All (λ u. ¬ Ends gs u) cycle
unfolding find_one_cycle
find_one_cycle-cycle fuel gs [] cycle h = cc
find_one_cycle-cycle fuel gs (u ∷ us) cycle h = elim (Option-cases (walk fuel gs [] u)) [
  | inl stuck ↦ absurd (ground arith)
  | inr (some c, found) ↦ walk-cycle gs fuel [] u cycle tt (ground arith)
  | inr (none, off) ↦ find_one_cycle-cycle fuel gs us cycle (ground arith)
]

from_position-nonempty : (c : Uuid) (path : List Uuid) → from_position c path ≢ some []
unfolding from_position
from_position-nonempty c [] e = cc
from_position-nonempty c (n ∷ path) e = ground (arith, from_position-nonempty c path)

walk-nonempty :
    (fuel : ℕ) (gs : List Group) (path : List Uuid) (c : Uuid)
    → walk fuel gs path c ≢ some (some [])
unfolding walk
walk-nonempty zero gs path c e = cc
walk-nonempty (suc fuel) gs path c e = elim (Option-cases (from_position c path)) [
  | inr (cycle, found) ↦ from_position-nonempty c path (ground arith)
  | inl new ↦ elim (Option-cases (parent_of gs c)) [
    | inl root ↦ ground arith
    | inr (p, k) ↦ walk-nonempty fuel gs (path ++ c ∷ []) p (ground arith)
  ]
]

-- A cycle has a member.
pub find_one_cycle-nonempty :
    (fuel : ℕ) (gs : List Group) (starts : List Uuid)
    → find_one_cycle fuel gs starts ≢ some (some [])
unfolding find_one_cycle
find_one_cycle-nonempty fuel gs [] e = cc
find_one_cycle-nonempty fuel gs (u ∷ us) e = elim (Option-cases (walk fuel gs [] u)) [
  | inl stuck ↦ ground arith
  | inr (some cycle, found) ↦ walk-nonempty fuel gs [] u (ground arith)
  | inr (none, off) ↦ find_one_cycle-nonempty fuel gs us (ground arith)
]

-- A member of the cycle is the one that is put below the root.
pub victim-All : (P : Uuid → Type 0) (u : Uuid) (us : List Uuid) → P u → All P us → P (victim u us)
unfolding victim earlier
victim-All P u [] h hs = h
victim-All P u (v ∷ us) h (k, hs) = elim (Bool-cases (leq u v)) [
  | inl before ↦ victim-All P (earlier u v) us (unfold earlier in rw before h) hs
  | inr after ↦ victim-All P (earlier u v) us (unfold earlier in rw after k) hs
]
