-- ===== src/Vault/Groups/Depth.antt =====
-- Trees of groups by a depth (for the group table of crates/keys-engine/src/mutations.rs).
use keys_core.Base.{
  ℕ, zero, suc, ◌<◌, some, List, [], ◌∷◌, ◌≡◌, true, arith, All, Option-cases, inl, inr,
}
use keys_core.Vault.Tables.{Uuid, Group, find_group}
use keys_core.Vault.Queries.{group_exists, parent_of}
use keys_core.Vault.Groups.Ancestors.{Ends, top, up, IsTree}

-- What holds of every stored link holds of every link that a lookup finds.
parent_of-All :
    (P : Uuid → Uuid → Type 0) (gs : List Group) (u p : Uuid)
    → All (λ g. (q : Uuid) → g.parent_uuid ≡ some q → P g.uuid q) gs
    → parent_of gs u ≡ some p
    → P u p
unfolding parent_of find_group
parent_of-All P [] u p h e = cc
parent_of-All P (g ∷ gs) u p (h, hs) e = ground (arith, h p, parent_of-All P gs u p hs)

Ends-below :
    (gs : List Group) (depth : Uuid → ℕ)
    → All (λ g. (q : Uuid) → g.parent_uuid ≡ some q → depth q < depth g.uuid) gs
    → (n : ℕ) (u : Uuid) → depth u < n
    → Ends gs u
Ends-below gs depth h zero u lt = absurd (omega arith)
Ends-below gs depth h (suc n) u lt = elim (Option-cases (parent_of gs u)) [
  | inl root ↦ top root
  | inr (p, e) ↦
      let less = parent_of-All (λ a b. depth b < depth a) gs u p h e in
      up p e (Ends-below gs depth h n p (omega arith))
]

pub IsTree-of_depth :
    (gs : List Group) (depth : Uuid → ℕ)
    → All (λ g. (q : Uuid) → g.parent_uuid ≡ some q → depth q < depth g.uuid) gs
    → All (λ g. (q : Uuid) → g.parent_uuid ≡ some q → group_exists gs q ≡ true) gs
    → IsTree gs
IsTree-of_depth gs depth h there = record {
  ends = λ u. Ends-below gs depth h (suc (depth u)) u (omega arith);
  parents = λ u p e. parent_of-All (λ a b. group_exists gs b ≡ true) gs u p there e;
}
