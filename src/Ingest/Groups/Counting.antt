-- ===== src/Ingest/Groups/Counting.antt =====
-- Distinct ids of stored groups, counted (for `find_one_cycle` of crates/keys-engine/src/ingest.rs).
use keys_core.Base.{
  suc, ◌≤◌, true, List, [], ◌∷◌, ◌==◌, ◌≡◌, ◌≢◌, subst, if◌then◌else◌, arith, Bool-cases, inl, inr,
  ==_iff, All, length,
}
use keys_core.Base.Order.{nat_ord}
use keys_core.Vault.Tables.{Uuid, Group, find_group}
use keys_core.Vault.Queries.{group_exists}
use keys_core.Uuids.Distinct.{IsDistinct}

without : Uuid → List Uuid → List Uuid
without x [] = []
without x (u ∷ us) = if u == x then without x us else u ∷ without x us

All-without : (P : Uuid → Type 0) (x : Uuid) (us : List Uuid) → All P us → All P (without x us)
unfolding without
All-without P x [] h = tt
All-without P x (u ∷ us) (h, hs) = elim (Bool-cases (u == x)) [
  | inl same ↦ rw same (All-without P x us hs)
  | inr other ↦ rw other (h, All-without P x us hs)
]

IsDistinct-without : (x : Uuid) (us : List Uuid) → IsDistinct us → IsDistinct (without x us)
unfolding without
IsDistinct-without x [] h = tt
IsDistinct-without x (u ∷ us) (h, hs) = elim (Bool-cases (u == x)) [
  | inl same ↦ rw same (IsDistinct-without x us hs)
  | inr other ↦ rw other (All-without (λ v. v ≢ u) x us h, IsDistinct-without x us hs)
]

length-without_ne :
    (x : Uuid) (us : List Uuid) → All (λ v. v ≢ x) us → length us ≤ length (without x us)
unfolding without
length-without_ne x [] h = omega arith
length-without_ne x (u ∷ us) (h, hs) = ground (arith, length-without_ne x us hs)

length-without :
    (x : Uuid) (us : List Uuid) → IsDistinct us → length us ≤ suc (length (without x us))
unfolding without
length-without x [] h = omega arith
length-without x (u ∷ us) (h, hs) = elim (Bool-cases (u == x)) [
  | inl same ↦
      let ne = subst (λ y. All (λ v. v ≢ y) us) ((==_iff u x).0 same) h in
      ground (arith, length-without_ne x us ne)
  | inr other ↦ ground (arith, length-without x us hs)
]

exists-without :
    (g : Group) (gs : List Group) (us : List Uuid)
    → All (λ u. group_exists (g ∷ gs) u ≡ true) us
    → All (λ u. group_exists gs u ≡ true) (without g.uuid us)
unfolding without group_exists find_group
exists-without g gs [] h = tt
exists-without g gs (u ∷ us) (h, hs) = elim (Bool-cases (u == g.uuid)) [
  | inl same ↦ rw same (exists-without g gs us hs)
  | inr other ↦ rw other (ground arith, exists-without g gs us hs)
]

-- Distinct ids of stored rows are no more than the rows.
pub length-distinct :
    (gs : List Group) (us : List Uuid)
    → IsDistinct us
    → All (λ u. group_exists gs u ≡ true) us
    → length us ≤ length gs
unfolding group_exists find_group
length-distinct [] [] d h = omega arith
length-distinct [] (u ∷ us) d (h, hs) = absurd (ground arith)
length-distinct (g ∷ gs) us d h =
    let rest =
      length-distinct gs (without g.uuid us) (IsDistinct-without g.uuid us d)
        (exists-without g gs us h) in
    omega (arith, rest, length-without g.uuid us d)
