-- ===== src/Vault/Groups/Reorder/Ranks.antt =====
-- Rows whose sort_order is their place in an order (the renumbering of `reorder_group` in
-- crates/keys-engine/src/mutations.rs).
use keys_core.Base.{
  ℕ, zero, suc, ◌+◌, ◌<◌, ◌≤◌, ◌≡◌, ◌≢◌, refl, sym, ap, ap₂, ◌∙◌, subst, arith, true, false, Option,
  none, some, List, [], ◌∷◌, map, ◌==◌, if◌then◌else◌, any, length, All, Bool-cases, inl, inr,
}
use keys_core.Vault.Tables.{Uuid, Group, update_groups}
use keys_core.Vault.Groups.Reorder.{sort_siblings, with_sort_order, renumber_siblings}
use keys_core.Vault.Groups.Reorder.Sorting.{
  IsDistinct, IsAscending, IsRanked, All-sort_siblings, length-sort_siblings,
  IsAscending-sort_siblings,
}

unfoldable pub nth : ℕ → List Uuid → Option Uuid
nth i [] = none
nth zero (u ∷ us) = some u
nth (suc i) (u ∷ us) = nth i us

-- The order, from a place on.
abbrev pub drop : ℕ → List Uuid → List Uuid
drop zero us = us
drop (suc i) [] = []
drop (suc i) (u ∷ us) = drop i us

drop-nth : (i : ℕ) (us : List Uuid) (u : Uuid) → nth i us ≡ some u → drop i us ≡ u ∷ drop (suc i) us
unfolding nth
drop-nth i [] u h = absurd cc
drop-nth zero (v ∷ us) u h = (let same : v ≡ u = cc in ap (λ w. w ∷ us) same)
drop-nth (suc i) (v ∷ us) u h = drop-nth i us u h

drop-length : (us : List Uuid) → drop (length us) us ≡ []
drop-length [] = refl
drop-length (u ∷ us) = drop-length us

nth-lt : (i : ℕ) (us : List Uuid) (u : Uuid) → nth i us ≡ some u → i < length us
unfolding nth
nth-lt i [] u h = absurd cc
nth-lt zero (v ∷ us) u h = omega arith
nth-lt (suc i) (v ∷ us) u h = omega (arith, nth-lt i us u h)

-- A row's sort_order is its place.
abbrev pub IsPlaced : List Uuid → Group → Type 0
IsPlaced order g = nth g.sort_order order ≡ some g.uuid

-- Ascending rows that are all placed take at least a place each.
ascending_room :
    (order : List Uuid) (g : Group) (gs : List Group)
    → All (IsPlaced order) (g ∷ gs)
    → IsAscending (g ∷ gs)
    → g.sort_order + length gs < length order
ascending_room order g [] (p, ps) a = omega (arith, nth-lt g.sort_order order g.uuid p)
ascending_room order g (h ∷ gs) (p, ps) ((low, lows), a) =
    omega (arith, low, ascending_room order h gs ps a)

placed_listing :
    (order : List Uuid) (lo : ℕ) (gs : List Group)
    → All (IsPlaced order) gs
    → IsAscending gs
    → All (λ g. lo ≤ g.sort_order) gs
    → lo + length gs ≡ length order
    → map (λ g. g.uuid) gs ≡ drop lo order
placed_listing order lo [] p a h n = sym (
    subst (λ i. drop i order ≡ []) (let same : length order ≡ lo = omega (arith, n) in same)
      (drop-length order))
placed_listing order lo (g ∷ gs) (p, ps) (low, a) (h, hs) n =
    let room = ascending_room order g gs (p, ps) (low, a) in
    let same : g.sort_order ≡ lo = omega (arith, h, n, room) in
    ap (λ t. g.uuid ∷ t)
      (placed_listing order (suc lo) gs ps a
        (above gs (subst (λ i. All (λ s. i < s.sort_order) gs) same low)) (omega (arith, n)))
    ∙ sym (drop-nth lo order g.uuid (subst (λ i. nth i order ≡ some g.uuid) same p))
  where
    above :
        (xs : List Group) → All (λ s. lo < s.sort_order) xs → All (λ s. suc lo ≤ s.sort_order) xs
    above [] k = tt
    above (x ∷ xs) (k, ks) = (omega (arith, k), above xs ks)

-- Rows at the same place have the same UUID.
IsRanked-placed :
    (order : List Uuid) (gs : List Group) → All (IsPlaced order) gs → IsDistinct gs → IsRanked gs
IsRanked-placed order [] p d = tt
IsRanked-placed order (g ∷ gs) (p, ps) (h, d) = (others gs ps h, IsRanked-placed order gs ps d)
  where
    others :
        (xs : List Group)
        → All (IsPlaced order) xs
        → All (λ s. s.uuid ≢ g.uuid) xs
        → All (λ s. s.sort_order ≢ g.sort_order) xs
    others [] q e = tt
    others (x ∷ xs) (q, qs) (e, es) =
        ((λ same. e (some_eq (sym q ∙ ap (λ i. nth i order) same ∙ p))), others xs qs es)
      where
        some_eq : {a b : Uuid} → some a ≡ some b → a ≡ b
        some_eq h = cc

-- Rows placed in an order, one for each of its places, are listed in that order.
pub listing_placed :
    (order : List Uuid) (gs : List Group)
    → All (IsPlaced order) gs
    → IsDistinct gs
    → length gs ≡ length order
    → map (λ g. g.uuid) (sort_siblings gs) ≡ order
listing_placed order gs p d n =
    placed_listing order 0 (sort_siblings gs) (All-sort_siblings (IsPlaced order) gs p)
      (IsAscending-sort_siblings gs (IsRanked-placed order gs p d)) (from_zero (sort_siblings gs))
      (omega (arith, length-sort_siblings gs, n))
  where
    from_zero : (xs : List Group) → All (λ g. 0 ≤ g.sort_order) xs
    from_zero [] = tt
    from_zero (x ∷ xs) = (omega arith, from_zero xs)

-- The last place of a UUID from k on, as the loop of updates leaves it.
unfoldable pub place : ℕ → List Uuid → Uuid → Option ℕ
place k [] u = none
place k (v ∷ vs) u = elim (place (suc k) vs u) [
  | some i ↦ some i
  | none ↦ if u == v then some k else none
]

abbrev pub placed : Option ℕ → Group → Group
placed none g = g
placed (some i) g = with_sort_order i g

pub renumber_siblings-map :
    (k : ℕ) (us : List Uuid) (gs : List Group)
    → renumber_siblings k us gs ≡ map (λ g. placed (place k us g.uuid) g) gs
unfolding renumber_siblings place update_groups
renumber_siblings-map k [] [] = refl
renumber_siblings-map k [] (g ∷ gs) = ap (λ t. g ∷ t) (renumber_siblings-map k [] gs)
renumber_siblings-map k (u ∷ us) gs =
    renumber_siblings-map (suc k) us (update_groups u (with_sort_order k) gs) ∙ each gs
  where
    one :
        (g : Group) (o : Option ℕ)
        → place (suc k) us g.uuid ≡ o
        → placed
            (place (suc k) us (if g.uuid == u then with_sort_order k g else g).uuid)
            (if g.uuid == u then with_sort_order k g else g)
          ≡ placed (place k (u ∷ us) g.uuid) g
    one g none h = elim (Bool-cases (g.uuid == u)) [
      | inl same ↦ rw (same, place) (rw h (rw same refl))
      | inr other ↦ rw (other, place) (rw h (rw other refl))
    ]
    one g (some i) h = elim (Bool-cases (g.uuid == u)) [
      | inl same ↦ rw (same, place) (rw h refl)
      | inr other ↦ rw (other, place) (rw h refl)
    ]

    each :
        (xs : List Group)
        → map (λ g. placed (place (suc k) us g.uuid) g) (update_groups u (with_sort_order k) xs)
          ≡ map (λ g. placed (place k (u ∷ us) g.uuid) g) xs
    each [] = refl
    each (x ∷ xs) = ap₂ (λ a t. a ∷ t) (one x (place (suc k) us x.uuid) refl) (each xs)

place-none :
    (k : ℕ) (us : List Uuid) (u : Uuid) → any (λ v. v == u) us ≡ false → place k us u ≡ none
unfolding place
place-none k [] u h = refl
place-none k (v ∷ us) u h = rw (place-none (suc k) us u (ground (arith, h))) (ground (arith, h))

-- The place of a UUID that the order holds.
pub nth-place :
    (k : ℕ) (us : List Uuid) (u : Uuid)
    → any (λ v. v == u) us ≡ true
    → (i : ℕ) × (place k us u ≡ some (k + i)) × (nth i us ≡ some u)
unfolding place nth
nth-place k [] u h = absurd cc
nth-place k (v ∷ us) u h = elim (Bool-cases (any (λ w. w == u) us)) [
  | inl later ↦
      (let (i, at, is) = nth-place (suc k) us u later in
        (suc i, rw (at, place) (ap some (omega arith)), is))
  | inr last ↦
      (let same : v ≡ u = ground (arith, h, last) in
        let eq : (u == v) ≡ true = ground (arith, same) in
        (0, rw (place-none (suc k) us u last, place) (rw eq (ap some (omega arith))), ap some same))
]
