-- ===== src/Vault/Groups/Reorder/Sorting.antt =====
-- Sorted siblings (the queries of crates/keys-engine/src/mutations.rs).
use keys_core.Base.{
  suc, ◌<◌, ◌≡◌, ◌≢◌, refl, sym, ap, ◌∙◌, arith, true, false, ◌||◌, List, [], ◌∷◌, map, ◌==◌, any,
  length, All, Bool-cases, inl, inr,
}
use keys_core.Vault.Tables.{Uuid, Group}
use keys_core.Vault.Groups.Reorder.{goes_first, insert_sibling, sort_siblings}

-- No two rows with the same UUID: the primary key.
abbrev pub IsDistinct : List Group → Type 0
IsDistinct [] = Unit
IsDistinct (g ∷ gs) = All (λ s. s.uuid ≢ g.uuid) gs × IsDistinct gs

-- Strictly ascending in sort_order.
abbrev pub IsAscending : List Group → Type 0
IsAscending [] = Unit
IsAscending (g ∷ gs) = All (λ s. g.sort_order < s.sort_order) gs × IsAscending gs

-- No two with the same sort_order.
abbrev pub IsRanked : List Group → Type 0
IsRanked [] = Unit
IsRanked (g ∷ gs) = All (λ s. s.sort_order ≢ g.sort_order) gs × IsRanked gs

pub All-insert_sibling :
    (P : Group → Type 0) (g : Group) (gs : List Group)
    → P g
    → All P gs
    → All P (insert_sibling g gs)
unfolding insert_sibling
All-insert_sibling P g [] h hs = (h, tt)
All-insert_sibling P g (x ∷ gs) h (k, ks) = elim (Bool-cases (goes_first g x)) [
  | inl first ↦ rw first (h, (k, ks))
  | inr later ↦ rw later (k, All-insert_sibling P g gs h ks)
]

pub All-sort_siblings : (P : Group → Type 0) (gs : List Group) → All P gs → All P (sort_siblings gs)
unfolding sort_siblings
All-sort_siblings P [] h = tt
All-sort_siblings P (g ∷ gs) (h, hs) =
    All-insert_sibling P g (sort_siblings gs) h (All-sort_siblings P gs hs)

pub length-insert_sibling :
    (g : Group) (gs : List Group) → length (insert_sibling g gs) ≡ suc (length gs)
unfolding insert_sibling
length-insert_sibling g [] = refl
length-insert_sibling g (x ∷ gs) = ground (arith, length-insert_sibling g gs)

pub length-sort_siblings : (gs : List Group) → length (sort_siblings gs) ≡ length gs
unfolding sort_siblings
length-sort_siblings [] = refl
length-sort_siblings (g ∷ gs) =
    length-insert_sibling g (sort_siblings gs) ∙ ap suc (length-sort_siblings gs)

IsDistinct-insert_sibling :
    (g : Group) (gs : List Group)
    → All (λ s. s.uuid ≢ g.uuid) gs
    → IsDistinct gs
    → IsDistinct (insert_sibling g gs)
unfolding insert_sibling
IsDistinct-insert_sibling g [] h d = (tt, tt)
IsDistinct-insert_sibling g (x ∷ gs) (h, hs) (k, d) = elim (Bool-cases (goes_first g x)) [
  | inl first ↦ rw first ((h, hs), (k, d))
  | inr later ↦ rw later (
    All-insert_sibling (λ s. s.uuid ≢ x.uuid) g gs (λ e. h (sym e)) k,
    IsDistinct-insert_sibling g gs hs d,
  )
]

pub IsDistinct-sort_siblings : (gs : List Group) → IsDistinct gs → IsDistinct (sort_siblings gs)
unfolding sort_siblings
IsDistinct-sort_siblings [] d = tt
IsDistinct-sort_siblings (g ∷ gs) (h, d) =
    IsDistinct-insert_sibling g (sort_siblings gs) (All-sort_siblings _ gs h)
      (IsDistinct-sort_siblings gs d)

goes_first-lt :
    (a b : Group)
    → b.sort_order ≢ a.sort_order
    → goes_first a b ≡ true
    → a.sort_order < b.sort_order
unfolding goes_first
goes_first-lt a b ne h = ground (arith, ne, h)

goes_first-gt :
    (a b : Group)
    → b.sort_order ≢ a.sort_order
    → goes_first a b ≡ false
    → b.sort_order < a.sort_order
unfolding goes_first
goes_first-gt a b ne h = ground (arith, ne, h)

below_all :
    (g x : Group) (gs : List Group)
    → g.sort_order < x.sort_order
    → All (λ s. x.sort_order < s.sort_order) gs
    → All (λ s. g.sort_order < s.sort_order) gs
below_all g x [] h hs = tt
below_all g x (s ∷ gs) h (k, hs) = (omega (arith, h, k), below_all g x gs h hs)

IsAscending-insert_sibling :
    (g : Group) (gs : List Group)
    → All (λ s. s.sort_order ≢ g.sort_order) gs
    → IsAscending gs
    → IsAscending (insert_sibling g gs)
unfolding insert_sibling
IsAscending-insert_sibling g [] h a = (tt, tt)
IsAscending-insert_sibling g (x ∷ gs) (h, hs) (k, a) = elim (Bool-cases (goes_first g x)) [
  | inl first ↦
      (let low = goes_first-lt g x h first in rw first ((low, below_all g x gs low k), (k, a)))
  | inr later ↦ rw later (
    All-insert_sibling (λ s. x.sort_order < s.sort_order) g gs (goes_first-gt g x h later) k,
    IsAscending-insert_sibling g gs hs a,
  )
]

pub IsAscending-sort_siblings : (gs : List Group) → IsRanked gs → IsAscending (sort_siblings gs)
unfolding sort_siblings
IsAscending-sort_siblings [] r = tt
IsAscending-sort_siblings (g ∷ gs) (h, r) =
    IsAscending-insert_sibling g (sort_siblings gs) (All-sort_siblings _ gs h)
      (IsAscending-sort_siblings gs r)

-- Sorting keeps which UUIDs there are.
holds-insert_sibling :
    (u : Uuid) (g : Group) (gs : List Group)
    → any (λ v. v == u) (map (λ s. s.uuid) (insert_sibling g gs))
      ≡ (g.uuid == u || any (λ v. v == u) (map (λ s. s.uuid) gs))
unfolding insert_sibling
holds-insert_sibling u g [] = refl
holds-insert_sibling u g (x ∷ gs) = ground (arith, holds-insert_sibling u g gs)

pub holds-sort_siblings :
    (u : Uuid) (gs : List Group)
    → any (λ v. v == u) (map (λ s. s.uuid) (sort_siblings gs))
      ≡ any (λ v. v == u) (map (λ s. s.uuid) gs)
unfolding sort_siblings
holds-sort_siblings u [] = refl
holds-sort_siblings u (g ∷ gs) =
    holds-insert_sibling u g (sort_siblings gs)
    ∙ ap (λ b. g.uuid == u || b) (holds-sort_siblings u gs)
