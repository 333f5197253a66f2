-- ===== src/Vault/Groups/Reorder/Moving.antt =====
-- Taking an element out of a list and putting it back (`reorder_group` of
-- crates/keys-engine/src/mutations.rs).
use keys_core.Base.{
  ℕ, zero, suc, ◌≤◌, ◌<◌, ◌≡◌, refl, ap, ◌∙◌, ◌++◌, leb, arith, true, append-nil, ◌||◌, some, List,
  [], ◌∷◌, ◌==◌, any, length, Bool-cases, Option-cases, inl, inr, ◌⊎◌,
}
use keys_core.Vault.Tables.{Uuid}
use keys_core.Vault.Groups.Reorder.{position, remove, insert, placed_in}

-- Moving one element of a list.
pub length-insert : (i : ℕ) (u : Uuid) (us : List Uuid) → length (insert i u us) ≡ suc (length us)
unfolding insert
length-insert i u [] = refl
length-insert zero u (v ∷ us) = refl
length-insert (suc i) u (v ∷ us) = ap suc (length-insert i u us)

pub any-insert :
    (w : Uuid) (i : ℕ) (u : Uuid) (us : List Uuid)
    → any (λ v. v == w) (insert i u us) ≡ (u == w || any (λ v. v == w) us)
unfolding insert
any-insert w i u [] = refl
any-insert w zero u (v ∷ us) = refl
any-insert w (suc i) u (v ∷ us) = ground (arith, any-insert w i u us)

position-cases :
    (u v : Uuid) (us : List Uuid) (i : ℕ)
    → position u (v ∷ us) ≡ some i
    → ((v ≡ u) × (i ≡ 0)) ⊎ ((j : ℕ) × (position u us ≡ some j) × (i ≡ suc j))
unfolding position
position-cases u v us i h = elim (Bool-cases (v == u)) [
  | inl here ↦
      inl (ground (arith, here), (let k : some 0 ≡ some i = rw (here, position) at h in cc))
  | inr other ↦ elim (Option-cases (position u us)) [
    | inl missed ↦ absurd (let k = rw (other, missed, position) at h in cc)
    | inr (j, there) ↦
        inr (j, there, (let k : some (suc j) ≡ some i = rw (other, there, position) at h in cc))
  ]
]

pub length-remove :
    (u : Uuid) (us : List Uuid) (i : ℕ)
    → position u us ≡ some i
    → suc (length (remove i us)) ≡ length us
unfolding position remove
length-remove u [] i h = absurd cc
length-remove u (v ∷ us) i h = elim (position-cases u v us i h) [
  | inl (here, at) ↦ rw at refl
  | inr (j, there, at) ↦ rw at (ap suc (length-remove u us j there))
]

pub any-remove :
    (w u : Uuid) (us : List Uuid) (i : ℕ)
    → position u us ≡ some i
    → any (λ v. v == w) us ≡ (u == w || any (λ v. v == w) (remove i us))
unfolding position remove
any-remove w u [] i h = absurd cc
any-remove w u (v ∷ us) i h = elim (position-cases u v us i h) [
  | inl (here, at) ↦ rw (at, here) refl
  | inr (j, there, at) ↦ rw at (ground (arith, any-remove w u us j there))
]

-- A group is found among its siblings.
pub position-some :
    (u : Uuid) (us : List Uuid) → any (λ v. v == u) us ≡ true → (i : ℕ) × (position u us ≡ some i)
unfolding position
position-some u [] h = absurd cc
position-some u (v ∷ us) h = elim (Bool-cases (v == u)) [
  | inl here ↦ (0, rw (here, position) refl)
  | inr other ↦
      (let (i, there) = position-some u us (ground (arith, h, other)) in
        (suc i, rw (other, there, position) refl))
]

-- The order has the elements of the list, with `u` moved: `n` others stand before it, or all of them
-- where there are fewer.
pub record IsMove (u : Uuid) (n : ℕ) (us order : List Uuid) : Type 0 where
  left : List Uuid
  right : List Uuid
  before : List Uuid
  after : List Uuid
  was : us ≡ left ++ u ∷ right
  others : before ++ after ≡ left ++ right
  is : order ≡ before ++ u ∷ after
  at : (length before ≡ n) ⊎ ((after ≡ []) × (length before < n))

remove-split :
    (u : Uuid) (us : List Uuid) (i : ℕ)
    → position u us ≡ some i
    → (left : List Uuid) × (right : List Uuid) × (us ≡ left ++ u ∷ right)
      × (remove i us ≡ left ++ right)
unfolding position remove
remove-split u [] i h = absurd cc
remove-split u (v ∷ us) i h = elim (position-cases u v us i h) [
  | inl (here, at) ↦ ([], us, ap (λ w. w ∷ us) here, rw at refl)
  | inr (j, there, at) ↦
      (let (left, right, was, rest) = remove-split u us j there in
        (v ∷ left, right, ap (λ t. v ∷ t) was, rw at (ap (λ t. v ∷ t) rest)))
]

insert-split :
    (i : ℕ) (u : Uuid) (us : List Uuid)
    → i ≤ length us
    → (before : List Uuid) × (after : List Uuid) × (before ++ after ≡ us)
      × (insert i u us ≡ before ++ u ∷ after)
      × (length before ≡ i)
unfolding insert
insert-split zero u [] h = ([], [], refl, refl, refl)
insert-split (suc i) u [] h = absurd (omega arith)
insert-split zero u (v ∷ us) h = ([], v ∷ us, refl, refl, refl)
insert-split (suc i) u (v ∷ us) h =
    let (before, after, whole, put, n) = insert-split i u us (omega arith) in
    (v ∷ before, after, ap (λ t. v ∷ t) whole, ap (λ t. v ∷ t) put, ap suc n)

insert-last : (u : Uuid) (us : List Uuid) → insert (length us) u us ≡ us ++ u ∷ []
unfolding insert
insert-last u [] = refl
insert-last u (v ∷ us) = ap (λ t. v ∷ t) (insert-last u us)

pub placed_in-IsMove :
    (u : Uuid) (n : ℕ) (us : List Uuid) (current : ℕ)
    → position u us ≡ some current
    → IsMove u n us (placed_in u n (remove current us))
placed_in-IsMove u n us current h =
    let (left, right, was, rest) = remove-split u us current h in
    elim (Bool-cases (leb n (length (remove current us)))) [
      | inl fits ↦
          (let (before, after, whole, put, long) =
              insert-split n u (remove current us) (ground arith) in
            record {
              left = left;
              right = right;
              before = before;
              after = after;
              was = was;
              others = whole ∙ rest;
              is = rw fits put;
              at = inl long;
            })
      | inr short ↦ record {
        left = left;
        right = right;
        before = remove current us;
        after = [];
        was = was;
        others = append-nil (remove current us) ∙ rest;
        is = rw short (insert-last u (remove current us));
        at = inr (refl, ground arith);
      }
    ]
