-- ===== src/Reconcile/Rows.antt =====
-- Owners, rows and deletions of the conflict tables (crates/keys-engine/src/conflict_rows.rs).
use keys_core.Base.{
  ℕ, suc, ◌+◌, ◌<◌, ◌≤◌, ◌≡◌, ◌≢◌, refl, sym, ◌∙◌, arith, Bool, true, false, not, ◌&&◌, some, List,
  [], ◌∷◌, ◌==◌, leb, keep_if, any, length, All, All-keep_if, keep_if-All, All-of, All-map₂,
  Bool-cases, inl, inr,
}
use keys_core.Reconcile.{
  ConflictRow, Engine, insert_sorted, conflict_owners_for, find_row, drop_conflict_rows_for_owner,
  drop_owners,
}

module _ {J : Type 0} where
  -- How many rows pass a test.
  abbrev pub count : (ConflictRow J → Bool) → List (ConflictRow J) → ℕ
  count p rs = length (keep_if p rs)

  abbrev pub of_entry : ℕ → ConflictRow J → Bool
  of_entry uuid r = r.entry_uuid == uuid

  -- The entry's rows of another owner.
  abbrev pub of_others : ℕ → ℕ → ConflictRow J → Bool
  of_others owner uuid r = r.entry_uuid == uuid && not (r.owner == owner)

  abbrev pub not_of : ℕ → ℕ → ConflictRow J → Bool
  not_of owner uuid r = not (r.owner == owner && r.entry_uuid == uuid)

length-insert_sorted : (a : ℕ) (bs : List ℕ) → length (insert_sorted a bs) ≡ suc (length bs)
unfolding insert_sorted
length-insert_sorted a [] = refl
length-insert_sorted a (b ∷ bs) = ground (arith, length-insert_sorted a bs)

All-insert_sorted :
    (P : ℕ → Type 0) (a : ℕ) (bs : List ℕ) → P a → All P bs → All P (insert_sorted a bs)
unfolding insert_sorted
All-insert_sorted P a [] h hs = (h, tt)
All-insert_sorted P a (b ∷ bs) h (k, ks) = elim (Bool-cases (leb a b)) [
  | inl low ↦ rw low (h, (k, ks))
  | inr high ↦ rw high (k, All-insert_sorted P a bs h ks)
]

All-insert_sorted_inv :
    (P : ℕ → Type 0) (a : ℕ) (bs : List ℕ) → All P (insert_sorted a bs) → P a × All P bs
unfolding insert_sorted
All-insert_sorted_inv P a [] (h, hs) = (h, tt)
All-insert_sorted_inv P a (b ∷ bs) h = elim (Bool-cases (leb a b)) [
  | inl low ↦ (let k : All P (a ∷ b ∷ bs) = rw low at h in k)
  | inr high ↦
      (let k : P b × All P (insert_sorted a bs) = rw high at h in
        let (pa, ps) = All-insert_sorted_inv P a bs k.1 in (pa, (k.0, ps)))
]

module _ {J : Type 0} where
  pub length-owners :
      (rs : List (ConflictRow J)) (uuid : ℕ)
      → length (conflict_owners_for rs uuid) ≡ count (of_entry uuid) rs
  unfolding conflict_owners_for
  length-owners [] uuid = refl
  length-owners (r ∷ rs) uuid =
      ground
        (arith, length-insert_sorted r.owner (conflict_owners_for rs uuid), length-owners rs uuid)

  -- What holds of the owners of the entry's rows holds of the owners that are read.
  pub owners-All :
      (P : ℕ → Type 0) (rs : List (ConflictRow J)) (uuid : ℕ)
      → All (λ r. (r.entry_uuid == uuid) ≡ true → P r.owner) rs
      → All P (conflict_owners_for rs uuid)
  unfolding conflict_owners_for
  owners-All P [] uuid h = tt
  owners-All P (r ∷ rs) uuid (h, hs) = elim (Bool-cases (r.entry_uuid == uuid)) [
    | inl its ↦ rw its (
        All-insert_sorted P r.owner (conflict_owners_for rs uuid) (h its) (owners-All P rs uuid hs))
    | inr other ↦ rw other (owners-All P rs uuid hs)
  ]

  pub owners-All_inv :
      (P : ℕ → Type 0) (rs : List (ConflictRow J)) (uuid : ℕ)
      → All P (conflict_owners_for rs uuid)
      → All (λ r. (r.entry_uuid == uuid) ≡ true → P r.owner) rs
  unfolding conflict_owners_for
  owners-All_inv P [] uuid h = tt
  owners-All_inv P (r ∷ rs) uuid h = elim (Bool-cases (r.entry_uuid == uuid)) [
    | inl its ↦
        (let k : All P (insert_sorted r.owner (conflict_owners_for rs uuid)) = rw its at h in
          let (pa, ps) = All-insert_sorted_inv P r.owner (conflict_owners_for rs uuid) k in
          (λ e. pa, owners-All_inv P rs uuid ps))
    | inr other ↦
        (let k : All P (conflict_owners_for rs uuid) = rw other at h in
          (λ e. absurd (let dead : true ≡ false = sym e ∙ other in cc), owners-All_inv P rs uuid k))
  ]

  -- Deleting an owner's row of the entry leaves the other owners' rows.
  pub count-drop :
      (owner uuid : ℕ) (rs : List (ConflictRow J))
      → count (of_entry uuid) (keep_if (not_of owner uuid) rs) ≡ count (of_others owner uuid) rs
  count-drop owner uuid [] = refl
  count-drop owner uuid (r ∷ rs) = ground (arith, count-drop owner uuid rs)

  pub length-keep_if_le :
      (q : ConflictRow J → Bool) (rs : List (ConflictRow J)) → length (keep_if q rs) ≤ length rs
  length-keep_if_le q [] = omega arith
  length-keep_if_le q (r ∷ rs) = ground (arith, length-keep_if_le q rs)

  pub count-keep_if_le :
      (p q : ConflictRow J → Bool) (rs : List (ConflictRow J)) → count p (keep_if q rs) ≤ count p rs
  count-keep_if_le p q [] = omega arith
  count-keep_if_le p q (r ∷ rs) = ground (arith, count-keep_if_le p q rs)

  pub count-others_le :
      (owner uuid : ℕ) (rs : List (ConflictRow J))
      → count (of_others owner uuid) rs ≤ count (of_entry uuid) rs
  count-others_le owner uuid [] = omega arith
  count-others_le owner uuid (r ∷ rs) = ground (arith, count-others_le owner uuid rs)

  pub count-others_lt :
      (owner uuid : ℕ) (rs : List (ConflictRow J))
      → ¬ All (λ r. (r.entry_uuid == uuid) ≡ true → r.owner ≢ owner) rs
      → count (of_others owner uuid) rs < count (of_entry uuid) rs
  count-others_lt owner uuid [] h = absurd (h tt)
  count-others_lt owner uuid (r ∷ rs) h = elim (Bool-cases (r.entry_uuid == uuid)) [
    | inr other ↦
        (let ih =
            count-others_lt owner uuid rs
              (λ k. h (λ e. absurd (let dead : true ≡ false = sym e ∙ other in cc), k)) in
          ground (arith, ih))
    | inl its ↦ elim (Bool-cases (r.owner == owner)) [
      | inl mine ↦ ground (arith, count-others_le owner uuid rs)
      | inr theirs ↦
          (let ih = count-others_lt owner uuid rs (λ k. h (λ e. ground arith, k)) in
            ground (arith, ih))
    ]
  ]

  pub others_kept :
      (o uuid : ℕ) (rs : List (ConflictRow J))
      → keep_if (λ r. not (r.entry_uuid == uuid)) (keep_if (not_of o uuid) rs)
        ≡ keep_if (λ r. not (r.entry_uuid == uuid)) rs
  others_kept o uuid [] = refl
  others_kept o uuid (r ∷ rs) = ground (arith, others_kept o uuid rs)

  find_row-drop :
      (owner uuid w : ℕ) (rs : List (ConflictRow J))
      → (owner == w) ≡ false
      → find_row (keep_if (not_of owner uuid) rs) w uuid ≡ find_row rs w uuid
  unfolding find_row
  find_row-drop owner uuid w [] h = refl
  find_row-drop owner uuid w (r ∷ rs) h = ground (arith, find_row-drop owner uuid w rs h)

  -- The owner that an entry's row goes by has one that is found.
  pub find_row-some :
      (w uuid : ℕ) (rs : List (ConflictRow J))
      → ¬ All (λ r. (r.entry_uuid == uuid) ≡ true → r.owner ≢ w) rs
      → (j : J) × (find_row rs w uuid ≡ some j)
  unfolding find_row
  find_row-some w uuid [] h = absurd (h tt)
  find_row-some w uuid (r ∷ rs) h = elim (Bool-cases (r.owner == w && r.entry_uuid == uuid)) [
    | inl mine ↦ (r.entry_json, rw mine refl)
    | inr other ↦
        (let (j, e) = find_row-some w uuid rs (λ k. h (λ e x. ground arith, k)) in (j, rw other e))
  ]

  -- A table is an entry's rows and the rows of the others.
  pub count_split :
      (uuid : ℕ) (rs : List (ConflictRow J))
      → length rs ≡ count (of_entry uuid) rs + length (keep_if (λ r. not (r.entry_uuid == uuid)) rs)
  count_split uuid [] = refl
  count_split uuid (r ∷ rs) = ground (arith, count_split uuid rs)

module _ {X J : Type 0} where
  -- The rows that the deletions for several owners leave.
  pub drop_owners_mirror :
      (os : List ℕ) (uuid : ℕ) (en : Engine X J) → (drop_owners os uuid en).mirror ≡ en.mirror
  unfolding drop_owners drop_conflict_rows_for_owner
  drop_owners_mirror [] uuid en = refl
  drop_owners_mirror (o ∷ os) uuid en =
      drop_owners_mirror os uuid (drop_conflict_rows_for_owner o uuid en)

  pub All-drop_owners :
      (P : ConflictRow J → Type 0) (os : List ℕ) (uuid : ℕ) (en : Engine X J)
      → All P en.conflict_entry
      → All P (drop_owners os uuid en).conflict_entry
  unfolding drop_owners drop_conflict_rows_for_owner
  All-drop_owners P [] uuid en h = h
  All-drop_owners P (o ∷ os) uuid en h =
      All-drop_owners P os uuid (drop_conflict_rows_for_owner o uuid en)
        (All-keep_if P (not_of o uuid) en.conflict_entry h)

  pub dropped_gone :
      (os : List ℕ) (uuid : ℕ) (en : Engine X J)
      → All
          (λ r. (r.entry_uuid == uuid) ≡ true → any (λ o. o == r.owner) os ≡ false)
          (drop_owners os uuid en).conflict_entry
  unfolding drop_owners drop_conflict_rows_for_owner
  dropped_gone [] uuid en = All-of _ (λ r e. refl) en.conflict_entry
  dropped_gone (o ∷ os) uuid en =
      All-map₂ _ _ _ (λ r a b e. ground (arith, a e, b))
        (drop_owners os uuid (drop_conflict_rows_for_owner o uuid en)).conflict_entry
        (dropped_gone os uuid (drop_conflict_rows_for_owner o uuid en))
        (All-drop_owners (λ r. not_of o uuid r ≡ true) os uuid
          (drop_conflict_rows_for_owner o uuid en) (keep_if-All (not_of o uuid) en.conflict_entry))

  pub find_row-drop_owners :
      (os : List ℕ) (uuid w : ℕ) (en : Engine X J)
      → any (λ o. o == w) os ≡ false
      → find_row (drop_owners os uuid en).conflict_entry w uuid ≡ find_row en.conflict_entry w uuid
  unfolding drop_owners drop_conflict_rows_for_owner
  find_row-drop_owners [] uuid w en h = refl
  find_row-drop_owners (o ∷ os) uuid w en h =
      find_row-drop_owners os uuid w (drop_conflict_rows_for_owner o uuid en) (ground arith)
      ∙ find_row-drop o uuid w en.conflict_entry (ground arith)

  -- Deletions never add to a count of rows.
  pub count-drop_owners :
      (p : ConflictRow J → Bool) (os : List ℕ) (uuid : ℕ) (en : Engine X J)
      → count p (drop_owners os uuid en).conflict_entry ≤ count p en.conflict_entry
  unfolding drop_owners drop_conflict_rows_for_owner
  count-drop_owners p [] uuid en = omega arith
  count-drop_owners p (o ∷ os) uuid en = omega (
    arith,
    count-drop_owners p os uuid (drop_conflict_rows_for_owner o uuid en),
    count-keep_if_le p (not_of o uuid) en.conflict_entry,
  )

  -- The rows of other entries stay.
  pub drop_owners_others :
      (os : List ℕ) (uuid : ℕ) (en : Engine X J)
      → keep_if (λ r. not (r.entry_uuid == uuid)) (drop_owners os uuid en).conflict_entry
        ≡ keep_if (λ r. not (r.entry_uuid == uuid)) en.conflict_entry
  unfolding drop_owners drop_conflict_rows_for_owner
  drop_owners_others [] uuid en = refl
  drop_owners_others (o ∷ os) uuid en =
      drop_owners_others os uuid (drop_conflict_rows_for_owner o uuid en)
      ∙ others_kept o uuid en.conflict_entry

  pub length-drop_owners :
      (os : List ℕ) (uuid : ℕ) (en : Engine X J)
      → length (drop_owners os uuid en).conflict_entry ≤ length en.conflict_entry
  unfolding drop_owners drop_conflict_rows_for_owner
  length-drop_owners [] uuid en = omega arith
  length-drop_owners (o ∷ os) uuid en = omega (
    arith,
    length-drop_owners os uuid (drop_conflict_rows_for_owner o uuid en),
    length-keep_if_le (not_of o uuid) en.conflict_entry,
  )
