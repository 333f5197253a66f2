-- ===== src/History/Selection.antt =====
-- Which snapshots the walk from the newest keeps (`prune_history` of
-- crates/keys-engine/src/mutations.rs).
use keys_core.Base.{
  ℕ, suc, ◌+◌, ◌<◌, ◌≤◌, ◌≡◌, refl, ap, arith, Bool, true, false, ◌&&◌, List, [], ◌∷◌, ltb, leb,
  length, Bool-cases, inl, inr, ◌⊎◌,
}
use keys_core.History.Prune.{max_i64, saturated_sum, choose, choose_one, kept_of}

abbrev pub sum : List ℕ → ℕ
sum [] = 0
sum (n ∷ ns) = n + sum ns

-- Each snapshot is kept exactly when it fits beside the newer ones that are kept: their number is below
-- the items cap, and with its bytes theirs stay within the size cap.
abbrev pub IsGreedy : ℕ → ℕ → List Bool → List ℕ → Type 0
IsGreedy items size [] sizes = sizes ≡ []
IsGreedy items size (b ∷ keep) [] = ⊥
IsGreedy items size (true ∷ keep) (n ∷ sizes) =
    (length (kept_of keep sizes) < items)
    × (sum (kept_of keep sizes) + n ≤ size)
    × IsGreedy items size keep sizes
IsGreedy items size (false ∷ keep) (n ∷ sizes) =
    ((items ≤ length (kept_of keep sizes)) ⊎ (size < sum (kept_of keep sizes) + n))
    × IsGreedy items size keep sizes

-- The flags, and the counters of the walk.
abbrev Chosen : ℕ → ℕ → List ℕ → List Bool × ℕ × ℕ → Type 0
Chosen items size sizes (keep, kept, kept_size) =
    IsGreedy items size keep sizes
    × (kept ≡ length (kept_of keep sizes))
    × (kept_size ≡ sum (kept_of keep sizes))
    × (kept_size ≤ sum sizes)

choose_one-Chosen :
    (items size n : ℕ) (sizes : List ℕ) (c : List Bool × ℕ × ℕ)
    → n + sum sizes ≤ max_i64
    → Chosen items size sizes c
    → Chosen items size (n ∷ sizes) (choose_one items size n c)
unfolding kept_of
choose_one-Chosen items size n sizes (keep, kept, kept_size) h (greedy, count, bytes, low) =
    elim (Bool-cases (ltb kept items && leb (kept_size + n) size)) [
      | inl fits ↦
          rw (exact, fits)
            (
              (ground (arith, fits, count), ground (arith, fits, bytes), greedy),
              ap suc count,
              omega (arith, bytes),
              omega (arith, low),
            )
      | inr full ↦
          rw (exact, full)
            ((ground (arith, full, count, bytes), greedy), count, bytes, omega (arith, low))
    ]
  where
    exact : saturated_sum kept_size n ≡ kept_size + n
    exact = ground (arith, h, low)

pub length-choose :
    (items size : ℕ) (sizes : List ℕ) → length (choose items size sizes).0 ≡ length sizes
unfolding choose
length-choose items size [] = refl
length-choose items size (n ∷ sizes) = ground (arith, length-choose items size sizes)

choose-Chosen :
    (items size : ℕ) (sizes : List ℕ)
    → sum sizes ≤ max_i64
    → Chosen items size sizes (choose items size sizes)
unfolding choose kept_of
choose-Chosen items size [] h = (refl, refl, refl, omega arith)
choose-Chosen items size (n ∷ sizes) h =
    choose_one-Chosen items size n sizes (choose items size sizes) h
      (choose-Chosen items size sizes (omega (arith, h)))

IsGreedy-caps :
    (items size : ℕ) (keep : List Bool) (sizes : List ℕ)
    → IsGreedy items size keep sizes
    → (length (kept_of keep sizes) ≤ items) × (sum (kept_of keep sizes) ≤ size)
unfolding kept_of
IsGreedy-caps items size [] sizes h = (omega arith, omega arith)
IsGreedy-caps items size (b ∷ keep) [] h = absurd h
IsGreedy-caps items size (true ∷ keep) (n ∷ sizes) (count, bytes, h) =
    (omega (arith, count), omega (arith, bytes))
IsGreedy-caps items size (false ∷ keep) (n ∷ sizes) (over, h) =
    IsGreedy-caps items size keep sizes h

-- For snapshots whose sizes, oldest first, sum to an i64: the walk of prune_history keeps a snapshot
-- exactly when it fits beside the newer ones that it keeps, so that the snapshots kept are at most as
-- many as the items cap, and their bytes at most the size cap.
pub choose-IsGreedy :
    (items size : ℕ) (sizes : List ℕ)
    → sum sizes ≤ max_i64
    → IsGreedy items size (choose items size sizes).0 sizes
      × (length (kept_of (choose items size sizes).0 sizes) ≤ items)
      × (sum (kept_of (choose items size sizes).0 sizes) ≤ size)
choose-IsGreedy items size sizes h =
    let (greedy, count, bytes, low) = choose-Chosen items size sizes h in
    let (fewer, smaller) = IsGreedy-caps items size (choose items size sizes).0 sizes greedy in
    (greedy, fewer, smaller)
