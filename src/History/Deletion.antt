-- ===== src/History/Deletion.antt =====
-- The deletion of one snapshot (`delete_history_at` of crates/keys-engine/src/mutations.rs).
use keys_core.Base.{
  ℕ, zero, suc, ◌+◌, ◌-◌, ◌<◌, ◌≤◌, ◌≡◌, refl, sym, ap, ◌∙◌, subst, arith, false, Option, none,
  some, List, [], ◌∷◌, ◌++◌, ltb, length, length-append, All, append_assoc, append-nil,
  Option-cases, inl, inr,
}
use keys_core.Base.Fallible.{Result, ok, err, ◌>>=◌}
use keys_core.History.{
  Row, EntryHistory, Failure, history_snapshot, update_rows, delete_row, delete_history_at,
}
use keys_core.History.Listed.{
  number, Lacks, Lacks-append, number-Lacks_below, number-Lacks_above, taken-Lacks, taken-number,
  update_rows-skip, update_rows-hit,
}
use keys_core.History.Repack.{delete_row-head}
use keys_core.History.Refinement.{listed}

module _ {J : Type 0} where
  -- A list without its element at a position, if there is one.
  unfoldable pub without : ℕ → List J → Option (List J)
  without i [] = none
  without zero (j ∷ js) = some js
  without (suc i) (j ∷ js) = elim (without i js) [ none ↦ none | some l ↦ some (j ∷ l) ]

  without-none : (i : ℕ) (js : List J) → without i js ≡ none → length js ≤ i
  unfolding without
  without-none i [] h = omega arith
  without-none zero (j ∷ js) h = absurd cc
  without-none (suc i) (j ∷ js) h = elim (Option-cases (without i js)) [
    | inl missed ↦ omega (arith, without-none i js missed)
    | inr (l, hit) ↦ absurd (let dead = rw (hit, without) at h in cc)
  ]

  without-some :
      (i : ℕ) (js l : List J)
      → without i js ≡ some l
      → (xs : List J) × (y : J) × (ys : List J) × (js ≡ xs ++ y ∷ ys)
        × (l ≡ xs ++ ys)
        × (i ≡ length xs)
  unfolding without
  without-some i [] l h = absurd cc
  without-some zero (j ∷ js) l h = ([], j, js, refl, cc, refl)
  without-some (suc i) (j ∷ js) l h = elim (Option-cases (without i js)) [
    | inl missed ↦ absurd (let dead = rw (missed, without) at h in cc)
    | inr (l', hit) ↦
        (let (xs, y, ys, whole, left, at) = without-some i js l' hit in
          let first : some (j ∷ l') ≡ some l = rw (hit, without) at h in
          let same : (j ∷ l') ≡ l = cc in
          (j ∷ xs, y, ys, ap (λ t. j ∷ t) whole, sym same ∙ ap (λ t. j ∷ t) left, ap suc at))
  ]

  delete_row-middle :
      (i k : ℕ) (xs : List J) (y : J) (ys : List J)
      → i ≡ k + length xs
      → delete_row i (number k (xs ++ y ∷ ys)) ≡ number k xs ++ number (suc i) ys
  unfolding delete_row
  delete_row-middle i k [] y ys e =
      let same : i ≡ k = omega (arith, e) in
      subst (λ n. delete_row n (number k (y ∷ ys)) ≡ number (suc n) ys) (sym same)
        (delete_row-head k y ys)
  delete_row-middle i k (x ∷ xs) y ys e =
      ground (arith, e, delete_row-middle i (suc k) xs y ys (omega (arith, e)))

  -- The later rows move down by one.
  update_rows-down :
      {Er : Type 0} (before : List (Row J)) (i k : ℕ) (ys : List J)
      → All (λ r. r.history_index < k) before
      → i ≤ k
      → ◌≡◌ {A = Result (Failure Er) (List (Row J))}
          (update_rows before (λ n. ltb i n) (λ n. n - 1) (number (suc k) ys))
          (ok (before ++ number k ys))
  unfolding update_rows
  update_rows-down before i k [] h low = ap ok (sym (append-nil before))
  update_rows-down before i k (y ∷ ys) h low =
      update_rows-hit before (λ n. ltb i n) (λ n. n - 1)
        (record { history_index = suc k; snapshot_json = y }) (number (suc (suc k)) ys)
        (ground (arith, low))
        (subst (λ n. Lacks n (before ++ number (suc (suc k)) ys)) (omega arith)
          (Lacks-append k before (number (suc (suc k)) ys) (free before h)
            (number-Lacks_below k (suc (suc k)) ys (omega arith))))
      ∙ ap
          (λ n.
            update_rows (before ++ record { history_index = n; snapshot_json = y } ∷ [])
              (λ n. ltb i n) (λ n. n - 1) (number (suc (suc k)) ys))
          (omega arith)
      ∙ update_rows-down (before ++ record { history_index = k; snapshot_json = y } ∷ []) i (suc k)
          ys (more before h) (omega (arith, low))
      ∙ ap ok (
          append_assoc before (record { history_index = k; snapshot_json = y } ∷ [])
            (number (suc k) ys))
    where
      free : (qs : List (Row J)) → All (λ r. r.history_index < k) qs → Lacks k qs
      free [] hs = tt
      free (q ∷ qs) (a, hs) = (λ e. omega (arith, a, e), free qs hs)

      more :
          (qs : List (Row J))
          → All (λ r. r.history_index < k) qs
          → All
              (λ r. r.history_index < suc k)
              (qs ++ record { history_index = k; snapshot_json = y } ∷ [])
      more [] hs = (omega arith, tt)
      more (q ∷ qs) (a, hs) = (omega (arith, a), more qs hs)

  indices_not_above :
      (i k : ℕ) (xs : List J)
      → k + length xs ≤ i
      → All (λ r. ltb i r.history_index ≡ false) (number k xs)
  indices_not_above i k [] h = tt
  indices_not_above i k (x ∷ xs) h =
      (ground (arith, h), indices_not_above i (suc k) xs (omega (arith, h)))

  indices_below :
      (m k : ℕ) (xs : List J) → k + length xs ≤ m → All (λ r. r.history_index < m) (number k xs)
  indices_below m k [] h = tt
  indices_below m k (x ∷ xs) h = (omega (arith, h), indices_below m (suc k) xs (omega (arith, h)))

  number-join :
      (k : ℕ) (xs ys : List J) → number k xs ++ number (k + length xs) ys ≡ number k (xs ++ ys)
  number-join k [] ys = ap (λ n. number n ys) (omega arith)
  number-join k (x ∷ xs) ys =
      ap (λ rows. record { history_index = k; snapshot_json = x } ∷ rows)
        (ap (λ n. number (suc k) xs ++ number n ys) (omega arith) ∙ number-join (suc k) xs ys)

  closed :
      {Er : Type 0} (i : ℕ) (xs : List J) (y : J) (ys : List J)
      → i ≡ length xs
      → ◌≡◌ {A = Result (Failure Er) (List (Row J))}
          (update_rows [] (λ n. ltb i n) (λ n. n - 1) (delete_row i (number 0 (xs ++ y ∷ ys))))
          (ok (number 0 (xs ++ ys)))
  closed i xs y ys e =
      ap (update_rows [] (λ n. ltb i n) (λ n. n - 1))
        (delete_row-middle i 0 xs y ys (omega (arith, e)))
      ∙ update_rows-skip [] (λ n. ltb i n) (λ n. n - 1) (number 0 xs) (number (suc i) ys)
          (indices_not_above i 0 xs (omega (arith, e)))
      ∙ update_rows-down (number 0 xs) i i ys (indices_below i 0 xs (omega (arith, e)))
          (omega arith)
      ∙ ap ok (ap (λ n. number 0 xs ++ number n ys) (omega (arith, e)) ∙ number-join 0 xs ys)

-- What the deletion at a position makes of a list of snapshots.
abbrev pub deleted :
    {J V Er : Type 0} → Option V → Option (List J) → Result (Failure Er) (EntryHistory J V)
deleted t none = err (Failure.not_found history_snapshot)
deleted t (some l) = ok (listed l t)

-- For an entry that is there, with its history numbered from 0: delete_history_at removes the snapshot
-- at the position and numbers the rest from 0 in their order, without meeting an index that is there; at
-- a position beyond the history it fails with `NotFound`, the history snapshot.
pub delete_history_at-listed :
    {J V Er : Type 0} (js : List J) (t : Option V) (i : ℕ)
    → ◌≡◌ {A = Result (Failure Er) (EntryHistory J V)}
        (delete_history_at (listed js t) i)
        (deleted t (without i js))
unfolding delete_history_at
delete_history_at-listed js t i = elim (Option-cases (without i js)) [
  | inl missed ↦
      rw
        (
          missed,
          taken-Lacks i (number 0 js)
              (number-Lacks_above i 0 js (omega (arith, without-none i js missed))),
        )
        refl
  | inr (l, hit) ↦
      (let (xs, y, ys, whole, left, at) = without-some i js l hit in
        rw
          (
            hit,
            whole,
            taken-number i 0 (xs ++ y ∷ ys) (omega arith)
                (omega (arith, at, length-append xs (y ∷ ys))),
          )
          (rw left (
            ap (λ r. r >>= λ rows. ok (record (listed js t) { rows = rows }))
              (closed i xs y ys at))))
]
