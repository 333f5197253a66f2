-- ===== src/Reconcile/Settled.antt =====
-- The reconciliation of one entry's parked conflicts and of all entries'
-- (`settle_entry_rows`, `sweep_entries`; crates/keys-engine/src/reconcile.rs).
use keys_core.Base.{
  ℕ, zero, suc, ◌<◌, ◌≤◌, ◌≡◌, refl, ap, subst, ◌∙◌, arith, Bool, true, false, Option, none, some,
  List, [], ◌∷◌, ◌++◌, if◌then◌else◌, length, inl, inr, ◌⊎◌,
}
use keys_core.Reconcile.{Vault, Engine, Crates, parked_conflict_uuids, conflict_owners_for}
use keys_core.Base.Fallible.{Result, ok, err, ◌>>=◌}
use keys_core.Reconcile.Rows.{count, of_entry, length-owners, count_split, length-keep_if_le}
use keys_core.Reconcile.Decide.{
  settle_for, settle_once, settle_entry_rows, sweep_entries, reconcile_all_conflict_rows,
}
use keys_core.Reconcile.Loop.{
  others, IsSettled, settle_for-stop, settle_for-stop_le, settle_for-more,
}

module _ {X J E B R F Er O : Type 0} (c : Crates X J E B R F Er O) where
  abbrev pub Settles : Type 0
  Settles = Engine X J × Vault E B R × Bool

  once_eq :
      (en : Engine X J) (local : Vault E B R) (uuid : ℕ)
      → settle_for c en local uuid (conflict_owners_for en.conflict_entry uuid)
        ≡ settle_once c en local uuid
  unfolding settle_once
  once_eq en local uuid = refl

  -- A pass ends in an error, stops, or goes on.
  Pass-cases :
      (r : Result Er (Engine X J × Option (Vault E B R)))
      → ((e : Er) × (r ≡ err e))
        ⊎ ((en : Engine X J) × (r ≡ ok (en, none)))
        ⊎ ((en : Engine X J) × (v : Vault E B R) × (r ≡ ok (en, some v)))
  Pass-cases (err e) = inl (e, refl)
  Pass-cases (ok (en, none)) = inr (inl (en, refl))
  Pass-cases (ok (en, some v)) = inr (inr (en, v, refl))

  more_shorter :
      (uuid : ℕ) (en en' : Engine X J)
      → (count (of_entry uuid) en'.conflict_entry < count (of_entry uuid) en.conflict_entry)
      → others uuid en' ≡ others uuid en
      → length en'.conflict_entry ≤ length en.conflict_entry
  more_shorter uuid en en' fewer same = omega (
    arith,
    fewer,
    ap length same,
    count_split uuid en.conflict_entry,
    count_split uuid en'.conflict_entry,
  )

  settle_fuel :
      (fuel : ℕ) (en : Engine X J) (local : Vault E B R) (uuid : ℕ) (adopted : Bool)
      → count (of_entry uuid) en.conflict_entry < fuel
      → (r : Result Er Settles) × (settle_entry_rows c fuel en local uuid adopted ≡ some r)
  unfolding settle_entry_rows
  settle_fuel zero en local uuid adopted h = absurd (omega (arith, h))
  settle_fuel (suc fuel) en local uuid adopted h = elim (Pass-cases (settle_once c en local uuid)) [
    | inl (e, failed) ↦ (err e, rw (failed, settle_entry_rows) refl)
    | inr (inl (en', stops)) ↦ (ok (en', local, adopted), rw (stops, settle_entry_rows) refl)
    | inr (inr (en', local', more)) ↦
        (let (fewer, same) =
            settle_for-more c en local uuid _ en' local' refl (once_eq en local uuid ∙ more) in
          let (r, e) = settle_fuel fuel en' local' uuid true (omega (arith, h, fewer)) in
          (r, rw (more, settle_entry_rows) e))
  ]

  -- For any engine, vault and entry: with more fuel than the entry has parked rows, the loop of
  -- settle_entry_rows ends, with a result or an error.
  pub settle_entry_rows_returns :
      (fuel : ℕ) (en : Engine X J) (local : Vault E B R) (uuid : ℕ) (adopted : Bool)
      → length (conflict_owners_for en.conflict_entry uuid) < fuel
      → (r : Result Er Settles) × (settle_entry_rows c fuel en local uuid adopted ≡ some r)
  settle_entry_rows_returns fuel en local uuid adopted h =
      settle_fuel fuel en local uuid adopted
        (omega (arith, h, length-owners en.conflict_entry uuid))

  result_eq :
      {a b : Engine X J} {v w : Vault E B R} {x y : Bool}
      → ◌≡◌ {A = Option (Result Er Settles)} (some (ok (a, v, x))) (some (ok (b, w, y)))
      → (a ≡ b) × (v ≡ w)
  result_eq h = (cc, cc)

  -- When settle_entry_rows returns an engine and the local vault as last projected, every owner whose row
  -- of the entry is still parked is live: the entry is in that vault, the row's vault can be rebuilt, and
  -- merging it still finds a conflict. The other entries' parked rows are as before.
  pub settle_entry_rows-IsSettled :
      (fuel : ℕ) (en : Engine X J) (local : Vault E B R) (uuid : ℕ) (adopted : Bool)
      (en' : Engine X J) (local' : Vault E B R) (landed : Bool)
      → settle_entry_rows c fuel en local uuid adopted ≡ some (ok (en', local', landed))
      → IsSettled c en local' uuid en'
  unfolding settle_entry_rows
  settle_entry_rows-IsSettled zero en local uuid adopted en' local' landed h = absurd cc
  settle_entry_rows-IsSettled (suc fuel) en local uuid adopted en' local' landed h =
      elim (Pass-cases (settle_once c en local uuid)) [
        | inl (e, failed) ↦ absurd (let dead = rw (failed, settle_entry_rows) at h in cc)
        | inr (inl (en1, stops)) ↦
            (let (engine, vault) = result_eq (rw (stops, settle_entry_rows) at h) in
              subst (λ a. IsSettled c en a uuid en') vault
                (settle_for-stop c en local uuid _ en' refl
                  (once_eq en local uuid ∙ stops ∙ ap (λ a. ok (a, none)) engine)))
        | inr (inr (en1, local1, more)) ↦
            (let (fewer, same) =
                settle_for-more c en local uuid _ en1 local1 refl (once_eq en local uuid ∙ more) in
              let (live, kept) =
                settle_entry_rows-IsSettled fuel en1 local1 uuid true en' local' landed
                  (rw (more, settle_entry_rows) at h) in
              (live, kept ∙ same))
      ]

  settle_entry_rows_le :
      (fuel : ℕ) (en : Engine X J) (local : Vault E B R) (uuid : ℕ) (adopted : Bool)
      (en' : Engine X J) (local' : Vault E B R) (landed : Bool)
      → settle_entry_rows c fuel en local uuid adopted ≡ some (ok (en', local', landed))
      → length en'.conflict_entry ≤ length en.conflict_entry
  unfolding settle_entry_rows
  settle_entry_rows_le zero en local uuid adopted en' local' landed h = absurd cc
  settle_entry_rows_le (suc fuel) en local uuid adopted en' local' landed h =
      elim (Pass-cases (settle_once c en local uuid)) [
        | inl (e, failed) ↦ absurd (let dead = rw (failed, settle_entry_rows) at h in cc)
        | inr (inl (en1, stops)) ↦
            (let (engine, vault) = result_eq (rw (stops, settle_entry_rows) at h) in
              settle_for-stop_le c en local uuid _ en'
                (once_eq en local uuid ∙ stops ∙ ap (λ a. ok (a, none)) engine))
        | inr (inr (en1, local1, more)) ↦
            (let (fewer, same) =
                settle_for-more c en local uuid _ en1 local1 refl (once_eq en local uuid ∙ more) in
              omega (
                arith,
                more_shorter uuid en en1 fewer same,
                settle_entry_rows_le fuel en1 local1 uuid true en' local' landed
                    (rw (more, settle_entry_rows) at h),
              ))
      ]

  -- An entry's run fails or gives a result.
  Settles-cases :
      (r : Result Er Settles)
      → ((e : Er) × (r ≡ err e))
        ⊎ ((en : Engine X J) × (v : Vault E B R) × (b : Bool) × (r ≡ ok (en, v, b)))
  Settles-cases (err e) = inl (e, refl)
  Settles-cases (ok (en, v, b)) = inr (en, v, b, refl)

  sweep_fuel :
      (fuel : ℕ) (uuids : List ℕ) (en : Engine X J) (local : Vault E B R) (adopted : List ℕ)
      → length en.conflict_entry < fuel
      → (r : Result Er (Engine X J × List ℕ)) × (sweep_entries c fuel uuids en local adopted
          ≡ some r)
  unfolding sweep_entries
  sweep_fuel fuel [] en local adopted h = (ok (en, adopted), refl)
  sweep_fuel fuel (uuid ∷ uuids) en local adopted h =
      let (r, ran) =
        settle_fuel fuel en local uuid false
          (omega (arith, h, length-keep_if_le (of_entry uuid) en.conflict_entry)) in
      elim (Settles-cases r) [
        | inl (e, failed) ↦ (err e, rw (ran ∙ ap some failed, sweep_entries) refl)
        | inr (en', local', landed, done) ↦
            (let (s, again) =
                sweep_fuel fuel uuids en' local' (if landed then adopted ++ uuid ∷ [] else adopted)
                  (omega (
                    arith,
                    h,
                    settle_entry_rows_le fuel en local uuid false en' local' landed
                        (ran ∙ ap some done),
                  )) in
              (s, rw (ran ∙ ap some done, sweep_entries) again))
      ]

  -- For any engine: with more fuel for each entry than there are parked rows in all, the sweep of
  -- reconcile_all_conflict_rows ends, with a result or an error.
  pub reconcile_all_conflict_rows_returns :
      (fuel : ℕ) (en : Engine X J)
      → length en.conflict_entry < fuel
      → (r : Result Er (Engine X J × List ℕ)) × (reconcile_all_conflict_rows c fuel en ≡ some r)
  unfolding reconcile_all_conflict_rows
  reconcile_all_conflict_rows_returns fuel en h =
      elim (List-cases (parked_conflict_uuids en.conflict_entry)) [
        | inl clear ↦ (ok (en, []), rw (clear, reconcile_all_conflict_rows) refl)
        | inr (u, us, parked) ↦
            elim (Opened-cases (c.project en.mirror >>= λ v. c.acquire_session_key >>= λ _. ok v)) [
              | inl (e, failed) ↦ (err e, rw (parked, failed, reconcile_all_conflict_rows) refl)
              | inr (v, opened) ↦
                  (let (r, e) = sweep_fuel fuel (u ∷ us) en v [] h in
                    (r, rw (parked, opened, reconcile_all_conflict_rows) e))
            ]
      ]
    where
      List-cases : (xs : List ℕ) → (xs ≡ []) ⊎ ((a : ℕ) × (tail : List ℕ) × (xs ≡ a ∷ tail))
      List-cases [] = inl refl
      List-cases (a ∷ tail) = inr (a, tail, refl)

      Opened-cases :
          (r : Result Er (Vault E B R))
          → ((e : Er) × (r ≡ err e)) ⊎ ((v : Vault E B R) × (r ≡ ok v))
      Opened-cases (err e) = inl (e, refl)
      Opened-cases (ok v) = inr (v, refl)
