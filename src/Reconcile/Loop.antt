-- ===== src/Reconcile/Loop.antt =====
-- The loop of `settle_entry_rows` (crates/keys-engine/src/reconcile.rs).
use keys_core.Base.{
  ℕ, ◌<◌, ◌≤◌, ◌≡◌, ◌≢◌, refl, sym, ap, ap₂, subst, ◌∙◌, arith, Bool, true, false, not, Option,
  none, some, List, [], ◌∷◌, ◌==◌, keep_if, any, length, All, keep_if-All, All-of, All-map₂,
  Option-cases, inl, inr, ◌⊎◌,
}
use keys_core.Tree.{find_entry}
use keys_core.Reconcile.{
  Vault, ConflictRow, Engine, Crates, conflict_owners_for, drop_conflict_rows,
  drop_conflict_rows_for_owner, drop_owners,
}
use keys_core.Base.Fallible.{Result, ok, >>=-eq-ok}
use keys_core.Reconcile.Rows.{
  count, of_entry, length-keep_if_le, length-drop_owners, of_others, not_of, owners-All,
  owners-All_inv, count-drop, count-others_lt, drop_owners_mirror, All-drop_owners, dropped_gone,
  find_row-drop_owners, count-drop_owners, drop_owners_others, others_kept,
}
use keys_core.Reconcile.Decide.{
  DissolveDecision, theirs_of, theirs_vault, decide_for, decide_owners, dissolve_decision,
  apply_dissolve, project_again, settle_for,
}
use keys_core.Reconcile.Settling.{IsLive, decide_owners-All, decide_owners-adopts}

-- The rows of the other entries.
abbrev pub others : {X J : Type 0} → ℕ → Engine X J → List (ConflictRow J)
others uuid en = keep_if (λ r. not (r.entry_uuid == uuid)) en.conflict_entry

module _ {X J E B R F Er O : Type 0} (c : Crates X J E B R F Er O) where
  theirs_vault-drop_owners :
      (os : List ℕ) (uuid w : ℕ) (en : Engine X J) (local : Vault E B R)
      → any (λ o. o == w) os ≡ false
      → theirs_vault c (drop_owners os uuid en) local w uuid ≡ theirs_vault c en local w uuid
  unfolding theirs_vault
  theirs_vault-drop_owners os uuid w en local h =
      ap₂ (λ m r. theirs_of c m local r) (drop_owners_mirror os uuid en)
        (find_row-drop_owners os uuid w en h)

  IsLive-drop_owners :
      (os : List ℕ) (uuid w : ℕ) (en : Engine X J) (local : Vault E B R)
      → any (λ o. o == w) os ≡ false
      → IsLive c en local uuid w
      → IsLive c (drop_owners os uuid en) local uuid w
  IsLive-drop_owners os uuid w en local h live = record {
    entry = live.entry;
    theirs = live.theirs;
    outcome = live.outcome;
    found = live.found;
    merges = live.merges;
    conflicts = live.conflicts;
    parked = theirs_vault-drop_owners os uuid w en local h ∙ live.parked;
  }

  -- The rows that a decision without an adoption leaves.
  settled-All :
      (en : Engine X J) (local : Vault E B R) (uuid : ℕ) (e : E) (dropped : List ℕ)
      → find_entry c.id uuid local.root ≡ some e
      → decide_owners c en local uuid e [] (conflict_owners_for en.conflict_entry uuid)
        ≡ ok (DissolveDecision.settle dropped none)
      → All
          (IsLive c (drop_owners dropped uuid en) local uuid)
          (conflict_owners_for (drop_owners dropped uuid en).conflict_entry uuid)
  settled-All en local uuid e dropped found h =
      let (each, kept) = decide_owners-All c en local uuid e [] _ dropped found h in
      let rows = owners-All_inv _ en.conflict_entry uuid each in
      owners-All (IsLive c (drop_owners dropped uuid en) local uuid)
        (drop_owners dropped uuid en).conflict_entry uuid
        (All-map₂ _ _ _
          (λ r known gone its. elim (known its) [
            | inl dropped_one ↦ absurd (let dead : true ≡ false = sym dropped_one ∙ gone its in cc)
            | inr live ↦ IsLive-drop_owners dropped uuid r.owner en local (gone its) live
          ])
          (drop_owners dropped uuid en).conflict_entry (All-drop_owners _ dropped uuid en rows)
          (dropped_gone dropped uuid en))

  drop_all-others :
      (uuid : ℕ) (rs : List (ConflictRow J))
      → keep_if (λ r. not (r.entry_uuid == uuid)) (keep_if (λ r. not (r.entry_uuid == uuid)) rs)
        ≡ keep_if (λ r. not (r.entry_uuid == uuid)) rs
  drop_all-others uuid [] = refl
  drop_all-others uuid (r ∷ rs) = ground (arith, drop_all-others uuid rs)

  -- What a pass leaves that ends the loop.
  abbrev pub IsSettled : Engine X J → Vault E B R → ℕ → Engine X J → Type 0
  IsSettled en local uuid en' =
      All (IsLive c en' local uuid) (conflict_owners_for en'.conflict_entry uuid)
      × (others uuid en' ≡ others uuid en)

  -- A pass that landed nothing, or one more pass.
  project_again-stop :
      (r : Engine X J × Bool) (en' : Engine X J)
      → project_again c r ≡ ok (en', none)
      → r ≡ (en', false)
  project_again-stop (en, false) en' h = cc
  project_again-stop (en, true) en' h =
      let (v, p, k) = >>=-eq-ok (c.project en.mirror) _ h in absurd cc

  project_again-more :
      (r : Engine X J × Bool) (en' : Engine X J) (v : Vault E B R)
      → project_again c r ≡ ok (en', some v)
      → r ≡ (en', true)
  project_again-more (en, false) en' v h = absurd cc
  project_again-more (en, true) en' v h = let (v', p, k) = >>=-eq-ok (c.project en.mirror) _ h in cc

  applied_eq :
      {a b : Engine X J} {x y : Bool}
      → ◌≡◌ {A = Result Er (Engine X J × Bool)} (ok (a, x)) (ok (b, y))
      → (a ≡ b) × (x ≡ y)
  applied_eq h = (cc, cc)

  decide_eq :
      {a b : DissolveDecision (Vault E B R)}
      → ◌≡◌ {A = Result Er (DissolveDecision (Vault E B R))} (ok a) (ok b)
      → a ≡ b
  decide_eq h = cc

  stop_eq :
      {a b : Engine X J}
      → ◌≡◌ {A = Result Er (Engine X J × Option (Vault E B R))} (ok (a, none)) (ok (b, none))
      → a ≡ b
  stop_eq h = cc

  apply_dissolve-more :
      (en : Engine X J) (uuid : ℕ) (d : DissolveDecision (Vault E B R)) (en' : Engine X J)
      → apply_dissolve c en uuid d ≡ ok (en', true)
      → (dropped : List ℕ) × (w : ℕ) × (m : Vault E B R) × (d
          ≡ DissolveDecision.settle dropped (some (w, m)))
        × (keep_if (not_of w uuid) (drop_owners dropped uuid en).conflict_entry
            ≡ en'.conflict_entry)
  unfolding apply_dissolve drop_conflict_rows_for_owner
  apply_dissolve-more en uuid DissolveDecision.drop_all en' h =
      absurd (let (a, b) = applied_eq h in cc)
  apply_dissolve-more en uuid (DissolveDecision.settle dropped none) en' h =
      absurd (let (a, b) = applied_eq h in cc)
  apply_dissolve-more en uuid (DissolveDecision.settle dropped (some (w, m))) en' h =
      let (x, ingested, k) = >>=-eq-ok (c.ingest m (drop_owners dropped uuid en).mirror) _ h in
      (dropped, w, m, refl, ap (λ a. a.conflict_entry) (applied_eq k).0)

  apply_dissolve-stop :
      (en : Engine X J) (uuid : ℕ) (d : DissolveDecision (Vault E B R)) (en' : Engine X J)
      → apply_dissolve c en uuid d ≡ ok (en', false)
      → ((d ≡ DissolveDecision.drop_all) × (drop_conflict_rows uuid en ≡ en'))
        ⊎ ((dropped : List ℕ) × (d ≡ DissolveDecision.settle dropped none)
            × (drop_owners dropped uuid en ≡ en'))
  unfolding apply_dissolve
  apply_dissolve-stop en uuid DissolveDecision.drop_all en' h = inl (refl, (applied_eq h).0)
  apply_dissolve-stop en uuid (DissolveDecision.settle dropped none) en' h =
      inr (dropped, refl, (applied_eq h).0)
  apply_dissolve-stop en uuid (DissolveDecision.settle dropped (some (w, m))) en' h =
      let (x, ingested, k) = >>=-eq-ok (c.ingest m (drop_owners dropped uuid en).mirror) _ h in
      absurd (let (a, b) = applied_eq k in cc)

  -- What is decided without a landing is decided for an entry that is there.
  decide_for-settle :
      (en : Engine X J) (local : Vault E B R) (uuid : ℕ) (owners dropped : List ℕ)
      (adopt : Option (ℕ × Vault E B R))
      → decide_for c en local uuid owners (find_entry c.id uuid local.root)
        ≡ ok (DissolveDecision.settle dropped adopt)
      → (e : E) × (find_entry c.id uuid local.root ≡ some e)
        × (decide_owners c en local uuid e [] owners ≡ ok (DissolveDecision.settle dropped adopt))
  unfolding decide_for
  decide_for-settle en local uuid owners dropped adopt h =
      elim (Option-cases (find_entry c.id uuid local.root)) [
        | inl gone ↦ absurd (let dead = rw gone at h in let clash = decide_eq dead in cc)
        | inr (e, found) ↦ (e, found, rw found at h)
      ]

  rows_gone :
      (en : Engine X J) (local : Vault E B R) (uuid : ℕ)
      → IsSettled en local uuid (drop_conflict_rows uuid en)
  unfolding drop_conflict_rows
  rows_gone en local uuid = (
    owners-All _ (keep_if (λ r. not (r.entry_uuid == uuid)) en.conflict_entry) uuid (
        All-map₂ _ _ _ (λ r gone t its. absurd (ground (arith, gone, its)))
          (keep_if (λ r. not (r.entry_uuid == uuid)) en.conflict_entry)
          (keep_if-All (λ r. not (r.entry_uuid == uuid)) en.conflict_entry)
          (All-of (λ r. Unit {0}) (λ r. tt) _)),
    drop_all-others uuid en.conflict_entry,
  )

  drop_conflict_rows_le :
      (uuid : ℕ) (en : Engine X J)
      → length (drop_conflict_rows uuid en).conflict_entry ≤ length en.conflict_entry
  unfolding drop_conflict_rows
  drop_conflict_rows_le uuid en = length-keep_if_le _ en.conflict_entry

  pub settle_for-stop_le :
      (en : Engine X J) (local : Vault E B R) (uuid : ℕ) (owners : List ℕ) (en' : Engine X J)
      → settle_for c en local uuid owners ≡ ok (en', none)
      → length en'.conflict_entry ≤ length en.conflict_entry
  unfolding settle_for
  settle_for-stop_le en local uuid [] en' h =
      subst (λ (a : Engine X J). length a.conflict_entry ≤ length en.conflict_entry) (stop_eq h)
        (omega arith)
  settle_for-stop_le en local uuid (o ∷ os) en' h =
      let (d, decided, h') = >>=-eq-ok (dissolve_decision c en local uuid (o ∷ os)) _ h in
      let (r, applied, again) = >>=-eq-ok (apply_dissolve c en uuid d) _ h' in
      elim (apply_dissolve-stop en uuid d en' (applied ∙ ap ok (project_again-stop r en' again))) [
        | inl (all, same) ↦
            subst (λ (a : Engine X J). length a.conflict_entry ≤ length en.conflict_entry) same
              (drop_conflict_rows_le uuid en)
        | inr (dropped, which, same) ↦
            subst (λ (a : Engine X J). length a.conflict_entry ≤ length en.conflict_entry) same
              (length-drop_owners dropped uuid en)
      ]

  pub settle_for-stop :
      (en : Engine X J) (local : Vault E B R) (uuid : ℕ) (owners : List ℕ) (en' : Engine X J)
      → conflict_owners_for en.conflict_entry uuid ≡ owners
      → settle_for c en local uuid owners ≡ ok (en', none)
      → IsSettled en local uuid en'
  unfolding settle_for dissolve_decision
  settle_for-stop en local uuid [] en' e h =
      subst (IsSettled en local uuid) (stop_eq h)
        (subst (All (IsLive c en local uuid)) (sym e) tt, refl)
  settle_for-stop en local uuid (o ∷ os) en' e h =
      let (d, decided, h') = >>=-eq-ok (dissolve_decision c en local uuid (o ∷ os)) _ h in
      let (r, applied, again) = >>=-eq-ok (apply_dissolve c en uuid d) _ h' in
      elim (apply_dissolve-stop en uuid d en' (applied ∙ ap ok (project_again-stop r en' again))) [
        | inl (all, same) ↦ subst (IsSettled en local uuid) same (rows_gone en local uuid)
        | inr (dropped, which, same) ↦
            (let (entry, found, run) =
                decide_for-settle en local uuid (o ∷ os) dropped none (decided ∙ ap ok which) in
              subst (IsSettled en local uuid) same (
                settled-All en local uuid entry dropped found (rw e run),
                drop_owners_others dropped uuid en,
              ))
      ]

  -- A pass that lands a merge leaves fewer rows of the entry, and the other entries' rows.
  pub settle_for-more :
      (en : Engine X J) (local : Vault E B R) (uuid : ℕ) (owners : List ℕ) (en' : Engine X J)
      (local' : Vault E B R)
      → conflict_owners_for en.conflict_entry uuid ≡ owners
      → settle_for c en local uuid owners ≡ ok (en', some local')
      → (count (of_entry uuid) en'.conflict_entry < count (of_entry uuid) en.conflict_entry)
        × (others uuid en' ≡ others uuid en)
  unfolding settle_for dissolve_decision
  settle_for-more en local uuid [] en' local' e h = absurd cc
  settle_for-more en local uuid (o ∷ os) en' local' e h =
      let (d, decided, h') = >>=-eq-ok (dissolve_decision c en local uuid (o ∷ os)) _ h in
      let (r, applied, again) = >>=-eq-ok (apply_dissolve c en uuid d) _ h' in
      let (dropped, w, m, which, same) =
        apply_dissolve-more en uuid d en'
          (applied ∙ ap ok (project_again-more r en' local' again)) in
      let (entry, found, run) =
        decide_for-settle en local uuid (o ∷ os) dropped (some (w, m)) (decided ∙ ap ok which) in
      let asked = decide_owners-adopts c en local uuid entry [] (o ∷ os) dropped w m run in
      let fewer =
        count-others_lt w uuid en.conflict_entry
          (λ k. asked (subst (All (λ v. v ≢ w)) e (owners-All _ en.conflict_entry uuid k))) in
      let left = drop_owners dropped uuid en in
      (
        subst (λ rs. count (of_entry uuid) rs < count (of_entry uuid) en.conflict_entry) same
            (omega (
              arith,
              fewer,
              count-drop w uuid left.conflict_entry,
              count-drop_owners (of_others w uuid) dropped uuid en,
            )),
        ap (keep_if (λ r. not (r.entry_uuid == uuid))) (sym same)
            ∙ others_kept w uuid left.conflict_entry
            ∙ drop_owners_others dropped uuid en,
      )
