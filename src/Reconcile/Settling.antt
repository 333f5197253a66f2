-- ===== src/Reconcile/Settling.antt =====
-- What the loop of `settle_entry_rows` leaves, and that it ends
-- (crates/keys-engine/src/reconcile.rs).
use keys_core.Base.{
  ℕ, ◌≡◌, ◌≢◌, refl, ap, ◌∙◌, arith, Bool, true, false, not, ◌||◌, Option, none, some, List, [],
  ◌∷◌, ◌++◌, ◌==◌, any, All, Bool-cases, inl, inr, ◌⊎◌,
}
use keys_core.Tree.{find_entry}
use keys_core.Reconcile.{Vault, Engine, Crates}
use keys_core.Base.Fallible.{Result, ok, >>=-eq-ok}
use keys_core.Reconcile.Decide.{
  DissolveDecision, theirs_vault, is_empty, has_conflicts, is_unchanged, merged_with, decide_one,
  decide_owners,
}

List-cases : (xs : List ℕ) → (xs ≡ []) ⊎ ((x : ℕ) × (ys : List ℕ) × (xs ≡ x ∷ ys))
List-cases [] = inl refl
List-cases (x ∷ xs) = inr (x, xs, refl)

module _ {X J E B R F Er O : Type 0} (c : Crates X J E B R F Er O) where
  -- The merge finds a conflict in some entry, or an entry that one side deleted and the other edited.
  abbrev pub HasConflict : O → Type 0
  HasConflict o = (c.entry_conflicts o ≢ []) ⊎ (c.delete_edit_conflicts o ≢ [])

  HasConflict-of : (o : O) → has_conflicts c o ≡ true → HasConflict o
  HasConflict-of o h = elim (List-cases (c.entry_conflicts o)) [
    | inr (x, xs, is) ↦ inl (λ e. cc)
    | inl bare ↦ inr (λ e. (let none : has_conflicts c o ≡ false = rw (bare, e) refl in cc))
  ]

  pub has_conflicts-of : (o : O) → HasConflict o → has_conflicts c o ≡ true
  has_conflicts-of o (inl h) = elim (List-cases (c.entry_conflicts o)) [
    | inl bare ↦ absurd (h bare)
    | inr (x, xs, is) ↦ rw is refl
  ]
  has_conflicts-of o (inr h) = elim (List-cases (c.delete_edit_conflicts o)) [
    | inl bare ↦ absurd (h bare)
    | inr (x, xs, is) ↦ rw is (or_true (not (is_empty c (c.entry_conflicts o))))
  ]
    where
      or_true : (b : Bool) → (b || true) ≡ true
      or_true true = refl
      or_true false = refl

  -- A parked row that still conflicts: the entry is there, and merging the row's entry finds a conflict.
  pub record IsLive (en : Engine X J) (local : Vault E B R) (uuid owner : ℕ) : Type 0 where
    pub entry : E
    pub theirs : Vault E B R
    pub outcome : O
    pub found : find_entry c.id uuid local.root ≡ some entry
    pub parked : theirs_vault c en local owner uuid ≡ ok (some theirs)
    pub merges : c.merge local theirs ≡ ok outcome
    pub conflicts : HasConflict outcome

  -- The three ways an owner's step ends.
  abbrev pub OneStep :
      Vault E B R
      → List ℕ
      → ℕ
      → Result Er (DissolveDecision (Vault E B R))
      → Result Er (DissolveDecision (Vault E B R))
      → Option (Vault E B R)
      → DissolveDecision (Vault E B R)
      → Type 0
  OneStep local dropped owner keep drop theirs d =
      (drop ≡ ok d)
      ⊎ ((keep ≡ ok d)
          × (t : Vault E B R) × (o : O) × (theirs ≡ some t)
          × (c.merge local t ≡ ok o)
          × (has_conflicts c o ≡ true))
      ⊎ ((m : Vault E B R) × (DissolveDecision.settle dropped (some (owner, m)) ≡ d))

  pub decide_one-OneStep :
      (local : Vault E B R) (uuid : ℕ) (e : E) (dropped : List ℕ) (owner : ℕ)
      (keep drop : Result Er (DissolveDecision (Vault E B R))) (theirs : Option (Vault E B R))
      (d : DissolveDecision (Vault E B R))
      → decide_one c local uuid e dropped owner keep drop theirs ≡ ok d
      → OneStep local dropped owner keep drop theirs d
  decide_one-OneStep local uuid e dropped owner keep drop none d h = inl h
  decide_one-OneStep local uuid e dropped owner keep drop (some t) d h =
      let (o, merges, h') = >>=-eq-ok (c.merge local t) _ h in
      elim (Bool-cases (has_conflicts c o)) [
        | inl live ↦ inr (inl (rw live at h', t, o, refl, merges, live))
        | inr clean ↦
            (let (m, landed, h'') = >>=-eq-ok (merged_with c local t o) _ (rw clean at h') in
              elim (Bool-cases (is_unchanged c uuid e m)) [
                | inl unchanged ↦ inl (rw unchanged at h'')
                | inr changed ↦ inr (inr (m, ok_inj (rw changed at h'')))
              ])
      ]
    where
      ok_inj :
          {a b : DissolveDecision (Vault E B R)}
          → ◌≡◌ {A = Result Er (DissolveDecision (Vault E B R))} (ok a) (ok b)
          → a ≡ b
      ok_inj h = cc

  abbrev pub Kept : List ℕ → List ℕ → Type 0
  Kept dropped dropped' =
      (w : ℕ) → any (λ o. o == w) dropped ≡ true → any (λ o. o == w) dropped' ≡ true

  any-append_left :
      (w o : ℕ) (os : List ℕ)
      → any (λ a. a == w) os ≡ true
      → any (λ a. a == w) (os ++ o ∷ []) ≡ true
  any-append_left w o [] h = cc
  any-append_left w o (a ∷ os) h = ground (arith, any-append_left w o os)

  any-append_last : (o : ℕ) (os : List ℕ) → any (λ a. a == o) (os ++ o ∷ []) ≡ true
  any-append_last o [] = ground arith
  any-append_last o (a ∷ os) = ground (arith, any-append_last o os)

  -- Without an adoption, every owner is dropped or still conflicts.
  pub decide_owners-All :
      (en : Engine X J) (local : Vault E B R) (uuid : ℕ) (e : E) (dropped owners dropped' : List ℕ)
      → find_entry c.id uuid local.root ≡ some e
      → decide_owners c en local uuid e dropped owners ≡ ok (DissolveDecision.settle dropped' none)
      → All (λ w. (any (λ o. o == w) dropped' ≡ true) ⊎ IsLive en local uuid w) owners
        × Kept dropped dropped'
  unfolding decide_owners
  decide_owners-All en local uuid e dropped [] dropped' found h =
      (tt, λ w k. (let same : dropped ≡ dropped' = cc in rw (← same) k))
  decide_owners-All en local uuid e dropped (o ∷ os) dropped' found h =
      let (theirs, parked, h') = >>=-eq-ok (theirs_vault c en local o uuid) _ h in
      elim (decide_one-OneStep local uuid e dropped o _ _ theirs _ h') [
        | inl drop ↦
            (let (ih, kept) =
                decide_owners-All en local uuid e (dropped ++ o ∷ []) os dropped' found drop in
              (
                (inl (kept o (any-append_last o dropped)), ih),
                λ w k. kept w (any-append_left w o dropped k),
              ))
        | inr (inl (keep, t, out, there, merges, live)) ↦
            (let (ih, kept) = decide_owners-All en local uuid e dropped os dropped' found keep in
              (
                (
                  inr (record {
                    entry = e;
                    theirs = t;
                    outcome = out;
                    found = found;
                    parked = parked ∙ ap ok there;
                    merges = merges;
                    conflicts = HasConflict-of out live;
                  }),
                  ih,
                ),
                kept,
              ))
        | inr (inr (m, adopted)) ↦ absurd cc
      ]

  -- An adopted owner is one of those asked about.
  pub decide_owners-adopts :
      (en : Engine X J) (local : Vault E B R) (uuid : ℕ) (e : E) (dropped owners dropped' : List ℕ)
      (w : ℕ) (m : Vault E B R)
      → decide_owners c en local uuid e dropped owners
        ≡ ok (DissolveDecision.settle dropped' (some (w, m)))
      → ¬ All (λ o. o ≢ w) owners
  unfolding decide_owners
  decide_owners-adopts en local uuid e dropped [] dropped' w m h k = cc
  decide_owners-adopts en local uuid e dropped (o ∷ os) dropped' w m h (ne, k) =
      let (theirs, parked, h') = >>=-eq-ok (theirs_vault c en local o uuid) _ h in
      elim (decide_one-OneStep local uuid e dropped o _ _ theirs _ h') [
        | inl drop ↦ decide_owners-adopts en local uuid e (dropped ++ o ∷ []) os dropped' w m drop k
        | inr (inl (keep, t, out, there, merges, live)) ↦
            decide_owners-adopts en local uuid e dropped os dropped' w m keep k
        | inr (inr (m', adopted)) ↦ ne (cc)
      ]
