-- ===== src/Reconcile/Sparing.antt =====
-- Which parked rows a decision leaves alone (`dissolve_decision` of crates/keys-engine/src/reconcile.rs).
use keys_core.Base.{
  ℕ, ◌≡◌, ◌≢◌, refl, sym, ap, subst, ◌∙◌, arith, true, false, none, some, List, [], ◌∷◌, ◌++◌, ◌==◌,
  any, Bool-cases, inl, inr,
}
use keys_core.Base.Fallible.{Result, ok, ◌>>=◌, >>=-eq-ok}
use keys_core.Reconcile.{Vault, Engine, Crates}
use keys_core.Reconcile.Decide.{
  DissolveDecision, theirs_vault, has_conflicts, decide_one, decide_owners, decide_for,
  dissolve_decision,
}
use keys_core.Reconcile.Settling.{IsLive, has_conflicts-of, decide_one-OneStep}

-- A decision drops neither the owner's row nor all of them, and does not adopt it.
abbrev pub Spares : {V : Type 0} → ℕ → DissolveDecision V → Type 0
Spares w DissolveDecision.drop_all = ⊥
Spares w (DissolveDecision.settle dropped none) = any (λ o. o == w) dropped ≡ false
Spares w (DissolveDecision.settle dropped (some (owner, merged))) =
    (any (λ o. o == w) dropped ≡ false) × (owner ≢ w)

any-append_other :
    (w o : ℕ) (os : List ℕ)
    → (o == w) ≡ false
    → any (λ a. a == w) os ≡ false
    → any (λ a. a == w) (os ++ o ∷ []) ≡ false
any-append_other w o [] h k = ground (arith, h)
any-append_other w o (a ∷ os) h k = ground (arith, h, k, any-append_other w o os h)

module _ {X J E B R F Er O : Type 0} (c : Crates X J E B R F Er O) where
  -- The step of a live row's owner goes on with the row kept.
  decide_one-live :
      (local : Vault E B R) (uuid : ℕ) (e : E) (dropped : List ℕ) (owner : ℕ)
      (keep drop : Result Er (DissolveDecision (Vault E B R))) (t : Vault E B R) (o : O)
      → c.merge local t ≡ ok o
      → has_conflicts c o ≡ true
      → decide_one c local uuid e dropped owner keep drop (some t) ≡ keep
  decide_one-live local uuid e dropped owner keep drop t o merges live = rw merges (rw live refl)

  decide_owners-Spares :
      (en : Engine X J) (local : Vault E B R) (uuid : ℕ) (e : E) (w : ℕ) (dropped owners : List ℕ)
      (d : DissolveDecision (Vault E B R))
      → IsLive c en local uuid w
      → decide_owners c en local uuid e dropped owners ≡ ok d
      → any (λ o. o == w) dropped ≡ false
      → Spares w d
  unfolding decide_owners
  decide_owners-Spares en local uuid e w dropped [] d live h k =
      subst (Spares w) (let same : DissolveDecision.settle dropped none ≡ d = cc in same) k
  decide_owners-Spares en local uuid e w dropped (o ∷ os) d live h k = elim (Bool-cases (o == w)) [
    | inl mine ↦
        (let same : o ≡ w = ground (arith, mine) in
          let there : theirs_vault c en local o uuid ≡ ok (some live.theirs) =
            subst (λ v. theirs_vault c en local v uuid ≡ ok (some live.theirs)) (sym same)
              live.parked in
          let keep = decide_owners c en local uuid e dropped os in
          let drop = decide_owners c en local uuid e (dropped ++ o ∷ []) os in
          decide_owners-Spares en local uuid e w dropped os d live
            (sym (
                ap (λ r. r >>= decide_one c local uuid e dropped o keep drop) there
                ∙ decide_one-live local uuid e dropped o keep drop live.theirs live.outcome
                    live.merges (has_conflicts-of c live.outcome live.conflicts))
              ∙ h)
            k)
    | inr other ↦
        (let (theirs, parked, h') = >>=-eq-ok (theirs_vault c en local o uuid) _ h in
          elim (decide_one-OneStep c local uuid e dropped o _ _ theirs d h') [
            | inl drop ↦
                decide_owners-Spares en local uuid e w (dropped ++ o ∷ []) os d live drop
                  (any-append_other w o dropped other k)
            | inr (inl (keep, t, out, there, merges, conflicts)) ↦
                decide_owners-Spares en local uuid e w dropped os d live keep k
            | inr (inr (m, adopted)) ↦
                subst (Spares w) adopted (k, λ same. ground (arith, other, same))
          ])
  ]

  -- A parked row whose merge with the local vault still finds a conflict, in an entry's fields or
  -- between a deletion and an edit, is never given up: dissolve_decision does not drop it, does not drop
  -- all rows, and does not adopt it.
  pub dissolve_decision-Spares :
      (en : Engine X J) (local : Vault E B R) (uuid : ℕ) (owners : List ℕ) (w : ℕ)
      (d : DissolveDecision (Vault E B R))
      → IsLive c en local uuid w
      → dissolve_decision c en local uuid owners ≡ ok d
      → Spares w d
  unfolding dissolve_decision decide_for
  dissolve_decision-Spares en local uuid owners w d live h =
      decide_owners-Spares en local uuid live.entry w [] owners d live
        (ap (decide_for c en local uuid owners) (sym live.found) ∙ h) refl
