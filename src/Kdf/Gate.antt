-- ===== src/Kdf/Gate.antt =====
-- The conditions of the gate, and salts (`check_vault_file` and `KdfCost::of` of
-- crates/keys-engine/src/kdf_cost.rs).
use keys_core.Base.{
  ℕ, ◌≡◌, refl, sym, ap, ◌∙◌, arith, Bool, true, false, ◌||◌, Option, none, some, List, ◌⊎◌, inl,
  inr, ◌↔◌, Option-cases, if◌then◌else◌, ◌≤◌,
}
use keys_core.Kdf.{
  KdfParams, KdfCost, KdfEstimate, KdfCeiling, KdfPolicy, Verdict, of, Floats, estimate, exceeds,
  same_cost, is_approved, check_vault_file,
}

-- What is relied on of the equality test: it decides equality.
unfoldable pub IsEquality : {U : Type 0} → (KdfParams U → KdfParams U → Bool) → Type 0
IsEquality {U} same = (a b : KdfParams U) → (same a b ≡ true) ↔ (a ≡ b)

-- Within the ceiling: there is an estimate, of no more memory and no longer time.
unfoldable pub IsWithin : {U F : Type 0} → Floats F → KdfCost U → KdfCeiling F → Type 0
IsWithin {U} {F} f cost ceiling =
    (e : KdfEstimate F) × (estimate f cost ≡ some e)
    × (e.memory_bytes ≤ ceiling.max_memory_bytes)
    × (f.gt e.seconds ceiling.max_seconds ≡ false)

option_clash : {A : Type 0} {o : Option A} {a : A} → o ≡ some a → o ≡ none → ⊥
option_clash h k = cc

some_inj : {A : Type 0} {a b : A} → some a ≡ some b → a ≡ b
some_inj h = cc

or_true : (a b : Bool) → (a || b) ≡ true → (a ≡ true) ⊎ (b ≡ true)
or_true true b h = inl refl
or_true false b h = inr h

true_or : (a b : Bool) → b ≡ true → (a || b) ≡ true
true_or true b h = refl
true_or false b h = h

module _ {U F : Type 0} (same : KdfParams U → KdfParams U → Bool) (f : Floats F) where
  verdict-passed :
      (b : Bool) (recorded : Option (KdfCost U)) (file : KdfCost U)
      → (if b then Verdict.passed else Verdict.approval_required recorded file) ≡ Verdict.passed
      → b ≡ true
  verdict-passed true recorded file h = refl
  verdict-passed false recorded file h = cc

  same_cost-eq : (a b : KdfCost U) → IsEquality same → same_cost same f a b ≡ true → a ≡ b
  unfolding same_cost IsEquality
  same_cost-eq a b eq h = ap (λ p. record { params = p }) ((eq a.params b.params).0 h)

  same_cost_refl : (a : KdfCost U) → IsEquality same → same_cost same f a a ≡ true
  unfolding same_cost IsEquality
  same_cost_refl a eq = (eq a.params a.params).1 refl

  approved-eq :
      (o : Option (KdfCost U)) (file : KdfCost U)
      → IsEquality same
      → is_approved same f o file ≡ true
      → o ≡ some file
  unfolding is_approved
  approved-eq none file eq h = cc
  approved-eq (some a) file eq h = ap some (same_cost-eq a file eq h)

  exceeds_iff :
      (cost : KdfCost U) (ceiling : KdfCeiling F)
      → (exceeds f cost ceiling ≡ false) ↔ IsWithin f cost ceiling
  unfolding exceeds IsWithin
  exceeds_iff cost ceiling = elim (Option-cases (estimate f cost)) [
    | inl unknown ↦ (
      λ h. (let dead = rw (exceeds, unknown) at h in ground (arith, dead)),
      λ w. absurd (option_clash w.1 unknown),
    )
    | inr (e, known) ↦ (
      λ h.
          (let within = rw (exceeds, known) at h in
            (e, known, ground (arith, within), ground (arith, within))),
      λ (e', known', memory, time).
          let same_one = some_inj (sym known ∙ known') in
          rw (exceeds, known, same_one) (ground (arith, memory, time)),
    )
  ]

-- The gate passes exactly when the file's cost is the approved one, or is the recorded one, or none is
-- recorded and the file's cost has an estimate within the ceiling.
pub check_vault_file-passed :
    {U F : Type 0} (same : KdfParams U → KdfParams U → Bool) (f : Floats F) (file : KdfCost U)
    (recorded : Option (KdfCost U)) (policy : KdfPolicy U F)
    → IsEquality same
    → (check_vault_file same f file recorded policy ≡ Verdict.passed) ↔ (
        (policy.approved ≡ some file)
        ⊎ (recorded ≡ some file)
        ⊎ ((recorded ≡ none) × IsWithin f file policy.ceiling))
unfolding check_vault_file is_approved
check_vault_file-passed same f file none policy eq = (
  λ h. elim (or_true _ _ (verdict-passed same f _ none file h)) [
    | inl approved ↦ inl (approved-eq same f policy.approved file eq approved)
    | inr low ↦ inr (inr (refl, (exceeds_iff same f file policy.ceiling).0 (ground arith)))
  ],
  λ h. elim h [
    | inl approved ↦ rw (approved, same_cost_refl same f file eq) refl
    | inr (inl recorded) ↦ absurd cc
    | inr (inr (missing, within)) ↦
        rw
          (
            (exceeds_iff same f file policy.ceiling).1 within,
            true_or (is_approved same f policy.approved file) true refl,
          )
          refl
  ],
)
check_vault_file-passed same f file (some cost) policy eq = (
  λ h. elim (or_true _ _ (verdict-passed same f _ (some cost) file h)) [
    | inl approved ↦ inl (approved-eq same f policy.approved file eq approved)
    | inr kept ↦ inr (inl (ap some (same_cost-eq same f cost file eq kept)))
  ],
  λ h. elim h [
    | inl approved ↦ rw (approved, same_cost_refl same f file eq) refl
    | inr (inl recorded) ↦
        rw
          (
            some_inj recorded,
            same_cost_refl same f file eq,
            true_or (is_approved same f policy.approved file) true refl,
          )
          refl
    | inr (inr (missing, within)) ↦ absurd cc
  ],
)

-- The same parameters with another salt or transform seed.
unfoldable pub resalt : {U : Type 0} → List ℕ → KdfParams U → KdfParams U
resalt s (KdfParams.aes_kdf seed rounds) = KdfParams.aes_kdf s rounds
resalt s (KdfParams.argon2 variant salt iterations memory parallelism version) =
    KdfParams.argon2 variant s iterations memory parallelism version
resalt s (KdfParams.other u) = KdfParams.other u

of-resalt : {U : Type 0} (s : List ℕ) (p : KdfParams U) → of (resalt s p) ≡ of p
unfolding of resalt
of-resalt s (KdfParams.aes_kdf seed rounds) = refl
of-resalt s (KdfParams.argon2 variant salt iterations memory parallelism version) = refl
of-resalt s (KdfParams.other u) = refl

-- A file whose parameters were recorded passes after its salt has changed, under any policy.
pub check_vault_file-resalt :
    {U F : Type 0} (same : KdfParams U → KdfParams U → Bool) (f : Floats F) (salt : List ℕ)
    (params : KdfParams U) (policy : KdfPolicy U F)
    → IsEquality same
    → check_vault_file same f (of (resalt salt params)) (some (of params)) policy ≡ Verdict.passed
check_vault_file-resalt same f salt params policy eq =
    (check_vault_file-passed same f (of (resalt salt params)) (some (of params)) policy eq).1
      (inr (inl (ap some (sym (of-resalt salt params)))))
