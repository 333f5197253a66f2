-- ===== src/Kdf/Tests.antt =====
-- Runs of the gate and of the separators (crates/keys-engine/src/kdf_cost.rs).
use keys_core.Base.{
  ℕ, ◌/◌, ◌*◌, ◌≡◌, ◌↔◌, ◌⊎◌, refl, Bool, true, false, Option, none, some, [], ◌∷◌, ltb,
}
use native.Mathlib.Decide.{ℕ_discrete}
use keys_core.Kdf.{
  Argon2Variant, KdfParams, KdfCost, KdfPolicy, Verdict, of, Floats, check_vault_file,
}
use keys_core.Kdf.Gate.{IsEquality, IsWithin, check_vault_file-passed}

-- Floats as natural numbers, for the runs.
abbrev floats : Floats ℕ
floats = record {
  cast = λ n. n;
  times = λ a b. a * b;
  over = λ a b. a / b;
  gt = λ a b. ltb b a;
  aes_rounds_per_second = 15000000;
  argon2_bytes_per_second = 419430400;
}

KdfParams-discrete : Discrete (KdfParams ℕ)
KdfParams-discrete = hlevel ℕ_discrete

abbrev to_bool : {A : Type 0} → Dec A → Bool
to_bool (yes a) = true
to_bool (no r) = false

to_bool_iff : {A : Type 0} (d : Dec A) → (to_bool d ≡ true) ↔ A
to_bool_iff (yes a) = (λ h. a, λ h. refl)
to_bool_iff (no r) = (λ h. cc, λ h. absurd (r h))

-- An equality test, with numbers for what the source does not name.
abbrev same : KdfParams ℕ → KdfParams ℕ → Bool
same a b = to_bool (KdfParams-discrete a b)

same-IsEquality : IsEquality same
unfolding IsEquality
same-IsEquality a b = to_bool_iff (KdfParams-discrete a b)

abbrev default_params : KdfParams ℕ
default_params = KdfParams.argon2 Argon2Variant.argon2id (1 ∷ 2 ∷ []) 2 67108864 4 19

abbrev policy : KdfPolicy ℕ ℕ
policy = record {
  ceiling = record { max_memory_bytes = 1073741824; max_seconds = 10 };
  approved = none;
}

check_vault_file-passed_example :
    (check_vault_file same floats (of default_params) none policy ≡ Verdict.passed) ↔ (
      (policy.approved ≡ some (of default_params))
      ⊎ (◌≡◌ {A = Option (KdfCost ℕ)} none (some (of default_params)))
      ⊎ ((◌≡◌ {A = Option (KdfCost ℕ)} none none)
          × IsWithin floats (of default_params) policy.ceiling))
check_vault_file-passed_example =
    check_vault_file-passed same floats (of default_params) none policy same-IsEquality
