-- ===== src/Kdf.antt =====
-- The gate in front of deriving a vault file's key (crates/keys-engine/src/kdf_cost.rs). The KDF
-- parameters and their equality test are another crate's: a KDF family or variant that the source
-- does not name is a value of the type parameter U, and `same` is the test. Floats are the hardware's:
-- the type parameter F with its operations.
pub mod Gate
pub mod Thousands
pub mod Tests
use keys_core.Base.{
  ℕ, zero, suc, ◌+◌, ◌-◌, ◌/◌, ◌*◌, ◌%◌, Bool, true, false, not, ◌&&◌, ◌||◌, Option, none, some,
  List, [], ◌∷◌, ◌++◌, length, decimal, ltb, ◌==◌, if◌then◌else◌, codes,
}

-- `Argon2Variant`.
pub data Argon2Variant (U : Type 0) : Type 0 where
  argon2d : Argon2Variant U
  argon2id : Argon2Variant U
  other_variant : U → Argon2Variant U

-- `KdfParams`.
pub data KdfParams (U : Type 0) : Type 0 where
  aes_kdf : List ℕ → ℕ → KdfParams U
  argon2 : Argon2Variant U → List ℕ → ℕ → ℕ → ℕ → U → KdfParams U
  other : U → KdfParams U

pub record KdfCost (U : Type 0) : Type 0 where
  pub params : KdfParams U

pub record KdfEstimate (F : Type 0) : Type 0 where
  pub memory_bytes : ℕ
  pub seconds : F

pub record KdfCeiling (F : Type 0) : Type 0 where
  pub max_memory_bytes : ℕ
  pub max_seconds : F

pub record KdfPolicy (U F : Type 0) : Type 0 where
  pub ceiling : KdfCeiling F
  pub approved : Option (KdfCost U)

-- A passed gate, or `EngineError::KdfApprovalRequired` with the recorded cost and the file's.
pub data Verdict (U : Type 0) : Type 0 where
  passed : Verdict U
  approval_required : Option (KdfCost U) → KdfCost U → Verdict U

-- `[0; 32]`.
unfoldable pub zeroed : ℕ → List ℕ
zeroed zero = []
zeroed (suc n) = 0 ∷ zeroed n

module _ {U : Type 0} where
  unfoldable pub of : KdfParams U → KdfCost U
  of (KdfParams.aes_kdf seed rounds) = record { params = KdfParams.aes_kdf (zeroed 32) rounds }
  of (KdfParams.argon2 variant salt iterations memory parallelism version) = record {
    params = KdfParams.argon2 variant [] iterations memory parallelism version;
  }
  of (KdfParams.other u) = record { params = KdfParams.other u }

  unfoldable pub aes_cost : ℕ → KdfCost U
  aes_cost rounds = of (KdfParams.aes_kdf (zeroed 32) rounds)

-- f64: the cast from u64, the operations and the strict comparison; and the two reference rates.
pub record Floats (F : Type 0) : Type 0 where
  pub cast : ℕ → F
  pub times : F → F → F
  pub over : F → F → F
  pub gt : F → F → Bool
  pub aes_rounds_per_second : F
  pub argon2_bytes_per_second : F

module _ {U F : Type 0} (f : Floats F) where
  unfoldable pub estimate : KdfCost U → Option (KdfEstimate F)
  estimate cost = elim cost.params [
    | KdfParams.aes_kdf seed rounds ↦
        some (record { memory_bytes = 0; seconds = f.over (f.cast rounds) f.aes_rounds_per_second })
    | KdfParams.argon2 variant salt iterations memory parallelism version ↦ some (record {
      memory_bytes = memory;
      seconds = f.over (f.times (f.cast memory) (f.cast iterations)) f.argon2_bytes_per_second;
    })
    | KdfParams.other u ↦ none
  ]

  unfoldable pub exceeds : KdfCost U → KdfCeiling F → Bool
  exceeds cost ceiling = elim (estimate cost) [
    | none ↦ true
    | some e ↦ ltb ceiling.max_memory_bytes e.memory_bytes || f.gt e.seconds ceiling.max_seconds
  ]

module _ {U F : Type 0} (same : KdfParams U → KdfParams U → Bool) (f : Floats F) where
  -- The derived equality of costs and of optional costs.
  unfoldable pub same_cost : KdfCost U → KdfCost U → Bool
  same_cost a b = same a.params b.params

  unfoldable pub is_approved : Option (KdfCost U) → KdfCost U → Bool
  is_approved none file = false
  is_approved (some cost) file = same_cost cost file

  unfoldable pub check_vault_file : KdfCost U → Option (KdfCost U) → KdfPolicy U F → Verdict U
  check_vault_file file recorded policy =
      let passes = is_approved policy.approved file || (elim recorded [
        | none ↦ not (exceeds f file policy.ceiling)
        | some cost ↦ same_cost cost file
      ]) in
      if passes then Verdict.passed else Verdict.approval_required recorded file

-- `format_with_thousands`: the loop over the digits with their index.
unfoldable pub separate : ℕ → ℕ → List ℕ → List ℕ
separate len i [] = []
separate len i (ch ∷ rest) =
    let tail = ch ∷ separate len (suc i) rest in
    if ltb 0 i && ((len - i) % 3 == 0) then b',' ∷ tail else tail

unfoldable pub format_with_thousands : ℕ → List ℕ
format_with_thousands n = let s = decimal n in separate (length s) 0 s

module _ {U : Type 0} where
  unfoldable pub variant_name : Argon2Variant U → List ℕ
  variant_name Argon2Variant.argon2d = codes "Argon2d"
  variant_name Argon2Variant.argon2id = codes "Argon2id"
  variant_name (Argon2Variant.other_variant u) = codes "Argon2"

  -- `fmt::Display`.
  unfoldable pub display : KdfCost U → List ℕ
  display cost = elim cost.params [
    | KdfParams.aes_kdf seed rounds ↦
        codes "AES-KDF (" ++ format_with_thousands rounds ++ codes " rounds)"
    | KdfParams.argon2 variant salt iterations memory parallelism version ↦
        variant_name variant
        ++ codes " ("
        ++ decimal (memory / (1024 * 1024))
        ++ codes " MB · "
        ++ decimal iterations
        ++ codes " iter · "
        ++ decimal parallelism
        ++ codes " threads)"
    | KdfParams.other u ↦ codes "Unknown KDF"
  ]
