-- ===== src/Predicate.antt =====
-- The smart-folder predicates (crates/keys-engine/src/predicate.rs, crates/keys-engine/src/model.rs).
-- JSON values are another crate's and floats the hardware's: the type parameters J and F. Text is its
-- list of code points, and a UUID its text.
pub mod Wire
pub mod Sql
pub mod Tests
use keys_core.Base.{ℕ, ℤ, Bool, true, false, List, [], ◌∷◌, ◌&&◌}

pub data StrengthBucket : Type 0 where
  very_weak : StrengthBucket
  weak : StrengthBucket
  reasonable : StrengthBucket
  strong : StrengthBucket
  very_strong : StrengthBucket

-- `std::time::Duration`: whole seconds, and nanoseconds below a billion.
pub record Duration : Type 0 where
  pub secs : ℕ
  pub nanos : ℕ

mutual
  pub data Predicate (J F : Type 0) : Type 0 where
    and : Predicates J F → Predicate J F
    or : Predicates J F → Predicate J F
    not : Predicate J F → Predicate J F
    title_contains : List ℕ → Predicate J F
    url_contains : List ℕ → Predicate J F
    username_contains : List ℕ → Predicate J F
    url_host_equals : List ℕ → Predicate J F
    tag_equals : List ℕ → Predicate J F
    tag_has_any : List (List ℕ) → Predicate J F
    tag_has_all : List (List ℕ) → Predicate J F
    modified_within : Duration → Predicate J F
    modified_before : ℤ → Predicate J F
    expired : Predicate J F
    expiring_within : Duration → Predicate J F
    strength_below : StrengthBucket → Predicate J F
    entropy_below : F → Predicate J F
    duplicates : Predicate J F
    group : List ℕ → Predicate J F
    unknown : J → Predicate J F

  -- `Vec<Predicate>`.
  pub data Predicates (J F : Type 0) : Type 0 where
    nil : Predicates J F
    cons : Predicate J F → Predicates J F → Predicates J F

module _ {J F : Type 0} where
  unfoldable mutual
    pub is_evaluable : Predicate J F → Bool
    is_evaluable (Predicate.unknown j) = false
    is_evaluable (Predicate.and ps) = all_evaluable ps
    is_evaluable (Predicate.or ps) = all_evaluable ps
    is_evaluable (Predicate.not p) = is_evaluable p
    is_evaluable _ = true

    -- `predicates.iter().all(Self::is_evaluable)`.
    pub all_evaluable : Predicates J F → Bool
    all_evaluable Predicates.nil = true
    all_evaluable (Predicates.cons p ps) = is_evaluable p && all_evaluable ps
