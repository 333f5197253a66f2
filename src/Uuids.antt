-- ===== src/Uuids.antt =====
-- The deterministic source of fresh ids (crates/keys-engine/src/uuid_source.rs). Ids are a type
-- parameter, made by `Uuid::from_u64_pair` of the uuid crate.
pub mod Distinct
pub mod Tests
use keys_core.Base.{ℕ, zero, suc, ◌+◌, ◌%◌, List, [], ◌∷◌}

-- `SeededUuids`; the counter is an AtomicU64.
pub record SeededUuids : Type 0 where
  pub seed : ℕ
  pub counter : ℕ

unfoldable pub new : ℕ → SeededUuids
new seed = record { seed = seed; counter = 0 }

-- 2 ^ 64
abbrev pub u64_size : ℕ
u64_size = 18_446_744_073_709_551_616

module _ {U : Type 0} (from_u64_pair : ℕ → ℕ → U) where
  -- `fetch_add` wraps around.
  unfoldable pub next_uuid : SeededUuids → U × SeededUuids
  next_uuid s = (from_u64_pair s.seed s.counter, record s { counter = (s.counter + 1) % u64_size })

  -- The ids of a number of calls.
  unfoldable pub draws : ℕ → SeededUuids → List U
  draws zero s = []
  draws (suc n) s = (next_uuid s).0 ∷ draws n (next_uuid s).1
