-- ===== src/Ingest.antt =====
-- The reconciliation of a peer's vault into the mirror (`ingest_peer` of
-- crates/keys-engine/src/ingest.rs): its rules on time stamps. The children follow its passes.
pub mod Tombstones
pub mod Groups
pub mod Locations
pub mod Resolutions
pub mod Materialize
pub mod Tests
use keys_core.Base.{
  ℕ, ◌+◌, ◌-◌, ◌%◌, ℤ, pos, negsuc, sub_ℕ, Bool, true, false, Option, none, some, not, ◌≡◌, ap,
  refl, arith, if◌then◌else◌,
}
use keys_core.Base.Order.{leq, earlier, int_ord}
use keys_core.Vault.Tables.{Millis}

-- `ms.rem_euclid(1000)`.
abbrev rem_euclid_1000 : Millis → ℕ
rem_euclid_1000 (pos n) = n % 1000
rem_euclid_1000 (negsuc n) = 999 - n % 1000

abbrev minus : Millis → ℕ → Millis
minus (pos n) r = sub_ℕ n r
minus (negsuc n) r = negsuc (n + r)

-- `floor_to_second`, on the stamp's milliseconds.
unfoldable pub floor_to_second : Millis → Millis
floor_to_second ms = minus ms (rem_euclid_1000 ms)

abbrev pub floored : Option Millis → Option Millis
floored none = none
floored (some t) = some (floor_to_second t)

unfoldable pub edited_after : Option Millis → Option Millis → Bool
edited_after (some m) (some r) = not (leq m r)
edited_after none resolved_at = false
edited_after (some m) none = false

unfoldable pub live_edit_wins : Option Millis → Option Millis → Bool
live_edit_wins (some e) (some d) = not (leq e d)
live_edit_wins edit none = true
live_edit_wins none (some d) = false

-- `earliest` and `earliest_ms`.
unfoldable pub earliest : Option Millis → Option Millis → Option Millis
earliest (some a) (some b) = some (earlier a b)
earliest (some a) none = some a
earliest none b = b

-- A floored stamp is floored.
pub floor_to_second_idem : (t : Millis) → floor_to_second (floor_to_second t) ≡ floor_to_second t
unfolding floor_to_second
floor_to_second_idem (pos n) = ground arith
floor_to_second_idem (negsuc n) = ap negsuc (omega arith)

pub floored_idem : (t : Option Millis) → floored (floored t) ≡ floored t
floored_idem none = refl
floored_idem (some t) = ap some (floor_to_second_idem t)

-- `ms_to_dt` (crates/keys-engine/src/projection.rs), on the milliseconds of the instant. Which seconds
-- are dates of chrono's calendar is a parameter.
module _ (in_range : Millis → Bool) where
  unfoldable pub ms_to_dt : Millis → Option Millis
  ms_to_dt ms = if in_range (floor_to_second ms) then some (floor_to_second ms) else none

  -- `and_then(ms_to_dt)`
  abbrev pub then_ms_to_dt : Option Millis → Option Millis
  then_ms_to_dt none = none
  then_ms_to_dt (some ms) = ms_to_dt ms

  -- The second of the stamp is a date.
  abbrev pub IsDate : Millis → Type 0
  IsDate ms = in_range (floor_to_second ms) ≡ true

  -- There is no stamp, or its second is a date.
  abbrev pub AreDates : Option Millis → Type 0
  AreDates none = Unit
  AreDates (some ms) = IsDate ms

  pub ms_to_dt-IsDate : (ms : Millis) → IsDate ms → ms_to_dt ms ≡ some (floor_to_second ms)
  unfolding ms_to_dt
  ms_to_dt-IsDate ms h = rw h refl

  pub then_ms_to_dt-AreDates : (ms : Option Millis) → AreDates ms → then_ms_to_dt ms ≡ floored ms
  then_ms_to_dt-AreDates none h = refl
  then_ms_to_dt-AreDates (some ms) h = ms_to_dt-IsDate ms h
