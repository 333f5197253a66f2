-- ===== src/Totp/Code/Remaining.antt =====
-- The seconds that remain to a code (`seconds_remaining` of crates/keys-engine/src/totp.rs).
use keys_core.Base.{ℕ, ◌+◌, ◌-◌, ◌/◌, ◌%◌, ◌*◌, ◌<◌, ◌≤◌, ◌≡◌, arith, false, ◌==◌}
use native.Mathlib.Nat.{mod-lt, div-add-mod', div-eq_of_lt-le, div-eq_of_eq-mul_left}
use keys_core.Totp.Code.{seconds_remaining}

-- Until the seconds that remain have passed the time step stays what it is, and then the next one
-- begins.
pub seconds_remaining-step :
    (period unix_seconds d : ℕ)
    → 1 ≤ period
    → d < seconds_remaining period unix_seconds
    → ((unix_seconds + d) / period ≡ unix_seconds / period)
      × ((unix_seconds + seconds_remaining period unix_seconds) / period
          ≡ unix_seconds / period + 1)
unfolding seconds_remaining
seconds_remaining-step period u d h lt =
    let runs : (period == 0) ≡ false = ground arith in
    let early : d < period - u % period = rw runs at lt in
    let parts = div-add-mod' u period in
    let below = mod-lt u h in
    let product : (u / period + 1) * period ≡ u / period * period + period = omega arith in
    rw runs (
      div-eq_of_lt-le {k = u / period} period (omega (arith, parts))
          (omega (arith, parts, product, early)),
      div-eq_of_eq-mul_left h (omega (arith, parts, product, below)),
    )
