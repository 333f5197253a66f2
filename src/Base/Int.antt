-- ===== src/Base/Int.antt =====
-- Signed 64-bit integers: `pos n` is n and `negsuc n` is -(n + 1). Epoch-millisecond stamps are
-- such numbers.
use Prim.Native.Nat.{ℕ, suc, ◌+◌, ◌-◌, ◌^◌, ◌≤◌}
use keys_core.Base.Tests.{leb, if◌then◌else◌}

pub data ℤ : Type 0 where
  pos : ℕ → ℤ
  negsuc : ℕ → ℤ

abbrev pub pos_part : ℤ → ℕ
pos_part (pos n) = n
pos_part (negsuc n) = 0

abbrev pub neg_part : ℤ → ℕ
neg_part (pos n) = 0
neg_part (negsuc n) = suc n

-- a - b, as an integer.
abbrev pub sub_ℕ : ℕ → ℕ → ℤ
sub_ℕ a b = if leb b a then pos (a - b) else negsuc (b - a - 1)

abbrev pub i64_max : ℕ
i64_max = 2 ^ 63 - 1

-- An integer brought into the range of an i64, as saturating arithmetic does.
abbrev pub saturate : ℤ → ℤ
saturate (pos n) = pos (if leb n i64_max then n else i64_max)
saturate (negsuc n) = negsuc (if leb n i64_max then n else i64_max)

-- `i64::saturating_add` and `i64::saturating_sub`.
unfoldable pub saturating_add : ℤ → ℤ → ℤ
saturating_add a b = saturate (sub_ℕ (pos_part a + pos_part b) (neg_part a + neg_part b))

unfoldable pub saturating_sub : ℤ → ℤ → ℤ
saturating_sub a b = saturate (sub_ℕ (pos_part a + neg_part b) (neg_part a + pos_part b))

infix 50 ◌≤ℤ◌
abbrev pub ◌≤ℤ◌ : ℤ → ℤ → Type 0
a ≤ℤ b = pos_part a + neg_part b ≤ pos_part b + neg_part a

abbrev pub InI64 : ℤ → Type 0
InI64 (pos n) = n ≤ i64_max
InI64 (negsuc n) = n ≤ i64_max
