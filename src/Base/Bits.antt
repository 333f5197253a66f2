-- ===== src/Base/Bits.antt =====
-- Masks and disjoint unions of bits, as arithmetic on the native numbers.
use Prim.Native.Nat.{
  ℕ, zero, suc, ◌+◌, ◌*◌, ◌/◌, ◌%◌, ◌≤◌, ◌<◌, min, max, bit_and, bit_or, digits, bit_and-bitwise,
  bit_or-bitwise,
}
use mathlib.Core.Path.{◌≡◌, refl, ap, ◌∙◌}
use native.Mathlib.Omega.{arith}

-- The digit recursion needs no more rounds than its first argument has.
module _ (z : ℕ → ℕ) (f : ℕ → ℕ → ℕ) where
  rounds_irrelevant : (n m a b : ℕ) → a ≤ n → a ≤ m → digits z f n a b ≡ digits z f m a b
  rounds_irrelevant zero zero a b h k = refl
  rounds_irrelevant zero (suc m) zero b h k = refl
  rounds_irrelevant zero (suc m) (suc a) b h k = absurd (omega arith)
  rounds_irrelevant (suc n) zero zero b h k = refl
  rounds_irrelevant (suc n) zero (suc a) b h k = absurd (omega arith)
  rounds_irrelevant (suc n) (suc m) zero b h k = refl
  rounds_irrelevant (suc n) (suc m) (suc a) b h k =
      omega (arith, rounds_irrelevant n m (suc a / 2) (b / 2) (omega arith) (omega arith))

-- The lowest digit of `a | b`.
or_digit : (a b : ℕ) → bit_or a b ≡ bit_or (a / 2) (b / 2) * 2 + max (a % 2) (b % 2)
or_digit zero b = omega (arith, bit_or-bitwise 0 b, bit_or-bitwise 0 (b / 2))
or_digit (suc a) b = omega (
  arith,
  bit_or-bitwise (suc a) b,
  bit_or-bitwise (suc a / 2) (b / 2),
  rounds_irrelevant (λ c. c) max a (suc a / 2) (suc a / 2) (b / 2) (omega arith) (omega arith),
)

or_zero_below : (n a : ℕ) → a ≤ n → bit_or a 0 ≡ a
or_zero_below n zero h = bit_or-bitwise 0 0
or_zero_below zero (suc a) h = absurd (omega arith)
or_zero_below (suc n) (suc a) h =
    omega (arith, or_digit (suc a) 0, or_zero_below n (suc a / 2) (omega arith))

or_zero : (a : ℕ) → bit_or a 0 ≡ a
or_zero a = or_zero_below a a (omega arith)

-- `a << k`, without a width.
abbrev pub shl : ℕ → ℕ → ℕ
shl zero a = a
shl (suc k) a = 2 * shl k a

-- The bits that a shift frees take up a small number.
pub or_shl : (k a i : ℕ) → i < shl k 1 → bit_or (shl k a) i ≡ shl k a + i
or_shl zero a i h = let none_left : i ≡ 0 = omega arith in rw none_left (or_zero a ∙ omega arith)
or_shl (suc k) a i h =
    let half : 2 * shl k a / 2 ≡ shl k a = omega arith in
    omega (
      arith,
      or_digit (2 * shl k a) i,
      ap (λ x. bit_or x (i / 2)) half,
      or_shl k a (i / 2) (omega arith),
    )

-- The mask of `k` ones, and the low `k` digits.
abbrev ones : ℕ → ℕ
ones zero = 0
ones (suc k) = 2 * ones k + 1

abbrev low : ℕ → ℕ → ℕ
low zero a = 0
low (suc k) a = low k (a / 2) * 2 + a % 2

and_digit : (a b : ℕ) → bit_and a b ≡ bit_and (a / 2) (b / 2) * 2 + min (a % 2) (b % 2)
and_digit zero b = omega (arith, bit_and-bitwise 0 b, bit_and-bitwise 0 (b / 2))
and_digit (suc a) b = omega (
  arith,
  bit_and-bitwise (suc a) b,
  bit_and-bitwise (suc a / 2) (b / 2),
  rounds_irrelevant (λ c. 0) min a (suc a / 2) (suc a / 2) (b / 2) (omega arith) (omega arith),
)

and_zero_below : (n a : ℕ) → a ≤ n → bit_and a 0 ≡ 0
and_zero_below n zero h = bit_and-bitwise 0 0
and_zero_below zero (suc a) h = absurd (omega arith)
and_zero_below (suc n) (suc a) h =
    omega (arith, and_digit (suc a) 0, and_zero_below n (suc a / 2) (omega arith))

and_ones : (k a : ℕ) → bit_and a (ones k) ≡ low k a
and_ones zero a = and_zero_below a a (omega arith)
and_ones (suc k) a =
    let half : (2 * ones k + 1) / 2 ≡ ones k = omega arith in
    omega
      (arith, and_digit a (2 * ones k + 1), ap (λ x. bit_and (a / 2) x) half, and_ones k (a / 2))

pub bit_and-0x0f : (a : ℕ) → bit_and a 0x0F ≡ a % 16
bit_and-0x0f a = omega (arith, and_ones 4 a)

pub bit_and-0x7f : (a : ℕ) → bit_and a 0x7F ≡ a % 128
bit_and-0x7f a = omega (arith, and_ones 7 a)

pub bit_and-0xff : (a : ℕ) → bit_and a 0xFF ≡ a % 256
bit_and-0xff a = omega (arith, and_ones 8 a)
