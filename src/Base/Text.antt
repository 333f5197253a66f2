-- ===== src/Base/Text.antt =====
-- Text as a list of code points (or of bytes, where it is ASCII), and decimal numerals.
use Prim.Native.Nat.{ℕ, zero, suc, ◌+◌, ◌-◌, ◌*◌, ◌/◌, ◌%◌, ◌≤◌, ◌<◌}
use Prim.Native.Char.{code}
use Prim.Native.String.{String}
use mathlib.Core.Path.{◌≡◌, refl}
use mathlib.Core.Bool.{Bool, true, false, ◌&&◌}
use mathlib.Core.List.{List, [], ◌∷◌, ◌++◌}
use native.Mathlib.Omega.{arith}
use keys_core.Base.Tests.{ltb, leb, ◌==◌, if◌then◌else◌, Bool-cases}
use mathlib.Core.Logic.{inl, inr}
use keys_core.Base.Lists.{length, length-append, All, All-append}

abbrev pub codes : String → List ℕ
codes String.[] = []
codes (String.◌∷◌ c s) = code c ∷ codes s

-- Equality of texts.
unfoldable pub eq_text : List ℕ → List ℕ → Bool
eq_text [] [] = true
eq_text [] (d ∷ ds) = false
eq_text (c ∷ cs) [] = false
eq_text (c ∷ cs) (d ∷ ds) = c == d && eq_text cs ds

-- `char::to_ascii_uppercase` and `u8::to_ascii_lowercase`.
unfoldable pub to_ascii_uppercase : ℕ → ℕ
to_ascii_uppercase c = if leb b'a' c && leb c b'z' then c - 32 else c

unfoldable pub to_ascii_lowercase : ℕ → ℕ
to_ascii_lowercase c = if leb b'A' c && leb c b'Z' then c + 32 else c

-- `n.to_string()` for a number below 10 ^ 20, which every u64 is.
decimal_rounds : ℕ → ℕ → List ℕ
decimal_rounds zero n = []
decimal_rounds (suc k) n =
    let rest = decimal_rounds k (n / 10) ++ (b'0' + n % 10) ∷ [] in
    if ltb n 10 then (b'0' + n) ∷ [] else rest

unfoldable pub decimal : ℕ → List ℕ
unfolding decimal_rounds
decimal n = decimal_rounds 20 n

-- The number that a row of digits reads as.
abbrev pub value_from : ℕ → List ℕ → ℕ
value_from acc [] = acc
value_from acc (c ∷ cs) = value_from (acc * 10 + (c - b'0')) cs

abbrev pub value : List ℕ → ℕ
value cs = value_from 0 cs

value_from-append :
    (acc c : ℕ) (cs : List ℕ) → value_from acc (cs ++ c ∷ []) ≡ value_from acc cs * 10 + (c - b'0')
value_from-append acc c [] = refl
value_from-append acc c (d ∷ cs) = value_from-append (acc * 10 + (d - b'0')) c cs

-- 10 to the power `k`, by doubling nothing: ten times.
abbrev pub tens : ℕ → ℕ
tens zero = 1
tens (suc k) = 10 * tens k

value-decimal_rounds : (k n : ℕ) → n < tens k → value (decimal_rounds k n) ≡ n
unfolding decimal_rounds
value-decimal_rounds zero n h = omega arith
value-decimal_rounds (suc k) n h = ground (
  arith,
  value_from-append 0 (b'0' + n % 10) (decimal_rounds k (n / 10)),
  value-decimal_rounds k (n / 10),
)

-- A numeral reads as its number.
pub value-decimal : (n : ℕ) → n < tens 20 → value (decimal n) ≡ n
unfolding decimal
value-decimal n h = value-decimal_rounds 20 n h

length-decimal_rounds : (k j n : ℕ) → n < tens (suc j) → j < k → length (decimal_rounds k n) ≤ suc j
unfolding decimal_rounds
length-decimal_rounds zero j n h lt = absurd (omega arith)
length-decimal_rounds (suc k) zero n h lt = ground arith
length-decimal_rounds (suc k) (suc j) n h lt = ground (
  arith,
  length-append (decimal_rounds k (n / 10)) ((b'0' + n % 10) ∷ []),
  length-decimal_rounds k j (n / 10),
)

-- A number below a power of ten has at most so many digits.
pub length-decimal : (j n : ℕ) → n < tens (suc j) → j < 20 → length (decimal n) ≤ suc j
unfolding decimal
length-decimal j n h lt = length-decimal_rounds 20 j n h lt

decimal_rounds-All : (k n : ℕ) → All (λ c. (leb b'0' c && leb c b'9') ≡ true) (decimal_rounds k n)
unfolding decimal_rounds
decimal_rounds-All zero n = tt
decimal_rounds-All (suc k) n = elim (Bool-cases (ltb n 10)) [
  | inl last ↦ rw last (ground arith, tt)
  | inr more ↦ rw more (
      All-append _ (decimal_rounds k (n / 10)) _ (decimal_rounds-All k (n / 10)) (ground arith, tt))
]

-- A numeral consists of digits.
pub decimal_digits : (n : ℕ) → All (λ c. (leb b'0' c && leb c b'9') ≡ true) (decimal n)
unfolding decimal
decimal_digits n = decimal_rounds-All 20 n
