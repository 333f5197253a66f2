-- ===== src/Kdf/Thousands.antt =====
-- The thousands separators (`format_with_thousands` of crates/keys-engine/src/kdf_cost.rs).
use keys_core.Base.{
  ℕ, suc, ◌+◌, ◌-◌, ◌/◌, ◌%◌, ◌<◌, ◌≤◌, ◌≡◌, refl, arith, Bool, true, ◌&&◌, List, [], ◌∷◌, length,
  decimal, decimal_digits, value, value-decimal, tens, ltb, leb, ◌==◌, keep_if, All, Bool-cases,
  inl, inr,
}
use keys_core.Kdf.{separate, format_with_thousands}

abbrev pub is_digit : ℕ → Bool
is_digit c = leb b'0' c && leb c b'9'

keep_digit :
    (c : ℕ) (cs ds : List ℕ)
    → is_digit c ≡ true
    → keep_if is_digit cs ≡ ds
    → keep_if is_digit (c ∷ cs) ≡ c ∷ ds
keep_digit c cs ds h e = ground (arith, h, e)

keep_if-separate :
    (len i : ℕ) (cs : List ℕ)
    → All (λ c. is_digit c ≡ true) cs
    → keep_if is_digit (separate len i cs) ≡ cs
unfolding separate
keep_if-separate len i [] h = refl
keep_if-separate len i (c ∷ cs) (h, hs) =
    let rest = keep_digit c (separate len (suc i) cs) cs h (keep_if-separate len (suc i) cs hs) in
    elim (Bool-cases (ltb 0 i && ((len - i) % 3 == 0))) [
      | inl comma ↦ rw comma rest
      | inr none_here ↦ rw none_here rest
    ]

length-separate :
    (len i : ℕ) (cs : List ℕ)
    → 1 ≤ i
    → len ≡ i + length cs
    → length (separate len i cs) ≡ length cs + length cs / 3
unfolding separate
length-separate len i [] h e = refl
length-separate len i (c ∷ cs) h e =
    let ih = length-separate len (suc i) cs (omega arith) (omega (arith, e)) in
    let left : len - i ≡ suc (length cs) = omega (arith, e) in ground (arith, ih, left)

length-separate_start :
    (cs : List ℕ) → length (separate (length cs) 0 cs) ≡ length cs + (length cs - 1) / 3
unfolding separate
length-separate_start [] = refl
length-separate_start (c ∷ cs) =
    omega (arith, length-separate (suc (length cs)) 1 cs (omega arith) (omega arith))

-- The text of a number that a u64 holds is its decimal numeral when the commas are taken out, it reads
-- as the number, and it has a comma for every three digits but the first one.
pub format_with_thousands-decimal :
    (n : ℕ)
    → n < tens 20
    → (keep_if is_digit (format_with_thousands n) ≡ decimal n)
      × (value (keep_if is_digit (format_with_thousands n)) ≡ n)
      × (length (format_with_thousands n) ≡ length (decimal n) + (length (decimal n) - 1) / 3)
unfolding format_with_thousands
format_with_thousands-decimal n h =
    let digits = keep_if-separate (length (decimal n)) 0 (decimal n) (decimal_digits n) in
    (digits, rw digits (value-decimal n h), length-separate_start (decimal n))
