-- ===== src/Totp/Code/Value.antt =====
-- The value of a one-time code, and the widths that the code asks for
-- (`generate_code` and `generate_hotp` of crates/keys-engine/src/totp.rs).
use keys_core.Base.{
  ℕ, zero, suc, ◌+◌, ◌-◌, ◌/◌, ◌%◌, ◌*◌, ◌^◌, ◌<◌, ◌≤◌, ◌≡◌, refl, ap, ◌∙◌, subst, arith, Bool,
  true, false, none, some, List, [], ◌∷◌, ◌++◌, if◌then◌else◌, bit_or, bit_and, bit_and-0x7f,
  bit_and-0x0f, ◌>>=?◌, ◌==◌, shl, or_shl, length, length-append, decimal, value, value-decimal,
  length-decimal, tens, All, All-append, All-map₂, decimal_digits, inl, inr, ◌⊎◌, ==_ne,
  Option-cases,
}
use native.Mathlib.Nat.{mod-lt}
use keys_core.Totp.Code.{
  TotpAlgorithm, TotpParams, get_elem?, to_be_bytes, word, truncated, modulus, checked_rem, zeros,
  pad, generate_hotp, generate_code,
}

get_elem?-some :
    (xs : List ℕ) (i : ℕ)
    → All (λ b. b < 256) xs
    → i < length xs
    → (b : ℕ) × (get_elem? xs i ≡ some b) × (b < 256)
unfolding get_elem?
get_elem?-some [] i h lt = absurd (omega arith)
get_elem?-some (x ∷ xs) zero (h, hs) lt = (x, refl, h)
get_elem?-some (x ∷ xs) (suc i) (h, hs) lt = get_elem?-some xs i hs (omega arith)

word-eq :
    (a b c d : ℕ)
    → b < 256
    → c < 256
    → d < 256
    → word a b c d ≡ a % 128 * 16777216 + b * 65536 + c * 256 + d
unfolding word
word-eq a b c d hb hc hd =
    let one : bit_or (shl 24 (bit_and a 0x7F)) (shl 16 b) ≡ shl 16 (bit_and a 0x7F * 256 + b) =
      omega (arith, or_shl 24 (bit_and a 0x7F) (shl 16 b) (omega arith)) in
    let two : bit_or (shl 16 (bit_and a 0x7F * 256 + b)) (shl 8 c)
        ≡ shl 8 (bit_and a 0x7F * 65536 + b * 256 + c) =
      omega (arith, or_shl 16 (bit_and a 0x7F * 256 + b) (shl 8 c) (omega arith)) in
    rw (one, two)
      (omega
        (arith, bit_and-0x7f a, or_shl 8 (bit_and a 0x7F * 65536 + b * 256 + c) d (omega arith)))

-- The 31-bit number at the offset that the low half of the last byte gives, the most significant
-- byte first.
pub record IsTruncation (hmac : List ℕ) (n : ℕ) : Type 0 where
  last : ℕ
  b0 : ℕ
  b1 : ℕ
  b2 : ℕ
  b3 : ℕ
  offset : get_elem? hmac (length hmac - 1) ≡ some last
  at_0 : get_elem? hmac (last % 16) ≡ some b0
  at_1 : get_elem? hmac (last % 16 + 1) ≡ some b1
  at_2 : get_elem? hmac (last % 16 + 2) ≡ some b2
  at_3 : get_elem? hmac (last % 16 + 3) ≡ some b3
  number : n ≡ b0 % 128 * 16777216 + b1 * 65536 + b2 * 256 + b3

truncated-IsTruncation :
    (hmac : List ℕ)
    → All (λ b. b < 256) hmac
    → 20 ≤ length hmac
    → (n : ℕ) × (truncated hmac ≡ some n) × IsTruncation hmac n
unfolding truncated
truncated-IsTruncation hmac small long =
    let (last, e, last_small) = get_elem?-some hmac (length hmac - 1) small (omega arith) in
    let (b0, e0, h0) = get_elem?-some hmac (last % 16) small (omega arith) in
    let (b1, e1, h1) = get_elem?-some hmac (last % 16 + 1) small (omega arith) in
    let (b2, e2, h2) = get_elem?-some hmac (last % 16 + 2) small (omega arith) in
    let (b3, e3, h3) = get_elem?-some hmac (last % 16 + 3) small (omega arith) in
    (
      b0 % 128 * 16777216 + b1 * 65536 + b2 * 256 + b3,
      rw (e, bit_and-0x0f last, e0, e1, e2, e3, word-eq b0 b1 b2 b3 h1 h2 h3) refl,
      record {
        last = last;
        b0 = b0;
        b1 = b1;
        b2 = b2;
        b3 = b3;
        offset = e;
        at_0 = e0;
        at_1 = e1;
        at_2 = e2;
        at_3 = e3;
        number = refl;
      },
    )

length-zeros : (n : ℕ) → length (zeros n) ≡ n
unfolding zeros
length-zeros zero = refl
length-zeros (suc n) = ap suc (length-zeros n)

value-zeros : (n : ℕ) (cs : List ℕ) → value (zeros n ++ cs) ≡ value cs
unfolding zeros
value-zeros zero cs = refl
value-zeros (suc n) cs = value-zeros n cs

tens_mono : (a b : ℕ) → a ≤ b → tens a ≤ tens b
tens_mono zero zero h = omega arith
tens_mono zero (suc b) h = omega (arith, tens_mono zero b (omega arith))
tens_mono (suc a) zero h = absurd (omega arith)
tens_mono (suc a) (suc b) h = omega (arith, tens_mono a b (omega arith))

tens_positive : (a : ℕ) → 1 ≤ tens a
tens_positive a = tens_mono 0 a (omega arith)

-- A padded numeral has its width and reads as its number.
pad-value :
    (j code : ℕ)
    → j < 9
    → code < tens (suc j)
    → (length (pad (suc j) code) ≡ suc j) × (value (pad (suc j) code) ≡ code)
unfolding pad
pad-value j code h lt =
    let fits : tens (suc j) ≤ tens 20 = tens_mono (suc j) 20 (omega arith) in
    let short = length-decimal j code lt (omega arith) in
    (
      length-append (zeros (suc j - length (decimal code))) (decimal code)
          ∙ omega (arith, length-zeros (suc j - length (decimal code)), short),
      value-zeros (suc j - length (decimal code)) (decimal code)
          ∙ value-decimal code (omega (arith, fits)),
    )

-- The ASCII digits.
abbrev pub IsDigit : ℕ → Type 0
IsDigit c = (b'0' ≤ c) × (c ≤ b'9')

zeros-IsDigit : (n : ℕ) → All IsDigit (zeros n)
unfolding zeros
zeros-IsDigit zero = tt
zeros-IsDigit (suc n) = (omega arith, zeros-IsDigit n)

pad-IsDigit : (width code : ℕ) → All IsDigit (pad width code)
unfolding pad
pad-IsDigit width code =
    All-append IsDigit (zeros (width - length (decimal code))) (decimal code)
      (zeros-IsDigit (width - length (decimal code)))
      (All-map₂ _ _ IsDigit (λ c h _. ground arith) (decimal code) (decimal_digits code)
        (decimal_digits code))

modulus-tens : (checks : Bool) (j : ℕ) → j < 9 → modulus checks (suc j) ≡ some (tens (suc j))
unfolding modulus
modulus-tens checks j h =
    let small : tens (suc j) < 2 ^ 32 = omega (arith, tens_mono (suc j) 9 (omega arith)) in
    ground arith

-- What is relied on of the HMAC functions: their digests are bytes, twenty or more of them.
unfoldable pub IsDigest : (TotpAlgorithm → List ℕ → List ℕ → List ℕ) → Type 0
IsDigest hmac =
    (a : TotpAlgorithm) (key message : List ℕ)
    → All (λ b. b < 256) (hmac a key message) × (20 ≤ length (hmac a key message))

generate_hotp-value :
    (checks : Bool) (hmac : TotpAlgorithm → List ℕ → List ℕ → List ℕ) (width : ℕ)
    (a : TotpAlgorithm) (key : List ℕ) (counter : ℕ)
    → IsDigest hmac
    → 1 ≤ width
    → width ≤ 9
    → (n : ℕ) × (code : List ℕ) × IsTruncation (hmac a key (to_be_bytes counter)) n
      × (generate_hotp checks hmac key counter width a ≡ some code)
      × (length code ≡ width)
      × All IsDigit code
      × (value code ≡ n % tens width)
unfolding generate_hotp checked_rem IsDigest
generate_hotp-value checks hmac zero a key counter digest lo hi = absurd (omega arith)
generate_hotp-value checks hmac (suc j) a key counter digest lo hi =
    let h : j < 9 = omega arith in
    let (small, long) = digest a key (to_be_bytes counter) in
    let (n, e, truncation) = truncated-IsTruncation (hmac a key (to_be_bytes counter)) small long in
    let positive = tens_positive (suc j) in
    let (wide, reads) = pad-value j (n % tens (suc j)) h (mod-lt n positive) in
    (
      n,
      pad (suc j) (n % tens (suc j)),
      truncation,
      rw (e, modulus-tens checks j h, ==_ne (tens (suc j)) 0 (omega (arith, positive))) refl,
      wide,
      pad-IsDigit (suc j) (n % tens (suc j)),
      reads,
    )

-- With one to nine digits, a period that is not 0 and a digest of twenty bytes or more, a code is made
-- in every build; it has as many characters as asked for, each an ASCII digit, and reads as the
-- truncation of the digest of the time step modulo that power of ten.
pub generate_code-value :
    (checks : Bool) (hmac : TotpAlgorithm → List ℕ → List ℕ → List ℕ) (params : TotpParams)
    (unix_seconds : ℕ)
    → IsDigest hmac
    → 1 ≤ params.digits
    → params.digits ≤ 9
    → 1 ≤ params.period
    → (n : ℕ) × (code : List ℕ) × IsTruncation
        (hmac params.algorithm params.secret (to_be_bytes (unix_seconds / params.period)))
        n
      × (generate_code checks hmac params unix_seconds ≡ some code)
      × (length code ≡ params.digits)
      × All IsDigit code
      × (value code ≡ n % tens params.digits)
unfolding generate_code
generate_code-value checks hmac params unix_seconds digest lo hi runs =
    let positive : (params.period == 0) ≡ false = ground arith in
    let (n, code, t, e, l, ds, v) =
      generate_hotp-value checks hmac params.digits params.algorithm params.secret
        (unix_seconds / params.period) digest lo hi in
    (n, code, t, rw positive e, l, ds, v)

tens-wrap : (k : ℕ) → tens (32 + k) % 2 ^ 32 ≡ 0
tens-wrap zero = refl
tens-wrap (suc k) =
    let ih = tens-wrap k in
    let next : tens (32 + suc k) ≡ 10 * tens (32 + k) =
      ap tens {x = 32 + suc k} {y = suc (32 + k)} (omega arith) in
    omega (arith, ih, next)

modulus-wrap :
    (checks : Bool) (digits t : ℕ)
    → (32 ≤ digits) ⊎ ((checks ≡ true) × (10 ≤ digits))
    → (modulus checks digits >>=? λ m. checked_rem t m >>=? λ code. some (pad digits code)) ≡ none
unfolding modulus checked_rem
modulus-wrap false digits t (inl h) =
    let whole : 32 + (digits - 32) ≡ digits = omega arith in
    let wraps : tens digits % 2 ^ 32 ≡ 0 =
      subst (λ k. tens k % 2 ^ 32 ≡ 0) whole (tens-wrap (digits - 32)) in
    rw wraps refl
modulus-wrap false digits t (inr (c, h)) = absurd (ground arith)
modulus-wrap true digits t h =
    let large : 2 ^ 32 ≤ tens digits =
      omega (arith, tens_mono 10 digits (elim h [ inl a ↦ omega arith | inr (c, a) ↦ a ])) in
    ground arith

-- From 32 digits on, every build panics instead of giving a code: the power of ten wraps to 0, or the
-- overflow is caught. A build with overflow checks panics from 10 digits on.
pub generate_code_panics :
    (checks : Bool) (hmac : TotpAlgorithm → List ℕ → List ℕ → List ℕ) (params : TotpParams)
    (unix_seconds : ℕ)
    → (32 ≤ params.digits) ⊎ ((checks ≡ true) × (10 ≤ params.digits))
    → generate_code checks hmac params unix_seconds ≡ none
unfolding generate_code generate_hotp
generate_code_panics checks hmac params unix_seconds h =
    elim (Option-cases (
      truncated (
        hmac params.algorithm params.secret
          (to_be_bytes (unix_seconds / (if params.period == 0 then 1 else params.period)))))) [
            | inl short ↦ rw short refl
            | inr (t, e) ↦ rw e (modulus-wrap checks params.digits t h)
          ]
