-- ===== src/Totp/Base32/Value.antt =====
-- Base32 text and decoded bytes as numbers (`base32_decode` of crates/keys-engine/src/totp.rs).
use keys_core.Base.{
  ℕ, zero, suc, ◌+◌, ◌-◌, ◌/◌, ◌%◌, ◌*◌, ◌^◌, ◌<◌, ◌≡◌, refl, sym, subst, ◌↔◌, ◌∙◌, arith, Option,
  none, some, List, [], ◌∷◌, ◌++◌, ltb, leb, ◌||◌, if◌then◌else◌, bit_or, bit_and, ◌>>=?◌, ◌==◌,
  to_ascii_uppercase, shl, or_shl, bit_and-0xff, length, length-append, All, All-append, Bool-cases,
  Option-cases, inl, inr,
}
use keys_core.Totp.Base32.{
  alphabet, position, Decoder, push_symbol, symbol, decode_from, start, base32_decode,
}

-- The numbers of the symbols of a text, padding and spaces left out.
pub symbols : List ℕ → Option (List ℕ)
symbols [] = some []
symbols (ch ∷ cs) =
    let rest = symbols cs in
    if ch == b'=' || ch == b' ' then rest else symbol ch >>=? λ i. rest >>=? λ is. some (i ∷ is)

-- The number that digits in base `b` stand for.
pub number_from : ℕ → ℕ → List ℕ → ℕ
number_from b acc [] = acc
number_from b acc (d ∷ ds) = number_from b (acc * b + d) ds

number_from-append :
    (b acc d : ℕ) (ds : List ℕ) → number_from b acc (ds ++ d ∷ []) ≡ number_from b acc ds * b + d
unfolding number_from
number_from-append b acc d [] = refl
number_from-append b acc d (e ∷ ds) = number_from-append b (acc * b + e) d ds

position-lt : (cs : List ℕ) (c i : ℕ) → position cs c ≡ some i → i < length cs
unfolding position
position-lt [] c i h = cc
position-lt (d ∷ cs) c zero h = omega arith
position-lt (d ∷ cs) c (suc i) h = ground (arith, position-lt cs c i)

symbol-lt : (ch i : ℕ) → symbol ch ≡ some i → i < 32
unfolding symbol
symbol-lt ch i h = elim (Bool-cases (ltb 0x7F (to_ascii_uppercase ch))) [
  | inl wide ↦ absurd (ground arith)
  | inr ascii ↦ position-lt alphabet (to_ascii_uppercase ch) i (rw ascii at h)
]

-- What the loop has read: `total` is the number of all symbols so far, `n` their count.
record IsReading (total n : ℕ) (d : Decoder) : Type 0 where
  few : d.bits < 8
  count : 5 * n ≡ 8 * length d.out + d.bits
  word : d.value ≡ total % 2 ^ 32
  bytes : number_from 256 0 d.out ≡ total / 2 ^ d.bits
  small : All (λ b. b < 256) d.out

-- Fewer than eight bits are there.
shift_short : (b v i : ℕ) → b < 3 → i < 32 → (v * 32 + i) / 2 ^ (b + 5) ≡ v / 2 ^ b
shift_short zero v i h k = omega arith
shift_short (suc zero) v i h k = omega arith
shift_short (suc (suc zero)) v i h k = omega arith
shift_short (suc (suc (suc b))) v i h k = absurd (omega arith)

-- A byte is there.
shift_long :
    (b v i : ℕ)
    → b < 5
    → i < 32
    → v / 2 ^ (b + 3) * 256 + (v * 32 + i) % 2 ^ 32 / 2 ^ b % 256 ≡ (v * 32 + i) / 2 ^ b
shift_long zero v i h k = omega arith
shift_long (suc zero) v i h k = omega arith
shift_long (suc (suc zero)) v i h k = omega arith
shift_long (suc (suc (suc zero))) v i h k = omega arith
shift_long (suc (suc (suc (suc zero)))) v i h k = omega arith
shift_long (suc (suc (suc (suc (suc b))))) v i h k = absurd (omega arith)

shift_byte :
    (bits b v i : ℕ)
    → bits ≡ b + 3
    → bits < 8
    → i < 32
    → v / 2 ^ bits * 256 + (v * 32 + i) % 2 ^ 32 / 2 ^ b % 256 ≡ (v * 32 + i) / 2 ^ b
shift_byte bits b v i e h k = rw e (shift_long b v i (omega (arith, e, h)) k)

word_step :
    (v w i : ℕ) → w ≡ v % 2 ^ 32 → i < 32 → bit_or (shl 5 w % 2 ^ 32) i ≡ (v * 32 + i) % 2 ^ 32
word_step v w i h k =
    let kept : shl 5 w % 2 ^ 32 ≡ shl 5 (w % 2 ^ 27) = omega arith in
    rw kept (omega (arith, or_shl 5 (w % 2 ^ 27) i k))

-- One more symbol.
IsReading-push :
    (total n i : ℕ) (d : Decoder)
    → i < 32
    → IsReading total n d
    → IsReading (total * 32 + i) (suc n) (push_symbol d i)
unfolding push_symbol
IsReading-push total n i d lt r = elim (Bool-cases (leb 8 (d.bits + 5))) [
  | inr few ↦ rw few (record {
    few = ground arith;
    count = omega (arith, r.count);
    word = word_step total d.value i r.word lt;
    bytes = r.bytes ∙ sym (shift_short d.bits total i (ground arith) lt);
    small = r.small;
  })
  | inl many ↦
      let b = d.bits + 5 - 8 in
      let word = word_step total d.value i r.word lt in
      let bits : d.bits ≡ b + 3 = ground arith in
      let byte = bit_or (shl 5 d.value % 2 ^ 32) i / 2 ^ b in
      rw many (record {
        few = omega (arith, r.few);
        count = omega (arith, r.count, bits, length-append d.out (bit_and byte 0xFF ∷ []));
        word = word;
        bytes =
            number_from-append 256 0 (bit_and byte 0xFF) d.out
            ∙ rw (bit_and-0xff byte, r.bytes, word) (shift_byte d.bits b total i bits r.few lt);
        small = All-append _ d.out _ r.small (rw (bit_and-0xff byte) (omega arith), tt);
      })
]

-- The whole loop.
IsReading-decode_from :
    (cs : List ℕ) (total n : ℕ) (d : Decoder) (out : List ℕ)
    → IsReading total n d
    → decode_from d cs ≡ some out
    → (syms : List ℕ) × (final : Decoder) × (symbols cs ≡ some syms)
      × (final.out ≡ out)
      × IsReading (number_from 32 total syms) (n + length syms) final
unfolding decode_from symbols number_from
IsReading-decode_from [] total n d out r h =
    ([], d, refl, ground arith, subst (λ k. IsReading total k d) (omega arith) r)
IsReading-decode_from (ch ∷ cs) total n d out r h = elim (Bool-cases (ch == b'=' || ch == b' ')) [
  | inl skip ↦
      let (syms, final, e, f, r') = IsReading-decode_from cs total n d out r (rw skip at h) in
      (syms, final, rw skip e, f, r')
  | inr reads ↦ elim (Option-cases (symbol ch)) [
    | inl bad ↦ absurd (let dead = rw (reads, bad) at h in ground (arith, dead))
    | inr (i, known) ↦
        let lt = symbol-lt ch i known in
        let (syms, final, e, f, r') =
          IsReading-decode_from cs (total * 32 + i) (suc n) (push_symbol d i) out
            (IsReading-push total n i d lt r) (rw (reads, known) at h) in
        (
          i ∷ syms,
          final,
          rw (reads, known, e) refl,
          f,
          subst (λ k. IsReading (number_from 32 (total * 32 + i) syms) k final) (omega arith) r',
        )
  ]
]

-- When base32 text decodes, all its characters are symbols, padding or spaces; with n symbols there
-- are 5 * n / 8 bytes, all below 256, and they are the leading bits of the number that the symbols
-- stand for: the 5 * n - 8 * length out bits at the end are dropped.
pub base32_decode-number :
    (input out : List ℕ)
    → base32_decode input ≡ some out
    → (syms : List ℕ) × (symbols input ≡ some syms)
      × (length out ≡ 5 * length syms / 8)
      × (number_from 256 0 out ≡ number_from 32 0 syms / 2 ^ (5 * length syms - 8 * length out))
      × All (λ b. b < 256) out
unfolding base32_decode number_from
base32_decode-number input out h =
    let empty : IsReading 0 0 start = record {
      few = omega arith;
      count = omega arith;
      word = omega arith;
      bytes = refl;
      small = tt;
    } in
    let (syms, final, e, f, r) = IsReading-decode_from input 0 0 start out empty h in
    let left : 5 * length syms - 8 * length final.out ≡ final.bits = omega (arith, r.count) in
    (syms, e, rw (← f) (omega (arith, r.count, r.few)), rw (← f, left) r.bytes, rw (← f) r.small)

bind-none {ℓ κ} :
    {A : Type ℓ} {B : Type κ} (o : Option A) (f : A → B)
    → (o >>=? λ a. some (f a)) ≡ none
    → o ≡ none
bind-none none f h = refl
bind-none (some a) f h = cc

decode_from-none : (cs : List ℕ) (d : Decoder) → (decode_from d cs ≡ none) ↔ (symbols cs ≡ none)
unfolding decode_from symbols
decode_from-none [] d = (λ h. cc, λ h. cc)
decode_from-none (ch ∷ cs) d = elim (Bool-cases (ch == b'=' || ch == b' ')) [
  | inl skip ↦ rw skip (decode_from-none cs d)
  | inr reads ↦ elim (Option-cases (symbol ch)) [
    | inl bad ↦ rw (reads, bad) (λ h. refl, λ h. refl)
    | inr (i, known) ↦
        let (to, from) = decode_from-none cs (push_symbol d i) in
        rw (reads, known) (λ h. rw (to h) refl, λ h. from (bind-none (symbols cs) (λ is. i ∷ is) h))
  ]
]

-- Base32 text is refused exactly when some character that is neither padding nor a space is no
-- symbol.
pub base32_decode-none : (input : List ℕ) → (base32_decode input ≡ none) ↔ (symbols input ≡ none)
unfolding base32_decode
base32_decode-none input = decode_from-none input start
