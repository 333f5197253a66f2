-- ===== src/Totp/Uri/Percent.antt =====
-- Percent-encoded bytes (`percent_decode` of crates/keys-engine/src/totp.rs).
use keys_core.Base.{
  ℕ, ◌+◌, ◌-◌, ◌/◌, ◌%◌, ◌<◌, ◌≡◌, refl, sym, ap, ◌∙◌, arith, Bool, true, false, some, List, [],
  ◌∷◌, ◌==◌, ltb, if◌then◌else◌, or_shl, All, ==_ne, Bool-cases, inl, inr,
}
use keys_core.Totp.Uri.{hex_digit, escaped, decode_bytes}

-- An upper-case hexadecimal digit.
unfoldable pub hex_of : ℕ → ℕ
hex_of n = if ltb n 10 then b'0' + n else b'A' + n - 10

-- An encoder: bytes that it takes for plain stand for themselves, and others are escaped.
unfoldable pub encode_bytes : (ℕ → Bool) → List ℕ → List ℕ
encode_bytes plain [] = []
encode_bytes plain (b ∷ bs) =
    let rest = encode_bytes plain bs in
    if plain b then b ∷ rest else b'%' ∷ hex_of (b / 16) ∷ hex_of (b % 16) ∷ rest

hex_digit-hex_of : (n : ℕ) → n < 16 → hex_digit (hex_of n) ≡ some n
unfolding hex_digit hex_of
hex_digit-hex_of n h = ground (arith, h)

escaped-hex_of : (b : ℕ) → b < 256 → escaped b'%' (hex_of (b / 16)) (hex_of (b % 16)) ≡ some b
unfolding escaped
escaped-hex_of b h =
    rw (hex_digit-hex_of (b / 16) (omega (arith, h)), hex_digit-hex_of (b % 16) (omega arith))
      (ap some (or_shl 4 (b / 16) (b % 16) (omega arith) ∙ omega arith))

-- A byte other than the percent sign stands for itself.
decode_bytes-plain :
    (b : ℕ) (bs : List ℕ) → (b == b'%') ≡ false → decode_bytes (b ∷ bs) ≡ b ∷ decode_bytes bs
unfolding decode_bytes escaped
decode_bytes-plain b [] h = refl
decode_bytes-plain b (c ∷ []) h = refl
decode_bytes-plain b (c ∷ d ∷ bs) h = rw (h, decode_bytes) refl

decode_bytes-escape :
    (b : ℕ) (bs : List ℕ)
    → b < 256
    → decode_bytes (b'%' ∷ hex_of (b / 16) ∷ hex_of (b % 16) ∷ bs) ≡ b ∷ decode_bytes bs
unfolding decode_bytes
decode_bytes-escape b bs h = rw (escaped-hex_of b h, decode_bytes) refl

-- For bytes, and any choice of plain bytes without the percent sign: the loop of percent_decode gives
-- back the bytes that were encoded.
pub decode_bytes-encode_bytes :
    (plain : ℕ → Bool) (bs : List ℕ)
    → plain b'%' ≡ false
    → All (λ b. b < 256) bs
    → decode_bytes (encode_bytes plain bs) ≡ bs
unfolding encode_bytes decode_bytes
decode_bytes-encode_bytes plain [] p h = refl
decode_bytes-encode_bytes plain (b ∷ bs) p (h, hs) = elim (Bool-cases (plain b)) [
  | inl kept ↦
      rw (kept, encode_bytes)
        (decode_bytes-plain b (encode_bytes plain bs) (not_percent kept)
          ∙ ap (λ t. b ∷ t) (decode_bytes-encode_bytes plain bs p hs))
  | inr coded ↦
      rw (coded, encode_bytes)
        (decode_bytes-escape b (encode_bytes plain bs) h
          ∙ ap (λ t. b ∷ t) (decode_bytes-encode_bytes plain bs p hs))
]
  where
    not_percent : plain b ≡ true → (b == b'%') ≡ false
    not_percent kept = ==_ne b b'%' (λ e. let dead : true ≡ false = sym kept ∙ ap plain e ∙ p in cc)
