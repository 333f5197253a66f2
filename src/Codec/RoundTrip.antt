-- ===== src/Codec/RoundTrip.antt =====
-- Encoding after decoding, and decoding after encoding (crates/keys-engine/src/util/codec.rs).
use keys_core.Base.{
  ℕ, ◌+◌, ◌/◌, ◌%◌, ◌*◌, ◌<◌, some, List, [], ◌∷◌, shl, >>=?-eq-some, length, ◌≡◌, refl, arith, All,
  or_shl, map, to_ascii_lowercase, ap, ◌∙◌,
}
use keys_core.Codec.{hex_char, bytes_to_hex, hex_nibble, join_nibbles, decode_chunks, hex_to_bytes}

join_nibbles-eq : (hi lo : ℕ) → hi < 16 → lo < 16 → join_nibbles hi lo ≡ hi * 16 + lo
unfolding join_nibbles
join_nibbles-eq hi lo h k =
    let fits : shl 4 hi % 256 ≡ shl 4 hi = omega arith in rw fits (omega (arith, or_shl 4 hi lo k))

hex_nibble-hex_char : (n : ℕ) → n < 16 → hex_nibble (hex_char n) ≡ some n
unfolding hex_nibble hex_char
hex_nibble-hex_char n h = ground arith

decode_step :
    (c d : ℕ) (cs : List ℕ) {hi lo : ℕ} {bs : List ℕ}
    → hex_nibble c ≡ some hi
    → hex_nibble d ≡ some lo
    → decode_chunks cs ≡ some bs
    → decode_chunks (c ∷ d ∷ cs) ≡ some (join_nibbles hi lo ∷ bs)
unfolding decode_chunks
decode_step c d cs e f g = rw (e, f, g)

decode_chunks-bytes_to_hex :
    (bs : List ℕ) → All (λ b. b < 256) bs → decode_chunks (bytes_to_hex bs) ≡ some bs
unfolding bytes_to_hex decode_chunks
decode_chunks-bytes_to_hex [] h = refl
decode_chunks-bytes_to_hex (b ∷ bs) (h, hs) =
    decode_step _ _ _ (hex_nibble-hex_char (b / 16) (omega arith))
      (hex_nibble-hex_char (b % 16) (omega arith)) (decode_chunks-bytes_to_hex bs hs)
    ∙ ap (λ x. some (x ∷ bs))
        (join_nibbles-eq (b / 16) (b % 16) (omega arith) (omega arith) ∙ omega arith)

length-bytes_to_hex : (bs : List ℕ) → length (bytes_to_hex bs) ≡ 2 * length bs
unfolding bytes_to_hex
length-bytes_to_hex [] = refl
length-bytes_to_hex (b ∷ bs) = omega (arith, length-bytes_to_hex bs)

-- Decoding the hexadecimal text of bytes gives the bytes.
pub hex_to_bytes-bytes_to_hex :
    (bs : List ℕ) → All (λ b. b < 256) bs → hex_to_bytes (bytes_to_hex bs) ≡ some bs
unfolding hex_to_bytes
hex_to_bytes-bytes_to_hex bs h =
    ground (arith, length-bytes_to_hex bs, decode_chunks-bytes_to_hex bs h)

hex_char-hex_nibble :
    (c n : ℕ) → hex_nibble c ≡ some n → (n < 16) × (hex_char n ≡ to_ascii_lowercase c)
unfolding hex_char hex_nibble to_ascii_lowercase
hex_char-hex_nibble c n h = (ground arith, ground arith)

decode_step_inv :
    (c d : ℕ) (cs bs : List ℕ)
    → decode_chunks (c ∷ d ∷ cs) ≡ some bs
    → (hi lo : ℕ) × (rest : List ℕ) × (hex_nibble c ≡ some hi)
      × (hex_nibble d ≡ some lo)
      × (decode_chunks cs ≡ some rest)
      × (join_nibbles hi lo ∷ rest ≡ bs)
unfolding decode_chunks
decode_step_inv c d cs bs h =
    let (hi, e, h') = >>=?-eq-some (hex_nibble c) _ h in
    let (lo, f, h'') = >>=?-eq-some (hex_nibble d) _ h' in
    let (rest, g, done) = >>=?-eq-some (decode_chunks cs) _ h'' in
    (hi, lo, rest, e, f, g, ground arith)

bytes_to_hex-decode_chunks :
    (s bs : List ℕ)
    → length s % 2 ≡ 0
    → decode_chunks s ≡ some bs
    → (bytes_to_hex bs ≡ map to_ascii_lowercase s) × All (λ b. b < 256) bs
unfolding bytes_to_hex
bytes_to_hex-decode_chunks [] bs even h =
    let empty : [] ≡ bs = unfold decode_chunks in ground arith in rw (← empty) (refl, tt)
bytes_to_hex-decode_chunks (c ∷ []) bs even h = absurd (omega arith)
bytes_to_hex-decode_chunks (c ∷ d ∷ cs) bs even h =
    let (hi, lo, rest, e, f, g, done) = decode_step_inv c d cs bs h in
    let (small, first) = hex_char-hex_nibble c hi e in
    let (small', second) = hex_char-hex_nibble d lo f in
    let (ih, bytes) = bytes_to_hex-decode_chunks cs rest (omega arith) g in
    let joined = join_nibbles-eq hi lo small small' in
    rw (← done, joined)
      (cc (first, second, ih, high hi lo small', low hi lo small'), (omega arith, bytes))
  where
    high : (hi lo : ℕ) → lo < 16 → (hi * 16 + lo) / 16 ≡ hi
    high hi lo h = omega arith

    low : (hi lo : ℕ) → lo < 16 → (hi * 16 + lo) % 16 ≡ lo
    low hi lo h = omega arith

-- Text that decodes is, up to the case of its letters, the encoding of the bytes it decodes to.
pub bytes_to_hex-hex_to_bytes :
    (s bs : List ℕ)
    → hex_to_bytes s ≡ some bs
    → (bytes_to_hex bs ≡ map to_ascii_lowercase s) × All (λ b. b < 256) bs
unfolding hex_to_bytes
bytes_to_hex-hex_to_bytes s bs h = bytes_to_hex-decode_chunks s bs (ground arith) (ground arith)
