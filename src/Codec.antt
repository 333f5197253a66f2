-- ===== src/Codec.antt =====
-- Bytes and hexadecimal text (crates/keys-engine/src/util/codec.rs). Text is its list of bytes.
pub mod RoundTrip
pub mod Tests
use keys_core.Base.{
  ℕ, ◌+◌, ◌-◌, ◌/◌, ◌%◌, ◌*◌, Bool, Option, none, some, List, [], ◌∷◌, ◌++◌, ltb, leb, ◌&&◌,
  if◌then◌else◌, bit_or, shl, ◌>>=?◌, length, ◌==◌, not,
}

-- One digit of the format `{:02x}`.
unfoldable pub hex_char : ℕ → ℕ
hex_char n = if ltb n 10 then b'0' + n else b'a' + (n - 10)

unfoldable pub bytes_to_hex : List ℕ → List ℕ
unfolding hex_char
bytes_to_hex [] = []
bytes_to_hex (b ∷ bs) = hex_char (b / 16) ∷ hex_char (b % 16) ∷ bytes_to_hex bs

unfoldable pub hex_nibble : ℕ → Option ℕ
hex_nibble b =
    if leb b'0' b && leb b b'9'
    then some (b - b'0')
    else if leb b'a' b && leb b b'f'
    then some (b - b'a' + 10)
    else if leb b'A' b && leb b b'F'
    then some (b - b'A' + 10)
    else none

-- `(hi << 4) | lo` on u8.
unfoldable pub join_nibbles : ℕ → ℕ → ℕ
join_nibbles hi lo = bit_or (shl 4 hi % 256) lo

-- The loop over `chunks_exact(2)`, which drops an odd byte at the end.
unfoldable pub decode_chunks : List ℕ → Option (List ℕ)
decode_chunks [] = some []
decode_chunks (c ∷ []) = some []
decode_chunks (c ∷ d ∷ cs) =
    let rest = decode_chunks cs in
    hex_nibble c >>=? λ hi. hex_nibble d >>=? λ lo. rest >>=? λ bs. some (join_nibbles hi lo ∷ bs)

unfoldable pub hex_to_bytes : List ℕ → Option (List ℕ)
hex_to_bytes s = if not (length s % 2 == 0) then none else decode_chunks s
