-- ===== src/Codec/Tests.antt =====
-- Runs of the hexadecimal codec (crates/keys-engine/src/util/codec.rs).
use keys_core.Base.{ℕ, ◌≡◌, ◌<◌, refl, arith, some, List, [], ◌∷◌, codes, All}
use keys_core.Codec.{hex_to_bytes, decode_chunks, hex_nibble, join_nibbles}

abbrev bytes : List ℕ
bytes = 0x00 ∷ 0xAB ∷ 0xFF ∷ []

bytes_small : All (λ b. b < 256) bytes
bytes_small = ground arith

decodes : hex_to_bytes (codes "00aBFF") ≡ some bytes
unfolding hex_to_bytes decode_chunks hex_nibble join_nibbles
decodes = refl
