-- ===== src/Totp/Base32.antt =====
-- `base32_decode` of crates/keys-engine/src/totp.rs. Text is its list of code points.
pub mod Value
use keys_core.Base.{
  ℕ, ◌+◌, ◌-◌, ◌/◌, ◌%◌, ◌*◌, ◌^◌, Bool, Option, none, some, List, [], ◌∷◌, ◌++◌, ltb, leb, ◌||◌,
  if◌then◌else◌, bit_or, bit_and, ◌>>=?◌, ◌==◌, to_ascii_uppercase, codes, suc, map, shl,
}
use mathlib.Core.Option

abbrev pub alphabet : List ℕ
alphabet = codes "ABCDEFGHIJKLMNOPQRSTUVWXYZ234567"

-- `iter().position(|&c| c as u32 == byte)`
unfoldable pub position : List ℕ → ℕ → Option ℕ
position [] byte = none
position (c ∷ cs) byte = if c == byte then some 0 else Option.map suc (position cs byte)

-- The variables of the loop.
pub record Decoder : Type 0 where
  pub bits : ℕ
  pub value : ℕ
  pub out : List ℕ

-- The body after the lookup, on u32: five more bits, and a byte when eight are there.
unfoldable pub push_symbol : Decoder → ℕ → Decoder
push_symbol d idx =
    let value' = bit_or (shl 5 d.value % 2 ^ 32) idx in
    if leb 8 (d.bits + 5)
    then record {
      bits = d.bits + 5 - 8;
      value = value';
      out = d.out ++ bit_and (value' / 2 ^ (d.bits + 5 - 8)) 0xFF ∷ [];
    }
    else record { bits = d.bits + 5; value = value'; out = d.out }

-- The number of a character, after the `continue` for padding and spaces.
unfoldable pub symbol : ℕ → Option ℕ
symbol ch =
    let upper = to_ascii_uppercase ch in if ltb 0x7F upper then none else position alphabet upper

unfoldable pub decode_from : Decoder → List ℕ → Option (List ℕ)
decode_from d [] = some d.out
decode_from d (ch ∷ cs) =
    let skip = decode_from d cs in
    let next : Option (List ℕ) = elim (symbol ch) [
      | none ↦ none
      | some idx ↦ decode_from (push_symbol d idx) cs
    ] in
    if ch == b'=' || ch == b' ' then skip else next

abbrev pub start : Decoder
start = record { bits = 0; value = 0; out = [] }

unfoldable pub base32_decode : List ℕ → Option (List ℕ)
base32_decode input = decode_from start input
