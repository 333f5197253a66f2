-- ===== src/Totp/Code.antt =====
-- The one-time codes of crates/keys-engine/src/totp.rs (RFC 6238 and RFC 4226). The HMAC is another
-- crate's: a parameter, which gives the bytes of the digest of a message under a key. A result `none`
-- is a panic.
pub mod Value
pub mod Remaining
use keys_core.Base.{
  ℕ, zero, suc, ◌+◌, ◌-◌, ◌/◌, ◌%◌, ◌*◌, ◌^◌, Bool, Option, none, some, List, [], ◌∷◌, ◌++◌, ltb,
  leb, ◌&&◌, if◌then◌else◌, bit_or, bit_and, ◌>>=?◌, ◌==◌, shl, length, decimal, tens,
}

pub data TotpAlgorithm : Type 0 where
  sha1 : TotpAlgorithm
  sha256 : TotpAlgorithm
  sha512 : TotpAlgorithm

pub record TotpParams : Type 0 where
  pub secret : List ℕ
  pub algorithm : TotpAlgorithm
  pub digits : ℕ
  pub period : ℕ
  pub issuer : List ℕ
  pub account_name : List ℕ

-- Indexing a vector: out of range is a panic.
unfoldable pub get_elem? : List ℕ → ℕ → Option ℕ
get_elem? [] i = none
get_elem? (x ∷ xs) zero = some x
get_elem? (x ∷ xs) (suc i) = get_elem? xs i

-- `u64::to_be_bytes`.
unfoldable pub to_be_bytes : ℕ → List ℕ
to_be_bytes n =
    n / 2 ^ 56 % 256
    ∷ n / 2 ^ 48 % 256
    ∷ n / 2 ^ 40 % 256
    ∷ n / 2 ^ 32 % 256
    ∷ n / 2 ^ 24 % 256
    ∷ n / 2 ^ 16 % 256
    ∷ n / 2 ^ 8 % 256
    ∷ n % 256
    ∷ []

-- Four bytes as one u32, the sign bit masked.
unfoldable pub word : ℕ → ℕ → ℕ → ℕ → ℕ
word a b c d = bit_or (bit_or (bit_or (shl 24 (bit_and a 0x7F)) (shl 16 b)) (shl 8 c)) d

-- The truncated digest.
unfoldable pub truncated : List ℕ → Option ℕ
truncated hmac = get_elem? hmac (length hmac - 1) >>=? λ last.
    let offset = bit_and last 0x0F in
    get_elem? hmac offset >>=? λ a. get_elem? hmac (offset + 1) >>=? λ b.
    get_elem? hmac (offset + 2) >>=? λ c. get_elem? hmac (offset + 3) >>=? λ d. some (word a b c d)

-- `10u32.pow(digits)`: a build with overflow checks panics, one without them wraps.
unfoldable pub modulus : Bool → ℕ → Option ℕ
modulus checks digits =
    if checks && leb (2 ^ 32) (tens digits) then none else some (tens digits % 2 ^ 32)

-- `truncated % modulus`, which panics on 0.
unfoldable pub checked_rem : ℕ → ℕ → Option ℕ
checked_rem a m = if m == 0 then none else some (a % m)

unfoldable pub zeros : ℕ → List ℕ
zeros zero = []
zeros (suc n) = b'0' ∷ zeros n

-- `format!("{:0width$}", code)`.
unfoldable pub pad : ℕ → ℕ → List ℕ
pad width code = let text = decimal code in zeros (width - length text) ++ text

module _ (checks : Bool) (hmac : TotpAlgorithm → List ℕ → List ℕ → List ℕ) where
  unfoldable pub generate_hotp : List ℕ → ℕ → ℕ → TotpAlgorithm → Option (List ℕ)
  generate_hotp secret counter digits algorithm =
      truncated (hmac algorithm secret (to_be_bytes counter)) >>=? λ t.
      modulus checks digits >>=? λ m. checked_rem t m >>=? λ code. some (pad digits code)

  unfoldable pub generate_code : TotpParams → ℕ → Option (List ℕ)
  generate_code params unix_seconds =
      let period = if params.period == 0 then 1 else params.period in
      generate_hotp params.secret (unix_seconds / period) params.digits params.algorithm

unfoldable pub seconds_remaining : ℕ → ℕ → ℕ
seconds_remaining period unix_seconds =
    let period' = if period == 0 then 1 else period in period' - unix_seconds % period'
