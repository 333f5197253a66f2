-- ===== src/Totp/Tests.antt =====
-- Runs of the base32 decoder and of the code generator (crates/keys-engine/src/totp.rs).
use keys_core.Base.{
  ℕ, ◌/◌, ◌%◌, ◌<◌, ◌≡◌, refl, arith, true, false, none, some, List, [], ◌∷◌, All, inl, length,
  value, tens, codes, to_ascii_uppercase,
}
use keys_core.Totp.Base32.{position, push_symbol, symbol, decode_from, base32_decode}
use keys_core.Totp.Code.{TotpAlgorithm, TotpParams, to_be_bytes, generate_code, seconds_remaining}
use keys_core.Totp.Code.Value.{
  IsTruncation, IsDigest, IsDigit, generate_code-value, generate_code_panics,
}

abbrev hello : List ℕ
hello = codes "jbsw y3dp"

abbrev hello_bytes : List ℕ
hello_bytes = codes "Hello"

hello_decodes : base32_decode hello ≡ some hello_bytes
unfolding base32_decode decode_from push_symbol symbol position to_ascii_uppercase
hello_decodes = refl

-- A digest of twenty bytes.
abbrev hmac : TotpAlgorithm → List ℕ → List ℕ → List ℕ
hmac a key message =
    0x1F ∷ 0x86 ∷ 0x98 ∷ 0x69 ∷ 0x0E ∷ 0x02 ∷ 0xCA ∷ 0x16 ∷ 0x61 ∷ 0x85 ∷ 0x50 ∷ 0xEF ∷ 0x7F ∷ 0x19
    ∷ 0xDA ∷ 0x8E ∷ 0x94 ∷ 0x5B ∷ 0x55 ∷ 0x5A ∷ []

hmac-IsDigest : IsDigest hmac
unfolding IsDigest
hmac-IsDigest a key message = ground arith

abbrev params : ℕ → TotpParams
params digits = record {
  secret = hello_bytes;
  algorithm = TotpAlgorithm.sha1;
  digits = digits;
  period = 30;
  issuer = [];
  account_name = [];
}

generate_code-value_example :
    (n : ℕ) × (code : List ℕ) × IsTruncation
      (hmac TotpAlgorithm.sha1 hello_bytes (to_be_bytes (59 / 30)))
      n
    × (generate_code true hmac (params 6) 59 ≡ some code)
    × (length code ≡ 6)
    × All IsDigit code
    × (value code ≡ n % tens 6)
generate_code-value_example =
    generate_code-value true hmac (params 6) 59 hmac-IsDigest (omega arith) (omega arith)
      (omega arith)

generate_code_panics_example : generate_code false hmac (params 32) 59 ≡ none
generate_code_panics_example = generate_code_panics false hmac (params 32) 59 (inl (omega arith))

two_more : 2 < seconds_remaining 30 55
unfolding seconds_remaining
two_more = omega arith
