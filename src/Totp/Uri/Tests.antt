-- ===== src/Totp/Uri/Tests.antt =====
-- A URI with a label, a secret and two numbers of digits (crates/keys-engine/src/totp.rs).
use keys_core.Base.{
  ℕ, ◌≡◌, ◌&&◌, refl, Option, none, some, List, [], ◌∷◌, codes, eq_text, if◌then◌else◌,
  to_ascii_uppercase,
}
use keys_core.Totp.Code.{sha256}
use keys_core.Totp.Base32.{push_symbol, position, symbol, decode_from, base32_decode}
use keys_core.Totp.Uri.{
  Text, Url, hex_digit, escaped, decode_bytes, read_u32, parse_u32, key_of, algorithm_of, set_pairs,
  trim_slashes, split_once, percent_decode, label, is_text, parse_uri,
}
use keys_core.Totp.Uri.Query.{secrets_decode, described, last_of, reads_secret, parse_uri-last}

abbrev same : List ℕ → List ℕ
same bytes = bytes

abbrev url : Url
url = record {
  scheme = codes "otpauth";
  host_str = some (codes "totp");
  path = codes "/Acme%3aann";
  query_pairs =
      (codes "digits", codes "x")
      ∷ (codes "secret", codes "ME")
      ∷ (codes "digits", codes "+8")
      ∷ (codes "algorithm", codes "sha256")
      ∷ [];
}

abbrev url_parse : Text → Option Url
url_parse uri = if eq_text uri (codes "u") then some url else none

parsed_url :
    parse_uri same same url_parse (codes "u")
    ≡ some (record {
      secret = b'a' ∷ [];
      algorithm = sha256;
      digits = 8;
      period = 30;
      issuer = codes "Acme";
      account_name = codes "ann";
    })
unfolding parse_uri eq_text set_pairs key_of parse_u32 read_u32 algorithm_of label percent_decode
    trim_slashes split_once decode_bytes escaped hex_digit base32_decode to_ascii_uppercase
    decode_from symbol position push_symbol
parsed_url = refl

parse_uri-last_example : parse_uri same same url_parse (codes "u") ≡ (
    if eq_text (codes "otpauth") (codes "otpauth") && is_text (some (codes "totp")) (codes "totp")
    then (if secrets_decode url.query_pairs
        then described
            (percent_decode same same (trim_slashes (codes "/Acme%3aann")))
            url.query_pairs
            (last_of reads_secret url.query_pairs)
        else none)
    else none)
unfolding eq_text
parse_uri-last_example = parse_uri-last url_parse same same (codes "u") url refl
