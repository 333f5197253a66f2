-- ===== src/Totp/Uri.antt =====
-- `parse_uri` and `percent_decode` of crates/keys-engine/src/totp.rs. Text is its list of code points.
-- The URL parser is another crate's, and the conversion of bytes to text the standard library's:
-- parameters.
pub mod Percent
pub mod Query
pub mod Tests
use keys_core.Base.{
  ℕ, ◌+◌, ◌-◌, ◌*◌, ◌^◌, Bool, true, false, Option, none, some, List, [], ◌∷◌, ◌==◌, ◌&&◌, ltb, leb,
  if◌then◌else◌, ◌>>=?◌, codes, eq_text, map, to_ascii_uppercase, shl, bit_or,
}
use keys_core.Totp.Code.{TotpAlgorithm, sha1, sha256, sha512, TotpParams}
use keys_core.Totp.Base32.{base32_decode}

abbrev pub Text : Type 0
Text = List ℕ

unfoldable pub hex_digit : ℕ → Option ℕ
hex_digit b =
    if leb b'0' b && leb b b'9'
    then some (b - b'0')
    else (if leb b'a' b && leb b b'f'
        then some (b - b'a' + 10)
        else (if leb b'A' b && leb b b'F' then some (b - b'A' + 10) else none))

-- The byte that `%` and two hexadecimal digits stand for.
unfoldable pub escaped : ℕ → ℕ → ℕ → Option ℕ
escaped b h l =
    if b == b'%'
    then (hex_digit h >>=? λ x. hex_digit l >>=? λ y. some (bit_or (shl 4 x) y))
    else none

-- The loop of `percent_decode`, on the bytes from `i` on.
unfoldable pub decode_bytes : List ℕ → List ℕ
decode_bytes [] = []
decode_bytes (b ∷ []) = b ∷ []
decode_bytes (b ∷ c ∷ []) = b ∷ c ∷ []
decode_bytes (b ∷ h ∷ l ∷ rest) = elim (escaped b h l) [
  | some x ↦ x ∷ decode_bytes rest
  | none ↦ b ∷ decode_bytes (h ∷ l ∷ rest)
]

-- `str::parse::<u32>`: digits after an optional plus sign, within 32 bits.
unfoldable pub read_u32 : ℕ → Text → Option ℕ
read_u32 acc [] = some acc
read_u32 acc (c ∷ cs) =
    let next = acc * 10 + (c - b'0') in
    let rest = read_u32 next cs in
    if leb b'0' c && leb c b'9' then (if ltb next (2 ^ 32) then rest else none) else none

unfoldable pub parse_u32 : Text → Option ℕ
parse_u32 [] = none
parse_u32 (c ∷ []) = read_u32 0 (c ∷ [])
parse_u32 (c ∷ d ∷ cs) = if c == b'+' then read_u32 0 (d ∷ cs) else read_u32 0 (c ∷ d ∷ cs)

-- `url::Url`, as far as it is read.
pub record Url : Type 0 where
  pub scheme : Text
  pub host_str : Option Text
  pub path : Text
  pub query_pairs : List (Text × Text)

-- The arms of the match on a key.
pub data Key : Type 0 where
  secret_key issuer_key algorithm_key digits_key period_key other_key : Key

unfoldable pub key_of : Text → Key
key_of key =
    if eq_text key (codes "secret")
    then secret_key
    else (if eq_text key (codes "issuer")
        then issuer_key
        else (if eq_text key (codes "algorithm")
            then algorithm_key
            else (if eq_text key (codes "digits")
                then digits_key
                else (if eq_text key (codes "period") then period_key else other_key))))

unfoldable pub algorithm_of : Text → TotpAlgorithm
algorithm_of value =
    let upper = map to_ascii_uppercase value in
    if eq_text upper (codes "SHA256")
    then sha256
    else (if eq_text upper (codes "SHA512") then sha512 else sha1)

-- The parameters and the secret so far.
abbrev pub Parsed : Type 0
Parsed = TotpParams × Option (List ℕ)

abbrev pub or_kept : {A : Type 0} → Option A → A → A
or_kept none kept = kept
or_kept (some a) kept = a

-- One arm; `none` is the return of `base32_decode(…)?`.
abbrev pub set_pair : Key → Text → Parsed → Option Parsed
set_pair secret_key value (p, secret) = base32_decode value >>=? λ bytes. some (p, some bytes)
set_pair issuer_key value (p, secret) = some (record p { issuer = value }, secret)
set_pair algorithm_key value (p, secret) =
    some (record p { algorithm = algorithm_of value }, secret)
set_pair digits_key value (p, secret) =
    some (record p { digits = or_kept (parse_u32 value) p.digits }, secret)
set_pair period_key value (p, secret) =
    some (record p { period = or_kept (parse_u32 value) p.period }, secret)
set_pair other_key value (p, secret) = some (p, secret)

-- `for (key, value) in parsed.query_pairs()`.
unfoldable pub set_pairs : List (Text × Text) → Parsed → Option Parsed
set_pairs [] s = some s
set_pairs ((key, value) ∷ pairs) s = set_pair (key_of key) value s >>=? set_pairs pairs

-- `trim_start_matches('/')`.
unfoldable pub trim_slashes : Text → Text
trim_slashes [] = []
trim_slashes (c ∷ cs) = let rest = trim_slashes cs in if c == b'/' then rest else c ∷ cs

-- `split_once(':')`.
unfoldable pub split_once : Text → Option (Text × Text)
split_once [] = none
split_once (c ∷ cs) =
    let rest = split_once cs in
    if c == b':' then some ([], cs) else (rest >>=? λ s. some (c ∷ s.0, s.1))

abbrev pub default_params : TotpParams
default_params = record {
  secret = [];
  algorithm = sha1;
  digits = 6;
  period = 30;
  issuer = [];
  account_name = [];
}

-- The path as a label.
abbrev pub labelled : Text → Option (Text × Text) → TotpParams
labelled path none = record default_params { account_name = path }
labelled path (some (issuer, account)) = record default_params {
  issuer = issuer;
  account_name = account;
}

abbrev pub is_text : Option Text → Text → Bool
is_text none t = false
is_text (some s) t = eq_text s t

abbrev pub finish : Parsed → Option TotpParams
finish (p, secret) = secret >>=? λ bytes. some (record p { secret = bytes })

module _ (as_bytes : Text → List ℕ) (from_utf8_lossy : List ℕ → Text) where
  unfoldable pub percent_decode : Text → Text
  percent_decode input = from_utf8_lossy (decode_bytes (as_bytes input))

  unfoldable pub label : Url → TotpParams
  label parsed =
      let path = percent_decode (trim_slashes parsed.path) in labelled path (split_once path)

  unfoldable pub parse_uri : (Text → Option Url) → Text → Option TotpParams
  parse_uri url_parse uri = url_parse uri >>=? λ parsed.
      if eq_text parsed.scheme (codes "otpauth") && is_text parsed.host_str (codes "totp")
      then (set_pairs parsed.query_pairs (label parsed, none) >>=? finish)
      else none
