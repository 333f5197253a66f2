-- ===== src/Totp/Uri/Query.antt =====
-- Which parameters an otpauth URI gives (`parse_uri` of crates/keys-engine/src/totp.rs).
use keys_core.Base.{
  ◌≡◌, refl, ap, ◌∙◌, Bool, true, false, Option, none, some, List, [], ◌∷◌, ◌&&◌, if◌then◌else◌,
  ◌>>=?◌, inl, inr, ℕ, Option-cases, any, arith, ◌==◌, codes, eq_text,
}
use keys_core.Totp.Code.{TotpAlgorithm, TotpParams, sha1}
use keys_core.Totp.Base32.{base32_decode}
use keys_core.Totp.Uri.{
  Text, Key, secret_key, issuer_key, algorithm_key, digits_key, period_key, other_key, key_of,
  algorithm_of, parse_u32, or_kept, Parsed, set_pair, set_pairs, Url, parse_uri, finish, label,
  is_text, labelled, split_once, percent_decode, trim_slashes,
}

-- What one pair gives for each parameter: a value, or nothing.
abbrev pub reads_secret : Key → Text → Option (List ℕ)
reads_secret secret_key value = base32_decode value
reads_secret _ value = none

abbrev pub reads_issuer : Key → Text → Option Text
reads_issuer issuer_key value = some value
reads_issuer _ value = none

abbrev pub reads_algorithm : Key → Text → Option TotpAlgorithm
reads_algorithm algorithm_key value = some (algorithm_of value)
reads_algorithm _ value = none

abbrev pub reads_digits : Key → Text → Option ℕ
reads_digits digits_key value = parse_u32 value
reads_digits _ value = none

abbrev pub reads_period : Key → Text → Option ℕ
reads_period period_key value = parse_u32 value
reads_period _ value = none

-- The later of two.
abbrev pub later : {A : Type 0} → Option A → Option A → Option A
later none b = b
later (some a) b = some a

-- The last value that the pairs give.
unfoldable pub last_of : {A : Type 0} → (Key → Text → Option A) → List (Text × Text) → Option A
last_of reads [] = none
last_of reads ((key, value) ∷ pairs) = later (last_of reads pairs) (reads (key_of key) value)

abbrev pub is_some : {A : Type 0} → Option A → Bool
is_some none = false
is_some (some a) = true

abbrev pub decodes : Key → Text → Bool
decodes secret_key value = is_some (base32_decode value)
decodes _ value = true

-- Every secret among the pairs is Base32.
unfoldable pub secrets_decode : List (Text × Text) → Bool
secrets_decode [] = true
secrets_decode ((key, value) ∷ pairs) = decodes (key_of key) value && secrets_decode pairs

-- Parameters with the given values in place of theirs.
abbrev pub with_given :
    Option Text → Option TotpAlgorithm → Option ℕ → Option ℕ → Option (List ℕ) → Parsed → Parsed
with_given issuer algorithm digits period bytes (p, secret) = (
  record p {
    issuer = or_kept issuer p.issuer;
    algorithm = or_kept algorithm p.algorithm;
    digits = or_kept digits p.digits;
    period = or_kept period p.period;
  },
  later bytes secret,
)

-- The last values of all pairs.
abbrev pub with_last : List (Text × Text) → Parsed → Parsed
with_last pairs =
    with_given (last_of reads_issuer pairs) (last_of reads_algorithm pairs)
      (last_of reads_digits pairs) (last_of reads_period pairs) (last_of reads_secret pairs)

abbrev with_one : Key → Text → Parsed → Parsed
with_one key value =
    with_given (reads_issuer key value) (reads_algorithm key value) (reads_digits key value)
      (reads_period key value) (reads_secret key value)

set_pair-with_one :
    (key : Key) (value : Text) (s : Parsed)
    → set_pair key value s ≡ (if decodes key value then some (with_one key value s) else none)
set_pair-with_one secret_key value s = elim (Option-cases (base32_decode value)) [
  | inl missed ↦ rw missed refl
  | inr (bytes, hit) ↦ rw hit refl
]
set_pair-with_one issuer_key value s = refl
set_pair-with_one algorithm_key value s = refl
set_pair-with_one digits_key value s = refl
set_pair-with_one period_key value s = refl
set_pair-with_one other_key value s = refl

or_kept-later :
    {A : Type 0} (a b : Option A) (d : A) → or_kept a (or_kept b d) ≡ or_kept (later a b) d
or_kept-later none b d = refl
or_kept-later (some x) b d = refl

later_assoc : {A : Type 0} (a b d : Option A) → later a (later b d) ≡ later (later a b) d
later_assoc none b d = refl
later_assoc (some x) b d = refl

with_given-twice :
    (i i' : Option Text) (a a' : Option TotpAlgorithm) (d d' p p' : Option ℕ)
    (b b' : Option (List ℕ)) (s : Parsed)
    → with_given i a d p b (with_given i' a' d' p' b' s)
      ≡ with_given (later i i') (later a a') (later d d') (later p p') (later b b') s
with_given-twice i i' a a' d d' p p' b b' (q, secret) =
    rw
      (
        or_kept-later i i' q.issuer,
        or_kept-later a a' q.algorithm,
        or_kept-later d d' q.digits,
        or_kept-later p p' q.period,
        later_assoc b b' secret,
      )
      refl

set_pairs-last :
    (pairs : List (Text × Text)) (s : Parsed)
    → set_pairs pairs s ≡ (if secrets_decode pairs then some (with_last pairs s) else none)
unfolding set_pairs secrets_decode last_of
set_pairs-last [] (p, secret) = refl
set_pairs-last ((key, value) ∷ pairs) s =
    ap (λ r. r >>=? set_pairs pairs) (set_pair-with_one (key_of key) value s)
    ∙ go (decodes (key_of key) value) (set_pairs-last pairs (with_one (key_of key) value s))
  where
    go :
        (b : Bool)
        → set_pairs pairs (with_one (key_of key) value s) ≡ (
            if secrets_decode pairs
            then some (with_last pairs (with_one (key_of key) value s))
            else none)
        → ((if b then some (with_one (key_of key) value s) else none) >>=? set_pairs pairs)
          ≡ (if b && secrets_decode pairs then some (with_last ((key, value) ∷ pairs) s) else none)
    go false rest = refl
    go true rest =
        rest
        ∙ ap (λ t. if secrets_decode pairs then some t else none)
            (with_given-twice (last_of reads_issuer pairs) (reads_issuer (key_of key) value)
              (last_of reads_algorithm pairs) (reads_algorithm (key_of key) value)
              (last_of reads_digits pairs) (reads_digits (key_of key) value)
              (last_of reads_period pairs) (reads_period (key_of key) value)
              (last_of reads_secret pairs) (reads_secret (key_of key) value) s)

-- The text before the first colon, and after it; without one there is no issuer, and the account is all.
abbrev pub has_colon : Text → Bool
has_colon path = any (λ c. c == b':') path

abbrev pub before : Text → Text
before [] = []
before (c ∷ cs) = if c == b':' then [] else c ∷ before cs

abbrev pub after : Text → Text
after [] = []
after (c ∷ cs) = if c == b':' then cs else after cs

abbrev pub issuer_of : Text → Text
issuer_of path = if has_colon path then before path else []

abbrev pub account_of : Text → Text
account_of path = if has_colon path then after path else path

split_once-colon :
    (path : Text)
    → split_once path ≡ (if has_colon path then some (before path, after path) else none)
unfolding split_once
split_once-colon [] = refl
split_once-colon (c ∷ cs) = ground (arith, split_once-colon cs)

-- The parameters of a path and the pairs of a query, if there is a secret.
abbrev pub described : Text → List (Text × Text) → Option (List ℕ) → Option TotpParams
described path pairs none = none
described path pairs (some bytes) = some (record {
  secret = bytes;
  algorithm = or_kept (last_of reads_algorithm pairs) sha1;
  digits = or_kept (last_of reads_digits pairs) 6;
  period = or_kept (last_of reads_period pairs) 30;
  issuer = or_kept (last_of reads_issuer pairs) (issuer_of path);
  account_name = account_of path;
})

finish-described :
    (path : Text) (pairs : List (Text × Text))
    → finish (with_last pairs (labelled path (split_once path), none))
      ≡ described path pairs (last_of reads_secret pairs)
finish-described path pairs =
    ap (λ s. finish (with_last pairs (labelled path s, none))) (split_once-colon path)
    ∙ go (has_colon path) (last_of reads_secret pairs)
  where
    go :
        (b : Bool) (secret : Option (List ℕ))
        → finish (
            with_given
              (last_of reads_issuer pairs)
              (last_of reads_algorithm pairs)
              (last_of reads_digits pairs)
              (last_of reads_period pairs)
              secret
              (labelled path (if b then some (before path, after path) else none), none))
          ≡ elim secret [
            | none ↦ none
            | some bytes ↦ some (record {
              secret = bytes;
              algorithm = or_kept (last_of reads_algorithm pairs) sha1;
              digits = or_kept (last_of reads_digits pairs) 6;
              period = or_kept (last_of reads_period pairs) 30;
              issuer = or_kept (last_of reads_issuer pairs) (if b then before path else []);
              account_name = if b then after path else path;
            })
          ]
    go true none = refl
    go true (some bytes) = refl
    go false none = refl
    go false (some bytes) = refl

-- For a text that the URL parser reads: parse_uri gives parameters exactly when the scheme is otpauth,
-- the host totp, every secret of the query Base32, and there is one; then the secret is the last one,
-- and every other parameter the last value given for it that reads, or else a default: of the decoded
-- path, the text before its first colon for the issuer, which is empty without one; SHA-1, 6 digits and
-- 30 seconds. The account is the text after that colon, or the whole path.
pub parse_uri-last :
    (url_parse : Text → Option Url) (as_bytes : Text → List ℕ) (from_utf8_lossy : List ℕ → Text)
    (uri : Text) (parsed : Url)
    → url_parse uri ≡ some parsed
    → parse_uri as_bytes from_utf8_lossy url_parse uri ≡ (
        if eq_text parsed.scheme (codes "otpauth") && is_text parsed.host_str (codes "totp")
        then (if secrets_decode parsed.query_pairs
            then described
                (percent_decode as_bytes from_utf8_lossy (trim_slashes parsed.path))
                parsed.query_pairs
                (last_of reads_secret parsed.query_pairs)
            else none)
        else none)
unfolding parse_uri label
parse_uri-last url_parse as_bytes from_utf8_lossy uri parsed h = rw h (
    ap
      (λ r.
        if eq_text parsed.scheme (codes "otpauth") && is_text parsed.host_str (codes "totp")
        then r
        else none)
      (ap (λ r. r >>=? finish)
          (set_pairs-last parsed.query_pairs (label as_bytes from_utf8_lossy parsed, none))
        ∙ pushed (secrets_decode parsed.query_pairs)))
  where
    pushed :
        (b : Bool)
        → ((if b
              then some (with_last parsed.query_pairs (label as_bytes from_utf8_lossy parsed, none))
              else none)
            >>=? finish)
          ≡ (if b
              then described
                  (percent_decode as_bytes from_utf8_lossy (trim_slashes parsed.path))
                  parsed.query_pairs
                  (last_of reads_secret parsed.query_pairs)
              else none)
    pushed true =
        finish-described (percent_decode as_bytes from_utf8_lossy (trim_slashes parsed.path))
          parsed.query_pairs
    pushed false = refl
