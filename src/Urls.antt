-- ===== src/Urls.antt =====
-- AutoFill's matching of sites to domains (crates/keys-engine/src/url_matcher.rs). Text is its list of
-- code points. The URL parser, the public suffix list and the Unicode tables of the standard library are
-- parameters.
pub mod Labels
pub mod Agree
pub mod Tests
use keys_core.Base.{
  ℕ, zero, suc, ◌-◌, Bool, true, false, Option, none, some, List, [], ◌∷◌, ◌++◌, ◌==◌, ◌||◌, not,
  leb, if◌then◌else◌, ◌>>=?◌, codes, length, any,
}

abbrev pub Text : Type 0
Text = List ℕ

-- `url::Host`, the addresses as the text that they are shown as.
pub data UrlHost : Type 0 where
  ipv4 ipv6 domain : Text → UrlHost

-- `text.split('.')`
abbrev pub onto_head : ℕ → List Text → List Text
onto_head c [] = (c ∷ []) ∷ []
onto_head c (l ∷ ls) = (c ∷ l) ∷ ls

unfoldable pub split_dots : Text → List Text
split_dots [] = [] ∷ []
split_dots (c ∷ cs) = let rest = split_dots cs in if c == b'.' then [] ∷ rest else onto_head c rest

-- `labels.join(".")`
unfoldable pub join_dots : List Text → Text
join_dots [] = []
join_dots (l ∷ []) = l
join_dots (l ∷ m ∷ ls) = l ++ b'.' ∷ join_dots (m ∷ ls)

unfoldable pub strip_prefix : Text → Text → Option Text
strip_prefix [] t = some t
strip_prefix (c ∷ cs) [] = none
strip_prefix (c ∷ cs) (d ∷ t) = let rest = strip_prefix cs t in if c == d then rest else none

abbrev unwrap_or : Option Text → Text → Text
unwrap_or none t = t
unwrap_or (some s) t = s

abbrev pub is_empty : Text → Bool
is_empty [] = true
is_empty (c ∷ cs) = false

abbrev is_found : Option Text → Bool
is_found none = false
is_found (some t) = true

-- `text.contains("://")`
unfoldable pub contains_scheme : Text → Bool
unfolding strip_prefix
contains_scheme [] = false
contains_scheme (c ∷ cs) = is_found (strip_prefix (codes "://") (c ∷ cs)) || contains_scheme cs

-- `host.contains('.')`
unfoldable pub contains_dot : Text → Bool
contains_dot [] = false
contains_dot (c ∷ cs) = let rest = contains_dot cs in if c == b'.' then true else rest

pub data Host : Type 0 where
  named ip : Text → Host

-- What the module takes of others.
pub record Crates (Url : Type 0) : Type 0 where
  pub trim : Text → Text
  pub to_lowercase : Text → Text
  pub parse : Text → Option Url
  pub host : Url → Option UrlHost
  -- `origin().ascii_serialization()` of an origin that is a tuple
  pub tuple_origin : Url → Option Text
  -- `psl::List.domain`
  pub psl_domain : Text → Option Text

module _ {Url : Type 0} (c : Crates Url) where
  unfoldable pub parse_with_default_scheme : Text → Option Url
  unfolding contains_scheme
  parse_with_default_scheme s =
      let trimmed = c.trim s in
      if is_empty trimmed
      then none
      else (if contains_scheme trimmed
          then c.parse trimmed
          else c.parse (codes "https://" ++ trimmed))

  abbrev of_domain : Text → Option Host
  of_domain lowered =
      let host = unwrap_or (strip_prefix (codes "www.") lowered) lowered in
      if is_empty host || any is_empty (split_dots host) then none else some (named host)

  abbrev of_host : Option UrlHost → Option Host
  of_host none = none
  of_host (some (ipv4 a)) = some (ip a)
  of_host (some (ipv6 a)) = some (ip a)
  of_host (some (domain d)) = of_domain (c.to_lowercase d)

  unfoldable pub site_host : Url → Option Host
  unfolding strip_prefix split_dots
  site_host parsed = of_host (c.host parsed)

  unfoldable pub normalise_host : Text → Option Host
  unfolding parse_with_default_scheme site_host
  normalise_host s = parse_with_default_scheme s >>=? site_host

  -- The loop of `domain_candidates`, on the labels from `start` on.
  unfoldable pub walk : ℕ → List Text → List Text
  unfolding join_dots
  walk labels [] = if leb labels 0 then [] ∷ [] else []
  walk labels (p ∷ parts) =
      let rest = walk labels parts in
      if leb labels (length (p ∷ parts))
      then join_dots (p ∷ parts) ∷ (if length (p ∷ parts) == labels then [] else rest)
      else []

  abbrev of_registrable : Text → Option Text → List Text
  of_registrable host none = host ∷ []
  of_registrable host (some reg) = walk (length (split_dots reg)) (split_dots host)

  abbrev candidates_of : Option Host → List Text
  candidates_of none = []
  candidates_of (some (ip a)) = a ∷ []
  candidates_of (some (named host)) = of_registrable host (c.psl_domain host)

  unfoldable pub domain_candidates : Text → List Text
  unfolding normalise_host walk split_dots
  domain_candidates s = candidates_of (normalise_host s)

  abbrev credential_of : Host → Option Text
  credential_of (ip a) = some a
  credential_of (named host) = elim (c.psl_domain host) [
    | some registrable ↦ some registrable
    | none ↦ if contains_dot host then none else some host
  ]

  unfoldable pub credential_domain : Text → Option Text
  unfolding normalise_host contains_dot
  credential_domain s = normalise_host s >>=? credential_of

  unfoldable pub origin : Text → Option Text
  unfolding parse_with_default_scheme site_host
  origin s =
      parse_with_default_scheme s >>=? λ parsed. site_host parsed >>=? λ host. c.tuple_origin parsed
