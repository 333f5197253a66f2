-- ===== src/Urls/Tests.antt =====
-- A site with a mobile page (crates/keys-engine/src/url_matcher.rs).
use keys_core.Base.{
  Option, none, some, List, [], ◌∷◌, ◌++◌, ◌==◌, ◌≡◌, refl, arith, map, Bool-cases, inl, inr,
  if◌then◌else◌, codes,
}
use keys_core.Urls.{
  Text, Crates, domain, named, split_dots, join_dots, strip_prefix, contains_scheme, contains_dot,
  parse_with_default_scheme, site_host, normalise_host, walk, domain_candidates, credential_domain,
}
use keys_core.Urls.Labels.{ends_from, last}
use keys_core.Urls.Agree.{IsSuffixList, domain_candidates-ends, credential_domain-last}

-- One letter and a dot stand in front of a registrable domain.
short_label : Text → Option Text
short_label [] = none
short_label (a ∷ []) = none
short_label (a ∷ d ∷ rest) = if d == b'.' then some rest else none

-- A URL is its host.
abbrev crates : Crates Text
crates = record {
  trim = λ t. t;
  to_lowercase = λ t. t;
  parse = λ t. strip_prefix (codes "https://") t;
  host = λ u. some (domain u);
  tuple_origin = λ u. none;
  psl_domain = short_label;
}

crates-IsSuffixList : IsSuffixList crates
unfolding short_label split_dots
crates-IsSuffixList [] reg h = cc
crates-IsSuffixList (a ∷ []) reg h = cc
crates-IsSuffixList (a ∷ d ∷ rest) reg h = elim (Bool-cases (d == b'.')) [
  | inr other ↦ absurd (ground arith)
  | inl dot ↦
      let same : rest ≡ reg = ground arith in
      elim (Bool-cases (a == b'.')) [
        | inl two ↦ ([] ∷ [] ∷ [], rw (two, dot, ← same) refl)
        | inr one ↦ ((a ∷ []) ∷ [], rw (one, dot, ← same) refl)
      ]
]

page : normalise_host crates (codes "m.example.com") ≡ some (named (codes "m.example.com"))
unfolding normalise_host parse_with_default_scheme site_host strip_prefix contains_scheme split_dots
page = refl

candidates :
    domain_candidates crates (codes "www.m.example.com")
    ≡ codes "m.example.com" ∷ codes "example.com" ∷ []
unfolding domain_candidates normalise_host parse_with_default_scheme site_host strip_prefix
    contains_scheme split_dots walk join_dots short_label
candidates = refl

domain_candidates-ends_example :
    (pre : List Text) × (split_dots (codes "m.example.com")
      ≡ pre ++ split_dots (codes "example.com"))
    × (domain_candidates crates (codes "m.example.com")
        ≡ map join_dots (ends_from pre (split_dots (codes "example.com"))))
unfolding short_label
domain_candidates-ends_example =
    domain_candidates-ends crates (codes "m.example.com") (codes "m.example.com")
      (codes "example.com") crates-IsSuffixList page refl

filed : credential_domain crates (codes "m.example.com") ≡ some (codes "example.com")
unfolding credential_domain normalise_host parse_with_default_scheme site_host strip_prefix
    contains_scheme split_dots contains_dot short_label
filed = refl

credential_domain-last_example :
    last (domain_candidates crates (codes "m.example.com")) ≡ some (codes "example.com")
credential_domain-last_example =
    credential_domain-last crates (codes "m.example.com") (codes "example.com") crates-IsSuffixList
      filed
