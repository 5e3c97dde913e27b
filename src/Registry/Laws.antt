-- ===== src/Registry/Laws.antt =====
-- What a parsed registry answers.
use self_hosted_ci.Prelude.{
  ◌≡◌, refl, subst, String, true, ◌&&◌, ◌⊎◌, Option, none, some, [], ◌∷◌, ◌==◌, nat_eq, string_eq,
  arith, eq_iff, inl, inr, Bool-cases, Option-cases,
}
use self_hosted_ci.Json.{Json, Fields, end, field, get, is_text}
use self_hosted_ci.Registry.{
  RepositoryConfig, Registry, mapping, valid_trust, valid_authority, local_config, hosted, config,
  parse_repository, parse_entries, from_mapping, from_json, entry, or_default, resolve,
}
use self_hosted_ci.Registry.Entries.{
  IsTrust, IsAuthority, valid_trust-IsTrust, valid_authority-IsAuthority, both,
}

pub IsHosted : RepositoryConfig → Type 0
IsHosted c = (c.ci_runner ≡ "github") × (c.execution_trust ≡ none) × (c.authority ≡ none)

pub IsLocal : RepositoryConfig → Type 0
IsLocal c =
    (c.ci_runner ≡ "local-with-github-fallback")
    × ((trust : Fields) × (c.execution_trust ≡ some trust) × IsTrust trust)
    × ((authority : Fields) × (c.authority ≡ some authority) × IsAuthority authority)

-- what a registry may hold for a name
pub IsEntry : String → RepositoryConfig → Type 0
IsEntry name c = (c.repository ≡ name) × (IsHosted c ⊎ IsLocal c)

injected : (c d : RepositoryConfig) → some c ≡ some d → c ≡ d
injected c d e = ground (arith, e)

local-IsEntry :
    (name reviewer : String) (trust authority : Fields)
    → valid_trust trust ≡ true
    → valid_authority authority ≡ true
    → IsEntry name (record {
      repository = name;
      ci_runner = "local-with-github-fallback";
      ai_reviewer = reviewer;
      execution_trust = some trust;
      authority = some authority;
    })
unfolding IsEntry IsLocal
local-IsEntry name reviewer trust authority e e' = (
  refl,
  inr (
    refl,
    (trust, refl, valid_trust-IsTrust trust e),
    (authority, refl, valid_authority-IsAuthority authority e'),
  ),
)

local_config-IsEntry :
    (name reviewer : String) (trust authority : Option Fields) (c : RepositoryConfig)
    → local_config name reviewer trust authority ≡ some c
    → IsEntry name c
local_config-IsEntry name reviewer none authority c e = absurd (ground arith)
local_config-IsEntry name reviewer (some trust) none c e = absurd (ground arith)
local_config-IsEntry name reviewer (some trust) (some authority) c e =
    elim (Bool-cases (valid_trust trust && valid_authority authority)) [
      | inl valid ↦
          let (t, a) = both _ _ valid in
          subst (IsEntry name) (injected _ c (ground (arith, e)))
            (local-IsEntry name reviewer trust authority t a)
      | inr invalid ↦ absurd (ground (arith, e))
    ]

hosted-IsEntry : (name reviewer : String) → IsEntry name (hosted name reviewer)
unfolding IsEntry IsHosted
hosted-IsEntry name reviewer = (refl, inl (refl, refl, refl))

config-IsEntry :
    (name : String) (item : Fields) (reviewer : String) (c : RepositoryConfig)
    → config name item reviewer ≡ some c
    → IsEntry name c
config-IsEntry name item reviewer c e =
    elim (Bool-cases (is_text (get "ci_runner" item) "github")) [
      | inl at_github ↦
          subst (IsEntry name) (injected (hosted name reviewer) c (ground (arith, e)))
            (hosted-IsEntry name reviewer)
      | inr elsewhere ↦
          local_config-IsEntry name reviewer (mapping (get "execution_trust" item))
            (mapping (get "authority" item)) c (ground (arith, e))
    ]

parse_repository-IsEntry :
    (name : String) (value : Json) (c : RepositoryConfig)
    → parse_repository name value ≡ some c
    → IsEntry name c
unfolding parse_repository
parse_repository-IsEntry name value c e = elim (Option-cases (mapping (some value))) [
  | inl missing ↦ absurd (ground (arith, e))
  | inr (item, is_item) ↦ elim (Bool-cases (is_text (get "ai_reviewer" item) "enabled")) [
    | inl enabled ↦ config-IsEntry name item "enabled" c (ground (arith, e))
    | inr other ↦ config-IsEntry name item "disabled" c (ground (arith, e))
  ]
]

same : (a b : Registry) → some a ≡ some b → a ≡ b
same a b e = ground (arith, e)

AllEntries : Registry → Type 0
AllEntries [] = Unit
AllEntries ((name, c) ∷ registry) = IsEntry name c × AllEntries registry

parse_entries-AllEntries :
    (entries : Fields) (registry : Registry)
    → parse_entries entries ≡ some registry
    → AllEntries registry
unfolding parse_entries AllEntries
parse_entries-AllEntries end registry e = subst AllEntries (same [] registry e) tt
parse_entries-AllEntries (field name value entries) registry e =
    elim (Option-cases (parse_repository name value)) [
      | inl refused ↦ absurd (ground (arith, e))
      | inr (c, parsed) ↦ elim (Option-cases (parse_entries entries)) [
        | inl refused ↦ absurd (ground (arith, e))
        | inr (others, rest) ↦
            subst AllEntries (same ((name, c) ∷ others) registry (ground (arith, e))) (
              parse_repository-IsEntry name value c parsed,
              parse_entries-AllEntries entries others rest,
            )
      ]
    ]

or_default-IsEntry :
    (registry : Registry) (name : String)
    → AllEntries registry
    → IsEntry name (or_default (hosted name "disabled") (entry name registry))
unfolding AllEntries
or_default-IsEntry [] name h = hosted-IsEntry name "disabled"
or_default-IsEntry ((k, c) ∷ registry) name h = elim (Bool-cases (k == name)) [
  | inl here ↦ rw here (subst (λ n. IsEntry n c) ((eq_iff k name).0 here) h.0)
  | inr elsewhere ↦ rw elsewhere (or_default-IsEntry registry name h.1)
]

from_mapping-AllEntries :
    (value : Json) (registry : Registry) → from_mapping value ≡ some registry → AllEntries registry
unfolding from_mapping
from_mapping-AllEntries value registry e = elim (Option-cases (mapping (some value))) [
  | inl missing ↦ absurd (ground (arith, e))
  | inr (top, is_top) ↦ elim (Option-cases (mapping (get "repositories" top))) [
    | inl missing ↦ absurd (ground (arith, e))
    | inr (entries, is_entries) ↦ parse_entries-AllEntries entries registry (ground (arith, e))
  ]
]

-- What a loaded registry resolves a repository to has the repository's name and is one of two: hosted,
-- with neither trust nor authority; or local, with trust of the one exact mode, digests, a positive
-- generation and a key, and with the authority of the repository itself or of one named group of
-- runners.
pub resolve-IsEntry :
    (value : Option Json) (registry : Registry) (name : String) (c : RepositoryConfig)
    → from_json value ≡ some registry
    → resolve registry name ≡ some c
    → (c.repository ≡ name) × (IsHosted c ⊎ IsLocal c)
unfolding from_json resolve IsEntry
resolve-IsEntry none registry name c e e' = absurd (ground arith)
resolve-IsEntry (some value) registry name c e e' =
    let all = from_mapping-AllEntries value registry (ground (arith, e)) in
    subst (IsEntry name) (injected _ c (ground (arith, e'))) (or_default-IsEntry registry name all)
