-- ===== src/Registry.antt =====
-- github_automation/registry.py. A `RegistryError` is none, and so is the `TypeError` of a value that
-- cannot be looked up in a set.
pub mod Entries
pub mod Laws
mod Tests
use self_hosted_ci.Prelude.{
  ℕ, suc, zero, String, Bool, true, false, not, ◌&&◌, ◌||◌, Option, none, some, List, [], ◌∷◌,
  length, ltb, ◌==◌, if◌then◌else◌, is_none, is_some, exists, nat_eq, string_eq,
}
use self_hosted_ci.Json.{
  Json, num, text, arr, obj, Items, nil, cons, Fields, end, field, get, is_num, is_text, or_null,
}
use self_hosted_ci.Texts.{is_digest, is_owner_repository, mentions_code, has_content}

pub record RepositoryConfig : Type 0 where
  pub repository : String
  pub ci_runner : String
  pub ai_reviewer : String
  pub execution_trust : Option Fields
  pub authority : Option Fields

-- the dictionary `repositories`
abbrev pub Registry : Type 0
Registry = List (String × RepositoryConfig)

-- `k in {…}`
abbrev is_one_of : List String → String → Bool
is_one_of allowed k = exists (λ a. a == k) allowed

-- `_reject_unknown`
abbrev pub all_known : List String → Fields → Bool
all_known allowed end = true
all_known allowed (field k x fs) = is_one_of allowed k && all_known allowed fs

-- `_reject_duplicate_keys`, for every object of a text
mutual
  pub no_duplicates : Json → Bool
  no_duplicates (obj fs) = no_duplicate_fields fs
  no_duplicates (arr xs) = no_duplicate_items xs
  no_duplicates (Json.null) = true
  no_duplicates (Json.bool b) = true
  no_duplicates (Json.num n) = true
  no_duplicates (Json.text s) = true

  pub no_duplicate_items : Items → Bool
  no_duplicate_items nil = true
  no_duplicate_items (cons x xs) = no_duplicates x && no_duplicate_items xs

  pub no_duplicate_fields : Fields → Bool
  no_duplicate_fields end = true
  no_duplicate_fields (field k x fs) =
      not (is_some (get k fs)) && no_duplicates x && no_duplicate_fields fs

-- `_require_mapping`
abbrev pub mapping : Option Json → Option Fields
mapping (some (obj fs)) = some fs
mapping _ = none

-- `value is None`
abbrev pub is_null : Option Json → Bool
is_null none = true
is_null (some (Json.null)) = true
is_null (some _) = false

-- a positive integer that is no boolean
abbrev pub is_positive : Option Json → Bool
is_positive (some (num n)) = ltb 0 n
is_positive _ = false

abbrev pub is_text_with : (String → Bool) → Option Json → Bool
is_text_with test (some (text s)) = test s
is_text_with test _ = false

-- `_validate_repository_name`
abbrev pub is_repository_name : String → Bool
is_repository_name s = not (mentions_code b'*' s) && is_owner_repository s

-- `_validate_trust`
unfoldable pub valid_trust : Fields → Bool
valid_trust trust =
    all_known
      ("policy_version" ∷ "mode" ∷ "attestation_authority_version" ∷ "key_manifest_version"
        ∷ "key_manifest_generation" ∷ "key_manifest_digest" ∷ "offline_root_public_fingerprint"
        ∷ "public_key_id" ∷ "public_key_fingerprint" ∷ "inventory_drift_guard" ∷ [])
      trust
    && is_num (get "policy_version" trust) 1
    && is_text (get "mode" trust) "exact-sha-attestation"
    && is_num (get "attestation_authority_version" trust) 1
    && is_num (get "key_manifest_version" trust) 1
    && is_text (get "inventory_drift_guard" trust) "enabled"
    && is_positive (get "key_manifest_generation" trust)
    && is_text_with is_digest (get "key_manifest_digest" trust)
    && is_text_with is_digest (get "offline_root_public_fingerprint" trust)
    && is_text_with is_digest (get "public_key_fingerprint" trust)
    && is_text_with has_content (get "public_key_id" trust)

abbrev pub is_exact_group : String → Bool
is_exact_group s = has_content s && not (mentions_code b'*' s)

-- `_validate_authority`
unfoldable pub valid_authority : Fields → Bool
valid_authority authority =
    all_known ("kind" ∷ "installation_id" ∷ "runner_group" ∷ []) authority
    && is_positive (get "installation_id" authority)
    && (if is_text (get "kind" authority) "personal-repository"
        then is_null (get "runner_group" authority)
        else is_text (get "kind" authority) "organization-runner-group"
          && is_text_with is_exact_group (get "runner_group" authority))

-- the two mappings of a local entry
abbrev pub local_config : String → String → Option Fields → Option Fields → Option RepositoryConfig
local_config repository reviewer (some trust) (some authority) =
    if valid_trust trust && valid_authority authority
    then some (record {
      repository = repository;
      ci_runner = "local-with-github-fallback";
      ai_reviewer = reviewer;
      execution_trust = some trust;
      authority = some authority;
    })
    else none
local_config _ _ _ _ = none

abbrev pub hosted : String → String → RepositoryConfig
hosted repository reviewer = record {
  repository = repository;
  ci_runner = "github";
  ai_reviewer = reviewer;
  execution_trust = none;
  authority = none;
}

abbrev config : String → Fields → String → Option RepositoryConfig
config repository item reviewer =
    if is_text (get "ci_runner" item) "github"
    then (if is_null (get "execution_trust" item) && is_null (get "authority" item)
        then some (hosted repository reviewer)
        else none)
    else if is_text (get "ci_runner" item) "local-with-github-fallback"
    then local_config repository reviewer (mapping (get "execution_trust" item))
        (mapping (get "authority" item))
    else none

-- `_parse_repository`
unfoldable pub parse_repository : String → Json → Option RepositoryConfig
parse_repository repository value = elim (mapping (some value)) [
  | none ↦ none
  | some item ↦
      if not (all_known ("ci_runner" ∷ "ai_reviewer" ∷ "execution_trust" ∷ "authority" ∷ []) item)
      then none
      else if is_text (get "ai_reviewer" item) "enabled"
      then config repository item "enabled"
      else if is_text (get "ai_reviewer" item) "disabled"
      then config repository item "disabled"
      else none
]

-- the loop of `from_mapping`
unfoldable pub parse_entries : Fields → Option Registry
parse_entries end = some []
parse_entries (field repository value entries) =
    let rest = parse_entries entries in
    if not (is_repository_name repository) then none else elim (parse_repository repository value) [
      | none ↦ none
      | some c ↦ elim rest [ none ↦ none | some registry ↦ some ((repository, c) ∷ registry) ]
    ]

unfoldable pub from_mapping : Json → Option Registry
from_mapping data_ = elim (mapping (some data_)) [
  | none ↦ none
  | some top ↦
      if not (all_known ("$schema" ∷ "registry_schema_version" ∷ "repositories" ∷ []) top)
        || not (is_num (get "registry_schema_version" top) 1)
      then none
      else elim (mapping (get "repositories" top)) [
        | none ↦ none
        | some entries ↦ parse_entries entries
      ]
]

-- `from_json`, of what the decoder reads: an object with every pair of its text
unfoldable pub from_json : Option Json → Option Registry
from_json none = none
from_json (some value) = if no_duplicates value then from_mapping value else none

abbrev pub entry : String → Registry → Option RepositoryConfig
entry k [] = none
entry k ((name, c) ∷ registry) = if name == k then some c else entry k registry

abbrev or_default : RepositoryConfig → Option RepositoryConfig → RepositoryConfig
or_default d none = d
or_default d (some c) = c

-- `Registry.resolve`
unfoldable pub resolve : Registry → String → Option RepositoryConfig
resolve registry repository =
    if is_repository_name repository
    then some (or_default (hosted repository "disabled") (entry repository registry))
    else none

-- `local_requested`
abbrev pub local_requested : RepositoryConfig → Bool
local_requested c = c.ci_runner == "local-with-github-fallback"
