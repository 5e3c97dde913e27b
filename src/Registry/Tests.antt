-- ===== src/Registry/Tests.antt =====
-- A registry of one local repository.
use self_hosted_ci.Prelude.{String, ◌≡◌, refl, some, [], ◌∷◌, ◌⊎◌}
use self_hosted_ci.Texts.{is_digest, is_owner_repository, mentions_code, has_content}
use self_hosted_ci.Json.{Json, text, num, obj, Fields, end, field, get}
use self_hosted_ci.Registry.{
  RepositoryConfig, valid_trust, valid_authority, parse_repository, parse_entries, from_mapping,
  from_json, resolve, no_duplicates, hosted,
}
use self_hosted_ci.Registry.Laws.{IsHosted, IsLocal, resolve-IsEntry}

abbrev digest : String
digest = "0123456789abcdef0123456789abcdef0123456789abcdef0123456789abcdef"

abbrev trust : Fields
trust = field "policy_version" (num 1) (
    field "mode" (text "exact-sha-attestation") (
      field "attestation_authority_version" (num 1) (
        field "key_manifest_version" (num 1) (
          field "key_manifest_generation" (num 3) (
            field "key_manifest_digest" (text digest) (
              field "offline_root_public_fingerprint" (text digest) (
                field "public_key_id" (text "key-1") (
                  field "public_key_fingerprint" (text digest)
                    (field "inventory_drift_guard" (text "enabled") end)))))))))

abbrev authority : Fields
authority =
    field "kind" (text "organization-runner-group")
      (field "installation_id" (num 9) (field "runner_group" (text "builders") end))

abbrev top : Json
top = obj (
    field "registry_schema_version" (num 1) (
      field "repositories"
        (obj (
          field "acme/app"
            (obj (
              field "ci_runner" (text "local-with-github-fallback") (
                field "ai_reviewer" (text "enabled")
                  (field "execution_trust" (obj trust) (field "authority" (obj authority) end)))))
            end))
        end))

abbrev local_app : RepositoryConfig
local_app = record {
  repository = "acme/app";
  ci_runner = "local-with-github-fallback";
  ai_reviewer = "enabled";
  execution_trust = some trust;
  authority = some authority;
}

resolve-IsEntry_example :
    (local_app.repository ≡ "acme/app") × (IsHosted local_app ⊎ IsLocal local_app)
unfolding from_json from_mapping parse_entries parse_repository valid_trust valid_authority resolve
    no_duplicates get is_digest is_owner_repository mentions_code has_content
resolve-IsEntry_example =
    resolve-IsEntry (some top) (("acme/app", local_app) ∷ []) "acme/app" local_app refl refl

-- another repository is hosted
other_is_hosted :
    resolve (("acme/app", local_app) ∷ []) "acme/other" ≡ some (hosted "acme/other" "disabled")
unfolding resolve is_owner_repository mentions_code
other_is_hosted = refl
