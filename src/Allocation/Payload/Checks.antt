-- ===== src/Allocation/Payload/Checks.antt =====
-- The fields of allocations and reservations, and the tests of `validate_allocation_payload`.
use self_hosted_ci.Prelude.{
  ℕ, ◌+◌, ◌*◌, String, Bool, true, false, not, ◌&&◌, ◌||◌, Option, some, List, [], ◌∷◌, ◌++◌, ltb,
  leb, if◌then◌else◌, is_some, string_eq, nat_eq,
}
use self_hosted_ci.Json.{
  Json, text, arr, obj, nil, cons, Fields, get, is_num, is_text, is_true, or_null, same_json,
}
use self_hosted_ci.Texts.{is_digest, is_positive_decimal, is_repository, is_sha}
use self_hosted_ci.Registry.{all_known, is_null, is_positive, is_text_with}
use self_hosted_ci.Allocation.{Services}
use self_hosted_ci.Allocation.Formats.{
  is_workflow_ref, is_nonce, is_transient_label, is_label, is_job_name, is_runner_group,
}

abbrev pub all_present : List String → Fields → Bool
all_present [] fields = true
all_present (k ∷ ks) fields = is_some (get k fields) && all_present ks fields

-- `set(fields) == {…}`
abbrev pub has_exactly : List String → Fields → Bool
has_exactly names fields = all_present names fields && all_known names fields

-- the fields that allocations and reservations of both versions have, but for times and versions
abbrev pub bound_fields : List String
bound_fields =
    "allocation_id" ∷ "repository_id" ∷ "repository" ∷ "head_sha" ∷ "workflow_ref" ∷ "job_name"
    ∷ "authority_kind" ∷ "runner_group" ∷ "scale_set_name" ∷ "labels" ∷ "image_fingerprint"
    ∷ "nonce" ∷ "max_jobs" ∷ "ephemeral" ∷ []

-- what a workflow run adds to a reservation
abbrev pub run_fields : List String
run_fields =
    "runner_allocation_version" ∷ "tested_sha" ∷ "dispatch_sha" ∷ "run_id" ∷ "run_attempt"
    ∷ "job_id" ∷ []

abbrev pub pull_fields : List String
pull_fields = "pr_number" ∷ "base_sha" ∷ "approval_issued_at" ∷ "approval_expires_at" ∷ []

-- `LEGACY_RESERVATION_FIELDS` and `RESERVATION_V2_FIELDS`
abbrev pub legacy_reservation_fields : List String
legacy_reservation_fields =
    "allocation_reservation_version" ∷ "issued_at" ∷ "expires_at" ∷ bound_fields

abbrev pub reservation_v2_fields : List String
reservation_v2_fields = "allocation_reservation_version" ∷ pull_fields ++ bound_fields

abbrev pub payload_fields : Bool → List String
payload_fields true = "issued_at" ∷ "expires_at" ∷ run_fields ++ bound_fields
payload_fields false = "issued_at" ∷ "claim_deadline" ∷ pull_fields ++ (run_fields ++ bound_fields)

-- a value that cannot be looked up in `{1, 2}`
abbrev pub is_unhashable : Option Json → Bool
is_unhashable (some (arr xs)) = true
is_unhashable (some (obj fs)) = true
is_unhashable _ = false

abbrev pub is_version : Option Json → Bool
is_version v = is_num v 1 || is_num v 2

-- the checks that raise a `RunnerJitError` each, up to the labels
abbrev pub is_pull : Fields → Bool
is_pull payload =
    is_positive (get "pr_number" payload) && is_text_with is_sha (get "base_sha" payload)

abbrev pub is_authority : Fields → Bool
is_authority payload =
    if is_text (get "authority_kind" payload) "personal-repository"
    then is_null (get "runner_group" payload)
    else is_text (get "authority_kind" payload) "organization-runner-group"
      && is_text_with is_runner_group (get "runner_group" payload)

abbrev pub is_identity : Services → Fields → Bool
is_identity sv payload =
    is_text_with sv.is_uuid (get "allocation_id" payload)
    && is_text_with is_positive_decimal (get "repository_id" payload)
    && is_text_with is_repository (get "repository" payload)
    && is_text_with is_sha (get "head_sha" payload)
    && (not (is_num (get "runner_allocation_version" payload) 2) || is_pull payload)
    && is_text_with is_sha (get "tested_sha" payload)
    && is_text_with is_sha (get "dispatch_sha" payload)
    && is_text_with is_workflow_ref (get "workflow_ref" payload)
    && is_text_with is_positive_decimal (get "run_id" payload)
    && is_text_with is_positive_decimal (get "job_id" payload)
    && is_positive (get "run_attempt" payload)
    && is_text_with is_job_name (get "job_name" payload)
    && is_authority payload

abbrev pub has_label : String → Fields → Bool
has_label name payload =
    is_text (get "scale_set_name" payload) name
    && is_transient_label name
    && same_json (arr (cons (text name) nil)) (or_null (get "labels" payload))
    && is_label name

abbrev pub is_single_job : Fields → Bool
is_single_job payload =
    is_text_with is_digest (get "image_fingerprint" payload)
    && is_text_with is_nonce (get "nonce" payload)
    && is_num (get "max_jobs" payload) 1
    && is_true (get "ephemeral" payload)

-- an interval that is not empty, of `n` minutes at most
abbrev pub lasts : ℕ → ℕ → ℕ → Bool
lasts issued deadline n = ltb issued deadline && leb deadline (issued + n * 60000000)
