-- ===== src/Coordinator/Packages.antt =====
-- The mappings that `outbound_local_dispatch` reads and builds, and the tests on them.
use Prim.Native.String.{String}
use self_hosted_ci.Prelude.{
  ℕ, Bool, true, false, ◌&&◌, Option, none, some, List, [], ◌∷◌, ltb, ◌==◌, if◌then◌else◌, is_some,
  nat_eq, string_eq,
}
use self_hosted_ci.Json.{
  count, or_null, Json, Fields, null, num, text, end, field, get, put, merge, is_text,
}

-- what the function reads of the durable `resume`; a window that is not two texts is `none`
pub record Resume : Type 0 where
  pub reserved : Option Fields
  pub phase : Option String
  pub run_id : Option Json
  pub window : Option (String × String)
  pub finalized : Bool

abbrev pub in_phase : Resume → String → Bool
in_phase r t = elim r.phase [ none ↦ false | some s ↦ s == t ]

-- `d.pop(k, None)`
unfoldable pub remove : String → Fields → Fields
remove k end = end
remove k (field j v fs) = let rest = remove k fs in if j == k then rest else field j v rest

abbrev pub text_of : Option Json → String
text_of (some (text s)) = s
text_of _ = ""

-- the test of `_assert_exact_recovery`
unfoldable pub proves_absence : Fields → String → Bool
proves_absence recovered id =
    count recovered == 2
    && is_text (get "allocation_id" recovered) id
    && is_text (get "state" recovered) "absent"

abbrev pub set_null : List String → Fields → Fields
set_null [] value = value
set_null (k ∷ ks) value = set_null ks (put k null value)

-- the mapping of `github_hosted_fallback`
unfoldable pub hosted_value : Fields → Fields
hosted_value draft =
    set_null
      ("allocation_id" ∷ "allocation_nonce" ∷ "runner_label" ∷ "key_manifest_generation_at_issuance"
        ∷ "key_manifest_digest_at_issuance" ∷ "attestation_id" ∷ "attestation_key_id"
        ∷ "attestation_key_version" ∷ "attestation_public_key_fingerprint"
        ∷ "attestation_head_generation" ∷ "attestation_expires_at" ∷ "attestation_nonce_binding"
        ∷ "attestation_envelope_digest" ∷ "attestation_request_linkage_hash" ∷ "local_admission_id"
        ∷ "local_admission_digest" ∷ "local_evidence_id" ∷ "local_evidence_digest"
        ∷ "local_result_kind" ∷ "local_child_run_id" ∷ "local_child_job_id"
        ∷ "started_test_marker_digest" ∷ "canonical_command_digest" ∷ "terminal_at"
        ∷ "check_outbox_idempotency_key" ∷ [])
      (merge draft
        (field "backend" (text "github") (field "execution_trust_mode" (text "github-hosted") end)))

-- the local variables that the handler reads; an unbound `resumed_run_id` is `none`
pub record Locals : Type 0 where
  pub receipt_ambiguous : Bool
  pub resumed_run_id : Option (Option Json)

abbrev pub is_run_id : Json → Option ℕ
is_run_id (num n) = if ltb 0 n then some n else none
is_run_id _ = none

-- a value that is `None`, or missing
abbrev pub is_null : Option Json → Bool
is_null none = true
is_null (some null) = true
is_null _ = false

abbrev pub exact_reservation : Fields → Bool
exact_reservation reserved =
    count reserved == 4
    && is_some (get "allocation_id" reserved)
    && is_some (get "scale_set_id" reserved)
    && is_some (get "runner_label" reserved)
    && is_text (get "state" reserved) "reserved-disabled"

-- `local`
abbrev pub local_draft : Fields → Fields → Fields → Fields
local_draft request reservation held = merge request (
    field "allocation_id" (or_null (get "allocation_id" held)) (
      field "allocation_nonce" (or_null (get "nonce" reservation))
        (field "runner_label" (or_null (get "runner_label" held)) end)))
