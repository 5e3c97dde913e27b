-- ===== src/Allocation/Tests.antt =====
-- A ledger with one allocation: it is signed and admitted, its job starts and ends, and it is cleaned.
use self_hosted_ci.Allocation.Nonces.{nonce_used_once, enters}
use self_hosted_ci.Allocation.Uniqueness.{recoverable_ids-Open}
use self_hosted_ci.Allocation.Steps.{Later}
use self_hosted_ci.Allocation.Starts.{starts_once}
use self_hosted_ci.Allocation.Signing.{verify_allocation-IsTimely, IsTimely, verify-sign}
use self_hosted_ci.Prelude.{
  ℕ, ◌≡◌, refl, String, true, false, none, some, List, [], ◌∷◌, ◌==◌, if◌then◌else◌, is_some,
  lookup, update, exists, nat_eq, string_eq,
}
use self_hosted_ci.Json.{
  Json, num, text, obj, arr, cons, nil, Fields, end, field, get, count, same_json,
}
use self_hosted_ci.Texts.{is_digest, is_positive_decimal, is_repository, is_sha}
use self_hosted_ci.Effects.{gets, ok, ◌>>=◌}
use self_hosted_ci.Allocation.{Services}
use self_hosted_ci.Allocation.Formats.{
  is_workflow_ref, is_nonce, is_transient_label, is_label, is_job_name, take_text, without_z,
  parse_time,
}
use self_hosted_ci.Allocation.Payload.{
  allocation_scale_set_name, read_time, read_deadline, validate_allocation_payload, sign_allocation,
  verify_allocation,
}
use self_hosted_ci.Allocation.Rows.{State, AllocationRow, row_key, Ledger}
use self_hosted_ci.Allocation.Admission.{
  id_of, insert_sorted, recoverable, recoverable_allocation_ids, admit, digests, insert_fresh,
  insert_row,
}
use self_hosted_ci.Allocation.Lifecycle.{
  write, clean, read_times, end_job, columns_of, start, AllocationRecord, decide, Arguments,
  no_arguments, transition,
}
use self_hosted_ci.Allocation.Calls.{Call, admits, transitions, run, empty}
use self_hosted_ci.Allocation.Lives.{absent, running, ◌⟶*◌}
use self_hosted_ci.Allocation.Lives
use self_hosted_ci.Allocation.Histories.{run_preserved, run-refines}

abbrev digest : String
digest = "0123456789abcdef0123456789abcdef0123456789abcdef0123456789abcdef"

abbrev services : Services
services = record {
  canonicalize = λ fields. some (
      if count fields == 2
      then "label"
      else if is_some (get "operation" fields)
      then "key"
      else if count fields == 1
      then "nonce"
      else "body");
  sha256 = λ s. if s == "label" then digest else s;
  loads = λ s. none;
  from_isoformat =
      λ s. if s == "0+00:00" then some 0 else if s == "300+00:00" then some 300000000 else none;
  is_uuid = λ s. s == "allocation-1";
  fingerprint = digest;
  verify = λ fields signature version. true;
  sign = λ fields version. text "signature";
}

abbrev sha : String
sha = "0123456789abcdef0123456789abcdef01234567"

abbrev label : String
label = "wsl-jit-0123456789abcdef0123456789abcdef"

abbrev allocation : Fields
allocation = field "runner_allocation_version" (num 1) (
    field "allocation_id" (text "allocation-1") (
      field "repository_id" (text "7") (
        field "repository" (text "acme/app") (
          field "head_sha" (text sha) (
            field "tested_sha" (text sha) (
              field "dispatch_sha" (text sha) (
                field "workflow_ref" (text "acme/app/.github/workflows/ci.yml@refs/heads/main") (
                  field "run_id" (text "11") (
                    field "run_attempt" (num 1) (
                      field "job_id" (text "12") (
                        field "job_name" (text "unit tests") (
                          field "authority_kind" (text "personal-repository") (
                            field "runner_group" Json.null (
                              field "scale_set_name" (text label) (
                                field "labels" (arr (cons (text label) nil)) (
                                  field "image_fingerprint" (text digest) (
                                    field "nonce"
                                      (text "abcdefghijklmnopqrstuvwxyzABCDEFGHIJKLMNOPQ")
                                      (field "issued_at" (text "0Z") (
                                        field "expires_at" (text "300Z") (
                                          field "max_jobs" (num 1) (
                                            field "ephemeral" (Json.bool true)
                                              end)))))))))))))))))))))

abbrev envelope : Fields
envelope =
    field "payload" (obj allocation)
      (field "signer_fingerprint" (text digest) (field "signature" (text "signature") end))

abbrev row : AllocationRow
row = record {
  allocation_id = "allocation-1";
  binding_digest = "nonce";
  payload_digest = "body";
  state = State.issued;
  outcome = none;
  jobs_started = 0;
  cleanup_complete = false;
  issued_at = some "0Z";
  expires_at = some "300Z";
  claim_deadline = some "300Z";
  recovery_required = false;
  cleanup_pending = false;
  cleanup_idempotency_key = none;
  cleanup_evidence_digest = none;
  payload_json = some "body";
  scale_set_name = some label;
  garm_scale_set_id = none;
  reservation_json = none;
}

signed : (sign_allocation services allocation 60000000 tt).0 ≡ ok envelope
unfolding sign_allocation validate_allocation_payload allocation_scale_set_name read_time
    read_deadline ◌>>=◌ get is_positive_decimal is_repository is_sha is_workflow_ref is_job_name
    is_nonce is_transient_label is_label is_digest take_text without_z parse_time same_json
signed = refl

verified : (verify_allocation services envelope digest 60000000 tt).0 ≡ ok allocation
unfolding verify_allocation validate_allocation_payload allocation_scale_set_name read_time
    read_deadline ◌>>=◌ get is_positive_decimal is_repository is_sha is_workflow_ref is_job_name
    is_nonce is_transient_label is_label is_digest take_text without_z parse_time same_json
verified = refl

abbrev ledger : Ledger
ledger = record { version = 0; allocations = row ∷ []; outcomes = [] }

admitted : admit services envelope digest 60000000 empty ≡ (ok "issued", ledger)
unfolding admit verify_allocation validate_allocation_payload allocation_scale_set_name read_time
    read_deadline digests insert_fresh insert_row lookup ◌>>=◌ get is_positive_decimal is_repository
    is_sha is_workflow_ref is_job_name is_nonce is_transient_label is_label is_digest take_text
    without_z parse_time same_json
admitted = refl

pinned : is_digest digest ≡ true
unfolding is_digest
pinned = refl

verify-sign_example : (verify_allocation services envelope digest 60000000 tt).0 ≡ ok allocation
verify-sign_example =
    verify-sign tt services allocation envelope 60000000 (λ fields version. refl) pinned signed

verify_allocation-IsTimely_example :
    (get "payload" envelope ≡ some (obj allocation)) × IsTimely services allocation 60000000
verify_allocation-IsTimely_example =
    verify_allocation-IsTimely tt services envelope allocation digest 60000000 verified

abbrev job_at : ℕ → Arguments
job_at now = record no_arguments { now = some now }

abbrev succeeded : Arguments
succeeded = record no_arguments { outcome = some "success" }

abbrev calls : List (Services × Call)
calls =
    (services, transitions "allocation-1" "admit-job" (job_at 60000000))
    ∷ (services, transitions "allocation-1" "finish" succeeded)
    ∷ (services, transitions "allocation-1" "cleanup" no_arguments)
    ∷ []

run-refines_example : Lives.issued ⟶* Lives.cleaned 1 (some "success")
unfolding run transition decide start end_job clean read_times write lookup update without_z
    parse_time ◌>>=◌
run-refines_example = run-refines calls ledger "allocation-1" (refl, refl, tt)

abbrev answer : AllocationRecord
answer = record {
  allocation_id = "allocation-1";
  columns = record (columns_of row) { state = State.running; jobs_started = 1 };
  issued_at = 0;
  expires_at = 300000000;
  claim_deadline = 300000000;
}

started : (transition services "allocation-1" "admit-job" (job_at 60000000) ledger).0 ≡ ok answer
unfolding transition decide start read_times write lookup update without_z parse_time ◌>>=◌
started = refl

-- after a job that has ended, a second one is not admitted
starts_once_example : ¬ (
    (transition services "allocation-1" "admit-job" (job_at 70000000) (
      run
        ((services, transitions "allocation-1" "finish" succeeded) ∷ [])
        (transition services "allocation-1" "admit-job" (job_at 60000000) ledger).1)).0
    ≡ ok answer)
starts_once_example =
    starts_once services services ((services, transitions "allocation-1" "finish" succeeded) ∷ [])
      ledger "allocation-1" (job_at 60000000) (job_at 70000000) answer answer (refl, refl, tt)
      started

found : lookup row_key "allocation-1" (row ∷ []) ≡ some row
unfolding lookup
found = refl

run_preserved_example :
    (t : AllocationRow) × (lookup row_key "allocation-1" (run calls ledger).allocations ≡ some t)
    × Later row t
run_preserved_example = run_preserved calls ledger "allocation-1" row (refl, refl, tt) found

-- The envelope is admitted again, while its job runs.
abbrev job_runs : List (Services × Call)
job_runs = (services, transitions "allocation-1" "admit-job" (job_at 60000000)) ∷ []

entered : (admit services envelope digest 60000000 empty).0 ≡ ok "issued"
unfolding admit verify_allocation validate_allocation_payload allocation_scale_set_name read_time
    read_deadline digests insert_fresh insert_row lookup ◌>>=◌ get is_positive_decimal is_repository
    is_sha is_workflow_ref is_job_name is_nonce is_transient_label is_label is_digest take_text
    without_z parse_time same_json
entered = refl

entered_again :
    (admit services envelope digest 70000000
      (run job_runs (admit services envelope digest 60000000 empty).1)).0
    ≡ ok "idempotent"
unfolding run transition decide start read_times write update admit verify_allocation
    validate_allocation_payload allocation_scale_set_name read_time read_deadline digests
    insert_fresh insert_row lookup ◌>>=◌ get is_positive_decimal is_repository is_sha
    is_workflow_ref is_job_name is_nonce is_transient_label is_label is_digest take_text without_z
    parse_time same_json
entered_again = refl

in_envelope : enters (admits envelope digest 60000000) ≡ some allocation
unfolding get
in_envelope = refl

nonce_used_once_example : id_of allocation ≡ id_of allocation
nonce_used_once_example =
    nonce_used_once services (admits envelope digest 60000000) (admits envelope digest 70000000)
      job_runs empty allocation allocation "issued" "idempotent" tt in_envelope in_envelope entered
      entered_again refl

listed : (recoverable_allocation_ids ledger).0 ≡ ok ("allocation-1" ∷ [])
unfolding recoverable_allocation_ids recoverable insert_sorted gets
listed = refl

recoverable_ids-Open_example :
    exists {A = String} (λ k. k == "allocation-1") ("allocation-1" ∷ []) ≡ true
recoverable_ids-Open_example =
    recoverable_ids-Open "allocation-1" ledger ("allocation-1" ∷ []) row (refl, refl, tt) found
      listed
