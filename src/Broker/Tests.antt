-- ===== src/Broker/Tests.antt =====
-- A broker of one allocation, with a driver that finds no scale set and whose world is its clock.
use self_hosted_ci.Prelude.{
  ℕ, ◌+◌, ◌≡◌, refl, String, true, false, none, some, [], ◌∷◌, ◌==◌, if◌then◌else◌, is_some, lookup,
  update, nat_eq, string_eq, arith,
}
use self_hosted_ci.Json.{Json, num, text, obj, Fields, end, field, get, merge, same_json}
use self_hosted_ci.Effects.{ok, err, Act, ◌>>=◌, attempt, rescue, translate, gets}
use self_hosted_ci.Effects.Raised.{raised}
use self_hosted_ci.Allocation.{Services}
use self_hosted_ci.Allocation.Formats.{without_z, parse_time}
use self_hosted_ci.Allocation.Rows.{State, AllocationRow, row_key}
use self_hosted_ci.Allocation.Admission as Admission
use self_hosted_ci.Allocation.Admission.{
  insert_sorted, recoverable, recoverable_allocation_ids, read_object, scale_set_binding,
  bind_scale_set,
}
use self_hosted_ci.Allocation.Lifecycle.{
  transition, get_record, read_times, decide, start, end_job, clean, fence, cleanup_key,
  acknowledge, is_evidence, write,
}
use self_hosted_ci.Broker.{Failure, driver_error, is_exception, Driver, Broker, on_ledger, outside}
use self_hosted_ci.Broker as Broker
use self_hosted_ci.Broker.Recovery as Recovery
use self_hosted_ci.Broker.Recovery.{
  text_at, delete_exact, delete_known, binding_of, find_bound, settle_record, recover, recover_each,
  recover_all, finish, wait_for_cleanup, converge, after_measurement,
}
use self_hosted_ci.Broker.Jobs.{
  Policy, mismatched, wait_for_observation, after_observation, admit_job, disable_in_time,
  prove_and_admit, job_started, context_fields,
}
use self_hosted_ci.Broker.Guarantees.{IsCleaned, recover_all-IsCleaned, finish-IsCleaned}
use self_hosted_ci.Broker.Starting.{Begun, job_started-Begun}
use self_hosted_ci.Broker.Waiting.{IsClock, IsObservation, wait_for_observation_ends}

abbrev id : String
id = "allocation-1"

abbrev payload : Fields
payload = field "repository_id" (text "7") (
    field "repository" (text "acme/app") (
      field "dispatch_sha" (text "dispatch") (
        field "tested_sha" (text "tested") (
          field "workflow_ref" (text "ci.yml") (
            field "run_id" (text "11") (
              field "run_attempt" (num 1) (
                field "job_name" (text "unit tests")
                  (field "scale_set_name" (text "label") end))))))))

abbrev services : Services
services = record {
  canonicalize = λ fields. some (if is_some (get "operation" fields) then "key" else "evidence");
  sha256 = λ s. s;
  loads = λ s. some (obj payload);
  from_isoformat =
      λ s. if s == "0+00:00" then some 0 else if s == "300+00:00" then some 300000000 else none;
  is_uuid = λ s. true;
  fingerprint = "";
  verify = λ fields signature version. true;
  sign = λ fields version. text "signature";
}

abbrev row : AllocationRow
row = record {
  allocation_id = id;
  binding_digest = "nonce";
  payload_digest = "body";
  state = State.issued;
  outcome = none;
  jobs_started = 0;
  cleanup_complete = false;
  issued_at = some "0Z";
  expires_at = some "300Z";
  claim_deadline = some "300Z";
  recovery_required = false;
  cleanup_pending = false;
  cleanup_idempotency_key = none;
  cleanup_evidence_digest = none;
  payload_json = some "body";
  scale_set_name = some "label";
  garm_scale_set_id = some "5";
  reservation_json = none;
}

abbrev measurements : Fields
measurements = field "registration_removed" (Json.bool true) (
    field "workspace_removed" (Json.bool true) (
      field "token_removed" (Json.bool true) (
        field "container_removed" (Json.bool true) (
          field "allocation_removed" (Json.bool true) (field "orphan_registrations" (num 0) end)))))

-- nothing is done
abbrev idle : Act Failure ℕ (Unit {0})
idle w = (ok tt, w)

abbrev driver : Driver ℕ
driver = record {
  assert_no_persistent_scale_set = idle;
  ensure_disabled_scale_set = λ fields w. (ok "5", w);
  bind_signed_allocation = λ scale_set fields envelope. idle;
  find_scale_set = λ name w. (ok none, w);
  enable_scale_set = λ scale_set name. idle;
  assert_runner_claim = λ scale_set name runner fields remaining. idle;
  disable_scale_set = λ scale_set name timeout. idle;
  drain_scale_set = λ scale_set name. idle;
  delete_scale_set = λ scale_set name. idle;
  assert_scale_set_absent = λ name. idle;
  measure_cleanup = λ allocation name w. (ok measurements, w);
  assert_runtime_empty = idle;
  verify_live_job = λ fields context remaining. idle;
  monotonic = λ w. (ok w, w);
  sleep = λ n w. (ok tt, w + n);
}

abbrev state : Broker.State ℕ
state = record {
  ledger = record { version = 3; allocations = row ∷ []; outcomes = [] };
  world = 60000000;
}

found : lookup row_key id (row ∷ []) ≡ some row
unfolding lookup
found = refl

recovered : (recover_all services driver state).0 ≡ ok (id ∷ [])
unfolding recover_all recover_each recover recoverable_allocation_ids recoverable insert_sorted gets
    on_ledger outside binding_of find_bound delete_known delete_exact settle_record
    Recovery.acknowledge text_at rescue attempt Admission.payload read_object scale_set_binding
    transition decide fence cleanup_key acknowledge is_evidence get_record read_times write lookup
    update merge get without_z parse_time ◌>>=◌
recovered = refl

recover_all-IsCleaned_example : IsCleaned id (recover_all services driver state).1.ledger
recover_all-IsCleaned_example =
    recover_all-IsCleaned services driver state id row (id ∷ []) (refl, refl, tt) found recovered

abbrev context : Fields
context = field "repository_id" (text "7") (
    field "repository" (text "acme/app") (
      field "dispatch_sha" (text "dispatch") (
        field "tested_sha" (text "tested") (
          field "workflow_ref" (text "ci.yml") (
            field "run_id" (text "11") (
              field "run_attempt" (num 1) (
                field "job_name" (text "unit tests") (
                  field "scale_set_name" (text "label")
                    (field "runner_name" (text "runner") end)))))))))

abbrev policy : Policy
policy = record { timeout = 45000000; poll_interval = 1000000 }

begun : (job_started 1 services driver policy id context 60000000 state).0 ≡ ok tt
unfolding job_started prove_and_admit wait_for_observation after_observation disable_in_time
    admit_job mismatched on_ledger outside rescue attempt translate Admission.payload read_object
    scale_set_binding transition decide start read_times write lookup update get same_json without_z
    parse_time ◌>>=◌
begun = refl

job_started-Begun_example :
    ((p : Fields) × ((Admission.payload services id state.ledger).0 ≡ ok p)
      × (mismatched context_fields context p ≡ []))
    × Begun id state (job_started 1 services driver policy id context 60000000 state).1
job_started-Begun_example =
    job_started-Begun 1 services driver policy id context 60000000 state (refl, refl, tt) begun

abbrev running : Broker.State ℕ
running = record state {
  ledger = record {
    version = 3;
    allocations = record row { state = State.running; jobs_started = 1 } ∷ [];
    outcomes = [];
  };
}

abbrev gone : Fields
gone =
    field "allocation_id" (text id)
      (field "runner_label" (text "label") (field "state" (text "cleaned") end))

ended : (finish 1 services driver id "success" false running).0 ≡ ok gone
unfolding finish wait_for_cleanup converge after_measurement delete_exact on_ledger outside attempt
    scale_set_binding transition decide end_job clean get_record read_times write lookup update get
    without_z parse_time ◌>>=◌
ended = refl

finish-IsCleaned_example :
    IsCleaned id (finish 1 services driver id "success" false running).1.ledger
finish-IsCleaned_example =
    finish-IsCleaned services driver 1 id "success" false running gone (refl, refl, tt) ended

abbrev unseen : ℕ → Broker ℕ (Unit {0})
unseen n = outside (λ w. (err driver_error, w))

clock : IsClock driver (λ w. w)
clock = record { reads = λ w. refl; sleeps = λ n w. (refl, omega arith) }

observation : IsObservation (λ w. w) unseen
unfolding outside
observation = record { raises = λ n s. refl; keeps = λ n s. omega arith }

wait_for_observation_ends_example :
    raised is_exception (wait_for_observation 3 driver policy unseen 60000002 state).0 ≡ true
wait_for_observation_ends_example =
    wait_for_observation_ends driver (λ w. w) policy clock (omega arith) 3 60000002 unseen state
      observation (omega arith) (omega arith)
