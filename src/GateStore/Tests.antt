-- ===== src/GateStore/Tests.antt =====
-- The store on a small database: one gate, one admission, two workers.
mod Takeover
use self_hosted_ci.GateStore.Leases.{renew_lease, heartbeat}
use self_hosted_ci.GateStore.Heads.{record_head, observe_head}
use self_hosted_ci.GateStore.Histories.{run-Kept, call_atomic}
use self_hosted_ci.GateStore.Permanence.{Kept}
use self_hosted_ci.GateStore.SingleWinner.{complete_local_failure-Checked, FailureChecked}
use self_hosted_ci.GateStore.Agreement.{verdict_for_good, Carries, completions_agree}
use self_hosted_ci.GateStore.Completions.{commit_result, complete, outbox_key, evidence_hash}
use self_hosted_ci.GateStore.Verdicts.{
  execution_matches, fail_in, normalized, complete_local_failure, LocalFailure,
}
use self_hosted_ci.GateStore.Queries.{
  insert_outbox, update_gate, require_admission, max_generation, owned, select_gate, Lease,
}
use self_hosted_ci.Json.{get, put, merge, end, num, bool, field, text, Fields, Json}
use Prim.Native.String.{◌++◌ as append}
use self_hosted_ci.Prelude.{
  update, lookup, ℕ, String, ◌≡◌, refl, Bool, true, false, none, some, List, [], ◌∷◌, if◌then◌else◌,
  ◌==◌, nat_eq, pos,
}
use self_hosted_ci.GateStore.Rows.{
  Db, GateRow, AdmissionRow, Completion, CompletionStatus, committed, idempotent, local,
  functional_failure,
}
use self_hosted_ci.GateStore.Monad.{fault, injected, transaction, Services, Stage, ok, err}
use self_hosted_ci.GateStore.Calls.{call, run, Call, observes, fails, renews}

abbrev print_value : Json → String
print_value (text s) = s
print_value (bool Bool.true) = "true"
print_value _ = "value"

abbrev print : Fields → String
print end = ""
print (field k v fs) = append k (append ":" (append (print_value v) (append "," (print fs))))

abbrev execution : Fields
execution = field "child_run_id" (num 11) (
    field "child_job_id" (num 12) (
      field "tested_merge_sha" (text "merge") (
        field "canonical_command_digest" (text "command")
          (field "wrapper_digest" (text "wrapper") end))))

abbrev pub services : Services
services = record {
  dumps = print;
  loads = λ s. some execution;
  sha256 = λ s. append "sha256:" s;
  decimal = λ n. if n == 1 then "1" else "many";
  isoformat = λ n. "instant";
  raises = λ s. false;
}

-- the same, with a fault hook that raises once the outbox row is written
abbrev faulty : Services
faulty = record services { raises = λ s. elim s [ Stage.after_outbox ↦ true | _ ↦ false ] }

abbrev pub gate : GateRow
gate = record {
  logical_key = "repo#7";
  generation = 1;
  head_generation = 1;
  base_sha = "base";
  tested_merge_sha = "merge";
  owner = "worker-a";
  lease_epoch = 1;
  lease_expires_at = 100;
  check_run_id = 5;
  winner = none;
  result_kind = none;
  evidence_digest = none;
  terminal_json = none;
  created_at = 1;
  updated_at = 1;
}

abbrev admission : AdmissionRow
admission = record {
  logical_key = "repo#7";
  generation = 1;
  admission_id = "admission";
  admission_digest = "digest";
  marker_core_digest = "core";
  marker_digest = "marker";
  authority_json = "{}";
  execution_json = "{…}";
  started_at = 10;
  execution_deadline = 50;
}

abbrev pub store : Db
store = record {
  heads = [];
  gates = gate ∷ [];
  nonce_bindings = [];
  admissions = admission ∷ [];
  outbox = [];
}

abbrev pub lease : Lease
lease = record { logical_key = "repo#7"; generation = 1; owner = "worker-a"; lease_epoch = 1 }

abbrev pub failing : LocalFailure
failing = record {
  lease = lease;
  admission_id = "admission";
  admission_digest = "digest";
  evidence = field "kind" (text "FUNCTIONAL_FAILURE") (field "conclusion" (text "failure") end);
  terminal_at = 40;
  child_run_id = 11;
  child_job_id = 12;
  tested_merge_sha = "merge";
  canonical_command_digest = "command";
}

abbrev failed : CompletionStatus → Completion
failed status = record {
  status = status;
  winner = local;
  result_kind = functional_failure;
  evidence_digest = evidence_hash services (normalized services failing);
  outbox_key =
      outbox_key services "repo#7" 1 local (evidence_hash services (normalized services failing));
}

abbrev after_failure : Db
after_failure = (complete_local_failure services failing 20 store).1

abbrev pub other_work : List (Services × ℕ × Call)
other_work = (services, 21, observes "repo" 7 "head") ∷ (services, 22, renews lease (pos 60)) ∷ []

first_failure :
    complete_local_failure services failing 20 store ≡ (ok (failed committed), after_failure)
unfolding complete_local_failure fail_in transaction owned max_generation select_gate lookup
    require_admission execution_matches normalized merge put get complete commit_result update_gate
    update fault insert_outbox outbox_key
first_failure = refl

second_failure :
    complete_local_failure services failing 30 (run other_work after_failure)
    ≡ (ok (failed idempotent), run other_work after_failure)
unfolding complete_local_failure fail_in transaction owned max_generation select_gate lookup
    require_admission execution_matches normalized merge put get complete commit_result update_gate
    update fault insert_outbox outbox_key run call observe_head record_head heartbeat renew_lease
second_failure = refl

completions_agree_example :
    ((failed idempotent).status ≡ idempotent)
    × ((failed idempotent).winner ≡ (failed committed).winner)
    × ((failed idempotent).result_kind ≡ (failed committed).result_kind)
    × ((failed idempotent).evidence_digest ≡ (failed committed).evidence_digest)
    × (run other_work after_failure ≡ run other_work after_failure)
completions_agree_example =
    completions_agree services services (fails failing) (fails failing) 20 30 store after_failure
      (run other_work after_failure) (failed committed) (failed idempotent) other_work first_failure
      refl refl second_failure

verdict_for_good_example :
    Carries (failed committed) (select_gate "repo#7" 1 (run other_work after_failure).gates)
verdict_for_good_example =
    verdict_for_good services (fails failing) 20 store after_failure (failed committed) other_work
      first_failure refl

complete_local_failure-Checked_example : FailureChecked services failing 20 store (failed committed)
complete_local_failure-Checked_example =
    complete_local_failure-Checked services failing 20 store after_failure (failed committed)
      first_failure

-- a fault after the last write
late_fault : (call faulty (fails failing) 20 store).0 ≡ some injected
unfolding call complete_local_failure fail_in transaction owned max_generation select_gate lookup
    require_admission execution_matches normalized merge put get complete commit_result update_gate
    update fault insert_outbox outbox_key
late_fault = refl

call_atomic_example : (call faulty (fails failing) 20 store).1 ≡ store
call_atomic_example = call_atomic faulty (fails failing) 20 store injected late_fault

run-Kept_example :
    Kept
      (select_gate "repo#7" 1 after_failure.gates)
      (select_gate "repo#7" 1 (run other_work after_failure).gates)
run-Kept_example = run-Kept other_work after_failure "repo#7" 1
