-- ===== src/GateStore/Admissions.antt =====
-- `GateStore.create_local_admission_after_pre_marker_verify`.
use self_hosted_ci.Prelude.{
  ℕ, String, Bool, not, ◌&&◌, ◌||◌, none, some, ◌==◌, is_some, lookup, pair_eq, nat_eq, string_eq,
}
use self_hosted_ci.Json.{Fields, end, field, num, text, obj, get, merge, is_true, is_text}
use self_hosted_ci.GateStore.Rows.{
  GateRow, AdmissionRow, Admission, admission_key, admission_from_row,
}
use self_hosted_ci.GateStore.Monad.{
  Tx, Services, Stage, pure, gets, raise_if, raise_unless, fault, transaction, ◌>>=◌, ◌>>◌,
  control_failure, fenced, conflict,
}
use self_hosted_ci.GateStore.Queries.{Lease, owned, insert_admission}

pub record AdmissionRequest : Type 0 where
  pub lease : Lease
  pub verifier_decision : Fields
  pub authority : Fields
  pub child_run_id : ℕ
  pub child_job_id : ℕ
  pub tested_merge_sha : String
  pub canonical_command_digest : String
  pub wrapper_digest : String
  pub execution_deadline : ℕ

abbrev pub execution_fields : AdmissionRequest → Fields
execution_fields q = field "child_run_id" (num q.child_run_id) (
    field "child_job_id" (num q.child_job_id) (
      field "tested_merge_sha" (text q.tested_merge_sha) (
        field "canonical_command_digest" (text q.canonical_command_digest)
          (field "wrapper_digest" (text q.wrapper_digest) end))))

unfoldable pub marker_core : Services → AdmissionRequest → ℕ → Fields
marker_core env q now =
    merge
      (merge
        (field "logical_key" (text q.lease.logical_key)
          (field "generation" (num q.lease.generation) end))
        (execution_fields q))
      (field "started_at" (text (env.isoformat now)) end)

abbrev admission_record : Services → AdmissionRequest → GateRow → String → Fields
admission_record env q gate marker_core_digest = field "logical_key" (text q.lease.logical_key) (
    field "generation" (num q.lease.generation) (
      field "head_generation" (num gate.head_generation) (
        field "owner" (text q.lease.owner) (
          field "lease_epoch" (num q.lease.lease_epoch) (
            field "authority" (obj q.authority) (
              field "execution" (obj (execution_fields q)) (
                field "verifier_decision" (obj q.verifier_decision) (
                  field "execution_deadline" (text (env.isoformat q.execution_deadline))
                    (field "marker_core_digest" (text marker_core_digest) end)))))))))

abbrev pub authority_text : Services → AdmissionRequest → String
authority_text env q =
    env.dumps (merge q.authority (field "verifier_decision" (obj q.verifier_decision) end))

abbrev pub execution_text : Services → AdmissionRequest → String
execution_text env q = env.dumps (execution_fields q)

-- `uuid` is the text of `uuid.uuid4()`
unfoldable pub admission_row : Services → AdmissionRequest → String → ℕ → GateRow → AdmissionRow
admission_row env q uuid now gate =
    let core = marker_core env q now in
    let core_digest = env.sha256 (env.dumps core) in
    let admission_digest = env.sha256 (env.dumps (admission_record env q gate core_digest)) in
    let marker =
      merge core
        (field "admission_id" (text uuid) (field "admission_digest" (text admission_digest) end)) in
    record {
      logical_key = q.lease.logical_key;
      generation = q.lease.generation;
      admission_id = uuid;
      admission_digest = admission_digest;
      marker_core_digest = core_digest;
      marker_digest = env.sha256 (env.dumps marker);
      authority_json = authority_text env q;
      execution_json = execution_text env q;
      started_at = now;
      execution_deadline = q.execution_deadline;
    }

-- Is the stored admission the one that is asked for?
abbrev pub same_admission : Services → AdmissionRequest → AdmissionRow → Bool
same_admission env q r =
    r.authority_json == authority_text env q
    && r.execution_json == execution_text env q
    && r.execution_deadline == q.execution_deadline

unfoldable pub insert_and_read : Services → AdmissionRow → Tx Admission
insert_and_read env row = do
  insert_admission row
  fault env Stage.after_admission_insert
  fault env Stage.after_marker_insert
  pure (admission_from_row row)

unfoldable pub admit_in : Services → AdmissionRequest → String → ℕ → Tx Admission
admit_in env q uuid now = do
  gate ← owned q.lease now
  raise_if (is_some gate.winner || not (gate.tested_merge_sha == q.tested_merge_sha)) fenced
  found ← gets λ db. lookup admission_key (q.lease.logical_key, q.lease.generation) db.admissions
  elim found [
    | some existing ↦ do
      raise_unless (same_admission env q existing) conflict
      pure (admission_from_row existing)
    | none ↦ insert_and_read env (admission_row env q uuid now gate)
  ]

-- the guard before the transaction
abbrev pub pre_marker_valid : Fields → Bool
pre_marker_valid decision =
    is_true (get "valid" decision) && is_text (get "boundary" decision) "pre-marker"

unfoldable pub create_local_admission : Services → AdmissionRequest → String → ℕ → Tx Admission
create_local_admission env q uuid now = do
  raise_unless (pre_marker_valid q.verifier_decision) control_failure
  transaction (admit_in env q uuid now)
