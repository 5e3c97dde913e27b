-- ===== src/GateStore/Verdicts.antt =====
-- The methods that decide a generation: local success, local failure, the choice of GitHub, and
-- the hosted result.
use self_hosted_ci.Prelude.{
  ℕ, String, Bool, true, false, not, ◌&&◌, ◌||◌, Option, none, some, leb, ltb, if◌then◌else◌,
  nat_eq, string_eq,
}
use self_hosted_ci.Json.{Fields, end, field, num, text, get, merge, is_text, is_num}
use self_hosted_ci.GateStore.Rows.{
  ResultKind, Winner, local, github, success, functional_failure, Completion,
}
use self_hosted_ci.GateStore.Monad.{
  Tx, Services, Stage, pure, raise, or_raise, raise_if, raise_unless, fault, transaction, ◌>>=◌,
  ◌>>◌, control_failure, fenced, late_evidence, value_error,
}
use self_hosted_ci.GateStore.Queries.{Lease, owned, require_admission, update_gate}
use self_hosted_ci.GateStore.Completions.{complete}

pub record LocalSuccess : Type 0 where
  pub lease : Lease
  pub admission_id : String
  pub admission_digest : String
  pub evidence : Fields
  pub attestation_valid : Bool
  pub attestation_expires_at : ℕ

unfoldable pub succeed_in : Services → LocalSuccess → ℕ → Tx Completion
succeed_in env q now = do
  owned q.lease now
  require_admission q.lease.logical_key q.lease.generation q.admission_id q.admission_digest
  complete env q.lease.logical_key q.lease.generation local success q.evidence now

unfoldable pub complete_local_success : Services → LocalSuccess → ℕ → Tx Completion
complete_local_success env q now = do
  raise_if (not q.attestation_valid || leb q.attestation_expires_at now) fenced
  transaction (succeed_in env q now)

pub record LocalFailure : Type 0 where
  pub lease : Lease
  pub admission_id : String
  pub admission_digest : String
  pub evidence : Fields
  pub terminal_at : ℕ
  pub child_run_id : ℕ
  pub child_job_id : ℕ
  pub tested_merge_sha : String
  pub canonical_command_digest : String

-- `expected`
abbrev pub expected_fields : LocalFailure → Fields
expected_fields q = field "child_run_id" (num q.child_run_id) (
    field "child_job_id" (num q.child_job_id) (
      field "tested_merge_sha" (text q.tested_merge_sha)
        (field "canonical_command_digest" (text q.canonical_command_digest) end)))

-- no field of the admitted execution differs from the expected one
unfoldable pub execution_matches : LocalFailure → Fields → Bool
execution_matches q execution =
    is_num (get "child_run_id" execution) q.child_run_id
    && is_num (get "child_job_id" execution) q.child_job_id
    && is_text (get "tested_merge_sha" execution) q.tested_merge_sha
    && is_text (get "canonical_command_digest" execution) q.canonical_command_digest

abbrev pub is_functional_failure : Fields → Bool
is_functional_failure evidence =
    is_text (get "kind" evidence) "FUNCTIONAL_FAILURE"
    && not (is_text (get "conclusion" evidence) "success")

unfoldable pub normalized : Services → LocalFailure → Fields
normalized env q =
    merge q.evidence (field "terminal_at" (text (env.isoformat q.terminal_at)) (expected_fields q))

unfoldable pub fail_in : Services → LocalFailure → ℕ → Tx Completion
fail_in env q now = do
  owned q.lease now
  admission ←
      require_admission q.lease.logical_key q.lease.generation q.admission_id q.admission_digest
  execution ← or_raise (env.loads admission.execution_json) value_error
  raise_unless (execution_matches q execution) control_failure
  raise_unless (is_functional_failure q.evidence) control_failure
  raise_if (ltb admission.execution_deadline q.terminal_at) late_evidence
  complete env q.lease.logical_key q.lease.generation local functional_failure (normalized env q)
      now

unfoldable pub complete_local_failure : Services → LocalFailure → ℕ → Tx Completion
complete_local_failure env q now = transaction (fail_in env q now)

pub data Selection : Type 0 where
  selected idempotent : Selection

unfoldable pub select_in : Services → Lease → ℕ → Option Winner → Tx Selection
select_in env l now none = do
  update_gate l.logical_key l.generation (λ r. record r { winner = some github; updated_at = now })
  fault env Stage.after_winner
  pure selected
select_in env l now (some github) = pure idempotent
select_in env l now (some local) = raise fenced

unfoldable pub choose : Services → Lease → ℕ → Tx Selection
choose env l now = do gate ← owned l now; select_in env l now gate.winner

unfoldable pub select_github_winner : Services → Lease → ℕ → Tx Selection
select_github_winner env l now = transaction (choose env l now)

pub record HostedResult : Type 0 where
  pub lease : Lease
  pub evidence : Fields
  pub hosted_predicate_valid : Bool

abbrev pub is_github : Option Winner → Bool
is_github (some github) = true
is_github _ = false

abbrev pub hosted_kind : Fields → ResultKind
hosted_kind evidence =
    if is_text (get "conclusion" evidence) "success" then success else functional_failure

unfoldable pub host_in : Services → HostedResult → ℕ → Tx Completion
host_in env q now = do
  gate ← owned q.lease now
  raise_unless (is_github gate.winner) fenced
  complete env q.lease.logical_key q.lease.generation github (hosted_kind q.evidence) q.evidence now

unfoldable pub complete_hosted_winner : Services → HostedResult → ℕ → Tx Completion
complete_hosted_winner env q now = do
  raise_unless q.hosted_predicate_valid control_failure
  transaction (host_in env q now)
