-- ===== src/Allocation/Lifecycle/Actions.antt =====
-- The actions of `SqliteAllocationLedger.transition`, and what each decides to write.
use self_hosted_ci.Prelude.{
  ℕ, ◌+◌, ◌*◌, String, Bool, true, false, not, ◌&&◌, ◌||◌, Option, none, some, [], ◌∷◌, ltb, leb,
  ◌==◌, if◌then◌else◌, nat_eq, string_eq,
}
use self_hosted_ci.Json.{Json, text, Fields, end, field, get, is_num, is_text, is_true}
use self_hosted_ci.Registry.{is_null}
use self_hosted_ci.Effects.{◌>>=◌, ◌>>◌, pure, raise, raise_if, raise_unless, or_raise}
use self_hosted_ci.Allocation.{jit_error, claim_expired, invalid_transition, other, Services}
use self_hosted_ci.Allocation.Payload.{has_exactly}
use self_hosted_ci.Allocation.Rows.{
  State, running, terminal, recovery_required, cleaned, is_reserved, is_issued, is_running,
  is_terminal, is_recovery_required, is_cleaned, AllocationRow, Tx, is_terminal_outcome, is_value,
  same_value,
}

pub data Action : Type 0 where
  admit_job finish cleanup recover ack_recovery_cleanup : Action

abbrev pub action_of : String → Option Action
action_of s =
    if s == "admit-job"
    then some admit_job
    else if s == "finish"
    then some finish
    else if s == "cleanup"
    then some cleanup
    else if s == "recover"
    then some recover
    else if s == "ack-recovery-cleanup"
    then some ack_recovery_cleanup
    else none

-- the keyword arguments of `transition`
pub record Arguments : Type 0 where
  pub now : Option ℕ
  pub outcome : Option String
  pub normal_cancel_attempted : Bool
  pub cleanup_idempotency_key : Option String
  pub cleanup_evidence : Option Fields

abbrev pub no_arguments : Arguments
no_arguments = record {
  now = none;
  outcome = none;
  normal_cancel_attempted = false;
  cleanup_idempotency_key = none;
  cleanup_evidence = none;
}

-- the columns that a transition writes
pub record Columns : Type 0 where
  pub state : State
  pub outcome : Option String
  pub jobs_started : ℕ
  pub cleanup_complete : Bool
  pub recovery_required : Bool
  pub cleanup_pending : Bool
  pub cleanup_idempotency_key : Option String
  pub cleanup_evidence_digest : Option String

abbrev pub columns_of : AllocationRow → Columns
columns_of r = record {
  state = r.state;
  outcome = r.outcome;
  jobs_started = r.jobs_started;
  cleanup_complete = r.cleanup_complete;
  recovery_required = r.recovery_required;
  cleanup_pending = r.cleanup_pending;
  cleanup_idempotency_key = r.cleanup_idempotency_key;
  cleanup_evidence_digest = r.cleanup_evidence_digest;
}

abbrev pub with_columns : Columns → AllocationRow → AllocationRow
with_columns c r = record r {
  state = c.state;
  outcome = c.outcome;
  jobs_started = c.jobs_started;
  cleanup_complete = c.cleanup_complete;
  recovery_required = c.recovery_required;
  cleanup_pending = c.cleanup_pending;
  cleanup_idempotency_key = c.cleanup_idempotency_key;
  cleanup_evidence_digest = c.cleanup_evidence_digest;
}

-- `x == y` of a member and a column
abbrev is_column : Option Json → Option String → Bool
is_column v none = is_null v
is_column v (some s) = is_text v s

-- the evidence that the runner and all it left behind are gone
unfoldable pub is_evidence : Arguments → AllocationRow → Fields → Bool
is_evidence q r evidence =
    has_exactly
      ("allocation_id" ∷ "cleanup_idempotency_key" ∷ "jobs_started" ∷ "registration_removed"
        ∷ "workspace_removed" ∷ "token_removed" ∷ "container_removed" ∷ "allocation_removed"
        ∷ "orphan_registrations" ∷ [])
      evidence
    && same_value q.cleanup_idempotency_key r.cleanup_idempotency_key
    && is_text (get "allocation_id" evidence) r.allocation_id
    && is_column (get "cleanup_idempotency_key" evidence) r.cleanup_idempotency_key
    && is_num (get "jobs_started" evidence) r.jobs_started
    && is_num (get "orphan_registrations" evidence) 0
    && is_true (get "registration_removed" evidence)
    && is_true (get "workspace_removed" evidence)
    && is_true (get "token_removed" evidence)
    && is_true (get "container_removed" evidence)
    && is_true (get "allocation_removed" evidence)

-- the idempotency key of the cleanup after a reboot
unfoldable pub cleanup_key : Services → String → String → Tx String
cleanup_key sv allocation_id payload_digest = do
  body ←
      or_raise
        (sv.canonicalize (
          field "allocation_id" (text allocation_id) (
            field "payload_digest" (text payload_digest)
              (field "operation" (text "reboot-cleanup-v1") end))))
        other
  pure (sv.sha256 body)

-- the columns of an allocation that a reboot fences
abbrev pub fenced : String → Columns → Columns
fenced key c = record c {
  state = recovery_required;
  outcome = some "reboot";
  recovery_required = true;
  cleanup_pending = true;
  cleanup_idempotency_key = some key;
}

unfoldable pub start : Arguments → AllocationRow → ℕ → ℕ → Tx (Option Columns)
start q r issued_at claim_deadline = do
  now ← or_raise q.now jit_error
  raise_unless (is_issued r.state) invalid_transition
  raise_if (ltb (now + 30 * 1000000) issued_at || leb claim_deadline now) claim_expired
  raise_unless (r.jobs_started == 0) invalid_transition
  pure (some (record (columns_of r) { state = running; jobs_started = 1 }))

unfoldable pub end_job : Arguments → AllocationRow → Tx (Option Columns)
end_job q r = do
  raise_unless
      (is_running r.state
        && r.jobs_started == 1
        && is_terminal_outcome q.outcome
        && (not (is_value q.outcome "force-cancel") || q.normal_cancel_attempted))
      invalid_transition
  pure (some (record (columns_of r) { state = terminal; outcome = q.outcome }))

unfoldable pub clean : AllocationRow → Tx (Option Columns)
clean r =
    if is_terminal r.state && r.jobs_started == 1 && is_terminal_outcome r.outcome
    then pure (some (record (columns_of r) { state = cleaned; cleanup_complete = true }))
    else if is_cleaned r.state
    then pure none
    else raise invalid_transition

unfoldable pub fence : Services → AllocationRow → Tx (Option Columns)
unfolding cleanup_key
fence sv r =
    if (is_reserved r.state || is_issued r.state || is_running r.state)
      && (r.jobs_started == 0 || r.jobs_started == 1)
    then (do
      key ← cleanup_key sv r.allocation_id r.payload_digest
      pure (some (fenced key (columns_of r))))
    else if is_recovery_required r.state && is_value r.outcome "reboot"
    then pure none
    else raise invalid_transition

unfoldable pub acknowledge : Services → Arguments → AllocationRow → Tx (Option Columns)
unfolding is_evidence
acknowledge sv q r = do
  evidence ← or_raise q.cleanup_evidence jit_error
  raise_unless (is_evidence q r evidence) jit_error
  body ← or_raise (sv.canonicalize evidence) other
  if is_recovery_required r.state && r.recovery_required && r.cleanup_pending
      then pure (
          some (record (columns_of r) {
            state = cleaned;
            cleanup_complete = true;
            recovery_required = false;
            cleanup_pending = false;
            cleanup_evidence_digest = some (sv.sha256 body);
          }))
      else if is_cleaned r.state
          && is_value r.outcome "reboot"
          && is_value r.cleanup_evidence_digest (sv.sha256 body)
      then pure none
      else raise jit_error

-- The columns that the action writes, or none where it returns what is there.
unfoldable pub decide : Services → Action → Arguments → AllocationRow → ℕ → ℕ → Tx (Option Columns)
unfolding start end_job clean fence acknowledge
decide sv admit_job q r issued_at claim_deadline = start q r issued_at claim_deadline
decide sv finish q r issued_at claim_deadline = end_job q r
decide sv cleanup q r issued_at claim_deadline = clean r
decide sv recover q r issued_at claim_deadline = fence sv r
decide sv ack_recovery_cleanup q r issued_at claim_deadline = acknowledge sv q r
