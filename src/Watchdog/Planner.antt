-- ===== src/Watchdog/Planner.antt =====
-- `ObservedState`, `Decision`, `reconcile` and `reconcile_execution_timeout_after_reread`.
use self_hosted_ci.Timing.Deadlines.{
  completion_is_timely, claim_timeout_due, execution_timeout_due, force_cancel_verification_due,
  claim_is_timely, force_cancel_due, lease_is_valid,
}
use self_hosted_ci.Timing.Failures.{classify_failure, FailureClass, FailureOutcome}
use self_hosted_ci.Timing.Failures.{
  local_final_failure, fallback_once, stale_cancel, fallback_final_failure, evidence_only_fallback,
  fallback_failure,
}
use self_hosted_ci.Prelude.{
  pair_eq, string_eq, nat_eq, ◌&&◌, leb, none, some, not, true, ◌==◌, ◌||◌, false, if◌then◌else◌,
  Bool, Option, String, ℕ,
}

pub data ActionKind : Type 0 where
  noop fenced take_over block_alert mark_stale_cancel offer_local_failure : ActionKind
  select_github request_normal_cancel request_force_cancel verify_force_cancel : ActionKind
  dispatch_fallback complete_fallback_failure : ActionKind

-- the texts of `reason`
pub data Reason : Type 0 where
  lease_expired_before_pending_transition ambiguous_authoritative_state stale_pr_tuple : Reason
  local_winner_terminal cancel_losing_local_run normal_cancel_grace normal_cancel_stalled : Reason
  verify_force_cancel force_cancel_verification_wait resume_persisted_github_winner : Reason
  hosted_attempt_failed github_path_in_progress_or_terminal current_authority_invalid : Reason
  classified : FailureOutcome → Reason
  formal_claim_visible claim_timeout execution_timeout_after_exact_job_reread : Reason
  lease_expired no_transition_due : Reason

pub record ObservedState : Type 0 where
  pub logical_key : String
  pub generation : ℕ
  pub owner : String
  pub lease_epoch : ℕ
  pub lease_expires_at : ℕ
  pub phase : String
  pub winner : Option String
  pub claim_deadline : Option ℕ
  pub execution_deadline : Option ℕ
  pub job_started_at : Option ℕ
  pub job_terminal_at : Option ℕ
  pub job_active : Bool
  pub failure_class : Option FailureClass
  pub admission_valid : Bool
  pub proof_valid : Bool
  pub authority_boundary : Option String
  pub ambiguous : Bool
  pub stale_input : Bool
  pub cancel_requested_at : Option ℕ
  pub force_cancel_requested_at : Option ℕ
  pub fallback_dispatched : Bool
  pub fallback_terminal : Bool

pub record Decision : Type 0 where
  pub kind : ActionKind
  pub logical_key : String
  pub generation : ℕ
  pub owner : String
  pub lease_epoch : ℕ
  pub reason : Reason

abbrev pub decision : ObservedState → ActionKind → Reason → Decision
decision s kind reason = record {
  kind = kind;
  logical_key = s.logical_key;
  generation = s.generation;
  owner = s.owner;
  lease_epoch = s.lease_epoch;
  reason = reason;
}

-- `value == "..."` for a value that may be `None`
abbrev pub is_named : Option String → String → Bool
is_named none t = false
is_named (some s) t = s == t

-- `state.authority_boundary in CURRENT_AUTHORITY_BOUNDARIES`
unfoldable pub at_current_boundary : Option String → Bool
at_current_boundary b =
    is_named b "dispatch"
    || is_named b "claim"
    || is_named b "pre_marker_admission"
    || is_named b "local_success"

abbrev pub causal_deadline : ObservedState → Option ℕ
causal_deadline s =
    if s.phase == "LOCAL_DISPATCHED"
    then s.claim_deadline
    else if s.phase == "LOCAL_RUNNING"
    then s.execution_deadline
    else none

-- `causal_deadline is None or state.lease_expires_at <= causal_deadline`
abbrev pub no_later_than : ℕ → Option ℕ → Bool
no_later_than t none = true
no_later_than t (some d) = leb t d

unfoldable pub lease_lost_first : ObservedState → ℕ → Bool
lease_lost_first s now =
    not (lease_is_valid now s.lease_expires_at)
    && no_later_than s.lease_expires_at (causal_deadline s)

-- the losing local run of a GitHub winner
unfoldable pub cancel_losing_run : ObservedState → ℕ → Option ℕ → Option ℕ → Decision
cancel_losing_run s now none forced =
    decision s request_normal_cancel Reason.cancel_losing_local_run
cancel_losing_run s now (some requested) none =
    if not (force_cancel_due now requested)
    then decision s noop Reason.normal_cancel_grace
    else decision s request_force_cancel Reason.normal_cancel_stalled
cancel_losing_run s now (some requested) (some forced) =
    if not (force_cancel_due now requested)
    then decision s noop Reason.normal_cancel_grace
    else if force_cancel_verification_due now forced
    then decision s ActionKind.verify_force_cancel Reason.verify_force_cancel
    else decision s noop Reason.force_cancel_verification_wait

abbrev pub is_fallback_failure : Option FailureClass → Bool
is_fallback_failure (some fallback_failure) = true
is_fallback_failure _ = false

-- the persisted winner is GitHub
unfoldable pub follow_github : ObservedState → ℕ → Decision
follow_github s now =
    if s.job_active
    then cancel_losing_run s now s.cancel_requested_at s.force_cancel_requested_at
    else if not s.fallback_dispatched
    then decision s dispatch_fallback Reason.resume_persisted_github_winner
    else if s.fallback_terminal && is_fallback_failure s.failure_class
    then decision s complete_fallback_failure Reason.hosted_attempt_failed
    else decision s noop Reason.github_path_in_progress_or_terminal

abbrev pub action_for : FailureOutcome → ActionKind
action_for local_final_failure = offer_local_failure
action_for fallback_once = select_github
action_for stale_cancel = mark_stale_cancel
action_for FailureOutcome.block_alert = ActionKind.block_alert
action_for fallback_final_failure = complete_fallback_failure
action_for evidence_only_fallback = select_github

-- the last two returns
unfoldable pub idle : ObservedState → ℕ → Decision
idle s now =
    if not (lease_is_valid now s.lease_expires_at)
    then decision s take_over Reason.lease_expired
    else decision s noop Reason.no_transition_due

unfoldable pub watch_execution : ObservedState → ℕ → Option ℕ → Decision
watch_execution s now none = idle s now
watch_execution s now (some deadline) =
    if s.phase == "LOCAL_RUNNING"
      && execution_timeout_due now deadline (completion_is_timely s.job_terminal_at deadline)
    then decision s select_github Reason.execution_timeout_after_exact_job_reread
    else idle s now

unfoldable pub watch_claim : ObservedState → ℕ → Option ℕ → Decision
watch_claim s now none = watch_execution s now s.execution_deadline
watch_claim s now (some deadline) =
    if s.phase == "LOCAL_DISPATCHED"
    then (if claim_is_timely s.job_started_at deadline
        then decision s noop Reason.formal_claim_visible
        else if claim_timeout_due now deadline false
        then decision s select_github Reason.claim_timeout
        else watch_execution s now s.execution_deadline)
    else watch_execution s now s.execution_deadline

unfoldable pub follow_failure : ObservedState → ℕ → Option FailureClass → Decision
follow_failure s now none = watch_claim s now s.claim_deadline
follow_failure s now (some c) =
    let outcome = classify_failure c s.admission_valid s.job_terminal_at s.execution_deadline in
    decision s (action_for outcome) (Reason.classified outcome)

-- from the persisted winner on
unfoldable pub resume : ObservedState → ℕ → Decision
resume s now =
    if is_named s.winner "local"
    then decision s noop Reason.local_winner_terminal
    else if is_named s.winner "github"
    then follow_github s now
    else if not s.proof_valid && at_current_boundary s.authority_boundary
    then decision s select_github Reason.current_authority_invalid
    else follow_failure s now s.failure_class

unfoldable pub reconcile : ObservedState → ℕ → Decision
reconcile s now =
    if lease_lost_first s now
    then decision s take_over Reason.lease_expired_before_pending_transition
    else if s.ambiguous
    then decision s ActionKind.block_alert Reason.ambiguous_authoritative_state
    else if s.stale_input
    then decision s mark_stale_cancel Reason.stale_pr_tuple
    else resume s now

unfoldable pub reconcile_after_reread :
    ObservedState → ℕ → Option ℕ → Option FailureClass → Decision
reconcile_after_reread s now terminal_at failure_class =
    reconcile (record s { job_terminal_at = terminal_at; failure_class = failure_class }) now
