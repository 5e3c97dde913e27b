-- ===== src/Watchdog/Tests.antt =====
-- The planner and the executor on one gate.
use self_hosted_ci.Timing.Deadlines.{completion_is_timely, lease_is_valid}
use self_hosted_ci.Watchdog.Planner.{
  at_current_boundary, ObservedState, Decision, decision, take_over, offer_local_failure,
  select_github, dispatch_fallback, follow_github, resume, reconcile, lease_lost_first,
  follow_failure, execution_timeout_after_exact_job_reread, is_named,
}
use self_hosted_ci.Watchdog.Execution.{
  ReconcileAdapter, IsDurable, Execution, performed, idempotency_key, execute_decision,
  execute_once,
}
use self_hosted_ci.Watchdog.Laws.{
  TimesOut, EndsInTime, reconcile_offers_local, execution_timeout_fires,
}
use self_hosted_ci.Timing.Failures.{classify_functional, classify_failure, functional_failure}
use self_hosted_ci.Prelude.{
  inl, ℕ, String, ◌≡◌, ◌≢◌, refl, true, false, none, some, List, [], ◌∷◌, exists, ◌==◌, string_eq,
  arith, eq_iff,
}

abbrev running : ObservedState
running = record {
  logical_key = "repo#7";
  generation = 1;
  owner = "worker-a";
  lease_epoch = 1;
  lease_expires_at = 100;
  phase = "LOCAL_RUNNING";
  winner = none;
  claim_deadline = none;
  execution_deadline = some 50;
  job_started_at = some 10;
  job_terminal_at = none;
  job_active = true;
  failure_class = none;
  admission_valid = true;
  proof_valid = true;
  authority_boundary = none;
  ambiguous = false;
  stale_input = false;
  cancel_requested_at = none;
  force_cancel_requested_at = none;
  fallback_dispatched = false;
  fallback_terminal = false;
}

abbrev ended : ObservedState
ended = record running { job_terminal_at = some 40; failure_class = some functional_failure }

offers : (reconcile ended 60).kind ≡ offer_local_failure
unfolding reconcile lease_lost_first lease_is_valid resume follow_failure classify_failure
    classify_functional completion_is_timely
offers = refl

reconcile_offers_local_example :
    (ended.failure_class ≡ some functional_failure)
    × (ended.admission_valid ≡ true)
    × (ended.ambiguous ≡ false)
    × (ended.stale_input ≡ false)
    × (is_named ended.winner "local" ≡ false)
    × (is_named ended.winner "github" ≡ false)
    × EndsInTime ended.job_terminal_at ended.execution_deadline
reconcile_offers_local_example = reconcile_offers_local ended 60 offers

abbrev lost : ObservedState
lost = record running { winner = some "github"; job_active = false }

dispatches : (reconcile lost 60).kind ≡ dispatch_fallback
unfolding reconcile lease_lost_first lease_is_valid resume follow_github
dispatches = refl

-- the lease has expired since, and the timeout still fires
times_out : TimesOut running 150
unfolding at_current_boundary
times_out = (refl, (omega arith, omega arith), refl, refl, refl, refl, refl, inl refl)

execution_timeout_fires_example :
    reconcile running 150 ≡ decision running select_github execution_timeout_after_exact_job_reread
execution_timeout_fires_example = (execution_timeout_fires running 150).1 times_out

-- A provider that keeps the list of completed keys and owns every lease.
abbrev provider : ReconcileAdapter (List String)
provider = record {
  owns_live_lease = λ s d. true;
  action_already_completed = λ s k. exists (λ j. j == k) s;
  perform = λ s d. s;
  record_completed = λ s k. k ∷ s;
}

provider-IsDurable : IsDurable provider
provider-IsDurable = record { recorded = λ s k. ground (arith, eq_iff k k) }

abbrev decimal : ℕ → String
decimal n = "1"

abbrev cancel : Decision
cancel = decision running select_github execution_timeout_after_exact_job_reread

performs :
    execute_decision decimal provider cancel [] ≡ (performed, idempotency_key decimal cancel ∷ [])
unfolding execute_decision
performs = refl

execute_once_example :
    execute_decision decimal provider cancel (idempotency_key decimal cancel ∷ [])
    ≡ (Execution.idempotent, idempotency_key decimal cancel ∷ [])
execute_once_example =
    execute_once decimal provider cancel cancel [] (idempotency_key decimal cancel ∷ [])
      provider-IsDurable performs refl refl

not_take_over : cancel.kind ≢ take_over
not_take_over e = ground arith
