-- ===== src/Watchdog/Laws.antt =====
-- What the planner never does, and when it does what.
use self_hosted_ci.Prelude.{
  eq_iff, ◌↔◌, ◌⊎◌, ap, ℕ, ◌≡◌, ◌≤◌, ◌<◌, ◌≢◌, true, false, Option, none, some, arith, ◌==◌,
  string_eq,
}
use self_hosted_ci.Timing.Deadlines.{lease_is_valid, execution_timeout_due, completion_is_timely}
use self_hosted_ci.Timing.Failures.{functional_failure, classify_failure, classify_functional}
use self_hosted_ci.Watchdog.Planner.{
  at_current_boundary, Decision, execution_timeout_after_exact_job_reread, decision, resume,
  ObservedState, reconcile, offer_local_failure, is_named, lease_lost_first, follow_failure,
  follow_github, cancel_losing_run, watch_claim, watch_execution, idle, select_github,
  dispatch_fallback,
}

abbrev pub EndsInTime : Option ℕ → Option ℕ → Type 0
EndsInTime (some t) (some d) = t ≤ d
EndsInTime _ _ = ⊥

follow_github_offers :
    (s : ObservedState) (now : ℕ) → (follow_github s now).kind ≢ offer_local_failure
unfolding follow_github cancel_losing_run
follow_github_offers s now h = ground arith

watch_claim_offers :
    (s : ObservedState) (now : ℕ) → (watch_claim s now s.claim_deadline).kind ≢ offer_local_failure
unfolding watch_claim watch_execution idle
watch_claim_offers s now h = ground arith

follow_failure_offers :
    (s : ObservedState) (now : ℕ)
    → (follow_failure s now s.failure_class).kind ≡ offer_local_failure
    → (s.failure_class ≡ some functional_failure)
      × (s.admission_valid ≡ true)
      × EndsInTime s.job_terminal_at s.execution_deadline
unfolding follow_failure classify_failure classify_functional completion_is_timely
follow_failure_offers s now h = ground (arith, watch_claim_offers s now)

resume_offers :
    (s : ObservedState) (now : ℕ)
    → (resume s now).kind ≡ offer_local_failure
    → (s.failure_class ≡ some functional_failure)
      × (s.admission_valid ≡ true)
      × (is_named s.winner "local" ≡ false)
      × (is_named s.winner "github" ≡ false)
      × EndsInTime s.job_terminal_at s.execution_deadline
unfolding resume
resume_offers s now h = ground (arith, follow_github_offers s now, follow_failure_offers s now)

follow_failure_dispatches :
    (s : ObservedState) (now : ℕ) → (follow_failure s now s.failure_class).kind ≢ dispatch_fallback
unfolding follow_failure watch_claim watch_execution idle
follow_failure_dispatches s now h = ground arith

resume_dispatches :
    (s : ObservedState) (now : ℕ)
    → (resume s now).kind ≡ dispatch_fallback
    → (is_named s.winner "github" ≡ true) × (s.job_active ≡ false) × (s.fallback_dispatched ≡ false)
unfolding resume follow_github cancel_losing_run
resume_dispatches s now h = ground (arith, follow_failure_dispatches s now)

-- A local verdict is offered only for an admitted functional failure whose end is known and within
-- the known deadline, while no winner is persisted, the input is neither ambiguous nor stale.
pub reconcile_offers_local :
    (s : ObservedState) (now : ℕ)
    → (reconcile s now).kind ≡ offer_local_failure
    → (s.failure_class ≡ some functional_failure)
      × (s.admission_valid ≡ true)
      × (s.ambiguous ≡ false)
      × (s.stale_input ≡ false)
      × (is_named s.winner "local" ≡ false)
      × (is_named s.winner "github" ≡ false)
      × EndsInTime s.job_terminal_at s.execution_deadline
unfolding reconcile
reconcile_offers_local s now h = ground (arith, resume_offers s now)

-- A fallback is dispatched only for the persisted winner GitHub, while the local run is not active and
-- no fallback has been dispatched, and only if the input is neither ambiguous nor stale.
pub reconcile_dispatches :
    (s : ObservedState) (now : ℕ)
    → (reconcile s now).kind ≡ dispatch_fallback
    → (is_named s.winner "github" ≡ true)
      × (s.job_active ≡ false)
      × (s.fallback_dispatched ≡ false)
      × (s.ambiguous ≡ false)
      × (s.stale_input ≡ false)
unfolding reconcile
reconcile_dispatches s now h = ground (arith, resume_dispatches s now)

-- The execution deadline is known and past, it fell within the lease, and no end in time is known.
abbrev pub Overruns : ℕ → ℕ → Option ℕ → Option ℕ → Type 0
Overruns now lease none terminal_at = ⊥
Overruns now lease (some d) none = (d < now) × (d < lease)
Overruns now lease (some d) (some t) = (d < now) × (d < lease) × (d < t)

-- the state in which an execution times out
abbrev pub TimesOut : ObservedState → ℕ → Type 0
TimesOut s now =
    (s.phase ≡ "LOCAL_RUNNING")
    × Overruns now s.lease_expires_at s.execution_deadline s.job_terminal_at
    × (s.ambiguous ≡ false)
    × (s.stale_input ≡ false)
    × (is_named s.winner "local" ≡ false)
    × (is_named s.winner "github" ≡ false)
    × (s.failure_class ≡ none)
    × ((s.proof_valid ≡ true) ⊎ (at_current_boundary s.authority_boundary ≡ false))

-- The decision is a timeout of the execution.
abbrev Fires : Decision → Type 0
Fires d = d.reason ≡ execution_timeout_after_exact_job_reread

undispatched :
    (s : ObservedState) → s.phase ≡ "LOCAL_RUNNING" → (s.phase == "LOCAL_DISPATCHED") ≡ false
undispatched s phase = ap (λ p. p == "LOCAL_DISPATCHED") phase

watch_execution-Fires :
    (s : ObservedState) (now : ℕ)
    → Fires (watch_execution s now s.execution_deadline)
    → lease_lost_first s now ≡ false
    → (s.phase ≡ "LOCAL_RUNNING")
      × Overruns now s.lease_expires_at s.execution_deadline s.job_terminal_at
unfolding watch_execution idle lease_lost_first lease_is_valid execution_timeout_due
    completion_is_timely
watch_execution-Fires s now h held = ground (arith, eq_iff s.phase "LOCAL_RUNNING", undispatched s)

watch_claim-Fires :
    (s : ObservedState) (now : ℕ)
    → Fires (watch_claim s now s.claim_deadline)
    → lease_lost_first s now ≡ false
    → (s.phase ≡ "LOCAL_RUNNING")
      × Overruns now s.lease_expires_at s.execution_deadline s.job_terminal_at
unfolding watch_claim
watch_claim-Fires s now h held = ground (arith, watch_execution-Fires s now)

reconcile-Fires : (s : ObservedState) (now : ℕ) → Fires (reconcile s now) → TimesOut s now
unfolding reconcile resume follow_github cancel_losing_run follow_failure
reconcile-Fires s now h = ground (arith, watch_claim-Fires s now)

fires :
    (s : ObservedState) (now : ℕ)
    → TimesOut s now
    → reconcile s now ≡ decision s select_github execution_timeout_after_exact_job_reread
unfolding reconcile resume follow_failure watch_claim watch_execution lease_lost_first
    execution_timeout_due completion_is_timely lease_is_valid
fires s now h = ground (arith, eq_iff s.phase "LOCAL_RUNNING", undispatched s)

-- The decision is `select_github` for the execution timeout exactly where the phase is
-- `LOCAL_RUNNING`, the execution deadline has passed and fell within the lease (which may have
-- expired since), no end up to the deadline is known, the input is neither ambiguous nor stale, the
-- winner is neither local nor GitHub, no failure is classified, and the proof is valid or the gate
-- stands at no boundary that needs it.
pub execution_timeout_fires :
    (s : ObservedState) (now : ℕ)
    → (reconcile s now ≡ decision s select_github execution_timeout_after_exact_job_reread)
      ↔ TimesOut s now
execution_timeout_fires s now = (λ e. reconcile-Fires s now (ap (λ d. d.reason) e), fires s now)
