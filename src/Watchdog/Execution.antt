-- ===== src/Watchdog/Execution.antt =====
-- `execute_decision` over a `ReconcileAdapter`: the adapter's calls on the state behind it, in order.
use self_hosted_ci.Watchdog.Planner.{take_over, ActionKind, Decision}
use Prim.Native.String.{◌++◌ as append}
use self_hosted_ci.Watchdog.Planner.{
  ActionKind, Decision, noop, fenced, take_over, block_alert, mark_stale_cancel,
  offer_local_failure, select_github, request_normal_cancel, request_force_cancel,
  verify_force_cancel, dispatch_fallback, complete_fallback_failure,
}
use self_hosted_ci.Prelude.{arith, ◌&&◌, not, false, ◌≢◌, true, if◌then◌else◌, Bool, ◌≡◌, String, ℕ}

-- the values of `ActionKind`
abbrev pub action_text : ActionKind → String
action_text noop = "noop"
action_text fenced = "fenced"
action_text take_over = "take_over"
action_text block_alert = "block_alert"
action_text mark_stale_cancel = "mark_stale_cancel"
action_text offer_local_failure = "offer_local_failure"
action_text select_github = "select_github"
action_text request_normal_cancel = "request_normal_cancel"
action_text request_force_cancel = "request_force_cancel"
action_text verify_force_cancel = "verify_force_cancel"
action_text dispatch_fallback = "dispatch_fallback"
action_text complete_fallback_failure = "complete_fallback_failure"

-- `Decision.idempotency_key`; `decimal` is `str` on the integers
unfoldable pub idempotency_key : (ℕ → String) → Decision → String
idempotency_key decimal d =
    append d.logical_key
      (append ":" (append (decimal d.generation) (append ":" (action_text d.kind))))

-- `ReconcileAdapter`, the program's interface to a durable provider, on states of type `S`.
pub record ReconcileAdapter (S : Type 0) : Type 0 where
  pub owns_live_lease : S → Decision → Bool
  pub action_already_completed : S → String → Bool
  pub perform : S → Decision → S
  pub record_completed : S → String → S

pub data Execution : Type 0 where
  nothing_to_do fenced_off idempotent performed : Execution

abbrev pub needs_no_action : ActionKind → Bool
needs_no_action noop = true
needs_no_action fenced = true
needs_no_action _ = false

abbrev pub is_fenced : ActionKind → Bool
is_fenced fenced = true
is_fenced _ = false

abbrev pub is_take_over : ActionKind → Bool
is_take_over take_over = true
is_take_over _ = false

module _ {S : Type 0} (decimal : ℕ → String) (adapter : ReconcileAdapter S) where
  unfoldable pub execute_decision : Decision → S → Execution × S
  execute_decision d s =
      if needs_no_action d.kind
      then ((if is_fenced d.kind then fenced_off else nothing_to_do), s)
      else if adapter.action_already_completed s (idempotency_key decimal d)
      then (idempotent, s)
      else if not (is_take_over d.kind) && not (adapter.owns_live_lease s d)
      then (fenced_off, s)
      else (performed, adapter.record_completed (adapter.perform s d) (idempotency_key decimal d))

-- What the executor relies on of a provider: an action that has been recorded is reported as completed.
pub record IsDurable {S : Type 0} (adapter : ReconcileAdapter S) : Type 0 where
  pub recorded :
      (s : S) (k : String)
      → adapter.action_already_completed (adapter.record_completed s k) k ≡ true

-- Executing one decision twice has the effect of executing it once: the second time, also under
-- another owner or epoch, nothing is performed and the provider is left as it was.
pub execute_once :
    {S : Type 0} (decimal : ℕ → String) (adapter : ReconcileAdapter S) (d e : Decision) (s s' : S)
    → IsDurable adapter
    → execute_decision decimal adapter d s ≡ (performed, s')
    → idempotency_key decimal e ≡ idempotency_key decimal d
    → needs_no_action e.kind ≡ false
    → execute_decision decimal adapter e s' ≡ (idempotent, s')
unfolding execute_decision
execute_once decimal adapter d e s s' durable h same real =
    ground (arith, durable.recorded (adapter.perform s d) (idempotency_key decimal d))

-- An effect other than a takeover is performed only for a decision whose lease the provider confirms
-- at that moment, and only if it is not recorded as completed.
pub execute_fenced :
    {S : Type 0} (decimal : ℕ → String) (adapter : ReconcileAdapter S) (d : Decision) (s s' : S)
    → execute_decision decimal adapter d s ≡ (performed, s')
    → d.kind ≢ take_over
    → (adapter.owns_live_lease s d ≡ true)
      × (adapter.action_already_completed s (idempotency_key decimal d) ≡ false)
unfolding execute_decision
execute_fenced decimal adapter d s s' h other = ground arith
