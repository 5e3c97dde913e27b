-- ===== src/Timing/Failures.antt =====
-- `FailureClass`, `FailureOutcome` and `classify_failure`.
use self_hosted_ci.Prelude.{ℕ, Bool, true, false, Option, none, some, if◌then◌else◌}
use self_hosted_ci.Timing.Deadlines.{completion_is_timely}

pub data FailureClass : Type 0 where
  functional_failure stale_input infra_pretest infra_transport_loss : FailureClass
  protocol_failure control_failure fallback_failure : FailureClass

pub data FailureOutcome : Type 0 where
  local_final_failure fallback_once stale_cancel block_alert : FailureOutcome
  fallback_final_failure evidence_only_fallback : FailureOutcome

-- a functional failure counts only with an admission and both times
unfoldable pub classify_functional : Bool → Option ℕ → Option ℕ → FailureOutcome
classify_functional false terminal_at deadline = block_alert
classify_functional true none deadline = block_alert
classify_functional true (some t) none = block_alert
classify_functional true (some t) (some deadline) =
    if completion_is_timely (some t) deadline then local_final_failure else evidence_only_fallback

unfoldable pub classify_failure : FailureClass → Bool → Option ℕ → Option ℕ → FailureOutcome
classify_failure functional_failure admitted t deadline = classify_functional admitted t deadline
classify_failure stale_input admitted t deadline = stale_cancel
classify_failure infra_pretest admitted t deadline = fallback_once
classify_failure infra_transport_loss admitted t deadline = fallback_once
classify_failure protocol_failure admitted t deadline = block_alert
classify_failure control_failure admitted t deadline = block_alert
classify_failure fallback_failure admitted t deadline = fallback_final_failure
