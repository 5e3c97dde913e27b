-- ===== src/Timing/Deadlines.antt =====
-- `TimingPolicyV1` and the tests of deadlines, leases and ages.
use self_hosted_ci.Prelude.{
  ℕ, ◌+◌, ◌-◌, ◌*◌, Bool, false, not, ◌&&◌, Option, none, some, ltb, leb, if◌then◌else◌, ℤ, pos,
  negsuc,
}

abbrev pub seconds : ℕ → ℕ
seconds n = n * 1000000

abbrev pub minutes : ℕ → ℕ
minutes n = seconds (n * 60)

-- the durations of `POLICY_V1` that the functions read
pub record TimingPolicy : Type 0 where
  pub heartbeat : ℕ
  pub lease_ttl : ℕ
  pub watchdog_interval : ℕ
  pub api_tolerance : ℕ
  pub inventory_freshness : ℕ
  pub claim_deadline : ℕ
  pub execution_deadline : ℕ
  pub normal_cancel_grace : ℕ
  pub force_cancel_verify : ℕ
  pub reviewer_queue_alert : ℕ
  pub reviewer_queue_max_age : ℕ
  pub preclaim_fallback_sla : ℕ
  pub total_fallback_gate_sla : ℕ

abbrev pub policy_v1 : TimingPolicy
policy_v1 = record {
  heartbeat = seconds 60;
  lease_ttl = minutes 5;
  watchdog_interval = minutes 5;
  api_tolerance = minutes 2;
  inventory_freshness = minutes 5;
  claim_deadline = minutes 10;
  execution_deadline = minutes 40;
  normal_cancel_grace = seconds 90;
  force_cancel_verify = minutes 2;
  reviewer_queue_alert = minutes 10;
  reviewer_queue_max_age = minutes (24 * 60);
  preclaim_fallback_sla = minutes 12;
  total_fallback_gate_sla = minutes 100;
}

-- `none` is the `ValueError`
unfoldable pub deadline_from : ℕ → ℤ → Option ℕ
deadline_from causal (pos d) = if ltb 0 d then some (causal + d) else none
deadline_from causal (negsuc d) = none

unfoldable pub claim_is_timely : Option ℕ → ℕ → Bool
claim_is_timely none deadline = false
claim_is_timely (some started) deadline = leb started deadline

unfoldable pub claim_timeout_due : ℕ → ℕ → Bool → Bool
claim_timeout_due now deadline timely_claim = not timely_claim && ltb deadline now

unfoldable pub lease_is_valid : ℕ → ℕ → Bool
lease_is_valid now expires = ltb now expires

unfoldable pub completion_is_timely : Option ℕ → ℕ → Bool
completion_is_timely none deadline = false
completion_is_timely (some terminal_at) deadline = leb terminal_at deadline

unfoldable pub execution_timeout_due : ℕ → ℕ → Bool → Bool
execution_timeout_due now deadline timely_completion = not timely_completion && ltb deadline now

unfoldable pub force_cancel_due : ℕ → ℕ → Bool
force_cancel_due now requested = leb (requested + policy_v1.normal_cancel_grace) now

unfoldable pub force_cancel_verification_due : ℕ → ℕ → Bool
force_cancel_verification_due now requested = leb (requested + policy_v1.force_cancel_verify) now

-- `now - since >= limit` for a positive limit: a `since` in the future has a negative age
abbrev pub age_reaches : ℕ → ℕ → ℕ → Bool
age_reaches now since limit = leb since now && leb limit (now - since)

unfoldable pub queue_alert_due : ℕ → ℕ → Bool
queue_alert_due now enqueued = age_reaches now enqueued policy_v1.reviewer_queue_alert

unfoldable pub queue_dead_letter_due : ℕ → ℕ → Bool
queue_dead_letter_due now enqueued = age_reaches now enqueued policy_v1.reviewer_queue_max_age

unfoldable pub heartbeat_due : ℕ → ℕ → Bool
heartbeat_due now last = age_reaches now last policy_v1.heartbeat

unfoldable pub watchdog_due : ℕ → ℕ → Bool
watchdog_due now last = age_reaches now last policy_v1.watchdog_interval

unfoldable pub inventory_is_fresh : ℕ → ℕ → Bool
inventory_is_fresh now observed =
    leb observed now && leb (now - observed) policy_v1.inventory_freshness

unfoldable pub api_tolerance_breached : ℕ → ℕ → Bool
api_tolerance_breached now threshold = ltb (threshold + policy_v1.api_tolerance) now

unfoldable pub preclaim_fallback_sla_breached : ℕ → ℕ → Bool
preclaim_fallback_sla_breached now dispatched =
    ltb (dispatched + policy_v1.preclaim_fallback_sla) now

unfoldable pub total_fallback_sla_breached : ℕ → ℕ → Bool
total_fallback_sla_breached now started = ltb (started + policy_v1.total_fallback_gate_sla) now

unfoldable pub http_ack_within_target : ℤ → Bool → Bool
http_ack_within_target (pos d) durable = durable && ltb d (seconds 10)
http_ack_within_target (negsuc d) durable = false
