-- ===== src/Broker/Outcomes.antt =====
-- `AllocationBroker.record_outcome`.
use self_hosted_ci.Prelude.{
  pair_eq, string_eq, ℕ, String, Bool, false, Option, none, some, [], ◌∷◌, ◌==◌, if◌then◌else◌,
  is_some, nat_eq,
}
use self_hosted_ci.Json.{Json, text, end, field, get, or_null}
use self_hosted_ci.Registry.{is_null}
use self_hosted_ci.Texts.{codes}
use self_hosted_ci.CheckDelivery.{is_truthy}
use self_hosted_ci.Effects.{◌>>=◌, pure}
use self_hosted_ci.Allocation.{Services}
use self_hosted_ci.Allocation.Formats.{strip_prefix}
use self_hosted_ci.Allocation.Rows.{
  State, reserved, issued, claimed, running, terminal, recovery_required, cleaned,
}
use self_hosted_ci.Allocation.Lifecycle.{get_record}
use self_hosted_ci.Allocation.Outcomes.{append_outcome, delay_bucket, has_outcome_cause}
use self_hosted_ci.Broker.{Broker, on_ledger}
use self_hosted_ci.Broker.Recovery.{binding_of}

-- Python's `str` of an identifier, and `isoformat` of an instant, with its `Z`
pub record Formatters : Type 0 where
  pub str : Json → String
  pub isoformat : ℕ → String

-- the keyword arguments
pub record Report : Type 0 where
  pub event_key : String
  pub cause_code : String
  pub now : ℕ
  pub allocation_id : Option String
  pub run_id : Option Json
  pub job_id : Option Json
  pub repository : Option Json
  pub pr_number : Option Json
  pub head_sha : Option Json
  pub executed : Option Bool
  pub success : Bool
  pub prior_ledger_state : Option String

abbrev state_name : State → String
state_name reserved = "reserved"
state_name issued = "issued"
state_name claimed = "claimed"
state_name running = "running"
state_name terminal = "terminal"
state_name recovery_required = "recovery_required"
state_name cleaned = "cleaned"

-- `x or y`
abbrev or_json : Option Json → Option Json → Option Json
or_json x y = if is_truthy x then x else y

abbrev or_text : Option String → String → String
or_text none t = t
or_text (some s) t = if s == "" then t else s

abbrev text_or_null : Option String → Json
text_or_null none = Json.null
text_or_null (some s) = text s

abbrev or_false : Option Bool → Bool
or_false none = false
or_false (some b) = b

abbrev str_or_null : Formatters → Option Json → Json
str_or_null f o = if is_null o then Json.null else text (f.str (or_null o))

-- what the ledger knows of an outcome: the state before it, two times, and a report that names its run
pub record Known : Type 0 where
  pub prior_state : Option String
  pub issued_at : Option String
  pub claim_deadline : Option String
  pub report : Report

abbrev starts_with : String → String → Bool
starts_with prefix s = is_some (strip_prefix (codes prefix) (codes s))

module _ {W : Type 0} where
  unfoldable pub identify : Services → Formatters → Report → Option String → Broker W Known
  identify sv f q none =
      pure (record { prior_state = none; issued_at = none; claim_deadline = none; report = q })
  identify sv f q (some id) = do
    found ← on_ledger (get_record sv id)
    identity ← binding_of sv id
    pure (record {
      prior_state = some (or_text q.prior_ledger_state (state_name found.columns.state));
      issued_at = some (f.isoformat found.issued_at);
      claim_deadline = some (f.isoformat found.claim_deadline);
      report = record q {
        repository = or_json q.repository (get "repository" identity);
        pr_number = or_json q.pr_number (get "pr_number" identity);
        head_sha = or_json q.head_sha (get "head_sha" identity);
        run_id = or_json q.run_id (get "run_id" identity);
        job_id = or_json q.job_id (get "job_id" identity);
        executed = some (elim q.executed [ none ↦ found.columns.jobs_started == 1 | some b ↦ b ]);
      };
    })

  -- a job's own end says nothing new of an allocation that was denied
  unfoldable pub is_denied : Report → Broker W Bool
  is_denied q = elim q.allocation_id [
    | none ↦ pure false
    | some id ↦
        if starts_with "job-" q.cause_code
        then on_ledger (
            has_outcome_cause id (
              "claim-expired" ∷ "claim-state-conflict" ∷ "claim-not-observed" ∷ "garm-timeout"
              ∷ "garm-runtime-erofs" ∷ []))
        else pure false
  ]

  unfoldable pub record_outcome : Services → Formatters → ℕ → Report → Broker W Bool
  record_outcome sv f retention_days q = do
    known ← identify sv f q q.allocation_id
    denied ← is_denied q
    if denied then pure false else (do
      delay ← on_ledger (delay_bucket sv known.claim_deadline q.now)
      on_ledger (
          append_outcome sv retention_days
            (field "event_key" (text q.event_key) (
              field "cause_code" (text q.cause_code) (
                field "allocation_id" (text_or_null q.allocation_id) (
                  field "run_id" (str_or_null f known.report.run_id) (
                    field "job_id" (str_or_null f known.report.job_id) (
                      field "repository" (or_null known.report.repository) (
                        field "pr_number" (or_null known.report.pr_number) (
                          field "head_sha" (or_null known.report.head_sha) (
                            field "prior_ledger_state" (text_or_null known.prior_state) (
                              field "issued_at" (text_or_null known.issued_at) (
                                field "claim_deadline" (text_or_null known.claim_deadline) (
                                  field "delay_bucket" (text delay) (
                                    field "executed" (Json.bool (or_false known.report.executed))
                                      (field "success" (Json.bool q.success) end))))))))))))))
            q.now))
