-- ===== src/Allocation/Outcomes.antt =====
-- `SqliteAllocationLedger.append_outcome`, `delay_bucket`, `has_outcome_cause` and `outcomes`.
use Prim.Native.Nat.{◌/◌}
use self_hosted_ci.Prelude.{
  ℕ, ◌+◌, ◌-◌, ◌*◌, String, Bool, true, false, not, ◌&&◌, ◌||◌, Option, none, some, List, [], ◌∷◌,
  ◌++◌, length, ltb, leb, ◌==◌, if◌then◌else◌, exists, lookup, nat_eq, string_eq,
}
use self_hosted_ci.Json.{Json, text, arr, obj, Fields, get, is_true, or_null, same_json}
use self_hosted_ci.Texts.{
  codes, all, is_digit, is_letter, is_positive_decimal, is_repository, is_sha,
}
use self_hosted_ci.Registry.{is_null, is_positive, is_text_with}
use self_hosted_ci.Approval.{text_value}
use self_hosted_ci.Effects.{
  ◌>>=◌, ◌>>◌, pure, raise, raise_if, raise_unless, or_raise, gets, modify,
}
use self_hosted_ci.Allocation.{jit_error, other, Services}
use self_hosted_ci.Allocation.Formats.{parse_time}
use self_hosted_ci.Allocation.Payload.{has_exactly}
use self_hosted_ci.Allocation.Rows.{OutcomeRow, outcome_key, Tx, is_one_of}

-- `delay_bucket`, once the deadline has been read
abbrev pub bucket : ℕ → ℕ → String
bucket deadline now =
    if ltb now deadline
    then "before-deadline"
    else if ltb now (deadline + 60 * 1000000)
    then "0-60s"
    else if ltb now (deadline + 300 * 1000000)
    then "1-5m"
    else ">5m"

unfoldable pub delay_bucket : Services → Option String → ℕ → Tx String
delay_bucket sv none now = pure "unknown"
delay_bucket sv (some claim_deadline) now = do
  deadline ← or_raise (parse_time sv.from_isoformat claim_deadline) jit_error
  pure (bucket deadline now)

-- `OUTCOME_CAUSES` and `DELAY_BUCKETS`
abbrev pub is_cause : String → Bool
is_cause = is_one_of (
    "success" ∷ "job-failure" ∷ "job-cancelled" ∷ "job-timeout" ∷ "worker-error"
    ∷ "cancel-not-converged" ∷ "claim-expired" ∷ "claim-state-conflict" ∷ "claim-not-observed"
    ∷ "garm-timeout" ∷ "garm-runtime-erofs" ∷ "superseded-head" ∷ "superseded-base"
    ∷ "superseded-merge" ∷ "pr-closed" ∷ "stale-merge-ref" ∷ [])

abbrev pub is_bucket : String → Bool
is_bucket = is_one_of ("before-deadline" ∷ "0-60s" ∷ "1-5m" ∷ ">5m" ∷ "unknown" ∷ [])

abbrev is_state_name : String → Bool
is_state_name = is_one_of (
    "reserved" ∷ "issued" ∷ "claimed" ∷ "running" ∷ "terminal" ∷ "recovery_required" ∷ "cleaned"
    ∷ "absent" ∷ [])

-- `[A-Za-z0-9:._-]{1,200}`
abbrev is_event_key : String → Bool
is_event_key s =
    ltb 0 (length (codes s))
    && leb (length (codes s)) 200
    && all (λ c. is_letter c || is_digit c || c == b':' || c == b'.' || c == b'_' || c == b'-')
        (codes s)

abbrev null_or : (String → Bool) → Option Json → Bool
null_or test o = is_null o || is_text_with test o

abbrev is_bool : Option Json → Bool
is_bool (some (Json.bool b)) = true
is_bool _ = false

-- a list or an object, which no set holds
abbrev is_container : Option Json → Bool
is_container (some (arr xs)) = true
is_container (some (obj fs)) = true
is_container _ = false

-- the tests before that of a state's membership, and those after it
abbrev is_outcome_event : Services → Fields → Bool
is_outcome_event sv event =
    is_bool (get "executed" event)
    && is_bool (get "success" event)
    && (not (is_true (get "success" event))
        || is_true (get "executed" event)
          && is_text_with (λ s. s == "success") (get "cause_code" event))
    && null_or sv.is_uuid (get "allocation_id" event)
    && null_or is_positive_decimal (get "run_id" event)
    && null_or is_positive_decimal (get "job_id" event)
    && null_or is_repository (get "repository" event)
    && (is_null (get "pr_number" event) || is_positive (get "pr_number" event))
    && null_or is_sha (get "head_sha" event)

abbrev is_time : Services → String → Bool
is_time sv s = elim (parse_time sv.from_isoformat s) [ none ↦ false | some t ↦ true ]

unfoldable pub validate_event : Services → Fields → Tx (Unit {0})
validate_event sv event = do
  raise_unless
      (has_exactly
        ("event_key" ∷ "cause_code" ∷ "allocation_id" ∷ "run_id" ∷ "job_id" ∷ "repository"
          ∷ "pr_number" ∷ "head_sha" ∷ "prior_ledger_state" ∷ "issued_at" ∷ "claim_deadline"
          ∷ "delay_bucket" ∷ "executed" ∷ "success" ∷ [])
        event)
      jit_error
  raise_unless (is_text_with is_event_key (get "event_key" event)) jit_error
  raise_if (is_container (get "cause_code" event)) other
  raise_unless (is_text_with is_cause (get "cause_code" event)) jit_error
  raise_if (is_container (get "delay_bucket" event)) other
  raise_unless (is_text_with is_bucket (get "delay_bucket" event)) jit_error
  raise_unless (is_outcome_event sv event) jit_error
  raise_if (is_container (get "prior_ledger_state" event)) other
  raise_unless (null_or is_state_name (get "prior_ledger_state" event)) jit_error
  raise_unless
      (null_or (is_time sv) (get "issued_at" event)
        && null_or (is_time sv) (get "claim_deadline" event))
      jit_error

-- the stamp of an instant, in whole seconds
abbrev pub stamp : ℕ → ℕ
stamp t = t / 1000000

abbrev pub outcome_row : Fields → ℕ → OutcomeRow
outcome_row event now = record {
  event_key = text_value (get "event_key" event);
  cause_code = text_value (get "cause_code" event);
  allocation_id = or_null (get "allocation_id" event);
  run_id = or_null (get "run_id" event);
  job_id = or_null (get "job_id" event);
  repository = or_null (get "repository" event);
  pr_number = or_null (get "pr_number" event);
  head_sha = or_null (get "head_sha" event);
  prior_ledger_state = or_null (get "prior_ledger_state" event);
  issued_at = or_null (get "issued_at" event);
  claim_deadline = or_null (get "claim_deadline" event);
  occurred_at = stamp now;
  delay_bucket = text_value (get "delay_bucket" event);
  executed = is_true (get "executed" event);
  success = is_true (get "success" event);
}

abbrev same_bool : Bool → Bool → Bool
same_bool true b = b
same_bool false b = not b

-- the columns that a repeated event must have in common with the one that is there
abbrev pub is_same_event : OutcomeRow → OutcomeRow → Bool
is_same_event a b =
    a.cause_code == b.cause_code
    && same_json a.allocation_id b.allocation_id
    && same_json a.run_id b.run_id
    && same_json a.job_id b.job_id
    && same_json a.repository b.repository
    && same_json a.pr_number b.pr_number
    && same_json a.head_sha b.head_sha
    && same_bool a.executed b.executed
    && same_bool a.success b.success

-- `DELETE FROM allocation_outcomes WHERE occurred_at < ?`
unfoldable pub recent : ℕ → List OutcomeRow → List OutcomeRow
recent cutoff [] = []
recent cutoff (r ∷ rows) =
    if ltb r.occurred_at cutoff then recent cutoff rows else r ∷ recent cutoff rows

abbrev pub cutoff_of : ℕ → ℕ → ℕ
cutoff_of retention_days now = stamp (now - retention_days * 86400000000)

-- Is the event new? The deletion of old events is undone where it is not.
unfoldable pub append_outcome : Services → ℕ → Fields → ℕ → Tx Bool
unfolding validate_event
append_outcome sv retention_days event now = do
  validate_event sv event
  let row = outcome_row event now
  known ←
      gets λ s. lookup outcome_key row.event_key (recent (cutoff_of retention_days now) s.outcomes)
  elim known [
    | some r ↦ if is_same_event r row then pure false else raise jit_error
    | none ↦ (do
      modify
          λ s. record s { outcomes = recent (cutoff_of retention_days now) s.outcomes ++ row ∷ [] }
      pure true)
  ]

abbrev is_text_of : Json → String → Bool
is_text_of (text s) t = s == t
is_text_of _ t = false

unfoldable pub has_outcome_cause : String → List String → Tx Bool
has_outcome_cause allocation_id causes = gets λ s.
    exists (λ r. is_text_of r.allocation_id allocation_id && is_one_of causes r.cause_code)
      s.outcomes

unfoldable pub since_rows : ℕ → List OutcomeRow → List OutcomeRow
since_rows since [] = []
since_rows since (r ∷ rows) =
    if leb since r.occurred_at then r ∷ since_rows since rows else since_rows since rows

unfoldable pub outcomes : ℕ → ℕ → Tx (List OutcomeRow)
outcomes since now = do
  raise_if (ltb now since) jit_error
  gets λ s. since_rows (stamp since) s.outcomes
