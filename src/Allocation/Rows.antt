-- ===== src/Allocation/Rows.antt =====
-- The tables of `SqliteAllocationLedger`, and its actions.
use self_hosted_ci.Prelude.{
  ℕ, String, Bool, true, false, Option, none, some, List, [], ◌∷◌, ◌==◌, exists, string_eq,
}
use self_hosted_ci.Json.{Json}
use self_hosted_ci.Effects.{Act}
use self_hosted_ci.Allocation.{Failure}

pub data State : Type 0 where
  reserved issued claimed running terminal recovery_required cleaned : State

abbrev pub is_reserved : State → Bool
is_reserved reserved = true
is_reserved _ = false

abbrev pub is_issued : State → Bool
is_issued issued = true
is_issued _ = false

abbrev pub is_claimed : State → Bool
is_claimed claimed = true
is_claimed _ = false

abbrev pub is_running : State → Bool
is_running running = true
is_running _ = false

abbrev pub is_terminal : State → Bool
is_terminal terminal = true
is_terminal _ = false

abbrev pub is_recovery_required : State → Bool
is_recovery_required recovery_required = true
is_recovery_required _ = false

abbrev pub is_cleaned : State → Bool
is_cleaned cleaned = true
is_cleaned _ = false

-- The table `runner_allocations`. The integers that are flags are booleans; times are the texts that
-- the payloads hold.
pub record AllocationRow : Type 0 where
  pub allocation_id : String
  pub binding_digest : String
  pub payload_digest : String
  pub state : State
  pub outcome : Option String
  pub jobs_started : ℕ
  pub cleanup_complete : Bool
  pub issued_at : Option String
  pub expires_at : Option String
  pub claim_deadline : Option String
  pub recovery_required : Bool
  pub cleanup_pending : Bool
  pub cleanup_idempotency_key : Option String
  pub cleanup_evidence_digest : Option String
  pub payload_json : Option String
  pub scale_set_name : Option String
  pub garm_scale_set_id : Option String
  pub reservation_json : Option String

abbrev pub row_key : AllocationRow → String
row_key r = r.allocation_id

-- The table `allocation_outcomes`, in the order of `sequence`. A column holds what the event does: a
-- text, a number or null.
pub record OutcomeRow : Type 0 where
  pub event_key : String
  pub cause_code : String
  pub allocation_id : Json
  pub run_id : Json
  pub job_id : Json
  pub repository : Json
  pub pr_number : Json
  pub head_sha : Json
  pub prior_ledger_state : Json
  pub issued_at : Json
  pub claim_deadline : Json
  pub occurred_at : ℕ
  pub delay_bucket : String
  pub executed : Bool
  pub success : Bool

abbrev pub outcome_key : OutcomeRow → String
outcome_key r = r.event_key

-- the database, `PRAGMA user_version` included
pub record Ledger : Type 0 where
  pub version : ℕ
  pub allocations : List AllocationRow
  pub outcomes : List OutcomeRow

abbrev pub Tx : Type 0 → Type 0
Tx A = Act Failure Ledger A

abbrev pub is_one_of : List String → String → Bool
is_one_of names s = exists (λ n. n == s) names

-- `outcome in TERMINAL_OUTCOMES`
abbrev pub is_terminal_outcome : Option String → Bool
is_terminal_outcome none = false
is_terminal_outcome (some s) =
    is_one_of ("success" ∷ "failure" ∷ "cancel" ∷ "timeout" ∷ "force-cancel" ∷ "reboot" ∷ []) s

-- `x == t` where `x` may be `None`
abbrev pub is_value : Option String → String → Bool
is_value none t = false
is_value (some s) t = s == t

-- `x == y` where each may be `None`
abbrev pub same_value : Option String → Option String → Bool
same_value (some s) o = is_value o s
same_value none none = true
same_value none (some t) = false
