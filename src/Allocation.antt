-- ===== src/Allocation.antt =====
-- github_automation/runner_jit.py: signed runner allocations, their reservations, and the ledger of
-- both. An instant is its UTC time in microseconds.
pub mod Formats
pub mod Payload
pub mod Rows
pub mod Admission
pub mod Lifecycle
pub mod Outcomes
pub mod Opening
pub mod Calls
pub mod Lives
pub mod Steps
pub mod Updates
pub mod Transitions
pub mod Reading
pub mod Migration
pub mod Histories
pub mod Starts
pub mod Uniqueness
pub mod Nonces
pub mod Cleanups
pub mod Signing
mod Tests
pub mod Moves
use self_hosted_ci.Prelude.{ℕ, String, Bool, Option}
use self_hosted_ci.Json.{Json, Fields}

-- `RunnerJitError`, `ApprovalExpired`, `AllocationClaimExpired`, a `RunnerJitTemporalError` of neither
-- kind, `InvalidLifecycleTransition`, and what else is raised: a `CanonicalizationError`, a
-- `JSONDecodeError` or a `TypeError`
pub data Failure : Type 0 where
  jit_error approval_expired claim_expired temporal_error invalid_transition other : Failure

-- `canonicalize_jcs` and `hashlib.sha256(…).hexdigest()`, `json.loads`, `datetime.fromisoformat`, the
-- test that `str(UUID(s)) == s`, and, for the keys that a call is given, `spki_fingerprint`,
-- `verify_detached` and `sign_detached` in the domain of a version. `none` is an exception.
pub record Services : Type 0 where
  pub canonicalize : Fields → Option String
  pub sha256 : String → String
  pub loads : String → Option Json
  pub from_isoformat : String → Option ℕ
  pub is_uuid : String → Bool
  pub fingerprint : String
  pub verify : Fields → Json → ℕ → Bool
  pub sign : Fields → ℕ → Json
