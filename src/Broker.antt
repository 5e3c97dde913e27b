-- ===== src/Broker.antt =====
-- github_automation/runner_jit_broker.py: the broker of runner allocations, on the allocation ledger
-- and a driver of the GARM service, which acts on a world of type `W`.
pub mod Recovery
pub mod Jobs
pub mod Outcomes
pub mod Moves
pub mod Cleaning
pub mod Guarantees
pub mod Starting
pub mod Waiting
mod Tests
use self_hosted_ci.Prelude.{ℕ, String, Bool, true, false, not, ◌||◌, Option, List}
use self_hosted_ci.Json.{Json, Fields}
use self_hosted_ci.Effects.{Outcome, ok, err, Act}
use self_hosted_ci.Allocation as Allocation
use self_hosted_ci.Allocation.{Services}
use self_hosted_ci.Allocation.Rows.{Ledger}

-- `JobStartedDenial`: its phase, its code, and the fields that do not match
pub record Denial : Type 0 where
  pub phase : String
  pub error_code : String
  pub mismatched_fields : List String

-- What the ledger raises, which is a `RunnerJitError` unless it is `other`; a `RunnerJitError` of a
-- driver; a denial; `ReservePartialFailure` with its allocation; an `OSError`, a `ValueError`, and what
-- else is raised. `out_of_fuel` is none of the program's.
pub data Failure : Type 0 where
  of_ledger : Allocation.Failure → Failure
  denied : Denial → Failure
  reserve_partial : String → Failure
  driver_error os_error value_error other out_of_fuel : Failure

abbrev of_kind : Allocation.Failure → Bool
of_kind Allocation.other = false
of_kind _ = true

-- `except RunnerJitError`
abbrev pub is_jit_error : Failure → Bool
is_jit_error (of_ledger e) = of_kind e
is_jit_error (denied d) = true
is_jit_error driver_error = true
is_jit_error _ = false

-- `except (OSError, ValueError)`: a `RunnerJitError` is a `ValueError`
abbrev pub is_value_error : Failure → Bool
is_value_error os_error = true
is_value_error value_error = true
is_value_error e = is_jit_error e

-- `except Exception`
abbrev pub is_exception : Failure → Bool
is_exception out_of_fuel = false
is_exception _ = true

module _ (W : Type 0) where
  pub record State : Type 0 where
    pub ledger : Ledger
    pub world : W

  -- `GarmAllocationDriver`, `LiveWorkflowJobVerifier` and the monotonic clock, in microseconds. The timeout
  -- of `disable_scale_set` is the difference of two readings of the clock.
  pub record Driver : Type 0 where
    pub assert_no_persistent_scale_set : Act Failure W (Unit {0})
    pub ensure_disabled_scale_set : Fields → Act Failure W String
    pub bind_signed_allocation : String → Fields → Fields → Act Failure W (Unit {0})
    pub find_scale_set : String → Act Failure W (Option String)
    pub enable_scale_set : String → String → Act Failure W (Unit {0})
    pub assert_runner_claim : String → String → Option Json → Fields → ℕ → Act Failure W (Unit {0})
    pub disable_scale_set : String → String → Option (ℕ × ℕ) → Act Failure W (Unit {0})
    pub drain_scale_set : String → String → Act Failure W (Unit {0})
    pub delete_scale_set : String → String → Act Failure W (Unit {0})
    pub assert_scale_set_absent : String → Act Failure W (Unit {0})
    pub measure_cleanup : String → String → Act Failure W Fields
    pub assert_runtime_empty : Act Failure W (Unit {0})
    pub verify_live_job : Fields → Fields → ℕ → Act Failure W (Unit {0})
    pub monotonic : Act Failure W ℕ
    pub sleep : ℕ → Act Failure W (Unit {0})

  abbrev pub Broker : Type 0 → Type 0
  Broker A = Act Failure State A

-- what the ledger raises, to the broker
abbrev pub from_ledger : {A : Type 0} → Outcome Allocation.Failure A → Outcome Failure A
from_ledger (ok a) = ok a
from_ledger (err e) = err (of_ledger e)

module _ {W A : Type 0} where
  -- a call of the ledger, and one of the driver
  unfoldable pub on_ledger : Act Allocation.Failure Ledger A → Broker W A
  on_ledger m s = (from_ledger (m s.ledger).0, record s { ledger = (m s.ledger).1 })

  unfoldable pub outside : Act Failure W A → Broker W A
  outside m s = ((m s.world).0, record s { world = (m s.world).1 })
