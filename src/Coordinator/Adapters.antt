-- ===== src/Coordinator/Adapters.antt =====
-- The exceptions, the adapters' protocols and the calls that raise, on states of type `S`.
use self_hosted_ci.Prelude.{false, true, ℕ, String, Bool, Option, none, some}
use self_hosted_ci.Json.{Json, Fields}

-- `ReserveDefinitelyUnavailableBeforeEffect`, `ReservePartialFailure` with its `allocation_id`, any
-- other `CoordinatorUnavailable`, `ProtocolFailure`, an unbound local, and what else an adapter raises
pub data Failure : Type 0 where
  reserve_unavailable : Failure
  reserve_partial : String → Failure
  unavailable protocol_failure unbound_local other : Failure

pub data Outcome (A : Type 0) : Type 0 where
  ok : A → Outcome A
  err : Failure → Outcome A

abbrev pub Act : Type 0 → Type 0 → Type 0
Act S A = S → Outcome A × S

module _ {S : Type 0} where
  abbrev pub pure : {A : Type 0} → A → Act S A
  pure a s = (ok a, s)

  abbrev pub raise : {A : Type 0} → Failure → Act S A
  raise e s = (err e, s)

  unfoldable pub raise_unless : Bool → Failure → Act S (Unit {0})
  raise_unless true e s = (ok tt, s)
  raise_unless false e s = (err e, s)

  unfoldable pub or_raise : {A : Type 0} → Option A → Failure → Act S A
  or_raise none e s = (err e, s)
  or_raise (some a) e s = (ok a, s)

  infixl 5 ◌>>=◌ ◌>>◌
  -- opening this opens the tests too
  unfoldable pub ◌>>=◌ : {A B : Type 0} → Act S A → (A → Act S B) → Act S B
  unfolding raise_unless or_raise
  ◌>>=◌ m f s = let (r, s') = m s in elim r [ ok a ↦ f a s' | err e ↦ raise e s' ]

  abbrev pub ◌>>◌ : {A B : Type 0} → Act S A → Act S B → Act S B
  m >> k = m >>= λ _. k

-- what the function reads of an `ObservedWorkflowJob`
pub record Job : Type 0 where
  pub run_id : ℕ
  pub run_attempt : ℕ
  pub job_id : ℕ
  pub job_name : String
  pub dispatch_sha : String

-- the methods of `DispatchProgress`
pub data Progress : Type 0 where
  reserved finalized : Fields → Progress
  dispatching finalizing recovered dispatch_ambiguous : Progress
  dispatched : ℕ → Progress
  observed : Job → Progress
  allocation_window : String → String → Progress

-- `LocalAllocationAdapter`, `ChildDispatchAdapter`, `BoundedAllocationSigner` and `DispatchProgress`.
-- `report` of no progress adapter does nothing. `from_mapping` is the validation of a package;
-- `isoformat` is the text of a clock reading in seconds.
pub record Adapters (S : Type 0) : Type 0 where
  pub reserve : Fields → Act S Fields
  pub finalize : Fields → Act S Fields
  pub recover : String → Act S Fields
  pub dispatch_package : Fields → Act S Json
  pub observe_exact_job : ℕ → String → Act S Job
  pub sign_allocation : Fields → Act S Fields
  pub progress : Option (Progress → Act S (Unit {0}))
  pub from_mapping : Fields → Option Fields
  pub decimal : ℕ → String
  pub isoformat : ℕ → String
