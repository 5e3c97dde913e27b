-- ===== src/Broker/Jobs.antt =====
-- `AllocationBroker.job_started` and `_wait_for_observation`: the hook that runs before any step of a
-- job.
use self_hosted_ci.Prelude.{
  ℕ, zero, suc, ◌+◌, ◌-◌, ◌*◌, String, Bool, true, false, not, ◌&&◌, Option, some, List, [], ◌∷◌,
  ltb, leb, ◌==◌, if◌then◌else◌, is_some, nat_eq, string_eq,
}
use self_hosted_ci.Json.{Json, num, Fields, get, or_null, same_json}
use self_hosted_ci.Registry.{is_text_with}
use self_hosted_ci.Effects.{
  Outcome, ok, err, ◌>>=◌, ◌>>◌, pure, raise, raise_if, raise_unless, attempt, rescue, translate,
}
use self_hosted_ci.Allocation.{Services}
use self_hosted_ci.Allocation as Allocation
use self_hosted_ci.Allocation.Payload.{has_exactly}
use self_hosted_ci.Allocation.Admission as Admission
use self_hosted_ci.Allocation.Lifecycle.{no_arguments, transition}
use self_hosted_ci.Broker.{
  Failure, of_ledger, denied, driver_error, other, out_of_fuel, is_jit_error, is_value_error,
  Driver, Broker, on_ledger, outside,
}

-- the fields that are compared, in the order in which a denial names them
abbrev pub context_fields : List String
context_fields =
    "dispatch_sha" ∷ "job_name" ∷ "repository" ∷ "repository_id" ∷ "run_attempt" ∷ "run_id"
    ∷ "scale_set_name" ∷ "tested_sha" ∷ "workflow_ref" ∷ []

abbrev is_integer : Option Json → Bool
is_integer (some (num n)) = true
is_integer _ = false

abbrev all_texts : List String → Fields → Bool
all_texts [] context = true
all_texts (k ∷ ks) context =
    (if k == "run_attempt" then true else is_text_with (λ t. not (t == "")) (get k context))
    && all_texts ks context

-- `JobStartedContext.from_mapping`
abbrev is_context : Fields → Bool
is_context context =
    has_exactly ("runner_name" ∷ context_fields) context
    && is_integer (get "run_attempt" context)
    && all_texts ("runner_name" ∷ context_fields) context

-- Has the payload every field that the context is compared with?
abbrev all_there : List String → Fields → Bool
all_there [] payload = true
all_there (k ∷ ks) payload = is_some (get k payload) && all_there ks payload

-- the fields that differ
unfoldable pub mismatched : List String → Fields → Fields → List String
mismatched [] context payload = []
mismatched (k ∷ ks) context payload =
    let rest = mismatched ks context payload in
    if same_json (or_null (get k payload)) (or_null (get k context)) then rest else k ∷ rest

abbrev denial : String → String → Failure
denial phase error_code =
    denied (record { phase = phase; error_code = error_code; mismatched_fields = [] })

abbrev pub is_nil : List String → Bool
is_nil [] = true
is_nil (k ∷ ks) = false

abbrev pub smaller : ℕ → ℕ → ℕ
smaller a b = if ltb a b then a else b

-- `JobStartedObservationPolicy`, in microseconds
pub record Policy : Type 0 where
  pub timeout : ℕ
  pub poll_interval : ℕ

-- its limits, of the time that the hook has
abbrev pub is_policy : Policy → Bool
is_policy p =
    ltb 0 p.timeout
    && ltb 0 p.poll_interval
    && leb p.timeout ((60 - 5 - 5) * 1000000)
    && leb p.poll_interval p.timeout

-- `except AllocationClaimExpired` and `except InvalidLifecycleTransition`
abbrev claim_denial : Failure → Failure
claim_denial (of_ledger (Allocation.claim_expired)) = denial "ledger-claim" "claim-expired"
claim_denial (of_ledger (Allocation.invalid_transition)) =
    denial "ledger-claim" "claim-state-conflict"
claim_denial e = e

module _ {W : Type 0} where
  -- an observation that has been made, or is made again
  unfoldable pub after_observation :
      Driver W → Policy → ℕ → Broker W (Unit {0}) → Outcome Failure (Unit {0}) → Broker W (Unit {0})
  after_observation d p deadline again (ok u) = do
    now ← outside d.monotonic
    raise_unless (ltb now deadline) driver_error
  after_observation d p deadline again (err e) = do
    raise_unless (is_value_error e) e
    now ← outside d.monotonic
    if ltb now deadline
        then outside (d.sleep (smaller p.poll_interval (deadline - now)))
        else pure tt
    again

  -- `_wait_for_observation`
  unfoldable pub wait_for_observation :
      ℕ → Driver W → Policy → (ℕ → Broker W (Unit {0})) → ℕ → Broker W (Unit {0})
  wait_for_observation zero d p observe deadline = raise out_of_fuel
  wait_for_observation (suc fuel) d p observe deadline = do
    now ← outside d.monotonic
    raise_if (leb deadline now) driver_error
    r ← attempt (observe (deadline - now))
    after_observation d p deadline (wait_for_observation fuel d p observe deadline) r

  -- the admission of the job, and its denials
  unfoldable pub admit_job : Services → String → ℕ → Broker W (Unit {0})
  admit_job sv allocation_id now = do
    answer ← translate claim_denial (
        on_ledger
          (transition sv allocation_id "admit-job" (record no_arguments { now = some now })))
    pure tt

  -- the scale set's disabling, before the hook's deadline
  unfoldable pub disable_in_time : Driver W → String × String → ℕ → Broker W (Unit {0})
  disable_in_time d binding deadline = do
    clock ← outside d.monotonic
    outside (d.disable_scale_set binding.1 binding.0 (some (deadline, clock)))
    now ← outside d.monotonic
    raise_if (leb deadline now) driver_error

  -- the two live proofs, the disabling and the admission, of a job whose context is the payload's
  unfoldable pub prove_and_admit :
      ℕ
      → Services
      → Driver W
      → Policy
      → String
      → Fields
      → Fields
      → String × String
      → ℕ
      → Broker W (Unit {0})
  prove_and_admit fuel sv d p allocation_id context payload binding now = do
    started_at ← outside d.monotonic
    rescue is_jit_error
        (wait_for_observation fuel d p
          (λ remaining. outside (
            d.assert_runner_claim binding.1 binding.0 (get "runner_name" context) payload
              remaining))
          (started_at + p.timeout))
        (raise (denial "runner-claim" "claim-not-observed"))
    rescue is_value_error
        (wait_for_observation fuel d p
          (λ remaining. outside (d.verify_live_job payload context remaining))
          (started_at + p.timeout))
        (raise (denial "live-job" "job-not-verified"))
    rescue is_value_error (disable_in_time d binding (started_at + (60 - 5) * 1000000))
        (raise (denial "runner-disable" "disable-failed"))
    ended_at ← outside d.monotonic
    admit_job sv allocation_id (now + (ended_at - started_at))

  unfoldable pub job_started :
      ℕ → Services → Driver W → Policy → String → Fields → ℕ → Broker W (Unit {0})
  job_started fuel sv d p allocation_id context now = do
    raise_unless (is_context context) (denial "request" "invalid-context")
    payload ←
        rescue is_jit_error (on_ledger (Admission.payload sv allocation_id))
          (raise (denial "allocation" "binding-unavailable"))
    raise_unless (all_there context_fields payload) other
    let fields = mismatched context_fields context payload
    raise_unless (is_nil fields) (
        denied (record {
          phase = "signed-context";
          error_code = "context-mismatch";
          mismatched_fields = fields;
        }))
    binding ←
        rescue is_jit_error (on_ledger (Admission.scale_set_binding allocation_id))
          (raise (denial "allocation" "binding-unavailable"))
    prove_and_admit fuel sv d p allocation_id context payload binding now
