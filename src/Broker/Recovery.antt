-- ===== src/Broker/Recovery.antt =====
-- `AllocationBroker.reserve`, `finalize`, `finish`, `prove_clean`, `recover_all`, `recover`,
-- `_delete_exact` and `_wait_for_cleanup`.
use self_hosted_ci.Prelude.{
  ℕ, zero, suc, ◌+◌, ◌*◌, String, Bool, true, not, ◌&&◌, ◌||◌, Option, none, some, List, [], ◌∷◌,
  leb, ◌==◌, if◌then◌else◌, is_none, is_some, nat_eq, string_eq,
}
use self_hosted_ci.Json.{Json, num, obj, text, Fields, end, field, get, merge}
use self_hosted_ci.Approval.{text_value, optional_text}
use self_hosted_ci.Effects.{
  Outcome, ok, err, ◌>>=◌, ◌>>◌, pure, raise, raise_if, raise_unless, or_raise, attempt, rescue,
}
use self_hosted_ci.Allocation.{Services}
use self_hosted_ci.Allocation.Payload.{has_exactly}
use self_hosted_ci.Allocation.Rows.{is_running, is_terminal, is_cleaned}
use self_hosted_ci.Allocation.Admission as Admission
use self_hosted_ci.Allocation.Lifecycle.{no_arguments, AllocationRecord, transition, get_record}
use self_hosted_ci.Broker.{
  Failure, reserve_partial, other, driver_error, out_of_fuel, is_jit_error, is_exception, Driver,
  Broker, on_ledger, outside,
}

-- `value[k]` of a text
unfoldable pub text_at : {S : Type 0} → String → Fields → S → Outcome Failure String × S
text_at k fields = or_raise (optional_text (get k fields)) other

-- `envelope["payload"]`, of an envelope that the ledger has verified
abbrev payload_of : Fields → Option Fields
payload_of envelope = elim (get "payload" envelope) [ some (obj fields) ↦ some fields | _ ↦ none ]

-- the evidence of a cleanup
abbrev evidence_of : String → AllocationRecord → Fields → Fields
evidence_of allocation_id pending measured =
    merge
      (field "allocation_id" (text allocation_id) (
        field "cleanup_idempotency_key"
          (elim pending.columns.cleanup_idempotency_key [ none ↦ Json.null | some k ↦ text k ])
          (field "jobs_started" (num pending.columns.jobs_started) end)))
      measured

abbrev absent_answer : String → Fields
absent_answer allocation_id =
    field "allocation_id" (text allocation_id) (field "state" (text "absent") end)

abbrev cleaned_answer : String → String → Fields
cleaned_answer allocation_id scale_set_name =
    field "allocation_id" (text allocation_id)
      (field "runner_label" (text scale_set_name) (field "state" (text "cleaned") end))

module _ {W : Type 0} where
  -- `except Exception as exc: raise ReservePartialFailure(allocation_id)`
  unfoldable pub reserve : Services → Driver W → Fields → ℕ → Broker W Fields
  reserve sv d reservation now = do
    outside d.assert_no_persistent_scale_set
    raise_unless
        (is_some (get "allocation_id" reservation) && is_some (get "scale_set_name" reservation))
        other
    answer ← on_ledger (Admission.reserve sv reservation now)
    let allocation_id = text_value (get "allocation_id" reservation)
    let scale_set_name = text_value (get "scale_set_name" reservation)
    scale_set_id ←
        rescue is_exception
          (do
            id ← outside (d.ensure_disabled_scale_set reservation)
            bound ← on_ledger (Admission.bind_scale_set allocation_id id scale_set_name)
            pure id)
          (raise (reserve_partial allocation_id))
    pure (
        field "allocation_id" (text allocation_id) (
          field "scale_set_id" (text scale_set_id) (
            field "runner_label" (text scale_set_name)
              (field "state" (text "reserved-disabled") end))))

  unfoldable pub finalize : Services → Driver W → Fields → String → ℕ → Broker W Fields
  finalize sv d envelope pinned_fingerprint now = do
    answer ← on_ledger (Admission.finalize sv envelope pinned_fingerprint now)
    payload ← or_raise (payload_of envelope) other
    allocation_id ← text_at "allocation_id" payload
    binding ← on_ledger (Admission.scale_set_binding allocation_id)
    outside (d.bind_signed_allocation binding.1 payload envelope)
    outside (d.enable_scale_set binding.1 binding.0)
    pure (
        field "allocation_id" (text allocation_id) (
          field "scale_set_id" (text binding.1) (
            field "runner_label" (text binding.0)
              (field "state" (text "enabled-awaiting-claim") end))))

  unfoldable pub delete_exact : Driver W → String → String → Broker W (Unit {0})
  delete_exact d scale_set_id scale_set_name = do
    there ← outside (d.find_scale_set scale_set_name)
    if is_none there then outside (d.assert_scale_set_absent scale_set_name) else (do
      outside (d.disable_scale_set scale_set_id scale_set_name none)
      outside (d.drain_scale_set scale_set_id scale_set_name)
      outside (d.delete_scale_set scale_set_id scale_set_name)
      outside (d.assert_scale_set_absent scale_set_name))

  -- the scale set that is known is deleted, and else there is none
  unfoldable pub delete_known : Driver W → Option String → String → Broker W (Unit {0})
  delete_known d none scale_set_name = outside (d.assert_scale_set_absent scale_set_name)
  delete_known d (some id) scale_set_name = delete_exact d id scale_set_name

  -- a measurement that has been made, or is made again
  unfoldable pub after_measurement :
      Driver W → ℕ → Broker W (Unit {0}) → Outcome Failure Fields → Broker W (Unit {0})
  after_measurement d deadline again (ok measured) = pure tt
  after_measurement d deadline again (err e) = do
    raise_unless (is_jit_error e) e
    now ← outside d.monotonic
    raise_if (leb deadline now) e
    outside (d.sleep 2000000)
    again

  -- the loop of `_wait_for_cleanup`
  unfoldable pub converge : ℕ → Driver W → String → String → ℕ → Broker W (Unit {0})
  converge zero d allocation_id scale_set_name deadline = raise out_of_fuel
  converge (suc fuel) d allocation_id scale_set_name deadline = do
    r ← attempt (outside (d.measure_cleanup allocation_id scale_set_name))
    after_measurement d deadline (converge fuel d allocation_id scale_set_name deadline) r

  unfoldable pub wait_for_cleanup : ℕ → Driver W → String → String → Broker W (Unit {0})
  wait_for_cleanup fuel d allocation_id scale_set_name = do
    now ← outside d.monotonic
    converge fuel d allocation_id scale_set_name (now + 600 * 1000000)

  -- the payload of an allocation, or its reservation
  unfoldable pub binding_of : Services → String → Broker W Fields
  binding_of sv allocation_id =
      rescue is_jit_error (on_ledger (Admission.payload sv allocation_id))
        (on_ledger (Admission.reservation sv allocation_id))

  -- the id of the scale set, bound where the driver finds it
  unfoldable pub find_bound : Driver W → String → String → Broker W (Option String)
  find_bound d allocation_id scale_set_name =
      rescue is_jit_error
        (do binding ← on_ledger (Admission.scale_set_binding allocation_id); pure (some binding.1))
        (do
          found ← outside (d.find_scale_set scale_set_name)
          elim found [
            | none ↦ pure none
            | some id ↦ (do
              bound ← on_ledger (Admission.bind_scale_set allocation_id id scale_set_name)
              pure (some id))
          ])

  unfoldable pub acknowledge : Services → Driver W → String → String → Broker W AllocationRecord
  acknowledge sv d allocation_id scale_set_name = do
    pending ← on_ledger (transition sv allocation_id "recover" no_arguments)
    measured ← outside (d.measure_cleanup allocation_id scale_set_name)
    raise_unless
        (has_exactly
          ("registration_removed" ∷ "workspace_removed" ∷ "token_removed" ∷ "container_removed"
            ∷ "allocation_removed" ∷ "orphan_registrations" ∷ [])
          measured)
        driver_error
    on_ledger (
        transition sv allocation_id "ack-recovery-cleanup" (record no_arguments {
          cleanup_idempotency_key = pending.columns.cleanup_idempotency_key;
          cleanup_evidence = some (evidence_of allocation_id pending measured);
        }))

  -- what the ledger records of a runner that is gone
  unfoldable pub settle_record :
      Services → Driver W → AllocationRecord → String → String → Broker W (Unit {0})
  settle_record sv d found allocation_id scale_set_name =
      if is_terminal found.columns.state
      then (do answer ← on_ledger (transition sv allocation_id "cleanup" no_arguments); pure tt)
      else if is_cleaned found.columns.state
      then pure tt
      else (do answer ← acknowledge sv d allocation_id scale_set_name; pure tt)

  unfoldable pub recover : Services → Driver W → String → Broker W Fields
  recover sv d allocation_id = do
    found ← on_ledger (get_record sv allocation_id)
    binding ← binding_of sv allocation_id
    scale_set_name ← text_at "scale_set_name" binding
    scale_set_id ← find_bound d allocation_id scale_set_name
    delete_known d scale_set_id scale_set_name
    settle_record sv d found allocation_id scale_set_name
    outside (d.assert_scale_set_absent scale_set_name)
    pure (absent_answer allocation_id)

  unfoldable pub finish : ℕ → Services → Driver W → String → String → Bool → Broker W Fields
  finish fuel sv d allocation_id outcome normal_cancel_attempted = do
    found ← on_ledger (get_record sv allocation_id)
    if not (is_running found.columns.state) || not (found.columns.jobs_started == 1)
        then (do
          binding ← binding_of sv allocation_id
          scale_set_name ← text_at "scale_set_name" binding
          answer ← recover sv d allocation_id
          pure (cleaned_answer allocation_id scale_set_name))
        else (do
          ended ← on_ledger (
              transition sv allocation_id "finish" (record no_arguments {
                outcome = some outcome;
                normal_cancel_attempted = normal_cancel_attempted;
              }))
          binding ← on_ledger (Admission.scale_set_binding allocation_id)
          delete_exact d binding.1 binding.0
          wait_for_cleanup fuel d allocation_id binding.0
          answer ← on_ledger (transition sv allocation_id "cleanup" no_arguments)
          pure (cleaned_answer allocation_id binding.0))

  unfoldable pub prove_clean : Services → Driver W → String → String → Broker W Fields
  prove_clean sv d allocation_id runner_label = do
    binding ← on_ledger (Admission.scale_set_binding allocation_id)
    raise_unless (binding.0 == runner_label) driver_error
    found ← on_ledger (get_record sv allocation_id)
    raise_unless (is_cleaned found.columns.state && found.columns.cleanup_complete) driver_error
    outside (d.assert_scale_set_absent binding.0)
    outside d.assert_runtime_empty
    pure (
        field "allocation_id" (text allocation_id) (
          field "runner_label" (text runner_label) (
            field "state" (text "cleaned") (
              field "scale_set_absent" (Json.bool true)
                (field "runtime_empty" (Json.bool true) end)))))

  -- the loop of `recover_all`
  unfoldable pub recover_each : Services → Driver W → List String → Broker W (List String)
  recover_each sv d [] = pure []
  recover_each sv d (id ∷ ids) = do
    answer ← recover sv d id
    recovered ← recover_each sv d ids
    pure (id ∷ recovered)

  unfoldable pub recover_all : Services → Driver W → Broker W (List String)
  recover_all sv d = do
    outside d.assert_no_persistent_scale_set
    ids ← on_ledger Admission.recoverable_allocation_ids
    recovered ← recover_each sv d ids
    outside d.assert_runtime_empty
    pure recovered
