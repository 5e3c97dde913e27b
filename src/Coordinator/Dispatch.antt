-- ===== src/Coordinator/Dispatch.antt =====
-- `outbound_local_dispatch`: reserve, dispatch, observe, sign, finalize, and recover on any failure.
use self_hosted_ci.Prelude.{
  ℕ, ◌+◌, String, true, false, not, ◌&&◌, Option, none, some, ◌==◌, if◌then◌else◌, is_none, is_some,
  nat_eq, string_eq,
}
use self_hosted_ci.Json.{
  same_text, or_null, Json, Fields, num, text, end, field, get, merge, is_text, is_num,
}
use self_hosted_ci.Coordinator.Packages.{
  Resume, in_phase, remove, text_of, proves_absence, hosted_value, Locals, is_run_id, is_null,
  exact_reservation, local_draft,
}
use self_hosted_ci.Coordinator.Adapters.{
  Failure, reserve_unavailable, reserve_partial, unavailable, protocol_failure, unbound_local,
  Outcome, ok, err, Act, pure, raise, ◌>>=◌, ◌>>◌, raise_unless, or_raise, Job, Progress, Adapters,
}

module _ {S : Type 0} (w : Adapters S) where
  -- `if progress is not None: progress.…`
  abbrev pub report : Progress → Act S (Unit {0})
  report p = elim w.progress [ none ↦ pure tt | some tell ↦ tell p ]

  unfoldable pub assert_exact_recovery : String → Act S (Unit {0})
  assert_exact_recovery id = do
    recovered ← w.recover id
    raise_unless (proves_absence recovered id) unavailable

  unfoldable pub dispatch_hosted : Fields → Act S (Fields × Option Job)
  dispatch_hosted draft = do
    hosted ← or_raise (w.from_mapping (hosted_value draft)) protocol_failure
    w.dispatch_package hosted
    pure (hosted, none)

  -- the three handlers of the reservation
  unfoldable pub reserve_failed : Fields → Fields → Failure → Act S (Fields × Option Job)
  reserve_failed draft reservation reserve_unavailable = dispatch_hosted draft
  reserve_failed draft reservation (reserve_partial id) = do
    raise_unless (is_text (get "allocation_id" reservation) id) unavailable
    assert_exact_recovery id
    dispatch_hosted draft
  reserve_failed draft reservation _ = raise unavailable

  abbrev pub lift : {A : Type 0} → Act S A → Act (S × Locals) A
  lift m (s, l) = let (r, s') = m s in (r, (s', l))

  abbrev pub set_locals : (Locals → Locals) → Act (S × Locals) (Unit {0})
  set_locals f (s, l) = (ok tt, (s, f l))

  -- the run that the job is dispatched to: a persisted one, or a new one
  unfoldable pub find_run : Resume → Fields → Act (S × Locals) ℕ
  find_run resume values =
      if is_null resume.run_id
      then (do
        raise_unless (not (in_phase resume "dispatching")) unavailable
        lift (report Progress.dispatching)
        set_locals λ l. record l { receipt_ambiguous = true }
        receipt ← lift (w.dispatch_package values)
        run_id ← or_raise (is_run_id receipt) unavailable
        lift (report (Progress.dispatched run_id))
        set_locals λ l. record l { receipt_ambiguous = false }
        pure run_id)
      else or_raise (is_run_id (or_null resume.run_id)) unavailable

  -- the texts of `issued_at` and `claim_deadline`, of which version 2 needs both
  unfoldable pub claim_window : Resume → Json → ℕ → ℕ → Act S (Option (String × String))
  claim_window resume version now claim_ttl =
      if is_num (some version) 2 && is_none resume.window
      then (do
        let issued_at = w.isoformat now
        let claim_deadline = w.isoformat (now + claim_ttl)
        report (Progress.allocation_window issued_at claim_deadline)
        pure (some (issued_at, claim_deadline)))
      else pure resume.window

  abbrev window_fields : Json → Option (String × String) → Fields
  window_fields version none = end
  window_fields version (some (issued_at, claim_deadline)) =
      if is_num (some version) 2
      then field "issued_at" (text issued_at) (field "claim_deadline" (text claim_deadline) end)
      else end

  -- `payload`
  unfoldable pub allocation_payload : Fields → Fields → Job → Option (String × String) → Fields
  allocation_payload reservation values job window =
      let version = or_null (get "allocation_reservation_version" reservation) in
      merge
        (merge (remove "allocation_reservation_version" reservation) (
          field "runner_allocation_version" version (
            field "run_id" (text (w.decimal job.run_id)) (
              field "run_attempt" (num job.run_attempt) (
                field "job_id" (text (w.decimal job.job_id)) (
                  field "job_name" (text job.job_name) (
                    field "dispatch_sha" (text job.dispatch_sha)
                      (field "tested_sha" (or_null (get "tested_sha" values)) end))))))))
        (window_fields version window)

  -- from the observed job to the finalized allocation
  unfoldable pub finalize_run : Fields → Resume → Fields → Fields → Job → ℕ → ℕ → Act S (Unit {0})
  finalize_run reservation resume held values job now claim_ttl = do
    report (Progress.observed job)
    let version = or_null (get "allocation_reservation_version" reservation)
    window ← claim_window resume version now claim_ttl
    envelope ← w.sign_allocation (allocation_payload reservation values job window)
    raise_unless (not (in_phase resume "finalizing" && not resume.finalized)) unavailable
    report Progress.finalizing
    finalized ← w.finalize envelope
    raise_unless
        (same_text (get "allocation_id" held) (get "allocation_id" finalized)
          && is_text (get "state" finalized) "enabled-awaiting-claim")
        unavailable
    report (Progress.finalized finalized)

  -- the body of the `try`
  unfoldable pub run_locally :
      Fields → Fields → Resume → Fields → ℕ → ℕ → Act (S × Locals) (Fields × Option Job)
  run_locally draft reservation resume held now claim_ttl = do
    values ← or_raise (w.from_mapping draft) protocol_failure
    set_locals λ l. record l { resumed_run_id = some resume.run_id }
    run_id ← find_run resume values
    job ← lift (w.observe_exact_job run_id (text_of (get "runner_label" held)))
    raise_unless (job.run_id == run_id) unavailable
    lift (finalize_run reservation resume held values job now claim_ttl)
    pure (values, some job)

  abbrev pub note_failure : Resume → Locals → Act S (Unit {0})
  note_failure resume l =
      if l.receipt_ambiguous
      then report Progress.dispatch_ambiguous
      else if in_phase resume "dispatching"
      then elim l.resumed_run_id [
        | none ↦ raise unbound_local
        | some run_id ↦
            report (if is_null run_id then Progress.dispatch_ambiguous else Progress.recovered)
      ]
      else report Progress.recovered

  -- the handler of the `try`: nothing is read of the locals without a progress adapter
  unfoldable pub recover_run : Resume → Fields → Locals → Failure → Act S (Fields × Option Job)
  recover_run resume held l e = do
    assert_exact_recovery (text_of (get "allocation_id" held))
    if is_some w.progress then note_failure resume l else pure tt
    raise e

  abbrev pub settle :
      Resume
      → Fields
      → Outcome (Fields × Option Job) × (S × Locals)
      → Outcome (Fields × Option Job) × S
  settle resume held (ok result, (s, l)) = (ok result, s)
  settle resume held (err e, (s, l)) = recover_run resume held l e s

  -- the `try` with its handler
  unfoldable pub start_run : Fields → Fields → Resume → Fields → ℕ → ℕ → Act S (Fields × Option Job)
  start_run draft reservation resume held now claim_ttl s = settle resume held (
      run_locally draft reservation resume held now claim_ttl
        (s, record { receipt_ambiguous = false; resumed_run_id = none }))

  unfoldable pub run_reserved :
      Fields → Fields → Resume → Fields → ℕ → ℕ → Act S (Fields × Option Job)
  run_reserved request reservation resume held now claim_ttl = do
    raise_unless (exact_reservation held) unavailable
    raise_unless
        (same_text (get "allocation_id" held) (get "allocation_id" reservation)
          && same_text (get "runner_label" held) (get "scale_set_name" reservation))
        unavailable
    report (Progress.reserved held)
    start_run (local_draft request reservation held) reservation resume held now claim_ttl

  abbrev pub after_reserve :
      Fields → Fields → Resume → ℕ → ℕ → Outcome Fields × S → Outcome (Fields × Option Job) × S
  after_reserve draft reservation resume now claim_ttl (ok held, s) =
      run_reserved draft reservation resume held now claim_ttl s
  after_reserve draft reservation resume now claim_ttl (err e, s) =
      reserve_failed draft reservation e s

  -- `now` is the clock in whole seconds
  unfoldable pub outbound_local_dispatch :
      Fields → Fields → Resume → ℕ → ℕ → Act S (Fields × Option Job)
  outbound_local_dispatch draft reservation resume now claim_ttl s = elim resume.reserved [
    | none ↦ after_reserve draft reservation resume now claim_ttl (w.reserve reservation s)
    | some held ↦
        if in_phase resume "recovered"
        then after_reserve draft reservation resume now claim_ttl (w.reserve reservation s)
        else run_reserved draft reservation resume held now claim_ttl s
  ]
