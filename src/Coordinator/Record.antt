-- ===== src/Coordinator/Record.antt =====
-- What `outbound_local_dispatch` dispatches, part by part, by a record of the packages dispatched.
use self_hosted_ci.Prelude.{
  sym, subst, ◌∙◌, if◌then◌else◌, ℕ, String, ◌≡◌, inl, inr, refl, false, Option, none, some, List,
  ◌∷◌,
}
use self_hosted_ci.Json.{Fields, Json}
use self_hosted_ci.Coordinator.Adapters.{
  Progress, Failure, unbound_local, Outcome, ok, err, Act, Job, Adapters, raise,
}
use self_hosted_ci.Coordinator.Packages.{is_null, Resume, Locals}
use self_hosted_ci.Coordinator.Dispatch.{
  set_locals, assert_exact_recovery, run_locally, recover_run, settle, start_run, report, find_run,
  claim_window, finalize_run, lift,
}
use self_hosted_ci.Coordinator.Sending.{
  Once-weaken, Quiet-pure, Quiet, Sends, Once, Quiet-raise_unless, Quiet-or_raise, Quiet-if,
  Quiet-bind, Once-after, Once-before, Once-Quiet, Once-if, Once-guard, Once-known,
}

-- `sent` is the record of the packages dispatched, newest first: `dispatch_package` adds its package,
-- whether it returns or raises, and no other adapter dispatches.
pub record IsRecord {S : Type 0} (w : Adapters S) (sent : S → List Fields) : Type 0 where
  pub dispatches : (v : Fields) (s : S) → sent (w.dispatch_package v s).1 ≡ v ∷ sent s
  pub reserves : (f : Fields) (s : S) → sent (w.reserve f s).1 ≡ sent s
  pub finalizes : (f : Fields) (s : S) → sent (w.finalize f s).1 ≡ sent s
  pub recovers : (id : String) (s : S) → sent (w.recover id s).1 ≡ sent s
  pub observes : (n : ℕ) (l : String) (s : S) → sent (w.observe_exact_job n l s).1 ≡ sent s
  pub signs : (f : Fields) (s : S) → sent (w.sign_allocation f s).1 ≡ sent s
  pub reports : (p : Progress) (s : S) → sent (report w p s).1 ≡ sent s

module _ {S : Type 0} (w : Adapters S) (sent : S → List Fields) (is : IsRecord w sent)
    (request reservation : Fields) where
  abbrev sent_there : S × Locals → List Fields
  sent_there s = sent s.0

  Quiet-report : (p : Progress) → Quiet sent (report w p)
  Quiet-report p = record { at = is.reports p }

  Quiet-lift : {A : Type 0} (m : Act S A) → Quiet sent m → Quiet sent_there (lift w m)
  Quiet-lift m h = record { at = λ s. h.at s.0 }

  Once-lift :
      {A : Type 0} {P : Fields → Type 0} (m : Act S A)
      → Once sent P m
      → Once sent_there P (lift w m)
  Once-lift m h = record { at = λ s. h.at s.0 }

  Quiet-set : (f : Locals → Locals) → Quiet sent_there (set_locals w f)
  Quiet-set f = record { at = λ s. refl }

  Quiet-recovery : (id : String) → Quiet sent (assert_exact_recovery w id)
  unfolding assert_exact_recovery
  Quiet-recovery id =
      Quiet-bind _ _ (record { at = is.recovers id }) (λ recovered. Quiet-raise_unless _ _)

  Quiet-window :
      (resume : Resume) (version : Json) (now claim_ttl : ℕ)
      → Quiet sent (claim_window w resume version now claim_ttl)
  unfolding claim_window
  Quiet-window resume version now claim_ttl =
      Quiet-if _ _ _ (Quiet-bind _ _ (Quiet-report _) λ _. Quiet-pure _) (Quiet-pure _)

  Quiet-finalize_run :
      (resume : Resume) (held values : Fields) (job : Job) (now claim_ttl : ℕ)
      → Quiet sent (finalize_run w reservation resume held values job now claim_ttl)
  unfolding finalize_run
  Quiet-finalize_run resume held values job now claim_ttl = Quiet-bind _ _ (Quiet-report _) λ _.
      Quiet-bind _ _ (Quiet-window _ _ _ _) λ window.
        Quiet-bind _ _ (record { at = is.signs _ })
          λ envelope. Quiet-bind _ _ (Quiet-raise_unless _ _) λ _.
            Quiet-bind _ _ (Quiet-report _) λ _.
              Quiet-bind _ _ (record { at = is.finalizes envelope })
                λ finalized. Quiet-bind _ _ (Quiet-raise_unless _ _) λ _. Quiet-report _

  pub Once-dispatch : (v : Fields) → Once sent (λ u. u ≡ v) (w.dispatch_package v)
  Once-dispatch v = record { at = λ s. inr (v, is.dispatches v s, refl) }

  Once-find_run :
      (resume : Resume) (values : Fields)
      → Once sent_there (λ u. u ≡ values) (find_run w resume values)
  unfolding find_run
  Once-find_run resume values =
      Once-if _ _ _
        (Once-guard _ _ _ λ _. Once-after _ _ (Quiet-lift _ (Quiet-report _)) λ _.
          Once-after _ _ (Quiet-set _) λ _.
            Once-before _ _ (Once-lift _ (Once-dispatch values)) λ receipt.
              Quiet-bind _ _ (Quiet-or_raise _ _) λ run_id.
                Quiet-bind _ _ (Quiet-lift _ (Quiet-report _))
                  λ _. Quiet-bind _ _ (Quiet-set _) λ _. Quiet-pure _)
        (Once-Quiet (Quiet-or_raise _ _))

  Once-run_locally :
      (draft : Fields) (resume : Resume) (held : Fields) (now claim_ttl : ℕ)
      → Once sent_there
          (λ v. w.from_mapping draft ≡ some v)
          (run_locally w draft reservation resume held now claim_ttl)
  unfolding run_locally
  Once-run_locally draft resume held now claim_ttl = Once-known _ _ _ λ values e.
      Once-after _ _ (Quiet-set _) λ _.
        Once-before _ _
          (Once-weaken (λ v same. subst (λ u. w.from_mapping draft ≡ some u) (sym same) e)
            (Once-find_run resume values))
          λ run_id. Quiet-bind _ _ (Quiet-lift _ (record { at = is.observes _ _ })) λ job.
            Quiet-bind _ _ (Quiet-raise_unless _ _)
              λ _. Quiet-bind _ _ (Quiet-lift _ (Quiet-finalize_run _ _ _ _ _ _)) λ _. Quiet-pure _

  Quiet-raise : {A : Type 0} (e : Failure) → Quiet sent (raise {S = S} {A = A} e)
  Quiet-raise e = record { at = λ s. refl }

  Quiet-resumed :
      (o : Option (Option Json))
      → Quiet sent (elim o [
        | none ↦ raise {A = Unit {0}} unbound_local
        | some run_id ↦
            report w (if is_null run_id then Progress.dispatch_ambiguous else Progress.recovered)
      ])
  Quiet-resumed none = Quiet-raise _
  Quiet-resumed (some run_id) = Quiet-report _

  Quiet-recover_run :
      (resume : Resume) (held : Fields) (l : Locals) (e : Failure)
      → Quiet sent (recover_run w resume held l e)
  unfolding recover_run
  Quiet-recover_run resume held l e = Quiet-bind _ _ (Quiet-recovery _) λ _.
      Quiet-bind _ _
        (Quiet-if _ _ _
          (Quiet-if _ _ _ (Quiet-report _)
            (Quiet-if _ _ _ (Quiet-resumed l.resumed_run_id) (Quiet-report _)))
          (Quiet-pure _))
        λ _. Quiet-raise e

  settle-Sends :
      (P : Fields → Type 0) (resume : Resume) (held : Fields) (s : S)
      (r : Outcome (Fields × Option Job) × (S × Locals))
      → Sends sent P s r.1.0
      → Sends sent P s (settle w resume held r).1
  settle-Sends P resume held s (ok c, (t, l)) h = h
  settle-Sends P resume held s (err e, (t, l)) h =
      let quiet = (Quiet-recover_run resume held l e).at t in
      elim h [ inl none_sent ↦ inl (quiet ∙ none_sent) | inr (v, one, p) ↦ inr (v, quiet ∙ one, p) ]

  pub Once-start_run :
      (draft : Fields) (resume : Resume) (held : Fields) (now claim_ttl : ℕ)
      → Once sent
          (λ v. w.from_mapping draft ≡ some v)
          (start_run w draft reservation resume held now claim_ttl)
  unfolding start_run
  Once-start_run draft resume held now claim_ttl = record {
    at = λ s.
        settle-Sends (λ v. w.from_mapping draft ≡ some v) resume held s _
          ((Once-run_locally draft resume held now claim_ttl).at
            (s, record { receipt_ambiguous = false; resumed_run_id = none }));
  }
