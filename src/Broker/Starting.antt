-- ===== src/Broker/Starting.antt =====
-- The hook before a job: where it returns, the job is the payload's, and it runs for the first time.
use self_hosted_ci.Prelude.{
  ◌∙◌, ℕ, ◌≡◌, refl, ap, String, true, false, some, List, [], ◌∷◌, arith, Bool-cases, inl, inr,
  nat_eq, string_eq,
}
use self_hosted_ci.Json.{Fields}
use self_hosted_ci.Effects.{
  Outcome, ok, err, continue, pure, raise, rescue, attempt, settle, translate, translated, ◌>>=◌,
}
use self_hosted_ci.Effects.Related.{IsPreorder, Related}
use self_hosted_ci.Effects.Found.{Found, Finds, Finds-raise_unless, returning}
use self_hosted_ci.Allocation as Allocation
use self_hosted_ci.Allocation.{Services}
use self_hosted_ci.Allocation.Rows.{Ledger}
use self_hosted_ci.Allocation.Admission as Admission
use self_hosted_ci.Allocation.Lifecycle.{no_arguments, AllocationRecord, transition}
use self_hosted_ci.Allocation.Lives.{running, is_past, past-⟶*}
use self_hosted_ci.Allocation.Steps.{IsValid, Moves-IsPreorder}
use self_hosted_ci.Allocation.Histories.{life_in}
use self_hosted_ci.Allocation.Reading.{payload-Related}
use self_hosted_ci.Allocation.Starts.{transition-Started}
use self_hosted_ci.Broker.{
  Failure, of_ledger, is_jit_error, State, Driver, Broker, from_ledger, on_ledger,
}
use self_hosted_ci.Broker.Jobs.{
  Policy, context_fields, mismatched, is_nil, admit_job, prove_and_admit, disable_in_time,
  job_started,
}
use self_hosted_ci.Broker.Moves.{
  Serves, Serves-IsPreorder, broker_rules, outside-Serves, wait_for_observation-Serves,
}
use self_hosted_ci.Broker.Cleaning.{returns_ok}

untranslated :
    {A : Type 0} (g : Failure → Failure) (r : Outcome Failure A) (a : A)
    → translated g r ≡ ok a
    → r ≡ ok a
untranslated g (ok b) a e = e
untranslated g (err x) a e = absurd (ground arith)

-- A state is the one before.
abbrev Same : Ledger → Ledger → Type 0
Same s t = t ≡ s

instance abbrev Same-IsPreorder : IsPreorder Same
Same-IsPreorder = record { reflexive = λ s. refl; transitive = λ s t u h k. k ∙ h }

no_mismatch : (names : List String) → is_nil names ≡ true → names ≡ []
no_mismatch [] h = refl
no_mismatch (k ∷ names) h = absurd (ground arith)

module _ {W : Type 0} where
  -- The allocation had not started before, and runs after.
  pub record Begun (id : String) (s t : State W) : Type 0 where
    pub before : is_past (life_in id s.ledger) ≡ false
    pub after : life_in id t.ledger ≡ running

  -- Where `m` returns, it has started the allocation.
  record Begins {A : Type 0} (id : String) (m : Broker W A) : Type 0 where
    at :
        (s : State W) → IsValid s.ledger.allocations → (a : A) → (m s).0 ≡ ok a → Begun id s (m s).1

  earlier :
      (id : String) (s t u : State W)
      → Serves s t
      → IsValid s.ledger.allocations
      → Begun id t u
      → Begun id s u
  earlier id s t u h v b = record {
    before = elim (Bool-cases (is_past (life_in id s.ledger))) [
      | inl past ↦
          let still : is_past (life_in id t.ledger) ≡ true = past-⟶* (h.moved v id).lives past in
          absurd (ground (arith, b.before))
      | inr new ↦ new
    ];
    after = b.after;
  }

  module _ {A B : Type 0} (id : String) (m : Broker W A) (f : A → Broker W B) where
    continue-Begun :
        (s : State W) (r : Outcome Failure A × State W) (b : B)
        → Serves s r.1
        → ((a : A) → Begins id (f a))
        → IsValid s.ledger.allocations
        → (continue r.0 f r.1).0 ≡ ok b
        → Begun id s (continue r.0 f r.1).1
    continue-Begun s (ok a, t) b h k v e = earlier id s t (f a t).1 h v ((k a).at t (h.valid v) b e)
    continue-Begun s (err x, t) b h k v e = absurd (ground arith)

    Begins-bind : Related Serves m → ((a : A) → Begins id (f a)) → Begins id (m >>= f)
    unfolding ◌>>=◌
    Begins-bind h k = record { at = λ s v b e. continue-Begun s (m s) b (h.at s) k v e }

  admit_job-Begun :
      (id : String) (s : State W) (r : Outcome Failure AllocationRecord × State W)
      → ((a : AllocationRecord) → r.0 ≡ ok a → Begun id s r.1)
      → (continue r.0 (λ _. pure tt) r.1).0 ≡ ok tt
      → Begun id s (continue r.0 (λ _. pure tt) r.1).1
  unfolding pure
  admit_job-Begun id s (ok a, t) h e = h a refl
  admit_job-Begun id s (err x, t) h e = absurd (ground arith)

  admit_job-Begins : (sv : Services) (id : String) (now : ℕ) → Begins id (admit_job sv id now)
  unfolding admit_job translate on_ledger ◌>>=◌
  admit_job-Begins sv id now = record {
    at = λ s v a e.
        admit_job-Begun id s _
          (λ answer is.
            let begun = transition-Started sv id _ s.ledger answer (
              returns_ok
                (transition sv id "admit-job" (record no_arguments { now = some now }) s.ledger).0
                answer (untranslated _ _ answer is)) in
            record { before = ap is_past begun.was; after = begun.is })
          e;
  }

  prove_and_admit-Begins :
      (fuel : ℕ) (sv : Services) (d : Driver W) (p : Policy) (id : String)
      (context payload : Fields) (binding : String × String) (now : ℕ)
      → Begins id (prove_and_admit fuel sv d p id context payload binding now)
  unfolding prove_and_admit disable_in_time
  prove_and_admit-Begins fuel sv d p id context payload binding now =
      Begins-bind id _ _ (outside-Serves _) λ started_at.
        Begins-bind id _ _ (search (broker_rules, wait_for_observation-Serves)) λ _.
          Begins-bind id _ _ (search (broker_rules, wait_for_observation-Serves)) λ _.
            Begins-bind id _ _ (search broker_rules depth 12)
              λ _. Begins-bind id _ _ (outside-Serves _) λ ended_at. admit_job-Begins sv id _

  kept_or_raised :
      (s : State W) (e : Failure) (r : Outcome Allocation.Failure Fields × Ledger)
      → r.1 ≡ s.ledger
      → Found s
          (λ p. r.0 ≡ ok p)
          (settle is_jit_error (raise e) (from_ledger r.0) (record s { ledger = r.1 }))
  unfolding raise pure
  kept_or_raised s e (ok a, t) h = (ap (λ l. record s { ledger = l }) h, refl)
  kept_or_raised s e (err x, t) h = elim (Bool-cases (is_jit_error (of_ledger x))) [
    | inl jit ↦ rw jit (ap (λ l. record s { ledger = l }) h)
    | inr not_jit ↦ rw not_jit (ap (λ l. record s { ledger = l }) h)
  ]

  -- the payload that is read
  payload-Finds :
      (sv : Services) (id : String) (s : State W) (e : Failure)
      → Finds s
          (λ p. (Admission.payload sv id s.ledger).0 ≡ ok p)
          (rescue is_jit_error (on_ledger (Admission.payload sv id)) (raise e))
  unfolding rescue attempt on_ledger ◌>>=◌
  payload-Finds sv id s e = record {
    at =
        kept_or_raised s e (Admission.payload sv id s.ledger)
          ((payload-Related {R = Same} sv id).at s.ledger);
  }

  -- Where `job_started` returns, from a valid table and whatever the driver does, the allocation has a
  -- payload whose fields are those of the context, it had neither started nor been fenced, and it runs.
  pub job_started-Begun :
      (fuel : ℕ) (sv : Services) (d : Driver W) (p : Policy) (id : String) (context : Fields)
      (now : ℕ) (s : State W)
      → IsValid s.ledger.allocations
      → (job_started fuel sv d p id context now s).0 ≡ ok tt
      → ((payload : Fields) × ((Admission.payload sv id s.ledger).0 ≡ ok payload)
          × (mismatched context_fields context payload ≡ []))
        × Begun id s (job_started fuel sv d p id context now s).1
  unfolding job_started
  job_started-Begun fuel sv d p id context now s v e =
      returning Q _ _ tt (Finds-raise_unless _ _)
        (λ _ _. returning Q _ _ tt (payload-Finds sv id s _) λ payload is.
          returning Q _ _ tt (Finds-raise_unless _ _) λ _ _.
            returning Q _ _ tt (Finds-raise_unless _ _) λ _ same ends. (
              (payload, is, no_mismatch (mismatched context_fields context payload) same),
              (Begins-bind id _ _ (search broker_rules)
                    λ binding. prove_and_admit-Begins fuel sv d p id context payload binding now).at
                  s v tt ends,
            ))
        e
    where
      Q : Outcome Failure (Unit {0}) × State W → Type 0
      Q r =
          ((payload : Fields) × ((Admission.payload sv id s.ledger).0 ≡ ok payload)
            × (mismatched context_fields context payload ≡ []))
          × Begun id s r.1
