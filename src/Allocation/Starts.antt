-- ===== src/Allocation/Starts.antt =====
-- The start of a job: what an `admit-job` that returns has found and written.
use self_hosted_ci.Prelude.{
  ℕ, ◌≡◌, refl, sym, subst, ap, ◌∙◌, String, true, Option, some, List, lookup, lookup-update_self,
  nat_eq, string_eq, arith,
}
use self_hosted_ci.Effects.{Outcome, ok, ◌>>=◌}
use self_hosted_ci.Effects.Found.{
  Finds, Finds-pure, Finds-gets, Finds-or_raise, Finds-raise_if, Finds-raise_unless, Finds-bind,
  returning,
}
use self_hosted_ci.Allocation.{Failure, Services}
use self_hosted_ci.Allocation.Rows.{AllocationRow, row_key, Ledger, is_issued, running}
use self_hosted_ci.Allocation.Lifecycle.{
  Action, admit_job, Arguments, AllocationRecord, Columns, columns_of, with_columns, start, decide,
  Times, write, transition,
}
use self_hosted_ci.Allocation.Lives.{life_of, ◌⟶*◌, is_past, past-⟶*}
use self_hosted_ci.Allocation.Lives
use self_hosted_ci.Allocation.Steps.{IsValid}
use self_hosted_ci.Allocation.Calls.{Call, run}
use self_hosted_ci.Allocation.Histories.{life_in, run-refines}
use self_hosted_ci.Allocation.Transitions.{transition-Moves, read_times-Finds}

-- the columns of a job that has started
abbrev started : Columns → Columns
started c = record c { state = running; jobs_started = 1 }

start-Finds :
    {s : Ledger} (q : Arguments) (r : AllocationRow) (issued_at claim_deadline : ℕ)
    → Finds s
        (λ c. (is_issued r.state ≡ true) × (c ≡ some (started (columns_of r))))
        (start q r issued_at claim_deadline)
unfolding start
start-Finds q r issued_at claim_deadline = Finds-bind _ _ (Finds-or_raise _ _) λ now _.
    Finds-bind _ _ (Finds-raise_unless _ _) λ _ is.
      Finds-bind _ _ (Finds-raise_if _ _)
        λ _ _. Finds-bind _ _ (Finds-raise_unless _ _) λ _ _. Finds-pure _ (is, refl)

-- the row of an allocation of which `admit-job` returns
pub record Started (id : String) (s t : Ledger) : Type 0 where
  pub was : life_in id s ≡ Lives.issued
  pub is : life_in id t ≡ Lives.running

started_life :
    (s : Ledger) (id : String) (r : AllocationRow) (t : Times) (c : Option Columns)
    → lookup row_key id s.allocations ≡ some r
    → is_issued r.state ≡ true
    → c ≡ some (started (columns_of r))
    → Started id s (write id r t c s).1
unfolding write ◌>>=◌
started_life s id r t c e is same = rw same (record {
  was = rw e (ground arith);
  is =
      rw
        (
          lookup-update_self row_key id (with_columns (started (columns_of r))) s.allocations
              (λ q. refl),
          e,
        )
        refl;
})

pub transition-Started :
    (sv : Services) (id : String) (q : Arguments) (s : Ledger) (answer : AllocationRecord)
    → (transition sv id "admit-job" q s).0 ≡ ok answer
    → Started id s (transition sv id "admit-job" q s).1
unfolding transition decide
transition-Started sv id q s answer e =
    returning Q _ _ answer (Finds-or_raise _ _)
      (λ action is_admit. returning Q _ _ answer (Finds-raise_if _ _) λ _ _.
        returning Q _ _ answer (Finds-gets _) λ found here.
          returning Q _ _ answer (Finds-or_raise _ _) λ row is.
            returning Q _ _ answer (read_times-Finds sv row) λ t _.
              returning Q _ _ answer (decided action row t (ground arith))
                λ c h _. started_life s id row t c (here ∙ is) h.0 h.1)
      e
  where
    Q : Outcome Failure AllocationRecord × Ledger → Type 0
    Q r = Started id s r.1

    decided :
        (action : Action) (row : AllocationRow) (t : Times)
        → action ≡ admit_job
        → Finds s
            (λ c. (is_issued row.state ≡ true) × (c ≡ some (started (columns_of row))))
            (decide sv action q row t.issued_at t.claim_deadline)
    decided action row t is =
        subst
          (λ a.
            Finds s (λ c. (is_issued row.state ≡ true) × (c ≡ some (started (columns_of row))))
              (decide sv a q row t.issued_at t.claim_deadline))
          (sym is) (start-Finds q row t.issued_at t.claim_deadline)

-- An allocation that runs, has run, or has been fenced or cleaned starts no job, in any history of calls
-- from a valid table.
pub never_starts :
    (sv : Services) (cs : List (Services × Call)) (s : Ledger) (id : String) (q : Arguments)
    (answer : AllocationRecord)
    → IsValid s.allocations
    → is_past (life_in id s) ≡ true
    → ¬ ((transition sv id "admit-job" q (run cs s)).0 ≡ ok answer)
never_starts sv cs s id q answer v past e =
    let issued = (transition-Started sv id q (run cs s) answer e).was in
    let still = past-⟶* (run-refines cs s id v) past in absurd (ground arith)

-- From a valid table, once `admit-job` has returned for an allocation, it raises for this allocation in
-- every history of calls after, whatever their arguments: an allocation starts one job at most.
pub starts_once :
    (sv sv' : Services) (cs : List (Services × Call)) (s : Ledger) (id : String) (q q' : Arguments)
    (answer answer' : AllocationRecord)
    → IsValid s.allocations
    → (transition sv id "admit-job" q s).0 ≡ ok answer
    → ¬ (
        (transition sv' id "admit-job" q' (run cs (transition sv id "admit-job" q s).1)).0
        ≡ ok answer')
starts_once sv sv' cs s id q q' answer answer' v e =
    never_starts sv' cs (transition sv id "admit-job" q s).1 id q' answer'
      (((transition-Moves sv id "admit-job" q).at s).valid v)
      (ap is_past (transition-Started sv id q s answer e).is)
