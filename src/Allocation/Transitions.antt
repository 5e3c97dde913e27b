-- ===== src/Allocation/Transitions.antt =====
-- Every transition of an allocation is a step of its life.
use self_hosted_ci.Prelude.{
  eq_iff, ap, ◌∙◌, ℕ, ◌≡◌, refl, sym, subst, String, Bool, true, false, ◌&&◌, ◌||◌, Option, none,
  some, ◌==◌, if◌then◌else◌, lookup, nat_eq, string_eq, arith, Bool-cases, inl, inr,
}
use self_hosted_ci.Effects.{raise, pure, ◌>>=◌}
use self_hosted_ci.Effects.Related.{Related}
use self_hosted_ci.Effects.Found.{
  Finds, Finds-raise_if, Finds-raise_unless, Finds-pure, Finds-raise, Finds-gets, Finds-or_raise,
  Finds-if, Finds-bind, after,
}
use self_hosted_ci.Allocation.{Failure, jit_error, invalid_transition, Services}
use self_hosted_ci.Allocation.Rows.{
  is_cleaned, is_value, AllocationRow, row_key, Ledger, is_reserved, is_issued, is_running,
  is_terminal, is_recovery_required, is_terminal_outcome,
}
use self_hosted_ci.Allocation.Lifecycle.{
  Action, admit_job, finish, cleanup, recover, ack_recovery_cleanup, Arguments, Columns,
  with_columns, cleanup_key, start, end_job, clean, fence, acknowledge, decide, Times, read_times,
  write, transition,
}
use self_hosted_ci.Allocation.Lives.{
  Life, life_of, ◌⟶◌, ◌⟶*◌, here, step, fence_reserved, fence_issued, fence_running,
}
use self_hosted_ci.Allocation.Lives
use self_hosted_ci.Allocation.Updates.{Step-update}
use self_hosted_ci.Allocation.Steps.{is_valid_row, Allowed, Moves, Moves-IsPreorder, Step-refl}

-- what an action may decide to write on a row
abbrev pub Permitted : AllocationRow → Option Columns → Type 0
Permitted r none = Unit
Permitted r (some c) = is_valid_row r ≡ true → Allowed r (with_columns c r)

-- one edge, from the life that the row's state says
edge : (r : AllocationRow) (l m : Life) → life_of r ≡ l → l ⟶ m → life_of r ⟶* m
edge r l m e h = subst (λ k. k ⟶* m) (sym e) (step h here)

ended_life : (r : AllocationRow) → is_terminal r.state ≡ true → life_of r ≡ Lives.ended r.outcome
ended_life r h = ground arith

reboot_outcome : (o : Option String) → is_value o "reboot" ≡ true → o ≡ some "reboot"
reboot_outcome none h = absurd (ground arith)
reboot_outcome (some o) h = ap some ((eq_iff o "reboot").0 h)

acknowledged :
    (r : AllocationRow)
    → (is_recovery_required r.state && r.recovery_required && r.cleanup_pending) ≡ true
    → is_valid_row r ≡ true
    → (is_terminal_outcome r.outcome ≡ true) × (r.outcome ≡ some "reboot")
acknowledged r is v =
    let reboot = reboot_outcome r.outcome (ground arith) in (rw reboot refl, reboot)

-- a fence, from the life that the row's state says
edge_from :
    (r : AllocationRow) (l : Life) (n : ℕ)
    → life_of r ≡ l
    → n ≡ r.jobs_started
    → l ⟶ Lives.fenced n
    → life_of r ⟶* Lives.fenced r.jobs_started
edge_from r l n e same h = subst (λ k. life_of r ⟶* Lives.fenced k) same (edge r l _ e h)

fence-life :
    (r : AllocationRow)
    → (is_reserved r.state || is_issued r.state || is_running r.state) ≡ true
    → is_valid_row r ≡ true
    → life_of r ⟶* Lives.fenced r.jobs_started
fence-life r h v = elim (Bool-cases (is_reserved r.state)) [
  | inl e ↦ edge_from r Lives.reserved 0 (ground arith) (ground arith) Lives.fence_reserved
  | inr e ↦ elim (Bool-cases (is_issued r.state)) [
    | inl i ↦ edge_from r Lives.issued 0 (ground arith) (ground arith) Lives.fence_issued
    | inr i ↦ edge_from r Lives.running 1 (ground arith) (ground arith) Lives.fence_running
  ]
]

module _ {s : Ledger} where
  permit :
      (r : AllocationRow) (c : Columns)
      → (is_valid_row r ≡ true → Allowed r (with_columns c r))
      → Finds {E = Failure} s (Permitted r) (pure (some c))
  permit r c h = Finds-pure (some c) h

  no_change :
      (r : AllocationRow) (b : Bool) (e : Failure)
      → Finds {S = Ledger} s (Permitted r) (if b then pure none else raise e)
  no_change r true e = Finds-pure none tt
  no_change r false e = Finds-raise e

  start-Finds :
      (q : Arguments) (r : AllocationRow) (issued_at claim_deadline : ℕ)
      → Finds s (Permitted r) (start q r issued_at claim_deadline)
  unfolding start
  start-Finds q r issued_at claim_deadline = Finds-bind _ _ (Finds-or_raise _ _) λ now _.
      Finds-bind _ _ (Finds-raise_unless _ _) λ _ is. Finds-bind _ _ (Finds-raise_if _ _) λ _ _.
        Finds-bind _ _ (Finds-raise_unless _ _) λ _ _. Finds-pure _ λ v. record {
          valid = ground arith;
          later = ground arith;
          lives = edge r Lives.issued _ (ground arith) Lives.start;
        }

  end_job-Finds : (q : Arguments) (r : AllocationRow) → Finds s (Permitted r) (end_job q r)
  unfolding end_job
  end_job-Finds q r = Finds-bind _ _ (Finds-raise_unless _ _) λ _ is. Finds-pure _ λ v. record {
    valid = ground arith;
    later = ground arith;
    lives = edge r Lives.running _ (ground arith) (Lives.finish (ground arith));
  }

  clean-Finds : (r : AllocationRow) → Finds s (Permitted r) (clean r)
  unfolding clean
  clean-Finds r =
      Finds-if (is_terminal r.state && r.jobs_started == 1 && is_terminal_outcome r.outcome) _ _
        (λ is. permit r _ λ v. record {
          valid = ground arith;
          later = ground arith;
          lives =
              subst (λ n. life_of r ⟶* Lives.cleaned n r.outcome) (ground arith)
                (edge r (Lives.ended r.outcome) _ (ended_life r (ground arith)) Lives.clean);
        })
        (λ _. no_change r (is_cleaned r.state) invalid_transition)

  fence-Finds : (sv : Services) (r : AllocationRow) → Finds s (Permitted r) (fence sv r)
  unfolding fence cleanup_key
  fence-Finds sv r =
      Finds-if
        ((is_reserved r.state || is_issued r.state || is_running r.state)
          && (r.jobs_started == 0 || r.jobs_started == 1))
        _ _
        (λ is.
          Finds-bind _ _
            (Finds-bind _ _ (Finds-or_raise _ _) λ body _. Finds-pure {P = λ k. Unit {0}} _ tt)
            λ key _. permit r _ λ v. record {
              valid = ground arith;
              later = ground arith;
              lives = fence-life r (ground arith) v;
            })
        (λ _.
          no_change r (is_recovery_required r.state && is_value r.outcome "reboot")
            invalid_transition)

  acknowledge-Finds :
      (sv : Services) (q : Arguments) (r : AllocationRow)
      → Finds s (Permitted r) (acknowledge sv q r)
  unfolding acknowledge
  acknowledge-Finds sv q r = Finds-bind _ _ (Finds-or_raise _ _) λ evidence _.
      Finds-bind _ _ (Finds-raise_unless _ _) λ _ _. Finds-bind _ _ (Finds-or_raise _ _) λ body _.
        Finds-if (is_recovery_required r.state && r.recovery_required && r.cleanup_pending) _ _
          (λ is. permit r _ λ v. record {
            valid = ground (arith, acknowledged r is v);
            later = ground arith;
            lives = edge r (Lives.fenced r.jobs_started) _ (ground arith) (
                subst (λ o. Lives.fenced r.jobs_started ⟶ Lives.cleaned r.jobs_started o)
                  (sym (acknowledged r is v).1) Lives.acknowledge);
          })
          (λ _.
            no_change r
              (is_cleaned r.state
                && is_value r.outcome "reboot"
                && is_value r.cleanup_evidence_digest (sv.sha256 body))
              jit_error)

  decide-Finds :
      (sv : Services) (a : Action) (q : Arguments) (r : AllocationRow)
      (issued_at claim_deadline : ℕ)
      → Finds s (Permitted r) (decide sv a q r issued_at claim_deadline)
  unfolding decide
  decide-Finds sv admit_job q r issued_at claim_deadline = start-Finds q r issued_at claim_deadline
  decide-Finds sv finish q r issued_at claim_deadline = end_job-Finds q r
  decide-Finds sv cleanup q r issued_at claim_deadline = clean-Finds r
  decide-Finds sv recover q r issued_at claim_deadline = fence-Finds sv r
  decide-Finds sv ack_recovery_cleanup q r issued_at claim_deadline = acknowledge-Finds sv q r

  -- the times of a row
  pub read_times-Finds :
      (sv : Services) (r : AllocationRow) → Finds s (λ t. Unit {0}) (read_times sv r)
  unfolding read_times
  read_times-Finds sv r = Finds-bind _ _ (Finds-or_raise _ _) λ _ _.
      Finds-bind _ _ (Finds-or_raise _ _) λ _ _. Finds-bind _ _ (Finds-or_raise _ _) λ _ _.
        Finds-bind _ _ (Finds-or_raise _ _)
          λ _ _. Finds-bind _ _ (Finds-or_raise _ _) λ _ _. Finds-pure _ tt

write-Moves :
    (s : Ledger) (id : String) (r : AllocationRow) (t : Times) (c : Option Columns)
    → lookup row_key id s.allocations ≡ some r
    → Permitted r c
    → Moves s (write id r t c s).1
unfolding write ◌>>=◌
write-Moves s id r t none e h = Step-refl s.allocations
write-Moves s id r t (some c) e h =
    Step-update id (with_columns c) (λ q. (refl, refl)) s.allocations r e h

pub transition-Moves :
    (sv : Services) (id name : String) (q : Arguments) → Related Moves (transition sv id name q)
unfolding transition
transition-Moves sv id name q = record {
  at = λ s. after Moves _ _ (Finds-or_raise _ _) λ action _.
      after Moves _ _ (Finds-raise_if _ _) λ _ _. after Moves _ _ (Finds-gets _) λ found here.
        after Moves _ _ (Finds-or_raise _ _) λ row is.
          after Moves _ _ (read_times-Finds sv row) λ t _.
            after Moves _ _ (decide-Finds sv action q row t.issued_at t.claim_deadline)
              λ c h. write-Moves s id row t c (here ∙ is) h;
}
