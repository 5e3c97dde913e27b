-- ===== src/Allocation/Cleanups.antt =====
-- The end of an allocation: what a `cleanup` or an `ack-recovery-cleanup` that returns has written.
use self_hosted_ci.Prelude.{
  ◌≡◌, refl, subst, ap, ◌∙◌, String, Bool, true, false, ◌&&◌, Option, none, some, ◌==◌, lookup,
  lookup-update_self, nat_eq, string_eq, arith,
}
use self_hosted_ci.Effects.{Outcome, ok, ◌>>=◌}
use self_hosted_ci.Effects.Found.{
  Finds, Finds-pure, Finds-raise, Finds-gets, Finds-or_raise, Finds-raise_if, Finds-raise_unless,
  Finds-if, Finds-bind, returning,
}
use self_hosted_ci.Allocation.{Failure, Services}
use self_hosted_ci.Allocation.Rows.{
  State, AllocationRow, row_key, Ledger, is_cleaned, is_terminal, is_recovery_required,
  is_terminal_outcome, is_value,
}
use self_hosted_ci.Allocation.Lifecycle.{
  action_of, Action, cleanup, ack_recovery_cleanup, Arguments, AllocationRecord, Columns,
  with_columns, clean, acknowledge, decide, Times, write, transition, get_record,
}
use self_hosted_ci.Allocation.Lives.{Life, life_of, ◌⟶*◌, cleaned-⟶*}
use self_hosted_ci.Allocation.Lives
use self_hosted_ci.Allocation.Histories.{life_in}
use self_hosted_ci.Allocation.Transitions.{read_times-Finds}

abbrev pub is_gone : Life → Bool
is_gone (Lives.cleaned n o) = true
is_gone _ = false

-- what is gone stays gone
pub gone-⟶* : (l m : Life) → l ⟶* m → is_gone l ≡ true → is_gone m ≡ true
gone-⟶* (Lives.cleaned n o) m h e = ap is_gone (cleaned-⟶* h)
gone-⟶* (Lives.absent) m h e = absurd (ground arith)
gone-⟶* (Lives.reserved) m h e = absurd (ground arith)
gone-⟶* (Lives.issued) m h e = absurd (ground arith)
gone-⟶* (Lives.claimed) m h e = absurd (ground arith)
gone-⟶* (Lives.running) m h e = absurd (ground arith)
gone-⟶* (Lives.ended o) m h e = absurd (ground arith)
gone-⟶* (Lives.fenced n) m h e = absurd (ground arith)

-- the state of a row once a decision is written
abbrev state_after : AllocationRow → Option Columns → State
state_after r none = r.state
state_after r (some c) = c.state

abbrev Cleaned : AllocationRow → Option Columns → Type 0
Cleaned r c = is_cleaned (state_after r c) ≡ true

module _ {s : Ledger} where
  clean-Finds : (r : AllocationRow) → Finds s (Cleaned r) (clean r)
  unfolding clean
  clean-Finds r =
      Finds-if (is_terminal r.state && r.jobs_started == 1 && is_terminal_outcome r.outcome) _ _
        (λ _. Finds-pure _ refl)
        (λ _. Finds-if (is_cleaned r.state) _ _ (λ is. Finds-pure _ is) (λ _. Finds-raise _))

  acknowledge-Finds :
      (sv : Services) (q : Arguments) (r : AllocationRow) → Finds s (Cleaned r) (acknowledge sv q r)
  unfolding acknowledge
  acknowledge-Finds sv q r = Finds-bind _ _ (Finds-or_raise _ _) λ evidence _.
      Finds-bind _ _ (Finds-raise_unless _ _) λ _ _. Finds-bind _ _ (Finds-or_raise _ _) λ body _.
        Finds-if (is_recovery_required r.state && r.recovery_required && r.cleanup_pending) _ _
          (λ _. Finds-pure _ refl)
          (λ _.
            Finds-if
              (is_cleaned r.state
                && is_value r.outcome "reboot"
                && is_value r.cleanup_evidence_digest (sv.sha256 body))
              _ _ (λ is. Finds-pure _ (ground arith)) (λ _. Finds-raise _))

write-gone :
    (s : Ledger) (id : String) (r : AllocationRow) (t : Times) (c : Option Columns)
    → lookup row_key id s.allocations ≡ some r
    → Cleaned r c
    → is_gone (life_in id (write id r t c s).1) ≡ true
unfolding write ◌>>=◌
write-gone s id r t none e h = rw e (ground arith)
write-gone s id r t (some c) e h =
    rw (lookup-update_self row_key id (with_columns c) s.allocations (λ q. refl), e) (ground arith)

-- an action whose every decision cleans
transition-gone :
    (sv : Services) (id name : String) (a : Action) (q : Arguments) (s : Ledger)
    (answer : AllocationRecord)
    → some a ≡ action_of name
    → ((r : AllocationRow) (t : Times)
        → Finds s (Cleaned r) (decide sv a q r t.issued_at t.claim_deadline))
    → (transition sv id name q s).0 ≡ ok answer
    → is_gone (life_in id (transition sv id name q s).1) ≡ true
unfolding transition
transition-gone sv id name a q s answer known decides e =
    returning Q _ _ answer (Finds-or_raise _ _)
      (λ action is_a. returning Q _ _ answer (Finds-raise_if _ _) λ _ _.
        returning Q _ _ answer (Finds-gets _) λ found here.
          returning Q _ _ answer (Finds-or_raise _ _) λ row is.
            returning Q _ _ answer (read_times-Finds sv row) λ t _.
              returning Q _ _ answer
                (subst (λ b. Finds s (Cleaned row) (decide sv b q row t.issued_at t.claim_deadline))
                  (ground arith) (decides row t))
                λ c h _. write-gone s id row t c (here ∙ is) h)
      e
  where
    Q : Outcome Failure AllocationRecord × Ledger → Type 0
    Q r = is_gone (life_in id r.1) ≡ true

pub cleanup-gone :
    (sv : Services) (id : String) (q : Arguments) (s : Ledger) (answer : AllocationRecord)
    → (transition sv id "cleanup" q s).0 ≡ ok answer
    → is_gone (life_in id (transition sv id "cleanup" q s).1) ≡ true
unfolding decide
cleanup-gone sv id q s answer =
    transition-gone sv id "cleanup" cleanup q s answer refl λ r t. clean-Finds r

pub acknowledge-gone :
    (sv : Services) (id : String) (q : Arguments) (s : Ledger) (answer : AllocationRecord)
    → (transition sv id "ack-recovery-cleanup" q s).0 ≡ ok answer
    → is_gone (life_in id (transition sv id "ack-recovery-cleanup" q s).1) ≡ true
unfolding decide
acknowledge-gone sv id q s answer =
    transition-gone sv id "ack-recovery-cleanup" ack_recovery_cleanup q s answer refl
      λ r t. acknowledge-Finds sv q r

-- the state that `get` reads
pub get_record-Finds :
    {s : Ledger} (sv : Services) (id : String)
    → Finds s (λ found. is_cleaned found.columns.state ≡ is_gone (life_in id s)) (get_record sv id)
unfolding get_record
get_record-Finds sv id = Finds-bind _ _ (Finds-gets _) λ o here.
    Finds-bind _ _ (Finds-or_raise _ _) λ row is.
      Finds-bind _ _ (read_times-Finds sv row) λ t _. Finds-pure _ (rw (here ∙ is) (ground arith))
