-- ===== src/Broker/Moves.antt =====
-- The broker changes its ledger by the ledger's calls only.
use self_hosted_ci.Prelude.{
  ℕ, zero, suc, String, Bool, Option, none, some, List, [], ◌∷◌, nat_eq, Option-cases, inl, inr,
}
use self_hosted_ci.Json.{Fields}
use self_hosted_ci.Effects.{Outcome, ok, err, Act}
use self_hosted_ci.Effects.Related.{
  Related-raise_if, Related-raise_unless, IsPreorder, Related, related_rules, Related-bind,
  Related-if, Related-pure, Related-raise, Related-or_raise, Related-attempt, Related-rescue,
}
use self_hosted_ci.Allocation as Allocation
use self_hosted_ci.Allocation.{Services}
use self_hosted_ci.Allocation.Rows.{Ledger}
use self_hosted_ci.Allocation.Reading.{
  payload-Related, reservation-Related, scale_set_binding-Related, ids-Related, get_record-Related,
}
use self_hosted_ci.Allocation.Steps.{Step, Step-refl, Step-trans, Moves, Moves-IsPreorder}
use self_hosted_ci.Allocation.Moves.{reserve-Moves, finalize-Moves, bind_scale_set-Moves}
use self_hosted_ci.Allocation.Transitions.{transition-Moves}
use self_hosted_ci.Allocation.Lifecycle.{AllocationRecord}
use self_hosted_ci.Broker.{Failure, State, Driver, Broker, on_ledger, outside}
use self_hosted_ci.Broker.Recovery.{
  after_measurement, delete_known, text_at, delete_exact, converge, wait_for_cleanup, binding_of,
  find_bound, acknowledge, settle_record, recover, finish, recover_each,
}
use self_hosted_ci.Broker.Jobs.{
  after_observation, Policy, wait_for_observation, admit_job, disable_in_time, prove_and_admit,
}

pub ruleset ledger_rules = (
  payload-Related, reservation-Related, scale_set_binding-Related, ids-Related, get_record-Related,
  reserve-Moves, finalize-Moves, bind_scale_set-Moves, transition-Moves,
)

module _ {W : Type 0} where
  -- what the broker may do to its ledger
  abbrev pub Serves : State W → State W → Type 0
  Serves s t = Step s.ledger.allocations t.ledger.allocations

  instance abbrev pub Serves-IsPreorder : IsPreorder Serves
  Serves-IsPreorder = record {
    reflexive = λ s. Step-refl s.ledger.allocations;
    transitive = λ s t u. Step-trans s.ledger.allocations t.ledger.allocations u.ledger.allocations;
  }

  pub on_ledger-Serves :
      {A : Type 0} (m : Act Allocation.Failure Ledger A)
      → Related Moves m
      → Related Serves (on_ledger {W = W} m)
  unfolding on_ledger
  on_ledger-Serves m h = record { at = λ s. h.at s.ledger }

  pub outside-Serves : {A : Type 0} (m : Act Failure W A) → Related Serves (outside m)
  unfolding outside
  outside-Serves m = record { at = λ s. Step-refl s.ledger.allocations }

  pub text_at-Serves :
      (k : String) (fields : Fields) → Related Serves (text_at {S = State W} k fields)
  unfolding text_at
  text_at-Serves k fields = Related-or_raise _ _

  pub ruleset broker_rules =
      (related_rules, ledger_rules, on_ledger-Serves, outside-Serves, text_at-Serves)

  pub delete_exact-Serves :
      (d : Driver W) (id name : String) → Related Serves (delete_exact d id name)
  unfolding delete_exact
  delete_exact-Serves d id name = search broker_rules depth 12

  pub binding_of-Serves : (sv : Services) (id : String) → Related Serves (binding_of {W = W} sv id)
  unfolding binding_of
  binding_of-Serves sv id = search broker_rules

  pub find_bound-Serves : (d : Driver W) (id name : String) → Related Serves (find_bound d id name)
  unfolding find_bound
  find_bound-Serves d id name = Related-rescue _ _ _ (search broker_rules) (
      Related-bind _ _ (outside-Serves _) λ found. elim (Option-cases found) [
        | inl e ↦ rw e (search broker_rules)
        | inr (scale_set, e) ↦ rw e (search broker_rules)
      ])

  pub acknowledge-Serves :
      (sv : Services) (d : Driver W) (id name : String) → Related Serves (acknowledge sv d id name)
  unfolding acknowledge
  acknowledge-Serves sv d id name = search broker_rules depth 12

  pub settle_record-Serves :
      (sv : Services) (d : Driver W) (found : AllocationRecord) (id name : String)
      → Related Serves (settle_record sv d found id name)
  unfolding settle_record
  settle_record-Serves sv d found id name = search (broker_rules, acknowledge-Serves) depth 12

  pub delete_known-Serves :
      (d : Driver W) (o : Option String) (name : String) → Related Serves (delete_known d o name)
  unfolding delete_known
  delete_known-Serves d none name = outside-Serves _
  delete_known-Serves d (some id) name = delete_exact-Serves d id name

  pub recover-Serves :
      (sv : Services) (d : Driver W) (id : String) → Related Serves (recover sv d id)
  unfolding recover
  recover-Serves sv d id =
      search
        (
          broker_rules, binding_of-Serves, find_bound-Serves, delete_known-Serves,
          settle_record-Serves,
        )
        depth 14

  after_measurement-Serves :
      (d : Driver W) (deadline : ℕ) (again : Broker W (Unit {0})) (r : Outcome Failure Fields)
      → Related Serves again
      → Related Serves (after_measurement d deadline again r)
  unfolding after_measurement
  after_measurement-Serves d deadline again (ok measured) h = Related-pure tt
  after_measurement-Serves d deadline again (err e) h =
      Related-bind _ _ (Related-raise_unless _ _) λ _. Related-bind _ _ (outside-Serves _) λ now.
        Related-bind _ _ (Related-raise_if _ _) λ _. Related-bind _ _ (outside-Serves _) λ _. h

  converge-Serves :
      (fuel : ℕ) (d : Driver W) (id name : String) (deadline : ℕ)
      → Related Serves (converge fuel d id name deadline)
  unfolding converge
  converge-Serves zero d id name deadline = Related-raise _
  converge-Serves (suc fuel) d id name deadline =
      Related-bind _ _ (Related-attempt _ (outside-Serves _))
        λ r. after_measurement-Serves d deadline _ r (converge-Serves fuel d id name deadline)

  pub wait_for_cleanup-Serves :
      (fuel : ℕ) (d : Driver W) (id name : String)
      → Related Serves (wait_for_cleanup fuel d id name)
  unfolding wait_for_cleanup
  wait_for_cleanup-Serves fuel d id name = search (broker_rules, converge-Serves)

  after_observation-Serves :
      (d : Driver W) (p : Policy) (deadline : ℕ) (again : Broker W (Unit {0}))
      (r : Outcome Failure (Unit {0}))
      → Related Serves again
      → Related Serves (after_observation d p deadline again r)
  unfolding after_observation
  after_observation-Serves d p deadline again (ok u) h = search broker_rules
  after_observation-Serves d p deadline again (err e) h =
      Related-bind _ _ (Related-raise_unless _ _) λ _.
        Related-bind _ _ (outside-Serves _) λ now. Related-bind _ _ (search broker_rules) λ _. h

  pub wait_for_observation-Serves :
      (fuel : ℕ) (d : Driver W) (p : Policy) (observe : ℕ → Broker W (Unit {0})) (deadline : ℕ)
      → ((n : ℕ) → Related Serves (observe n))
      → Related Serves (wait_for_observation fuel d p observe deadline)
  unfolding wait_for_observation
  wait_for_observation-Serves zero d p observe deadline h = Related-raise _
  wait_for_observation-Serves (suc fuel) d p observe deadline h =
      Related-bind _ _ (outside-Serves _) λ now. Related-bind _ _ (search broker_rules) λ _.
        Related-bind _ _ (Related-attempt _ (h _)) λ r.
          after_observation-Serves d p deadline _ r
            (wait_for_observation-Serves fuel d p observe deadline h)

  pub finish-Serves :
      (fuel : ℕ) (sv : Services) (d : Driver W) (id outcome : String) (cancelled : Bool)
      → Related Serves (finish fuel sv d id outcome cancelled)
  unfolding finish
  finish-Serves fuel sv d id outcome cancelled =
      search
        (
          broker_rules, binding_of-Serves, recover-Serves, delete_exact-Serves,
          wait_for_cleanup-Serves,
        )
        depth 14

  pub recover_each-Serves :
      (sv : Services) (d : Driver W) (ids : List String) → Related Serves (recover_each sv d ids)
  unfolding recover_each
  recover_each-Serves sv d [] = Related-pure _
  recover_each-Serves sv d (id ∷ ids) =
      Related-bind _ _ (recover-Serves sv d id)
        λ _. Related-bind _ _ (recover_each-Serves sv d ids) λ _. Related-pure _

  pub admit_job-Serves :
      (sv : Services) (id : String) (now : ℕ) → Related Serves (admit_job {W = W} sv id now)
  unfolding admit_job
  admit_job-Serves sv id now = search broker_rules

  pub prove_and_admit-Serves :
      (fuel : ℕ) (sv : Services) (d : Driver W) (p : Policy) (id : String)
      (context payload : Fields) (binding : String × String) (now : ℕ)
      → Related Serves (prove_and_admit fuel sv d p id context payload binding now)
  unfolding prove_and_admit disable_in_time
  prove_and_admit-Serves fuel sv d p id context payload binding now =
      search (broker_rules, wait_for_observation-Serves, admit_job-Serves) depth 14
