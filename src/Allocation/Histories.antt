-- ===== src/Allocation/Histories.antt =====
-- What holds of the ledger in every history of calls: that it does what the graph of lives says.
use self_hosted_ci.Prelude.{
  ℕ, ◌≡◌, refl, subst, String, Option, none, some, List, [], ◌∷◌, lookup, Option-cases, inl, inr,
  nat_eq, string_eq,
}
use self_hosted_ci.Json.{Fields}
use self_hosted_ci.Effects.Related.{
  Related-pure, Related-gets, Related, related_rules, Related-modify, Related-bind,
}
use self_hosted_ci.Allocation.{Services}
use self_hosted_ci.Allocation.Rows.{AllocationRow, row_key, Ledger}
use self_hosted_ci.Allocation.Outcomes.{validate_event, append_outcome}
use self_hosted_ci.Allocation.Calls.{
  Call, admits, finalizes, reserves, binds, transitions, appends, opens, call, run, empty,
}
use self_hosted_ci.Allocation.Lives.{Life, cleaned, life, ◌⟶*◌, cleaned-⟶*}
use self_hosted_ci.Allocation.Steps.{
  IsValid, Later, Kept, Step, Step-refl, Step-trans, Moves, Moves-IsPreorder,
}
use self_hosted_ci.Allocation.Moves.{
  admit-Moves, reserve-Moves, finalize-Moves, bind_scale_set-Moves,
}
use self_hosted_ci.Allocation.Migration.{open_ledger-Moves}
use self_hosted_ci.Allocation.Transitions.{transition-Moves}

validate_event-Moves : (sv : Services) (event : Fields) → Related Moves (validate_event sv event)
unfolding validate_event
validate_event-Moves sv event = search related_rules depth 14

append_outcome-Moves :
    (sv : Services) (retention_days : ℕ) (event : Fields) (now : ℕ)
    → Related Moves (append_outcome sv retention_days event now)
unfolding append_outcome
append_outcome-Moves sv retention_days event now =
    Related-bind _ _ (validate_event-Moves sv event) λ _. Related-bind _ _ (Related-gets _) λ known.
      elim (Option-cases known) [
        | inl new ↦
            rw new
              (Related-bind _ _ (Related-modify _ λ t. Step-refl t.allocations) λ _. Related-pure _)
        | inr (r, there) ↦ rw there (search related_rules)
      ]

pub call-Step :
    (sv : Services) (c : Call) (s : Ledger) → Step s.allocations (call sv c s).allocations
call-Step sv (admits envelope pinned now) s = (admit-Moves sv envelope pinned now).at s
call-Step sv (finalizes envelope pinned now) s = (finalize-Moves sv envelope pinned now).at s
call-Step sv (reserves reservation now) s = (reserve-Moves sv reservation now).at s
call-Step sv (binds id scale_set_id name) s = (bind_scale_set-Moves id scale_set_id name).at s
call-Step sv (transitions id name q) s = (transition-Moves sv id name q).at s
call-Step sv (appends days event now) s = (append_outcome-Moves sv days event now).at s
call-Step sv (opens days now) s = (open_ledger-Moves sv days now).at s

pub run-Step :
    (cs : List (Services × Call)) (s : Ledger) → Step s.allocations (run cs s).allocations
unfolding run
run-Step [] s = Step-refl s.allocations
run-Step ((sv, c) ∷ cs) s =
    Step-trans s.allocations (call sv c s).allocations _ (call-Step sv c s)
      (run-Step cs (call sv c s))

-- the life of an allocation in a ledger
abbrev pub life_in : String → Ledger → Life
life_in id s = life (lookup row_key id s.allocations)

-- The ledger refines the graph of lives: in every history of its calls from a valid table, whatever
-- their arguments and whichever of them raise, each allocation has lived along the edges of the graph.
pub run-refines :
    (cs : List (Services × Call)) (s : Ledger) (id : String)
    → IsValid s.allocations
    → life_in id s ⟶* life_in id (run cs s)
run-refines cs s id v = ((run-Step cs s).moved v id).lives

Kept-some :
    (r : AllocationRow) (o : Option AllocationRow)
    → Kept (some r) o
    → (t : AllocationRow) × (o ≡ some t) × Later r t
Kept-some r none h = absurd h
Kept-some r (some t) h = (t, refl, h)

-- In every history of calls from a valid table, an allocation stays in the table, with its nonce, its
-- reservation and its scale set's name; its payload and claim deadline, once it has a payload, and the
-- scale set that it is bound to, once it is, are what they were for good.
pub run_preserved :
    (cs : List (Services × Call)) (s : Ledger) (id : String) (r : AllocationRow)
    → IsValid s.allocations
    → lookup row_key id s.allocations ≡ some r
    → (t : AllocationRow) × (lookup row_key id (run cs s).allocations ≡ some t) × Later r t
run_preserved cs s id r v e = Kept-some r _ (
    subst (λ o. Kept o (lookup row_key id (run cs s).allocations)) e
      ((run-Step cs s).moved v id).kept)

-- In every history of calls from a new file, an allocation that is cleaned stays cleaned, with the
-- number of its jobs and its outcome, whatever is called after.
pub run-cleaned :
    (before after : List (Services × Call)) (id : String) (n : ℕ) (o : Option String)
    → life_in id (run before empty) ≡ cleaned n o
    → life_in id (run after (run before empty)) ≡ cleaned n o
run-cleaned before after id n o e = cleaned-⟶* (
    subst (λ l. l ⟶* life_in id (run after (run before empty))) e
      (run-refines after (run before empty) id ((run-Step before empty).valid tt)))
