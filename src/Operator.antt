-- ===== src/Operator.antt =====
-- github_automation/operator.py: the rollout and rollback planner.
pub mod Steps
mod Tests
use self_hosted_ci.Prelude.{
  ◌⊎◌, Option-cases, inr, inl, Bool-cases, ◌↔◌, ℕ, ◌+◌, ◌≡◌, ◌<◌, ◌≤◌, refl, String, Bool, true,
  false, not, ◌&&◌, ◌||◌, Option, none, some, List, [], ◌∷◌, ◌++◌, arith, eq_iff, ◌==◌,
  if◌then◌else◌, string_eq, nat_eq, ltb, is_none, length,
}
use self_hosted_ci.Json.{is_true}

pub data Operation : Type 0 where
  enable disable : Operation

pub data Status : Type 0 where
  complete ready blocked : Status

abbrev pub enable_order : List String
enable_order =
    "prove_authority" ∷ "install_pr_workflow" ∷ "github_smoke" ∷ "allowlist_or_runner_group"
    ∷ "local_smoke" ∷ "fallback_smoke" ∷ []

abbrev pub disable_order : List String
disable_order =
    "set_github_first" ∷ "fence_and_cancel_local" ∷ "github_smoke" ∷ "revoke_exact_authority"
    ∷ "reconcile" ∷ []

-- a fact is `True`, `False` or `None`; a missing one reads as `None`
pub record OperatorState : Type 0 where
  pub repository : String
  pub ci_mode : String
  pub enable_completed : List String
  pub disable_completed : List String
  pub external_facts : String → Option Bool
  pub bootstrap_repository_created : Bool

pub data Blocker : Type 0 where
  verification_failed verification_required : String → Blocker
  criterion : String → String → Blocker

pub record OperatorDecision : Type 0 where
  pub operation : Operation
  pub status : Status
  pub next_step : Option String
  pub completed : List String
  pub blockers : List Blocker
  pub warned : Bool

-- `order[: len(completed)] == completed`, then `order[len(completed)]` or the end
pub data Rest : Type 0 where
  not_a_prefix : Rest
  finished : Rest
  next : String → Rest

unfoldable pub rest_of : List String → List String → Rest
rest_of [] [] = finished
rest_of [] (step ∷ order) = next step
rest_of (done ∷ completed) [] = not_a_prefix
rest_of (done ∷ completed) (step ∷ order) =
    if done == step then rest_of completed order else not_a_prefix

abbrev pub member : String → List String → Bool
member x [] = false
member x (y ∷ ys) = x == y || member x ys

-- `len(set(completed)) == len(completed)`
unfoldable pub no_duplicates : List String → Bool
no_duplicates [] = true
no_duplicates (x ∷ xs) = not (member x xs) && no_duplicates xs

abbrev pub judge : Operation → OperatorState → List String → String → Option Bool → OperatorDecision
judge op s completed step (some true) = record {
  operation = op;
  status = ready;
  next_step = some step;
  completed = completed;
  blockers = [];
  warned = not s.bootstrap_repository_created;
}
judge op s completed step (some false) = record {
  operation = op;
  status = blocked;
  next_step = some step;
  completed = completed;
  blockers = verification_failed step ∷ [];
  warned = not s.bootstrap_repository_created;
}
judge op s completed step none = record {
  operation = op;
  status = blocked;
  next_step = some step;
  completed = completed;
  blockers = verification_required step ∷ [];
  warned = not s.bootstrap_repository_created;
}

-- `none` is the `ValueError`
unfoldable pub plan_rest : Operation → OperatorState → List String → Rest → Option OperatorDecision
plan_rest op s completed not_a_prefix = none
plan_rest op s completed finished = some (record {
  operation = op;
  status = complete;
  next_step = none;
  completed = completed;
  blockers = [];
  warned = not s.bootstrap_repository_created;
})
plan_rest op s completed (next step) = some (judge op s completed step (s.external_facts step))

unfoldable pub completed_steps : Operation → OperatorState → List String
completed_steps enable s = s.enable_completed
completed_steps disable s = s.disable_completed

-- `_validate_prefix`, then the rest of `_plan`
unfoldable pub plan : Operation → OperatorState → List String → Option OperatorDecision
plan op s order =
    let completed = completed_steps op s in
    if no_duplicates completed then plan_rest op s completed (rest_of completed order) else none

-- one criterion of a `ReadinessMatrix`
pub record Criterion : Type 0 where
  pub criterion_id : String
  pub status : String
  pub blocker : Option String

abbrev pub passes : Criterion → Bool
passes c = c.status == "pass" || c.status == "not_applicable"

-- `item.blocker or item.status`
abbrev pub explanation : Criterion → String
explanation c = elim c.blocker [ none ↦ c.status | some why ↦ if why == "" then c.status else why ]

unfoldable pub open_criteria : List Criterion → List Blocker
open_criteria [] = []
open_criteria (c ∷ cs) =
    let rest = open_criteria cs in
    if passes c then rest else criterion c.criterion_id (explanation c) ∷ rest

abbrev pub is_empty : {A : Type 0} → List A → Bool
is_empty [] = true
is_empty (x ∷ xs) = false

abbrev pub all_pass : List Criterion → Bool
all_pass [] = true
all_pass (c ∷ cs) = passes c && all_pass cs

-- `ReadinessMatrix.ready`
abbrev pub is_ready : List Criterion → Bool
is_ready criteria = not (is_empty criteria) && all_pass criteria

unfoldable pub plan_enable : OperatorState → List Criterion → Option OperatorDecision
plan_enable s criteria =
    if not (s.ci_mode == "github") && is_empty s.enable_completed
    then none
    else if not (is_ready criteria)
    then some (record {
      operation = enable;
      status = blocked;
      next_step = none;
      completed = s.enable_completed;
      blockers = open_criteria criteria;
      warned = false;
    })
    else plan enable s enable_order

unfoldable pub plan_disable : OperatorState → Option OperatorDecision
plan_disable s = plan disable s disable_order
