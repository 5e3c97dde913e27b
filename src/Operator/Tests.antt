-- ===== src/Operator/Tests.antt =====
-- One step of a rollout and of a rollback.
use self_hosted_ci.Prelude.{
  String, ◌≡◌, ◌↔◌, ◌⊎◌, Bool, true, false, none, some, List, [], ◌∷◌, Option, ◌==◌, string_eq,
  if◌then◌else◌,
}
use self_hosted_ci.Operator.{
  OperatorState, Criterion, plan_enable, is_ready, is_empty, no_duplicates, enable_order,
}
use self_hosted_ci.Operator.Steps.{Readies, Follows, plan_enable_ready_iff}

abbrev facts : String → Option Bool
facts step = if step == "install_pr_workflow" then some true else none

abbrev state : OperatorState
state = record {
  repository = "owner/name";
  ci_mode = "github";
  enable_completed = "prove_authority" ∷ [];
  disable_completed = [];
  external_facts = facts;
  bootstrap_repository_created = true;
}

abbrev criteria : List Criterion
criteria = record { criterion_id = "push_main_ci"; status = "pass"; blocker = none } ∷ []

plan_enable_ready_iff_example : Readies (plan_enable state criteria) "install_pr_workflow" ↔ (
    (is_ready criteria ≡ true)
    × ((state.ci_mode ≡ "github") ⊎ (is_empty state.enable_completed ≡ false))
    × (no_duplicates state.enable_completed ≡ true)
    × Follows state.enable_completed "install_pr_workflow" enable_order
    × (state.external_facts "install_pr_workflow" ≡ some true))
plan_enable_ready_iff_example = plan_enable_ready_iff state criteria "install_pr_workflow"
