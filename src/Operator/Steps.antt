-- ===== src/Operator/Steps.antt =====
-- When the operator's planner makes a step ready.
use self_hosted_ci.Prelude.{
  ◌⊎◌, Option-cases, inr, inl, Bool-cases, ◌↔◌, ◌≡◌, refl, String, true, false, Option, some, List,
  [], ◌∷◌, ◌++◌, arith, eq_iff, ◌==◌, string_eq, nat_eq,
}
use self_hosted_ci.Operator.{
  Operation, enable_order, disable_order, OperatorState, OperatorDecision, Rest, rest_of,
  no_duplicates, judge, plan_rest, completed_steps, plan, Criterion, is_empty, is_ready,
  plan_enable, plan_disable, enable, disable, ready, not_a_prefix, finished, next,
}

-- The planner says that `step` is ready.
abbrev pub Readies : Option OperatorDecision → String → Type 0
Readies o step =
    (d : OperatorDecision) × (o ≡ some d) × (d.status ≡ ready) × (d.next_step ≡ some step)

-- `step` is what follows `completed` in `order`.
abbrev pub Follows : List String → String → List String → Type 0
Follows completed step order = (rest : List String) × (order ≡ completed ++ step ∷ rest)

rest_of-Follows :
    (completed order : List String) (step : String)
    → rest_of completed order ≡ next step
    → Follows completed step order
unfolding rest_of
rest_of-Follows [] [] step h = absurd (ground arith)
rest_of-Follows [] (x ∷ order) step h = (order, ground arith)
rest_of-Follows (done ∷ completed) [] step h = absurd (ground arith)
rest_of-Follows (done ∷ completed) (x ∷ order) step h = elim (Bool-cases (done == x)) [
  | inl same ↦
      let (rest, e) = rest_of-Follows completed order step (ground arith) in
      (rest, ground (arith, eq_iff done x))
  | inr other ↦ absurd (ground arith)
]

Follows-rest_of :
    (completed order : List String) (step : String)
    → Follows completed step order
    → rest_of completed order ≡ next step
unfolding rest_of
Follows-rest_of [] [] step (rest, e) = absurd (ground arith)
Follows-rest_of [] (x ∷ order) step (rest, e) = ground arith
Follows-rest_of (done ∷ completed) [] step (rest, e) = absurd (ground arith)
Follows-rest_of (done ∷ completed) (x ∷ order) step (rest, e) =
    ground (arith, eq_iff done x, Follows-rest_of completed order step (rest, ground arith))

-- The planner's answer on a part of the order that is judged.
plan_rest-Readies :
    (op : Operation) (s : OperatorState) (completed : List String) (r : Rest) (step : String)
    → Readies (plan_rest op s completed r) step
    → (r ≡ next step) × (s.external_facts step ≡ some true)
unfolding plan_rest
plan_rest-Readies op s completed not_a_prefix step (d, e, ready_now, is_next) =
    absurd (ground arith)
plan_rest-Readies op s completed finished step (d, e, ready_now, is_next) = absurd (ground arith)
plan_rest-Readies op s completed (next x) step (d, e, ready_now, is_next) =
    elim (Option-cases (s.external_facts x)) [
      | inl unknown ↦ absurd (ground arith)
      | inr (b, known) ↦ ground arith
    ]

-- the converse
Readies-next :
    (op : Operation) (s : OperatorState) (completed : List String) (step : String)
    → s.external_facts step ≡ some true
    → Readies (plan_rest op s completed (next step)) step
unfolding plan_rest
Readies-next op s completed step verified =
    (judge op s completed step (some true), ground arith, refl, refl)

-- A step is ready exactly when the completed steps are free of duplicates, the step is the one that
-- follows them in the order, and it is verified externally.
plan_ready_iff :
    (op : Operation) (s : OperatorState) (order : List String) (step : String)
    → Readies (plan op s order) step ↔ (
        (no_duplicates (completed_steps op s) ≡ true)
        × Follows (completed_steps op s) step order
        × (s.external_facts step ≡ some true))
unfolding plan
plan_ready_iff op s order step = (
  λ readies. elim (Bool-cases (no_duplicates (completed_steps op s))) [
    | inl distinct ↦
        let (d, e, ready_now, is_next) = readies in
        let judged =
          plan_rest-Readies op s (completed_steps op s) (rest_of (completed_steps op s) order) step
            (d, ground arith, ready_now, is_next) in
        (distinct, rest_of-Follows (completed_steps op s) order step judged.0, judged.1)
    | inr repeated ↦ absurd (ground arith)
  ],
  λ (distinct, follows, verified).
      let (d, e, ready_now, is_next) = Readies-next op s (completed_steps op s) step verified in
      (
        d,
        ground (arith, Follows-rest_of (completed_steps op s) order step follows),
        ready_now,
        is_next,
      ),
)

-- An answer of the rollout means that it starts from GitHub-hosted CI or has begun.
start_of :
    (s : OperatorState) (criteria : List Criterion) (d : OperatorDecision)
    → plan_enable s criteria ≡ some d
    → (s.ci_mode ≡ "github") ⊎ (is_empty s.enable_completed ≡ false)
unfolding plan_enable
start_of s criteria d e = elim (Bool-cases (s.ci_mode == "github")) [
  | inl github ↦ inl ((eq_iff s.ci_mode "github").0 github)
  | inr other ↦ inr (ground arith)
]

-- Rollout makes a step ready exactly when the readiness matrix has criteria and none of them is open,
-- the rollout starts from GitHub-hosted CI or has begun, the completed steps are free of duplicates,
-- the step is the one that follows them in the rollout order, and it is verified externally.
pub plan_enable_ready_iff :
    (s : OperatorState) (criteria : List Criterion) (step : String)
    → Readies (plan_enable s criteria) step ↔ (
        (is_ready criteria ≡ true)
        × ((s.ci_mode ≡ "github") ⊎ (is_empty s.enable_completed ≡ false))
        × (no_duplicates s.enable_completed ≡ true)
        × Follows s.enable_completed step enable_order
        × (s.external_facts step ≡ some true))
unfolding plan_enable completed_steps
plan_enable_ready_iff s criteria step = (
  λ (d, e, ready_now, is_next).
      let planned : plan enable s enable_order ≡ some d = ground arith in
      let conditions =
        (plan_ready_iff enable s enable_order step).0 (d, planned, ready_now, is_next) in
      (ground arith, start_of s criteria d e, conditions.0, conditions.1, conditions.2),
  λ (matrix, start, distinct, follows, verified).
      let (d, e, ready_now, is_next) =
        (plan_ready_iff enable s enable_order step).1 (distinct, follows, verified) in
      (d, ground (arith, eq_iff s.ci_mode "github"), ready_now, is_next),
)

-- Rollback makes a step ready exactly when the completed steps are free of duplicates, the step is the
-- one that follows them in the rollback order, and it is verified externally; the readiness matrix
-- and the mode of the repository play no part.
pub plan_disable_ready_iff :
    (s : OperatorState) (step : String)
    → Readies (plan_disable s) step ↔ (
        (no_duplicates s.disable_completed ≡ true)
        × Follows s.disable_completed step disable_order
        × (s.external_facts step ≡ some true))
unfolding plan_disable completed_steps
plan_disable_ready_iff s step = plan_ready_iff disable s disable_order step
