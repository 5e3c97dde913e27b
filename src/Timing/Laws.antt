-- ===== src/Timing/Laws.antt =====
-- Which failures end a gate with a local verdict.
use self_hosted_ci.Timing.Deadlines.{completion_is_timely}
use self_hosted_ci.Timing.Failures.{
  functional_failure, local_final_failure, FailureClass, classify_functional, classify_failure,
}
use self_hosted_ci.Prelude.{refl, none, ◌≤◌, some, arith, ◌↔◌, true, Bool, ◌≡◌, Option, ℕ}

-- A local failure is final exactly when the class is a functional failure of an admitted execution
-- with a known end at or before a known deadline.
pub classify_failure-final :
    (c : FailureClass) (admitted : Bool) (terminal_at deadline : Option ℕ)
    → (classify_failure c admitted terminal_at deadline ≡ local_final_failure) ↔ (
        (c ≡ functional_failure)
        × (admitted ≡ true)
        × (t : ℕ) × (d : ℕ) × (terminal_at ≡ some t)
        × (deadline ≡ some d)
        × (t ≤ d))
unfolding classify_failure classify_functional completion_is_timely
classify_failure-final c admitted none deadline = (λ h. ground arith, λ h. ground arith)
classify_failure-final c admitted (some t) none = (λ h. ground arith, λ h. ground arith)
classify_failure-final c admitted (some t) (some d) =
    (λ h. (ground arith, ground arith, t, d, refl, refl, ground arith), λ h. ground arith)
