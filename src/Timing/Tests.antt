-- ===== src/Timing/Tests.antt =====
-- A functional failure that ended in time.
use self_hosted_ci.Prelude.{ℕ, ◌≡◌, ◌↔◌, ◌≤◌, true, some}
use self_hosted_ci.Timing.Failures.{functional_failure, local_final_failure, classify_failure}
use self_hosted_ci.Timing.Laws.{classify_failure-final}

classify_failure-final_example :
    (classify_failure functional_failure true (some 3) (some 5) ≡ local_final_failure) ↔ (
      (functional_failure ≡ functional_failure)
      × (true ≡ true)
      × (t : ℕ) × (d : ℕ) × (some 3 ≡ some t)
      × (some 5 ≡ some d)
      × (t ≤ d))
classify_failure-final_example = classify_failure-final functional_failure true (some 3) (some 5)
