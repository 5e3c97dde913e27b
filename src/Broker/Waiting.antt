-- ===== src/Broker/Waiting.antt =====
-- The observation loop ends.
use self_hosted_ci.Prelude.{
  ℕ, zero, suc, ◌+◌, ◌-◌, ◌≡◌, ◌≤◌, ◌<◌, refl, true, ltb, leb, arith, Bool-cases, inl, inr,
}
use self_hosted_ci.Effects.{Outcome, ok, err, attempt, ◌>>=◌}
use self_hosted_ci.Effects.Raised.{raised}
use self_hosted_ci.Broker.{Failure, is_exception, is_value_error, State, Driver, Broker, outside}
use self_hosted_ci.Broker.Jobs.{Policy, after_observation, wait_for_observation, smaller}

-- The clock of the world, which the driver reads, which a sleep moves, and which nothing turns back.
pub record IsClock {W : Type 0} (d : Driver W) (clock : W → ℕ) : Type 0 where
  pub reads : (w : W) → d.monotonic w ≡ (ok (clock w), w)
  pub sleeps : (n : ℕ) (w : W) → ((d.sleep n w).0 ≡ ok tt) × (clock w + n ≤ clock (d.sleep n w).1)

-- an observation, which does not turn the clock back
pub record IsObservation {W : Type 0} (clock : W → ℕ) (observe : ℕ → Broker W (Unit {0}))
    : Type 0 where
  pub raises : (n : ℕ) (s : State W) → raised is_exception (observe n s).0 ≡ true
  pub keeps : (n : ℕ) (s : State W) → clock s.world ≤ clock (observe n s).1.world

-- a sleep moves the clock
awake :
    (a b n deadline : ℕ) → 0 < n → a + smaller n (deadline - a) ≤ b → ltb a deadline ≡ true → a < b
awake a b n deadline h k e = ground arith

module _ {W : Type 0} (d : Driver W) (clock : W → ℕ) (p : Policy) (is_clock : IsClock d clock)
    (polls : 0 < p.poll_interval) where
  -- Another observation starts later, or not at all.
  after_observation_ends :
      (deadline : ℕ) (again : Broker W (Unit {0})) (r : Outcome Failure (Unit {0})) (s : State W)
      → raised is_exception r ≡ true
      → ((t : State W) → clock s.world < clock t.world → raised is_exception (again t).0 ≡ true)
      → (deadline ≤ clock s.world → raised is_exception (again s).0 ≡ true)
      → raised is_exception (after_observation d p deadline again r s).0 ≡ true
  unfolding after_observation outside ◌>>=◌
  after_observation_ends deadline again (ok u) s h k late =
      rw (is_clock.reads s.world) (ground arith)
  after_observation_ends deadline again (err e) s h k late = elim (Bool-cases (is_value_error e)) [
    | inr unknown ↦ rw unknown h
    | inl known ↦ elim (Bool-cases (ltb (clock s.world) deadline)) [
      | inl early ↦
          let slept =
            is_clock.sleeps (smaller p.poll_interval (deadline - clock s.world)) s.world in
          rw (known, is_clock.reads s.world, early, slept.0)
            (k _ (awake (clock s.world) _ p.poll_interval deadline polls slept.1 early))
      | inr over ↦ rw (known, is_clock.reads s.world, over) (late (ground arith))
    ]
  ]

  -- The loop ends: where the fuel exceeds the time that is left, which a sleep uses up, the observation is made,
  -- or an exception of the program is raised.
  pub wait_for_observation_ends :
      (fuel deadline : ℕ) (observe : ℕ → Broker W (Unit {0})) (s : State W)
      → IsObservation clock observe
      → deadline < clock s.world + fuel
      → 0 < fuel
      → raised is_exception (wait_for_observation fuel d p observe deadline s).0 ≡ true
  unfolding wait_for_observation outside attempt ◌>>=◌
  wait_for_observation_ends zero deadline observe s is enough more = absurd (ground arith)
  wait_for_observation_ends (suc fuel) deadline observe s is enough more =
      elim (Bool-cases (leb deadline (clock s.world))) [
        | inl over ↦ rw (is_clock.reads s.world, over) refl
        | inr early ↦
            rw (is_clock.reads s.world, early)
              (let n = deadline - clock s.world in
                let t = (observe n s).1 in
                let kept = is.keeps n s in
                after_observation_ends deadline (wait_for_observation fuel d p observe deadline)
                  (observe n s).0 t (is.raises n s)
                  (λ u b.
                    wait_for_observation_ends fuel deadline observe u is (omega arith)
                      (ground arith))
                  (λ over.
                    wait_for_observation_ends fuel deadline observe t is (ground arith)
                      (ground arith)))
      ]
