-- ===== src/Timing.antt =====
-- github_automation/timing.py: deadlines and the failure taxonomy, policy version 1.
-- An instant is its UTC time in microseconds, a duration a number of microseconds; a naive
-- `datetime`, which `_utc` refuses, is no value of the model.
pub mod Deadlines
pub mod Failures
pub mod Laws
mod Tests
