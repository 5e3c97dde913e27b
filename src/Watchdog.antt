-- ===== src/Watchdog.antt =====
-- github_automation/watchdog.py: the planner that reconciles a gate, and the execution of one decision.
pub mod Planner
pub mod Execution
pub mod Laws
mod Tests
