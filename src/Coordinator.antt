-- ===== src/Coordinator.antt =====
-- github_automation/coordinator.py: `outbound_local_dispatch` with its recovery, and
-- `github_hosted_fallback`. The adapters act on an abstract state, and may raise.
pub mod Adapters
pub mod Packages
pub mod Dispatch
pub mod Sending
pub mod Record
pub mod Races
mod Tests
