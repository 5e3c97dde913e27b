-- ===== src/GateStore.antt =====
-- github_automation/gatestore.py: the transactional single-winner store.
pub mod Rows
pub mod Monad
pub mod Queries
pub mod Heads
pub mod Leases
pub mod Nonces
pub mod Admissions
pub mod Completions
pub mod Verdicts
pub mod Outbox
pub mod Calls
pub mod Moves
pub mod Lemmas
pub mod Effects
pub mod Permanence
pub mod Histories
pub mod Fencing
pub mod Overtaking
pub mod SingleWinner
pub mod Commits
pub mod Agreement
pub mod Tables
pub mod Replays
pub mod HeadEpochs
mod Tests
