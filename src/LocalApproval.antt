-- ===== src/LocalApproval.antt =====
-- github_automation/local_approval.py: the durable store of approved pull request heads.
pub mod Rows
pub mod Requests
pub mod Approve
pub mod Claims
pub mod Polling
pub mod Discards
pub mod Steps
pub mod Calls
pub mod Histories
pub mod Uniqueness
pub mod Results
pub mod Recovery
pub mod Approvals
mod Tests
pub mod Moves
