-- ===== src/Engine.antt =====
-- src/workflow/engine.js and src/repositories/task.repository.js.
pub mod Model
pub mod Actions
pub mod After
pub mod Ledger
pub mod Tasks
pub mod Transition
pub mod Dispatch
pub mod Outcome
pub mod Control
pub mod Report
pub mod Start
pub mod Claim
pub mod Approve
pub mod Reconcile
pub mod Runs
