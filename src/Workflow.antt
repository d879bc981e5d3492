-- ===== src/Workflow.antt =====
-- src/workflow: the state machines of executions and tasks, and the task graphs.
pub mod States
pub mod Dag
pub mod Cycle
pub mod Validate
mod Samples
