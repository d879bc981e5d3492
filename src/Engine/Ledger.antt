-- ===== src/Engine/Ledger.antt =====
-- The invariant behind `pendingTasks` (src/models/workflowExecution.model.js): each run counts its
-- unfinished tasks, a run that is still going has no failed or cancelled task, and a run that is
-- completed or cancelled has no unfinished one.
pub mod Steps
pub mod Runs
pub mod Success
pub mod Dispatch
pub mod Complete
pub mod Failure
pub mod Fail
pub mod Pause
pub mod Cancel
pub mod Claim
pub mod Approve
pub mod Reconcile
pub mod Start
pub mod Open
use ai_distributed_workflow.Base.{
  ℕ, ◌+◌, ◌≡◌, refl, ◌<◌, Bool, true, false, List, All, ◌==◌, ◌&&◌, count, if◌then◌else◌,
}
use ai_distributed_workflow.Base.Int.{pos}
use ai_distributed_workflow.Mongo.Keyed.{Distinct}
use ai_distributed_workflow.Workflow.States.{ExecutionStatus as E, TaskStatus as T}
use ai_distributed_workflow.Engine.Model.{Execution, Task, Store}

-- Finished: COMPLETED, or ended without success.
abbrev pub is_broken : T → Bool
is_broken T.failed = true
is_broken T.dead_letter = true
is_broken T.cancelled = true
is_broken _ = false

abbrev pub is_unfinished : T → Bool
is_unfinished T.completed = false
is_unfinished T.failed = false
is_unfinished T.dead_letter = false
is_unfinished T.cancelled = false
is_unfinished _ = true

abbrev pub unfinished_of : ℕ → Task → Bool
unfinished_of e t = t.execution_id == e && is_unfinished t.status

abbrev pub broken_of : ℕ → Task → Bool
broken_of e t = t.execution_id == e && is_broken t.status

unfoldable pub unfinished : ℕ → List Task → ℕ
unfinished e ts = count (unfinished_of e) ts

unfoldable pub broken : ℕ → List Task → ℕ
broken e ts = count (broken_of e) ts

-- RUNNING, PAUSED and COMPLETED runs have no broken task.
abbrev pub is_sound : E → Bool
is_sound E.running = true
is_sound E.paused = true
is_sound E.completed = true
is_sound _ = false

-- COMPLETED and CANCELLED runs have no unfinished task.
abbrev pub is_over : E → Bool
is_over E.completed = true
is_over E.cancelled = true
is_over _ = false

-- The counter of a run against its tasks. Inside a transaction the counter may be ahead by `gap`,
-- and a run with a task that just failed is `excused` until it is failed too.
pub record Books (gap : ℕ → ℕ) (excused : ℕ → Bool) (ts : List Task) (x : Execution) : Type 0 where
  pub pending : x.pending_tasks ≡ pos (unfinished x.id ts + gap x.id)
  pub sound : excused x.id ≡ false → is_sound x.status ≡ true → broken x.id ts ≡ 0
  pub over : is_over x.status ≡ true → unfinished x.id ts + gap x.id ≡ 0

abbrev pub nowhere : ℕ → ℕ
nowhere i = 0

abbrev pub nobody : ℕ → Bool
nobody i = false

abbrev pub just : ℕ → ℕ → ℕ → ℕ
just e n i = if i == e then n else 0

abbrev pub only : ℕ → ℕ → Bool
only e i = i == e

pub record Ledger (gap : ℕ → ℕ) (excused : ℕ → Bool) (s : Store) : Type 0 where
  pub executions_distinct : Distinct (λ x. x.id) s.executions
  pub tasks_distinct : Distinct (λ t. t.id) s.tasks
  pub executions_issued : All (λ x. x.id < s.issued) s.executions
  pub tasks_issued : All (λ t. (t.id < s.issued) × (t.execution_id < s.issued)) s.tasks
  pub books : All (Books gap excused s.tasks) s.executions

-- Between transactions.
abbrev pub IsBalanced : Store → Type 0
IsBalanced s = Ledger nowhere nobody s
