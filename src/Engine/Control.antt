-- ===== src/Engine/Control.antt =====
-- src/workflow/engine.js, pauseExecution, resumeExecution and cancelExecution. Each answers whether
-- the run was in a status that allows it. The second time is the one of the second `now()`.
use ai_distributed_workflow.Base.{ℕ, Bool, true, false, none, some, ◌==◌, ◌&&◌, ◌||◌, if◌then◌else◌}
use ai_distributed_workflow.Base.Int.{is_zero, decrease}
use ai_distributed_workflow.Mongo.Driver.{Mongo}
use ai_distributed_workflow.Workflow.States.{
  ExecutionStatus as E, TaskStatus as T, execution, same_task,
}
use ai_distributed_workflow.Engine.Model.{
  Execution, Task, Approval, ApprovalStatus, cancelled_by_user, Deps, execution_paused,
  execution_resumed, execution_completed, execution_cancelled,
}
use ai_distributed_workflow.Engine.Actions.{
  Act, ◌>>=◌, ◌>>◌, pure, when, assert_legal, find_execution, change_execution, update_execution,
  update_tasks, update_approvals, emit,
}
use ai_distributed_workflow.Engine.Dispatch.{dispatch_ready}
use ai_distributed_workflow.Engine.Outcome.{
  execution_in, is_live, is_unblocked, made_ready, made_completed,
}

abbrev pub with_status : E → Execution → Execution
with_status status x = record x { status = status }

abbrev pub live_with_id : ℕ → Execution → Bool
live_with_id id x = x.id == id && is_live x.status

-- The statuses that a cancelled run's tasks are taken out of.
abbrev pub is_cancellable : T → Bool
is_cancellable s =
    same_task s T.pending
    || (same_task s T.ready
        || (same_task s T.queued
            || (same_task s T.retrying
                || (same_task s T.running || same_task s T.waiting_for_approval))))

abbrev pub cancellable_in : ℕ → Task → Bool
cancellable_in execution_id t = t.execution_id == execution_id && is_cancellable t.status

abbrev pub cancelled_task : ℕ → Task → Task
cancelled_task now t = record t {
  status = T.cancelled;
  completed_at = some now;
  lease_owner = none;
  lease_expires_at = none;
}

abbrev pub cancelled_run : ℕ → ℕ → Execution → Execution
cancelled_run now n x = record x {
  status = E.cancelled;
  completed_at = some now;
  error = some cancelled_by_user;
  pending_tasks = decrease x.pending_tasks n;
}

abbrev pub is_pending : ApprovalStatus → Bool
is_pending ApprovalStatus.pending = true
is_pending _ = false

abbrev pub pending_of : ℕ → Approval → Bool
pending_of execution_id a = a.execution_id == execution_id && is_pending a.status

module _ (m : Mongo) (d : Deps) where
  unfoldable pub pause_body : ℕ → Act Bool
  unfolding emit
  pause_body id = do
    n ← update_execution m (execution_in id E.running) (with_status E.paused)
    if n == 1 then (do emit m d id execution_paused; pure true) else pure false

  unfoldable pub pause_execution : ℕ → Act Bool
  unfolding pause_body
  pause_execution id = do assert_legal execution E.running E.paused; m.transaction (pause_body id)

  unfoldable pub resume_rest : ℕ → Execution → ℕ → ℕ → Act Bool
  unfolding emit
  resume_rest id x now now' = do
    emit m d id execution_resumed
    update_tasks m (λ t. t.execution_id == id && is_unblocked t) (made_ready now)
    when (is_zero x.pending_tasks) do
      update_execution m (execution_in id E.running) (made_completed now')
      emit m d id execution_completed
    pure true

  unfoldable pub resume_body : ℕ → ℕ → ℕ → Act Bool
  unfolding resume_rest
  resume_body id now now' = do
    assert_legal execution E.paused E.running
    resumed ← change_execution m (execution_in id E.paused) (with_status E.running)
    elim resumed [ none ↦ pure false | some x ↦ resume_rest id x now now' ]

  unfoldable pub resume_execution : ℕ → ℕ → ℕ → ℕ → Act Bool
  unfolding resume_body dispatch_ready
  resume_execution id now now' later = do
    resumed ← m.transaction (resume_body id now now')
    when resumed (dispatch_ready m d later id)
    pure resumed

  unfoldable pub cancel_rest : ℕ → Execution → ℕ → ℕ → ℕ → Act Bool
  unfolding emit
  cancel_rest id x now now' now'' = do
    assert_legal execution x.status E.cancelled
    n ← update_tasks m (cancellable_in id) (cancelled_task now)
    update_execution m (execution_in id x.status) (cancelled_run now' n)
    when d.has_approvals do
      update_approvals m (pending_of id)
          (λ a. record a { status = ApprovalStatus.cancelled; decided_at = some now'' })
      pure tt
    emit m d id (execution_cancelled n)
    pure true

  unfoldable pub cancel_body : ℕ → ℕ → ℕ → ℕ → Act Bool
  unfolding cancel_rest
  cancel_body id now now' now'' = do
    live ← find_execution m (live_with_id id)
    elim live [ none ↦ pure false | some x ↦ cancel_rest id x now now' now'' ]

  unfoldable pub cancel_execution : ℕ → ℕ → ℕ → ℕ → Act Bool
  unfolding cancel_body
  cancel_execution id now now' now'' = m.transaction (cancel_body id now now' now'')
