-- ===== src/Engine/Outcome.antt =====
-- src/workflow/engine.js, afterTaskSucceeded and afterTaskFailedForGood: what follows the end of a
-- task, inside the transaction of the caller.
use ai_distributed_workflow.Base.{
  ℕ, Bool, not, Option, none, some, ◌==◌, ◌&&◌, ◌||◌, if◌then◌else◌, is_empty,
}
use ai_distributed_workflow.Base.Int.{ℤ, decrease, is_zero, sub_ℕ}
use ai_distributed_workflow.Base.Dict.{has}
use ai_distributed_workflow.Mongo.Driver.{Mongo}
use ai_distributed_workflow.Workflow.States.{
  ExecutionStatus as E, TaskStatus as T, execution, task, same_execution, same_task,
}
use ai_distributed_workflow.Engine.Model.{
  Execution, Task, TaskError, Reason, plainly, dead_lettered_after, RunError, task_failed, Deps,
  Payload, execution_completed, execution_failed, task_completed, task_dead_lettered,
}
use ai_distributed_workflow.Engine.Actions.{
  Act, ◌>>=◌, ◌>>◌, pure, when, or_throw, assert_legal, change_execution, update_execution,
  update_tasks, emit,
}
use ai_distributed_workflow.Engine.Dispatch.{has_id, is_running}

abbrev pub is_live : E → Bool
is_live s = same_execution s E.running || same_execution s E.paused

-- `task.startedAt ? finishedAt - task.startedAt : null`
abbrev pub duration : Option ℕ → ℕ → Option ℤ
duration none finished_at = none
duration (some t) finished_at = some (sub_ℕ finished_at t)

abbrev pub pending_less : ℕ → Execution → Execution
pending_less n x = record x { pending_tasks = decrease x.pending_tasks n }

abbrev pub is_child_of : Task → Task → Bool
is_child_of p t = t.execution_id == p.execution_id && has t.key p.dependents

abbrev pub one_dep_less : Task → Task
one_dep_less t = record t { remaining_deps = decrease t.remaining_deps 1 }

abbrev pub is_unblocked : Task → Bool
is_unblocked t = same_task t.status T.pending && is_zero t.remaining_deps

abbrev pub made_ready : ℕ → Task → Task
made_ready now t = record t { status = T.ready; ready_at = some now }

-- `_id` and status, as in the conditional updates of an execution.
abbrev pub execution_in : ℕ → E → Execution → Bool
execution_in id status x = x.id == id && same_execution x.status status

abbrev pub made_completed : ℕ → Execution → Execution
made_completed now x = record x { status = E.completed; completed_at = some now }

-- The statuses that fail-fast cancels.
abbrev pub is_unstarted : T → Bool
is_unstarted s =
    same_task s T.pending
    || (same_task s T.ready || (same_task s T.queued || same_task s T.retrying))

abbrev pub unstarted_in : ℕ → Task → Bool
unstarted_in execution_id t = t.execution_id == execution_id && is_unstarted t.status

abbrev pub made_cancelled : ℕ → Task → Task
made_cancelled now t = record t { status = T.cancelled; completed_at = some now }

abbrev pub reason : T → ℕ → Reason
reason outcome attempt =
    if same_task outcome T.dead_letter then dead_lettered_after attempt else plainly

abbrev pub made_failed : RunError → ℕ → ℕ → Execution → Execution
made_failed why now cancelled x = record x {
  status = E.failed;
  error = some why;
  completed_at = some now;
  pending_tasks = decrease x.pending_tasks cancelled;
}

module _ (m : Mongo) (d : Deps) where
  unfoldable pub promote_children : E → Task → ℕ → Act (Unit {0})
  promote_children status t finished_at = do
    update_tasks m (is_child_of t) one_dep_less
    when (is_running status) do
      assert_legal task T.pending T.ready
      update_tasks m (λ c. is_child_of t c && is_unblocked c) (made_ready finished_at)
      pure tt

  unfoldable pub complete_run : ℕ → ℕ → Act (Unit {0})
  unfolding emit
  complete_run execution_id finished_at = do
    assert_legal execution E.running E.completed
    update_execution m (execution_in execution_id E.running) (made_completed finished_at)
    emit m d execution_id execution_completed

  unfoldable pub after_task_succeeded : Task → ℕ → Act (Unit {0})
  unfolding promote_children complete_run
  after_task_succeeded t finished_at = do
    updated ← change_execution m (has_id t.execution_id) (pending_less 1)
    x ← or_throw updated
    when (is_live x.status && not (is_empty t.dependents)) (promote_children x.status t finished_at)
    when (is_running x.status && is_zero x.pending_tasks) (complete_run x.id finished_at)
    emit m d t.execution_id
        (task_completed t.id t.key t.attempt (duration t.started_at finished_at))

  unfoldable pub fail_fast : Execution → Task → T → TaskError → ℕ → Act (Unit {0})
  unfolding emit
  fail_fast x t outcome why finished_at = do
    cancelled ← update_tasks m (unstarted_in t.execution_id) (made_cancelled finished_at)
    assert_legal execution x.status E.failed
    update_execution m (execution_in x.id x.status)
        (made_failed (task_failed t.key (reason outcome t.attempt) why) finished_at cancelled)
    emit m d x.id (execution_failed t.key why)

  unfoldable pub after_task_failed_for_good : Task → T → TaskError → Bool → ℕ → Act (Unit {0})
  unfolding fail_fast
  after_task_failed_for_good t outcome why retryable finished_at = do
    updated ← change_execution m (has_id t.execution_id) (pending_less 1)
    x ← or_throw updated
    when (is_live x.status) (fail_fast x t outcome why finished_at)
    emit m d t.execution_id (
        if same_task outcome T.dead_letter
        then task_dead_lettered t.id t.key t.attempt why retryable
        else Payload.task_failed t.id t.key t.attempt why retryable)
