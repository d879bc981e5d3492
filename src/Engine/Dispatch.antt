-- ===== src/Engine/Dispatch.antt =====
-- src/workflow/engine.js, dispatchReady and dispatchTask: READY tasks are handed to the queue.
use ai_distributed_workflow.Base.{
  ℕ, suc, Bool, true, false, Option, none, some, List, [], ◌∷◌, ◌==◌, ◌&&◌, if◌then◌else◌,
}
use ai_distributed_workflow.Mongo.Driver.{Mongo}
use ai_distributed_workflow.Workflow.States.{
  ExecutionStatus as E, TaskStatus as T, same_execution, same_task,
}
use ai_distributed_workflow.Engine.Model.{Execution, Task, Deps}
use ai_distributed_workflow.Engine.Actions.{
  Act, ◌>>=◌, ◌>>◌, pure, when, find_execution, find_tasks, enqueue_safely,
}
use ai_distributed_workflow.Engine.Tasks.{transition_task}

abbrev pub has_id : ℕ → Execution → Bool
has_id id x = x.id == id

abbrev pub status_in : (E → Bool) → Option Execution → Bool
status_in p none = false
status_in p (some x) = p x.status

abbrev pub is_running : E → Bool
is_running s = same_execution s E.running

abbrev pub task_in : ℕ → T → Task → Bool
task_in execution_id status t = t.execution_id == execution_id && same_task t.status status

-- A loop that counts the rounds which answer true.
unfoldable pub count_rounds : {A : Type 0} → (A → Act Bool) → List A → ℕ → Act ℕ
count_rounds body [] n = pure n
count_rounds body (x ∷ xs) n = do won ← body x; count_rounds body xs (if won then suc n else n)

module _ (m : Mongo) (d : Deps) where
  unfoldable pub dispatch_task : ℕ → Task → Act Bool
  unfolding transition_task enqueue_safely
  dispatch_task now t = do
    won ←
        transition_task m t.id T.ready T.queued (λ _. true) (λ x. record x { queued_at = some now })
    if won then (do enqueue_safely d t; pure true) else pure false

  unfoldable pub dispatch_ready : ℕ → ℕ → Act (Unit {0})
  unfolding dispatch_task count_rounds
  dispatch_ready now execution_id = do
    execution ← find_execution m (has_id execution_id)
    when (status_in is_running execution) do
      ready ← find_tasks m (task_in execution_id T.ready)
      count_rounds (dispatch_task now) ready 0
      pure tt
