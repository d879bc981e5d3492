-- ===== src/Engine/Report.antt =====
-- src/workflow/engine.js, completeTask and failTask: the report of a worker, fenced by its lease.
use ai_distributed_workflow.Base.{
  ℕ, ◌+◌, Bool, true, false, not, Option, none, some, [], ◌∷◌, ◌==◌, ◌&&◌, ltb, String,
  if◌then◌else◌,
}
use ai_distributed_workflow.Base.Int.{ℤ}
use ai_distributed_workflow.Mongo.Driver.{Mongo, at_most}
use ai_distributed_workflow.Workflow.States.{TaskStatus as T}
use ai_distributed_workflow.Engine.Model.{
  Task, TaskError, Text, value, Attempt, AttemptStatus, Deps, task_retrying,
}
use ai_distributed_workflow.Engine.Actions.{
  Act, ◌>>=◌, ◌>>◌, pure, or_throw, find_execution, find_task, update_attempt, emit,
  enqueue_retry_safely,
}
use ai_distributed_workflow.Engine.Tasks.{holds_lease, transition_task}
use ai_distributed_workflow.Engine.Dispatch.{has_id, dispatch_ready}
use ai_distributed_workflow.Engine.Outcome.{
  is_live, duration, after_task_succeeded, after_task_failed_for_good,
}
use ai_distributed_workflow.Workers.Retry.{Thrown, nullish, primitive, error, is_retryable}

abbrev pub task_with_id : ℕ → Task → Bool
task_with_id id t = t.id == id

abbrev pub has_token : ℕ → Task → Bool
has_token token t = t.lease_token == token

abbrev pub attempt_of : ℕ → ℕ → Attempt → Bool
attempt_of id n a = a.task_id == id && a.attempt == n

abbrev pub end_attempt : AttemptStatus → ℕ → Option ℤ → Attempt → Attempt
end_attempt status now took a = record a {
  status = status;
  finished_at = some now;
  duration_ms = took;
}

abbrev pub fail_attempt : AttemptStatus → ℕ → Option ℤ → TaskError → Bool → Attempt → Attempt
fail_attempt status now took why retryable a = record (end_attempt status now took a) {
  error = some (why, retryable);
}

abbrev pub completed_with : Option String → ℕ → Task → Task
completed_with output now t = record t {
  output = some (value output);
  completed_at = some now;
  lease_owner = none;
  lease_expires_at = none;
}

-- "Task failed"
abbrev pub default_message : Text
default_message = b'T' ∷ b'a' ∷ b's' ∷ b'k' ∷ b' ' ∷ b'f' ∷ b'a' ∷ b'i' ∷ b'l' ∷ b'e' ∷ b'd' ∷ []

abbrev pub or_text : Option Text → Text → Text
or_text none t = t
or_text (some t) _ = t

-- `String(error?.message ?? error ?? "Task failed")`
abbrev pub full_message : Thrown → Text
full_message nullish = default_message
full_message (primitive t) = t
full_message (error e) = or_text e.message e.as_text

abbrev pub is_timeout : Thrown → Bool
is_timeout (error e) = e.is_timeout
is_timeout _ = false

abbrev pub failed_status : Thrown → AttemptStatus
failed_status e = if is_timeout e then AttemptStatus.timed_out else AttemptStatus.failed

abbrev pub retrying_from : TaskError → ℕ → Task → Task
retrying_from why at t = record t {
  error = some why;
  lease_owner = none;
  lease_expires_at = none;
  retry_at = some at;
}

abbrev pub failed_with : TaskError → ℕ → Task → Task
failed_with why now t = record t {
  error = some why;
  completed_at = some now;
  lease_owner = none;
  lease_expires_at = none;
}

-- The result of failTask; a retry also carries what is scheduled after the transaction.
pub data Failed : Type 0 where
  ignored : Failed
  retrying : Task → ℕ → Failed
  ended : T → Failed

module _ (m : Mongo) (d : Deps) where
  unfoldable pub complete_rest : ℕ → ℕ → Act (Option ℕ)
  unfolding after_task_succeeded
  complete_rest id finished_at = do
    reread ← find_task m (task_with_id id)
    t ← or_throw reread
    update_attempt m (attempt_of id t.attempt)
        (end_attempt AttemptStatus.succeeded finished_at (duration t.started_at finished_at))
    after_task_succeeded m d t finished_at
    pure (some t.execution_id)

  -- The execution of the task, if the report was accepted.
  unfoldable pub complete_body : ℕ → ℕ → Option String → ℕ → Act (Option ℕ)
  unfolding complete_rest transition_task
  complete_body id token output finished_at = do
    won ←
        transition_task m id T.running T.completed (has_token token)
          (completed_with output finished_at)
    if won then complete_rest id finished_at else pure none

  unfoldable pub complete_task : ℕ → ℕ → Option String → ℕ → ℕ → Act Bool
  unfolding complete_body dispatch_ready
  complete_task id token output finished_at later = do
    applied ← m.transaction (complete_body id token output finished_at)
    elim applied [
      | none ↦ pure false
      | some execution_id ↦ do dispatch_ready m d later execution_id; pure true
    ]

  unfoldable pub retry_rest : ℕ → ℕ → Task → TaskError → ℕ → Act Failed
  unfolding transition_task emit
  retry_rest id token t why finished_at = do
    let delay = d.backoff t.attempt t.base_delay_ms
    won ←
        transition_task m id T.running T.retrying (has_token token)
          (retrying_from why (finished_at + delay))
    if won
        then (do
          emit m d t.execution_id (task_retrying t.id t.key t.attempt delay why)
          pure (retrying t delay))
        else pure ignored

  abbrev pub park : ℕ → T → Act Bool
  park id T.dead_letter = transition_task m id T.failed T.dead_letter (λ _. true) (λ t. t)
  park id _ = pure true

  unfoldable pub terminal_rest : ℕ → ℕ → Task → T → TaskError → Bool → ℕ → Act Failed
  unfolding transition_task after_task_failed_for_good
  terminal_rest id token t outcome why retryable finished_at = do
    won ← transition_task m id T.running T.failed (has_token token) (failed_with why finished_at)
    if won
        then (do
          park id outcome
          after_task_failed_for_good m d t outcome why retryable finished_at
          pure (ended outcome))
        else pure ignored

  unfoldable pub fail_rest : ℕ → ℕ → Task → TaskError → Bool → Thrown → ℕ → Act Failed
  unfolding retry_rest terminal_rest
  fail_rest id token t why retryable e finished_at = do
    update_attempt m (attempt_of id t.attempt) (
        fail_attempt (failed_status e) finished_at (duration t.started_at finished_at) why
          retryable)
    found ← find_execution m (has_id t.execution_id)
    x ← or_throw found
    let attempts_left = ltb t.attempt t.max_attempts
    if retryable && (attempts_left && is_live x.status)
        then retry_rest id token t why finished_at
        else terminal_rest id token t
            (if retryable && not attempts_left then T.dead_letter else T.failed) why retryable
            finished_at

  unfoldable pub fail_body : ℕ → ℕ → Thrown → ℕ → Act Failed
  unfolding fail_rest
  fail_body id token e finished_at = do
    held ← find_task m (holds_lease id token)
    elim held [
      | none ↦ pure ignored
      | some t ↦
          fail_rest id token t (TaskError.message (at_most 2000 (full_message e))) (is_retryable e)
            e finished_at
    ]

  abbrev pub schedule_retry : Failed → Act (Unit {0})
  schedule_retry (retrying t delay) = enqueue_retry_safely d t delay
  schedule_retry _ = pure tt

  unfoldable pub fail_task : ℕ → ℕ → Thrown → ℕ → Act Failed
  unfolding fail_body enqueue_retry_safely
  fail_task id token e finished_at = do
    result ← m.transaction (fail_body id token e finished_at)
    schedule_retry result
    pure result
