-- ===== src/Engine/Claim.antt =====
-- src/workflow/engine.js, startTask and renewLease: a worker picks up a task.
use ai_distributed_workflow.Base.{
  ℕ, Bool, true, false, Option, none, some, List, [], ◌++◌, String, ◌==◌, ◌&&◌, ltb, map,
  if◌then◌else◌,
}
use ai_distributed_workflow.Base.Dict.{has}
use ai_distributed_workflow.Base.Text.{codes, decimal}
use ai_distributed_workflow.Mongo.Driver.{Mongo}
use ai_distributed_workflow.Engine.Model.{
  Execution, Task, Text, Output, Attempt, AttemptStatus, Deps, task_started,
}
use ai_distributed_workflow.Engine.Actions.{
  Act, ◌>>=◌, ◌>>◌, pure, find_execution, find_tasks, update_attempts, insert_attempt, emit,
}
use ai_distributed_workflow.Engine.Tasks.{claim_task, renew_task_lease}
use ai_distributed_workflow.Engine.Dispatch.{has_id}
use ai_distributed_workflow.Engine.Report.{fail_task}
use ai_distributed_workflow.Workers.Retry.{Thrown, error}

pub record Claimed : Type 0 where
  pub task : Task
  pub input : Option String
  pub parents : List (String × Option Output)

abbrev pub is_open : AttemptStatus → Bool
is_open AttemptStatus.running = true
is_open _ = false

abbrev pub left_open : ℕ → ℕ → Attempt → Bool
left_open id n a = a.task_id == id && (ltb a.attempt n && is_open a.status)

abbrev pub abandon : ℕ → Attempt → Attempt
abandon now a = record a { status = AttemptStatus.abandoned; finished_at = some now }

abbrev pub new_attempt : Task → String → Attempt
new_attempt t worker = record {
  task_id = t.id;
  execution_id = t.execution_id;
  attempt = t.attempt;
  worker_id = worker;
  lease_token = t.lease_token;
  status = AttemptStatus.running;
  finished_at = none;
  duration_ms = none;
  error = none;
}

-- The text of the error that a task past its attempts is failed with.
unfoldable pub exceeded_text : ℕ → Text
unfolding codes decimal
exceeded_text n =
    codes "Exceeded "
    ++ (decimal n ++ codes " attempts (previous attempts were abandoned by lost workers)")

abbrev pub exceeded : ℕ → Thrown
exceeded n = error (record {
  is_non_retryable = false;
  is_timeout = false;
  retryable = none;
  message = some (exceeded_text n);
  as_text = [];
})

abbrev pub is_parent_of : Task → Task → Bool
is_parent_of t p = p.execution_id == t.execution_id && has p.key t.depends_on

abbrev pub input_of : Option Execution → Option String
input_of none = none
input_of (some x) = some x.input

module _ (m : Mongo) (d : Deps) where
  unfoldable pub gather : Task → Act (Option Claimed)
  gather t = do
    execution ← find_execution m (has_id t.execution_id)
    parents ← find_tasks m (is_parent_of t)
    pure (
        some (record {
          task = t;
          input = input_of execution;
          parents = map (λ p. (p.key, p.output)) parents;
        }))

  -- What follows the claim: the attempt is recorded, and a task past its attempts is failed.
  unfoldable pub start_rest : String → ℕ → Task → Act (Option Claimed)
  unfolding emit fail_task gather
  start_rest worker now t = do
    update_attempts m (left_open t.id t.attempt) (abandon now)
    insert_attempt m (new_attempt t worker)
    emit m d t.execution_id (task_started t.id t.key t.attempt worker)
    if ltb t.max_attempts t.attempt
        then (do fail_task m d t.id t.lease_token (exceeded t.max_attempts) now; pure none)
        else gather t

  unfoldable pub start_task : ℕ → String → ℕ → ℕ → Act (Option Claimed)
  unfolding claim_task start_rest
  start_task id worker db_now now = do
    claimed ← claim_task m id worker d.lease_ms db_now
    elim claimed [ none ↦ pure none | some t ↦ start_rest worker now t ]

  unfoldable pub renew_lease : ℕ → ℕ → ℕ → Act Bool
  unfolding renew_task_lease
  renew_lease id token db_now = renew_task_lease m id token d.lease_ms db_now
