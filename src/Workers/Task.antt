-- ===== src/Workers/Task.antt =====
-- src/workers/runTask.js: how the end of a handler is reported to the engine. The handler itself, its
-- abort and its AI context are parameters: `ended` tells how its call, raced with the timeout of the
-- task, ends.
use ai_distributed_workflow.Base.{[], none, some, ◌++◌, ℕ, true, false, Option, none, some, String}
use ai_distributed_workflow.Base.Text.{codes}
use ai_distributed_workflow.Mongo.Driver.{Mongo}
use ai_distributed_workflow.Workers.Retry.{Thrown, error}
use ai_distributed_workflow.Engine.Model.{Deps, Text}
use ai_distributed_workflow.Engine.Actions.{Act, ◌>>◌, pure}
use ai_distributed_workflow.Engine.Claim.{Claimed}
use ai_distributed_workflow.Engine.Report.{complete_task, fail_task}
use ai_distributed_workflow.Engine.Approve.{suspend_for_approval}

-- The value of the handler's call: an AwaitApproval with its request and timeout, another output,
-- where undefined is none as null is, or what it threw.
pub data Ended : Type 0 where
  awaits : String → ℕ → Ended
  returns : Option String → Ended
  throws : Thrown → Ended

-- The handlers by the type of the task: none is a type without one.
pub record Handlers : Type 0 where
  pub ended : Claimed → Option Ended

unfoldable pub missing_text : String → Text
unfolding codes
missing_text kind = codes "No handler registered for task type \"" ++ (codes kind ++ codes "\"")

abbrev pub no_handler : String → Thrown
no_handler kind = error (record {
  is_non_retryable = true;
  is_timeout = false;
  retryable = some false;
  message = some (missing_text kind);
  as_text = [];
})

-- What the try block leaves behind.
abbrev pub or_missing : String → Option Ended → Ended
or_missing kind none = throws (no_handler kind)
or_missing kind (some e) = e

abbrev pub outcome : Handlers → Claimed → Ended
outcome h c = or_missing c.task.kind (h.ended c)

module _ (m : Mongo) (d : Deps) where
  -- The branches on `failure` and on the output.
  abbrev pub report : Claimed → ℕ → ℕ → Ended → Act (Unit {0})
  report c now later (throws e) = fail_task m d c.task.id c.task.lease_token e now >> pure tt
  report c now later (awaits request timeout_ms) =
      suspend_for_approval m d c.task.id c.task.lease_token request timeout_ms now >> pure tt
  report c now later (returns output) =
      complete_task m d c.task.id c.task.lease_token output now later >> pure tt

  unfoldable pub run_task : Handlers → Claimed → ℕ → ℕ → Act (Unit {0})
  unfolding fail_task suspend_for_approval complete_task
  run_task h c now later = report c now later (outcome h c)
