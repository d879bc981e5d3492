-- ===== src/Engine/Model.antt =====
-- The documents that the engine keeps in MongoDB (src/models) and the state of one deployment.
-- Times are milliseconds. JSON values are carried as texts, since the engine never looks inside.
-- A message is the list of its UTF-16 code units.
use ai_distributed_workflow.Base.{ℕ, Bool, Option, List, [], String}
use ai_distributed_workflow.Base.Int.{ℤ}
use ai_distributed_workflow.Workflow.States.{ExecutionStatus, TaskStatus}

abbrev pub Text : Type 0
Text = List ℕ

pub data Trigger : Type 0 where
  manual schedule : Trigger

-- The texts that the engine itself puts into `error`.
pub data TaskError : Type 0 where
  message : Text → TaskError
  approval_timed_out : TaskError
  rejected_by_approver : Option Text → TaskError

pub data Reason : Type 0 where
  plainly : Reason
  dead_lettered_after : ℕ → Reason

pub data RunError : Type 0 where
  task_failed : String → Reason → TaskError → RunError
  cancelled_by_user : RunError

pub data Output : Type 0 where
  value : Option String → Output
  approved : Option ℕ → Option Text → ℕ → Output

-- models/workflowExecution.model.js
pub record Execution : Type 0 where
  pub id : ℕ
  pub workflow_id : ℕ
  pub owner_id : ℕ
  pub workflow_version : ℕ
  pub status : ExecutionStatus
  pub input : String
  pub task_count : ℕ
  pub pending_tasks : ℤ
  pub triggered_by : Option ℕ
  pub trigger : Trigger
  pub idempotency_key : Option String
  pub request_hash : Option String
  pub started_at : Option ℕ
  pub completed_at : Option ℕ
  pub error : Option RunError

-- models/task.model.js
pub record Task : Type 0 where
  pub id : ℕ
  pub execution_id : ℕ
  pub owner_id : ℕ
  pub key : String
  pub kind : String
  pub config : String
  pub depends_on : List String
  pub dependents : List String
  pub remaining_deps : ℤ
  pub status : TaskStatus
  pub attempt : ℕ
  pub max_attempts : ℕ
  pub base_delay_ms : ℕ
  pub timeout_ms : ℕ
  pub lease_owner : Option String
  pub lease_token : ℕ
  pub lease_expires_at : Option ℕ
  pub output : Option Output
  pub error : Option TaskError
  pub ready_at : Option ℕ
  pub retry_at : Option ℕ
  pub queued_at : Option ℕ
  pub started_at : Option ℕ
  pub completed_at : Option ℕ

pub data AttemptStatus : Type 0 where
  running succeeded failed timed_out abandoned suspended : AttemptStatus

-- models/taskExecution.model.js
pub record Attempt : Type 0 where
  pub task_id : ℕ
  pub execution_id : ℕ
  pub attempt : ℕ
  pub worker_id : String
  pub lease_token : ℕ
  pub status : AttemptStatus
  pub finished_at : Option ℕ
  pub duration_ms : Option ℤ
  pub error : Option (TaskError × Bool)

pub data ApprovalStatus : Type 0 where
  pending approved rejected expired cancelled : ApprovalStatus

-- models/approval.model.js; the title, message and context of a request are one text.
pub record Approval : Type 0 where
  pub id : ℕ
  pub task_id : ℕ
  pub execution_id : ℕ
  pub owner_id : ℕ
  pub task_key : String
  pub request : String
  pub status : ApprovalStatus
  pub decided_by : Option ℕ
  pub decided_at : Option ℕ
  pub comment : Option Text
  pub expires_at : ℕ

-- The type of an event and its payload.
pub data Payload : Type 0 where
  execution_started : ℕ → ℕ → ℕ → Option ℕ → Trigger → Payload
  execution_paused execution_resumed execution_completed : Payload
  execution_cancelled : ℕ → Payload
  execution_failed : String → TaskError → Payload
  task_started : ℕ → String → ℕ → String → Payload
  task_completed : ℕ → String → ℕ → Option ℤ → Payload
  task_retrying : ℕ → String → ℕ → ℕ → TaskError → Payload
  task_failed task_dead_lettered : ℕ → String → ℕ → TaskError → Bool → Payload
  approval_requested : ℕ → ℕ → String → ℕ → Payload
  approval_decided : ApprovalStatus → ℕ → String → Option ℕ → Payload

-- models/outboxEvent.model.js; the relay sets `published_at`.
pub record Event : Type 0 where
  pub event_id : ℕ
  pub aggregate_id : ℕ
  pub payload : Payload

-- A call that reached the Redis queue.
pub data Sent : Type 0 where
  enqueued : ℕ → Sent
  enqueued_later : ℕ → ℕ → Sent

-- `issued` counts the ObjectIds and UUIDs drawn so far: each draw is a new number. `calls` counts
-- the calls made to Redis, of which `sent` lists those that got through.
pub record Store : Type 0 where
  pub executions : List Execution
  pub tasks : List Task
  pub attempts : List Attempt
  pub approvals : List Approval
  pub outbox : List Event
  pub issued : ℕ
  pub calls : ℕ
  pub sent : List Sent

pub data Failure : Type 0 where
  invalid_workflow_graph duplicate_key_error type_error : Failure
  invalid_transition_error : Failure
  approvals_not_configured approval_not_actionable : Failure

-- The arguments of createEngine. `redis_up n` says whether the n-th call to Redis gets through.
pub record Deps : Type 0 where
  pub has_outbox : Bool
  pub has_approvals : Bool
  pub has_delayed : Bool
  pub lease_ms : ℕ
  pub backoff : ℕ → ℕ → ℕ
  pub redis_up : ℕ → Bool

abbrev pub empty : Store
empty = record {
  executions = [];
  tasks = [];
  attempts = [];
  approvals = [];
  outbox = [];
  issued = 0;
  calls = 0;
  sent = [];
}
