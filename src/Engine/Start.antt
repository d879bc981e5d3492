-- ===== src/Engine/Start.antt =====
-- src/workflow/engine.js, startExecution: one transaction stores a run and all of its tasks.
use ai_distributed_workflow.Base.{
  ℕ, Bool, true, false, Option, none, some, List, [], ◌∷◌, String, ◌==◌, ◌&&◌, same, map, length,
  if◌then◌else◌, is_empty,
}
use ai_distributed_workflow.Base.Int.{pos}
use ai_distributed_workflow.Mongo.Driver.{Mongo}
use ai_distributed_workflow.Workflow.States.{ExecutionStatus as E, TaskStatus as T}
use ai_distributed_workflow.Workflow.Dag.{Node, Children, no_children, add_children, children_of}
use ai_distributed_workflow.Workflow.Validate.{Report, validate_dag}
use ai_distributed_workflow.Engine.Model.{
  Execution, Task, Trigger, Deps, execution_started, invalid_workflow_graph, duplicate_key_error,
}
use ai_distributed_workflow.Engine.Actions.{
  Act, ◌>>=◌, ◌>>◌, pure, throw, or_throw, set_executions, set_tasks, draw_id, emit,
}
use ai_distributed_workflow.Engine.Dispatch.{dispatch_ready}

-- One entry of `workflow.tasks`.
pub record TaskDef : Type 0 where
  pub key : String
  pub kind : String
  pub config : String
  pub depends_on : List String
  pub max_attempts : Option ℕ
  pub base_delay_ms : Option ℕ
  pub timeout_ms : Option ℕ

-- What a run takes from the workflow document.
pub record Workflow : Type 0 where
  pub id : ℕ
  pub owner_id : ℕ
  pub version : ℕ
  pub tasks : List TaskDef

pub record Request : Type 0 where
  pub input : String
  pub triggered_by : Option ℕ
  pub trigger : Trigger
  pub idempotency_key : Option String
  pub request_hash : Option String

abbrev pub node_of : TaskDef → Node
node_of t = record { key = t.key; depends_on = some t.depends_on }

abbrev pub or_default : Option ℕ → ℕ → ℕ
or_default none n = n
or_default (some k) n = k

abbrev pub same_user : Option ℕ → Option ℕ → Bool
same_user none none = true
same_user (some a) (some b) = a == b
same_user _ _ = false

abbrev pub same_key : Option String → Option String → Bool
same_key (some a) (some b) = same a b
same_key _ _ = false

-- Unique index on (triggeredBy, idempotencyKey), of the runs that have a key.
abbrev pub key_clash : Execution → Execution → Bool
key_clash x y =
    same_user x.triggered_by y.triggered_by && same_key x.idempotency_key y.idempotency_key

-- Unique index on (executionId, key).
abbrev pub task_clash : Task → Task → Bool
task_clash x y = x.execution_id == y.execution_id && same x.key y.key

abbrev pub new_execution : ℕ → Workflow → Request → ℕ → Execution
new_execution id w r started_at = record {
  id = id;
  workflow_id = w.id;
  owner_id = w.owner_id;
  workflow_version = w.version;
  status = E.running;
  input = r.input;
  task_count = length w.tasks;
  pending_tasks = pos (length w.tasks);
  triggered_by = r.triggered_by;
  trigger = r.trigger;
  idempotency_key = r.idempotency_key;
  request_hash = r.request_hash;
  started_at = some started_at;
  completed_at = none;
  error = none;
}

-- The copy of a definition; the rest are the defaults of the schema.
abbrev pub new_task : ℕ → ℕ → ℕ → Children → ℕ → TaskDef → Task
new_task id execution_id owner_id ch started_at t = record {
  id = id;
  execution_id = execution_id;
  owner_id = owner_id;
  key = t.key;
  kind = t.kind;
  config = t.config;
  depends_on = t.depends_on;
  dependents = children_of ch t.key;
  remaining_deps = pos (length t.depends_on);
  status = if is_empty t.depends_on then T.ready else T.pending;
  attempt = 0;
  max_attempts = or_default t.max_attempts 3;
  base_delay_ms = or_default t.base_delay_ms 1000;
  timeout_ms = or_default t.timeout_ms 30000;
  lease_owner = none;
  lease_token = 0;
  lease_expires_at = none;
  output = none;
  error = none;
  ready_at = if is_empty t.depends_on then some started_at else none;
  retry_at = none;
  queued_at = none;
  started_at = none;
  completed_at = none;
}

unfoldable pub new_tasks : ℕ → ℕ → Children → ℕ → List TaskDef → Act (List Task)
new_tasks execution_id owner_id ch started_at [] = pure []
new_tasks execution_id owner_id ch started_at (t ∷ ts) = do
  id ← draw_id
  rest ← new_tasks execution_id owner_id ch started_at ts
  pure (new_task id execution_id owner_id ch started_at t ∷ rest)

abbrev pub or_duplicate : {A : Type 0} → Option A → Act A
or_duplicate none = throw duplicate_key_error
or_duplicate (some a) = pure a

abbrev pub require_valid : Report → Act (Unit {0})
require_valid r = if r.valid then pure tt else throw invalid_workflow_graph

module _ (m : Mongo) (d : Deps) where
  unfoldable pub store_run : Execution → Act (Unit {0})
  store_run x s = elim (m.insert key_clash x s.executions) [
    | none ↦ throw duplicate_key_error s
    | some xs ↦ pure tt (set_executions xs s)
  ]

  unfoldable pub store_tasks : List Task → Act (Unit {0})
  store_tasks ts s = elim (m.insert_many task_clash ts s.tasks) [
    | none ↦ throw duplicate_key_error s
    | some xs ↦ pure tt (set_tasks xs s)
  ]

  unfoldable pub start_body : Workflow → Request → Children → ℕ → Act Execution
  unfolding store_run store_tasks new_tasks emit
  start_body w r ch started_at = do
    id ← draw_id
    let x = new_execution id w r started_at
    store_run x
    tasks ← new_tasks id w.owner_id ch started_at w.tasks
    store_tasks tasks
    emit m d id (execution_started w.id w.version (length w.tasks) r.triggered_by r.trigger)
    pure x

  unfoldable pub start_execution : Workflow → Request → ℕ → ℕ → Act Execution
  unfolding start_body dispatch_ready
  start_execution w r started_at later = do
    report ← or_throw (validate_dag (map node_of w.tasks))
    require_valid report
    ch ← or_throw (add_children (map node_of w.tasks) (no_children [] (map node_of w.tasks)))
    x ← m.transaction (start_body w r ch started_at)
    dispatch_ready m d later x.id
    pure x
