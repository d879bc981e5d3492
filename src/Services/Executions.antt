-- ===== src/Services/Executions.antt =====
-- src/services/execution.service.js, over the store of the engine and the collection of workflows.
-- SHA-256, JSON.stringify and the values behind the texts of inputs are parameters. Of the unique indexes only that on the idempotency key can
-- be violated by a start, since the tasks of a valid graph have different keys.
pub mod Replay
pub mod Ownership
mod Examples
use ai_distributed_workflow.Base.{
  none, some, true, false, ℕ, Bool, true, false, Option, none, some, List, [], String, ◌==◌, ◌&&◌,
  same, if◌then◌else◌, not,
}
use ai_distributed_workflow.Base.Result.{Result, ok, err, Call}
use ai_distributed_workflow.Mongo.Driver.{Mongo}
use ai_distributed_workflow.Workflow.States.{ExecutionStatus as E}
use ai_distributed_workflow.Base.Text.{codes}
use ai_distributed_workflow.Services.Canonical.{Json, atom, object, field, no_field, canonical}
use ai_distributed_workflow.Engine.Model.{
  Text, Store, Execution, Task, Deps, Failure, duplicate_key_error, type_error, manual,
}
use ai_distributed_workflow.Engine.Start.{Workflow, Request, start_execution, same_user, same_key}
use ai_distributed_workflow.Engine.Control.{pause_execution, resume_execution, cancel_execution}

pub record User : Type 0 where
  pub id : ℕ
  pub is_admin : Bool

pub data Error : Type 0 where
  workflow_not_found execution_not_found idempotency_key_reused : Error
  invalid_state : E → Error
  engine_error : Failure → Error

-- What `run` returns.
pub record Started : Type 0 where
  pub execution : Execution
  pub replayed : Bool

pub data Action : Type 0 where
  pause resume cancel : Action

-- The filter of ownerScope.
abbrev pub in_scope : User → ℕ → Bool
in_scope user owner_id = if user.is_admin then true else owner_id == user.id

abbrev pub same_hash : Option String → Option String → Bool
same_hash none none = true
same_hash (some a) (some b) = same a b
same_hash _ _ = false

-- The filter on the user and the key.
abbrev pub of_key : User → Option String → Execution → Bool
of_key user key x = same_user (some user.id) x.triggered_by && same_key key x.idempotency_key

pub record Hashing : Type 0 where
  pub sha256 : Text → String
  pub quote : Text → Text
  pub id_text : ℕ → Text
  -- The value whose JSON text an input is.
  pub parsed : String → Json

-- The hash of `{ workflowId, input }`.
unfoldable pub hash : Hashing → ℕ → String → String
unfolding codes
hash g workflow_id input = g.sha256 (
    canonical g.quote (
      object (
        field (codes "workflowId") (atom (g.quote (g.id_text workflow_id)))
          (field (codes "input") (g.parsed input) no_field))))

module _ (m : Mongo) (d : Deps) (hashing : Hashing) where
  abbrev pub hash_of : ℕ → String → Option String → Option String
  hash_of workflow_id input none = none
  hash_of workflow_id input (some key) =
      if same key "" then none else some (hash hashing workflow_id input)

  abbrev pub request_of : User → ℕ → String → Option String → Request
  request_of user workflow_id input key = record {
    input = input;
    triggered_by = some user.id;
    trigger = manual;
    idempotency_key = key;
    request_hash = hash_of workflow_id input key;
  }

  abbrev pub replay_found : Option String → Option Execution → Store → Result Error Started × Store
  replay_found wanted none s = (err (engine_error type_error), s)
  replay_found wanted (some x) s =
      if same_hash x.request_hash wanted
      then (ok (record { execution = x; replayed = true }), s)
      else (err idempotency_key_reused, s)

  -- The catch block.
  abbrev pub recover :
      User → Option String → Option String → Failure → Store → Result Error Started × Store
  recover user (some key) wanted duplicate_key_error s =
      if same key ""
      then (err (engine_error duplicate_key_error), s)
      else replay_found wanted (m.find_one (of_key user (some key)) s.executions) s
  recover user key wanted e s = (err (engine_error e), s)

  abbrev pub after_start :
      User
      → Option String
      → Option String
      → Result Failure Execution × Store
      → Result Error Started × Store
  after_start user key wanted (ok x, s) = (ok (record { execution = x; replayed = false }), s)
  after_start user key wanted (err e, s) = recover user key wanted e s

  abbrev pub run_found :
      User → ℕ → String → Option String → ℕ → ℕ → Option Workflow → Call Store Error Started
  run_found user workflow_id input key at later none s = (err workflow_not_found, s)
  run_found user workflow_id input key at later (some w) s =
      after_start user key (hash_of workflow_id input key)
        (start_execution m d w (request_of user workflow_id input key) at later s)

  unfoldable pub run :
      List Workflow → User → ℕ → String → Option String → ℕ → ℕ → Call Store Error Started
  unfolding start_execution
  run workflows user workflow_id input key at later s =
      run_found user workflow_id input key at later
        (m.find_one (λ w. w.id == workflow_id && in_scope user w.owner_id) workflows) s

  -- The engine's operation, with the times of its calls of `now()`.
  abbrev pub operate : Action → ℕ → ℕ → ℕ → ℕ → Call Store Failure Bool
  operate pause id t t' t'' = pause_execution m d id
  operate resume id t t' t'' = resume_execution m d id t t' t''
  operate cancel id t t' t'' = cancel_execution m d id t t' t''

  abbrev pub after_operate :
      Execution → Result Failure Bool × Store → Result Error (Option Execution) × Store
  after_operate x (err e, s) = (err (engine_error e), s)
  after_operate x (ok changed, s) =
      if changed
      then (ok (m.find_one (λ y. y.id == x.id) s.executions), s)
      else (err (invalid_state x.status), s)

  abbrev pub control_found :
      Action → ℕ → ℕ → ℕ → Option Execution → Call Store Error (Option Execution)
  control_found action t t' t'' none s = (err execution_not_found, s)
  control_found action t t' t'' (some x) s = after_operate x (operate action x.id t t' t'' s)

  unfoldable pub control : User → ℕ → Action → ℕ → ℕ → ℕ → Call Store Error (Option Execution)
  unfolding pause_execution resume_execution cancel_execution
  control user execution_id action t t' t'' s =
      control_found action t t' t''
        (m.find_one (λ x. x.id == execution_id && in_scope user x.owner_id) s.executions) s

  abbrev pub with_tasks : Option Execution → Call Store Error (Execution × List Task)
  with_tasks none s = (err execution_not_found, s)
  with_tasks (some x) s = (ok (x, m.find (λ t. t.execution_id == x.id) s.tasks), s)

  -- `get`; the tasks are in the order of their ids, in which they are stored.
  unfoldable pub get : User → ℕ → Call Store Error (Execution × List Task)
  get user execution_id s =
      with_tasks (m.find_one (λ x. x.id == execution_id && in_scope user x.owner_id) s.executions) s
