-- ===== src/Services/Workflows.antt =====
-- src/services/workflow.service.js over the collection of src/models/workflow.model.js. Names and
-- descriptions come trimmed, as the schema of the request leaves them. `list` is not here.
pub mod Changes
pub mod Stored
pub mod Editing
mod Examples
use ai_distributed_workflow.Base.{
  ℕ, suc, Bool, Option, none, some, List, String, ◌==◌, ◌&&◌, ◌+◌, map, if◌then◌else◌,
}
use ai_distributed_workflow.Base.Result.{Result, ok, err, Call, continue}
use ai_distributed_workflow.Mongo.Driver.{Mongo}
use ai_distributed_workflow.Workflow.Dag.{DagError}
use ai_distributed_workflow.Workflow.Validate.{Report, validate_dag}
use ai_distributed_workflow.Engine.Model.{Text, Failure}
use ai_distributed_workflow.Engine.Start.{TaskDef, Workflow, node_of}
use ai_distributed_workflow.Services.Executions.{User, in_scope}
use ai_distributed_workflow.Scheduler.Cron.{
  CronParser, CronError, assert_valid_cron, next_run_after,
}

pub record Schedule : Type 0 where
  pub cron : Text
  pub timezone : String
  pub enabled : Bool
  pub input : String
  pub next_run_at : ℕ
  pub last_run_at : Option ℕ
  pub last_error : Option Failure

-- models/workflow.model.js
pub record Document : Type 0 where
  pub id : ℕ
  pub owner_id : ℕ
  pub name : String
  pub description : String
  pub tasks : List TaskDef
  pub version : ℕ
  pub schedule : Option Schedule

-- The collection, and how many ids have been drawn.
pub record Workflows : Type 0 where
  pub documents : List Document
  pub issued : ℕ

pub data Error : Type 0 where
  invalid_graph : List DagError → Error
  invalid_cron : CronError → Error
  workflow_not_found : Error
  -- With the current version.
  version_conflict : ℕ → Error
  -- An exception of the code itself, of the driver or of the parser.
  thrown : Error

-- The part of a document that a run copies.
abbrev pub snapshot : Document → Workflow
snapshot w = record { id = w.id; owner_id = w.owner_id; version = w.version; tasks = w.tasks }

-- The body of a request.
pub record Definition : Type 0 where
  pub name : String
  pub description : String
  pub tasks : List TaskDef

abbrev pub require_valid_graph : Option Report → Result Error (Unit {0})
require_valid_graph none = err thrown
require_valid_graph (some r) = if r.valid then ok tt else err (invalid_graph r.errors)

unfoldable pub assert_valid_graph : List TaskDef → Result Error (Unit {0})
unfolding validate_dag
assert_valid_graph tasks = require_valid_graph (validate_dag (map node_of tasks))

abbrev pub new_document : ℕ → User → Definition → Document
new_document id user b = record {
  id = id;
  owner_id = user.id;
  name = b.name;
  description = b.description;
  tasks = b.tasks;
  version = 1;
  schedule = none;
}

abbrev pub set_documents : List Document → Workflows → Workflows
set_documents xs s = record s { documents = xs }

-- The filter `{ _id: id, ...ownerScope(user) }`.
abbrev pub visible : User → ℕ → Document → Bool
visible user id w = w.id == id && in_scope user w.owner_id

abbrev pub or_not_found : Option Document → Call Workflows Error Document
or_not_found none s = (err workflow_not_found, s)
or_not_found (some w) s = (ok w, s)

-- The first slot after `now`.
abbrev pub schedule_at : Text → String → Bool → String → ℕ → Schedule
schedule_at cron timezone enabled input slot = record {
  cron = cron;
  timezone = timezone;
  enabled = enabled;
  input = input;
  next_run_at = slot;
  last_run_at = none;
  last_error = none;
}

abbrev pub redefined : Definition → Document → Document
redefined b w = record w {
  name = b.name;
  description = b.description;
  tasks = b.tasks;
  version = w.version + 1;
}

abbrev pub why_unmatched : Option Document → Error
why_unmatched none = workflow_not_found
why_unmatched (some w) = version_conflict w.version

abbrev pub checked_cron : Result CronError (Unit {0}) → Result Error (Unit {0})
checked_cron (ok _) = ok tt
checked_cron (err e) = err (invalid_cron e)

module _ (m : Mongo) where
  abbrev pub store_document : Document → Call Workflows Error Document
  store_document w s = elim (m.insert (λ x y. x.id == y.id) w s.documents) [
    | none ↦ (err thrown, s)
    | some xs ↦ (ok w, record s { documents = xs; issued = suc s.issued })
  ]

  unfoldable pub create : User → Definition → Call Workflows Error Document
  unfolding assert_valid_graph
  create user b s =
      continue (assert_valid_graph b.tasks, s)
        (λ _ t. store_document (new_document t.issued user b) t)

  unfoldable pub analyse : Definition → Option Report
  unfolding validate_dag
  analyse b = validate_dag (map node_of b.tasks)

  unfoldable pub get : User → ℕ → Call Workflows Error Document
  get user id s = or_not_found (m.find_one (visible user id) s.documents) s

  abbrev pub change :
      (Document → Bool) → (Document → Document) → Workflows → Option Document × Workflows
  change p f s = let (xs, w) = m.find_one_and_update p f s.documents in (w, set_documents xs s)

  abbrev pub after_change : Option Document × Workflows → Result Error Document × Workflows
  after_change (w, s) = or_not_found w s

  abbrev pub attach :
      User → ℕ → Text → String → Bool → String → Option ℕ → Call Workflows Error Document
  attach user id cron timezone enabled input none s = (err thrown, s)
  attach user id cron timezone enabled input (some slot) s = after_change (
      change (visible user id)
        (λ w. record w { schedule = some (schedule_at cron timezone enabled input slot) }) s)

  -- With the times of its two clocks.
  unfoldable pub set_schedule :
      CronParser → User → ℕ → Text → String → Bool → String → ℕ → ℕ → Call Workflows Error Document
  unfolding assert_valid_cron next_run_after
  set_schedule c user id cron timezone enabled input now later s =
      continue (checked_cron (assert_valid_cron c now cron timezone), s)
        (λ _ t. attach user id cron timezone enabled input (next_run_after c cron later timezone) t)

  unfoldable pub clear_schedule : User → ℕ → Call Workflows Error Document
  clear_schedule user id s =
      after_change (change (visible user id) (λ w. record w { schedule = none }) s)

  abbrev pub after_update :
      User → ℕ → Option Document × Workflows → Result Error Document × Workflows
  after_update user id (some w, s) = (ok w, s)
  after_update user id (none, s) =
      (err (why_unmatched (m.find_one (visible user id) s.documents)), s)

  -- One atomic call tests the version and raises it.
  unfoldable pub update : User → ℕ → ℕ → Definition → Call Workflows Error Document
  unfolding assert_valid_graph
  update user id version b s =
      continue (assert_valid_graph b.tasks, s)
        (λ _ t.
          after_update user id
            (change (λ w. visible user id w && w.version == version) (redefined b) t))
