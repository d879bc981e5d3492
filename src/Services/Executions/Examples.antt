-- ===== src/Services/Executions/Examples.antt =====
-- A request to src/services/execution.service.js that is sent again with its key.
use ai_distributed_workflow.Base.{
  refl, ℕ, String, ◌≡◌, true, false, Option, none, some, List, [], ◌∷◌, ◌++◌, map, first,
}
use ai_distributed_workflow.Base.Result.{err, ok}
use ai_distributed_workflow.Base.Tests.{same}
use ai_distributed_workflow.Base.Dict.{get, put, has, add}
use ai_distributed_workflow.Mongo.Reference.{reference, reference-IsMongo}
use ai_distributed_workflow.Workflow.Validate.{Report, validate_dag}
use ai_distributed_workflow.Workflow.Dag.{
  Children, no_children, add_children, kahn, in_degrees, visit_child, visit_children, run_wave,
  waves, leftover,
}
use ai_distributed_workflow.Workflow.Cycle.{find_cycle}
use ai_distributed_workflow.Engine.Model.{Deps, Store, Execution, empty}
use ai_distributed_workflow.Engine.Start.{Workflow, new_execution, node_of}
use Prim.Native.Char.{char}
use ai_distributed_workflow.Base.Text.{codes}
use ai_distributed_workflow.Services.Canonical.{atom, object, field, no_field, canonical}
use ai_distributed_workflow.Services.Executions.{Hashing, hash, User, run, of_key, request_of}
use ai_distributed_workflow.Services.Executions.Ownership.{unowned_hidden}
use ai_distributed_workflow.Services.Executions.{
  control, get as get_run, cancel, workflow_not_found, execution_not_found,
}
use ai_distributed_workflow.Services.Executions.Replay.{run_again}
use ai_distributed_workflow.Engine.Runs.Starting.{IsStartable}

abbrev demo : Deps
demo = record {
  has_outbox = true;
  has_approvals = true;
  has_delayed = true;
  lease_ms = 30000;
  backoff = λ attempt base. base;
  redis_up = λ n. true;
}

abbrev one_task : Workflow
one_task = record {
  id = 7;
  owner_id = 3;
  version = 1;
  tasks =
      record {
        key = "A";
        kind = "noop";
        config = "";
        depends_on = [];
        max_attempts = none;
        base_delay_ms = none;
        timeout_ms = none;
      }
      ∷ [];
}

abbrev user : User
user = record { id = 3; is_admin = false }

-- A hash that keeps the length of the text.
abbrev strokes : List ℕ → String
strokes [] = ""
strokes (c ∷ cs) = String.◌∷◌ (char 97 tt) (strokes cs)

abbrev hashing : Hashing
hashing = record {
  sha256 = strokes;
  quote = λ t. b'"' ∷ (t ++ b'"' ∷ []);
  id_text = λ id. 48 ∷ [];
  parsed = λ input. object (field (codes "a") (atom (codes input)) no_field);
}

abbrev first_run : Execution
first_run = new_execution 0 one_task (request_of reference demo hashing user 7 "in" (some "key")) 10

abbrev stored : Store
stored = record empty { executions = first_run ∷ []; issued = 2 }

abbrev report : Report
report = record { valid = true; errors = []; order = "A" ∷ []; levels = ("A" ∷ []) ∷ [] }

abbrev or_none : Option Children → Children
or_none none = no_children [] []
or_none (some ch) = ch

one_task-IsStartable : IsStartable one_task
unfolding validate_dag kahn find_cycle get put has add in_degrees no_children add_children
    visit_child visit_children run_wave waves leftover same
one_task-IsStartable = record {
  report = report;
  validated = refl;
  valid = refl;
  children =
      or_none
        (add_children (map node_of one_task.tasks) (no_children [] (map node_of one_task.tasks)));
  linked = refl;
}

first_run_found : first (of_key user (some "key")) stored.executions ≡ some first_run
unfolding same
first_run_found = refl

run_again_example :
    run reference demo hashing (one_task ∷ []) user 7 "in" (some "key") 50 51 stored
    ≡ (ok (record { execution = first_run; replayed = true }), stored)
unfolding same hash canonical
run_again_example =
    run_again reference reference-IsMongo demo hashing (one_task ∷ []) user one_task "in" "key" 50
      51 stored first_run refl refl one_task-IsStartable first_run_found

abbrev stranger : User
stranger = record { id = 4; is_admin = false }

unowned_hidden_example :
    (run reference demo hashing (one_task ∷ []) stranger 7 "in" none 50 51 stored
      ≡ (err workflow_not_found, stored))
    × (control reference demo hashing stranger 0 cancel 51 52 53 stored
        ≡ (err execution_not_found, stored))
    × (get_run reference demo hashing stranger 0 stored ≡ (err execution_not_found, stored))
unowned_hidden_example =
    unowned_hidden reference reference-IsMongo demo hashing (one_task ∷ []) stranger 7 0 "in" none
      cancel 50 51 52 53 stored refl (λ e. refl, tt) (λ e. refl, tt)
