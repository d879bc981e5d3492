-- ===== src/Services/Workflows/Examples.antt =====
-- A workflow of src/services/workflow.service.js that two users edit.
use ai_distributed_workflow.Base.{
  ◌≡◌, suc, refl, true, false, some, none, List, [], ◌∷◌, String, All, ◌+◌,
}
use ai_distributed_workflow.Base.Result.{ok}
use ai_distributed_workflow.Base.Tests.{same}
use ai_distributed_workflow.Base.Dict.{get, put, has, add}
use ai_distributed_workflow.Mongo.Reference.{reference, reference-IsMongo}
use ai_distributed_workflow.Workflow.Validate.{validate_dag}
use ai_distributed_workflow.Workflow.Dag.{
  in_degrees, no_children, add_children, visit_child, visit_children, run_wave, waves, kahn,
  leftover,
}
use ai_distributed_workflow.Engine.Start.{TaskDef}
use ai_distributed_workflow.Scheduler.Cron.{CronParser}
use ai_distributed_workflow.Services.Executions.{User}
use ai_distributed_workflow.Services.Workflows.{
  Document, Workflows, Definition, create, update, new_document, redefined, assert_valid_graph,
}
use ai_distributed_workflow.Services.Workflows.Changes.{Later, after, unchanged, nothing, creates}
use ai_distributed_workflow.Services.Workflows.Stored.{IsRunnable, stored-IsRunnable}
use ai_distributed_workflow.Services.Workflows.Editing.{Refused, update_once}

abbrev task : String → List String → TaskDef
task key parents = record {
  key = key;
  kind = "noop";
  config = "";
  depends_on = parents;
  max_attempts = none;
  base_delay_ms = none;
  timeout_ms = none;
}

abbrev first_draft : Definition
first_draft = record { name = "demo"; description = ""; tasks = task "A" [] ∷ [] }

abbrev second_draft : Definition
second_draft = record {
  name = "demo";
  description = "";
  tasks = task "A" [] ∷ task "B" ("A" ∷ []) ∷ [];
}

abbrev owner : User
owner = record { id = 3; is_admin = false }

abbrev admin : User
admin = record { id = 1; is_admin = true }

-- Every minute.
abbrev minutely : CronParser
minutely = record { known_zone = λ zone. true; next = λ expr at zone. some (at + 60000) }

abbrev second_version : Document
second_version = redefined second_draft (new_document 0 owner first_draft)

abbrev drafted : Workflows
drafted = record { documents = new_document 0 owner first_draft ∷ []; issued = 1 }

abbrev edited_once : Workflows
edited_once = record { documents = second_version ∷ []; issued = 1 }

program : Unit {0}
unfolding create update assert_valid_graph validate_dag kahn get put has add in_degrees no_children
    add_children visit_child visit_children run_wave waves leftover same
program = tt

drafted_reached : Later reference minutely nothing drafted
unfolding program
drafted_reached = after unchanged (creates owner first_draft)

draft_edited : update reference owner 0 1 second_draft drafted ≡ (ok second_version, edited_once)
unfolding program
draft_edited = refl

update_once_example :
    (second_version.version ≡ suc 1)
    × (second_version.tasks ≡ second_draft.tasks)
    × Refused reference admin 0 1 first_draft edited_once
update_once_example =
    update_once reference reference-IsMongo minutely drafted edited_once edited_once owner admin 0 1
      second_draft first_draft second_version drafted_reached draft_edited unchanged

stored-IsRunnable_example : All IsRunnable drafted.documents
stored-IsRunnable_example =
    stored-IsRunnable reference reference-IsMongo minutely drafted drafted_reached
