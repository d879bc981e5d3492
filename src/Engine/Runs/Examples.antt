-- ===== src/Engine/Runs/Examples.antt =====
-- A run of one task through the functions of src/workflow/engine.js, and the theorems about it.
use ai_distributed_workflow.Base.{refl, ◌≡◌, true, some, none, [], ◌∷◌, first}
use ai_distributed_workflow.Engine.Start.{start_execution, new_task, new_execution}
use ai_distributed_workflow.Engine.Claim.{start_task}
use ai_distributed_workflow.Engine.Report.{complete_task}
use ai_distributed_workflow.Base.Tests.{same}
use ai_distributed_workflow.Base.Dict.{get, put, has, add}
use ai_distributed_workflow.Engine.Model.{manual, Deps, Store, empty, Task, Execution}
use ai_distributed_workflow.Engine.Runs.{
  starts, claims, completes, fresh, after, Request, Reachable, Workflow, complete_task, start_task,
  start_execution,
}
use ai_distributed_workflow.Workflow.States.{assert_transition, TaskStatus as T}
use ai_distributed_workflow.Workflow.Validate.{validate_dag}
use ai_distributed_workflow.Mongo.Reference.{reference, reference-IsMongo}
use ai_distributed_workflow.Workflow.Dag.{
  kahn, in_degrees, no_children, add_children, visit_child, visit_children, run_wave, waves,
  leftover,
}
use ai_distributed_workflow.Workflow.Cycle.{find_cycle}
use ai_distributed_workflow.Engine.Ledger.{IsBalanced}
use ai_distributed_workflow.Engine.Outcome.{made_completed, pending_less}
use ai_distributed_workflow.Engine.Dispatch.{has_id}
use ai_distributed_workflow.Engine.Runs.Guarantees.{EachTask, completed_run_done}
use ai_distributed_workflow.Engine.Runs.Fencing.{Refused, Claims, stale_token-Refused, claim-fences}
use ai_distributed_workflow.Engine.Tasks.{claimable, holds_lease}
use ai_distributed_workflow.Engine.Runs.Invariant.{Reachable-IsBalanced}

abbrev demo : Deps
demo = record {
  has_outbox = true;
  has_approvals = true;
  has_delayed = true;
  lease_ms = 30000;
  backoff = λ attempt base. base;
  redis_up = λ n. true;
}

abbrev one_task : Workflow
one_task = record {
  id = 7;
  owner_id = 3;
  version = 1;
  tasks =
      record {
        key = "A";
        kind = "noop";
        config = "";
        depends_on = [];
        max_attempts = some 2;
        base_delay_ms = none;
        timeout_ms = none;
      }
      ∷ [];
}

abbrev by_hand : Request
by_hand = record {
  input = "";
  triggered_by = some 3;
  trigger = manual;
  idempotency_key = none;
  request_hash = none;
}

-- The run has id 0 and its task id 1.
abbrev s_started : Store
s_started = (start_execution reference demo one_task by_hand 10 11 empty).1

abbrev s_claimed : Store
s_claimed = (start_task reference demo 1 "worker" 12 12 s_started).1

abbrev s_completed : Store
s_completed = (complete_task reference demo 1 1 none 20 21 s_claimed).1

started_reached : Reachable reference demo s_started
started_reached = after fresh (starts one_task by_hand 10 11)

claimed_reached : Reachable reference demo s_claimed
claimed_reached = after started_reached (claims 1 "worker" 12 12)

completed_reached : Reachable reference demo s_completed
completed_reached = after claimed_reached (completes 1 1 none 20 21)

abbrev run_done : Execution
run_done = made_completed 20 (pending_less 1 (new_execution 0 one_task by_hand 10))

done_found : first (has_id 0) s_completed.executions ≡ some run_done
unfolding validate_dag kahn find_cycle get put has add in_degrees no_children add_children
    visit_child visit_children run_wave waves leftover same start_execution start_task complete_task
    assert_transition
done_found = refl

Reachable-IsBalanced_example : IsBalanced s_completed
Reachable-IsBalanced_example =
    Reachable-IsBalanced reference reference-IsMongo demo s_completed completed_reached

completed_run_done_example : EachTask 0 (λ st. st ≡ T.completed) s_completed
completed_run_done_example =
    completed_run_done reference reference-IsMongo demo s_completed completed_reached run_done 0
      done_found refl

-- Token 0 was never handed out.
no_lease : first (holds_lease 1 0) s_claimed.tasks ≡ none
unfolding validate_dag kahn find_cycle get put has add in_degrees no_children add_children
    visit_child visit_children run_wave waves leftover same start_execution start_task
    assert_transition
no_lease = refl

stale_token-Refused_example : Refused reference demo 1 0 s_claimed
stale_token-Refused_example =
    stale_token-Refused reference reference-IsMongo demo 1 0 s_claimed no_lease

-- The task as it stands in the queue.
abbrev queued_task : Task
queued_task =
    record (new_task 1 0 3 [] 10 (record {
      key = "A";
      kind = "noop";
      config = "";
      depends_on = [];
      max_attempts = some 2;
      base_delay_ms = none;
      timeout_ms = none;
    })) { status = T.queued; queued_at = some 11 }

queued_found : first (claimable 1 12) s_started.tasks ≡ some queued_task
unfolding validate_dag kahn find_cycle get put has add in_degrees no_children add_children
    visit_child visit_children run_wave waves leftover same start_execution assert_transition
queued_found = refl

claim-fences_example : Claims reference 1 "worker" 30000 12 queued_task s_started
claim-fences_example =
    claim-fences reference reference-IsMongo demo s_started started_reached 1 "worker" 30000 12
      queued_task queued_found
