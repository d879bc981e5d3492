-- ===== src/Engine/Runs/Invariant.antt =====
-- The invariant of Engine/Ledger over the calls of src/workflow/engine.js.
use ai_distributed_workflow.Engine.Runs.{
  starts, claims, renews, completes, fails, suspends, resolves, pauses, resumes, cancels,
  dispatches, sweeps, fresh, after, Mongo, Deps, Store, empty, Reachable, Step,
}
use ai_distributed_workflow.Engine.Ledger.{IsBalanced}
use ai_distributed_workflow.Mongo.Driver.{IsMongo}
use ai_distributed_workflow.Mongo.Reference.{reference, for_every_driver}
use ai_distributed_workflow.Engine.Ledger.Open.{start_execution-IsBalanced}
use ai_distributed_workflow.Engine.Ledger.Claim.{start_task-IsBalanced, renew_lease-IsBalanced}
use ai_distributed_workflow.Engine.Ledger.Complete.{complete_task-IsBalanced}
use ai_distributed_workflow.Engine.Ledger.Fail.{fail_task-IsBalanced}
use ai_distributed_workflow.Engine.Ledger.Approve.{
  suspend_for_approval-IsBalanced, resolve_approval-IsBalanced,
}
use ai_distributed_workflow.Engine.Ledger.Pause.{
  pause_execution-IsBalanced, resume_execution-IsBalanced,
}
use ai_distributed_workflow.Engine.Ledger.Cancel.{cancel_execution-IsBalanced}
use ai_distributed_workflow.Engine.Ledger.Dispatch.{dispatch_ready-Ledger}
use ai_distributed_workflow.Engine.Ledger.Reconcile.{reconcile-IsBalanced}

Step-IsBalanced : (d : Deps) {s s' : Store} → Step reference d s s' → IsBalanced s → IsBalanced s'
Step-IsBalanced d {s} (starts w r at later) v = start_execution-IsBalanced d w r at later s v
Step-IsBalanced d {s} (claims id worker db_now now) v =
    start_task-IsBalanced d id worker db_now now s v
Step-IsBalanced d {s} (renews id token db_now) v = renew_lease-IsBalanced d id token db_now s v
Step-IsBalanced d {s} (completes id token output now later) v =
    complete_task-IsBalanced d id token output now later s v
Step-IsBalanced d {s} (fails id token e now) v = fail_task-IsBalanced d id token e now s v
Step-IsBalanced d {s} (suspends id token request timeout_ms now) v =
    suspend_for_approval-IsBalanced d id token request timeout_ms now s v
Step-IsBalanced d {s} (resolves id scope w later) v =
    resolve_approval-IsBalanced d id scope w later s v
Step-IsBalanced d {s} (pauses id) v = pause_execution-IsBalanced d id s v
Step-IsBalanced d {s} (resumes id now now' later) v =
    resume_execution-IsBalanced d id now now' later s v
Step-IsBalanced d {s} (cancels id now now' now'') v =
    cancel_execution-IsBalanced d id now now' now'' s v
Step-IsBalanced d {s} (dispatches now id) v = dispatch_ready-Ledger d now id s v
Step-IsBalanced d {s} (sweeps stale limit now db_now later) v =
    reconcile-IsBalanced d stale limit now db_now later s v

empty-IsBalanced : IsBalanced empty
empty-IsBalanced = record {
  executions_distinct = tt;
  tasks_distinct = tt;
  executions_issued = tt;
  tasks_issued = tt;
  books = tt;
}

reference-Reachable : (d : Deps) {s : Store} → Reachable reference d s → IsBalanced s
reference-Reachable d fresh = empty-IsBalanced
reference-Reachable d (after r step) = Step-IsBalanced d step (reference-Reachable d r)

-- Over a driver that does what is documented, in every reachable state: ids are unique; the
-- counter of each run is the number of its unfinished tasks; a run that is RUNNING, PAUSED or
-- COMPLETED has no FAILED, DEAD_LETTER or CANCELLED task; and one that is COMPLETED or CANCELLED
-- has no unfinished task.
pub Reachable-IsBalanced :
    (m : Mongo) → IsMongo m → (d : Deps) (s : Store) → Reachable m d s → IsBalanced s
Reachable-IsBalanced m laws d =
    for_every_driver (λ m. (s : Store) → Reachable m d s → IsBalanced s)
      (λ s r. reference-Reachable d r) m laws
