-- ===== src/Engine/Runs.antt =====
-- The states that the calls of src/workflow/engine.js reach, in any order and with any arguments,
-- by any number of workers and callers. Redis may be down at any of its calls.
pub mod Invariant
pub mod Fencing
pub mod Guarantees
pub mod Starting
mod Examples
use ai_distributed_workflow.Base.{ℕ, Bool, Option, String}
use ai_distributed_workflow.Mongo.Driver.{Mongo}
use ai_distributed_workflow.Workers.Retry.{Thrown}
use ai_distributed_workflow.Engine.Model.{Store, Deps, Approval, empty}
use ai_distributed_workflow.Engine.Start.{Workflow, Request, start_execution}
use ai_distributed_workflow.Engine.Claim.{start_task, renew_lease}
use ai_distributed_workflow.Engine.Report.{complete_task, fail_task}
use ai_distributed_workflow.Engine.Approve.{suspend_for_approval, Verdict, resolve_approval}
use ai_distributed_workflow.Engine.Control.{pause_execution, resume_execution, cancel_execution}
use ai_distributed_workflow.Engine.Dispatch.{dispatch_ready}
use ai_distributed_workflow.Engine.Reconcile.{reconcile}

-- The state after one call, also if the call throws.
pub data Step (m : Mongo) (d : Deps) (s : Store) : Store → Type 0 where
  starts :
      (w : Workflow) (r : Request) (at later : ℕ)
      → Step m d s (start_execution m d w r at later s).1
  claims :
      (id : ℕ) (worker : String) (db_now now : ℕ)
      → Step m d s (start_task m d id worker db_now now s).1
  renews : (id token db_now : ℕ) → Step m d s (renew_lease m d id token db_now s).1
  completes :
      (id token : ℕ) (output : Option String) (now later : ℕ)
      → Step m d s (complete_task m d id token output now later s).1
  fails : (id token : ℕ) (e : Thrown) (now : ℕ) → Step m d s (fail_task m d id token e now s).1
  suspends :
      (id token : ℕ) (request : String) (timeout_ms now : ℕ)
      → Step m d s (suspend_for_approval m d id token request timeout_ms now s).1
  resolves :
      (id : ℕ) (scope : Approval → Bool) (v : Verdict) (later : ℕ)
      → Step m d s (resolve_approval m d id scope v later s).1
  pauses : (id : ℕ) → Step m d s (pause_execution m d id s).1
  resumes : (id now now' later : ℕ) → Step m d s (resume_execution m d id now now' later s).1
  cancels : (id now now' now'' : ℕ) → Step m d s (cancel_execution m d id now now' now'' s).1
  dispatches : (now id : ℕ) → Step m d s (dispatch_ready m d now id s).1
  sweeps :
      (stale limit now db_now later : ℕ)
      → Step m d s (reconcile m d stale limit now db_now later s).1

pub data Reachable (m : Mongo) (d : Deps) : Store → Type 0 where
  fresh : Reachable m d empty
  after : {s s' : Store} → Reachable m d s → Step m d s s' → Reachable m d s'
