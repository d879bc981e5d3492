-- ===== src/Engine/Ledger/Open.antt =====
-- The invariant of Engine/Ledger and startExecution, in src/workflow/engine.js.
use ai_distributed_workflow.Base.{
  refl, ℕ, Option, none, some, ◌+◌, List, [], ◌∷◌, suc, ◌++◌, ◌≡◌, length, Bool-cases, any, map,
  inl, inr, ap,
}
use ai_distributed_workflow.Engine.Actions.{
  ◌>>=◌, ◌>>◌, pure, Act, emit, or_throw, throw, set_tasks,
}
use ai_distributed_workflow.Engine.Start.{
  start_execution, Workflow, Request, start_body, store_run, new_execution, store_tasks, key_clash,
  node_of, require_valid, task_clash,
}
use ai_distributed_workflow.Engine.Model.{
  Deps, Store, execution_started, invalid_workflow_graph, duplicate_key_error,
}
use ai_distributed_workflow.Engine.After.{
  Keeps, After, After-of, Keeps-bind, Keeps-if, Keeps-transaction, After-bind,
}
use ai_distributed_workflow.Workflow.Dag.{Children, add_children, no_children}
use ai_distributed_workflow.Engine.Ledger.{IsBalanced, Task, Execution}
use ai_distributed_workflow.Mongo.Reference.{reference}
use ai_distributed_workflow.Engine.Dispatch.{dispatch_ready}
use ai_distributed_workflow.Engine.Ledger.Start.{
  drawn, opened-IsBalanced, new_tasks-drawn, drawn-Drawn,
}
use ai_distributed_workflow.Engine.Ledger.Success.{emit-Ledger}
use ai_distributed_workflow.Workflow.Validate.{validate_dag}
use ai_distributed_workflow.Mongo.Driver.{store_all}
use ai_distributed_workflow.Mongo.Counting.{store_all-append}
use ai_distributed_workflow.Engine.Ledger.Dispatch.{dispatch_ready-Ledger}

store_tasks-appends :
    (d : Deps) (ts : List Task) (s : Store)
    → After (λ _ s'. s' ≡ record s { tasks = s.tasks ++ ts }) (store_tasks reference d ts s)
unfolding store_tasks
store_tasks-appends d ts s = by_answer (store_all task_clash ts s.tasks) refl
  where
    by_answer :
        (r : Option (List Task))
        → store_all task_clash ts s.tasks ≡ r
        → After {A = Unit {0}}
            (λ _ s'. s' ≡ record s { tasks = s.tasks ++ ts })
            (elim r [ none ↦ throw duplicate_key_error s | some xs ↦ pure tt (set_tasks xs s) ])
    by_answer none q = tt
    by_answer (some ys) q =
        ap (λ zs. record s { tasks = zs }) (store_all-append task_clash ts s.tasks q)

module _ (d : Deps) (w : Workflow) (r : Request) (ch : Children) (at : ℕ) (s : Store)
    (v : IsBalanced s) where
  abbrev x : Execution
  x = new_execution s.issued w r at

  abbrev ts : List Task
  ts = drawn s.issued w.owner_id ch at w.tasks (suc s.issued)

  abbrev last : Act Execution
  last = do
    emit reference d s.issued
        (execution_started w.id w.version (length w.tasks) r.triggered_by r.trigger)
    pure x

  last-IsBalanced :
      After
        (λ _. IsBalanced)
        (last (record s {
          executions = s.executions ++ x ∷ [];
          tasks = s.tasks ++ ts;
          issued = suc s.issued + length w.tasks;
        }))
  last-IsBalanced = After-of IsBalanced _ (
      Keeps-bind IsBalanced
        (emit reference d s.issued
          (execution_started w.id w.version (length w.tasks) r.triggered_by r.trigger))
        (λ _. pure x) (emit-Ledger d s.issued _) (λ _ s' v'. v') _
        (opened-IsBalanced s v x w.tasks ts refl refl refl
          (drawn-Drawn s.issued w.owner_id ch at w.tasks (suc s.issued))))

  start_body-IsBalanced : After (λ _. IsBalanced) (start_body reference d w r ch at s)
  unfolding start_body store_run
  start_body-IsBalanced = elim (Bool-cases (any (key_clash x) s.executions)) [
    | inl q ↦ rw q tt
    | inr q ↦
        let s1 = record s { executions = s.executions ++ x ∷ []; issued = suc s.issued } in
        let s2 = record s1 { issued = suc s.issued + length w.tasks } in
        rw (q, new_tasks-drawn s.issued w.owner_id ch at w.tasks s1)
          (After-bind (λ _ s'. s' ≡ record s2 { tasks = s.tasks ++ ts }) (λ _. IsBalanced)
            (store_tasks reference d ts) (λ _. last) s2 (store_tasks-appends d ts s2)
            (λ _ s' e. rw e last-IsBalanced))
  ]

pub start_execution-IsBalanced :
    (d : Deps) (w : Workflow) (r : Request) (at later : ℕ)
    → Keeps IsBalanced (start_execution reference d w r at later)
unfolding start_execution
start_execution-IsBalanced d w r at later =
    Keeps-bind IsBalanced (or_throw (validate_dag (map node_of w.tasks)))
      (λ report. do require_valid report; built)
      (or_throw-Keeps (validate_dag (map node_of w.tasks)))
      λ report.
        Keeps-bind IsBalanced (require_valid report) (λ _. built)
          (Keeps-if IsBalanced report.valid (pure tt) (throw invalid_workflow_graph) (λ s v. v)
            (λ s v. v))
          λ _.
            Keeps-bind IsBalanced
              (or_throw (add_children (map node_of w.tasks) (no_children [] (map node_of w.tasks))))
              run (or_throw-Keeps _)
              λ ch.
                Keeps-bind IsBalanced (reference.transaction (start_body reference d w r ch at))
                  dispatched
                  (Keeps-transaction IsBalanced (start_body reference d w r ch at)
                    (start_body-IsBalanced d w r ch at))
                  (λ x.
                    Keeps-bind IsBalanced (dispatch_ready reference d later x.id) (λ _. pure x)
                      (dispatch_ready-Ledger d later x.id) (λ _ s v. v))
  where
    dispatched : Execution → Act Execution
    dispatched x = do dispatch_ready reference d later x.id; pure x

    run : Children → Act Execution
    run ch = reference.transaction (start_body reference d w r ch at) >>= dispatched

    built : Act Execution
    built =
        or_throw (add_children (map node_of w.tasks) (no_children [] (map node_of w.tasks))) >>= run

    or_throw-Keeps : {A : Type 0} (a : Option A) → Keeps IsBalanced (or_throw a)
    or_throw-Keeps none s v = v
    or_throw-Keeps (some a) s v = v
