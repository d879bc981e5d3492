-- ===== src/Engine/Ledger/Complete.antt =====
-- The invariant of Engine/Ledger and completeTask, in src/workflow/engine.js.
use ai_distributed_workflow.Base.{
  refl, if◌then◌else◌, ℕ, ◌≡◌, Bool, true, false, first, some, arith, sym, Option, String, none,
}
use ai_distributed_workflow.Mongo.Reference.{reference}
use ai_distributed_workflow.Workflow.States.{TaskStatus as T, can_transition}
use ai_distributed_workflow.Engine.Model.{Task, Store, Deps}
use ai_distributed_workflow.Engine.After.{After, After-bind, Keeps, Keeps-bind, Keeps-transaction}
use ai_distributed_workflow.Engine.Report.{
  complete_rest, complete_body, task_with_id, has_token, completed_with, complete_task,
}
use ai_distributed_workflow.Engine.Ledger.{Ledger, IsBalanced, nobody, just, is_unfinished, only}
use ai_distributed_workflow.Engine.Ledger.Steps.{
  KeepsIdentity, Ledger-change_first, Moves-completed, Moves-failed,
}
use ai_distributed_workflow.Engine.Tasks.{in_status, to_status, transition_task}
use ai_distributed_workflow.Engine.Transition.{moved, After-transition}
use ai_distributed_workflow.Mongo.Keyed.{first-change_first}
use ai_distributed_workflow.Engine.Outcome.{after_task_succeeded}
use ai_distributed_workflow.Engine.Actions.{pure, ◌>>◌}
use ai_distributed_workflow.Engine.Ledger.Success.{after_task_succeeded-IsBalanced, Ledger-outside}
use ai_distributed_workflow.Engine.Ledger.Dispatch.{
  to_status-KeepsIdentity, in_status-status, dispatch_ready-Ledger,
}
use ai_distributed_workflow.Engine.Dispatch.{dispatch_ready}

-- Task `id`, the only one with that id, has just ended, and its run has not been told.
pub record Ended (b : ℕ → ℕ → Bool) (id : ℕ) (s : Store) : Type 0 where
  pub task : Task
  pub found : first (task_with_id id) s.tasks ≡ some task
  pub ledger : Ledger (just task.execution_id 1) (b task.execution_id) s

-- The state after a successful compare-and-set out of an unfinished status.
module _ (id : ℕ) (from : T) (extra : Task → Bool) (set : Task → Task) (s : Store) (t : Task)
    (unended : is_unfinished from ≡ true) (k : KeepsIdentity set) (v : IsBalanced s)
    (q : first (in_status extra id from) s.tasks ≡ some t) where
  found_again :
      (to : T)
      → first (task_with_id id) (moved id from to extra set s).tasks ≡ some (to_status set to t)
  found_again to =
      first-change_first (λ y. y.id) id (in_status extra id from) (to_status set to) s.tasks
        (λ y h. ground arith) k.same_id v.tasks_distinct q

  was_unfinished : is_unfinished t.status ≡ true
  was_unfinished = rw (in_status-status extra id from s.tasks q) unended

  pub completed-Ended : Ended (λ _. nobody) id (moved id from T.completed extra set s)
  completed-Ended = record {
    task = to_status set T.completed t;
    found = found_again T.completed;
    ledger =
        Ledger-change_first (in_status extra id from) (to_status set T.completed)
          (to_status-KeepsIdentity set T.completed k) s
          (Moves-completed (in_status extra id from) (to_status set T.completed)
            (to_status-KeepsIdentity set T.completed k) (set t).execution_id t (sym (k.same_run t))
            was_unfinished refl s.tasks q refl)
          v;
  }

  pub failed-Ended : Ended only id (moved id from T.failed extra set s)
  failed-Ended = record {
    task = to_status set T.failed t;
    found = found_again T.failed;
    ledger =
        Ledger-change_first (in_status extra id from) (to_status set T.failed)
          (to_status-KeepsIdentity set T.failed k) s
          (Moves-failed (in_status extra id from) (to_status set T.failed)
            (to_status-KeepsIdentity set T.failed k) (set t).execution_id t (sym (k.same_run t))
            was_unfinished refl s.tasks q)
          v;
  }

-- The rest of the transaction of completeTask.
complete_rest-IsBalanced :
    (d : Deps) (id now : ℕ) (s : Store)
    → Ended (λ _. nobody) id s
    → After (λ _. IsBalanced) (complete_rest reference d id now s)
unfolding complete_rest
complete_rest-IsBalanced d id now s h = rw h.found (
    After-bind (λ _. IsBalanced) (λ _. IsBalanced) (after_task_succeeded reference d h.task now)
      (λ _. pure (some h.task.execution_id)) _
      (after_task_succeeded-IsBalanced d h.task now _
        (Ledger-outside s _ s.approvals s.outbox s.calls s.sent h.ledger))
      (λ _ s' v. v))

complete_body-IsBalanced :
    (d : Deps) (id token : ℕ) (output : Option String) (now : ℕ) (s : Store)
    → IsBalanced s
    → After (λ _. IsBalanced) (complete_body reference d id token output now s)
unfolding complete_body can_transition
complete_body-IsBalanced d id token output now s v =
    After-bind (λ won s'. if won then Ended (λ _. nobody) id s' else IsBalanced s')
      (λ _. IsBalanced)
      (transition_task reference id T.running T.completed (has_token token)
        (completed_with output now))
      (λ won. if won then complete_rest reference d id now else pure none) s
      (After-transition (λ won s'. if won then Ended (λ _. nobody) id s' else IsBalanced s') id
        T.running T.completed (has_token token) (completed_with output now) s refl v
        (λ t q.
          completed-Ended id T.running (has_token token) (completed_with output now) s t refl
            (record { same_id = λ x. refl; same_run = λ x. refl }) v q))
      by_answer
  where
    by_answer :
        (won : Bool) (s' : Store)
        → (if won then Ended (λ _. nobody) id s' else IsBalanced s')
        → After (λ _. IsBalanced) ((if won then complete_rest reference d id now else pure none) s')
    by_answer true s' h = complete_rest-IsBalanced d id now s' h
    by_answer false s' h = h

pub complete_task-IsBalanced :
    (d : Deps) (id token : ℕ) (output : Option String) (now later : ℕ)
    → Keeps IsBalanced (complete_task reference d id token output now later)
unfolding complete_task
complete_task-IsBalanced d id token output now later =
    Keeps-bind IsBalanced (reference.transaction (complete_body reference d id token output now))
      (λ applied. elim applied [
        | none ↦ pure false
        | some e ↦ do dispatch_ready reference d later e; pure true
      ])
      (Keeps-transaction IsBalanced (complete_body reference d id token output now)
        (complete_body-IsBalanced d id token output now))
      dispatched
  where
    dispatched :
        (applied : Option ℕ)
        → Keeps IsBalanced (elim applied [
          | none ↦ pure false
          | some e ↦ do dispatch_ready reference d later e; pure true
        ])
    dispatched none s v = v
    dispatched (some e) s v =
        Keeps-bind IsBalanced (dispatch_ready reference d later e) (λ _. pure true)
          (dispatch_ready-Ledger d later e) (λ _ s' v'. v') s v
