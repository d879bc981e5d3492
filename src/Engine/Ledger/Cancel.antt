-- ===== src/Engine/Ledger/Cancel.antt =====
-- The invariant of Engine/Ledger and cancelExecution, in src/workflow/engine.js.
use ai_distributed_workflow.Base.{
  refl, ℕ, true, some, ◌==◌, List, ◌≡◌, Option-cases, count, first, arith, inl, inr,
}
use ai_distributed_workflow.Engine.Actions.{
  ◌>>=◌, ◌>>◌, pure, set_tasks, set_executions, assert_legal, update_tasks, update_execution, when,
  update_approvals, emit,
}
use ai_distributed_workflow.Workflow.States.{ExecutionStatus as E, TaskStatus as T, execution}
use ai_distributed_workflow.Engine.Control.{
  cancel_execution, cancel_body, cancelled_task, is_cancellable, cancel_rest, cancellable_in,
  cancelled_run, live_with_id, pending_of,
}
use ai_distributed_workflow.Engine.Model.{Deps, Execution, ApprovalStatus, execution_cancelled}
use ai_distributed_workflow.Engine.Ledger.Steps.{KeepsIdentity, Ledger-change_all}
use ai_distributed_workflow.Engine.Ledger.{
  unfinished, Task, Store, IsBalanced, Books, nowhere, just, Ledger, is_unfinished, only, nobody,
  unfinished_of,
}
use ai_distributed_workflow.Engine.After.{
  Keeps, After, Keeps-transaction, After-bind, Keeps-After, Keeps-assert, After-of, Keeps-bind,
  Keeps-when,
}
use ai_distributed_workflow.Mongo.Driver.{change_all, change_first}
use ai_distributed_workflow.Engine.Ledger.Success.{Known, Ledger-outside, emit-Ledger}
use ai_distributed_workflow.Mongo.Reference.{reference}
use ai_distributed_workflow.Mongo.Counting.{count-change_all_swept, first_passes}
use ai_distributed_workflow.Engine.Outcome.{execution_in}
use ai_distributed_workflow.Engine.Ledger.Runs.{Moves-cancelled, Ledger-execution}
use ai_distributed_workflow.Engine.Ledger.Failure.{other-Books, elsewhere}
use ai_distributed_workflow.Mongo.Keyed.{only_first}

cancelled_task-KeepsIdentity : (now : ℕ) → KeepsIdentity (cancelled_task now)
cancelled_task-KeepsIdentity now = record { same_id = λ t. refl; same_run = λ t. refl }

abbrev swept : ℕ → ℕ → List Task → List Task
swept id now ts = change_all (cancellable_in id) (cancelled_task now) ts

unfinished-swept : (id now : ℕ) (ts : List Task) → unfinished id (swept id now ts) ≡ 0
unfolding unfinished
unfinished-swept id now ts =
    count-change_all_swept (unfinished_of id) (cancellable_in id) (cancelled_task now) ts
      (λ t h. ground arith) (λ t h. ground (arith, uncancellable t.status))
  where
    uncancellable : (st : T) → is_cancellable st ≡ is_unfinished st
    uncancellable T.pending = refl
    uncancellable T.ready = refl
    uncancellable T.queued = refl
    uncancellable T.running = refl
    uncancellable T.retrying = refl
    uncancellable T.waiting_for_approval = refl
    uncancellable T.completed = refl
    uncancellable T.failed = refl
    uncancellable T.dead_letter = refl
    uncancellable T.cancelled = refl

module _ (id : ℕ) (x : Execution) (now : ℕ) (s : Store) (same : (x.id == id) ≡ true) where
  swept-Ledger :
      IsBalanced s
      → Ledger
          (just id (count (cancellable_in id) s.tasks))
          (only id)
          (set_tasks (swept id now s.tasks) s)
  swept-Ledger v =
      Ledger-change_all (cancellable_in id) (cancelled_task now) (cancelled_task-KeepsIdentity now)
        s
        (Moves-cancelled id (cancellable_in id) (cancelled_task now)
          (cancelled_task-KeepsIdentity now) (λ y h. ground arith) (λ y. refl) nobody s.tasks
          (λ i h. refl))
        v

  cancelled_run-Books :
      (now' n : ℕ) (y : Execution)
      → (y.id == id) ≡ true
      → Books (just id n) (only id) (swept id now s.tasks) y
      → Books nowhere nobody (swept id now s.tasks) (cancelled_run now' n y)
  cancelled_run-Books now' n y h books =
      let here : y.id ≡ id = ground (arith, h) in
      record {
        pending = ground (arith, books.pending, h);
        sound = λ _ o. absurd (ground (arith, o));
        over = λ o. rw here (omega (arith, unfinished-swept id now s.tasks));
      }

  run_cancelled-IsBalanced :
      (now' n : ℕ)
      → Known (just id n) (only id) id x (set_tasks (swept id now s.tasks) s)
      → IsBalanced (
          set_executions
            (change_first (execution_in id x.status) (cancelled_run now' n) s.executions)
            (set_tasks (swept id now s.tasks) s))
  run_cancelled-IsBalanced now' n (v, c) =
      Ledger-execution (λ y. (y.id == id) ≡ true → y ≡ x) id (execution_in id x.status)
        (cancelled_run now' n) (set_tasks (swept id now s.tasks) s) c (λ y h. ground arith)
        (λ y. refl) (λ y h known books. cancelled_run-Books now' n y (ground (arith, h)) books)
        (λ y h known books.
          other-Books n id (swept id now s.tasks) y (elsewhere id id x y same h known) books)
        v

module _ (d : Deps) (id : ℕ) (x : Execution) (now now' now'' : ℕ) (same : (x.id == id) ≡ true) where
  cancel_rest-IsBalanced :
      (s : Store)
      → Known nowhere nobody id x s
      → After (λ _. IsBalanced) (cancel_rest reference d id x now now' now'' s)
  unfolding cancel_rest
  cancel_rest-IsBalanced s k =
      let n = count (cancellable_in id) s.tasks in
      let ended =
        set_executions (change_first (execution_in id x.status) (cancelled_run now' n) s.executions)
          (set_tasks (swept id now s.tasks) s) in
      After-bind (λ _ s'. s' ≡ s) (λ _. IsBalanced) (assert_legal execution x.status E.cancelled)
        (λ _. do
          n ← update_tasks reference (cancellable_in id) (cancelled_task now)
          update_execution reference (execution_in id x.status) (cancelled_run now' n)
          when d.has_approvals do
            update_approvals reference (pending_of id)
                (λ a. record a { status = ApprovalStatus.cancelled; decided_at = some now'' })
            pure tt
          emit reference d id (execution_cancelled n)
          pure true)
        s
        (Keeps-After (λ s'. s' ≡ s) (assert_legal execution x.status E.cancelled) s
          (Keeps-assert (λ s'. s' ≡ s) execution x.status E.cancelled) refl)
        λ _ s1 e. rw e (
          After-of IsBalanced _ (
            Keeps-bind IsBalanced
              (when d.has_approvals do
                update_approvals reference (pending_of id)
                    (λ a. record a { status = ApprovalStatus.cancelled; decided_at = some now'' })
                pure tt)
              (λ _. do emit reference d id (execution_cancelled n); pure true)
              (Keeps-when IsBalanced d.has_approvals _
                (λ s2 v2. Ledger-outside s2 s2.attempts _ s2.outbox s2.calls s2.sent v2))
              (λ _.
                Keeps-bind IsBalanced (emit reference d id (execution_cancelled n)) (λ _. pure true)
                  (emit-Ledger d id (execution_cancelled n)) (λ _ s3 v3. v3))
              ended
              (run_cancelled-IsBalanced id x now s same now' n
                (swept-Ledger id x now s same k.0, k.1))))

cancel_body-IsBalanced :
    (d : Deps) (id now now' now'' : ℕ) (s : Store)
    → IsBalanced s
    → After (λ _. IsBalanced) (cancel_body reference d id now now' now'' s)
unfolding cancel_body
cancel_body-IsBalanced d id now now' now'' s v =
    elim (Option-cases (first (live_with_id id) s.executions)) [
      | inl q ↦ rw q v
      | inr (x, q) ↦
          let found : live_with_id id x ≡ true = first_passes (live_with_id id) s.executions q in
          rw q (
            cancel_rest-IsBalanced d id x now now' now'' (ground (arith, found)) s (
              v,
              only_first (λ y. y.id) id (live_with_id id) s.executions (λ y h. ground arith)
                  v.executions_distinct q,
            ))
    ]

pub cancel_execution-IsBalanced :
    (d : Deps) (id now now' now'' : ℕ)
    → Keeps IsBalanced (cancel_execution reference d id now now' now'')
unfolding cancel_execution
cancel_execution-IsBalanced d id now now' now'' =
    Keeps-transaction IsBalanced (cancel_body reference d id now now' now'')
      (cancel_body-IsBalanced d id now now' now'')
