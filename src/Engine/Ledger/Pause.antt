-- ===== src/Engine/Ledger/Pause.antt =====
-- The invariant of Engine/Ledger and pauseExecution and resumeExecution, in src/workflow/engine.js.
use ai_distributed_workflow.Base.{
  refl, ℕ, true, false, some, ◌==◌, ◌&&◌, ◌≡◌, first, Option-cases, inl, inr, arith, subst, sym,
}
use ai_distributed_workflow.Engine.Actions.{
  ◌>>◌, pure, Act, update_execution, when, update_tasks, assert_legal, emit, set_executions,
}
use ai_distributed_workflow.Workflow.States.{
  ExecutionStatus as E, execution, can_transition, assert_transition,
}
use ai_distributed_workflow.Engine.Control.{
  pause_body, resume_body, resume_execution, pause_execution, resume_rest, with_status,
}
use ai_distributed_workflow.Engine.Model.{
  Deps, Execution, Store, execution_completed, execution_paused, execution_resumed,
}
use ai_distributed_workflow.Base.Int.{is_zero}
use ai_distributed_workflow.Engine.After.{
  Keeps, After, Keeps-if, Keeps-bind, After-bind, Keeps-assert, Keeps-transaction, Keeps-After,
  Keeps-when, After-when, After-of,
}
use ai_distributed_workflow.Engine.Ledger.Success.{
  Known, emit-Ledger, promote-Ledger, made_completed-Books, emit-Known,
}
use ai_distributed_workflow.Engine.Ledger.{IsBalanced, nowhere, nobody}
use ai_distributed_workflow.Engine.Outcome.{execution_in, made_completed, is_unblocked, made_ready}
use ai_distributed_workflow.Mongo.Reference.{reference}
use ai_distributed_workflow.Mongo.Driver.{one_of, change_first}
use ai_distributed_workflow.Mongo.Counting.{change_first-none}
use ai_distributed_workflow.Engine.Dispatch.{dispatch_ready, has_id}
use ai_distributed_workflow.Engine.Ledger.Runs.{Ledger-execution, All-Unit}
use ai_distributed_workflow.Mongo.Keyed.{only_first, Distinct-change_first, first-change_first}
use ai_distributed_workflow.Engine.Ledger.Dispatch.{dispatch_ready-Ledger}

pause_body-IsBalanced : (d : Deps) (id : ℕ) → Keeps IsBalanced (pause_body reference d id)
unfolding pause_body
pause_body-IsBalanced d id s v =
    Keeps-if IsBalanced (one_of (first (execution_in id E.running) s.executions) == 1)
      (do emit reference d id execution_paused; pure true) (pure false)
      (Keeps-bind IsBalanced (emit reference d id execution_paused) (λ _. pure true)
        (emit-Ledger d id execution_paused) (λ _ s' v'. v'))
      (λ s' v'. v') _
      (Ledger-execution (λ _. Unit {0}) id (execution_in id E.running) (with_status E.paused) s
        (All-Unit s.executions) (λ x h. ground arith) (λ x. refl)
        (λ x h r books. record {
          pending = books.pending;
          sound = λ e o. books.sound e (ground (arith, h));
          over = λ o. absurd (ground (arith, o));
        })
        (λ x h r books. books) v)

pub pause_execution-IsBalanced :
    (d : Deps) (id : ℕ) → Keeps IsBalanced (pause_execution reference d id)
unfolding pause_execution
pause_execution-IsBalanced d id =
    Keeps-bind IsBalanced (assert_legal execution E.running E.paused)
      (λ _. reference.transaction (pause_body reference d id))
      (Keeps-assert IsBalanced execution E.running E.paused)
      (λ _. Keeps-transaction IsBalanced (pause_body reference d id) (λ s v.
        Keeps-After IsBalanced (pause_body reference d id) s (pause_body-IsBalanced d id) v))

-- The run found by its id and status is the only document with that id.
resumed-Known :
    (id : ℕ) (x : Execution) (s : Store)
    → first (execution_in id E.paused) s.executions ≡ some x
    → IsBalanced s
    → Known nowhere nobody id (with_status E.running x) (
        set_executions
          (change_first (execution_in id E.paused) (with_status E.running) s.executions)
          s)
resumed-Known id x s q v = (
  Ledger-execution (λ _. Unit {0}) id (execution_in id E.paused) (with_status E.running) s
      (All-Unit s.executions) (λ y h. ground arith) (λ y. refl)
      (λ y h r books. record {
        pending = books.pending;
        sound = λ e o. books.sound e (ground (arith, h));
        over = λ o. absurd (ground (arith, o));
      })
      (λ y h r books. books) v,
  only_first (λ y. y.id) id (has_id id) _ (λ y h. h)
      (Distinct-change_first (λ y. y.id) (execution_in id E.paused) (with_status E.running)
        s.executions (λ y. refl) v.executions_distinct)
      (first-change_first (λ y. y.id) id (execution_in id E.paused) (with_status E.running)
        s.executions (λ y h. ground arith) (λ y. refl) v.executions_distinct q),
)

module _ (d : Deps) (id : ℕ) (x : Execution) (now now' : ℕ) where
  abbrev finish : Act (Unit {0})
  finish = do
    update_execution reference (execution_in id E.running) (made_completed now')
    emit reference d id execution_completed

  finish-IsBalanced :
      is_zero x.pending_tasks ≡ true
      → (s : Store) → Known nowhere nobody id x s
      → IsBalanced (finish s).1
  finish-IsBalanced zero s (v, c) = emit-Ledger d id execution_completed _ (
      Ledger-execution (λ y. (y.id == id) ≡ true → y ≡ x) id (execution_in id E.running)
        (made_completed now') s c (λ y h. ground arith) (λ y. refl)
        (λ y h known books.
          made_completed-Books now' s.tasks y (ground (arith, h))
            (subst (λ z. is_zero z.pending_tasks ≡ true) (sym (known (ground (arith, h)))) zero)
            books)
        (λ y h known books. books) v)

  promote-Known :
      Keeps
        (Known nowhere nobody id x)
        (update_tasks reference (λ t. t.execution_id == id && is_unblocked t) (made_ready now))
  promote-Known s (v, c) = (
    promote-Ledger (λ t. t.execution_id == id && is_unblocked t) now (λ t h. ground arith) s v,
    c,
  )

  resume_rest-IsBalanced :
      (s : Store)
      → Known nowhere nobody id x s
      → After (λ _. IsBalanced) (resume_rest reference d id x now now' s)
  unfolding resume_rest
  resume_rest-IsBalanced s k =
      After-bind (λ _. Known nowhere nobody id x) (λ _. IsBalanced)
        (emit reference d id execution_resumed)
        (λ _. do
          update_tasks reference (λ t. t.execution_id == id && is_unblocked t) (made_ready now)
          when (is_zero x.pending_tasks) finish
          pure true)
        s
        (Keeps-After (Known nowhere nobody id x) (emit reference d id execution_resumed) s
          (emit-Known d id x id execution_resumed) k)
        λ _ s1 k1.
          After-bind (λ _. IsBalanced) (λ _. IsBalanced) (when (is_zero x.pending_tasks) finish)
            (λ _. pure true) _
            (After-when IsBalanced (is_zero x.pending_tasks) finish _
              (λ h. After-of IsBalanced (finish _) (finish-IsBalanced h _ (promote-Known s1 k1)))
              (promote-Known s1 k1).0)
            (λ _ s2 v2. v2)

resume_body-IsBalanced :
    (d : Deps) (id now now' : ℕ) (s : Store)
    → IsBalanced s
    → After (λ _. IsBalanced) (resume_body reference d id now now' s)
unfolding resume_body can_transition assert_transition
resume_body-IsBalanced d id now now' s v =
    elim (Option-cases (first (execution_in id E.paused) s.executions)) [
      | inl q ↦
          rw
            (q, change_first-none (execution_in id E.paused) (with_status E.running) s.executions q)
            v
      | inr (x, q) ↦ rw q (
          resume_rest-IsBalanced d id (with_status E.running x) now now' _
            (resumed-Known id x s q v))
    ]

pub resume_execution-IsBalanced :
    (d : Deps) (id now now' later : ℕ)
    → Keeps IsBalanced (resume_execution reference d id now now' later)
unfolding resume_execution
resume_execution-IsBalanced d id now now' later =
    Keeps-bind IsBalanced (reference.transaction (resume_body reference d id now now'))
      (λ resumed. do when resumed (dispatch_ready reference d later id); pure resumed)
      (Keeps-transaction IsBalanced (resume_body reference d id now now')
        (resume_body-IsBalanced d id now now'))
      (λ resumed.
        Keeps-bind IsBalanced (when resumed (dispatch_ready reference d later id))
          (λ _. pure resumed)
          (Keeps-when IsBalanced resumed (dispatch_ready reference d later id)
            (dispatch_ready-Ledger d later id))
          (λ _ s v. v))
