-- ===== src/Engine/Ledger/Failure.antt =====
-- The invariant of Engine/Ledger and afterTaskFailedForGood and its fail-fast, in src/workflow/engine.js.
use ai_distributed_workflow.Workflow.States.{ExecutionStatus as E, TaskStatus as T, execution}
use ai_distributed_workflow.Engine.Actions.{
  ◌>>◌, set_executions, set_tasks, when, emit, assert_legal, update_execution,
}
use ai_distributed_workflow.Base.{
  refl, ℕ, Bool, List, first, ◌==◌, ◌≡◌, some, false, true, All-first, arith, All-map_of,
  Bool-cases, inl, All-both, subst, ◌+◌, sym, inr, count, Option-cases,
}
use ai_distributed_workflow.Engine.Model.{
  RunError, Execution, Store, Task, Deps, TaskError, Payload, task_failed, execution_failed,
}
use ai_distributed_workflow.Engine.Ledger.{
  is_sound, Books, Ledger, nowhere, just, is_over, only, IsBalanced, nobody, unfinished,
}
use ai_distributed_workflow.Engine.Dispatch.{has_id}
use ai_distributed_workflow.Engine.Ledger.Success.{
  Known, pending_less-Ledger, pending_less-Current, emit-Ledger,
}
use ai_distributed_workflow.Mongo.Counting.{first_passes}
use ai_distributed_workflow.Engine.Outcome.{
  made_failed, is_live, after_task_failed_for_good, made_cancelled, fail_fast, unstarted_in,
  execution_in, pending_less, reason,
}
use ai_distributed_workflow.Engine.Ledger.Steps.{KeepsIdentity, Ledger-change_all}
use ai_distributed_workflow.Engine.After.{After, After-bind, Keeps-After, Keeps-assert, After-of}
use ai_distributed_workflow.Mongo.Driver.{change_first, change_all}
use ai_distributed_workflow.Mongo.Reference.{reference}
use ai_distributed_workflow.Engine.Ledger.Runs.{Ledger-execution, Moves-cancelled}

-- A run that is not over, with one task ended and not yet counted.
not_over :
    (b : ℕ → Bool) (e : ℕ) (x : Execution) (s : Store)
    → first (has_id e) s.executions ≡ some x
    → Ledger (just e 1) b s
    → is_over x.status ≡ false
not_over b e x s q v =
    let books : Books (just e 1) b s.tasks x = All-first _ (has_id e) s.executions v.books q in
    let same : (x.id == e) ≡ true = first_passes (has_id e) s.executions q in
    elim (Bool-cases (is_over x.status)) [
      | inl o ↦
          let none_left : unfinished x.id s.tasks + just e 1 x.id ≡ 0 = books.over o in
          absurd (ground (arith, same, none_left))
      | inr o ↦ o
    ]

-- A run that is not sound owes nothing to the tasks that broke.
unsound-Books :
    (e : ℕ) (x y : Execution) (ts : List Task)
    → is_sound x.status ≡ false
    → ((y.id == e) ≡ true → y ≡ x)
    → Books nowhere (only e) ts y
    → Books nowhere nobody ts y
unsound-Books e x y ts unsound known books = record {
  pending = books.pending;
  sound = λ _ o. elim (Bool-cases (y.id == e)) [
    | inl h ↦
        let here : is_sound y.status ≡ false =
          subst (λ z. is_sound z.status ≡ false) (sym (known h)) unsound in
        absurd (ground (arith, here, o))
    | inr h ↦ books.sound h o
  ];
  over = books.over;
}

excuse_unsound :
    (e : ℕ) (x : Execution) (s : Store)
    → is_sound x.status ≡ false
    → Known nowhere (only e) e x s
    → IsBalanced s
excuse_unsound e x s unsound (v, c) = record {
  executions_distinct = v.executions_distinct;
  tasks_distinct = v.tasks_distinct;
  executions_issued = v.executions_issued;
  tasks_issued = v.tasks_issued;
  books =
      All-map_of _ _ s.executions (λ y k. unsound-Books e x y s.tasks unsound k.0 k.1)
        (All-both _ _ s.executions c v.books);
}

-- The run is failed, and its counter loses the tasks that were cancelled.
made_failed-Books :
    (why : RunError) (now n e : ℕ) (ts : List Task) (y : Execution)
    → (y.id == e) ≡ true
    → Books (just e n) (only e) ts y
    → Books nowhere nobody ts (made_failed why now n y)
made_failed-Books why now n e ts y same books = record {
  pending = ground (arith, books.pending, same);
  sound = λ _ o. absurd (ground (arith, o));
  over = λ o. absurd (ground (arith, o));
}

pub other-Books :
    (n e : ℕ) (ts : List Task) (y : Execution)
    → (y.id == e) ≡ false
    → Books (just e n) (only e) ts y
    → Books nowhere nobody ts y
other-Books n e ts y other books = record {
  pending = ground (arith, books.pending, other);
  sound = λ _ o. books.sound other o;
  over = λ o. ground (arith, books.over o, other);
}

-- A document that the compare-and-set on the known document `x` passes over is of another run.
pub elsewhere :
    (e i : ℕ) (x y : Execution)
    → (x.id == i) ≡ true
    → execution_in i x.status y ≡ false
    → ((y.id == e) ≡ true → y ≡ x)
    → (y.id == e) ≡ false
elsewhere e i x y same h known = elim (Bool-cases (y.id == e)) [
  | inl q ↦
      let miss : execution_in i x.status x ≡ false =
        subst (λ z. execution_in i x.status z ≡ false) (known q) h in
      absurd (ground (arith, miss))
  | inr q ↦ q
]

not_sound : (e : E) → is_over e ≡ false → is_live e ≡ false → is_sound e ≡ false
not_sound E.pending o l = refl
not_sound E.running o l = absurd (ground (arith, l))
not_sound E.paused o l = absurd (ground (arith, l))
not_sound E.waiting_for_approval o l = refl
not_sound E.completed o l = absurd (ground (arith, o))
not_sound E.failed o l = refl
not_sound E.cancelled o l = refl

made_cancelled-KeepsIdentity : (now : ℕ) → KeepsIdentity (made_cancelled now)
made_cancelled-KeepsIdentity now = record { same_id = λ t. refl; same_run = λ t. refl }

module _ (d : Deps) (t : Task) (x : Execution) (now : ℕ)
    (same : (x.id == t.execution_id) ≡ true) where
  -- The tasks of the run that have not started are cancelled.
  unstarted-Ledger :
      (s : Store)
      → Ledger nowhere (only t.execution_id) s
      → Ledger
          (just t.execution_id (count (unstarted_in t.execution_id) s.tasks))
          (only t.execution_id)
          (set_tasks (change_all (unstarted_in t.execution_id) (made_cancelled now) s.tasks) s)
  unstarted-Ledger s v =
      Ledger-change_all (unstarted_in t.execution_id) (made_cancelled now)
        (made_cancelled-KeepsIdentity now) s
        (Moves-cancelled t.execution_id (unstarted_in t.execution_id) (made_cancelled now)
          (made_cancelled-KeepsIdentity now) (λ y h. ground arith) (λ y. refl) (only t.execution_id)
          s.tasks (λ i h. h))
        v

  run_failed-IsBalanced :
      (why : RunError) (n : ℕ) (s : Store)
      → Known (just t.execution_id n) (only t.execution_id) t.execution_id x s
      → IsBalanced (
          set_executions
            (change_first (execution_in x.id x.status) (made_failed why now n) s.executions)
            s)
  run_failed-IsBalanced why n s (v, c) =
      Ledger-execution (λ y. (y.id == t.execution_id) ≡ true → y ≡ x) x.id
        (execution_in x.id x.status) (made_failed why now n) s c (λ y h. ground arith) (λ y. refl)
        (λ y h known books.
          made_failed-Books why now n t.execution_id s.tasks y (ground (arith, h, same)) books)
        (λ y h known books.
          other-Books n t.execution_id s.tasks y
            (elsewhere t.execution_id x.id x y (ground arith) h known) books)
        v

  fail_fast-IsBalanced :
      (outcome : T) (why : TaskError) (s : Store)
      → Known nowhere (only t.execution_id) t.execution_id x s
      → After (λ _. IsBalanced) (fail_fast reference d x t outcome why now s)
  unfolding fail_fast
  fail_fast-IsBalanced outcome why s (v, c) =
      let n = count (unstarted_in t.execution_id) s.tasks in
      let s' =
        set_tasks (change_all (unstarted_in t.execution_id) (made_cancelled now) s.tasks) s in
      After-bind (λ _. Known (just t.execution_id n) (only t.execution_id) t.execution_id x)
        (λ _. IsBalanced) (assert_legal execution x.status E.failed)
        (λ _. do
          update_execution reference (execution_in x.id x.status)
              (made_failed (task_failed t.key (reason outcome t.attempt) why) now n)
          emit reference d x.id (execution_failed t.key why))
        s'
        (Keeps-After (Known (just t.execution_id n) (only t.execution_id) t.execution_id x)
          (assert_legal execution x.status E.failed) s'
          (Keeps-assert (Known (just t.execution_id n) (only t.execution_id) t.execution_id x)
            execution x.status E.failed)
          (unstarted-Ledger s v, c))
        (λ _ s2 k. After-of IsBalanced _ (
          emit-Ledger d x.id (execution_failed t.key why) _
            (run_failed-IsBalanced (task_failed t.key (reason outcome t.attempt) why) n s2 k)))

  After-failure :
      (outcome : T) (why : TaskError) (last : Payload) (s : Store)
      → is_over x.status ≡ false
      → Known nowhere (only t.execution_id) t.execution_id x s
      → After
          (λ _. IsBalanced)
          ((when (is_live x.status) (fail_fast reference d x t outcome why now)
              >> emit reference d t.execution_id last)
            s)
  After-failure outcome why last s going k =
      After-bind (λ _. IsBalanced) (λ _. IsBalanced)
        (when (is_live x.status) (fail_fast reference d x t outcome why now))
        (λ _. emit reference d t.execution_id last) s by_status
        (λ _ s' v.
          Keeps-After IsBalanced (emit reference d t.execution_id last) s'
            (emit-Ledger d t.execution_id last) v)
    where
      by_status :
          After
            (λ _. IsBalanced)
            (when (is_live x.status) (fail_fast reference d x t outcome why now) s)
      by_status = elim (Bool-cases (is_live x.status)) [
        | inl h ↦ rw h (fail_fast-IsBalanced outcome why s k)
        | inr h ↦ rw h (excuse_unsound t.execution_id x s (not_sound x.status going h) k)
      ]

pub after_task_failed_for_good-IsBalanced :
    (d : Deps) (t : Task) (outcome : T) (why : TaskError) (retryable : Bool) (now : ℕ) (s : Store)
    → Ledger (just t.execution_id 1) (only t.execution_id) s
    → After (λ _. IsBalanced) (after_task_failed_for_good reference d t outcome why retryable now s)
unfolding after_task_failed_for_good
after_task_failed_for_good-IsBalanced d t outcome why retryable now s v =
    elim (Option-cases (first (has_id t.execution_id) s.executions)) [
      | inl q ↦ rw q tt
      | inr (x, q) ↦ rw q (
          After-failure d t (pending_less 1 x) now
            (first_passes (has_id t.execution_id) s.executions q) outcome why _ _
            (not_over (only t.execution_id) t.execution_id x s q v)
            (
              pending_less-Ledger (only t.execution_id) t.execution_id s v,
              pending_less-Current t.execution_id s q v,
            ))
    ]
