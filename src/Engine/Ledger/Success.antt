-- ===== src/Engine/Ledger/Success.antt =====
-- The invariant of Engine/Ledger and afterTaskSucceeded, in src/workflow/engine.js.
use ai_distributed_workflow.Base.{
  ℕ, suc, ◌≡◌, refl, sym, subst, Bool, true, List, ◌==◌, ◌&&◌, arith, Bool-cases, inl, inr,
  All-map_of, any, All, Option-cases, first, some, not, is_empty, &&-eq-true,
}
use ai_distributed_workflow.Engine.Actions.{◌>>◌, when, Act}
use ai_distributed_workflow.Mongo.Reference.{reference}
use ai_distributed_workflow.Workflow.States.{
  ExecutionStatus as E, assert_transition, can_transition, same_execution,
}
use ai_distributed_workflow.Engine.Model.{
  Task, Store, Deps, Payload, Event, Attempt, Approval, Sent, execution_completed, task_completed,
}
use ai_distributed_workflow.Engine.Actions.{emit, insert_event, update_tasks, set_executions}
use ai_distributed_workflow.Engine.After.{
  Keeps, After, After-bind, After-when, Keeps-After, After-of,
}
use ai_distributed_workflow.Engine.Outcome.{
  one_dep_less, is_unblocked, made_ready, promote_children, is_child_of, complete_run, pending_less,
  execution_in, made_completed, after_task_succeeded, is_live, duration,
}
use ai_distributed_workflow.Engine.Ledger.{
  Ledger, Execution, just, nowhere, Books, nobody, IsBalanced,
}
use ai_distributed_workflow.Engine.Ledger.Steps.{KeepsIdentity, Ledger-change_all, Moves-all}
use ai_distributed_workflow.Engine.Dispatch.{is_running, has_id}
use ai_distributed_workflow.Base.Int.{is_zero}
use ai_distributed_workflow.Mongo.Driver.{change_first}
use ai_distributed_workflow.Engine.Ledger.Runs.{Ledger-execution, All-Unit}
use ai_distributed_workflow.Mongo.Counting.{first_passes}
use ai_distributed_workflow.Mongo.Keyed.{only_first, Distinct-change_first, first-change_first}

-- Ids are drawn, and outbox rows written, without any effect on it.
pub Ledger-issue :
    {g : ℕ → ℕ} {b : ℕ → Bool} (s : Store)
    → Ledger g b s
    → Ledger g b (record s { issued = suc s.issued })
Ledger-issue s v = record {
  executions_distinct = v.executions_distinct;
  tasks_distinct = v.tasks_distinct;
  executions_issued = All-map_of _ _ s.executions (λ x h. omega arith) v.executions_issued;
  tasks_issued = All-map_of _ _ s.tasks (λ t h. (omega arith, omega arith)) v.tasks_issued;
  books = v.books;
}

-- Nor have the other collections.
pub Ledger-outside :
    {g : ℕ → ℕ} {b : ℕ → Bool} (s : Store) (attempts : List Attempt) (approvals : List Approval)
    (outbox : List Event) (calls : ℕ) (sent : List Sent)
    → Ledger g b s
    → Ledger g b (record s {
      attempts = attempts;
      approvals = approvals;
      outbox = outbox;
      calls = calls;
      sent = sent;
    })
Ledger-outside s attempts approvals outbox calls sent v = record {
  executions_distinct = v.executions_distinct;
  tasks_distinct = v.tasks_distinct;
  executions_issued = v.executions_issued;
  tasks_issued = v.tasks_issued;
  books = v.books;
}

insert_event-Ledger :
    {g : ℕ → ℕ} {b : ℕ → Bool} (e : Event) → Keeps (Ledger g b) (insert_event reference e)
insert_event-Ledger e s v = elim (Bool-cases (any (λ y. e.event_id == y.event_id) s.outbox)) [
  | inl q ↦ rw (q, insert_event) v
  | inr q ↦ rw (q, insert_event) (Ledger-outside s s.attempts s.approvals _ s.calls s.sent v)
]

pub emit-Ledger :
    {g : ℕ → ℕ} {b : ℕ → Bool} (d : Deps) (id : ℕ) (payload : Payload)
    → Keeps (Ledger g b) (emit reference d id payload)
unfolding emit
emit-Ledger d id payload s v = elim (Bool-cases d.has_outbox) [
  | inl e ↦ rw e (insert_event-Ledger _ _ (Ledger-issue s v))
  | inr e ↦ rw e v
]

-- Children only move between unfinished statuses.
one_dep_less-KeepsIdentity : KeepsIdentity one_dep_less
one_dep_less-KeepsIdentity = record { same_id = λ t. refl; same_run = λ t. refl }

made_ready-KeepsIdentity : (now : ℕ) → KeepsIdentity (made_ready now)
made_ready-KeepsIdentity now = record { same_id = λ t. refl; same_run = λ t. refl }

module _ (p : Task → Bool) where
  decrement-Ledger :
      {g : ℕ → ℕ} {b : ℕ → Bool} → Keeps (Ledger g b) (update_tasks reference p one_dep_less)
  decrement-Ledger {g} {b} s v =
      Ledger-change_all p one_dep_less one_dep_less-KeepsIdentity s
        (Moves-all g b p one_dep_less one_dep_less-KeepsIdentity (λ t h. (refl, refl)) s.tasks) v

  pub promote-Ledger :
      {g : ℕ → ℕ} {b : ℕ → Bool} (now : ℕ)
      → ((t : Task) → p t ≡ true → is_unblocked t ≡ true)
      → Keeps (Ledger g b) (update_tasks reference p (made_ready now))
  promote-Ledger {g} {b} now blocked s v =
      Ledger-change_all p (made_ready now) (made_ready-KeepsIdentity now) s
        (Moves-all g b p (made_ready now) (made_ready-KeepsIdentity now)
          (λ t h. ground (arith, blocked t h)) s.tasks)
        v

-- `x` is the document of run `e`.
abbrev pub Current : ℕ → Execution → Store → Type 0
Current e x s = All (λ y. (y.id == e) ≡ true → y ≡ x) s.executions

abbrev pub Known : (ℕ → ℕ) → (ℕ → Bool) → ℕ → Execution → Store → Type 0
Known g b e x s = Ledger g b s × Current e x s

-- `emit` writes to the outbox only.
pub emit-keeps_runs :
    (d : Deps) (id : ℕ) (payload : Payload) (s : Store)
    → (emit reference d id payload s).1.executions ≡ s.executions
unfolding emit
emit-keeps_runs d id payload s = ground arith

module _ {g : ℕ → ℕ} {b : ℕ → Bool} (d : Deps) (e : ℕ) (x : Execution) where
  promote_children-Known :
      (status : E) (t : Task) (now : ℕ)
      → Keeps (Known g b e x) (promote_children reference d status t now)
  unfolding promote_children assert_transition can_transition
  promote_children-Known status t now s (v, c) = elim (Bool-cases (is_running status)) [
    | inl h ↦ rw h (
      promote-Ledger (λ y. is_child_of t y && is_unblocked y) now (λ y q. ground arith) _
          (decrement-Ledger (is_child_of t) s v),
      c,
    )
    | inr h ↦ rw h (decrement-Ledger (is_child_of t) s v, c)
  ]

  pub emit-Known :
      (id : ℕ) (payload : Payload) → Keeps (Known g b e x) (emit reference d id payload)
  emit-Known id payload s (v, c) = (emit-Ledger d id payload s v, rw emit-keeps_runs c)

-- A run with nothing pending is completed.
pub made_completed-Books :
    {b : ℕ → Bool} (now : ℕ) (ts : List Task) (y : Execution)
    → same_execution y.status E.running ≡ true
    → is_zero y.pending_tasks ≡ true
    → Books nowhere b ts y
    → Books nowhere b ts (made_completed now y)
made_completed-Books now ts y running zero books = record {
  pending = books.pending;
  sound = λ e o. books.sound e (ground arith);
  over = λ o. ground (arith, books.pending);
}

complete_run-Known :
    {b : ℕ → Bool} (d : Deps) (e : ℕ) (x : Execution) (now : ℕ) (s : Store)
    → (x.id == e) ≡ true
    → is_zero x.pending_tasks ≡ true
    → Known nowhere b e x s
    → Ledger nowhere b (complete_run reference d x.id now s).1
unfolding complete_run assert_transition can_transition
complete_run-Known {b} d e x now s same zero (v, c) = emit-Ledger d x.id execution_completed _ (
    Ledger-execution (λ y. (y.id == e) ≡ true → y ≡ x) x.id (execution_in x.id E.running)
      (made_completed now) s c (λ y h. ground arith) (λ y. refl)
      (λ y h known books.
        made_completed-Books now s.tasks y (ground arith)
          (subst (λ z. is_zero z.pending_tasks ≡ true) (sym (known (ground arith))) zero) books)
      (λ y h known books. books) v)

-- The counter of run `e`, one ahead, is put right.
pub pending_less-Ledger :
    (b : ℕ → Bool) (e : ℕ) (s : Store)
    → Ledger (just e 1) b s
    → Ledger nowhere b (set_executions (change_first (has_id e) (pending_less 1) s.executions) s)
pending_less-Ledger b e s v =
    Ledger-execution (λ _. Unit {0}) e (has_id e) (pending_less 1) s (All-Unit s.executions)
      (λ x h. h) (λ x. refl)
      (λ x h r books. record {
        pending = ground (arith, books.pending);
        sound = books.sound;
        over = λ o. ground (arith, books.over o);
      })
      (λ x h r books. record {
        pending = ground (arith, books.pending);
        sound = books.sound;
        over = λ o. ground (arith, books.over o);
      })
      v

pub pending_less-Current :
    {g : ℕ → ℕ} {b : ℕ → Bool} {x : Execution} (e : ℕ) (s : Store)
    → first (has_id e) s.executions ≡ some x
    → Ledger g b s
    → Current e
        (pending_less 1 x)
        (set_executions (change_first (has_id e) (pending_less 1) s.executions) s)
pending_less-Current e s q v =
    only_first (λ y. y.id) e (has_id e) _ (λ y h. h)
      (Distinct-change_first (λ y. y.id) (has_id e) (pending_less 1) s.executions (λ y. refl)
        v.executions_distinct)
      (first-change_first (λ y. y.id) e (has_id e) (pending_less 1) s.executions (λ y h. h)
        (λ y. refl) v.executions_distinct q)

module _ (d : Deps) (t : Task) (now : ℕ) where
  abbrev first_step : Execution → Act (Unit {0})
  first_step x =
      when (is_live x.status && not (is_empty t.dependents))
        (promote_children reference d x.status t now)

  abbrev second_step : Execution → Act (Unit {0})
  second_step x =
      when (is_running x.status && is_zero x.pending_tasks) (complete_run reference d x.id now)

  abbrev last_step : Act (Unit {0})
  last_step =
      emit reference d t.execution_id
        (task_completed t.id t.key t.attempt (duration t.started_at now))

  second_step-IsBalanced :
      (e : ℕ) (x : Execution) (s : Store)
      → (x.id == e) ≡ true
      → Known nowhere nobody e x s
      → After (λ _. IsBalanced) (second_step x s)
  second_step-IsBalanced e x s same k =
      After-when IsBalanced (is_running x.status && is_zero x.pending_tasks)
        (complete_run reference d x.id now) s
        (λ h. After-of IsBalanced (complete_run reference d x.id now s) (
          complete_run-Known d e x now s same
            (&&-eq-true (is_running x.status) (is_zero x.pending_tasks) h).1 k))
        k.0

  After-count :
      (e : ℕ) (x : Execution) (s : Store)
      → (x.id == e) ≡ true
      → Known nowhere nobody e x s
      → After (λ _. IsBalanced) ((first_step x >> (second_step x >> last_step)) s)
  After-count e x s same k =
      After-bind (λ _. Known nowhere nobody e x) (λ _. IsBalanced) (first_step x)
        (λ _. second_step x >> last_step) s
        (After-when (Known nowhere nobody e x) (is_live x.status && not (is_empty t.dependents))
          (promote_children reference d x.status t now) s
          (λ _.
            Keeps-After (Known nowhere nobody e x) (promote_children reference d x.status t now) s
              (promote_children-Known d e x x.status t now) k)
          k)
        λ _ s1 k1.
          After-bind (λ _. IsBalanced) (λ _. IsBalanced) (second_step x) (λ _. last_step) s1
            (second_step-IsBalanced e x s1 same k1)
            λ _ s2 v2. Keeps-After IsBalanced last_step s2 (emit-Ledger d t.execution_id _) v2

  pub after_task_succeeded-IsBalanced :
      (s : Store)
      → Ledger (just t.execution_id 1) nobody s
      → After (λ _. IsBalanced) (after_task_succeeded reference d t now s)
  unfolding after_task_succeeded
  after_task_succeeded-IsBalanced s v =
      elim (Option-cases (first (has_id t.execution_id) s.executions)) [
        | inl q ↦ rw q tt
        | inr (x, q) ↦ rw q (
            After-count t.execution_id (pending_less 1 x) _
              (first_passes (has_id t.execution_id) s.executions q)
              (
                pending_less-Ledger nobody t.execution_id s v,
                pending_less-Current t.execution_id s q v,
              ))
      ]
