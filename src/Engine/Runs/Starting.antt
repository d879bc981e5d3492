-- ===== src/Engine/Runs/Starting.antt =====
-- A start of src/workflow/engine.js, startExecution, that no unique index refuses.
use ai_distributed_workflow.Base.{
  ℕ, suc, ◌≡◌, ◌<◌, ◌==◌, ◌&&◌, Bool, false, some, List, [], ◌∷◌, ◌++◌, String, All, All-append,
  All-map_of, map, any, arith, sym, refl, same_iff, ◌∙◌, ap, Bool-cases, ◌+◌, length, inl, first,
  inr, true, if◌then◌else◌, keep,
}
use ai_distributed_workflow.Base.Dict.{has}
use ai_distributed_workflow.Mongo.Driver.{store, store_all}
use ai_distributed_workflow.Mongo.Counting.{append_snoc, append_nil}
use ai_distributed_workflow.Workflow.Dag.{Children, keys}
use ai_distributed_workflow.Workflow.Dag.Sets.{Unique}
use ai_distributed_workflow.Engine.Model.{
  Store, Task, Deps, Execution, Payload, enqueued, execution_started, Event,
}
use ai_distributed_workflow.Engine.Start.{
  TaskDef, node_of, task_clash, Workflow, Request, key_clash, new_execution, start_body, store_run,
  store_tasks, start_execution,
}
use ai_distributed_workflow.Engine.Ledger.Start.{drawn, new_tasks-drawn}
use ai_distributed_workflow.Engine.Dispatch.{
  dispatch_ready, dispatch_task, status_in, is_running, has_id, task_in, count_rounds,
}
use ai_distributed_workflow.Engine.Actions.{
  emit, enqueue_safely, send, ◌>>=◌, find_tasks, ◌>>◌, pure,
}
use ai_distributed_workflow.Engine.After.{Keeps, Keeps-when, Keeps-bind, Keeps-if}
use ai_distributed_workflow.Workflow.Validate.{Report, validate_dag}
use ai_distributed_workflow.Workflow.Dag.{no_children, add_children}
use ai_distributed_workflow.Base.Result.{ok}
use ai_distributed_workflow.Workflow.States.{TaskStatus as T}
use ai_distributed_workflow.Mongo.Reference.{reference}
use ai_distributed_workflow.Workflow.Validate.Order.{valid_iff, structural_errors-IsClean}
use ai_distributed_workflow.Engine.Ledger.{IsBalanced}
use ai_distributed_workflow.Workflow.States.{can_transition}
use ai_distributed_workflow.Engine.Tasks.{transition_task}
use ai_distributed_workflow.Engine.Transition.{Keeps-transition}
use ai_distributed_workflow.Engine.Ledger.Dispatch.{Keeps-count_rounds}

-- The graph of the workflow passes the checks of startExecution.
pub record IsStartable (w : Workflow) : Type 0 where
  pub report : Report
  pub validated : validate_dag (map node_of w.tasks) ≡ some report
  pub valid : report.valid ≡ true
  pub children : Children
  pub linked :
      add_children (map node_of w.tasks) (no_children [] (map node_of w.tasks)) ≡ some children

module _ {A : Type 0} (clash : A → A → Bool) where
  -- Each document clashes with none that is stored before it.
  abbrev pub Clear : List A → List A → Type 0
  Clear [] xs = Unit
  Clear (y ∷ ys) xs = (any (clash y) xs ≡ false) × Clear ys (xs ++ y ∷ [])

  pub store_all-succeeds : (ys xs : List A) → Clear ys xs → store_all clash ys xs ≡ some (xs ++ ys)
  store_all-succeeds [] xs c = ap (λ zs. some zs) (sym (append_nil xs))
  store_all-succeeds (y ∷ ys) xs (h, c) =
      rw (store_all, store, h)
        (store_all-succeeds ys (xs ++ y ∷ []) c ∙ ap (λ zs. some zs) (append_snoc xs y ys))

any_none : {A : Type 0} (p : A → Bool) (xs : List A) → All (λ x. p x ≡ false) xs → any p xs ≡ false
any_none p [] h = refl
any_none p (x ∷ xs) h = ground (arith, h.0, any_none p xs h.1)

-- No task of run `e` has one of the keys.
abbrev Spared : ℕ → List String → Task → Type 0
Spared e ks t = (t.execution_id == e && has t.key ks) ≡ false

Clear-drawn :
    (e owner : ℕ) (ch : Children) (at : ℕ) (defs : List TaskDef) (n : ℕ) (xs : List Task)
    → Unique (keys (map node_of defs))
    → All (Spared e (keys (map node_of defs))) xs
    → Clear task_clash (drawn e owner ch at defs n) xs
unfolding has
Clear-drawn e owner ch at [] n xs u h = tt
Clear-drawn e owner ch at (t ∷ ts) n xs u h = (
  any_none _ xs
      (All-map_of _ _ xs (λ x f. ground (arith, f, same_iff t.key x.key, same_iff x.key t.key)) h),
  Clear-drawn e owner ch at ts (suc n) _ u.1 (
      All-append _ xs _ (All-map_of _ _ xs (λ x f. ground (arith, f)) h) (ground (arith, u.0), tt)),
)

-- All events have ids that were drawn.
abbrev pub Outboxed : Store → Type 0
Outboxed s = All (λ e. e.event_id < s.issued) s.outbox

-- The runs of the store, and an outbox whose ids were drawn.
abbrev pub Settled : List Execution → Store → Type 0
Settled xs s = (s.executions ≡ xs) × Outboxed s

emit-Settled :
    (d : Deps) (id : ℕ) (payload : Payload) (xs : List Execution) (s : Store)
    → Settled xs s
    → (s' : Store) × ((emit reference d id payload s ≡ (ok tt, s')) × Settled xs s')
unfolding emit
emit-Settled d id payload xs s (same_runs, out) = elim (Bool-cases d.has_outbox) [
  | inr off ↦ (s, (rw off refl, (same_runs, out)))
  | inl on ↦
      let e : Event = record { event_id = s.issued; aggregate_id = id; payload = payload } in
      let new =
        any_none (λ y. s.issued == y.event_id) s.outbox
          (All-map_of _ _ s.outbox (λ y h. ground (arith, h)) out) in
      (
        record s { outbox = s.outbox ++ e ∷ []; issued = suc s.issued },
        (
          rw (on, new) refl,
          (
            same_runs,
            All-append _ s.outbox (e ∷ []) (All-map_of _ _ s.outbox (λ y h. ground (arith, h)) out)
                (ground arith, tt),
          ),
        ),
      )
]

dispatch_task-Settled :
    (xs : List Execution) (d : Deps) (now : ℕ) (t : Task)
    → Keeps (Settled xs) (dispatch_task reference d now t)
unfolding dispatch_task enqueue_safely can_transition
dispatch_task-Settled xs d now t =
    Keeps-bind (Settled xs)
      (transition_task reference t.id T.ready T.queued (λ _. true)
        (λ x. record x { queued_at = some now }))
      (λ won. if won then (do enqueue_safely d t; pure true) else pure false)
      (Keeps-transition (Settled xs) t.id T.ready T.queued (λ _. true)
        (λ x. record x { queued_at = some now }) refl (λ s u q h. h))
      λ won.
        Keeps-if (Settled xs) won (do enqueue_safely d t; pure true) (pure false)
          (Keeps-bind (Settled xs) (enqueue_safely d t) (λ _. pure true) sent (λ _ s v. v))
          (λ s v. v)
  where
    sent : Keeps (Settled xs) (send d (enqueued t.id))
    sent s v = elim (Bool-cases (d.redis_up s.calls)) [ inl e ↦ rw e v | inr e ↦ rw e v ]

dispatch_ready-Settled :
    (xs : List Execution) (d : Deps) (now id : ℕ)
    → Keeps (Settled xs) (dispatch_ready reference d now id)
unfolding dispatch_ready
dispatch_ready-Settled xs d now id s =
    Keeps-when (Settled xs) (status_in is_running (first (has_id id) s.executions))
      (do
        ready ← find_tasks reference (task_in id T.ready)
        count_rounds (dispatch_task reference d now) ready 0
        pure tt)
      (λ s' v.
        Keeps-bind (Settled xs)
          (count_rounds (dispatch_task reference d now) (keep (task_in id T.ready) s'.tasks) 0)
          (λ _. pure tt)
          (Keeps-count_rounds (Settled xs) (dispatch_task reference d now)
            (keep (task_in id T.ready) s'.tasks) 0 (dispatch_task-Settled xs d now))
          (λ _ s'' v''. v'') s' v)
      s

IsStartable-Unique : (w : Workflow) → IsStartable w → Unique (keys (map node_of w.tasks))
IsStartable-Unique w g =
    let (clean, _) = (valid_iff (map node_of w.tasks)).0 (g.report, (g.validated, g.valid)) in
    (structural_errors-IsClean (map node_of w.tasks) clean).unique

module _ (d : Deps) (w : Workflow) (r : Request) (at : ℕ) (s : Store) (v : IsBalanced s)
    (out : Outboxed s) (g : IsStartable w)
    (free : any (key_clash (new_execution s.issued w r at)) s.executions ≡ false) where
  abbrev x : Execution
  x = new_execution s.issued w r at

  abbrev ts : List Task
  ts = drawn s.issued w.owner_id g.children at w.tasks (suc s.issued)

  abbrev opened : Store
  opened = record s {
    executions = s.executions ++ x ∷ [];
    tasks = s.tasks ++ ts;
    issued = suc s.issued + length w.tasks;
  }

  drawn-Clear : Clear task_clash ts s.tasks
  drawn-Clear =
      Clear-drawn s.issued w.owner_id g.children at w.tasks (suc s.issued) s.tasks
        (IsStartable-Unique w g)
        (All-map_of _ _ s.tasks (λ t h. ground (arith, h.1)) v.tasks_issued)

  abbrev news : Payload
  news = execution_started w.id w.version (length w.tasks) r.triggered_by r.trigger

  -- After the insert of the run and the draws for its tasks.
  abbrev recorded : Store
  recorded = record s {
    executions = s.executions ++ x ∷ [];
    issued = suc s.issued + length w.tasks;
  }

  tasks_stored : store_tasks reference d ts recorded ≡ (ok tt, opened)
  unfolding store_tasks
  tasks_stored = rw (store_tasks, store_all-succeeds task_clash ts s.tasks drawn-Clear) refl

  start_body-told :
      (s' : Store)
      → emit reference d s.issued news opened ≡ (ok tt, s')
      → start_body reference d w r g.children at s ≡ (ok x, s')
  unfolding start_body store_run
  start_body-told s' sent =
      rw
        (
          free,
          new_tasks-drawn s.issued w.owner_id g.children at w.tasks
              (record s { executions = s.executions ++ x ∷ []; issued = suc s.issued }),
          tasks_stored,
          sent,
        )
        refl

  -- The run is stored, with its tasks and its event.
  pub start_execution-Settled :
      (later : ℕ) → Settled (s.executions ++ x ∷ []) (start_execution reference d w r at later s).1
  unfolding start_execution
  start_execution-Settled later = by_news (
      emit-Settled d s.issued news (s.executions ++ x ∷ []) opened
        (refl, All-map_of _ _ s.outbox (λ y h. ground (arith, h)) out))
    where
      by_news :
          (s' : Store) × ((emit reference d s.issued news opened ≡ (ok tt, s'))
              × Settled (s.executions ++ x ∷ []) s')
          → Settled (s.executions ++ x ∷ []) (start_execution reference d w r at later s).1
      by_news (s', (sent, settled)) =
          rw (g.validated, g.valid, g.linked, start_body-told s' sent)
            (Keeps-bind (Settled (s.executions ++ x ∷ [])) (dispatch_ready reference d later x.id)
              (λ _. pure x) (dispatch_ready-Settled (s.executions ++ x ∷ []) d later x.id)
              (λ _ u v. v) s' settled)
