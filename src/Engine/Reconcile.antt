-- ===== src/Engine/Reconcile.antt =====
-- src/workflow/engine.js, reconcile: the sweeps that make Redis agree with MongoDB. `now` is the
-- caller's clock and `db_now` MongoDB's. `date < now - stale` is written without a difference.
use ai_distributed_workflow.Base.{
  ℕ, suc, ◌+◌, Bool, true, false, Option, none, some, List, [], ◌∷◌, ◌==◌, ◌&&◌, ltb, if◌then◌else◌,
}
use ai_distributed_workflow.Base.Result.{Result, ok, err}
use ai_distributed_workflow.Mongo.Driver.{Mongo}
use ai_distributed_workflow.Workflow.States.{ExecutionStatus as E, TaskStatus as T, same_task}
use ai_distributed_workflow.Engine.Model.{Execution, Task, Approval, Deps, Failure}
use ai_distributed_workflow.Engine.Actions.{
  Act, ◌>>=◌, pure, find_execution, find_some_tasks, find_some_approvals, enqueue_safely,
}
use ai_distributed_workflow.Engine.Tasks.{expired_at}
use ai_distributed_workflow.Engine.Dispatch.{has_id, is_running, dispatch_task, count_rounds}
use ai_distributed_workflow.Engine.Control.{is_pending}
use ai_distributed_workflow.Engine.Approve.{expire, resolve_approval}

pub record Counts : Type 0 where
  pub ready : ℕ
  pub queued : ℕ
  pub running : ℕ
  pub retrying : ℕ
  pub expired_approvals : ℕ

-- `{ $lt: cutoff }` in a filter: null matches no order.
abbrev pub older_than : Option ℕ → ℕ → ℕ → Bool
older_than none stale now = false
older_than (some t) stale now = ltb (t + stale) now

-- statusOf
abbrev pub Statuses : Type 0
Statuses = List (ℕ × Option E)

abbrev pub known : ℕ → Statuses → Option (Option E)
known id [] = none
known id ((j, s) ∷ m) = let rest = known id m in if j == id then some s else rest

abbrev pub status_of : Option Execution → Option E
status_of none = none
status_of (some x) = some x.status

abbrev pub running_status : Option E → Bool
running_status none = false
running_status (some s) = is_running s

-- try { … } catch: what was thrown is logged.
abbrev pub or_false : Result Failure Bool → Bool
or_false (ok b) = b
or_false (err e) = false

abbrev pub attempt : Act Bool → Act Bool
attempt a s = let (r, s') = a s in (ok (or_false r), s')

module _ (m : Mongo) (d : Deps) where
  abbrev pub lookup_status : ℕ → Statuses → Act (Option E × Statuses)
  lookup_status id cache = elim (known id cache) [
    | some s ↦ pure (s, cache)
    | none ↦ do x ← find_execution m (has_id id); pure (status_of x, (id, status_of x) ∷ cache)
  ]

  unfoldable pub dispatch_stuck : ℕ → List Task → Statuses → ℕ → Act ℕ
  unfolding dispatch_task
  dispatch_stuck now [] cache n = pure n
  dispatch_stuck now (t ∷ ts) cache n = do
    found ← lookup_status t.execution_id cache
    won ← if running_status found.0 then dispatch_task m d now t else pure false
    dispatch_stuck now ts found.1 (if won then suc n else n)

  abbrev pub expire_one : ℕ → ℕ → Approval → Act Bool
  expire_one now later a = attempt (
      resolve_approval m d a.id (λ _. true)
        (record { decision = expire; decided_by = none; decided_at = now; comment = none }) later)

  unfoldable pub expire_approvals : ℕ → ℕ → ℕ → Act ℕ
  unfolding resolve_approval count_rounds
  expire_approvals limit now later = do
    overdue ← find_some_approvals m (λ a. is_pending a.status && ltb a.expires_at now) limit
    count_rounds (expire_one now later) overdue 0

  unfoldable pub reconcile : ℕ → ℕ → ℕ → ℕ → ℕ → Act Counts
  unfolding dispatch_stuck expire_approvals enqueue_safely count_rounds
  reconcile stale limit now db_now later = do
    stuck ←
        find_some_tasks m (λ t. same_task t.status T.ready && older_than t.ready_at stale now) limit
    ready ← dispatch_stuck later stuck [] 0
    stale_queued ←
        find_some_tasks m (λ t. same_task t.status T.queued && older_than t.queued_at stale now)
          limit
    queued ← count_rounds (enqueue_safely d) stale_queued 0
    lapsed ←
        find_some_tasks m
          (λ t. same_task t.status T.running && expired_at t.lease_expires_at db_now) limit
    running ← count_rounds (enqueue_safely d) lapsed 0
    overdue ←
        find_some_tasks m (λ t. same_task t.status T.retrying && older_than t.retry_at stale now)
          limit
    retrying ← count_rounds (enqueue_safely d) overdue 0
    expired ← if d.has_approvals then expire_approvals limit later later else pure 0
    pure (record {
      ready = ready;
      queued = queued;
      running = running;
      retrying = retrying;
      expired_approvals = expired;
    })
