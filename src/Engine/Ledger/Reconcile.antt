-- ===== src/Engine/Ledger/Reconcile.antt =====
-- The invariant of Engine/Ledger and the sweeps of reconcile, in src/workflow/engine.js.
use ai_distributed_workflow.Base.{
  ℕ, true, false, if◌then◌else◌, none, Bool, ◌&&◌, List, [], ◌∷◌, suc, Option-cases, keep, inl, ltb,
  inr,
}
use ai_distributed_workflow.Engine.Actions.{◌>>=◌, pure, enqueue_safely, Act, find_some_tasks}
use ai_distributed_workflow.Engine.Approve.{expire}
use ai_distributed_workflow.Engine.Model.{Deps, Task, enqueued}
use ai_distributed_workflow.Engine.Reconcile.{
  dispatch_stuck, reconcile, expire_approvals, Statuses, lookup_status, expire_one, Counts, known,
  running_status, older_than,
}
use ai_distributed_workflow.Engine.After.{Keeps, Keeps-bind, Keeps-if}
use ai_distributed_workflow.Engine.Ledger.{IsBalanced, T}
use ai_distributed_workflow.Mongo.Reference.{reference}
use ai_distributed_workflow.Engine.Ledger.Dispatch.{
  Keeps-count_rounds, send-Ledger, dispatch_task-Ledger,
}
use ai_distributed_workflow.Mongo.Driver.{limited}
use ai_distributed_workflow.Engine.Dispatch.{count_rounds, dispatch_task}
use ai_distributed_workflow.Workflow.States.{same_task}
use ai_distributed_workflow.Engine.Control.{is_pending}
use ai_distributed_workflow.Engine.Ledger.Approve.{resolve_approval-IsBalanced}
use ai_distributed_workflow.Engine.Tasks.{expired_at}

lookup_status-IsBalanced :
    (d : Deps) (id : ℕ) (cache : Statuses) → Keeps IsBalanced (lookup_status reference d id cache)
lookup_status-IsBalanced d id cache s v = elim (Option-cases (known id cache)) [
  | inl q ↦ rw (q, lookup_status) v
  | inr (x, q) ↦ rw (q, lookup_status) v
]

dispatch_stuck-IsBalanced :
    (d : Deps) (now : ℕ) (ts : List Task) (cache : Statuses) (n : ℕ)
    → Keeps IsBalanced (dispatch_stuck reference d now ts cache n)
unfolding dispatch_stuck
dispatch_stuck-IsBalanced d now [] cache n s v = v
dispatch_stuck-IsBalanced d now (t ∷ ts) cache n s v =
    Keeps-bind IsBalanced (lookup_status reference d t.execution_id cache)
      (λ found. do
        won ← if running_status found.0 then dispatch_task reference d now t else pure false
        dispatch_stuck reference d now ts found.1 (if won then suc n else n))
      (lookup_status-IsBalanced d t.execution_id cache)
      (λ found.
        Keeps-bind IsBalanced
          (if running_status found.0 then dispatch_task reference d now t else pure false)
          (λ won. dispatch_stuck reference d now ts found.1 (if won then suc n else n))
          (Keeps-if IsBalanced (running_status found.0) (dispatch_task reference d now t)
            (pure false) (dispatch_task-Ledger d now t) (λ s' v'. v'))
          (λ won. dispatch_stuck-IsBalanced d now ts found.1 (if won then suc n else n)))
      s v

expire_approvals-IsBalanced :
    (d : Deps) (limit now later : ℕ)
    → Keeps IsBalanced (expire_approvals reference d limit now later)
unfolding expire_approvals
expire_approvals-IsBalanced d limit now later s v =
    Keeps-count_rounds IsBalanced (expire_one reference d now later)
      (limited limit (keep (λ a. is_pending a.status && ltb a.expires_at now) s.approvals)) 0
      (λ a s' v'.
        resolve_approval-IsBalanced d a.id (λ _. true)
          (record { decision = expire; decided_by = none; decided_at = now; comment = none }) later
          s' v')
      s v

module _ (d : Deps) (limit now : ℕ) where
  -- Tasks found by a filter, sent to the queue again.
  abbrev again : (Task → Bool) → Act ℕ
  again p = do ts ← find_some_tasks reference p limit; count_rounds (enqueue_safely d) ts 0

  again-IsBalanced : (p : Task → Bool) → Keeps IsBalanced (again p)
  unfolding enqueue_safely
  again-IsBalanced p s v =
      Keeps-count_rounds IsBalanced (enqueue_safely d) (limited limit (keep p s.tasks)) 0
        (λ t. send-Ledger d (enqueued t.id)) s v

pub reconcile-IsBalanced :
    (d : Deps) (stale limit now db_now later : ℕ)
    → Keeps IsBalanced (reconcile reference d stale limit now db_now later)
unfolding reconcile
reconcile-IsBalanced d stale limit now db_now later s v =
    Keeps-bind IsBalanced
      (dispatch_stuck reference d later
        (limited limit
          (keep (λ t. same_task t.status T.ready && older_than t.ready_at stale now) s.tasks))
        [] 0)
      (λ ready. after_ready ready) (dispatch_stuck-IsBalanced d later _ [] 0)
      (λ ready.
        Keeps-bind IsBalanced
          (again d limit now (λ t. same_task t.status T.queued && older_than t.queued_at stale now))
          (λ queued. after_queued ready queued) (again-IsBalanced d limit now _)
          λ queued.
            Keeps-bind IsBalanced
              (again d limit now
                (λ t. same_task t.status T.running && expired_at t.lease_expires_at db_now))
              (λ running. after_running ready queued running) (again-IsBalanced d limit now _)
              λ running.
                Keeps-bind IsBalanced
                  (again d limit now
                    (λ t. same_task t.status T.retrying && older_than t.retry_at stale now))
                  (λ retrying. after_retrying ready queued running retrying)
                  (again-IsBalanced d limit now _)
                  λ retrying.
                    Keeps-bind IsBalanced sweep
                      (λ expired. counted ready queued running retrying expired)
                      (Keeps-if IsBalanced d.has_approvals
                        (expire_approvals reference d limit later later) (pure 0)
                        (expire_approvals-IsBalanced d limit later later) (λ s' v'. v'))
                      (λ expired s' v'. v'))
      s v
  where
    sweep : Act ℕ
    sweep = if d.has_approvals then expire_approvals reference d limit later later else pure 0

    counted : ℕ → ℕ → ℕ → ℕ → ℕ → Act Counts
    counted ready queued running retrying expired = pure (record {
      ready = ready;
      queued = queued;
      running = running;
      retrying = retrying;
      expired_approvals = expired;
    })

    after_retrying : ℕ → ℕ → ℕ → ℕ → Act Counts
    after_retrying ready queued running retrying = sweep >>= counted ready queued running retrying

    after_running : ℕ → ℕ → ℕ → Act Counts
    after_running ready queued running =
        again d limit now (λ t. same_task t.status T.retrying && older_than t.retry_at stale now)
        >>= after_retrying ready queued running

    after_queued : ℕ → ℕ → Act Counts
    after_queued ready queued =
        again d limit now
          (λ t. same_task t.status T.running && expired_at t.lease_expires_at db_now)
        >>= after_running ready queued

    after_ready : ℕ → Act Counts
    after_ready ready =
        again d limit now (λ t. same_task t.status T.queued && older_than t.queued_at stale now)
        >>= after_queued ready
