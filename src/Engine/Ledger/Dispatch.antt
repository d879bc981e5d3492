-- ===== src/Engine/Ledger/Dispatch.antt =====
-- The invariant of Engine/Ledger and dispatchReady of src/workflow/engine.js, and changes of status
-- between unfinished ones.
use ai_distributed_workflow.Base.{
  if◌then◌else◌, suc, keep, ℕ, ◌≡◌, Bool, true, false, List, [], ◌∷◌, refl, first, some, Bool-cases,
  inl, arith, inr,
}
use ai_distributed_workflow.Mongo.Reference.{reference}
use ai_distributed_workflow.Workflow.States.{TaskStatus as T, task, can_transition}
use ai_distributed_workflow.Engine.Model.{Task, Store, Deps, Sent, enqueued}
use ai_distributed_workflow.Engine.After.{Keeps, Keeps-when, Keeps-bind, Keeps-if}
use ai_distributed_workflow.Engine.Ledger.{Ledger, is_unfinished, is_broken}
use ai_distributed_workflow.Engine.Dispatch.{
  dispatch_ready, count_rounds, dispatch_task, status_in, is_running, has_id, task_in,
}
use ai_distributed_workflow.Engine.Ledger.Steps.{
  KeepsIdentity, SameStanding, Ledger-change_first, Moves-first,
}
use ai_distributed_workflow.Engine.Actions.{
  Act, send, enqueue_safely, ◌>>=◌, ◌>>◌, pure, find_tasks,
}
use ai_distributed_workflow.Engine.Tasks.{in_status, to_status, transition_task}
use ai_distributed_workflow.Mongo.Counting.{first_passes}
use ai_distributed_workflow.Workflow.States.Laws.{same_task-eq}
use ai_distributed_workflow.Engine.Ledger.Success.{Ledger-outside}
use ai_distributed_workflow.Engine.Transition.{Keeps-transition}

pub to_status-KeepsIdentity :
    (set : Task → Task) (to : T) → KeepsIdentity set → KeepsIdentity (to_status set to)
to_status-KeepsIdentity set to k = record { same_id = k.same_id; same_run = k.same_run }

-- What is known of the document that a compare-and-set matched.
pub in_status-status :
    (extra : Task → Bool) (id : ℕ) (from : T) (ts : List Task) {t : Task}
    → first (in_status extra id from) ts ≡ some t
    → t.status ≡ from
in_status-status extra id from ts {t} q =
    let passes : in_status extra id from t ≡ true = first_passes (in_status extra id from) ts q in
    same_task-eq t.status from (ground arith)

pub transition-Ledger :
    (g : ℕ → ℕ) (b : ℕ → Bool) (id : ℕ) (from to : T) (extra : Task → Bool) (set : Task → Task)
    → can_transition task from to ≡ true
    → is_unfinished to ≡ is_unfinished from
    → is_broken to ≡ is_broken from
    → KeepsIdentity set
    → Keeps (Ledger g b) (transition_task reference id from to extra set)
transition-Ledger g b id from to extra set legal same_u same_b k =
    Keeps-transition (Ledger g b) id from to extra set legal λ s t q v.
      Ledger-change_first (in_status extra id from) (to_status set to)
        (to_status-KeepsIdentity set to k) s
        (Moves-first g b (in_status extra id from) (to_status set to)
          (to_status-KeepsIdentity set to k) standing s.tasks)
        v
  where
    standing : SameStanding (in_status extra id from) (to_status set to)
    standing t h =
        let same : t.status ≡ from = same_task-eq t.status from (ground arith) in
        (rw same same_u, rw same same_b)

pub send-Ledger : {g : ℕ → ℕ} {b : ℕ → Bool} (d : Deps) (x : Sent) → Keeps (Ledger g b) (send d x)
send-Ledger d x s v = elim (Bool-cases (d.redis_up s.calls)) [
  | inl e ↦ rw e (Ledger-outside s s.attempts s.approvals s.outbox _ _ v)
  | inr e ↦ rw e (Ledger-outside s s.attempts s.approvals s.outbox _ _ v)
]

pub Keeps-count_rounds {ℓ} :
    {A : Type 0} (P : Store → Type ℓ) (body : A → Act Bool) (xs : List A) (n : ℕ)
    → ((x : A) → Keeps P (body x))
    → Keeps P (count_rounds body xs n)
unfolding count_rounds
Keeps-count_rounds P body [] n k s h = h
Keeps-count_rounds P body (x ∷ xs) n k s h =
    Keeps-bind P (body x) (λ won. count_rounds body xs (if won then suc n else n)) (k x)
      (λ won. Keeps-count_rounds P body xs (if won then suc n else n) k) s h

queued_from_ready : (now : ℕ) → KeepsIdentity (λ x. record x { queued_at = some now })
queued_from_ready now = record { same_id = λ t. refl; same_run = λ t. refl }

pub dispatch_task-Ledger :
    {g : ℕ → ℕ} {b : ℕ → Bool} (d : Deps) (now : ℕ) (t : Task)
    → Keeps (Ledger g b) (dispatch_task reference d now t)
unfolding dispatch_task enqueue_safely can_transition
dispatch_task-Ledger {g} {b} d now t =
    Keeps-bind (Ledger g b)
      (transition_task reference t.id T.ready T.queued (λ _. true)
        (λ x. record x { queued_at = some now }))
      (λ won. if won then (do enqueue_safely d t; pure true) else pure false)
      (transition-Ledger g b t.id T.ready T.queued (λ _. true)
        (λ x. record x { queued_at = some now }) refl refl refl (queued_from_ready now))
      λ won.
        Keeps-if (Ledger g b) won (do enqueue_safely d t; pure true) (pure false)
          (Keeps-bind (Ledger g b) (enqueue_safely d t) (λ _. pure true)
            (send-Ledger d (enqueued t.id)) (λ _ s v. v))
          (λ s v. v)

pub dispatch_ready-Ledger :
    {g : ℕ → ℕ} {b : ℕ → Bool} (d : Deps) (now id : ℕ)
    → Keeps (Ledger g b) (dispatch_ready reference d now id)
unfolding dispatch_ready
dispatch_ready-Ledger {g} {b} d now id s =
    Keeps-when (Ledger g b) (status_in is_running (first (has_id id) s.executions))
      (do
        ready ← find_tasks reference (task_in id T.ready)
        count_rounds (dispatch_task reference d now) ready 0
        pure tt)
      (λ s' v.
        Keeps-bind (Ledger g b)
          (count_rounds (dispatch_task reference d now) (keep (task_in id T.ready) s'.tasks) 0)
          (λ _. pure tt)
          (Keeps-count_rounds (Ledger g b) (dispatch_task reference d now)
            (keep (task_in id T.ready) s'.tasks) 0 (dispatch_task-Ledger d now))
          (λ _ s'' v''. v'') s' v)
      s
