-- ===== src/Engine/Ledger/Approve.antt =====
-- The invariant of Engine/Ledger and suspendForApproval and resolveApproval, in src/workflow/engine.js.
use ai_distributed_workflow.Base.{
  refl, ℕ, true, false, if◌then◌else◌, Option, none, some, Bool, ◌==◌, ◌+◌, String, Option-cases,
  first, Bool-cases, any, inl, inr,
}
use ai_distributed_workflow.Engine.Actions.{
  ◌>>=◌, ◌>>◌, pure, Act, throw, insert_approval, find_task, emit, or_throw, draw_id,
}
use ai_distributed_workflow.Workflow.States.{TaskStatus as T, can_transition}
use ai_distributed_workflow.Engine.Approve.{
  approve, reject, expire, Decision, resolve_body, resolve_approval, suspend_for_approval,
  suspend_body, suspend_rest, Verdict, resolve_rest, next_status, decided_task, follow_up,
  dispatch_after, new_approval, without_lease, undecided, shown, status_of, decided,
}
use ai_distributed_workflow.Engine.Model.{
  Deps, Task, Approval, approval_not_actionable, approvals_not_configured, approval_decided,
  approval_requested,
}
use ai_distributed_workflow.Engine.Ledger.{nobody, Store, only, IsBalanced, Ledger, just, nowhere}
use ai_distributed_workflow.Engine.After.{
  Keeps, After, After-bind, Keeps-bind, Keeps-if, Keeps-transaction, Keeps-After, After-of,
}
use ai_distributed_workflow.Engine.Ledger.Complete.{Ended, completed-Ended, failed-Ended}
use ai_distributed_workflow.Engine.Tasks.{transition_task}
use ai_distributed_workflow.Mongo.Reference.{reference}
use ai_distributed_workflow.Engine.Transition.{After-transition}
use ai_distributed_workflow.Engine.Dispatch.{dispatch_ready}
use ai_distributed_workflow.Engine.Report.{task_with_id, has_token}
use ai_distributed_workflow.Engine.Ledger.Success.{
  after_task_succeeded-IsBalanced, Ledger-outside, emit-Ledger, Ledger-issue,
}
use ai_distributed_workflow.Engine.Ledger.Failure.{after_task_failed_for_good-IsBalanced}
use ai_distributed_workflow.Engine.Ledger.Dispatch.{dispatch_ready-Ledger, transition-Ledger}

-- The approval is stored, or its id is drawn for nothing.
request-IsBalanced :
    (t : Task) (request : String) (expires_at : ℕ) (id : ℕ)
    → Keeps IsBalanced (insert_approval reference (new_approval id t request expires_at))
request-IsBalanced t request expires_at id s v =
    elim (Bool-cases (any (λ y. t.id == y.task_id) s.approvals)) [
      | inl q ↦ rw (q, insert_approval) v
      | inr q ↦ rw (q, insert_approval) (Ledger-outside s s.attempts _ s.outbox s.calls s.sent v)
    ]

suspend_rest-IsBalanced :
    (d : Deps) (id : ℕ) (request : String) (timeout_ms now : ℕ)
    → Keeps IsBalanced (suspend_rest reference d id request timeout_ms now)
unfolding suspend_rest
suspend_rest-IsBalanced d id request timeout_ms now s v =
    elim (Option-cases (first (task_with_id id) s.tasks)) [
      | inl q ↦ rw q v
      | inr (t, q) ↦ rw q (
          Keeps-bind IsBalanced draw_id
            (λ approval_id. do
              insert_approval reference (new_approval approval_id t request (now + timeout_ms))
              emit reference d t.execution_id
                  (approval_requested approval_id t.id t.key (now + timeout_ms))
              pure true)
            Ledger-issue
            (λ approval_id.
              Keeps-bind IsBalanced
                (insert_approval reference (new_approval approval_id t request (now + timeout_ms)))
                (λ _. do
                  emit reference d t.execution_id
                      (approval_requested approval_id t.id t.key (now + timeout_ms))
                  pure true)
                (request-IsBalanced t request (now + timeout_ms) approval_id)
                (λ _.
                  Keeps-bind IsBalanced
                    (emit reference d t.execution_id
                      (approval_requested approval_id t.id t.key (now + timeout_ms)))
                    (λ _. pure true) (emit-Ledger d t.execution_id _) (λ _ s' v'. v')))
            _ (Ledger-outside s _ s.approvals s.outbox s.calls s.sent v))
    ]

suspend_body-IsBalanced :
    (d : Deps) (id token : ℕ) (request : String) (timeout_ms now : ℕ)
    → Keeps IsBalanced (suspend_body reference d id token request timeout_ms now)
unfolding suspend_body can_transition
suspend_body-IsBalanced d id token request timeout_ms now =
    Keeps-bind IsBalanced
      (transition_task reference id T.running T.waiting_for_approval (has_token token)
        without_lease)
      (λ won. if won then suspend_rest reference d id request timeout_ms now else pure false)
      (transition-Ledger nowhere nobody id T.running T.waiting_for_approval (has_token token)
        without_lease refl refl refl (record { same_id = λ t. refl; same_run = λ t. refl }))
      (λ won.
        Keeps-if IsBalanced won (suspend_rest reference d id request timeout_ms now) (pure false)
          (suspend_rest-IsBalanced d id request timeout_ms now) (λ s v. v))

pub suspend_for_approval-IsBalanced :
    (d : Deps) (id token : ℕ) (request : String) (timeout_ms now : ℕ)
    → Keeps IsBalanced (suspend_for_approval reference d id token request timeout_ms now)
unfolding suspend_for_approval
suspend_for_approval-IsBalanced d id token request timeout_ms now =
    Keeps-if IsBalanced d.has_approvals _ (throw approvals_not_configured)
      (Keeps-transaction IsBalanced (suspend_body reference d id token request timeout_ms now)
        (λ s v.
          Keeps-After IsBalanced (suspend_body reference d id token request timeout_ms now) s
            (suspend_body-IsBalanced d id token request timeout_ms now) v))
      (λ s v. v)

-- Which broken tasks a decision leaves to be settled.
abbrev left_broken : Decision → ℕ → ℕ → Bool
left_broken approve e = nobody
left_broken _ e = only e

module _ (d : Deps) (v : Verdict) (a : Approval) where
  follow_up-IsBalanced :
      (c : Decision) (t : Task) (s : Store)
      → Ledger (just t.execution_id 1) (left_broken c t.execution_id) s
      → After (λ _. IsBalanced) (follow_up reference d c t v.decided_at s)
  follow_up-IsBalanced approve t s h = after_task_succeeded-IsBalanced d t v.decided_at s h
  follow_up-IsBalanced reject t s h =
      after_task_failed_for_good-IsBalanced d t T.failed (shown t.error) false v.decided_at s h
  follow_up-IsBalanced expire t s h =
      after_task_failed_for_good-IsBalanced d t T.failed (shown t.error) false v.decided_at s h

  abbrev decide : Decision → Act Bool
  decide c =
      transition_task reference a.task_id T.waiting_for_approval (next_status c) (λ _. true)
        (decided_task v c)

  abbrev after_decision : Decision → Bool → Act (Option ℕ)
  after_decision c won = do
    if won then pure tt else throw approval_not_actionable
    reread ← find_task reference (task_with_id a.task_id)
    t ← or_throw reread
    follow_up reference d c t v.decided_at
    emit reference d t.execution_id (approval_decided (status_of c) a.id t.key v.decided_by)
    pure (some t.execution_id)

  abbrev Decided : Decision → Bool → Store → Type 0
  Decided c true s = Ended (left_broken c) a.task_id s
  Decided c false s = Unit

  decide-Decided : (c : Decision) (s : Store) → IsBalanced s → After (Decided c) (decide c s)
  unfolding can_transition
  decide-Decided approve s h =
      After-transition (Decided approve) a.task_id T.waiting_for_approval T.completed (λ _. true)
        (decided_task v approve) s refl tt
        (λ t q.
          completed-Ended a.task_id T.waiting_for_approval (λ _. true) (decided_task v approve) s t
            refl (record { same_id = λ x. refl; same_run = λ x. refl }) h q)
  decide-Decided reject s h =
      After-transition (Decided reject) a.task_id T.waiting_for_approval T.failed (λ _. true)
        (decided_task v reject) s refl tt
        (λ t q.
          failed-Ended a.task_id T.waiting_for_approval (λ _. true) (decided_task v reject) s t refl
            (record { same_id = λ x. refl; same_run = λ x. refl }) h q)
  decide-Decided expire s h =
      After-transition (Decided expire) a.task_id T.waiting_for_approval T.failed (λ _. true)
        (decided_task v expire) s refl tt
        (λ t q.
          failed-Ended a.task_id T.waiting_for_approval (λ _. true) (decided_task v expire) s t refl
            (record { same_id = λ x. refl; same_run = λ x. refl }) h q)

  after_decision-IsBalanced :
      (c : Decision) (won : Bool) (s : Store)
      → Decided c won s
      → After (λ _. IsBalanced) (after_decision c won s)
  after_decision-IsBalanced c false s h = tt
  after_decision-IsBalanced c true s h = rw h.found (
      After-bind (λ _. IsBalanced) (λ _. IsBalanced) (follow_up reference d c h.task v.decided_at)
        (λ _. do
          emit reference d h.task.execution_id
              (approval_decided (status_of c) a.id h.task.key v.decided_by)
          pure (some h.task.execution_id))
        s (follow_up-IsBalanced c h.task s h.ledger)
        (λ _ s' k. After-of IsBalanced _ (
          Keeps-bind IsBalanced
            (emit reference d h.task.execution_id
              (approval_decided (status_of c) a.id h.task.key v.decided_by))
            (λ _. pure (some h.task.execution_id)) (emit-Ledger d h.task.execution_id _)
            (λ _ s'' k'. k') s' k)))

  resolve_rest-IsBalanced :
      (s : Store) → IsBalanced s → After (λ _. IsBalanced) (resolve_rest reference d v a s)
  unfolding resolve_rest
  resolve_rest-IsBalanced s h =
      After-bind (Decided v.decision) (λ _. IsBalanced) (decide v.decision)
        (after_decision v.decision) s (decide-Decided v.decision s h)
        (after_decision-IsBalanced v.decision)

resolve_body-IsBalanced :
    (d : Deps) (id : ℕ) (scope : Approval → Bool) (v : Verdict) (s : Store)
    → IsBalanced s
    → After (λ _. IsBalanced) (resolve_body reference d id scope v s)
unfolding resolve_body
resolve_body-IsBalanced d id scope v s h =
    elim (Option-cases (first (undecided id scope) s.approvals)) [
      | inl q ↦ rw q (Ledger-outside s s.attempts _ s.outbox s.calls s.sent h)
      | inr (a, q) ↦ rw q (
          resolve_rest-IsBalanced d v (decided v a) _
            (Ledger-outside s s.attempts _ s.outbox s.calls s.sent h))
    ]

pub resolve_approval-IsBalanced :
    (d : Deps) (id : ℕ) (scope : Approval → Bool) (v : Verdict) (later : ℕ)
    → Keeps IsBalanced (resolve_approval reference d id scope v later)
unfolding resolve_approval
resolve_approval-IsBalanced d id scope v later =
    Keeps-if IsBalanced d.has_approvals _ (throw approvals_not_configured)
      (Keeps-bind IsBalanced (reference.transaction (resolve_body reference d id scope v))
        (λ outcome. dispatch_after reference d v.decision outcome later)
        (Keeps-transaction IsBalanced (resolve_body reference d id scope v)
          (resolve_body-IsBalanced d id scope v))
        (dispatched v.decision))
      (λ s h. h)
  where
    dispatched :
        (c : Decision) (outcome : Option ℕ)
        → Keeps IsBalanced (dispatch_after reference d c outcome later)
    dispatched approve (some e) s h =
        Keeps-bind IsBalanced (dispatch_ready reference d later e) (λ _. pure true)
          (dispatch_ready-Ledger d later e) (λ _ s' h'. h') s h
    dispatched approve none s h = h
    dispatched reject (some e) s h = h
    dispatched reject none s h = h
    dispatched expire (some e) s h = h
    dispatched expire none s h = h
