-- ===== src/Engine/Approve.antt =====
-- src/workflow/engine.js, suspendForApproval and resolveApproval: a task waits for a human.
use ai_distributed_workflow.Base.{
  ℕ, ◌+◌, Bool, true, false, Option, none, some, [], String, ◌==◌, ◌&&◌, if◌then◌else◌,
}
use ai_distributed_workflow.Base.Text.{codes}
use ai_distributed_workflow.Mongo.Driver.{Mongo}
use ai_distributed_workflow.Workflow.States.{TaskStatus as T}
use ai_distributed_workflow.Engine.Model.{
  Task, TaskError, approval_timed_out, rejected_by_approver, Text, approved, AttemptStatus,
  Approval, ApprovalStatus, Deps, approval_requested, approval_decided, approvals_not_configured,
  approval_not_actionable,
}
use ai_distributed_workflow.Engine.Actions.{
  Act, ◌>>=◌, ◌>>◌, pure, throw, or_throw, draw_id, find_task, update_attempt, change_approval,
  insert_approval, emit,
}
use ai_distributed_workflow.Engine.Tasks.{transition_task}
use ai_distributed_workflow.Engine.Dispatch.{dispatch_ready}
use ai_distributed_workflow.Engine.Outcome.{
  duration, after_task_succeeded, after_task_failed_for_good,
}
use ai_distributed_workflow.Engine.Control.{is_pending}
use ai_distributed_workflow.Engine.Report.{task_with_id, has_token, attempt_of, end_attempt}

abbrev pub without_lease : Task → Task
without_lease t = record t { lease_owner = none; lease_expires_at = none }

abbrev pub new_approval : ℕ → Task → String → ℕ → Approval
new_approval id t request expires_at = record {
  id = id;
  task_id = t.id;
  execution_id = t.execution_id;
  owner_id = t.owner_id;
  task_key = t.key;
  request = request;
  status = ApprovalStatus.pending;
  decided_by = none;
  decided_at = none;
  comment = none;
  expires_at = expires_at;
}

pub data Decision : Type 0 where
  approve reject expire : Decision

abbrev pub status_of : Decision → ApprovalStatus
status_of approve = ApprovalStatus.approved
status_of reject = ApprovalStatus.rejected
status_of expire = ApprovalStatus.expired

-- Who decided, when and with what comment.
pub record Verdict : Type 0 where
  pub decision : Decision
  pub decided_by : Option ℕ
  pub decided_at : ℕ
  pub comment : Option Text

abbrev pub undecided : ℕ → (Approval → Bool) → Approval → Bool
undecided id scope a = a.id == id && (is_pending a.status && scope a)

abbrev pub decided : Verdict → Approval → Approval
decided v a = record a {
  status = status_of v.decision;
  decided_by = v.decided_by;
  decided_at = some v.decided_at;
  comment = v.comment;
}

abbrev pub next_status : Decision → T
next_status approve = T.completed
next_status _ = T.failed

-- An empty comment is falsy.
abbrev pub truthy : Option Text → Option Text
truthy (some []) = none
truthy c = c

abbrev pub refusal : Decision → Option Text → TaskError
refusal expire comment = approval_timed_out
refusal _ comment = rejected_by_approver (truthy comment)

abbrev pub decided_task : Verdict → Decision → Task → Task
decided_task v approve t = record t {
  output = some (approved v.decided_by v.comment v.decided_at);
  completed_at = some v.decided_at;
}
decided_task v x t = record t {
  error = some (refusal x v.comment);
  completed_at = some v.decided_at;
}

-- `${task.error}`
abbrev pub shown : Option TaskError → TaskError
shown none = TaskError.message (codes "null")
shown (some e) = e

module _ (m : Mongo) (d : Deps) where
  unfoldable pub suspend_rest : ℕ → String → ℕ → ℕ → Act Bool
  unfolding emit
  suspend_rest id request timeout_ms finished_at = do
    reread ← find_task m (task_with_id id)
    t ← or_throw reread
    update_attempt m (attempt_of id t.attempt)
        (end_attempt AttemptStatus.suspended finished_at (duration t.started_at finished_at))
    approval_id ← draw_id
    insert_approval m (new_approval approval_id t request (finished_at + timeout_ms))
    emit m d t.execution_id (approval_requested approval_id t.id t.key (finished_at + timeout_ms))
    pure true

  unfoldable pub suspend_body : ℕ → ℕ → String → ℕ → ℕ → Act Bool
  unfolding transition_task suspend_rest
  suspend_body id token request timeout_ms finished_at = do
    won ← transition_task m id T.running T.waiting_for_approval (has_token token) without_lease
    if won then suspend_rest id request timeout_ms finished_at else pure false

  unfoldable pub suspend_for_approval : ℕ → ℕ → String → ℕ → ℕ → Act Bool
  unfolding suspend_body
  suspend_for_approval id token request timeout_ms finished_at =
      if d.has_approvals
      then m.transaction (suspend_body id token request timeout_ms finished_at)
      else throw approvals_not_configured

  -- The success or the fail-fast path of the task.
  abbrev pub follow_up : Decision → Task → ℕ → Act (Unit {0})
  follow_up approve t now = after_task_succeeded m d t now
  follow_up _ t now = after_task_failed_for_good m d t T.failed (shown t.error) false now

  unfoldable pub resolve_rest : Verdict → Approval → Act (Option ℕ)
  unfolding transition_task after_task_succeeded after_task_failed_for_good emit codes
  resolve_rest v a = do
    won ←
        transition_task m a.task_id T.waiting_for_approval (next_status v.decision) (λ _. true)
          (decided_task v v.decision)
    if won then pure tt else throw approval_not_actionable
    reread ← find_task m (task_with_id a.task_id)
    t ← or_throw reread
    follow_up v.decision t v.decided_at
    emit m d t.execution_id (approval_decided (status_of v.decision) a.id t.key v.decided_by)
    pure (some t.execution_id)

  -- The execution of the task, if this call decided.
  unfoldable pub resolve_body : ℕ → (Approval → Bool) → Verdict → Act (Option ℕ)
  unfolding resolve_rest
  resolve_body id scope v = do
    won ← change_approval m (undecided id scope) (decided v)
    elim won [ none ↦ pure none | some a ↦ resolve_rest v a ]

  abbrev pub dispatch_after : Decision → Option ℕ → ℕ → Act Bool
  dispatch_after approve (some execution_id) later = do
    dispatch_ready m d later execution_id
    pure true
  dispatch_after _ (some execution_id) later = pure true
  dispatch_after _ none later = pure false

  -- Whether the decision was recorded.
  unfoldable pub resolve_approval : ℕ → (Approval → Bool) → Verdict → ℕ → Act Bool
  unfolding resolve_body dispatch_ready
  resolve_approval id scope v later =
      if d.has_approvals
      then (do
        outcome ← m.transaction (resolve_body id scope v)
        dispatch_after v.decision outcome later)
      else throw approvals_not_configured
