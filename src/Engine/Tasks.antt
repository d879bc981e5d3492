-- ===== src/Engine/Tasks.antt =====
-- src/repositories/task.repository.js: compare-and-set on the status of a task, the claim with a
-- lease and a fencing token, and the heartbeat. `db_now` is MongoDB's clock, `$$NOW`.
use ai_distributed_workflow.Base.{
  ℕ, suc, ◌+◌, Bool, true, Option, none, some, ◌==◌, ◌&&◌, ◌||◌, ltb, String,
}
use ai_distributed_workflow.Mongo.Driver.{Mongo}
use ai_distributed_workflow.Workflow.States.{TaskStatus as T, task, same_task}
use ai_distributed_workflow.Engine.Model.{Task}
use ai_distributed_workflow.Engine.Actions.{
  Act, ◌>>=◌, ◌>>◌, pure, assert_legal, update_task, change_task,
}

-- `{ $expr: { $lt: [date, now] } }`: null comes before every date.
abbrev pub expired_at : Option ℕ → ℕ → Bool
expired_at none now = true
expired_at (some t) now = ltb t now

-- The filter and the update of transitionTask.
abbrev pub in_status : (Task → Bool) → ℕ → T → Task → Bool
in_status extra id from t = extra t && (t.id == id && same_task t.status from)

abbrev pub to_status : (Task → Task) → T → Task → Task
to_status set to t = record (set t) { status = to }

-- The filter and the update of claimTask.
abbrev pub claimable : ℕ → ℕ → Task → Bool
claimable id db_now t =
    t.id == id
    && (same_task t.status T.queued
        || (same_task t.status T.retrying
            || (same_task t.status T.running && expired_at t.lease_expires_at db_now)))

abbrev pub claimed_by : String → ℕ → ℕ → Task → Task
claimed_by worker lease_ms db_now t = record t {
  status = T.running;
  lease_owner = some worker;
  started_at = some db_now;
  attempt = suc t.attempt;
  lease_token = suc t.lease_token;
  lease_expires_at = some (db_now + lease_ms);
}

abbrev pub holds_lease : ℕ → ℕ → Task → Bool
holds_lease id token t = t.id == id && (same_task t.status T.running && t.lease_token == token)

module _ (m : Mongo) where
  -- transitionTask: `extra` are the conditions of `where`, `set` the changes beside the status. The
  -- count of matched documents is the count of changed ones, since the status changes.
  unfoldable pub transition_task : ℕ → T → T → (Task → Bool) → (Task → Task) → Act Bool
  transition_task id from to extra set = do
    assert_legal task from to
    n ← update_task m (in_status extra id from) (to_status set to)
    pure (n == 1)

  unfoldable pub claim_task : ℕ → String → ℕ → ℕ → Act (Option Task)
  claim_task id worker lease_ms db_now = do
    assert_legal task T.queued T.running
    assert_legal task T.running T.queued
    assert_legal task T.retrying T.queued
    change_task m (claimable id db_now) (claimed_by worker lease_ms db_now)

  unfoldable pub renew_task_lease : ℕ → ℕ → ℕ → ℕ → Act Bool
  renew_task_lease id token lease_ms db_now = do
    n ←
        update_task m (holds_lease id token)
          (λ t. record t { lease_expires_at = some (db_now + lease_ms) })
    pure (n == 1)
