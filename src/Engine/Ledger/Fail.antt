-- ===== src/Engine/Ledger/Fail.antt =====
-- The invariant of Engine/Ledger and failTask, in src/workflow/engine.js.
use ai_distributed_workflow.Base.{
  true, false, if◌then◌else◌, ◌∙◌, ◌+◌, refl, ℕ, Bool, first, ◌≡◌, some, ◌+◌, first_same, arith,
  sym, Option-cases, inl, inr, ◌&&◌, ltb, not,
}
use ai_distributed_workflow.Workflow.States.{TaskStatus as T, can_transition}
use ai_distributed_workflow.Engine.Actions.{
  ◌>>◌, update_attempt, emit, pure, enqueue_retry_safely, set_attempts, send,
}
use ai_distributed_workflow.Engine.Model.{
  Deps, Task, Attempt, Store, TaskError, task_retrying, enqueued_later, enqueued,
}
use ai_distributed_workflow.Engine.Report.{
  retry_rest, terminal_rest, park, has_token, retrying_from, failed_with, ended, retrying, ignored,
  fail_body, fail_task, fail_rest, Failed, schedule_retry, attempt_of, fail_attempt, full_message,
  failed_status,
}
use ai_distributed_workflow.Engine.After.{
  Keeps, After, Keeps-bind, After-bind, Keeps-After, Keeps-if, Keeps-transaction,
}
use ai_distributed_workflow.Engine.Ledger.{Ledger, IsBalanced, just, only, nowhere, nobody}
use ai_distributed_workflow.Engine.Tasks.{holds_lease, in_status, transition_task, to_status}
use ai_distributed_workflow.Mongo.Reference.{reference}
use ai_distributed_workflow.Engine.Ledger.Success.{Ledger-outside, emit-Ledger}
use ai_distributed_workflow.Engine.Transition.{moved, After-transition}
use ai_distributed_workflow.Engine.Ledger.Dispatch.{
  in_status-status, transition-Ledger, send-Ledger,
}
use ai_distributed_workflow.Engine.Outcome.{after_task_failed_for_good, duration, is_live}
use ai_distributed_workflow.Engine.Ledger.Steps.{Ledger-change_first, Moves-failed}
use ai_distributed_workflow.Engine.Ledger.Failure.{after_task_failed_for_good-IsBalanced}
use ai_distributed_workflow.Workers.Retry.{Thrown, is_retryable}
use ai_distributed_workflow.Mongo.Driver.{change_first, at_most}
use ai_distributed_workflow.Engine.Dispatch.{has_id}

-- The attempt log is outside the books.
pub attempts-Ledger :
    {g : ℕ → ℕ} {b : ℕ → Bool} (p : Attempt → Bool) (f : Attempt → Attempt)
    → Keeps (Ledger g b) (update_attempt reference p f)
attempts-Ledger p f s v = Ledger-outside s _ s.approvals s.outbox s.calls s.sent v

park-Ledger :
    {g : ℕ → ℕ} {b : ℕ → Bool} (d : Deps) (id : ℕ) (dead : Bool)
    → Keeps (Ledger g b) (park reference d id (if dead then T.dead_letter else T.failed))
unfolding can_transition
park-Ledger {g} {b} d id true s v =
    transition-Ledger g b id T.failed T.dead_letter (λ _. true) (λ t. t) refl refl refl
      (record { same_id = λ t. refl; same_run = λ t. refl }) s v
park-Ledger d id false s v = v

-- What the lease holder's document says about the compare-and-set that follows.
module _ (d : Deps) (id token : ℕ) (t : Task) where
  abbrev pub Held : Store → Type 0
  Held s = IsBalanced s × (first (holds_lease id token) s.tasks ≡ some t)

  retry_rest-IsBalanced :
      (why : TaskError) (now : ℕ) → Keeps IsBalanced (retry_rest reference d id token t why now)
  unfolding retry_rest can_transition
  retry_rest-IsBalanced why now =
      Keeps-bind IsBalanced
        (transition_task reference id T.running T.retrying (has_token token)
          (retrying_from why (now + d.backoff t.attempt t.base_delay_ms)))
        (λ won.
          if won
          then (do
            emit reference d t.execution_id
                (task_retrying t.id t.key t.attempt (d.backoff t.attempt t.base_delay_ms) why)
            pure (retrying t (d.backoff t.attempt t.base_delay_ms)))
          else pure ignored)
        (transition-Ledger nowhere nobody id T.running T.retrying (has_token token)
          (retrying_from why (now + d.backoff t.attempt t.base_delay_ms)) refl refl refl
          (record { same_id = λ x. refl; same_run = λ x. refl }))
        (λ won.
          Keeps-if IsBalanced won _ _
            (Keeps-bind IsBalanced
              (emit reference d t.execution_id
                (task_retrying t.id t.key t.attempt (d.backoff t.attempt t.base_delay_ms) why))
              (λ _. pure (retrying t (d.backoff t.attempt t.base_delay_ms)))
              (emit-Ledger d t.execution_id _) (λ _ s v. v))
            (λ s v. v))

  -- The held task fails: its run is owed one, and excused.
  failed-Ledger :
      (why : TaskError) (now : ℕ) (s : Store) (t' : Task)
      → Held s
      → first (in_status (has_token token) id T.running) s.tasks ≡ some t'
      → Ledger
          (just t.execution_id 1)
          (only t.execution_id)
          (moved id T.running T.failed (has_token token) (failed_with why now) s)
  failed-Ledger why now s t' (v, held) q =
      let agree =
        first_same (holds_lease id token) (in_status (has_token token) id T.running) s.tasks
          (λ x. ground arith) in
      let hit : first (in_status (has_token token) id T.running) s.tasks ≡ some t =
        sym agree ∙ held in
      let running = in_status-status (has_token token) id T.running s.tasks hit in
      Ledger-change_first (in_status (has_token token) id T.running)
        (to_status (failed_with why now) T.failed)
        (record { same_id = λ x. refl; same_run = λ x. refl }) s
        (Moves-failed (in_status (has_token token) id T.running)
          (to_status (failed_with why now) T.failed)
          (record { same_id = λ x. refl; same_run = λ x. refl }) t.execution_id t refl
          (rw running refl) refl s.tasks hit)
        v

  terminal_rest-IsBalanced :
      (dead : Bool) (why : TaskError) (retryable : Bool) (now : ℕ) (s : Store)
      → Held s
      → After
          (λ _. IsBalanced)
          (terminal_rest reference d id token t
            (if dead then T.dead_letter else T.failed)
            why
            retryable
            now
            s)
  unfolding terminal_rest can_transition
  terminal_rest-IsBalanced dead why retryable now s h =
      After-bind
        (λ won s'.
          if won then Ledger (just t.execution_id 1) (only t.execution_id) s' else IsBalanced s')
        (λ _. IsBalanced)
        (transition_task reference id T.running T.failed (has_token token) (failed_with why now))
        (λ won.
          if won
          then (do
            park reference d id (if dead then T.dead_letter else T.failed)
            after_task_failed_for_good reference d t (if dead then T.dead_letter else T.failed) why
                retryable now
            pure (ended (if dead then T.dead_letter else T.failed)))
          else pure ignored)
        s
        (After-transition
          (λ won s'.
            if won then Ledger (just t.execution_id 1) (only t.execution_id) s' else IsBalanced s')
          id T.running T.failed (has_token token) (failed_with why now) s refl h.0
          (λ t' q. failed-Ledger why now s t' h q))
        by_answer
    where
      by_answer :
          (won : Bool) (s' : Store)
          → (if won then Ledger (just t.execution_id 1) (only t.execution_id) s' else IsBalanced s')
          → After
              (λ _. IsBalanced)
              ((if won
                  then (do
                    park reference d id (if dead then T.dead_letter else T.failed)
                    after_task_failed_for_good reference d t
                        (if dead then T.dead_letter else T.failed)
                        why
                        retryable
                        now
                    pure (ended (if dead then T.dead_letter else T.failed)))
                  else pure ignored)
                s')
      by_answer false s' v = v
      by_answer true s' v =
          After-bind (λ _. Ledger (just t.execution_id 1) (only t.execution_id)) (λ _. IsBalanced)
            (park reference d id (if dead then T.dead_letter else T.failed))
            (λ _. do
              after_task_failed_for_good reference d t (if dead then T.dead_letter else T.failed)
                  why retryable now
              pure (ended (if dead then T.dead_letter else T.failed)))
            s'
            (Keeps-After (Ledger (just t.execution_id 1) (only t.execution_id))
              (park reference d id (if dead then T.dead_letter else T.failed)) s'
              (park-Ledger d id dead) v)
            λ _ s2 v2.
              After-bind (λ _. IsBalanced) (λ _. IsBalanced)
                (after_task_failed_for_good reference d t (if dead then T.dead_letter else T.failed)
                  why retryable now)
                (λ _. pure (ended (if dead then T.dead_letter else T.failed))) s2
                (after_task_failed_for_good-IsBalanced d t _ why retryable now s2 v2)
                (λ _ s3 v3. v3)

  fail_rest-IsBalanced :
      (why : TaskError) (retryable : Bool) (e : Thrown) (now : ℕ) (s : Store)
      → Held s
      → After (λ _. IsBalanced) (fail_rest reference d id token t why retryable e now s)
  unfolding fail_rest
  fail_rest-IsBalanced why retryable e now s (v, held) =
      elim (Option-cases (first (has_id t.execution_id) s.executions)) [
        | inl q ↦ rw q tt
        | inr (x, q) ↦ rw q (
            by_answer (retryable && (ltb t.attempt t.max_attempts && is_live x.status))
              (retryable && not (ltb t.attempt t.max_attempts)))
      ]
    where
      s' : Store
      s' =
          set_attempts
            (change_first (attempt_of id t.attempt)
              (fail_attempt (failed_status e) now (duration t.started_at now) why retryable)
              s.attempts)
            s

      held' : Held s'
      held' = (Ledger-outside s s'.attempts s.approvals s.outbox s.calls s.sent v, held)

      by_answer :
          (again dead : Bool)
          → After
              (λ _. IsBalanced)
              ((if again
                  then retry_rest reference d id token t why now
                  else terminal_rest reference d id token t
                      (if dead then T.dead_letter else T.failed)
                      why
                      retryable
                      now)
                s')
      by_answer true dead =
          Keeps-After IsBalanced (retry_rest reference d id token t why now) s'
            (retry_rest-IsBalanced why now) held'.0
      by_answer false dead = terminal_rest-IsBalanced dead why retryable now s' held'

fail_body-IsBalanced :
    (d : Deps) (id token : ℕ) (e : Thrown) (now : ℕ) (s : Store)
    → IsBalanced s
    → After (λ _. IsBalanced) (fail_body reference d id token e now s)
unfolding fail_body
fail_body-IsBalanced d id token e now s v =
    elim (Option-cases (first (holds_lease id token) s.tasks)) [
      | inl q ↦ rw q v
      | inr (t, q) ↦ rw q (
          fail_rest-IsBalanced d id token t (TaskError.message (at_most 2000 (full_message e)))
            (is_retryable e) e now s (v, q))
    ]

pub fail_task-IsBalanced :
    (d : Deps) (id token : ℕ) (e : Thrown) (now : ℕ)
    → Keeps IsBalanced (fail_task reference d id token e now)
unfolding fail_task enqueue_retry_safely
fail_task-IsBalanced d id token e now =
    Keeps-bind IsBalanced (reference.transaction (fail_body reference d id token e now))
      (λ result. do schedule_retry reference d result; pure result)
      (Keeps-transaction IsBalanced (fail_body reference d id token e now)
        (fail_body-IsBalanced d id token e now))
      (λ result.
        Keeps-bind IsBalanced (schedule_retry reference d result) (λ _. pure result)
          (schedule-Keeps result) (λ _ s v. v))
  where
    schedule-Keeps : (result : Failed) → Keeps IsBalanced (schedule_retry reference d result)
    schedule-Keeps ignored s v = v
    schedule-Keeps (ended to) s v = v
    schedule-Keeps (retrying t delay) s v =
        Keeps-bind IsBalanced
          (send d (if d.has_delayed then enqueued_later t.id delay else enqueued t.id))
          (λ _. pure tt) (send-Ledger d _) (λ _ s' v'. v') s v
