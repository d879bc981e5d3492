-- ===== src/Engine/Ledger/Claim.antt =====
-- The invariant of Engine/Ledger and startTask and renewLease, in src/workflow/engine.js.
use ai_distributed_workflow.Base.{
  refl, ℕ, true, if◌then◌else◌, Option, none, some, ◌==◌, ◌&&◌, ◌+◌, String, ltb, ◌||◌, Bool-cases,
  any, ◌≡◌, inl, inr, arith,
}
use ai_distributed_workflow.Engine.Actions.{◌>>◌, pure, Act, insert_attempt, emit, update_attempts}
use ai_distributed_workflow.Workflow.States.{
  TaskStatus as T, can_transition, assert_transition, same_task,
}
use ai_distributed_workflow.Engine.Model.{Deps, Attempt, Task, task_started}
use ai_distributed_workflow.Engine.Claim.{
  renew_lease, start_task, start_rest, gather, Claimed, new_attempt, left_open, exceeded, abandon,
}
use ai_distributed_workflow.Engine.Tasks.{
  claim_task, renew_task_lease, claimed_by, claimable, holds_lease,
}
use ai_distributed_workflow.Engine.Ledger.Steps.{
  SameStanding, KeepsIdentity, Ledger-change_first, Moves-first,
}
use ai_distributed_workflow.Engine.After.{Keeps, Keeps-bind, Keeps-if}
use ai_distributed_workflow.Engine.Ledger.{IsBalanced, is_unfinished, nowhere, is_broken, nobody}
use ai_distributed_workflow.Mongo.Reference.{reference}
use ai_distributed_workflow.Engine.Report.{fail_task}
use ai_distributed_workflow.Engine.Ledger.Success.{Ledger-outside, emit-Ledger}
use ai_distributed_workflow.Engine.Ledger.Fail.{fail_task-IsBalanced}

claimed_by-KeepsIdentity :
    (worker : String) (lease now : ℕ) → KeepsIdentity (claimed_by worker lease now)
claimed_by-KeepsIdentity worker lease now = record { same_id = λ t. refl; same_run = λ t. refl }

claimed-standing :
    (id now : ℕ) (worker : String) (lease : ℕ)
    → SameStanding (claimable id now) (claimed_by worker lease now)
claimed-standing id now worker lease t h = by_status t.status (ground (arith, h))
  where
    by_status :
        (st : T)
        → (same_task st T.queued || (same_task st T.retrying || same_task st T.running)) ≡ true
        → (is_unfinished T.running ≡ is_unfinished st) × (is_broken T.running ≡ is_broken st)
    by_status T.pending q = (refl, refl)
    by_status T.ready q = (refl, refl)
    by_status T.queued q = (refl, refl)
    by_status T.running q = (refl, refl)
    by_status T.retrying q = (refl, refl)
    by_status T.waiting_for_approval q = (refl, refl)
    by_status T.completed q = absurd (ground (arith, q))
    by_status T.failed q = absurd (ground (arith, q))
    by_status T.dead_letter q = absurd (ground (arith, q))
    by_status T.cancelled q = absurd (ground (arith, q))

claim_task-IsBalanced :
    (id : ℕ) (worker : String) (lease now : ℕ)
    → Keeps IsBalanced (claim_task reference id worker lease now)
unfolding claim_task can_transition assert_transition
claim_task-IsBalanced id worker lease now s v =
    Ledger-change_first (claimable id now) (claimed_by worker lease now)
      (claimed_by-KeepsIdentity worker lease now) s
      (Moves-first nowhere nobody (claimable id now) (claimed_by worker lease now)
        (claimed_by-KeepsIdentity worker lease now) (claimed-standing id now worker lease) s.tasks)
      v

insert_attempt-IsBalanced : (a : Attempt) → Keeps IsBalanced (insert_attempt reference a)
insert_attempt-IsBalanced a s v =
    elim (Bool-cases (any (λ y. a.task_id == y.task_id && a.attempt == y.attempt) s.attempts)) [
      | inl q ↦ rw (q, insert_attempt) v
      | inr q ↦ rw (q, insert_attempt) (Ledger-outside s _ s.approvals s.outbox s.calls s.sent v)
    ]

module _ (d : Deps) (worker : String) (now : ℕ) (t : Task) where
  abbrev abandoned : Act ℕ
  abandoned = update_attempts reference (left_open t.id t.attempt) (abandon now)

  abbrev too_many : Act (Option Claimed)
  too_many = do fail_task reference d t.id t.lease_token (exceeded t.max_attempts) now; pure none

  abbrev after_event : Act (Option Claimed)
  after_event = if ltb t.max_attempts t.attempt then too_many else gather reference d t

  abbrev started_event : Act (Unit {0})
  started_event = emit reference d t.execution_id (task_started t.id t.key t.attempt worker)

  too_many-IsBalanced : Keeps IsBalanced too_many
  too_many-IsBalanced =
      Keeps-bind IsBalanced (fail_task reference d t.id t.lease_token (exceeded t.max_attempts) now)
        (λ _. pure none) (fail_task-IsBalanced d t.id t.lease_token (exceeded t.max_attempts) now)
        (λ _ s v. v)

  gather-IsBalanced : Keeps IsBalanced (gather reference d t)
  unfolding gather
  gather-IsBalanced s v = v

  start_rest-IsBalanced : Keeps IsBalanced (start_rest reference d worker now t)
  unfolding start_rest
  start_rest-IsBalanced =
      Keeps-bind IsBalanced abandoned
        (λ _. insert_attempt reference (new_attempt t worker) >> (started_event >> after_event))
        (λ s v. Ledger-outside s _ s.approvals s.outbox s.calls s.sent v)
        λ _.
          Keeps-bind IsBalanced (insert_attempt reference (new_attempt t worker))
            (λ _. started_event >> after_event) (insert_attempt-IsBalanced (new_attempt t worker))
            λ _.
              Keeps-bind IsBalanced started_event (λ _. after_event)
                (emit-Ledger d t.execution_id _)
                λ _.
                  Keeps-if IsBalanced (ltb t.max_attempts t.attempt) too_many (gather reference d t)
                    too_many-IsBalanced gather-IsBalanced

pub start_task-IsBalanced :
    (d : Deps) (id : ℕ) (worker : String) (db_now now : ℕ)
    → Keeps IsBalanced (start_task reference d id worker db_now now)
unfolding start_task
start_task-IsBalanced d id worker db_now now =
    Keeps-bind IsBalanced (claim_task reference id worker d.lease_ms db_now)
      (λ claimed. elim claimed [ none ↦ pure none | some t ↦ start_rest reference d worker now t ])
      (claim_task-IsBalanced id worker d.lease_ms db_now) claimed_or_not
  where
    claimed_or_not :
        (claimed : Option Task)
        → Keeps {A = Option Claimed} IsBalanced
            (elim claimed [ none ↦ pure none | some t ↦ start_rest reference d worker now t ])
    claimed_or_not none s v = v
    claimed_or_not (some t) s v = start_rest-IsBalanced d worker now t s v

pub renew_lease-IsBalanced :
    (d : Deps) (id token db_now : ℕ) → Keeps IsBalanced (renew_lease reference d id token db_now)
unfolding renew_lease renew_task_lease
renew_lease-IsBalanced d id token db_now s v =
    Ledger-change_first (holds_lease id token)
      (λ t. record t { lease_expires_at = some (db_now + d.lease_ms) })
      (record { same_id = λ t. refl; same_run = λ t. refl }) s
      (Moves-first nowhere nobody (holds_lease id token)
        (λ t. record t { lease_expires_at = some (db_now + d.lease_ms) })
        (record { same_id = λ t. refl; same_run = λ t. refl }) (λ t h. (refl, refl)) s.tasks)
      v
