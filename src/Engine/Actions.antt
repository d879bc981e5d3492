-- ===== src/Engine/Actions.antt =====
-- The steps of which the engine's functions are made: calls of the driver on one collection of the
-- store, `emit` of src/workflow/engine.js, and the two safe calls of Redis.
use ai_distributed_workflow.Base.{
  ℕ, suc, Bool, true, false, Option, none, some, List, [], ◌∷◌, ◌++◌, ◌==◌, ◌&&◌, if◌then◌else◌,
}
use ai_distributed_workflow.Base.Result.{ok, err, Call, continue}
use ai_distributed_workflow.Mongo.Driver.{Mongo}
use ai_distributed_workflow.Workflow.States.{
  Machine, Status, Asserted, allowed, invalid_transition, assert_transition,
}
use ai_distributed_workflow.Engine.Model.{
  Execution, Task, Attempt, Approval, Event, Payload, Sent, enqueued, enqueued_later, Store,
  Failure, duplicate_key_error, type_error, invalid_transition_error, Deps,
}

abbrev pub Act : Type 0 → Type 0
Act A = Call Store Failure A

infixl 5 ◌>>=◌ ◌>>◌
abbrev pub ◌>>=◌ : {A B : Type 0} → Act A → (A → Act B) → Act B
◌>>=◌ a f s = continue (a s) f

abbrev pub ◌>>◌ : {A B : Type 0} → Act A → Act B → Act B
a >> b = a >>= λ _. b

abbrev pub pure : {A : Type 0} → A → Act A
pure a s = (ok a, s)

abbrev pub throw : {A : Type 0} → Failure → Act A
throw e s = (err e, s)

abbrev pub when : Bool → Act (Unit {0}) → Act (Unit {0})
when true a = a
when false a = pure tt

-- A property of null is read.
abbrev pub or_throw : {A : Type 0} → Option A → Act A
or_throw none = throw type_error
or_throw (some a) = pure a

abbrev pub unless_invalid : {mc : Machine} → Asserted mc → Act (Unit {0})
unless_invalid allowed = pure tt
unless_invalid (invalid_transition _ _) = throw invalid_transition_error

abbrev pub assert_legal : (mc : Machine) → Status mc → Status mc → Act (Unit {0})
assert_legal mc from to = unless_invalid (assert_transition mc from to)

abbrev pub set_executions : List Execution → Store → Store
set_executions xs s = record s { executions = xs }

abbrev pub set_tasks : List Task → Store → Store
set_tasks xs s = record s { tasks = xs }

abbrev pub set_attempts : List Attempt → Store → Store
set_attempts xs s = record s { attempts = xs }

abbrev pub set_approvals : List Approval → Store → Store
set_approvals xs s = record s { approvals = xs }

-- A new ObjectId or UUID.
abbrev pub draw_id : Act ℕ
draw_id s = (ok s.issued, record s { issued = suc s.issued })

module _ (m : Mongo) where
  abbrev pub find_execution : (Execution → Bool) → Act (Option Execution)
  find_execution p s = (ok (m.find_one p s.executions), s)

  abbrev pub update_execution : (Execution → Bool) → (Execution → Execution) → Act ℕ
  update_execution p f s =
      let (xs, n) = m.update_one p f s.executions in (ok n, set_executions xs s)

  abbrev pub change_execution :
      (Execution → Bool) → (Execution → Execution) → Act (Option Execution)
  change_execution p f s =
      let (xs, x) = m.find_one_and_update p f s.executions in (ok x, set_executions xs s)

  abbrev pub find_task : (Task → Bool) → Act (Option Task)
  find_task p s = (ok (m.find_one p s.tasks), s)

  abbrev pub find_tasks : (Task → Bool) → Act (List Task)
  find_tasks p s = (ok (m.find p s.tasks), s)

  abbrev pub find_some_tasks : (Task → Bool) → ℕ → Act (List Task)
  find_some_tasks p n s = (ok (m.find_limited p n s.tasks), s)

  abbrev pub update_task : (Task → Bool) → (Task → Task) → Act ℕ
  update_task p f s = let (xs, n) = m.update_one p f s.tasks in (ok n, set_tasks xs s)

  abbrev pub update_tasks : (Task → Bool) → (Task → Task) → Act ℕ
  update_tasks p f s = let (xs, n) = m.update_many p f s.tasks in (ok n, set_tasks xs s)

  abbrev pub change_task : (Task → Bool) → (Task → Task) → Act (Option Task)
  change_task p f s = let (xs, x) = m.find_one_and_update p f s.tasks in (ok x, set_tasks xs s)

  abbrev pub update_attempt : (Attempt → Bool) → (Attempt → Attempt) → Act ℕ
  update_attempt p f s = let (xs, n) = m.update_one p f s.attempts in (ok n, set_attempts xs s)

  abbrev pub update_attempts : (Attempt → Bool) → (Attempt → Attempt) → Act ℕ
  update_attempts p f s = let (xs, n) = m.update_many p f s.attempts in (ok n, set_attempts xs s)

  -- Unique index on (taskId, attempt).
  abbrev pub insert_attempt : Attempt → Act (Unit {0})
  insert_attempt a s =
      elim (m.insert (λ x y. x.task_id == y.task_id && x.attempt == y.attempt) a s.attempts) [
        | none ↦ (err duplicate_key_error, s)
        | some xs ↦ (ok tt, set_attempts xs s)
      ]

  abbrev pub change_approval : (Approval → Bool) → (Approval → Approval) → Act (Option Approval)
  change_approval p f s =
      let (xs, x) = m.find_one_and_update p f s.approvals in (ok x, set_approvals xs s)

  abbrev pub update_approvals : (Approval → Bool) → (Approval → Approval) → Act ℕ
  update_approvals p f s = let (xs, n) = m.update_many p f s.approvals in (ok n, set_approvals xs s)

  abbrev pub find_some_approvals : (Approval → Bool) → ℕ → Act (List Approval)
  find_some_approvals p n s = (ok (m.find_limited p n s.approvals), s)

  -- Unique index on taskId.
  abbrev pub insert_approval : Approval → Act (Unit {0})
  insert_approval a s = elim (m.insert (λ x y. x.task_id == y.task_id) a s.approvals) [
    | none ↦ (err duplicate_key_error, s)
    | some xs ↦ (ok tt, set_approvals xs s)
  ]

  -- Unique index on eventId.
  abbrev pub insert_event : Event → Act (Unit {0})
  insert_event e s = elim (m.insert (λ x y. x.event_id == y.event_id) e s.outbox) [
    | none ↦ (err duplicate_key_error, s)
    | some xs ↦ (ok tt, record s { outbox = xs })
  ]

  -- emit
  unfoldable pub emit : Deps → ℕ → Payload → Act (Unit {0})
  emit d execution_id payload =
      if d.has_outbox
      then (do
        event_id ← draw_id
        insert_event
            (record { event_id = event_id; aggregate_id = execution_id; payload = payload }))
      else pure tt

-- One call of Redis: whether it got through.
abbrev pub send : Deps → Sent → Act Bool
send d x s =
    if d.redis_up s.calls
    then (ok true, record s { calls = suc s.calls; sent = s.sent ++ x ∷ [] })
    else (ok false, record s { calls = suc s.calls })

-- enqueueSafely: a failure is logged, and reported as false.
unfoldable pub enqueue_safely : Deps → Task → Act Bool
enqueue_safely d task = send d (enqueued task.id)

-- enqueueRetrySafely
unfoldable pub enqueue_retry_safely : Deps → Task → ℕ → Act (Unit {0})
enqueue_retry_safely d task delay = do
  send d (if d.has_delayed then enqueued_later task.id delay else enqueued task.id)
  pure tt
