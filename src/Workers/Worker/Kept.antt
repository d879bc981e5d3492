-- ===== src/Workers/Worker/Kept.antt =====
-- What a run of processTask in src/workers/queueWorker.js keeps of the store and of the queue.
use ai_distributed_workflow.Base.{
  true, false, none, some, inl, inr, refl, ℕ, ◌≡◌, Bool, true, false, Option, none, some, List, [],
  ◌∷◌, ◌⊎◌, inl, inr, Bool-cases, subst, sym, length,
}
use ai_distributed_workflow.Base.Result.{Result, ok, err, continue}
use ai_distributed_workflow.Mongo.Driver.{Mongo}
use ai_distributed_workflow.Redis.{Redis}
use ai_distributed_workflow.Queues.TaskQueue.{Queue, enqueue, enqueue_delayed, extend_lease, ack}
use ai_distributed_workflow.Engine.Model.{Store, Deps, Sent, enqueued, enqueued_later, Failure}
use ai_distributed_workflow.Engine.Actions.{Act, ◌>>◌, pure}
use ai_distributed_workflow.Engine.Claim.{Claimed, start_task, renew_lease}
use ai_distributed_workflow.Engine.Report.{complete_task, fail_task}
use ai_distributed_workflow.Engine.Approve.{suspend_for_approval}
use ai_distributed_workflow.Engine.Runs.{Step as EngineStep}
use ai_distributed_workflow.Engine.Runs.Step.{claims, renews, completes, fails, suspends}
use ai_distributed_workflow.Workers.Task.{
  Handlers, Ended, awaits, returns, throws, report, outcome, run_task,
}
use ai_distributed_workflow.Workers.Worker.{
  Run, Error, World, deliver, drop, with_queue, on_queue, renew_once, after_renew, renew_all,
  finish, after_run, run_claimed, after_start, process_task,
}

-- A property that calls of the engine keep, and all scripts of the queue but `ack`.
pub record IsKept (m : Mongo) (d : Deps) (r : Redis) (P : Store → Queue r → Type 0) : Type 0 where
  pub engine : (s s' : Store) (q : Queue r) → EngineStep m d s s' → P s q → P s' q
  pub enqueues : (id : ℕ) (s : Store) (q : Queue r) → P s q → P s (enqueue r id q).1
  pub enqueues_later :
      (now id delay : ℕ) (s : Store) (q : Queue r)
      → P s q
      → P s (enqueue_delayed r now id delay q).1
  pub extends :
      (now id lease_ms : ℕ) (s : Store) (q : Queue r)
      → P s q
      → P s (extend_lease r now id lease_ms q).1

then_pure : {A : Type 0} (act : Act A) (s : Store) → ((act >> pure tt) s).1 ≡ (act s).1
then_pure {A = A} act s = by_reply (act s)
  where
    by_reply : (x : Result Failure A × Store) → (continue x (λ _. pure tt)).1 ≡ x.1
    by_reply (ok a, t) = refl
    by_reply (err e, t) = refl

module _ (m : Mongo) (d : Deps) (r : Redis) (h : Handlers) (P : Store → Queue r → Type 0)
    (kept : IsKept m d r P) where
  abbrev Holds : World r → Type 0
  Holds w = P w.store w.queue

  deliver-Holds :
      (now : ℕ) (xs : List Sent) (s : Store) (q : Queue r) → P s q → P s (deliver r now xs q)
  deliver-Holds now [] s q p = p
  deliver-Holds now (enqueued id ∷ xs) s q p =
      deliver-Holds now xs s (enqueue r id q).1 (kept.enqueues id s q p)
  deliver-Holds now (enqueued_later id delay ∷ xs) s q p =
      deliver-Holds now xs s (enqueue_delayed r now id delay q).1
        (kept.enqueues_later now id delay s q p)

  pub with_queue-Holds :
      {A : Type 0} (now : ℕ) (act : Act A) (w : World r)
      → EngineStep m d w.store (act w.store).1
      → Holds w
      → Holds (with_queue r now act w).1
  with_queue-Holds now act w step p =
      deliver-Holds now (drop r (length w.store.sent) (act w.store).1.sent) (act w.store).1 w.queue
        (kept.engine w.store (act w.store).1 w.queue step p)

  report_steps :
      (c : Claimed) (now later : ℕ) (e : Ended) (s : Store)
      → EngineStep m d s (report m d c now later e s).1
  report_steps c now later (throws e) s =
      subst (EngineStep m d s)
        (sym (then_pure (fail_task m d c.task.id c.task.lease_token e now) s))
        (fails c.task.id c.task.lease_token e now)
  report_steps c now later (awaits request timeout_ms) s =
      subst (EngineStep m d s)
        (sym (
          then_pure (suspend_for_approval m d c.task.id c.task.lease_token request timeout_ms now)
            s))
        (suspends c.task.id c.task.lease_token request timeout_ms now)
  report_steps c now later (returns output) s =
      subst (EngineStep m d s)
        (sym (then_pure (complete_task m d c.task.id c.task.lease_token output now later) s))
        (completes c.task.id c.task.lease_token output now later)

  renew_once-Holds :
      (id : ℕ) (run : Run) (c : Claimed) (x : ℕ × ℕ × Bool) (w : World r)
      → Holds w
      → Holds (renew_once r m d h id run c x w)
  renew_once-Holds id run c (db_now, redis_now, up) w p =
      by_reply (renew_lease m d c.task.id c.task.lease_token db_now w.store) (
        kept.engine w.store (renew_lease m d c.task.id c.task.lease_token db_now w.store).1 w.queue
          (renews c.task.id c.task.lease_token db_now) p)
    where
      by_reply :
          (x : Result Failure Bool × Store)
          → P x.1 w.queue
          → Holds (after_renew r m d h id run redis_now up w.queue x)
      by_reply (ok true, s) q = elim (Bool-cases up) [
        | inl e ↦ rw e (kept.extends redis_now id run.lease_ms s w.queue q)
        | inr e ↦ rw e q
      ]
      by_reply (ok false, s) q = q
      by_reply (err e, s) q = q

  renew_all-Holds :
      (id : ℕ) (run : Run) (c : Claimed) (xs : List (ℕ × ℕ × Bool)) (w : World r)
      → Holds w
      → Holds (renew_all r m d h id run c xs w)
  renew_all-Holds id run c [] w p = p
  renew_all-Holds id run c (x ∷ xs) w p =
      renew_all-Holds id run c xs (renew_once r m d h id run c x w)
        (renew_once-Holds id run c x w p)

  -- Either the property holds at the end, or it held when processTask returned by its `ack`.
  abbrev Ends : ℕ → Result Error (Unit {0}) × World r → Type 0
  Ends id (reply, w) =
      P w.store w.queue
      ⊎ ((reply ≡ ok tt) × ((q : Queue r) × (P w.store q × (w.queue ≡ (ack r id q).1))))

  finish-Ends : (id : ℕ) (run : Run) (w : World r) → Holds w → Ends id (finish r m d h id run w)
  finish-Ends id run w p = elim (Bool-cases run.ack_up) [
    | inl up ↦ rw up (inr (refl, (w.queue, (p, refl))))
    | inr down ↦ rw down (inl p)
  ]

  run_claimed-Ends :
      (id : ℕ) (run : Run) (c : Claimed) (w : World r)
      → Holds w
      → Ends id (run_claimed r m d h id run c w)
  unfolding run_claimed run_task
  run_claimed-Ends id run c w p = elim (Bool-cases run.extend_up) [
    | inr down ↦ rw down (inl p)
    | inl up ↦ rw up (
        by_reply (with_queue r run.redis_now (run_task m d h c run.ended run.later) w2) (
          with_queue-Holds run.redis_now (run_task m d h c run.ended run.later) w2
            (report_steps c run.ended run.later (outcome h c) w2.store) p2))
  ]
    where
      w2 : World r
      w2 =
          renew_all r m d h id run c run.renewals
            (on_queue r (extend_lease r run.redis_now id run.lease_ms) w)

      p2 : Holds w2
      p2 =
          renew_all-Holds id run c run.renewals
            (on_queue r (extend_lease r run.redis_now id run.lease_ms) w)
            (kept.extends run.redis_now id run.lease_ms w.store w.queue p)

      by_reply :
          (x : Result Failure (Unit {0}) × World r)
          → Holds x.1
          → Ends id (after_run r m d h id run x)
      by_reply (ok u, v) q = finish-Ends id run v q
      by_reply (err e, v) q = inl q

  pub process_task-Ends :
      (id : ℕ) (run : Run) (w : World r) → Holds w → Ends id (process_task r m d h id run w)
  unfolding process_task
  process_task-Ends id run w p =
      by_reply
        (with_queue r run.redis_now (start_task m d id run.worker_id run.db_now run.started) w)
        (with_queue-Holds run.redis_now (start_task m d id run.worker_id run.db_now run.started) w
          (claims id run.worker_id run.db_now run.started) p)
    where
      by_reply :
          (x : Result Failure (Option Claimed) × World r)
          → Holds x.1
          → Ends id (after_start r m d h id run x)
      by_reply (ok none, v) q = finish-Ends id run v q
      by_reply (ok (some c), v) q = run_claimed-Ends id run c v q
      by_reply (err e, v) q = inl q
