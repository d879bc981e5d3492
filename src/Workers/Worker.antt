-- ===== src/Workers/Worker.antt =====
-- src/workers/queueWorker.js: processTask, the body of `loop`, and `maintenance`, over the engine's
-- store and the queue on Redis. Timers, logging and the counters of the heartbeat are left out: the
-- renewals that fall into the run of the handler are a list of times.
pub mod Kept
pub mod Pool
mod Examples
use ai_distributed_workflow.Base.{
  some, none, ℕ, zero, suc, Bool, true, false, Option, none, some, List, [], ◌∷◌, String, length,
  if◌then◌else◌,
}
use ai_distributed_workflow.Base.Result.{Result, ok, err}
use ai_distributed_workflow.Mongo.Driver.{Mongo}
use ai_distributed_workflow.Redis.{Redis}
use ai_distributed_workflow.Queues.TaskQueue.{
  Queue, enqueue, enqueue_delayed, claim, extend_lease, ack, requeue_expired, promote_due,
}
use ai_distributed_workflow.Engine.Model.{Store, Deps, Sent, enqueued, enqueued_later, Failure}
use ai_distributed_workflow.Engine.Actions.{Act}
use ai_distributed_workflow.Engine.Claim.{Claimed, start_task, renew_lease}
use ai_distributed_workflow.Workers.Task.{Handlers, run_task}

-- One run of `processTask`: the worker, the clocks of MongoDB, Redis and the process at its calls, and
-- which of its own calls to Redis get through.
pub record Run : Type 0 where
  pub worker_id : String
  pub lease_ms : ℕ
  pub db_now : ℕ
  pub redis_now : ℕ
  pub started : ℕ
  pub ended : ℕ
  pub later : ℕ
  -- The clocks of MongoDB and Redis at each renewal, and whether its call to Redis gets through.
  pub renewals : List (ℕ × ℕ × Bool)
  pub ack_up : Bool
  pub extend_up : Bool

pub data Error : Type 0 where
  engine_failed : Failure → Error
  redis_failed : Error

module _ (r : Redis) where
  pub record World : Type 0 where
    pub store : Store
    pub queue : Queue r

  abbrev pub drop : ℕ → List Sent → List Sent
  drop zero xs = xs
  drop (suc n) [] = []
  drop (suc n) (x ∷ xs) = drop n xs

  -- A call of the engine to the queue that got through.
  abbrev pub deliver_one : ℕ → Sent → Queue r → Queue r
  deliver_one now (enqueued id) q = (enqueue r id q).1
  deliver_one now (enqueued_later id delay) q = (enqueue_delayed r now id delay q).1

  abbrev pub deliver : ℕ → List Sent → Queue r → Queue r
  deliver now [] q = q
  deliver now (x ∷ xs) q = deliver now xs (deliver_one now x q)

  -- A call of the engine, with its calls to the queue.
  abbrev pub with_queue : {A : Type 0} → ℕ → Act A → World → Result Failure A × World
  with_queue now act w =
      let (reply, store) = act w.store in
      (
        reply,
        record {
          store = store;
          queue = deliver now (drop (length w.store.sent) store.sent) w.queue;
        },
      )

  abbrev pub on_queue : {A : Type 0} → (Queue r → A × Queue r) → World → World
  on_queue script w = record w { queue = (script w.queue).1 }

  module _ (m : Mongo) (d : Deps) (h : Handlers) where
    abbrev pub after_renew : ℕ → Run → ℕ → Bool → Queue r → Result Failure Bool × Store → World
    after_renew id run redis_now up q (ok true, s) = record {
      store = s;
      queue = if up then (extend_lease r redis_now id run.lease_ms q).1 else q;
    }
    after_renew id run redis_now up q (ok false, s) = record { store = s; queue = q }
    after_renew id run redis_now up q (err e, s) = record { store = s; queue = q }

    -- The callback of the timer.
    abbrev pub renew_once : ℕ → Run → Claimed → ℕ × ℕ × Bool → World → World
    renew_once id run c (db_now, redis_now, up) w =
        after_renew id run redis_now up w.queue
          (renew_lease m d c.task.id c.task.lease_token db_now w.store)

    abbrev pub renew_all : ℕ → Run → Claimed → List (ℕ × ℕ × Bool) → World → World
    renew_all id run c [] w = w
    renew_all id run c (x ∷ xs) w = renew_all id run c xs (renew_once id run c x w)

    abbrev pub finish : ℕ → Run → World → Result Error (Unit {0}) × World
    finish id run w = if run.ack_up then (ok tt, on_queue (ack r id) w) else (err redis_failed, w)

    -- What follows runTask.
    abbrev pub after_run :
        ℕ → Run → Result Failure (Unit {0}) × World → Result Error (Unit {0}) × World
    after_run id run (ok _, w) = finish id run w
    after_run id run (err e, w) = (err (engine_failed e), w)

    unfoldable pub run_claimed : ℕ → Run → Claimed → World → Result Error (Unit {0}) × World
    unfolding run_task
    run_claimed id run c w =
        let w1 = on_queue (extend_lease r run.redis_now id run.lease_ms) w in
        let w2 = renew_all id run c run.renewals w1 in
        if run.extend_up
        then after_run id run (with_queue run.redis_now (run_task m d h c run.ended run.later) w2)
        else (err redis_failed, w)

    -- What follows startTask.
    abbrev pub after_start :
        ℕ → Run → Result Failure (Option Claimed) × World → Result Error (Unit {0}) × World
    after_start id run (ok none, w) = finish id run w
    after_start id run (ok (some c), w) = run_claimed id run c w
    after_start id run (err e, w) = (err (engine_failed e), w)

    -- processTask
    unfoldable pub process_task : ℕ → Run → World → Result Error (Unit {0}) × World
    unfolding run_claimed start_task
    process_task id run w =
        after_start id run
          (with_queue run.redis_now (start_task m d id run.worker_id run.db_now run.started) w)

    abbrev pub process_claimed : Run → Option ℕ × Queue r → World → World
    process_claimed run (none, q) w = record w { queue = q }
    process_claimed run (some id, q) w = (process_task id run (record w { queue = q })).1

    -- One round of `loop`; what processTask throws is logged and forgotten.
    unfoldable pub poll : ℕ → Bool → ℕ → Run → World → World
    unfolding process_task
    poll claim_lease_ms claim_up now run w =
        if claim_up then process_claimed run (claim r now claim_lease_ms w.queue) w else w

  -- maintenance, where each of the two calls may be lost.
  unfoldable pub maintenance : Bool → Bool → ℕ → ℕ → World → World
  maintenance reap_up promote_up now limit w =
      let w' = if reap_up then on_queue (requeue_expired r now limit) w else w in
      if promote_up then on_queue (promote_due r now limit) w' else w'
