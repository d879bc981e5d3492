-- ===== src/Workers/Worker/Examples.antt =====
-- A worker of src/workers/queueWorker.js on another task than the one in the queue.
use ai_distributed_workflow.Base.{refl, ℕ, ◌≡◌, ◌⊎◌, true, some, [], ◌∷◌}
use ai_distributed_workflow.Base.Result.{ok}
use ai_distributed_workflow.Mongo.Reference.{reference}
use ai_distributed_workflow.Redis.Reference.{redis, redis-IsRedis}
use ai_distributed_workflow.Engine.Model.{Deps, empty}
use ai_distributed_workflow.Queues.TaskQueue.{empty_queue, enqueue}
use ai_distributed_workflow.Workers.Task.{Handlers, returns}
use ai_distributed_workflow.Workers.Worker.{Run, process_task}
use ai_distributed_workflow.Workers.Worker.Pool.{process_task_kept}

abbrev demo : Deps
demo = record {
  has_outbox = true;
  has_approvals = true;
  has_delayed = true;
  lease_ms = 30000;
  backoff = λ attempt base. base;
  redis_up = λ n. true;
}

abbrev handlers : Handlers
handlers = record { ended = λ c. some (returns (some "done")) }

abbrev run : Run
run = record {
  worker_id = "w";
  lease_ms = 15000;
  db_now = 20;
  redis_now = 21;
  started = 22;
  ended = 30;
  later = 31;
  renewals = (25, 26, true) ∷ [];
  ack_up = true;
  extend_up = true;
}

process_task_kept_example :
    let (reply, w') =
      process_task redis reference demo handlers 1 run
        (record { store = empty; queue = (enqueue redis 5 (empty_queue redis)).1 }) in
    (redis.sismember 5 w'.queue.members ≡ true) ⊎ ((reply ≡ ok tt) × (◌≡◌ {A = ℕ} 5 1))
unfolding enqueue
process_task_kept_example =
    process_task_kept reference demo redis redis-IsRedis handlers 5 1 run
      (record { store = empty; queue = (enqueue redis 5 (empty_queue redis)).1 }) refl
