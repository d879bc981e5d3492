-- ===== src/Workers/Worker/Pool.antt =====
-- What a worker of src/workers/queueWorker.js leaves in the queue.
use ai_distributed_workflow.Base.{
  true, false, inl, inr, ℕ, ◌≡◌, arith, true, false, ◌==◌, ◌⊎◌, Bool-cases,
}
use ai_distributed_workflow.Base.Result.{ok}
use ai_distributed_workflow.Mongo.Driver.{Mongo}
use ai_distributed_workflow.Redis.{Redis, IsRedis}
use ai_distributed_workflow.Queues.TaskQueue.{Queue, ack}
use ai_distributed_workflow.Queues.TaskQueue.Guarantees.{
  enqueue_kept, enqueue_delayed_kept, extend_kept,
}
use ai_distributed_workflow.Engine.Model.{Deps}
use ai_distributed_workflow.Workers.Task.{Handlers}
use ai_distributed_workflow.Workers.Worker.{Run, World, process_task}
use ai_distributed_workflow.Workers.Worker.Kept.{IsKept, process_task-Ends}

module _ (m : Mongo) (d : Deps) (r : Redis) (laws : IsRedis r) (h : Handlers) where
  member_IsKept : (i : ℕ) → IsKept m d r (λ s q. r.sismember i q.members ≡ true)
  member_IsKept i = record {
    engine = λ s s' q step p. p;
    enqueues = λ id s q p. enqueue_kept r laws i id q p;
    enqueues_later = λ now id delay s q p. enqueue_delayed_kept r laws i now id delay q p;
    extends = λ now id lease_ms s q p. extend_kept r laws i now id lease_ms q p;
  }

  other_kept :
      (i id : ℕ) (q : Queue r)
      → r.sismember i q.members ≡ true
      → (id == i) ≡ false
      → r.sismember i (ack r id q).1.members ≡ true
  unfolding ack
  other_kept i id q there other = ground (arith, there, other, laws.srem_lem id i q.members)

  -- A task id in the queue stays there while a worker runs processTask, with calls of MongoDB and
  -- Redis failing at will, unless processTask is run on this id and returns without an exception.
  pub process_task_kept :
      (i id : ℕ) (run : Run) (w : World r)
      → r.sismember i w.queue.members ≡ true
      → let (reply, w') = process_task r m d h id run w in
        (r.sismember i w'.queue.members ≡ true) ⊎ ((reply ≡ ok tt) × (i ≡ id))
  process_task_kept i id run w p =
      elim (process_task-Ends m d r h (λ s q. r.sismember i q.members ≡ true) (member_IsKept i) id
        run w p) [
          | inl there ↦ inl there
          | inr (done, (q, (there, gone))) ↦ elim (Bool-cases (id == i)) [
            | inl same ↦ inr (done, ground (arith, same))
            | inr other ↦ inl (rw gone (other_kept i id q there other))
          ]
        ]
