-- ===== src/Queues/TaskQueue/Examples.antt =====
-- A queue with one task: enqueued, leased, and delayed for a retry or lost with its worker.
use ai_distributed_workflow.Base.{
  ℕ, refl, ◌≡◌, true, false, List, [], ◌∷◌, some, none, ◌++◌, ◌⊎◌, length, arith, ◌<◌,
}
use ai_distributed_workflow.Queues.TaskQueue.Steps.{
  start, next, enqueues, enqueues_later, claims, Trace,
}
use ai_distributed_workflow.Queues.TaskQueue.{
  requeue_expired, ack, Queue, claim, promote_due, enqueue, enqueue_delayed, empty_queue,
}
use ai_distributed_workflow.Queues.TaskQueue.Guarantees.{
  Trace-fifo, requeue_expired-ready, enqueue_delayed-ack, Trace-IsSound, member_kept,
  promote_due-early,
}
use ai_distributed_workflow.Queues.TaskQueue.Places.{IsSound}
use ai_distributed_workflow.Redis.{occurs}
use ai_distributed_workflow.Redis.Reference.{redis, redis-IsRedis}

abbrev q_ready : Queue redis
q_ready = (enqueue redis 6 (enqueue redis 5 (empty_queue redis)).1).1

-- Task 5 is leased until 130.
abbrev q_leased : Queue redis
q_leased = (claim redis 100 30 q_ready).1

abbrev q_delayed : Queue redis
q_delayed = (enqueue_delayed redis 110 5 40 q_leased).1

ready_reached : Trace redis (empty_queue redis) [] q_ready
ready_reached = next {xs = []} {ys = []} (next {xs = []} {ys = []} start (enqueues 5)) (enqueues 6)

leased_reached : Trace redis (empty_queue redis) (5 ∷ []) q_leased
unfolding claim enqueue
leased_reached = next {xs = []} {ys = 5 ∷ []} ready_reached (claims 100 30)

leased_until : redis.zscore 5 q_leased.leases ≡ some 130
unfolding claim enqueue
leased_until = refl

delayed_until : redis.zscore 5 q_delayed.delayed ≡ some 150
unfolding claim enqueue enqueue_delayed
delayed_until = refl

Trace-IsSound_example : IsSound redis q_leased
Trace-IsSound_example = Trace-IsSound redis redis-IsRedis (5 ∷ []) q_leased leased_reached

is_member : redis.sismember 5 q_leased.members ≡ true
unfolding claim enqueue
is_member = refl

member_kept_example :
    (redis.sismember 5 q_delayed.members ≡ true)
    ⊎ (((ack redis 5 q_leased).0 ≡ true) × (q_delayed ≡ (ack redis 5 q_leased).1))
member_kept_example =
    member_kept redis redis-IsRedis 5 q_leased [] q_delayed (enqueues_later 110 5 40) is_member

one_claim : Trace redis q_ready (5 ∷ []) q_leased
unfolding claim enqueue
one_claim = next {xs = []} {ys = 5 ∷ []} start (claims 100 30)

Trace-fifo_example : (later : List ℕ) × ((5 ∷ []) ++ q_leased.ready ≡ q_ready.ready ++ later)
Trace-fifo_example = Trace-fifo redis redis-IsRedis q_ready (5 ∷ []) q_leased one_claim

enqueue_delayed-ack_example :
    ((ack redis 5 q_delayed).0 ≡ false)
    × (redis.zscore 5 (ack redis 5 q_delayed).1.delayed ≡ some 150)
    × (redis.sismember 5 (ack redis 5 q_delayed).1.members ≡ true)
enqueue_delayed-ack_example =
    enqueue_delayed-ack redis redis-IsRedis (5 ∷ []) q_leased 110 5 40 130 leased_reached
      leased_until

promote_due-early_example :
    (occurs 5 (promote_due redis 149 100 q_delayed).0 ≡ 0)
    × (redis.zscore 5 (promote_due redis 149 100 q_delayed).1.delayed ≡ some 150)
promote_due-early_example =
    promote_due-early redis redis-IsRedis q_delayed 149 100 5 150 delayed_until (omega arith)

room_left : length (requeue_expired redis 131 100 q_leased).0 < 100
unfolding requeue_expired claim enqueue
room_left = omega arith

requeue_expired-ready_example :
    (occurs 5 (requeue_expired redis 131 100 q_leased).0 ≡ 1)
    × (occurs 5 (requeue_expired redis 131 100 q_leased).1.ready ≡ 1)
    × (redis.zscore 5 (requeue_expired redis 131 100 q_leased).1.leases ≡ none)
requeue_expired-ready_example =
    requeue_expired-ready redis redis-IsRedis (5 ∷ []) q_leased 131 100 5 130 leased_reached
      leased_until (omega arith) room_left
