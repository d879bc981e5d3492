-- ===== src/Queues/TaskQueue/Steps.antt =====
-- The scripts of src/queues/taskQueue.js in any order, with any arguments and at any times.
use ai_distributed_workflow.Base.{ℕ, ◌+◌, ◌≡◌, refl, arith, List, [], ◌∷◌, Option, none, some, ◌++◌}
use ai_distributed_workflow.Redis.{Redis, IsRedis, bit}
use ai_distributed_workflow.Queues.TaskQueue.{
  Queue, requeue_expired, extend_lease, ack, promote_due, claim, enqueue, enqueue_delayed,
}
use ai_distributed_workflow.Queues.TaskQueue.Places.{IsSound, places, occurs-append, move_place}

abbrev pub handed : Option ℕ → List ℕ
handed none = []
handed (some id) = id ∷ []

-- One script, and the ids that it handed to a worker.
pub data Step (r : Redis) (q : Queue r) : List ℕ → Queue r → Type 0 where
  enqueues : (id : ℕ) → Step r q [] (enqueue r id q).1
  enqueues_later : (now id delay : ℕ) → Step r q [] (enqueue_delayed r now id delay q).1
  claims :
      (now lease_ms : ℕ) → Step r q (handed (claim r now lease_ms q).0) (claim r now lease_ms q).1
  extends : (now id lease_ms : ℕ) → Step r q [] (extend_lease r now id lease_ms q).1
  acks : (id : ℕ) → Step r q [] (ack r id q).1
  reaps : (now limit : ℕ) → Step r q [] (requeue_expired r now limit q).1
  promotes : (now limit : ℕ) → Step r q [] (promote_due r now limit q).1

-- Any number of scripts, and the ids handed out in order.
pub data Trace (r : Redis) (q : Queue r) : List ℕ → Queue r → Type 0 where
  start : Trace r q [] q
  next :
      {xs ys : List ℕ} {q' q'' : Queue r}
      → Trace r q xs q'
      → Step r q' ys q''
      → Trace r q (xs ++ ys) q''

module _ (r : Redis) (laws : IsRedis r) where
  enqueue-IsSound : (id : ℕ) (q : Queue r) → IsSound r q → IsSound r (enqueue r id q).1
  unfolding enqueue
  enqueue-IsSound id q v i = ground (
    arith,
    v i,
    laws.sadd_lem id i q.members,
    laws.sadd_reply id q.members,
    laws.rpush_lem id q.ready,
    occurs-append i q.ready (id ∷ []),
  )

  enqueue_delayed-IsSound :
      (now id delay : ℕ) (q : Queue r)
      → IsSound r q
      → IsSound r (enqueue_delayed r now id delay q).1
  unfolding enqueue_delayed
  enqueue_delayed-IsSound now id delay q v i = ground (
    arith,
    v i,
    laws.sadd_lem id i q.members,
    laws.sadd_reply id q.members,
    laws.zrem_lem id i q.leases,
    laws.zrem_reply id q.leases,
    laws.zadd_lem (now + delay) id i q.delayed,
  )

  claim-IsSound :
      (now lease_ms : ℕ) (q : Queue r) → IsSound r q → IsSound r (claim r now lease_ms q).1
  unfolding claim
  claim-IsSound now lease_ms q v i = by_list q.ready refl
    where
      by_list :
          (xs : List ℕ)
          → q.ready ≡ xs
          → places r i (claim r now lease_ms q).1
            ≡ bit (r.sismember i (claim r now lease_ms q).1.members)
      by_list [] e = ground (arith, v i, laws.lpop_nil)
      by_list (x ∷ xs) e =
          ground (arith, v i, laws.lpop_cons x xs, laws.zadd_lem (now + lease_ms) x i q.leases, v x)

  extend_lease-IsSound :
      (now id lease_ms : ℕ) (q : Queue r)
      → IsSound r q
      → IsSound r (extend_lease r now id lease_ms q).1
  unfolding extend_lease
  extend_lease-IsSound now id lease_ms q v i =
      ground (arith, v i, laws.zadd_lem (now + lease_ms) id i q.leases)

  ack-IsSound : (id : ℕ) (q : Queue r) → IsSound r q → IsSound r (ack r id q).1
  unfolding ack
  ack-IsSound id q v i = ground (
    arith,
    v i,
    laws.zrem_lem id i q.leases,
    laws.zrem_reply id q.leases,
    laws.srem_lem id i q.members,
  )

  requeue_expired-IsSound :
      (now limit : ℕ) (q : Queue r) → IsSound r q → IsSound r (requeue_expired r now limit q).1
  unfolding requeue_expired
  requeue_expired-IsSound now limit q v i =
      ground
        (arith, v i, move_place r laws (r.zrange_by_score now limit q.leases) q.leases q.ready i)

  promote_due-IsSound :
      (now limit : ℕ) (q : Queue r) → IsSound r q → IsSound r (promote_due r now limit q).1
  unfolding promote_due
  promote_due-IsSound now limit q v i =
      ground
        (arith, v i, move_place r laws (r.zrange_by_score now limit q.delayed) q.delayed q.ready i)

  pub Step-IsSound : {q q' : Queue r} {ids : List ℕ} → Step r q ids q' → IsSound r q → IsSound r q'
  Step-IsSound {q} (enqueues id) v = enqueue-IsSound id q v
  Step-IsSound {q} (enqueues_later now id delay) v = enqueue_delayed-IsSound now id delay q v
  Step-IsSound {q} (claims now lease_ms) v = claim-IsSound now lease_ms q v
  Step-IsSound {q} (extends now id lease_ms) v = extend_lease-IsSound now id lease_ms q v
  Step-IsSound {q} (acks id) v = ack-IsSound id q v
  Step-IsSound {q} (reaps now limit) v = requeue_expired-IsSound now limit q v
  Step-IsSound {q} (promotes now limit) v = promote_due-IsSound now limit q v
