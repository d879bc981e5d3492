-- ===== src/Queues/TaskQueue.antt =====
-- src/queues/taskQueue.js: the queue of task ids. Each Lua script is one step on its keys; `now` is
-- Redis's clock. Durations are whole milliseconds, so `Math.round` and `Math.max(0, …)` are the
-- identity.
pub mod Places
pub mod Steps
pub mod Guarantees
mod Examples
use ai_distributed_workflow.Base.{
  ℕ, ◌+◌, Bool, true, false, Option, none, some, List, [], ◌∷◌, ◌==◌, if◌then◌else◌, ◌||◌,
}
use ai_distributed_workflow.Redis.{Redis}

module _ (r : Redis) where
  -- The four keys.
  pub record Queue : Type 0 where
    pub ready : List ℕ
    pub leases : r.SortedSet
    pub delayed : r.SortedSet
    pub members : r.IdSet

  pub record Stats : Type 0 where
    pub ready : ℕ
    pub leased : ℕ
    pub delayed : ℕ

  abbrev pub empty_queue : Queue
  empty_queue = record {
    ready = [];
    leases = r.no_scores;
    delayed = r.no_scores;
    members = r.no_ids;
  }

  -- wfEnqueue
  unfoldable pub enqueue : ℕ → Queue → Bool × Queue
  enqueue id q =
      let (members, added) = r.sadd id q.members in
      if added == 1
      then (true, record q { members = members; ready = r.rpush id q.ready })
      else (false, record q { members = members })

  -- wfEnqueueDelayed
  unfoldable pub enqueue_delayed : ℕ → ℕ → ℕ → Queue → Bool × Queue
  enqueue_delayed now id delay q =
      let (leases, removed) = r.zrem id q.leases in
      let (members, added) = r.sadd id q.members in
      if removed == 1 || added == 1
      then (
        true,
        record q {
          leases = leases;
          members = members;
          delayed = r.zadd (now + delay) id q.delayed;
        },
      )
      else (false, record q { leases = leases; members = members })

  abbrev pub lease_next : ℕ → Queue → Option ℕ × List ℕ → Option ℕ × Queue
  lease_next until q (none, rest) = (none, record q { ready = rest })
  lease_next until q (some id, rest) =
      (some id, record q { ready = rest; leases = r.zadd until id q.leases })

  -- wfClaim
  unfoldable pub claim : ℕ → ℕ → Queue → Option ℕ × Queue
  claim now lease_ms q = lease_next (now + lease_ms) q (r.lpop q.ready)

  -- wfExtendLease
  unfoldable pub extend_lease : ℕ → ℕ → ℕ → Queue → Bool × Queue
  extend_lease now id lease_ms q = elim (r.zscore id q.leases) [
    | none ↦ (false, q)
    | some until ↦ (true, record q { leases = r.zadd (now + lease_ms) id q.leases })
  ]

  -- wfAck
  unfoldable pub ack : ℕ → Queue → Bool × Queue
  ack id q =
      let (leases, removed) = r.zrem id q.leases in
      if removed == 1
      then (true, record q { leases = leases; members = (r.srem id q.members).0 })
      else (false, record q { leases = leases })

  -- The loop of wfRequeueExpired and wfPromoteDue: ids move from a sorted set to the ready list.
  unfoldable pub move_ready : List ℕ → r.SortedSet × List ℕ → r.SortedSet × List ℕ
  move_ready [] (z, ready) = (z, ready)
  move_ready (id ∷ ids) (z, ready) =
      let (z', removed) = r.zrem id z in
      move_ready ids (z', if removed == 1 then r.rpush id ready else ready)

  -- wfRequeueExpired
  unfoldable pub requeue_expired : ℕ → ℕ → Queue → List ℕ × Queue
  unfolding move_ready
  requeue_expired now limit q =
      let ids = r.zrange_by_score now limit q.leases in
      let (leases, ready) = move_ready ids (q.leases, q.ready) in
      (ids, record q { leases = leases; ready = ready })

  -- wfPromoteDue
  unfoldable pub promote_due : ℕ → ℕ → Queue → List ℕ × Queue
  unfolding move_ready
  promote_due now limit q =
      let ids = r.zrange_by_score now limit q.delayed in
      let (delayed, ready) = move_ready ids (q.delayed, q.ready) in
      (ids, record q { delayed = delayed; ready = ready })

  -- stats
  unfoldable pub stats : Queue → Stats
  stats q = record {
    ready = r.llen q.ready;
    leased = r.zcard q.leases;
    delayed = r.zcard q.delayed;
  }
