-- ===== src/Queues/TaskQueue/Guarantees.antt =====
-- What workers may rely on in src/queues/taskQueue.js.
use ai_distributed_workflow.Queues.TaskQueue.Steps.{
  start, next, enqueues, enqueues_later, claims, extends, acks, reaps, promotes, handed,
}
use mathlib.Core.List.{append_assoc}
use ai_distributed_workflow.Base.{
  ℕ, ◌+◌, ◌≡◌, ◌<◌, ◌≤◌, refl, arith, true, false, List, [], ◌∷◌, ◌==◌, none, some, ◌++◌, inl, inr,
  ◌⊎◌, length, Bool-cases, ◌∙◌, sym, ap, ◌||◌,
}
use ai_distributed_workflow.Redis.{Redis, IsRedis, occurs}
use ai_distributed_workflow.Queues.TaskQueue.{
  Queue, requeue_expired, enqueue_delayed, promote_due, ack, empty_queue, enqueue, claim,
  extend_lease,
}
use ai_distributed_workflow.Queues.TaskQueue.Steps.{Trace, Step, next, Step-IsSound}
use ai_distributed_workflow.Queues.TaskQueue.Places.{move_score, IsSound, move_place, move_append}
use ai_distributed_workflow.Mongo.Counting.{append_nil}

module _ (r : Redis) (laws : IsRedis r) where
  -- After any scripts from the empty queue, an id is once in the ready list, or leased, or delayed,
  -- and in one of these only, if it is a member, and in none of them otherwise.
  pub Trace-IsSound : (ids : List ℕ) (q : Queue r) → Trace r (empty_queue r) ids q → IsSound r q
  Trace-IsSound ids q t = from_empty t
    where
      nothing : IsSound r (empty_queue r)
      nothing i = ground (arith, laws.no_scores_lem i, laws.no_ids_lem i)

      from_empty : {xs : List ℕ} {q' : Queue r} → Trace r (empty_queue r) xs q' → IsSound r q'
      from_empty start = nothing
      from_empty (next t s) = Step-IsSound r laws s (from_empty t)

  ack_kept :
      (i id : ℕ) (q : Queue r)
      → r.sismember i q.members ≡ true
      → (r.sismember i (ack r id q).1.members ≡ true)
        ⊎ (((ack r i q).0 ≡ true) × ((ack r id q).1 ≡ (ack r i q).1))
  unfolding ack
  ack_kept i id q h = elim (Bool-cases ((r.zrem id q.leases).1 == 1)) [
    | inr e ↦ inl (rw e h)
    | inl e ↦ elim (Bool-cases (id == i)) [
      | inl same ↦ let eq : id ≡ i = ground (arith, same) in rw (← eq, e) (inr (refl, refl))
      | inr other ↦ inl (rw e (ground (arith, other, h, laws.srem_lem id i q.members)))
    ]
  ]

  pub enqueue_kept :
      (i id : ℕ) (q : Queue r)
      → r.sismember i q.members ≡ true
      → r.sismember i (enqueue r id q).1.members ≡ true
  unfolding enqueue
  enqueue_kept i id q h = ground (arith, h, laws.sadd_lem id i q.members)

  pub enqueue_delayed_kept :
      (i now id delay : ℕ) (q : Queue r)
      → r.sismember i q.members ≡ true
      → r.sismember i (enqueue_delayed r now id delay q).1.members ≡ true
  unfolding enqueue_delayed
  enqueue_delayed_kept i now id delay q h = ground (arith, h, laws.sadd_lem id i q.members)

  pub claim_kept :
      (i now lease_ms : ℕ) (q : Queue r)
      → r.sismember i q.members ≡ true
      → r.sismember i (claim r now lease_ms q).1.members ≡ true
  unfolding claim
  claim_kept i now lease_ms q h = ground (arith, h)

  pub extend_kept :
      (i now id lease_ms : ℕ) (q : Queue r)
      → r.sismember i q.members ≡ true
      → r.sismember i (extend_lease r now id lease_ms q).1.members ≡ true
  unfolding extend_lease
  extend_kept i now id lease_ms q h = ground (arith, h)

  reap_kept :
      (i now limit : ℕ) (q : Queue r)
      → r.sismember i q.members ≡ true
      → r.sismember i (requeue_expired r now limit q).1.members ≡ true
  unfolding requeue_expired
  reap_kept i now limit q h = h

  promote_kept :
      (i now limit : ℕ) (q : Queue r)
      → r.sismember i q.members ≡ true
      → r.sismember i (promote_due r now limit q).1.members ≡ true
  unfolding promote_due
  promote_kept i now limit q h = h

  -- A member is one still after any script, unless the script was its own `ack`, answered true.
  pub member_kept :
      (i : ℕ) (q : Queue r) (ids : List ℕ) (q' : Queue r)
      → Step r q ids q'
      → r.sismember i q.members ≡ true
      → (r.sismember i q'.members ≡ true) ⊎ (((ack r i q).0 ≡ true) × (q' ≡ (ack r i q).1))
  member_kept i q ids q' (enqueues id) h = inl (enqueue_kept i id q h)
  member_kept i q ids q' (enqueues_later now id delay) h =
      inl (enqueue_delayed_kept i now id delay q h)
  member_kept i q ids q' (claims now lease_ms) h = inl (claim_kept i now lease_ms q h)
  member_kept i q ids q' (extends now id lease_ms) h = inl (extend_kept i now id lease_ms q h)
  member_kept i q ids q' (acks id) h = ack_kept i id q h
  member_kept i q ids q' (reaps now limit) h = inl (reap_kept i now limit q h)
  member_kept i q ids q' (promotes now limit) h = inl (promote_kept i now limit q h)

  claim_fifo :
      (now lease_ms : ℕ) (q : Queue r)
      → handed (claim r now lease_ms q).0 ++ (claim r now lease_ms q).1.ready ≡ q.ready ++ []
  unfolding claim
  claim_fifo now lease_ms q = by_list q.ready refl
    where
      by_list :
          (xs : List ℕ)
          → q.ready ≡ xs
          → handed (claim r now lease_ms q).0 ++ (claim r now lease_ms q).1.ready ≡ q.ready ++ []
      by_list [] e = rw (append_nil, e, laws.lpop_nil) refl
      by_list (x ∷ xs) e = rw (append_nil, e, laws.lpop_cons x xs) refl

  abbrev InOrder : List ℕ → Queue r → Queue r → Type 0
  InOrder ids q q' = (later : List ℕ) × (ids ++ q'.ready ≡ q.ready ++ later)

  unmoved : (q : Queue r) → InOrder [] q q
  unmoved q = ([], sym (append_nil q.ready))

  extend_ready :
      (now id lease_ms : ℕ) (q : Queue r) → (extend_lease r now id lease_ms q).1.ready ≡ q.ready
  unfolding extend_lease
  extend_ready now id lease_ms q = ground arith

  Step-fifo : (q : Queue r) (ids : List ℕ) (q' : Queue r) → Step r q ids q' → InOrder ids q q'
  unfolding enqueue enqueue_delayed extend_lease ack requeue_expired promote_due
  Step-fifo q ids q' (enqueues id) = elim (Bool-cases ((r.sadd id q.members).1 == 1)) [
    | inl e ↦ (id ∷ [], rw e (laws.rpush_lem id q.ready))
    | inr e ↦ ([], rw e (sym (append_nil q.ready)))
  ]
  Step-fifo q ids q' (enqueues_later now id delay) =
      elim (Bool-cases ((r.zrem id q.leases).1 == 1 || (r.sadd id q.members).1 == 1)) [
        | inl e ↦ ([], rw e (sym (append_nil q.ready)))
        | inr e ↦ ([], rw e (sym (append_nil q.ready)))
      ]
  Step-fifo q ids q' (claims now lease_ms) = ([], claim_fifo now lease_ms q)
  Step-fifo q ids q' (extends now id lease_ms) =
      ([], extend_ready now id lease_ms q ∙ sym (append_nil q.ready))
  Step-fifo q ids q' (acks id) = elim (Bool-cases ((r.zrem id q.leases).1 == 1)) [
    | inl e ↦ ([], rw e (sym (append_nil q.ready)))
    | inr e ↦ ([], rw e (sym (append_nil q.ready)))
  ]
  Step-fifo q ids q' (reaps now limit) =
      move_append r laws (r.zrange_by_score now limit q.leases) q.leases q.ready
  Step-fifo q ids q' (promotes now limit) =
      move_append r laws (r.zrange_by_score now limit q.delayed) q.delayed q.ready

  -- The ids in the ready list are handed out before any that enters later, and in order: after any
  -- scripts the ids handed out, followed by those still ready, are those that were ready, followed
  -- by others.
  pub Trace-fifo :
      (q : Queue r) (ids : List ℕ) (q' : Queue r)
      → Trace r q ids q'
      → (later : List ℕ) × (ids ++ q'.ready ≡ q.ready ++ later)
  Trace-fifo q ids q' start = unmoved q
  Trace-fifo q ids q' (next {xs = xs} {ys = ys} {q' = p} t s) =
      let (first_ones, h) = Trace-fifo q xs p t in
      let (then_ones, k) = Step-fifo p ys q' s in
      (
        first_ones ++ then_ones,
        append_assoc xs ys q'.ready
            ∙ (ap (λ zs. xs ++ zs) k
                ∙ (sym (append_assoc xs p.ready then_ones)
                    ∙ (ap (λ zs. zs ++ then_ones) h ∙ append_assoc q.ready first_ones then_ones))),
      )

  -- A retry of the task that a worker holds survives the worker's `ack`: the `ack` is refused, and
  -- the id stays a member, due at its time.
  pub enqueue_delayed-ack :
      (ids : List ℕ) (q : Queue r) (now id delay until : ℕ)
      → Trace r (empty_queue r) ids q
      → r.zscore id q.leases ≡ some until
      → let later = (enqueue_delayed r now id delay q).1 in
        ((ack r id later).0 ≡ false)
        × (r.zscore id (ack r id later).1.delayed ≡ some (now + delay))
        × (r.sismember id (ack r id later).1.members ≡ true)
  unfolding enqueue_delayed ack
  enqueue_delayed-ack ids q now id delay until t h = ground (
    arith,
    Trace-IsSound ids q t id,
    laws.sadd_lem id id q.members,
    laws.zrem_lem id id q.leases,
    laws.zrem_reply id q.leases,
    laws.zrem_reply id (r.zrem id q.leases).0,
    laws.zadd_lem (now + delay) id id q.delayed,
  )

  -- A delayed id whose time has not come is not promoted, and keeps its time.
  pub promote_due-early :
      (q : Queue r) (now limit id until : ℕ)
      → r.zscore id q.delayed ≡ some until
      → now < until
      → (occurs id (promote_due r now limit q).0 ≡ 0)
        × (r.zscore id (promote_due r now limit q).1.delayed ≡ some until)
  unfolding promote_due
  promote_due-early q now limit id until h early = ground (
    arith,
    laws.zrange_sound now limit id q.delayed,
    move_score r laws (r.zrange_by_score now limit q.delayed) q.delayed q.ready id,
  )

  -- The id of a worker that crashed is ready again: a reaper that runs when its lease is over, and is
  -- not cut off by its limit, returns it and puts it into the ready list, once.
  pub requeue_expired-ready :
      (ids : List ℕ) (q : Queue r) (now limit id until : ℕ)
      → Trace r (empty_queue r) ids q
      → r.zscore id q.leases ≡ some until
      → until ≤ now
      → length (requeue_expired r now limit q).0 < limit
      → (occurs id (requeue_expired r now limit q).0 ≡ 1)
        × (occurs id (requeue_expired r now limit q).1.ready ≡ 1)
        × (r.zscore id (requeue_expired r now limit q).1.leases ≡ none)
  unfolding requeue_expired
  requeue_expired-ready ids q now limit id until t h over room = ground (
    arith,
    Trace-IsSound ids q t id,
    laws.zrange_complete now limit id q.leases room,
    move_score r laws (r.zrange_by_score now limit q.leases) q.leases q.ready id,
    move_place r laws (r.zrange_by_score now limit q.leases) q.leases q.ready id,
  )
