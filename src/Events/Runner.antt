-- ===== src/Events/Runner.antt =====
-- src/events/relay.js: createRelayRunner. The timer is left out: `tick` is what it calls, with the
-- time of Redis, the token that randomUUID gives, and which of the calls to Redis get through.
pub mod Leading
mod Examples
use ai_distributed_workflow.Base.{
  some, none, ℕ, Bool, true, false, Option, none, some, if◌then◌else◌,
}
use ai_distributed_workflow.Base.Result.{Result, ok, err, Call, continue}
use ai_distributed_workflow.Mongo.Driver.{Mongo}
use ai_distributed_workflow.Redis.Keys.{Keys}
use ai_distributed_workflow.Queues.Lock.{Lock, Held, set_token, next_fence, extend, release}
use ai_distributed_workflow.Events.Relay.{Deps, Outbox, Failure, lock_failed, drain}

pub record Now : Type 0 where
  pub time : ℕ
  pub token : ℕ
  pub extend_up : Bool
  pub set_up : Bool
  pub incr_up : Bool
  pub release_up : Bool
  -- The time of each round of the loop.
  pub clock : ℕ → ℕ

module _ (k : Keys) where
  pub record Runner : Type 0 where
    pub lock : Lock k
    pub held : Option Held
    pub busy : Bool
    pub outbox : Outbox

  abbrev pub extend_held : ℕ → Now → Option Held → Call Runner Failure (Unit {0})
  extend_held ttl at none s = (ok tt, s)
  extend_held ttl at (some h) s =
      let (still, lock) = extend k at.time h.token ttl s.lock in
      if at.extend_up
      then (ok tt, record s { lock = lock; held = if still then some h else none })
      else (err lock_failed, s)

  -- `acquire`: INCR follows on a SET that wrote, and if it fails the token stays in the lock.
  abbrev pub count_fence : Now → Bool × Lock k → Runner → Result Failure (Unit {0}) × Runner
  count_fence at (false, l) s = (ok tt, record s { lock = l; held = none })
  count_fence at (true, l) s =
      let (held, l') = next_fence k at.token l in
      if at.incr_up
      then (ok tt, record s { lock = l'; held = some held })
      else (err lock_failed, record s { lock = l })

  abbrev pub take_lead : ℕ → Now → Option Held → Call Runner Failure (Unit {0})
  take_lead ttl at (some h) s = (ok tt, s)
  take_lead ttl at none s =
      if at.set_up
      then count_fence at (set_token k at.time ttl at.token s.lock) s
      else (err lock_failed, s)

  -- The two ifs on `held` of `tick`.
  unfoldable pub lead : ℕ → Now → Call Runner Failure (Unit {0})
  lead ttl at s =
      let (reply, s') = extend_held ttl at s.held s in
      continue (reply, s') (λ _ t. take_lead ttl at t.held t)

  module _ (m : Mongo) (d : Deps) where
    abbrev pub drain_if : Option Held → Now → Runner → Runner
    drain_if none at s = s
    drain_if (some h) at s = record s { outbox = (drain m d 20 at.clock s.outbox).1 }

    -- The rest of `tick`; an exception is logged and forgotten.
    abbrev pub after_lead : Now → Result Failure (Unit {0}) × Runner → Runner
    after_lead at (ok _, s) = drain_if s.held at s
    after_lead at (err e, s) = s

    unfoldable pub tick : ℕ → Now → Runner → Runner
    unfolding lead
    tick ttl at s =
        let s' = after_lead at (lead ttl at (record s { busy = true })) in
        if s.busy then s else record s' { busy = false }

  abbrev pub release_held : Now → Option Held → Lock k → Lock k
  release_held at none lock = lock
  release_held at (some h) lock = if at.release_up then (release k at.time h.token lock).1 else lock

  -- stop
  unfoldable pub stop : Now → Runner → Runner
  stop at s = record s { lock = release_held at s.held s.lock; held = none }
