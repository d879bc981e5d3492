-- ===== src/Scheduler/Tick.antt =====
-- src/scheduler/scheduler.js, createScheduler: the tick of a server that may be the leader. The timer
-- is left out: `tick` is what it calls, with the time of Redis, the token that randomUUID gives, and
-- which of the calls to Redis get through.
use ai_distributed_workflow.Base.{ℕ, Bool, true, false, Option, none, some, List, if◌then◌else◌}
use ai_distributed_workflow.Base.Result.{Result, ok, err, Call, continue}
use ai_distributed_workflow.Mongo.Driver.{Mongo}
use ai_distributed_workflow.Redis.Keys.{Keys}
use ai_distributed_workflow.Queues.Lock.{Lock, Held, set_token, next_fence, extend, release}
use ai_distributed_workflow.Engine.Model.{Deps}
use ai_distributed_workflow.Services.Workflows.{Document, Error, thrown}
use ai_distributed_workflow.Scheduler.Cron.{CronParser}
use ai_distributed_workflow.Scheduler.Due.{Site, Texts, run_due}

pub record Now : Type 0 where
  pub time : ℕ
  pub token : ℕ
  pub extend_up : Bool
  pub set_up : Bool
  pub incr_up : Bool
  pub release_up : Bool
  -- `now()` of runDue, and the times of the starts.
  pub current : ℕ
  pub clock : ℕ → ℕ

module _ (k : Keys) where
  pub record Server : Type 0 where
    pub lock : Lock k
    pub held : Option Held
    pub busy : Bool
    pub site : Site

  abbrev pub extend_held : ℕ → Now → Option Held → Call Server Error (Unit {0})
  extend_held ttl at none s = (ok tt, s)
  extend_held ttl at (some h) s =
      let (still, lock) = extend k at.time h.token ttl s.lock in
      if at.extend_up
      then (ok tt, record s { lock = lock; held = if still then some h else none })
      else (err thrown, s)

  -- `acquire`: INCR follows on a SET that wrote, and if it fails the token stays in the lock.
  abbrev pub count_fence : Now → Bool × Lock k → Server → Result Error (Unit {0}) × Server
  count_fence at (false, l) s = (ok tt, record s { lock = l; held = none })
  count_fence at (true, l) s =
      let (held, l') = next_fence k at.token l in
      if at.incr_up
      then (ok tt, record s { lock = l'; held = some held })
      else (err thrown, record s { lock = l })

  abbrev pub take_lead : ℕ → Now → Option Held → Call Server Error (Unit {0})
  take_lead ttl at (some h) s = (ok tt, s)
  take_lead ttl at none s =
      if at.set_up
      then count_fence at (set_token k at.time ttl at.token s.lock) s
      else (err thrown, s)

  -- The two ifs on `held` of `tick`.
  unfoldable pub lead : ℕ → Now → Call Server Error (Unit {0})
  lead ttl at s =
      let (reply, s') = extend_held ttl at s.held s in
      continue (reply, s') (λ _ t. take_lead ttl at t.held t)

  module _ (m : Mongo) (d : Deps) (c : CronParser) (texts : Texts)
      (by_time : List Document → List Document) (batch_size : ℕ) where
    abbrev pub at_site : Server → Result Error ℕ × Site → Result Error ℕ × Server
    at_site s (r, site) = (r, record s { site = site })

    abbrev pub run_if : Option Held → Now → Call Server Error ℕ
    run_if none at s = (ok 0, s)
    run_if (some h) at s =
        at_site s (run_due m d c texts by_time batch_size at.current at.clock s.site)

    -- `catch` and `finally`: an exception is logged, and the answer is 0.
    abbrev pub settled : Result Error ℕ × Server → ℕ × Server
    settled (ok n, s) = (n, record s { busy = false })
    settled (err e, s) = (0, record s { busy = false })

    unfoldable pub tick : ℕ → Now → Server → ℕ × Server
    unfolding lead run_due
    tick ttl at s =
        let done =
          settled (continue (lead ttl at (record s { busy = true })) (λ _ t. run_if t.held at t)) in
        if s.busy then (0, s) else done

  abbrev pub release_held : Now → Option Held → Lock k → Lock k
  release_held at none lock = lock
  release_held at (some h) lock = if at.release_up then (release k at.time h.token lock).1 else lock

  -- stop
  unfoldable pub stop : Now → Server → Server
  stop at s = record s { lock = release_held at s.held s.lock; held = none }
