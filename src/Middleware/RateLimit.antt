-- ===== src/Middleware/RateLimit.antt =====
-- src/middleware/rateLimit.js: the script SLIDING_WINDOW and rateLimit. `now` is Redis's clock, and
-- `id` stands for the member `<now>-<pid>-<seq>`. A caller is a number; none is a key that is null
-- or empty.
pub mod Log
pub mod Window
mod Examples
use ai_distributed_workflow.Base.{
  ℕ, suc, ◌+◌, ◌-◌, ◌/◌, max, Bool, true, false, Option, none, some, List, [], ◌∷◌, ◌==◌,
  if◌then◌else◌, ltb,
}
use ai_distributed_workflow.Base.Int.{ℤ, pos, negsuc, sub_ℕ}
use ai_distributed_workflow.Redis.{Redis}
use ai_distributed_workflow.Redis.Expiry.{Expiry}

-- The three numbers that the script returns.
pub record Decision : Type 0 where
  pub allowed : ℕ
  pub remaining : ℕ
  pub retry_after_ms : ℤ

pub data Error : Type 0 where
  rate_limiter_unavailable : Error
  -- retryAfterSeconds
  rate_limited : ℕ → Error

-- RateLimit-Limit and RateLimit-Remaining.
pub record Headers : Type 0 where
  pub limit : ℕ
  pub remaining : ℕ

-- How the middleware ends: the headers it set, and the argument of `next`.
pub record Outcome : Type 0 where
  pub headers : Option Headers
  pub error : Option Error

pub record Options : Type 0 where
  pub limit : ℕ
  pub window_ms : ℕ
  pub fail_closed : Bool

-- Math.max(1, Math.ceil(ms / 1000))
abbrev pub seconds : ℤ → ℕ
seconds (pos ms) = max 1 ((ms + 999) / 1000)
seconds (negsuc ms) = 1

abbrev pub refused : ℕ → ℕ → Option ℕ → Option Decision
refused now window none = none
refused now window (some oldest) =
    some (record { allowed = 0; remaining = 0; retry_after_ms = sub_ℕ (oldest + window) now })

module _ (r : Redis) (k : Expiry r) where
  -- SLIDING_WINDOW. The script throws, as the result none, if it refuses and the set is empty.
  unfoldable pub sliding_window : ℕ → ℕ → ℕ → ℕ → k.Key → Option Decision × k.Key
  sliding_window now window limit id x =
      let kept = k.update now (r.zrem_range_by_score (sub_ℕ now window)) x in
      let n = r.zcard (k.view now kept) in
      if ltb n limit
      then (
        some (record { allowed = 1; remaining = limit - n - 1; retry_after_ms = pos 0 }),
        k.pexpire now window (k.update now (r.zadd now id) kept),
      )
      else (refused now window (r.zlowest (k.view now kept)), kept)

  abbrev pub passed : Outcome
  passed = record { headers = none; error = none }

  -- The catch block.
  abbrev pub unavailable : Options → Outcome
  unavailable o =
      if o.fail_closed
      then record { headers = none; error = some rate_limiter_unavailable }
      else passed

  -- What follows the call of the script.
  unfoldable pub answer : Options → Option Decision → Outcome
  answer o none = unavailable o
  answer o (some d) = record {
    headers = some (record { limit = o.limit; remaining = d.remaining });
    error = if d.allowed == 0 then some (rate_limited (seconds d.retry_after_ms)) else none;
  }

  abbrev pub Store : Type 0
  Store = ℕ → k.Key

  abbrev pub put : ℕ → k.Key → Store → Store
  put who x s other = if who == other then x else s other

  -- rateLimitMiddleware. `redis_up` says whether the call to Redis gets through.
  unfoldable pub rate_limit : Options → Bool → ℕ → ℕ → Option ℕ → Store → Outcome × Store
  unfolding sliding_window answer
  rate_limit o redis_up now id none s = (passed, s)
  rate_limit o redis_up now id (some who) s =
      let (reply, x) = sliding_window now o.window_ms o.limit id (s who) in
      if redis_up then (answer o reply, put who x s) else (unavailable o, s)
