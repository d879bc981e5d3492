-- ===== src/Ai/CircuitBreaker/Laws.antt =====
-- What the circuit breaker of src/ai/providers/circuitBreaker.js promises.
use ai_distributed_workflow.Base.{ℕ, suc, ◌+◌, ◌<◌, ◌≡◌, true, false, arith, ◌||◌}
use ai_distributed_workflow.Ai.CircuitBreaker.{
  failure, allow, Options, Breaker, is_cooled, is_half_open, leb,
}

-- A failure of the trial call, or one with which the counted failures reach the threshold, opens
-- the circuit: until the cooldown is over a call is refused and the state stays as it is.
pub failure-allow :
    (o : Options) (failed now : ℕ) (b : Breaker)
    → (is_half_open b.state || leb o.failure_threshold (suc b.failures)) ≡ true
    → now < failed + o.cooldown_ms
    → allow o now (failure o failed b) ≡ (false, failure o failed b)
unfolding failure allow
failure-allow o failed now b trips early = ground (arith, trips, early)

-- When the cooldown of an open circuit is over, a call is allowed, and after it each call, at any
-- time, is refused and leaves the state as it is.
pub allow_once :
    (o : Options) (now later : ℕ) (b : Breaker)
    → is_cooled o now b ≡ true
    → ((allow o now b).0 ≡ true) × (allow o later (allow o now b).1 ≡ (false, (allow o now b).1))
unfolding allow
allow_once o now later b cooled = (ground (arith, cooled), ground (arith, cooled))
