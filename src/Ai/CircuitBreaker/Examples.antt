-- ===== src/Ai/CircuitBreaker/Examples.antt =====
-- The circuit breaker of src/ai/providers/circuitBreaker.js with its default options.
use ai_distributed_workflow.Base.{refl, ◌≡◌, arith}
use ai_distributed_workflow.Ai.CircuitBreaker.{
  Options, allow, Breaker, open_now, failure, closed, false, true,
}
use ai_distributed_workflow.Ai.CircuitBreaker.Laws.{failure-allow, allow_once}

abbrev defaults : Options
defaults = record { failure_threshold = 3; cooldown_ms = 30000 }

abbrev twice_failed : Breaker
twice_failed = record { state = closed; failures = 2; opened_at = 0; trial_in_flight = false }

abbrev opened : Breaker
opened = record { state = open_now; failures = 3; opened_at = 100; trial_in_flight = false }

failure-allow_example :
    allow defaults 200 (failure defaults 100 twice_failed)
    ≡ (false, failure defaults 100 twice_failed)
failure-allow_example = failure-allow defaults 100 200 twice_failed refl (omega arith)

allow_once_example :
    ((allow defaults 30100 opened).0 ≡ true)
    × (allow defaults 30200 (allow defaults 30100 opened).1
        ≡ (false, (allow defaults 30100 opened).1))
allow_once_example = allow_once defaults 30100 30200 opened refl
