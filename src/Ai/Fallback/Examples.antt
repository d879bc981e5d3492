-- ===== src/Ai/Fallback/Examples.antt =====
-- Two providers of which the first rejects a request during its trial call.
use ai_distributed_workflow.Base.{ℕ, ◌≡◌, refl, false, String, [], ◌∷◌}
use ai_distributed_workflow.Ai.CircuitBreaker.{open_now, Options, Breaker, allow}
use ai_distributed_workflow.Ai.Fallback.{
  Outcome, Entry, chat_from, failed, no_error, rethrown, with_breaker,
}
use ai_distributed_workflow.Ai.Fallback.Laws.{chat_from-allow}

abbrev defaults : Options
defaults = record { failure_threshold = 3; cooldown_ms = 30000 }

abbrev local_model : Entry
local_model = record {
  name = "local";
  map_model = λ m. m;
  breaker = record { state = open_now; failures = 3; opened_at = 100; trial_in_flight = false };
}

abbrev rejects : ℕ → String → Outcome
rejects i m = failed false "bad request"

chat_from-allow_example :
    (left : Breaker) × (chat_from defaults
        (λ i. (40000, 40001))
        rejects
        "small"
        0
        no_error
        (local_model ∷ [])
      ≡ (rethrown "bad request", with_breaker local_model left ∷ []))
    × ((later : ℕ) → allow defaults later left ≡ (false, left))
chat_from-allow_example =
    chat_from-allow defaults (λ i. (40000, 40001)) rejects "small" 0 no_error local_model []
      "bad request" refl refl
