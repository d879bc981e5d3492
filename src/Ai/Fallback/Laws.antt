-- ===== src/Ai/Fallback/Laws.antt =====
-- The chain of src/ai/providers/fallback.js and its circuits.
use ai_distributed_workflow.Base.{ap, Bool, ℕ, ◌≡◌, refl, true, false, String, List, ◌∷◌, arith}
use ai_distributed_workflow.Ai.Fallback.{
  chat_from, Options, Outcome, LastError, Entry, failed, rethrown, with_breaker,
}
use ai_distributed_workflow.Ai.CircuitBreaker.{is_cooled, Breaker, allow}
use ai_distributed_workflow.Ai.CircuitBreaker.Laws.{allow_once}

-- One round of the loop, when the circuit lets the call through and the provider rejects it.
round-rejected :
    (o : Options) (clock : ℕ → ℕ × ℕ) (ask : ℕ → String → Outcome) (model : String) (i : ℕ)
    (last : LastError) (e : Entry) (es : List Entry) (why : String) (asked : Bool × Breaker)
    → allow o (clock i).0 e.breaker ≡ asked
    → asked.0 ≡ true
    → ask i (e.map_model model) ≡ failed false why
    → chat_from o clock ask model i last (e ∷ es) ≡ (rethrown why, with_breaker e asked.1 ∷ es)
unfolding chat_from
round-rejected o clock ask model i last e es why (true, b) q h rejected =
    rw (chat_from, q, rejected) (ap (λ a. (rethrown why, with_breaker e a.1 ∷ es)) q)
round-rejected o clock ask model i last e es why (false, b) q h rejected =
    absurd (ground (arith, h))

-- When the first provider's circuit is cooled down and the provider rejects the request for good,
-- the error is rethrown, the circuits of the other providers stay as they are, and the circuit that
-- is left refuses every later call, at any time, without a change of state.
pub chat_from-allow :
    (o : Options) (clock : ℕ → ℕ × ℕ) (ask : ℕ → String → Outcome) (model : String) (i : ℕ)
    (last : LastError) (e : Entry) (es : List Entry) (why : String)
    → is_cooled o (clock i).0 e.breaker ≡ true
    → ask i (e.map_model model) ≡ failed false why
    → (left : Breaker) × (chat_from o clock ask model i last (e ∷ es)
        ≡ (rethrown why, with_breaker e left ∷ es))
      × ((later : ℕ) → allow o later left ≡ (false, left))
chat_from-allow o clock ask model i last e es why cooled rejected = (
  (allow o (clock i).0 e.breaker).1,
  round-rejected o clock ask model i last e es why (allow o (clock i).0 e.breaker) refl
      (allow_once o (clock i).0 0 e.breaker cooled).0 rejected,
  λ later. (allow_once o (clock i).0 later e.breaker cooled).1,
)
