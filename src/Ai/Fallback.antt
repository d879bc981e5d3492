-- ===== src/Ai/Fallback.antt =====
-- src/ai/providers/fallback.js: providers in order, each behind its circuit. The clock gives,
-- for the i-th provider, the times at which its circuit is asked and told of a failure.
pub mod Laws
mod Examples
use ai_distributed_workflow.Base.{ℕ, suc, Bool, true, false, String, List, [], ◌∷◌, ltb}
use ai_distributed_workflow.Ai.CircuitBreaker.{Breaker, Options, allow, success, failure}

-- What a provider does with a request; `failed false` is an error whose `retryable` is false.
pub data Outcome : Type 0 where
  answered : String → Outcome
  failed : Bool → String → Outcome

-- One element of `chain`; `map_model` is the identity where the entry has none.
pub record Entry : Type 0 where
  pub name : String
  pub map_model : String → String
  pub breaker : Breaker

-- `lastError`
pub data LastError : Type 0 where
  no_error : LastError
  circuit_open : String → LastError
  provider_failed : String → LastError

pub data Reply : Type 0 where
  reply : String → String → Bool → Reply
  rethrown : String → Reply
  all_failed : LastError → Reply

abbrev pub with_breaker : Entry → Breaker → Entry
with_breaker e b = record e { breaker = b }

abbrev pub behind : Entry → Reply × List Entry → Reply × List Entry
behind e (r, es) = (r, e ∷ es)

module _ (o : Options) (clock : ℕ → ℕ × ℕ) (ask : ℕ → String → Outcome) (model : String) where
  -- The loop from the i-th provider on: the reply, and the chain after it.
  unfoldable pub chat_from : ℕ → LastError → List Entry → Reply × List Entry
  unfolding allow success failure
  chat_from i last [] = (all_failed last, [])
  chat_from i last (e ∷ es) =
      let asked = allow o (clock i).0 e.breaker in
      elim asked.0 [
        | false ↦ behind (with_breaker e asked.1) (chat_from (suc i) (circuit_open e.name) es)
        | true ↦ elim (ask i (e.map_model model)) [
          | answered r ↦ (reply r e.name (ltb 0 i), with_breaker e (success asked.1) ∷ es)
          | failed false why ↦ (rethrown why, with_breaker e asked.1 ∷ es)
          | failed true why ↦
              behind (with_breaker e (failure o (clock i).1 asked.1))
                (chat_from (suc i) (provider_failed why) es)
        ]
      ]

pub data Embedded : Type 0 where
  embedded : String → String → Embedded
  embed_refused : String → Embedded
  embed_rethrown : String → Embedded
  -- `chain[0]` of an empty chain is undefined.
  no_provider : Embedded

-- embed: only the first provider is asked, with the two times as for chat.
unfoldable pub embed : Options → ℕ × ℕ → Outcome → List Entry → Embedded × List Entry
unfolding allow success failure
embed o at answer [] = (no_provider, [])
embed o at answer (e ∷ es) =
    let asked = allow o at.0 e.breaker in
    elim asked.0 [
      | false ↦ (embed_refused e.name, with_breaker e asked.1 ∷ es)
      | true ↦ elim answer [
        | answered r ↦ (embedded r e.name, with_breaker e (success asked.1) ∷ es)
        | failed false why ↦ (embed_rethrown why, with_breaker e asked.1 ∷ es)
        | failed true why ↦ (embed_rethrown why, with_breaker e (failure o at.1 asked.1) ∷ es)
      ]
    ]
