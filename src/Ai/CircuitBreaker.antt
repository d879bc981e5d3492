-- ===== src/Ai/CircuitBreaker.antt =====
-- src/ai/providers/circuitBreaker.js: the state of one provider, and its operations at a time.
pub mod Laws
mod Examples
use ai_distributed_workflow.Base.{
  ℕ, suc, ◌+◌, Bool, true, false, if◌then◌else◌, leb, ◌||◌, not, ◌&&◌,
}

pub data Circuit : Type 0 where
  closed open_now half_open : Circuit

pub record Breaker : Type 0 where
  pub state : Circuit
  pub failures : ℕ
  pub opened_at : ℕ
  pub trial_in_flight : Bool

-- The options of createCircuitBreaker.
pub record Options : Type 0 where
  pub failure_threshold : ℕ
  pub cooldown_ms : ℕ

abbrev pub is_open_now : Circuit → Bool
is_open_now open_now = true
is_open_now _ = false

abbrev pub is_half_open : Circuit → Bool
is_half_open half_open = true
is_half_open _ = false

abbrev pub is_closed : Circuit → Bool
is_closed closed = true
is_closed _ = false

abbrev pub new_breaker : Breaker
new_breaker = record { state = closed; failures = 0; opened_at = 0; trial_in_flight = false }

-- `state === "OPEN" && now() - openedAt >= cooldownMs`
abbrev pub is_cooled : Options → ℕ → Breaker → Bool
is_cooled o now b = is_open_now b.state && leb (b.opened_at + o.cooldown_ms) now

abbrev pub half_opened : Options → ℕ → Breaker → Breaker
half_opened o now b =
    if is_cooled o now b then record b { state = half_open; trial_in_flight = false } else b

abbrev pub admit : Breaker → Bool × Breaker
admit b =
    if is_closed b.state
    then (true, b)
    else if is_half_open b.state && not b.trial_in_flight
    then (true, record b { trial_in_flight = true })
    else (false, b)

-- allow
unfoldable pub allow : Options → ℕ → Breaker → Bool × Breaker
allow o now b = admit (half_opened o now b)

-- success
unfoldable pub success : Breaker → Breaker
success b = record b { state = closed; failures = 0; trial_in_flight = false }

-- failure
unfoldable pub failure : Options → ℕ → Breaker → Breaker
failure o now b =
    let counted = record b { failures = suc b.failures; trial_in_flight = false } in
    if is_half_open b.state || leb o.failure_threshold (suc b.failures)
    then record counted { state = open_now; opened_at = now }
    else counted

-- The getter `state`.
unfoldable pub state_at : Options → ℕ → Breaker → Circuit
state_at o now b = if is_cooled o now b then half_open else b.state
