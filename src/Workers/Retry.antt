-- ===== src/Workers/Retry.antt =====
-- src/workers/retry.js: which errors deserve a retry, and how long to wait.
use ai_distributed_workflow.Base.{
  ℕ, ◌-◌, ◌*◌, ◌^◌, Bool, true, false, Option, some, min, if◌then◌else◌,
}
use ai_distributed_workflow.Engine.Model.{Text}

-- An `Error` object: the class tests that the program makes of it, and its fields.
pub record ErrorInfo : Type 0 where
  pub is_non_retryable : Bool
  pub is_timeout : Bool
  pub retryable : Option Bool
  pub message : Option Text
  pub as_text : Text

-- What a handler can throw: null or undefined, a value that is no object, an error.
pub data Thrown : Type 0 where
  nullish : Thrown
  primitive : Text → Thrown
  error : ErrorInfo → Thrown

abbrev pub not_false : Option Bool → Bool
not_false (some false) = false
not_false _ = true

-- isRetryable
unfoldable pub is_retryable : Thrown → Bool
is_retryable nullish = true
is_retryable (primitive _) = true
is_retryable (error e) = if e.is_non_retryable then false else not_false e.retryable

-- The `cap` of computeBackoff, in milliseconds.
unfoldable pub backoff_cap : ℕ → ℕ → ℕ → ℕ
backoff_cap attempt base max_delay = min max_delay (base * 2 ^ (attempt - 1))

-- computeBackoff: `scale cap` is `Math.floor(random() * cap)`.
unfoldable pub compute_backoff : (ℕ → ℕ) → ℕ → ℕ → ℕ → ℕ
unfolding backoff_cap
compute_backoff scale attempt base max_delay = scale (backoff_cap attempt base max_delay)
