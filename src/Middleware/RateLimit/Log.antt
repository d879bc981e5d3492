-- ===== src/Middleware/RateLimit/Log.antt =====
-- Counts of the times of requests, for src/middleware/rateLimit.js.
use ai_distributed_workflow.Base.{
  ℕ, ◌+◌, ◌≡◌, ◌≤◌, arith, false, List, [], ◌∷◌, ltb, leb, ◌&&◌, inl, inr, Bool-cases,
}
use ai_distributed_workflow.Base.Int.{pos, sub_ℕ, ltb_ℤ}
use ai_distributed_workflow.Redis.{bit}

-- How many of the times are less than `window` before `now`, or after it.
abbrev pub recent : ℕ → ℕ → List ℕ → ℕ
recent window now [] = 0
recent window now (x ∷ xs) = bit (ltb now (x + window)) + recent window now xs

-- How many of the times are after `from`, and at most `window` after it.
abbrev pub within : ℕ → ℕ → List ℕ → ℕ
within window from [] = 0
within window from (x ∷ xs) = bit (ltb from x && leb x (from + window)) + within window from xs

-- At each of the times, with the later first, at most `limit` were recent.
abbrev pub Limited : ℕ → ℕ → List ℕ → Type 0
Limited window limit [] = Unit
Limited window limit (x ∷ xs) = (recent window x (x ∷ xs) ≤ limit) × Limited window limit xs

pub within-recent :
    (window from now : ℕ) (xs : List ℕ)
    → now ≤ from + window
    → within window from xs ≤ recent window now xs
within-recent window from now [] le = ground arith
within-recent window from now (x ∷ xs) le =
    let h = within-recent window from now xs le in ground (arith, h, le)

pub Limited-within :
    (window limit from : ℕ) (xs : List ℕ) → Limited window limit xs → within window from xs ≤ limit
Limited-within window limit from [] l = ground arith
Limited-within window limit from (x ∷ xs) (h, l) =
    let below = Limited-within window limit from xs l in
    elim (Bool-cases (leb x (from + window))) [
      | inl e ↦
          let k = within-recent window from x (x ∷ xs) (ground (arith, e)) in ground (arith, h, k)
      | inr e ↦ ground (arith, e, below)
    ]

pub above_sub : (window m x : ℕ) → ltb_ℤ (sub_ℕ m window) (pos x) ≡ ltb m (x + window)
above_sub window m x = ground arith

pub sub_above : (window m now : ℕ) → now ≤ m → ltb_ℤ (sub_ℕ m window) (sub_ℕ now window) ≡ false
sub_above window m now le = ground (arith, le)
