-- ===== src/Base/Int.antt =====
-- Counters that `$inc` may take below zero: the integers over the native numbers.
use ai_distributed_workflow.Base.Tests.{ltb, leb, ◌==◌, if◌then◌else◌}
use Prim.Native.Nat.{ℕ, suc, ◌+◌, ◌-◌, ◌≤◌}
use mathlib.Core.Path.{◌≡◌}
use mathlib.Core.Bool.{Bool, true, false}
use native.Mathlib.Omega.{arith}

-- `negsuc n` is -(n + 1).
pub data ℤ : Type 0 where
  pos : ℕ → ℤ
  negsuc : ℕ → ℤ

-- a - b, as an integer.
abbrev pub sub_ℕ : ℕ → ℕ → ℤ
sub_ℕ a b = if leb b a then pos (a - b) else negsuc (b - a - 1)

abbrev pub ltb_ℤ : ℤ → ℤ → Bool
ltb_ℤ (pos a) (pos b) = ltb a b
ltb_ℤ (pos a) (negsuc b) = false
ltb_ℤ (negsuc a) (pos b) = true
ltb_ℤ (negsuc a) (negsuc b) = ltb b a

-- `{ $inc: { field: -n } }` on the field's value.
abbrev pub decrease : ℤ → ℕ → ℤ
decrease (pos a) n = sub_ℕ a n
decrease (negsuc a) n = negsuc (a + n)

abbrev pub is_zero : ℤ → Bool
is_zero (pos a) = a == 0
is_zero (negsuc a) = false

-- The least natural number that is at least the integer, and the order against a natural number.
abbrev pub AtLeast : ℤ → ℕ → Type 0
AtLeast (pos a) n = n ≤ a
AtLeast (negsuc a) n = suc n ≤ 0

pub decrease-pos : (a n k : ℕ) → a + n ≡ k → decrease (pos k) n ≡ pos a
decrease-pos a n k e = ground arith
