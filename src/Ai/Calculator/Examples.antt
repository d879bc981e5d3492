-- ===== src/Ai/Calculator/Examples.antt =====
-- src/ai/agent/calculator.js on small texts, over natural numbers.
use ai_distributed_workflow.Base.{
  none, arith, ℕ, ◌≡◌, refl, true, List, [], ◌∷◌, ◌+◌, ◌*◌, ◌==◌, ltb,
}
use ai_distributed_workflow.Base.Result.{ok, err}
use ai_distributed_workflow.Ai.Calculator.Printing.{
  Expr, literal, negated, binary, plus, minus, times, power, show, well_formed, value,
}
use ai_distributed_workflow.Ai.Calculator.RoundTrip.{final, evaluate_arithmetic-show}
use ai_distributed_workflow.Ai.Calculator.{Floats, evaluate_arithmetic, missing_parenthesis}

value_of : ℕ → List ℕ → ℕ
value_of n [] = n
value_of n (c ∷ cs) = value_of (10 * n + c) cs

abbrev naturals : Floats
naturals = record {
  Num = ℕ;
  number = λ t. value_of 0 t;
  neg = λ x. x;
  add = λ x y. x + y;
  sub = λ x y. x;
  mul = λ x y. x * y;
  div = λ x y. x;
  rem = λ x y. x;
  pow = λ x y. x * x;
  is_zero = λ x. x == 480;
  is_large = λ x. ltb 1000 x;
  is_finite = λ x. true;
  rounded = λ x. x;
}

precedence :
    evaluate_arithmetic naturals (b'1' ∷ b' ' ∷ b'+' ∷ b'2' ∷ b'*' ∷ b'3' ∷ []) ≡ ok (49 + 50 * 51)
unfolding evaluate_arithmetic value_of
precedence = refl

unclosed : evaluate_arithmetic naturals (b'(' ∷ b'1' ∷ []) ≡ err missing_parenthesis
unfolding evaluate_arithmetic value_of
unclosed = refl

-- 1 - 2 - 3 * (4 + -5) ^ 2
abbrev sample : Expr
sample = binary minus (binary minus (literal (b'1' ∷ []) none) (literal (b'2' ∷ []) none)) (
    binary times (literal (b'3' ∷ []) none) (
      binary power (binary plus (literal (b'4' ∷ []) none) (negated (literal (b'5' ∷ []) none)))
        (literal (b'2' ∷ []) none)))

sample_shown :
    show 0 0 sample
    ≡ b'1' ∷ b'-' ∷ b'2' ∷ b'-' ∷ b'3' ∷ b'*' ∷ b'(' ∷ b'4' ∷ b'+' ∷ b'-' ∷ b'5' ∷ b')' ∷ b'^'
      ∷ b'2' ∷ []
unfolding show
sample_shown = refl

evaluate_arithmetic-show_example :
    evaluate_arithmetic naturals (show 1 0 sample) ≡ final naturals (value naturals sample)
unfolding show well_formed
evaluate_arithmetic-show_example = evaluate_arithmetic-show naturals 1 sample refl (omega arith)
