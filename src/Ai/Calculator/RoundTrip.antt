-- ===== src/Ai/Calculator/RoundTrip.antt =====
-- evaluateArithmetic of src/ai/agent/calculator.js on the text of an expression.
use ai_distributed_workflow.Base.{
  ℕ, ◌≡◌, ◌≤◌, true, false, Option, [], ◌∷◌, ◌++◌, ◌+◌, ◌*◌, length, if◌then◌else◌, refl, arith,
  subst, ◌∙◌, ap, ltb,
}
use ai_distributed_workflow.Mongo.Counting.{append_nil}
use ai_distributed_workflow.Base.Result.{Result, ok, err}
use ai_distributed_workflow.Engine.Model.{Text}
use ai_distributed_workflow.Ai.Calculator.{
  is_product, Floats, Error, expr, not_finite, evaluate_arithmetic, finish, skip,
}
use ai_distributed_workflow.Ai.Calculator.Printing.{
  Expr, Op, apply, binary, both, enclosed, gap, left, literal, minus, modulo, negated, numeral,
  over, plus, power, right, show, sign, times, value, well_formed,
}
use ai_distributed_workflow.Ai.Calculator.Rules.{is_sum, Reads, leaving}
use ai_distributed_workflow.Ai.Calculator.Chains.{Reads-expr_end}
use ai_distributed_workflow.Ai.Calculator.Levels.{
  AsUnary, AsFactor, AsTerm, AsExpr, factor_of, term_of, expr_of, AsUnary-enclosed, AsUnary-literal,
  AsUnary-negated, AsFactor-power, AsTerm-product, AsExpr-sum,
}
use ai_distributed_workflow.Ai.Calculator.Texts.{
  gap_long, append_long, show_long, show_allowed, long-nonempty,
}

module _ (f : Floats) (g : ℕ) where
  -- At each strength the text is read as the rule for it wants.
  record IsRead (e : Expr) : Type 0 where
    as_unary : AsUnary f (show g 3 e) (value f e)
    as_factor : AsFactor f (show g 2 e) (value f e)
    as_term : AsTerm f (show g 1 e) (value f e)
    as_expr : AsExpr f (show g 0 e) (value f e)

  operand_read :
      (x : Text) (r : Result Error f.Num)
      → 1 ≤ length x
      → AsUnary f x r
      → AsUnary f x r × AsFactor f x r × AsTerm f x r × AsExpr f x r
  operand_read x r long u =
      let v = factor_of f x r u in let t = term_of f x r long v in (u, v, t, expr_of f x r long t)

  literal-IsRead :
      (d : ℕ) (ds : Text) (fs : Option Text)
      → well_formed (literal (d ∷ ds) fs) ≡ true
      → IsRead (literal (d ∷ ds) fs)
  unfolding show value well_formed
  literal-IsRead d ds fs h =
      let (u, v, t, x) =
        operand_read (gap g (numeral (d ∷ ds) fs)) (ok (f.number (numeral (d ∷ ds) fs)))
          (show_long g 3 (literal (d ∷ ds) fs) h)
          (AsUnary-literal f g d ds fs (ground (arith, h)) (ground (arith, h))) in
      record { as_unary = u; as_factor = v; as_term = t; as_expr = x }

  negated-IsRead : (e : Expr) → IsRead e → IsRead (negated e)
  unfolding show value
  negated-IsRead e i =
      let (u, v, t, x) =
        operand_read (gap g (b'-' ∷ show g 3 e)) _ (gap_long g _ (omega arith))
          (AsUnary-negated f g (show g 3 e) (value f e) i.as_unary) in
      record { as_unary = u; as_factor = v; as_term = t; as_expr = x }

  -- In parentheses an operation is an operand.
  abbrev Enclosed : Text → Text
  Enclosed x = enclosed g true x

  enclosed_read :
      (x : Text) (r : Result Error f.Num)
      → AsExpr f x r
      → AsUnary f (Enclosed x) r
        × AsFactor f (Enclosed x) r
        × AsTerm f (Enclosed x) r
        × AsExpr f (Enclosed x) r
  enclosed_read x r t =
      operand_read (Enclosed x) r (gap_long g _ (omega arith)) (AsUnary-enclosed f g x r t)

  -- An operation, and the same in parentheses, of which the rules that are named read the operands.
  abbrev Operation : Op → Text → Text → Text
  Operation op x y = x ++ gap g (sign op ∷ y)

  operation_long : (op : Op) (x y : Text) → 1 ≤ length (Operation op x y)
  operation_long op x y = append_long x _ (gap_long g _ (omega arith))

  power_read :
      (x y : Text) (a b : Result Error f.Num)
      → AsUnary f x a
      → AsFactor f y b
      → let z = Operation power x y in
        let r = both f a b (apply f power) in
        AsUnary f (Enclosed z) r × AsFactor f z r × AsTerm f z r × AsExpr f z r
  power_read x y a b u v =
      let z = Operation power x y in
      let w = AsFactor-power f g x y a b u v in
      let t = term_of f z _ (operation_long power x y) w in
      let e = expr_of f z _ (operation_long power x y) t in ((enclosed_read z _ e).0, w, t, e)

  product_read :
      (op : Op) (x y : Text) (a b : Result Error f.Num)
      → is_product (sign op) ≡ true
      → AsTerm f x a
      → AsFactor f y b
      → let z = Operation op x y in
        let r = both f a b (apply f op) in
        AsUnary f (Enclosed z) r × AsFactor f (Enclosed z) r × AsTerm f z r × AsExpr f z r
  product_read op x y a b h t v =
      let z = Operation op x y in
      let w = AsTerm-product f op g x y a b h t v in
      let e = expr_of f z _ (operation_long op x y) w in
      let (u, v', _, _) = enclosed_read z _ e in (u, v', w, e)

  sum_read :
      (op : Op) (x y : Text) (a b : Result Error f.Num)
      → is_sum (sign op) ≡ true
      → AsExpr f x a
      → AsTerm f y b
      → let z = Operation op x y in
        let r = both f a b (apply f op) in
        AsUnary f (Enclosed z) r
        × AsFactor f (Enclosed z) r
        × AsTerm f (Enclosed z) r
        × AsExpr f z r
  sum_read op x y a b h e t =
      let z = Operation op x y in
      let w = AsExpr-sum f op g x y a b h e t in
      let (u, v, t', _) = enclosed_read z _ w in (u, v, t', w)

  binary-IsRead : (op : Op) (a b : Expr) → IsRead a → IsRead b → IsRead (binary op a b)
  unfolding show value
  binary-IsRead plus a b i j =
      let (u, v, t, e) =
        sum_read plus (show g (left plus) a) (show g (right plus) b) (value f a) (value f b) refl
          i.as_expr j.as_term in
      record { as_unary = u; as_factor = v; as_term = t; as_expr = e }
  binary-IsRead minus a b i j =
      let (u, v, t, e) =
        sum_read minus (show g (left minus) a) (show g (right minus) b) (value f a) (value f b) refl
          i.as_expr j.as_term in
      record { as_unary = u; as_factor = v; as_term = t; as_expr = e }
  binary-IsRead times a b i j =
      let (u, v, t, e) =
        product_read times (show g (left times) a) (show g (right times) b) (value f a) (value f b)
          refl i.as_term j.as_factor in
      record { as_unary = u; as_factor = v; as_term = t; as_expr = e }
  binary-IsRead over a b i j =
      let (u, v, t, e) =
        product_read over (show g (left over) a) (show g (right over) b) (value f a) (value f b)
          refl i.as_term j.as_factor in
      record { as_unary = u; as_factor = v; as_term = t; as_expr = e }
  binary-IsRead modulo a b i j =
      let (u, v, t, e) =
        product_read modulo (show g (left modulo) a) (show g (right modulo) b) (value f a)
          (value f b) refl i.as_term j.as_factor in
      record { as_unary = u; as_factor = v; as_term = t; as_expr = e }
  binary-IsRead power a b i j =
      let (u, v, t, e) =
        power_read (show g (left power) a) (show g (right power) b) (value f a) (value f b)
          i.as_unary j.as_factor in
      record { as_unary = u; as_factor = v; as_term = t; as_expr = e }

  show-IsRead : (e : Expr) → well_formed e ≡ true → IsRead e
  unfolding well_formed
  show-IsRead (literal [] fs) h = absurd (ground (arith, h))
  show-IsRead (literal (d ∷ ds) fs) h = literal-IsRead d ds fs h
  show-IsRead (negated e) h = negated-IsRead e (show-IsRead e h)
  show-IsRead (binary op a b) h =
      binary-IsRead op a b (show-IsRead a (ground (arith, h))) (show-IsRead b (ground (arith, h)))

module _ (f : Floats) where
  -- The checks and the rounding of the result.
  abbrev pub final : Result Error f.Num → Result Error f.Num
  final (ok v) = if f.is_finite v then ok (f.rounded v) else err not_finite
  final (err e) = err e

  finished : (r : Result Error f.Num) → finish f (leaving f r []) ≡ final r
  unfolding skip
  finished (ok v) = refl
  finished (err e) = refl

  -- Reading the text of an expression gives the value of the expression. The text has parentheses only
  -- where precedence and grouping want them (sums and products group to the left, powers to the
  -- right, and a minus sign binds more than a power), and any number of spaces before each sign and
  -- number. For such a text of at most 200 characters, evaluateArithmetic answers the rounded value if
  -- it is finite, and otherwise the first error on the way from left to right.
  pub evaluate_arithmetic-show :
      (g : ℕ) (e : Expr)
      → well_formed e ≡ true
      → length (show g 0 e) ≤ 200
      → evaluate_arithmetic f (show g 0 e) ≡ final (value f e)
  unfolding evaluate_arithmetic skip
  evaluate_arithmetic-show g e h short =
      let t = show g 0 e in
      let in_range : ltb 200 (length t) ≡ false = ground (arith, short) in
      let whole =
        (show-IsRead f g e h).as_expr [] [] (λ v. ok (v, [])) refl refl refl refl
          (λ v. Reads-expr_end f v [] [] refl refl) in
      let read = subst (λ x. Reads f expr x (leaving f (value f e) [])) (append_nil t) whole in
      rw (in_range, long-nonempty t (show_long g 0 e h), show_allowed g 0 e h)
        (ap (λ x. finish f x) (read (8 * length t + 8) (omega arith)) ∙ finished (value f e))
