-- ===== src/Ai/Calculator/Chains.antt =====
-- The chains of sums and products in src/ai/agent/calculator.js: what the rules term and expr read.
use ai_distributed_workflow.Base.{
  ◌<◌, length, zero, suc, ◌≡◌, true, false, [], ◌∷◌, refl, arith, Bool-cases, inl, inr,
}
use ai_distributed_workflow.Base.Result.{Result, ok, err}
use ai_distributed_workflow.Engine.Model.{Text}
use ai_distributed_workflow.Ai.Calculator.{
  Floats, Error, Reply, expr, parse, skip, is_product, term, factor, term_at, term_rest, expr_rest,
  expr_at,
}
use ai_distributed_workflow.Ai.Calculator.Printing.{
  Op, apply, both, minus, modulo, over, plus, power, sign, times,
}
use ai_distributed_workflow.Ai.Calculator.Rules.{
  Reads, shorter, leaving, bind, no_product, no_sum, is_sum,
}

module _ (f : Floats) where
  pub Reads-term :
      (t u : Text) (r : Result Error f.Num) (k : f.Num → Reply f)
      → Reads f factor t (leaving f r u)
      → ((v : f.Num) → Reads f (term_rest v) u (k v))
      → length u < length t
      → Reads f term t (bind f r k)
  unfolding parse
  Reads-term t u r k p q lt zero le = absurd (omega (arith, le))
  Reads-term t u (ok v) k p q lt (suc m) le =
      rw (p m (omega (arith, le))) (q v m (omega (arith, le, lt)))
  Reads-term t u (err v) k p q lt (suc m) le = rw (p m (omega (arith, le))) refl

  pub Reads-expr :
      (t u : Text) (r : Result Error f.Num) (k : f.Num → Reply f)
      → Reads f term t (leaving f r u)
      → ((v : f.Num) → Reads f (expr_rest v) u (k v))
      → length u < length t
      → Reads f expr t (bind f r k)
  unfolding parse
  Reads-expr t u r k p q lt zero le = absurd (omega (arith, le))
  Reads-expr t u (ok v) k p q lt (suc m) le =
      rw (p m (omega (arith, le))) (q v m (omega (arith, le, lt)))
  Reads-expr t u (err v) k p q lt (suc m) le = rw (p m (omega (arith, le))) refl

  -- The end of a chain of products or of sums.
  pub Reads-term_end :
      (v : f.Num) (u next : Text)
      → skip u ≡ next
      → no_product next ≡ true
      → Reads f (term_rest v) u (ok (v, next))
  unfolding parse
  Reads-term_end v u next e other zero le = absurd (omega (arith, le))
  Reads-term_end v u [] e other (suc m) le = rw e refl
  Reads-term_end v u (c ∷ cs) e other (suc m) le =
      let not_product : is_product c ≡ false = ground (arith, other) in
      rw (e, term_at, not_product) refl

  pub Reads-expr_end :
      (v : f.Num) (u next : Text)
      → skip u ≡ next
      → no_sum next ≡ true
      → Reads f (expr_rest v) u (ok (v, next))
  unfolding parse
  Reads-expr_end v u next e other zero le = absurd (omega (arith, le))
  Reads-expr_end v u [] e other (suc m) le = rw e refl
  Reads-expr_end v u (c ∷ cs) e other (suc m) le =
      let not_sum : is_sum c ≡ false = ground (arith, other) in rw (e, expr_at, not_sum) refl

  pub Reads-product :
      (op : Op) (x : f.Num) (u cs w : Text) (b : Result Error f.Num) (k : f.Num → Reply f)
      → is_product (sign op) ≡ true
      → skip u ≡ sign op ∷ cs
      → Reads f factor cs (leaving f b w)
      → ((y : f.Num) → Reads f (term_rest y) w (k y))
      → length w < length u
      → Reads f (term_rest x) u (bind f (both f (ok x) b (apply f op)) k)
  unfolding parse
  Reads-product op x u cs w b k h e p q lt zero le = absurd (omega (arith, le))
  Reads-product times x u cs w (err y) k h e p q lt (suc m) le =
      let short = shorter f u cs (sign times) e in rw (e, p m (omega (arith, le, short))) refl
  Reads-product over x u cs w (err y) k h e p q lt (suc m) le =
      let short = shorter f u cs (sign over) e in rw (e, p m (omega (arith, le, short))) refl
  Reads-product modulo x u cs w (err y) k h e p q lt (suc m) le =
      let short = shorter f u cs (sign modulo) e in rw (e, p m (omega (arith, le, short))) refl
  Reads-product times x u cs w (ok y) k h e p q lt (suc m) le =
      let short = shorter f u cs (sign times) e in
      rw (e, p m (omega (arith, le, short))) (q (f.mul x y) m (omega (arith, le, lt)))
  Reads-product over x u cs w (ok y) k h e p q lt (suc m) le =
      let short = shorter f u cs (sign over) e in
      elim (Bool-cases (f.is_zero y)) [
        | inl z ↦ rw (e, p m (omega (arith, le, short)), z) refl
        | inr z ↦
            rw (e, p m (omega (arith, le, short)), z) (q (f.div x y) m (omega (arith, le, lt)))
      ]
  Reads-product modulo x u cs w (ok y) k h e p q lt (suc m) le =
      let short = shorter f u cs (sign modulo) e in
      elim (Bool-cases (f.is_zero y)) [
        | inl z ↦ rw (e, p m (omega (arith, le, short)), z) refl
        | inr z ↦
            rw (e, p m (omega (arith, le, short)), z) (q (f.rem x y) m (omega (arith, le, lt)))
      ]
  Reads-product plus x u cs w b k h e p q lt (suc m) le = absurd (ground (arith, h))
  Reads-product minus x u cs w b k h e p q lt (suc m) le = absurd (ground (arith, h))
  Reads-product power x u cs w b k h e p q lt (suc m) le = absurd (ground (arith, h))

  pub Reads-sum :
      (op : Op) (x : f.Num) (u cs w : Text) (b : Result Error f.Num) (k : f.Num → Reply f)
      → is_sum (sign op) ≡ true
      → skip u ≡ sign op ∷ cs
      → Reads f term cs (leaving f b w)
      → ((y : f.Num) → Reads f (expr_rest y) w (k y))
      → length w < length u
      → Reads f (expr_rest x) u (bind f (both f (ok x) b (apply f op)) k)
  unfolding parse
  Reads-sum op x u cs w b k h e p q lt zero le = absurd (omega (arith, le))
  Reads-sum plus x u cs w (err y) k h e p q lt (suc m) le =
      let short = shorter f u cs (sign plus) e in rw (e, p m (omega (arith, le, short))) refl
  Reads-sum plus x u cs w (ok y) k h e p q lt (suc m) le =
      let short = shorter f u cs (sign plus) e in
      rw (e, p m (omega (arith, le, short))) (q (f.add x y) m (omega (arith, le, lt)))
  Reads-sum minus x u cs w (err y) k h e p q lt (suc m) le =
      let short = shorter f u cs (sign minus) e in rw (e, p m (omega (arith, le, short))) refl
  Reads-sum minus x u cs w (ok y) k h e p q lt (suc m) le =
      let short = shorter f u cs (sign minus) e in
      rw (e, p m (omega (arith, le, short))) (q (f.sub x y) m (omega (arith, le, lt)))
  Reads-sum times x u cs w b k h e p q lt (suc m) le = absurd (ground (arith, h))
  Reads-sum over x u cs w b k h e p q lt (suc m) le = absurd (ground (arith, h))
  Reads-sum modulo x u cs w b k h e p q lt (suc m) le = absurd (ground (arith, h))
  Reads-sum power x u cs w b k h e p q lt (suc m) le = absurd (ground (arith, h))
