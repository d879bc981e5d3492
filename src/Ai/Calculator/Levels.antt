-- ===== src/Ai/Calculator/Levels.antt =====
-- From operands to operations, for the rules of src/ai/agent/calculator.js: what each rule makes of a
-- text that is followed by others.
use ai_distributed_workflow.Base.{
  ℕ, zero, suc, ◌≡◌, ◌≤◌, ◌<◌, true, false, Option, none, some, [], ◌∷◌, ◌++◌, ◌==◌, length,
  length-append, refl, arith, Bool-cases, inl, inr, subst, sym, ◌∙◌, ap,
}
use mathlib.Core.List.{append_assoc}
use ai_distributed_workflow.Base.Result.{Result, ok}
use ai_distributed_workflow.Engine.Model.{Text}
use ai_distributed_workflow.Ai.Calculator.{
  Floats, Error, Reply, expr, term, factor, unary, expr_rest, term_rest, skip, is_digit, is_product,
  all, scan_number,
}
use ai_distributed_workflow.Ai.Calculator.Printing.{
  Op, plus, minus, times, over, modulo, power, sign, numeral, fraction_ok, negate, apply, both,
  stops, gap, gap-append, skip-gap, skip-keeps, stops-gap, length-skip,
}
use ai_distributed_workflow.Ai.Calculator.Rules.{
  Reads, leaving, bind, bind-both, is_sum, no_power, no_product, Reads-number, Reads-parenthesis,
  Reads-primary, Reads-negated, Reads-factor, Reads-power, scan_number-numeral,
}
use ai_distributed_workflow.Ai.Calculator.Chains.{
  Reads-term, Reads-expr, Reads-term_end, Reads-expr_end, Reads-product, Reads-sum,
}

skip-skip : (t : Text) → skip (skip t) ≡ skip t
unfolding skip
skip-skip [] = refl
skip-skip (c ∷ cs) = elim (Bool-cases (c == b' ')) [
  | inl e ↦ rw (skip, e) (skip-skip cs)
  | inr e ↦ rw (skip, e) (skip-keeps c cs e)
]

skip_again : (t next : Text) → skip t ≡ next → skip next ≡ next
skip_again t next e = subst (λ u. skip u ≡ u) e (skip-skip t)

length-gap : (g : ℕ) (t : Text) → length t ≤ length (gap g t)
length-gap zero t = omega arith
length-gap (suc g) t = let le = length-gap g t in omega (arith, le)

-- What is left of a text after a part of it is shorter.
behind : (x rest next : Text) → skip rest ≡ next → length next ≤ length (x ++ rest)
behind x rest next e =
    let le = length-skip rest in
    let same : length (skip rest) ≡ length next = ap (λ t. length t) e in
    omega (arith, le, same, length-append x rest)

operation_text :
    (g c : ℕ) (x y rest : Text) → (x ++ gap g (c ∷ y)) ++ rest ≡ x ++ gap g (c ∷ (y ++ rest))
operation_text g c x y rest =
    append_assoc x (gap g (c ∷ y)) rest ∙ ap (λ t. x ++ t) (gap-append g (c ∷ y) rest)

pub sign-stops : (op : Op) (t : Text) → stops (sign op ∷ t) ≡ true
sign-stops plus t = refl
sign-stops minus t = refl
sign-stops times t = refl
sign-stops over t = refl
sign-stops modulo t = refl
sign-stops power t = refl

module _ (f : Floats) where
  abbrev pub AsUnary : Text → Result Error f.Num → Type 0
  AsUnary x r = (rest : Text) → stops rest ≡ true → Reads f unary (x ++ rest) (leaving f r rest)

  abbrev pub AsFactor : Text → Result Error f.Num → Type 0
  AsFactor x r =
      (rest next : Text)
      → stops rest ≡ true
      → skip rest ≡ next
      → no_power next ≡ true
      → Reads f factor (x ++ rest) (leaving f r next)

  abbrev pub AsTerm : Text → Result Error f.Num → Type 0
  AsTerm x r =
      (rest next : Text) (k : f.Num → Reply f)
      → stops rest ≡ true
      → skip rest ≡ next
      → no_power next ≡ true
      → ((v : f.Num) → Reads f (term_rest v) next (k v))
      → Reads f term (x ++ rest) (bind f r k)

  abbrev pub AsExpr : Text → Result Error f.Num → Type 0
  AsExpr x r =
      (rest next : Text) (k : f.Num → Reply f)
      → stops rest ≡ true
      → skip rest ≡ next
      → no_power next ≡ true
      → no_product next ≡ true
      → ((v : f.Num) → Reads f (expr_rest v) next (k v))
      → Reads f expr (x ++ rest) (bind f r k)

  pub factor_of : (x : Text) (r : Result Error f.Num) → AsUnary x r → AsFactor x r
  factor_of x r u rest next s e o = Reads-factor f (x ++ rest) rest next r (u rest s) e o

  ahead : (x rest next : Text) → 1 ≤ length x → skip rest ≡ next → length next < length (x ++ rest)
  ahead x rest next long e =
      let le = behind [] rest next e in omega (arith, le, long, length-append x rest)

  pub term_of : (x : Text) (r : Result Error f.Num) → 1 ≤ length x → AsFactor x r → AsTerm x r
  term_of x r long u rest next k s e o q =
      Reads-term f (x ++ rest) next r k (u rest next s e o) q (ahead x rest next long e)

  -- Before the end of a chain of products.
  term_ended :
      (x rest next : Text) (r : Result Error f.Num)
      → AsTerm x r
      → stops rest ≡ true
      → skip rest ≡ next
      → no_power next ≡ true
      → no_product next ≡ true
      → Reads f term (x ++ rest) (leaving f r next)
  term_ended x rest next r t s e o o' =
      t rest next (λ v. ok (v, next)) s e o
        (λ v. Reads-term_end f v next next (skip_again rest next e) o')

  pub expr_of : (x : Text) (r : Result Error f.Num) → 1 ≤ length x → AsTerm x r → AsExpr x r
  expr_of x r long t rest next k s e o o' q =
      Reads-expr f (x ++ rest) next r k (term_ended x rest next r t s e o o') q
        (ahead x rest next long e)

  pub AsUnary-enclosed :
      (g : ℕ) (x : Text) (r : Result Error f.Num)
      → AsExpr x r
      → AsUnary (gap g (b'(' ∷ (x ++ gap g (b')' ∷ [])))) r
  AsUnary-enclosed g x r t rest s =
      let inner = x ++ gap g (b')' ∷ rest) in
      let text =
        gap-append g (b'(' ∷ (x ++ gap g (b')' ∷ []))) rest
        ∙ ap (λ y. gap g (b'(' ∷ y)) (operation_text g b')' x [] rest) in
      subst (λ y. Reads f unary y (leaving f r rest)) (sym text)
        (Reads-primary f (gap g (b'(' ∷ inner)) inner b'(' (leaving f r rest)
          (skip-gap g b'(' inner refl) refl
          (Reads-parenthesis f inner (b')' ∷ rest) rest r
            (t (gap g (b')' ∷ rest)) (b')' ∷ rest) (λ v. ok (v, b')' ∷ rest))
              (stops-gap g (b')' ∷ rest) refl) (skip-gap g b')' rest refl) refl refl
              (λ v.
                Reads-expr_end f v (b')' ∷ rest) (b')' ∷ rest) (skip-keeps b')' rest refl) refl))
            (skip-keeps b')' rest refl)))

  AsUnary-digits :
      (g d : ℕ) (ds w : Text)
      → is_digit d ≡ true
      → ((rest : Text) → stops rest ≡ true → scan_number (d ∷ ds ++ rest) ≡ some (w, rest))
      → AsUnary (gap g (d ∷ ds)) (ok (f.number w))
  AsUnary-digits g d ds w h scan rest s =
      subst (λ y. Reads f unary y (ok (f.number w, rest))) (sym (gap-append g (d ∷ ds) rest))
        (Reads-primary f (gap g (d ∷ ds ++ rest)) (ds ++ rest) d _
          (skip-gap g d (ds ++ rest) (ground (arith, h))) (ground (arith, h))
          (Reads-number f d (ds ++ rest) w rest h (scan rest s)))

  pub AsUnary-literal :
      (g d : ℕ) (ds : Text) (fs : Option Text)
      → all is_digit (d ∷ ds) ≡ true
      → fraction_ok fs ≡ true
      → AsUnary (gap g (numeral (d ∷ ds) fs)) (ok (f.number (numeral (d ∷ ds) fs)))
  AsUnary-literal g d ds none h k =
      AsUnary-digits g d ds (d ∷ ds) (ground (arith, h))
        (λ rest s. scan_number-numeral d ds none rest h k s)
  AsUnary-literal g d ds (some fs) h k =
      AsUnary-digits g d (ds ++ b'.' ∷ fs) (d ∷ ds ++ b'.' ∷ fs) (ground (arith, h))
        (λ rest s. scan_number-numeral d ds (some fs) rest h k s)

  pub AsUnary-negated :
      (g : ℕ) (x : Text) (r : Result Error f.Num)
      → AsUnary x r
      → AsUnary (gap g (b'-' ∷ x)) (negate f r)
  AsUnary-negated g x r u rest s =
      subst (λ y. Reads f unary y (leaving f (negate f r) rest))
        (sym (gap-append g (b'-' ∷ x) rest))
        (Reads-negated f (gap g (b'-' ∷ (x ++ rest))) (x ++ rest) rest r
          (skip-gap g b'-' (x ++ rest) refl) (u rest s))

  pub AsFactor-power :
      (g : ℕ) (x y : Text) (a b : Result Error f.Num)
      → AsUnary x a
      → AsFactor y b
      → AsFactor (x ++ gap g (b'^' ∷ y)) (both f a b (apply f power))
  AsFactor-power g x y a b u v rest next s e o =
      let cs = y ++ rest in
      let le = length-gap g (b'^' ∷ cs) in
      subst (λ t. Reads f factor t (leaving f (both f a b (apply f power)) next))
        (sym (operation_text g b'^' x y rest))
        (Reads-power f (x ++ gap g (b'^' ∷ cs)) (gap g (b'^' ∷ cs)) cs next a b
          (u (gap g (b'^' ∷ cs)) (stops-gap g (b'^' ∷ cs) refl)) (skip-gap g b'^' cs refl)
          (v rest next s e o) (omega (arith, le, length-append x (gap g (b'^' ∷ cs)))))

  pub AsTerm-product :
      (op : Op) (g : ℕ) (x y : Text) (a b : Result Error f.Num)
      → is_product (sign op) ≡ true
      → AsTerm x a
      → AsFactor y b
      → AsTerm (x ++ gap g (sign op ∷ y)) (both f a b (apply f op))
  AsTerm-product op g x y a b h t v rest next k s e o q =
      let cs = y ++ rest in
      let no_space : (sign op == b' ') ≡ false = ground (arith, h) in
      let no_power_next : no_power (sign op ∷ cs) ≡ true = ground (arith, h) in
      let le = behind y rest next e in
      subst (λ z. Reads f term z (bind f (both f a b (apply f op)) k))
        (sym (operation_text g (sign op) x y rest))
        (subst (λ z. Reads f term (x ++ gap g (sign op ∷ cs)) z) (bind-both f a b op k)
          (t (gap g (sign op ∷ cs)) (sign op ∷ cs) (λ n. bind f (both f (ok n) b (apply f op)) k)
            (stops-gap g (sign op ∷ cs) (sign-stops op cs)) (skip-gap g (sign op) cs no_space)
            no_power_next
            (λ n.
              Reads-product f op n (sign op ∷ cs) cs next b k h (skip-keeps (sign op) cs no_space)
                (v rest next s e o) q (omega (arith, le)))))

  pub AsExpr-sum :
      (op : Op) (g : ℕ) (x y : Text) (a b : Result Error f.Num)
      → is_sum (sign op) ≡ true
      → AsExpr x a
      → AsTerm y b
      → AsExpr (x ++ gap g (sign op ∷ y)) (both f a b (apply f op))
  AsExpr-sum op g x y a b h t v rest next k s e o o' q =
      let cs = y ++ rest in
      let no_space : (sign op == b' ') ≡ false = ground (arith, h) in
      let no_power_next : no_power (sign op ∷ cs) ≡ true = ground (arith, h) in
      let no_product_next : no_product (sign op ∷ cs) ≡ true = ground (arith, h) in
      let le = behind y rest next e in
      subst (λ z. Reads f expr z (bind f (both f a b (apply f op)) k))
        (sym (operation_text g (sign op) x y rest))
        (subst (λ z. Reads f expr (x ++ gap g (sign op ∷ cs)) z) (bind-both f a b op k)
          (t (gap g (sign op ∷ cs)) (sign op ∷ cs) (λ n. bind f (both f (ok n) b (apply f op)) k)
            (stops-gap g (sign op ∷ cs) (sign-stops op cs)) (skip-gap g (sign op) cs no_space)
            no_power_next no_product_next
            (λ n.
              Reads-sum f op n (sign op ∷ cs) cs next b k h (skip-keeps (sign op) cs no_space)
                (term_ended y rest next b v s e o o') q (omega (arith, le)))))
