-- ===== src/Ai/Calculator/Rules.antt =====
-- One call of a rule of src/ai/agent/calculator.js, from what the rules below it answer.
use ai_distributed_workflow.Base.{
  ◌<◌, length, zero, ◌*◌, none, some, Option, ℕ, suc, ◌≡◌, true, false, Option, none, some, [], ◌∷◌,
  ◌++◌, ◌==◌, refl, arith, Bool-cases, inl, inr, ◌∙◌, ap, ◌||◌, ◌+◌, ◌≤◌,
}
use mathlib.Core.List.{append_assoc}
use ai_distributed_workflow.Base.Result.{Result, ok, err}
use ai_distributed_workflow.Engine.Model.{Text}
use ai_distributed_workflow.Ai.Calculator.{
  Floats, Error, Reply, expr, unary, primary, parse, skip, scan_number, read_number, is_digit, all,
  matched, with_fraction, unary_at, primary_at, is_product, term, factor, power_at, term_rest, Rule,
  expr_rest, Bool, not,
}
use ai_distributed_workflow.Ai.Calculator.Printing.{
  Op, apply, are_digits, both, digits-point, digits-run, digits-stop, fraction_ok, length-skip,
  negate, numeral, power, skip-keeps, stops,
}

with_fraction-none : (ds t : Text) → stops t ≡ true → with_fraction ds t t ≡ (ds, t)
with_fraction-none ds [] h = refl
with_fraction-none ds (c ∷ cs) h = elim (Bool-cases (c == b'.')) [
  | inl e ↦ absurd (ground (arith, h, e))
  | inr e ↦ rw (with_fraction, e) refl
]

with_fraction-some :
    (ds fs t : Text)
    → are_digits fs ≡ true
    → stops t ≡ true
    → with_fraction ds (b'.' ∷ (fs ++ t)) (b'.' ∷ (fs ++ t)) ≡ (ds ++ b'.' ∷ fs, t)
with_fraction-some ds [] t g h = absurd (ground (arith, g))
with_fraction-some ds (d ∷ fs) t g h =
    rw (with_fraction, digits-run (d ∷ fs) t g (digits-stop t h)) refl

-- The longest match is the whole numeral.
pub scan_number-numeral :
    (d : ℕ) (ds : Text) (fs : Option Text) (t : Text)
    → all is_digit (d ∷ ds) ≡ true
    → fraction_ok fs ≡ true
    → stops t ≡ true
    → scan_number (numeral (d ∷ ds) fs ++ t) ≡ some (numeral (d ∷ ds) fs, t)
unfolding scan_number
scan_number-numeral d ds none t h g s =
    rw (scan_number, digits-run (d ∷ ds) t h (digits-stop t s))
      (ap (λ x. some x) (with_fraction-none (d ∷ ds) t s))
scan_number-numeral d ds (some fs) t h g s =
    let all_of = append_assoc (d ∷ ds) (b'.' ∷ fs) t in
    let run = digits-run (d ∷ ds) (b'.' ∷ (fs ++ t)) h (digits-point (fs ++ t)) in
    ap (λ u. scan_number u) all_of
    ∙ ap (λ r. matched (d ∷ ds ++ b'.' ∷ (fs ++ t)) r) run
    ∙ ap (λ x. some x) (with_fraction-some (d ∷ ds) fs t g s)

abbrev pub is_sum : ℕ → Bool
is_sum c = c == b'+' || c == b'-'

-- What the rest of a text does not begin with.
abbrev pub no_power : Text → Bool
no_power [] = true
no_power (c ∷ cs) = not (c == b'^')

abbrev pub no_product : Text → Bool
no_product [] = true
no_product (c ∷ cs) = not (is_product c)

abbrev pub no_sum : Text → Bool
no_sum [] = true
no_sum (c ∷ cs) = not (is_sum c)

module _ (f : Floats) where
  abbrev pub bind : Result Error f.Num → (f.Num → Reply f) → Reply f
  bind (ok v) k = k v
  bind (err e) k = err e

  -- The answer of a rule that leaves `t`.
  abbrev pub leaving : Result Error f.Num → Text → Reply f
  leaving r t = bind r (λ v. ok (v, t))

  pub bind-both :
      (a b : Result Error f.Num) (op : Op) (k : f.Num → Reply f)
      → bind a (λ x. bind (both f (ok x) b (apply f op)) k) ≡ bind (both f a b (apply f op)) k
  bind-both (ok x) b op k = refl
  bind-both (err e) b op k = refl

  abbrev pub cost : Rule f → ℕ
  cost primary = 1
  cost unary = 2
  cost factor = 3
  cost term = 4
  cost (term_rest v) = 4
  cost expr = 5
  cost (expr_rest v) = 5

  -- With fuel in proportion to the text, the rule answers so.
  abbrev pub Reads : Rule f → Text → Reply f → Type 0
  Reads rule t reply = (n : ℕ) → cost rule + 8 * length t ≤ n → parse f n rule t ≡ reply

  pub shorter : (t u : Text) (c : ℕ) → skip t ≡ c ∷ u → 1 + length u ≤ length t
  shorter t u c h =
      let le = length-skip t in
      let same : length (skip t) ≡ 1 + length u = rw h (omega arith) in omega (arith, le, same)

  primary_number :
      (m d : ℕ) (ds w t : Text)
      → is_digit d ≡ true
      → scan_number (d ∷ ds) ≡ some (w, t)
      → parse f (suc m) primary (d ∷ ds) ≡ ok (f.number w, t)
  unfolding parse read_number
  primary_number m d ds w t h scanned =
      let no_space : (d == b' ') ≡ false = ground (arith, h) in
      let no_parenthesis : (d == b'(') ≡ false = ground (arith, h) in
      rw
        (
          skip-keeps d ds no_space,
          primary_at,
          no_parenthesis,
          read_number,
          skip-keeps d ds no_space,
          scanned,
        )
        refl

  pub Reads-number :
      (d : ℕ) (ds w t : Text)
      → is_digit d ≡ true
      → scan_number (d ∷ ds) ≡ some (w, t)
      → Reads primary (d ∷ ds) (ok (f.number w, t))
  Reads-number d ds w t h s zero le = absurd (omega (arith, le))
  Reads-number d ds w t h s (suc m) le = primary_number m d ds w t h s

  pub Reads-parenthesis :
      (t v u : Text) (r : Result Error f.Num)
      → Reads expr t (leaving r v)
      → skip v ≡ b')' ∷ u
      → Reads primary (b'(' ∷ t) (leaving r u)
  unfolding parse skip
  Reads-parenthesis t v u r inner e zero le = absurd (omega (arith, le))
  Reads-parenthesis t v u (ok x) inner e (suc m) le = rw (inner m (omega (arith, le)), e) refl
  Reads-parenthesis t v u (err x) inner e (suc m) le = rw (inner m (omega (arith, le))) refl

  pub Reads-primary :
      (t cs : Text) (c : ℕ) (reply : Reply f)
      → skip t ≡ c ∷ cs
      → (c == b'-') ≡ false
      → Reads primary (c ∷ cs) reply
      → Reads unary t reply
  unfolding parse
  Reads-primary t cs c reply e other p zero le = absurd (omega (arith, le))
  Reads-primary t cs c reply e other p (suc m) le =
      let short = shorter t cs c e in rw (e, unary_at, other) (p m (omega (arith, le, short)))

  pub Reads-negated :
      (t cs u : Text) (r : Result Error f.Num)
      → skip t ≡ b'-' ∷ cs
      → Reads unary cs (leaving r u)
      → Reads unary t (leaving (negate f r) u)
  unfolding parse
  Reads-negated t cs u r e p zero le = absurd (omega (arith, le))
  Reads-negated t cs u (ok v) e p (suc m) le =
      let short = shorter t cs b'-' e in rw (e, p m (omega (arith, le, short))) refl
  Reads-negated t cs u (err v) e p (suc m) le =
      let short = shorter t cs b'-' e in rw (e, p m (omega (arith, le, short))) refl

  pub Reads-factor :
      (t u next : Text) (r : Result Error f.Num)
      → Reads unary t (leaving r u)
      → skip u ≡ next
      → no_power next ≡ true
      → Reads factor t (leaving r next)
  unfolding parse
  Reads-factor t u next r p e other zero le = absurd (omega (arith, le))
  Reads-factor t u [] (ok v) p e other (suc m) le = rw (p m (omega (arith, le)), e) refl
  Reads-factor t u (c ∷ cs) (ok v) p e other (suc m) le =
      let not_power : (c == b'^') ≡ false = ground (arith, other) in
      rw (p m (omega (arith, le)), e, power_at, not_power) refl
  Reads-factor t u next (err v) p e other (suc m) le = rw (p m (omega (arith, le))) refl

  pub Reads-power :
      (t u cs v : Text) (a b : Result Error f.Num)
      → Reads unary t (leaving a u)
      → skip u ≡ b'^' ∷ cs
      → Reads factor cs (leaving b v)
      → length cs < length t
      → Reads factor t (leaving (both f a b (apply f power)) v)
  unfolding parse
  Reads-power t u cs v a b p e q lt zero le = absurd (omega (arith, le))
  Reads-power t u cs v (err x) b p e q lt (suc m) le = rw (p m (omega (arith, le))) refl
  Reads-power t u cs v (ok x) (err y) p e q lt (suc m) le =
      rw (p m (omega (arith, le)), e, q m (omega (arith, le, lt))) refl
  Reads-power t u cs v (ok x) (ok y) p e q lt (suc m) le = elim (Bool-cases (f.is_large y)) [
    | inl h ↦ rw (p m (omega (arith, le)), e, q m (omega (arith, le, lt)), h) refl
    | inr h ↦ rw (p m (omega (arith, le)), e, q m (omega (arith, le, lt)), h) refl
  ]
