-- ===== src/Ai/Calculator/Printing.antt =====
-- Arithmetic expressions, their values and their texts, against the rules of
-- src/ai/agent/calculator.js.
use ai_distributed_workflow.Base.{
  ltb, ◌≤◌, ap, zero, suc, length, ℕ, ◌≡◌, Bool, true, Option, none, some, [], ◌∷◌, ◌++◌, ◌==◌,
  ◌&&◌, not, if◌then◌else◌, is_empty, refl, arith, Bool-cases, inl, inr, false,
}
use ai_distributed_workflow.Base.Result.{Result, ok, err}
use ai_distributed_workflow.Engine.Model.{Text}
use ai_distributed_workflow.Ai.Calculator.{
  skip, Floats, Error, digits, is_digit, all, exponent_too_large, division_by_zero,
}

pub data Op : Type 0 where
  plus minus times over modulo power : Op

pub data Expr : Type 0 where
  -- The digits before the point, and those after it.
  literal : Text → Option Text → Expr
  negated : Expr → Expr
  binary : Op → Expr → Expr → Expr

abbrev pub sign : Op → ℕ
sign plus = b'+'
sign minus = b'-'
sign times = b'*'
sign over = b'/'
sign modulo = b'%'
sign power = b'^'

abbrev pub numeral : Text → Option Text → Text
numeral ds none = ds
numeral ds (some fs) = ds ++ b'.' ∷ fs

-- `g` spaces and the text.
abbrev pub gap : ℕ → Text → Text
gap zero t = t
gap (suc g) t = b' ' ∷ gap g t

-- How strongly an operation binds: sums 0, products 1, powers 2; what binds at 3 is an operand.
abbrev pub binding : Op → ℕ
binding plus = 0
binding minus = 0
binding times = 1
binding over = 1
binding modulo = 1
binding power = 2

-- At which strength the operands stand without parentheses: sums and products are chains to the left,
-- powers to the right.
abbrev pub left : Op → ℕ
left plus = 0
left minus = 0
left times = 1
left over = 1
left modulo = 1
left power = 3

abbrev pub right : Op → ℕ
right plus = 1
right minus = 1
right times = 2
right over = 2
right modulo = 2
right power = 2

abbrev pub enclosed : ℕ → Bool → Text → Text
enclosed g true t = gap g (b'(' ∷ (t ++ gap g (b')' ∷ [])))
enclosed g false t = t

-- The text where at least the strength `l` is wanted, with `g` spaces before each of its signs and
-- numbers, and parentheses only where they are needed.
unfoldable pub show : ℕ → ℕ → Expr → Text
show g l (literal ds fs) = gap g (numeral ds fs)
show g l (negated e) = gap g (b'-' ∷ show g 3 e)
show g l (binary op a b) =
    enclosed g (ltb (binding op) l) (show g (left op) a ++ gap g (sign op ∷ show g (right op) b))

abbrev pub are_digits : Text → Bool
are_digits ds = not (is_empty ds) && all is_digit ds

abbrev pub fraction_ok : Option Text → Bool
fraction_ok none = true
fraction_ok (some fs) = are_digits fs

-- The literals are digits.
unfoldable pub well_formed : Expr → Bool
well_formed (literal ds fs) = are_digits ds && fraction_ok fs
well_formed (negated e) = well_formed e
well_formed (binary op a b) = well_formed a && well_formed b

module _ (f : Floats) where
  abbrev pub both :
      Result Error f.Num
      → Result Error f.Num
      → (f.Num → f.Num → Result Error f.Num)
      → Result Error f.Num
  both (err e) r k = err e
  both (ok x) (err e) k = err e
  both (ok x) (ok y) k = k x y

  abbrev pub apply : Op → f.Num → f.Num → Result Error f.Num
  apply plus x y = ok (f.add x y)
  apply minus x y = ok (f.sub x y)
  apply times x y = ok (f.mul x y)
  apply over x y = if f.is_zero y then err division_by_zero else ok (f.div x y)
  apply modulo x y = if f.is_zero y then err division_by_zero else ok (f.rem x y)
  apply power x y = if f.is_large y then err exponent_too_large else ok (f.pow x y)

  abbrev pub negate : Result Error f.Num → Result Error f.Num
  negate (ok x) = ok (f.neg x)
  negate (err e) = err e

  -- The value, with the first error from left to right.
  unfoldable pub value : Expr → Result Error f.Num
  value (literal ds fs) = ok (f.number (numeral ds fs))
  value (negated e) = negate (value e)
  value (binary op a b) = both (value a) (value b) (apply op)

-- The text does not go on with a digit or a point.
abbrev pub stops : Text → Bool
stops [] = true
stops (c ∷ cs) = not (is_digit c) && not (c == b'.')

pub gap-append : (g : ℕ) (s t : Text) → gap g s ++ t ≡ gap g (s ++ t)
gap-append zero s t = refl
gap-append (suc g) s t = ap (λ x. b' ' ∷ x) (gap-append g s t)

pub skip-keeps : (c : ℕ) (cs : Text) → (c == b' ') ≡ false → skip (c ∷ cs) ≡ c ∷ cs
unfolding skip
skip-keeps c cs h = rw (skip, h) refl

pub skip-gap : (g c : ℕ) (cs : Text) → (c == b' ') ≡ false → skip (gap g (c ∷ cs)) ≡ c ∷ cs
unfolding skip
skip-gap zero c cs h = skip-keeps c cs h
skip-gap (suc g) c cs h = skip-gap g c cs h

pub stops-gap : (g : ℕ) (t : Text) → stops t ≡ true → stops (gap g t) ≡ true
stops-gap zero t h = h
stops-gap (suc g) t h = refl

pub length-skip : (t : Text) → length (skip t) ≤ length t
unfolding skip
length-skip [] = omega arith
length-skip (c ∷ cs) = elim (Bool-cases (c == b' ')) [
  | inl e ↦ let le = length-skip cs in rw (skip, e) (omega (arith, le))
  | inr e ↦ rw (skip, e) (omega arith)
]

pub digits-stop : (t : Text) → stops t ≡ true → digits t ≡ ([], t)
unfolding digits
digits-stop [] h = refl
digits-stop (c ∷ cs) h = elim (Bool-cases (is_digit c)) [
  | inl e ↦ absurd (ground (arith, h, e))
  | inr e ↦ rw (e, digits) refl
]

pub digits-point : (t : Text) → digits (b'.' ∷ t) ≡ ([], b'.' ∷ t)
unfolding digits
digits-point t = refl

pub digits-run :
    (ds t : Text) → all is_digit ds ≡ true → digits t ≡ ([], t) → digits (ds ++ t) ≡ (ds, t)
unfolding digits
digits-run [] t h stop = stop
digits-run (d ∷ ds) t h stop = elim (Bool-cases (is_digit d)) [
  | inr e ↦ absurd (ground (arith, h, e))
  | inl e ↦ let rest = digits-run ds t (ground (arith, h, e)) stop in rw (digits, rest, e) refl
]
