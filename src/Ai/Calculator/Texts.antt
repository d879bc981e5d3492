-- ===== src/Ai/Calculator/Texts.antt =====
-- The texts of expressions for src/ai/agent/calculator.js: they are not empty, and their characters
-- are allowed.
use ai_distributed_workflow.Base.{
  ℕ, zero, suc, ◌≡◌, ◌≤◌, Bool, true, false, none, some, [], ◌∷◌, ◌++◌, length, length-append,
  is_empty, refl, arith, ltb,
}
use ai_distributed_workflow.Engine.Model.{Text}
use ai_distributed_workflow.Ai.Calculator.{is_digit, is_allowed, all}
use ai_distributed_workflow.Ai.Calculator.Printing.{
  Expr, Op, binary, binding, enclosed, gap, left, literal, minus, modulo, negated, over, plus,
  power, right, show, sign, times, well_formed,
}

pub gap_long : (g : ℕ) (t : Text) → 1 ≤ length t → 1 ≤ length (gap g t)
gap_long zero t h = h
gap_long (suc g) t h = omega arith

pub append_long : (x y : Text) → 1 ≤ length y → 1 ≤ length (x ++ y)
append_long x y h = omega (arith, h, length-append x y)

enclosed_long : (g : ℕ) (b : Bool) (t : Text) → 1 ≤ length t → 1 ≤ length (enclosed g b t)
enclosed_long g true t h = gap_long g _ (omega arith)
enclosed_long g false t h = h

pub show_long : (g l : ℕ) (e : Expr) → well_formed e ≡ true → 1 ≤ length (show g l e)
unfolding show well_formed
show_long g l (literal [] fs) h = absurd (ground (arith, h))
show_long g l (literal (d ∷ ds) none) h = gap_long g (d ∷ ds) (omega arith)
show_long g l (literal (d ∷ ds) (some fs)) h = gap_long g _ (omega arith)
show_long g l (negated e) h = gap_long g _ (omega arith)
show_long g l (binary op a b) h =
    enclosed_long g (ltb (binding op) l) _
      (append_long (show g (left op) a) _ (gap_long g _ (omega arith)))

all-append :
    (p : ℕ → Bool) (xs ys : Text) → all p xs ≡ true → all p ys ≡ true → all p (xs ++ ys) ≡ true
all-append p [] ys h k = k
all-append p (x ∷ xs) ys h k = ground (arith, h, all-append p xs ys (ground (arith, h)) k)

gap_allowed : (g : ℕ) (t : Text) → all is_allowed t ≡ true → all is_allowed (gap g t) ≡ true
gap_allowed zero t h = h
gap_allowed (suc g) t h = gap_allowed g t h

enclosed_allowed :
    (g : ℕ) (b : Bool) (t : Text) → all is_allowed t ≡ true → all is_allowed (enclosed g b t) ≡ true
enclosed_allowed g false t h = h
enclosed_allowed g true t h =
    gap_allowed g (b'(' ∷ (t ++ gap g (b')' ∷ [])))
      (all-append is_allowed t (gap g (b')' ∷ [])) h (gap_allowed g (b')' ∷ []) refl))

digits_allowed : (ds : Text) → all is_digit ds ≡ true → all is_allowed ds ≡ true
digits_allowed [] h = refl
digits_allowed (d ∷ ds) h =
    let digit : is_digit d ≡ true = ground (arith, h) in
    let rest : all is_allowed ds ≡ true = digits_allowed ds (ground (arith, h)) in
    rw (digit, rest) refl

sign_allowed : (op : Op) → is_allowed (sign op) ≡ true
sign_allowed plus = refl
sign_allowed minus = refl
sign_allowed times = refl
sign_allowed over = refl
sign_allowed modulo = refl
sign_allowed power = refl

-- The text has only the characters that the first test lets through.
pub show_allowed : (g l : ℕ) (e : Expr) → well_formed e ≡ true → all is_allowed (show g l e) ≡ true
unfolding show well_formed
show_allowed g l (literal ds none) h = gap_allowed g ds (digits_allowed ds (ground (arith, h)))
show_allowed g l (literal ds (some fs)) h = gap_allowed g (ds ++ b'.' ∷ fs) (
    all-append is_allowed ds (b'.' ∷ fs) (digits_allowed ds (ground (arith, h)))
      (digits_allowed fs (ground (arith, h))))
show_allowed g l (negated e) h = gap_allowed g (b'-' ∷ show g 3 e) (show_allowed g 3 e h)
show_allowed g l (binary op a b) h =
    let second = show_allowed g (right op) b (ground (arith, h)) in
    enclosed_allowed g (ltb (binding op) l) _ (
      all-append is_allowed (show g (left op) a) _ (show_allowed g (left op) a (ground (arith, h)))
        (gap_allowed g (sign op ∷ show g (right op) b) (rw (sign_allowed op) second)))

pub long-nonempty : (t : Text) → 1 ≤ length t → is_empty t ≡ false
long-nonempty [] h = absurd (omega (arith, h))
long-nonempty (c ∷ cs) h = refl
