-- ===== src/Ai/Calculator.antt =====
-- src/ai/agent/calculator.js. A text is the list of its UTF-16 code units, and `src.slice(pos)` is
-- what a rule is given. The arithmetic of floating point numbers is a parameter. The depth of the
-- calls of the rules is bounded by fuel.
pub mod Printing
pub mod Texts
pub mod Rules
pub mod Chains
pub mod Levels
pub mod RoundTrip
mod Examples
use ai_distributed_workflow.Base.{
  ℕ, zero, suc, Bool, true, Option, none, some, [], ◌∷◌, ◌++◌, ◌==◌, ◌&&◌, ◌||◌, ◌+◌, ◌*◌, ltb, not,
  length, if◌then◌else◌, is_empty,
}
use ai_distributed_workflow.Base.Result.{Result, ok, err}
use ai_distributed_workflow.Engine.Model.{Text}
use ai_distributed_workflow.Scheduler.Cron.{is_space, between}

-- Numbers of the language, with what the calculator asks of them.
pub record Floats : Type 1 where
  pub Num : Type 0
  -- `Number(text)`
  pub number : Text → Num
  pub neg : Num → Num
  pub add : Num → Num → Num
  pub sub : Num → Num → Num
  pub mul : Num → Num → Num
  pub div : Num → Num → Num
  pub rem : Num → Num → Num
  pub pow : Num → Num → Num
  -- `r === 0`
  pub is_zero : Num → Bool
  -- `Math.abs(exp) > 100`
  pub is_large : Num → Bool
  pub is_finite : Num → Bool
  -- `Number(value.toPrecision(15))`
  pub rounded : Num → Num

-- With the text from the position on, where the message has the position.
pub data Error : Type 0 where
  too_long not_allowed missing_parenthesis exponent_too_large division_by_zero not_finite : Error
  expected_number unexpected : Text → Error
  -- The fuel is used up.
  stuck : Error

abbrev pub is_digit : ℕ → Bool
is_digit c = between 48 57 c

-- `[\d\s.+\-*/%^()]`
abbrev pub is_allowed : ℕ → Bool
is_allowed c =
    is_digit c
    || (is_space c
        || (c == b'.'
            || (c == b'+'
                || (c == b'-'
                    || (c == b'*'
                        || (c == b'/'
                            || (c == b'%' || (c == b'^' || (c == b'(' || c == b')')))))))))

abbrev pub all : (ℕ → Bool) → Text → Bool
all p [] = true
all p (c ∷ cs) = p c && all p cs

unfoldable pub skip : Text → Text
skip [] = []
skip (c ∷ cs) = let rest = skip cs in if c == b' ' then rest else c ∷ cs

-- The longest run of digits, and the rest.
unfoldable pub digits : Text → Text × Text
digits [] = ([], [])
digits (c ∷ cs) = let (ds, rest) = digits cs in if is_digit c then (c ∷ ds, rest) else ([], c ∷ cs)

-- The optional `(\.\d+)?` after the digits.
abbrev pub with_fraction : Text → Text → Text → Text × Text
with_fraction ds rest [] = (ds, rest)
with_fraction ds rest (c ∷ cs) =
    let (fs, end) = digits cs in
    if c == b'.' && not (is_empty fs) then (ds ++ c ∷ fs, end) else (ds, rest)

abbrev pub matched : Text → Text × Text → Option (Text × Text)
matched t ([], rest) = none
matched t (d ∷ ds, rest) = some (with_fraction (d ∷ ds) rest rest)

-- The match of `/^\d+(\.\d+)?/`, and what follows it.
unfoldable pub scan_number : Text → Option (Text × Text)
unfolding digits
scan_number t = matched t (digits t)

abbrev pub is_product : ℕ → Bool
is_product c = c == b'*' || (c == b'/' || c == b'%')

module _ (f : Floats) where
  -- The rules; those of the loops are given the value so far.
  pub data Rule : Type 0 where
    expr term factor unary primary : Rule
    expr_rest term_rest : f.Num → Rule

  abbrev pub Reply : Type 0
  Reply = Result Error (f.Num × Text)

  abbrev pub and_then : Reply → (f.Num → Text → Reply) → Reply
  and_then (ok (v, t)) k = k v t
  and_then (err e) k = err e

  abbrev pub or_expected : Text → Option (Text × Text) → Reply
  or_expected t none = err (expected_number t)
  or_expected t (some (m, rest)) = ok (f.number m, rest)

  unfoldable pub read_number : Text → Reply
  unfolding skip scan_number
  read_number t = or_expected (skip t) (scan_number (skip t))

  module _ (go : Rule → Text → Reply) where
    abbrev pub close : f.Num → Text → Reply
    close v [] = err missing_parenthesis
    close v (c ∷ cs) = if c == b')' then ok (v, cs) else err missing_parenthesis

    abbrev pub primary_at : Text → Reply
    primary_at [] = read_number []
    primary_at (c ∷ cs) =
        if c == b'(' then and_then (go expr cs) (λ v t. close v (skip t)) else read_number (c ∷ cs)

    abbrev pub unary_at : Text → Reply
    unary_at [] = go primary []
    unary_at (c ∷ cs) =
        if c == b'-' then and_then (go unary cs) (λ v t. ok (f.neg v, t)) else go primary (c ∷ cs)

    abbrev pub power_at : f.Num → Text → Reply
    power_at base [] = ok (base, [])
    power_at base (c ∷ cs) =
        if c == b'^'
        then and_then (go factor cs)
            (λ e t. if f.is_large e then err exponent_too_large else ok (f.pow base e, t))
        else ok (base, c ∷ cs)

    abbrev pub product : ℕ → f.Num → f.Num → f.Num
    product c v r = if c == b'*' then f.mul v r else if c == b'/' then f.div v r else f.rem v r

    abbrev pub term_at : f.Num → Text → Reply
    term_at v [] = ok (v, [])
    term_at v (c ∷ cs) =
        if is_product c
        then and_then (go factor cs) (λ r t.
          if (c == b'/' || c == b'%') && f.is_zero r
          then err division_by_zero
          else go (term_rest (product c v r)) t)
        else ok (v, c ∷ cs)

    abbrev pub expr_at : f.Num → Text → Reply
    expr_at v [] = ok (v, [])
    expr_at v (c ∷ cs) =
        if c == b'+' || c == b'-'
        then and_then (go term cs)
            (λ r t. go (expr_rest (if c == b'+' then f.add v r else f.sub v r)) t)
        else ok (v, c ∷ cs)

    -- The body of each rule; `go` makes the calls.
    abbrev pub run_rule : Rule → Text → Reply
    run_rule primary t = primary_at (skip t)
    run_rule unary t = unary_at (skip t)
    run_rule factor t = and_then (go unary t) (λ base u. power_at base (skip u))
    run_rule term t = and_then (go factor t) (λ v u. go (term_rest v) u)
    run_rule (term_rest v) t = term_at v (skip t)
    run_rule expr t = and_then (go term t) (λ v u. go (expr_rest v) u)
    run_rule (expr_rest v) t = expr_at v (skip t)

  unfoldable pub parse : ℕ → Rule → Text → Reply
  unfolding read_number
  parse zero rule t = err stuck
  parse (suc fuel) rule t = run_rule (parse fuel) rule t

  abbrev pub finish_at : f.Num → Text → Result Error f.Num
  finish_at v [] = if f.is_finite v then ok (f.rounded v) else err not_finite
  finish_at v (c ∷ cs) = err (unexpected (c ∷ cs))

  abbrev pub finish : Reply → Result Error f.Num
  finish (err e) = err e
  finish (ok (v, t)) = finish_at v (skip t)

  unfoldable pub evaluate_arithmetic : Text → Result Error f.Num
  unfolding parse
  evaluate_arithmetic src =
      if ltb 200 (length src)
      then err too_long
      else if is_empty src || not (all is_allowed src)
      then err not_allowed
      else finish (parse (8 * length src + 8) expr src)
