-- ===== src/Scheduler/Cron.antt =====
-- src/scheduler/cron.js. The parser (package cron-parser) and the time zones of `Intl` are
-- parameters. An expression is the list of its UTF-16 code units.
use ai_distributed_workflow.Base.{
  ℕ, zero, suc, Bool, false, Option, none, some, [], ◌∷◌, String, ◌==◌, ◌||◌, ◌&&◌, not, leb,
  if◌then◌else◌,
}
use ai_distributed_workflow.Base.Result.{Result, ok, err}
use ai_distributed_workflow.Engine.Model.{Text}

pub record CronParser : Type 0 where
  -- `new Intl.DateTimeFormat("en-US", { timeZone })` does not throw.
  pub known_zone : String → Bool
  -- `parse(expr, { currentDate, tz }).next()`, in milliseconds; `none` is an exception.
  pub next : Text → ℕ → String → Option ℕ

pub data CronError : Type 0 where
  five_fields unknown_zone unparsable : CronError

abbrev pub between : ℕ → ℕ → ℕ → Bool
between a b c = leb a c && leb c b

-- `\s` of a regular expression.
abbrev pub is_space : ℕ → Bool
is_space c =
    between 9 13 c
    || (c == 32
        || (c == 160
            || (c == 5760
                || (between 8192 8202 c
                    || (between 8232 8233 c
                        || (c == 8239 || (c == 8287 || (c == 12288 || c == 65279))))))))

-- The runs of other code units; the flag says that one has begun.
unfoldable pub words : Bool → Text → ℕ
words inside [] = 0
words inside (c ∷ cs) =
    let rest = words (not (is_space c)) cs in
    if not inside && not (is_space c) then suc rest else rest

-- `trim().split(/\s+/).length`: a blank text is split into one empty text.
abbrev pub at_least_one : ℕ → ℕ
at_least_one zero = 1
at_least_one (suc n) = suc n

unfoldable pub field_count : Text → ℕ
unfolding words
field_count expr = at_least_one (words false expr)

abbrev pub or_unparsable : Option ℕ → Result CronError (Unit {0})
or_unparsable none = err unparsable
or_unparsable (some slot) = ok tt

module _ (c : CronParser) where
  unfoldable pub assert_valid_cron : ℕ → Text → String → Result CronError (Unit {0})
  unfolding field_count
  assert_valid_cron now expr timezone =
      if field_count expr == 5
      then (if c.known_zone timezone
          then or_unparsable (c.next expr now timezone)
          else err unknown_zone)
      else err five_fields

  -- nextRunAfter; `none` is an exception of the parser.
  unfoldable pub next_run_after : Text → ℕ → String → Option ℕ
  next_run_after expr after timezone = c.next expr after timezone
