-- ===== src/Scheduler/Examples.antt =====
-- A workflow that src/scheduler/scheduler.js runs every minute.
use Prim.Native.Char.{char}
use text.Mathlib.TextLemmas.{nil≢cons, cons≢nil, tail-eq_of_cons-eq}
use ai_distributed_workflow.Base.{
  ℕ, zero, suc, ap, ◌≡◌, refl, true, false, some, none, List, [], ◌∷◌, String, arith,
}
use ai_distributed_workflow.Base.Tests.{same}
use ai_distributed_workflow.Base.Dict.{get, put, has, add}
use ai_distributed_workflow.Mongo.Reference.{reference, reference-IsMongo}
use ai_distributed_workflow.Workflow.Validate.{validate_dag}
use ai_distributed_workflow.Workflow.Dag.{
  in_degrees, no_children, add_children, visit_child, visit_children, run_wave, waves, kahn,
  leftover,
}
use ai_distributed_workflow.Engine.Model.{Deps, empty}
use ai_distributed_workflow.Engine.Runs.{fresh}
use ai_distributed_workflow.Services.Executions.{User}
use ai_distributed_workflow.Services.Workflows.{
  Document, Workflows, Definition, Schedule, create, set_schedule, new_document, schedule_at,
  assert_valid_graph,
}
use ai_distributed_workflow.Services.Workflows.Changes.{
  Later, after, unchanged, nothing, creates, schedules,
}
use ai_distributed_workflow.Scheduler.Cron.{
  CronParser, assert_valid_cron, next_run_after, field_count, words,
}
use ai_distributed_workflow.Scheduler.Due.{Site, Texts, run_slot}
use ai_distributed_workflow.Scheduler.Slots.{has_no_colon, IsTexts, slot_key-injective}
use ai_distributed_workflow.Scheduler.Once.{Served, slot-Served}

abbrev draft : Definition
draft = record {
  name = "demo";
  description = "";
  tasks =
      record {
        key = "A";
        kind = "noop";
        config = "";
        depends_on = [];
        max_attempts = none;
        base_delay_ms = none;
        timeout_ms = none;
      }
      ∷ [];
}

abbrev owner : User
owner = record { id = 3; is_admin = false }

abbrev minutely : CronParser
minutely = record { known_zone = λ zone. true; next = λ expr at zone. some (suc at) }

-- "* * * * *"
abbrev stars : List ℕ
stars = 42 ∷ 32 ∷ 42 ∷ 32 ∷ 42 ∷ 32 ∷ 42 ∷ 32 ∷ 42 ∷ []

abbrev plan : Schedule
plan = schedule_at stars "UTC" true "" 7

abbrev scheduled : Document
scheduled = record (new_document 0 owner draft) { schedule = some plan }

abbrev planned : Workflows
planned = record { documents = scheduled ∷ []; issued = 1 }

abbrev demo : Deps
demo = record {
  has_outbox = true;
  has_approvals = true;
  has_delayed = true;
  lease_ms = 30000;
  backoff = λ attempt base. base;
  redis_up = λ n. true;
}

abbrev site : Site
site = record { engine = empty; workflows = planned }

-- A number as that many letters.
strokes : ℕ → String
strokes zero = ""
strokes (suc n) = String.◌∷◌ (char 97 tt) (strokes n)

abbrev texts : Texts
texts = record { id_text = strokes; iso_text = strokes }

strokes-plain : (n : ℕ) → has_no_colon (strokes n) ≡ true
unfolding strokes has_no_colon
strokes-plain zero = refl
strokes-plain (suc n) = rw (strokes-plain n) refl

strokes-injective : (n k : ℕ) → strokes n ≡ strokes k → n ≡ k
unfolding strokes
strokes-injective zero zero e = refl
strokes-injective zero (suc k) e = absurd (nil≢cons e)
strokes-injective (suc n) zero e = absurd (cons≢nil e)
strokes-injective (suc n) (suc k) e = ap (λ i. suc i) (strokes-injective n k (tail-eq_of_cons-eq e))

texts-IsTexts : IsTexts texts
texts-IsTexts = record {
  id_text-plain = strokes-plain;
  id_text-injective = strokes-injective;
  iso_text-injective = strokes-injective;
}

planned_reached : Later reference minutely nothing planned
unfolding create set_schedule assert_valid_cron next_run_after field_count words assert_valid_graph
    validate_dag kahn get put has add in_degrees no_children add_children visit_child visit_children
    run_wave waves leftover same
planned_reached =
    after (after unchanged (creates owner draft)) (schedules owner 0 stars "UTC" true "" 5 6)

slot-Served_example :
    Served reference demo minutely texts scheduled plan 9 10 11
      (run_slot reference demo minutely texts scheduled plan 8 9 10 site).1
unfolding next_run_after
slot-Served_example =
    slot-Served reference reference-IsMongo demo minutely texts site scheduled plan 8 9 10 9 9 10 11
      fresh tt planned_reached refl (omega arith) refl (omega arith)

slot_key-injective_example : (scheduled.id ≡ 0) × (plan.next_run_at ≡ 7)
slot_key-injective_example =
    slot_key-injective texts texts-IsTexts scheduled.id 0 plan.next_run_at 7 refl
