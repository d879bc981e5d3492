-- ===== src/Scheduler/Due.antt =====
-- src/scheduler/scheduler.js, runDue. The cron parser, the texts of ids and times and the
-- order of MongoDB's sort by `nextRunAt` are parameters. Of the unique indexes only that on the
-- idempotency key can be violated by a start, since the tasks of a valid graph have different keys.
use ai_distributed_workflow.Base.{
  ℕ, suc, Bool, true, false, Option, none, some, List, [], ◌∷◌, String, ◌==◌, ◌&&◌, ◌+◌, ◌*◌, leb,
  ltb, if◌then◌else◌,
}
use Prim.Native.String.{◌++◌}
use ai_distributed_workflow.Base.Result.{Result, ok, err, Call, continue}
use ai_distributed_workflow.Mongo.Driver.{Mongo}
use ai_distributed_workflow.Engine.Model.{
  Store, Deps, Execution, Failure, duplicate_key_error, schedule,
}
use ai_distributed_workflow.Engine.Start.{Request, start_execution}
use ai_distributed_workflow.Services.Workflows.{
  Schedule, Document, Workflows, Error, thrown, snapshot, set_documents,
}
use ai_distributed_workflow.Scheduler.Cron.{CronParser, next_run_after}

-- The collections of the engine and that of the workflows.
pub record Site : Type 0 where
  pub engine : Store
  pub workflows : Workflows

abbrev pub schedule_due : ℕ → Option Schedule → Bool
schedule_due current none = false
schedule_due current (some p) = p.enabled && leb p.next_run_at current

abbrev pub is_due : ℕ → Document → Bool
is_due current w = schedule_due current w.schedule

abbrev pub slot_is : ℕ → Option Schedule → Bool
slot_is slot none = false
slot_is slot (some p) = p.next_run_at == slot

abbrev pub moved_on : ℕ → ℕ → Option Failure → Option Schedule → Option Schedule
moved_on next current e none = none
moved_on next current e (some p) =
    some (record p { next_run_at = next; last_run_at = some current; last_error = e })

-- No backfill: the later of the slot and the time of the tick.
abbrev pub base_of : ℕ → ℕ → ℕ
base_of slot current = if ltb current slot then slot else current

-- What the catch block keeps as `lastError`.
abbrev pub slot_error : Result Failure Execution → Option Failure
slot_error (ok x) = none
slot_error (err duplicate_key_error) = none
slot_error (err e) = some e

abbrev pub started : Result Failure Execution → ℕ
started (ok x) = 1
started (err e) = 0

-- What a template shows of an id, and `toISOString`.
pub record Texts : Type 0 where
  pub id_text : ℕ → String
  pub iso_text : ℕ → String

-- The idempotency key of a slot.
unfoldable pub slot_key : Texts → ℕ → ℕ → String
slot_key texts id slot = "schedule:" ++ (texts.id_text id ++ (":" ++ texts.iso_text slot))

module _ (m : Mongo) where
  -- The update with compare-and-set.
  unfoldable pub advance : ℕ → ℕ → ℕ → ℕ → Option Failure → Workflows → Workflows
  advance id slot next current e s =
      set_documents
        (m.update_one (λ w. w.id == id && slot_is slot w.schedule)
          (λ w. record w { schedule = moved_on next current e w.schedule }) s.documents).0
        s

  module _ (d : Deps) (c : CronParser) (texts : Texts) where
    abbrev pub slot_request : Document → Schedule → Request
    slot_request w p = record {
      input = p.input;
      triggered_by = some w.owner_id;
      trigger = schedule;
      idempotency_key = some (slot_key texts w.id p.next_run_at);
      request_hash = none;
    }

    abbrev pub move_on :
        Document → Schedule → ℕ → Result Failure Execution → Option ℕ → Call Site Error ℕ
    move_on w p current r none s = (err thrown, s)
    move_on w p current r (some next) s = (
      ok (started r),
      record s { workflows = advance w.id p.next_run_at next current (slot_error r) s.workflows },
    )

    abbrev pub after_slot :
        Document → Schedule → ℕ → Site → Result Failure Execution × Store → Result Error ℕ × Site
    after_slot w p current s (r, engine) =
        move_on w p current r (next_run_after c p.cron (base_of p.next_run_at current) p.timezone)
          (record s { engine = engine })

    -- One round of the loop over the due workflows: how many runs it started.
    unfoldable pub run_slot : Document → Schedule → ℕ → ℕ → ℕ → Call Site Error ℕ
    unfolding start_execution next_run_after advance
    run_slot w p current at later s =
        after_slot w p current s
          (start_execution m d (snapshot w) (slot_request w p) at later s.engine)

    -- A document without a schedule would be a TypeError.
    abbrev pub run_document : Document → Option Schedule → ℕ → ℕ → ℕ → Call Site Error ℕ
    run_document w none current at later s = (err thrown, s)
    run_document w (some p) current at later s = run_slot w p current at later s

    -- The loop; the clock gives the times of each round.
    unfoldable pub run_slots : ℕ → (ℕ → ℕ) → ℕ → List Document → Call Site Error ℕ
    unfolding run_slot
    run_slots current clock n [] s = (ok 0, s)
    run_slots current clock n (w ∷ ws) s =
        continue (run_document w w.schedule current (clock (2 * n)) (clock (2 * n + 1)) s)
          (λ k t. continue (run_slots current clock (suc n) ws t) (λ j u. (ok (k + j), u)))

    unfoldable pub run_due : (List Document → List Document) → ℕ → ℕ → (ℕ → ℕ) → Call Site Error ℕ
    unfolding run_slots
    run_due by_time batch_size current clock s =
        run_slots current clock 0
          (m.find_limited (λ _. true) batch_size
            (by_time (m.find (is_due current) s.workflows.documents)))
          s
