-- ===== src/Events/Relay/Examples.antt =====
-- Three rows of the outbox and batches of two through src/events/relay.js.
use ai_distributed_workflow.Base.{refl, ℕ, ◌≡◌, arith, true, none, List, [], ◌∷◌, All, ◌+◌}
use ai_distributed_workflow.Base.Result.{ok}
use ai_distributed_workflow.Mongo.Reference.{reference, reference-IsMongo}
use ai_distributed_workflow.Engine.Model.{
  execution_paused, execution_resumed, execution_completed, Payload,
}
use ai_distributed_workflow.Events.Relay.{Row, Outbox, drain, relay_once}
use ai_distributed_workflow.Events.Relay.Delivery.{
  Run, nothing, commits, relays, Pending, Run-Pending, is_delivered,
}
use ai_distributed_workflow.Events.Relay.Draining.{drain-delivers}
use ai_distributed_workflow.Events.Relay.Reference.{deps, deps-IsRelay}

abbrev row : ℕ → Payload → Row
row id payload = record {
  id = id;
  event_id = id + 100;
  aggregate_id = 7;
  payload = payload;
  occurred_at = id;
  published_at = none;
}

abbrev rows : List Row
rows = row 1 execution_paused ∷ row 2 execution_resumed ∷ row 3 execution_completed ∷ []

abbrev outbox : Outbox
outbox = record { rows = rows; log = [] }

run : Run reference (deps 2) rows outbox
run =
    commits (row 1 execution_paused ∷ row 2 execution_resumed ∷ [])
      (record { rows = row 1 execution_paused ∷ row 2 execution_resumed ∷ []; log = [] })
      (row 3 execution_completed)
      (commits (row 1 execution_paused ∷ [])
        (record { rows = row 1 execution_paused ∷ []; log = [] }) (row 2 execution_resumed)
        (commits [] (record { rows = []; log = [] }) (row 1 execution_paused) nothing refl tt) refl
        (refl, tt))
      refl (refl, (refl, tt))

abbrev relayed : Outbox
relayed = (relay_once reference (deps 2) 50 outbox).1

relayed_rows : (relay_once reference (deps 2) 50 outbox).0 ≡ ok 2
unfolding relay_once
relayed_rows = refl

Run-Pending_example : All (Pending relayed) rows
Run-Pending_example =
    Run-Pending reference reference-IsMongo (deps 2) (deps-IsRelay 2) rows relayed
      (relays rows outbox 50 run)

drain-delivers_example :
    ((drain reference (deps 2) 20 (λ i. 50) outbox).0 ≡ ok tt)
    × All (λ e. is_delivered (drain reference (deps 2) 20 (λ i. 50) outbox).1 e ≡ true) rows
drain-delivers_example =
    drain-delivers reference reference-IsMongo (deps 2) (deps-IsRelay 2) 20 rows outbox (λ i. 50)
      (record { finds = λ i. refl; sends = λ i ms log. refl; marks = λ i. refl }) (ground arith) run
      (ground arith)
