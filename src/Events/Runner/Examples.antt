-- ===== src/Events/Runner/Examples.antt =====
-- A tick of src/events/relay.js that becomes the leader and relays three rows.
use ai_distributed_workflow.Base.{◌∷◌, refl, ◌≡◌, ◌⊎◌, arith, true, false, none, some, [], length}
use ai_distributed_workflow.Mongo.Reference.{reference}
use ai_distributed_workflow.Redis.Keys.{keys, keys-IsKeys}
use ai_distributed_workflow.Queues.Lock.{acquire, free_lock, Held}
use ai_distributed_workflow.Events.Relay.Reference.{deps}
use ai_distributed_workflow.Events.Relay.{drain, Outbox}
use ai_distributed_workflow.Engine.Model.{execution_paused}
use ai_distributed_workflow.Events.Runner.{Runner, Now, tick}
use ai_distributed_workflow.Events.Runner.Leading.{tick-leads}

abbrev outbox : Outbox
outbox = record {
  rows =
      record {
        id = 1;
        event_id = 101;
        aggregate_id = 7;
        payload = execution_paused;
        occurred_at = 1;
        published_at = none;
      }
      ∷ [];
  log = [];
}

abbrev runner : Runner keys
runner = record { lock = free_lock keys; held = none; busy = false; outbox = outbox }

abbrev at : Now
at = record {
  time = 50;
  token = 9;
  extend_up = true;
  set_up = true;
  incr_up = true;
  release_up = true;
  clock = λ i. 51;
}

ticked_log : length (tick keys reference (deps 2) 1000 at runner).outbox.log ≡ 1
unfolding tick acquire drain
ticked_log = refl

tick-leads_example :
    ((tick keys reference (deps 2) 1000 at runner).outbox ≡ runner.outbox)
    ⊎ ((h : Held) × ((tick keys reference (deps 2) 1000 at runner).held ≡ some h)
        × (keys.get 50 (tick keys reference (deps 2) 1000 at runner).lock.cell ≡ some h.token))
tick-leads_example = tick-leads keys keys-IsKeys reference (deps 2) 1000 at runner (ground arith)
