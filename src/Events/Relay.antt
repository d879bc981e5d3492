-- ===== src/Events/Relay.antt =====
-- src/events/relay.js: createOutboxRelay and createRelayRunner. The order of the batch is that of the
-- query. JSON.stringify of a message is the message, and its type is told by its payload.
pub mod Rows
pub mod Delivery
pub mod Draining
pub mod Reference
mod Examples
use ai_distributed_workflow.Base.{
  ℕ, zero, suc, ◌≡◌, ◌≤◌, ◌<◌, min, Bool, true, false, Option, none, some, List, [], ◌∷◌, ◌++◌, map,
  ◌==◌, if◌then◌else◌, length, count, any, All, first, is_empty,
}
use ai_distributed_workflow.Base.Result.{Result, ok, err, Call}
use ai_distributed_workflow.Mongo.Driver.{Mongo}
use ai_distributed_workflow.Mongo.Keyed.{Distinct}
use ai_distributed_workflow.Engine.Model.{Payload}
use ai_distributed_workflow.Redis.Keys.{Keys}
use ai_distributed_workflow.Queues.Lock.{Lock, Held, acquire, extend, release}

-- A row of models/outboxEvent.model.js.
pub record Row : Type 0 where
  pub id : ℕ
  pub event_id : ℕ
  pub aggregate_id : ℕ
  pub payload : Payload
  pub occurred_at : ℕ
  pub published_at : Option ℕ

pub record Message : Type 0 where
  pub key : ℕ
  pub event_id : ℕ
  pub payload : Payload
  pub aggregate_id : ℕ
  pub occurred_at : ℕ
  pub header_event_id : ℕ

abbrev pub is_unpublished : Row → Bool
is_unpublished row = elim row.published_at [ none ↦ true | some at ↦ false ]

abbrev pub message_of : Row → Message
message_of e = record {
  key = e.aggregate_id;
  event_id = e.event_id;
  payload = e.payload;
  aggregate_id = e.aggregate_id;
  occurred_at = e.occurred_at;
  header_event_id = e.event_id;
}

pub data Failure : Type 0 where
  find_failed publish_failed mark_failed lock_failed : Failure

-- What the relay is given: the query for the oldest unpublished rows, the producer, which is told the
-- time, and which calls of MongoDB get through at a time.
pub record Deps : Type 0 where
  pub find_oldest : ℕ → List Row → List Row
  pub publish : ℕ → List Message → List Message → Bool × List Message
  pub find_up : ℕ → Bool
  pub mark_up : ℕ → Bool
  pub batch_size : ℕ

-- The query returns stored rows that are unpublished, each once, and as many as there are up to the
-- limit. The producer appends the batch, or throws after appending some messages of its own choice.
pub record IsRelay (d : Deps) : Type 0 where
  pub found :
      (n : ℕ) (rows : List Row)
      → Distinct (λ e. e.id) rows
      → All
          (λ e. (first (λ x. x.id == e.id) rows ≡ some e) × (is_unpublished e ≡ true))
          (d.find_oldest n rows)
  pub once :
      (n : ℕ) (rows : List Row)
      → Distinct (λ e. e.id) rows
      → Distinct (λ e. e.id) (d.find_oldest n rows)
  pub size :
      (n : ℕ) (rows : List Row)
      → 0 < n
      → length (d.find_oldest n rows) ≡ min n (count is_unpublished rows)
  pub appended :
      (now : ℕ) (ms log : List Message)
      → (d.publish now ms log).0 ≡ true
      → (d.publish now ms log).1 ≡ log ++ ms
  pub thrown :
      (now : ℕ) (ms log : List Message)
      → (some_ms : List Message) × ((d.publish now ms log).1 ≡ log ++ some_ms)

-- The collection and the topic.
pub record Outbox : Type 0 where
  pub rows : List Row
  pub log : List Message

abbrev pub in_batch : List Row → Row → Bool
in_batch batch row = any (λ e. row.id == e.id) batch

abbrev pub mark : ℕ → Row → Row
mark now row = record row { published_at = some now }

module _ (m : Mongo) (d : Deps) where
  abbrev pub mark_batch : ℕ → List Row → Call Outbox Failure ℕ
  mark_batch now batch s =
      if d.mark_up now
      then (
        ok (length batch),
        record s { rows = (m.update_many (in_batch batch) (mark now) s.rows).0 },
      )
      else (err mark_failed, s)

  abbrev pub publish_batch : ℕ → List Row → Call Outbox Failure ℕ
  publish_batch now batch s =
      let (sent, log) = d.publish now (map message_of batch) s.log in
      if sent
      then mark_batch now batch (record s { log = log })
      else (err publish_failed, record s { log = log })

  -- relayOnce
  unfoldable pub relay_once : ℕ → Call Outbox Failure ℕ
  relay_once now s =
      let batch = d.find_oldest d.batch_size s.rows in
      if d.find_up now
      then (if is_empty batch then (ok 0, s) else publish_batch now batch s)
      else (err find_failed, s)

  abbrev pub go_on :
      Result Failure ℕ
      → Outbox
      → Result Failure (Unit {0}) × Outbox
      → Result Failure (Unit {0}) × Outbox
  go_on (ok n) s rest = if n == 0 then (ok tt, s) else rest
  go_on (err e) s rest = (err e, s)

  -- The loop of `tick`, with the time of each round.
  unfoldable pub drain : ℕ → (ℕ → ℕ) → Call Outbox Failure (Unit {0})
  unfolding relay_once
  drain zero clock s = (ok tt, s)
  drain (suc rounds) clock s =
      let (reply, s') = relay_once (clock rounds) s in
      let rest = drain rounds clock s' in go_on reply s' rest
