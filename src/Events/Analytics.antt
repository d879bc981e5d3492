-- ===== src/Events/Analytics.antt =====
-- src/events/analyticsProcessor.js: createAnalyticsProcessor. Times are milliseconds, and a day is
-- its number, so that the rejection of an invalid date is left out; the consumer's name is fixed.
pub mod Tally
pub mod Markers
pub mod Once
mod Examples
use ai_distributed_workflow.Base.{
  String, ℕ, suc, ◌/◌, ◌≡◌, Bool, true, false, Option, none, some, List, [], ◌∷◌, ◌++◌, ◌==◌, ◌&&◌,
  any, same, if◌then◌else◌, keep, not, leb, ◌+◌,
}
use ai_distributed_workflow.Base.Result.{Result, ok, err, Call, continue}
use ai_distributed_workflow.Mongo.Driver.{Mongo, change_first}

-- The two collections of models/analytics.model.js.
pub record Stat : Type 0 where
  pub day : ℕ
  pub type_name : String
  pub count : ℕ

-- When the consumer has processed an event.
pub record Marker : Type 0 where
  pub event_id : ℕ
  pub processed_at : ℕ

pub record Stats : Type 0 where
  pub processed : List Marker
  pub stats : List Stat

abbrev pub no_stats : Stats
no_stats = record { processed = []; stats = [] }

-- expireAfterSeconds: 30 days.
abbrev pub marker_ttl : ℕ
marker_ttl = 2592000000

-- At a time `now` MongoDB removes markers that are as old, or some of them.
unfoldable pub expire : ℕ → (Marker → Bool) → Stats → Stats
expire now chosen s = record s {
  processed = keep (λ k. not (chosen k && leb (k.processed_at + marker_ttl) now)) s.processed;
}

-- A call of `process`: the event, the clock, and which calls of MongoDB get through.
pub record Delivery : Type 0 where
  pub event_id : ℕ
  pub type_name : String
  pub occurred_at : Option ℕ
  pub now : ℕ
  pub insert_up : Bool
  pub update_up : Bool
  pub commit_up : Bool

pub data Reply : Type 0 where
  applied duplicate : Reply

pub data Error : Type 0 where
  duplicate_event connection_error : Error

abbrev pub or_now : ℕ → Option ℕ → ℕ
or_now now none = now
or_now now (some at) = at

abbrev pub day : Delivery → ℕ
day d = or_now d.now d.occurred_at / 86400000

-- The filter on a day and a type.
abbrev pub is_for : ℕ → String → Stat → Bool
is_for day type_name x = x.day == day && same x.type_name type_name

abbrev pub add_one : Stat → Stat
add_one x = record x { count = suc x.count }

-- updateOne with `upsert: true`, where the filter and the update are given and `new` is the document
-- that the filter alone makes.
pub record Upsert : Type 0 where
  pub upsert_one : (Stat → Bool) → (Stat → Stat) → Stat → List Stat → List Stat

pub record IsUpsert (u : Upsert) : Type 0 where
  pub updates :
      (p : Stat → Bool) (f : Stat → Stat) (new : Stat) (xs : List Stat)
      → any p xs ≡ true
      → u.upsert_one p f new xs ≡ change_first p f xs
  pub inserts :
      (p : Stat → Bool) (f : Stat → Stat) (new : Stat) (xs : List Stat)
      → any p xs ≡ false
      → u.upsert_one p f new xs ≡ xs ++ f new ∷ []

module _ (m : Mongo) (u : Upsert) where
  abbrev pub inserted : Option (List Marker) → Call Stats Error (Unit {0})
  inserted none s = (err duplicate_event, s)
  inserted (some ids) s = (ok tt, record s { processed = ids })

  abbrev pub create_marker : Delivery → Call Stats Error (Unit {0})
  create_marker d s =
      if d.insert_up
      then inserted
          (m.insert (λ x y. x.event_id == y.event_id)
            (record { event_id = d.event_id; processed_at = d.now }) s.processed)
          s
      else (err connection_error, s)

  abbrev pub count_event : Delivery → Call Stats Error (Unit {0})
  count_event d s =
      if d.update_up
      then (
        ok tt,
        record s {
          stats =
              u.upsert_one (is_for (day d) d.type_name) add_one
                (record { day = day d; type_name = d.type_name; count = 0 }) s.stats;
        },
      )
      else (err connection_error, s)

  -- The body of the transaction, and the commit.
  unfoldable pub body : Delivery → Call Stats Error (Unit {0})
  body d s = continue (create_marker d s) (λ _ t.
      continue (count_event d t)
        (λ _ t'. if d.commit_up then (ok tt, t') else (err connection_error, t')))

  abbrev pub replied : Result Error (Unit {0}) → Result Error Reply
  replied (ok _) = ok applied
  replied (err duplicate_event) = ok duplicate
  replied (err connection_error) = err connection_error

  unfoldable pub process : Delivery → Call Stats Error Reply
  unfolding body
  process d s = let (reply, s') = m.transaction (body d) s in (replied reply, s')
