-- ===== src/Events/Analytics/Examples.antt =====
-- An event delivered three times to src/events/analyticsProcessor.js, and another once.
use ai_distributed_workflow.Base.Tests.{same}
use ai_distributed_workflow.Events.Analytics.Tally.{tally, matches}
use ai_distributed_workflow.Base.{
  refl, String, ℕ, ◌≡◌, true, some, List, [], ◌∷◌, All, any, count, if◌then◌else◌, ◌++◌, arith,
}
use ai_distributed_workflow.Mongo.Reference.{reference, reference-IsMongo}
use ai_distributed_workflow.Mongo.Driver.{change_first}
use ai_distributed_workflow.Events.Analytics.{
  Delivery, Upsert, IsUpsert, no_stats, process, body, expire,
}
use ai_distributed_workflow.Events.Analytics.Markers.{
  Event, delivers, removes, InOrder, Spaced, Counts,
}
use ai_distributed_workflow.Events.Analytics.Once.{consume, consume_once}

abbrev upsert : Upsert
upsert = record {
  upsert_one = λ p f new xs. if any p xs then change_first p f xs else xs ++ f new ∷ [];
}

upsert-IsUpsert : IsUpsert upsert
upsert-IsUpsert = record {
  updates = λ p f new xs h. rw h refl;
  inserts = λ p f new xs h. rw h refl;
}

abbrev delivery : ℕ → String → ℕ → Delivery
delivery id name now = record {
  event_id = id;
  type_name = name;
  occurred_at = some 86400001;
  now = now;
  insert_up = true;
  update_up = true;
  commit_up = true;
}

-- The last delivery comes when the marker of the first is gone.
abbrev events : List Event
events =
    delivers (delivery 1 "task.started" 5)
    ∷ delivers (delivery 2 "task.completed" 6)
    ∷ delivers (delivery 1 "task.started" 7)
    ∷ removes 2592000010 (λ k. true)
    ∷ delivers (delivery 1 "task.started" 2592000011)
    ∷ []

events-InOrder : InOrder 0 events
events-InOrder = (omega arith, (omega arith, (omega arith, (omega arith, (omega arith, tt)))))

consume_once_example :
    let (h, s) = consume reference upsert events ([], no_stats) in
    ((d : ℕ) (t : String) → tally d t s.stats ≡ count (matches d t) h)
    × Spaced h
    × All (Counts h) events
consume_once_example =
    consume_once reference reference-IsMongo upsert upsert-IsUpsert events events-InOrder

-- It is counted again.
counted_twice : tally 1 "task.started" (consume reference upsert events ([], no_stats)).1.stats ≡ 2
unfolding consume process body expire same
counted_twice = refl
