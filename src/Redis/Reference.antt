-- ===== src/Redis/Reference.antt =====
-- A Redis that meets the laws: sets as tests, sorted sets as lists of entries.
use ai_distributed_workflow.Base.{
  ℕ, refl, true, false, List, [], ◌∷◌, ◌==◌, if◌then◌else◌, none, some, ◌++◌, Bool, Option, arith,
  length, not, keep, count,
}
use ai_distributed_workflow.Redis.{Redis, IsRedis, bit, is_some}
use ai_distributed_workflow.Redis.Sorted.{
  score-without, Entries, score, occurs-at_most, due, without, occurs-due, IsIndexed-add,
  at_most_all, IsIndexed-keep, length-at_most, count-without, is_above, count-keep, is_above_mono,
  length-keep, lowest, score-keep, IsIndexed,
}
use ai_distributed_workflow.Mongo.Driver.{at_most}

abbrev pub pop_front : List ℕ → Option ℕ × List ℕ
pop_front [] = (none, [])
pop_front (x ∷ xs) = (some x, xs)

abbrev pub redis : Redis
redis = record {
  rpush = λ i xs. xs ++ i ∷ [];
  lpop = pop_front;
  llen = λ xs. length xs;
  IdSet = ℕ → Bool;
  no_ids = λ i. false;
  sismember = λ i s. s i;
  sadd = λ i s. (λ j. if i == j then true else s j, if s i then 0 else 1);
  srem = λ i s. (λ j. if i == j then false else s j, if s i then 1 else 0);
  SortedSet = (xs : Entries) × IsIndexed xs;
  no_scores = ([], tt);
  zscore = λ i z. score i z.0;
  zadd = λ n i z. ((i, n) ∷ without i z.0, IsIndexed-add n i z.0 z.1);
  zrem = λ i z.
      ((without i z.0, IsIndexed-keep (λ e. not (e.0 == i)) z.0 z.1), bit (is_some (score i z.0)));
  zcard = λ z. length z.0;
  zrange_by_score = λ now limit z. at_most limit (due now z.0);
  zrem_range_by_score = λ a z. (keep (is_above a) z.0, IsIndexed-keep (is_above a) z.0 z.1);
  zcount_above = λ b z. count (is_above b) z.0;
  zlowest = λ z. lowest z.0;
}

pub redis-IsRedis : IsRedis redis
redis-IsRedis = record {
  rpush_lem = λ i xs. refl;
  lpop_nil = refl;
  lpop_cons = λ i xs. refl;
  llen_lem = λ xs. refl;
  no_ids_lem = λ i. refl;
  sadd_lem = λ i j s. refl;
  sadd_reply = λ i s. refl;
  srem_lem = λ i j s. refl;
  no_scores_lem = λ i. refl;
  zadd_lem = λ n i j z. ground (arith, score-without i j z.0);
  zrem_lem = λ i j z. score-without i j z.0;
  zrem_reply = λ i z. refl;
  zrange_sound = λ now limit i z.
      omega (arith, occurs-at_most i limit (due now z.0), occurs-due now i z.0 z.1);
  zrange_complete =
      λ now limit i z h. rw (at_most_all limit (due now z.0) h) (occurs-due now i z.0 z.1);
  zrange_limit = λ now limit z. length-at_most limit (due now z.0);
  zcount_none = λ b. refl;
  zcount_zadd = λ n i b z h. ground (arith, count-without (is_above b) i z.0 h);
  zcount_zrem_range =
      λ a b z h. count-keep (is_above a) (is_above b) z.0 (λ e k. is_above_mono a b e h k);
  zcard_zrem_range = λ a z. length-keep (is_above a) z.0;
  zrem_range_lem = λ a i z h. score-keep (is_above a) i z.0 h;
}
