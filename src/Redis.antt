-- ===== src/Redis.antt =====
-- The Redis commands that the Lua scripts and the lock use, and their documented behaviour. The
-- LIST type is a list; sets and sorted sets are known by what commands tell of them. Ids are
-- numbers.
pub mod Sorted
pub mod Reference
pub mod Keys
pub mod Expiry
use ai_distributed_workflow.Base.{
  ℕ, ◌+◌, ◌≤◌, ◌<◌, ◌≡◌, Bool, true, false, Option, none, some, List, [], ◌∷◌, ◌++◌, ◌==◌,
  if◌then◌else◌, length, leb,
}
use ai_distributed_workflow.Base.Int.{ℤ, pos, ltb_ℤ}

-- How often an id stands in a list.
abbrev pub occurs : ℕ → List ℕ → ℕ
occurs i [] = 0
occurs i (x ∷ xs) = (if x == i then 1 else 0) + occurs i xs

abbrev pub bit : Bool → ℕ
bit true = 1
bit false = 0

abbrev pub is_some : Option ℕ → Bool
is_some none = false
is_some (some n) = true

abbrev pub is_due : ℕ → Option ℕ → Bool
is_due now none = false
is_due now (some n) = leb n now

-- A command that may change a key returns the new value beside its reply.
pub record Redis : Type 1 where
  pub rpush : ℕ → List ℕ → List ℕ
  pub lpop : List ℕ → Option ℕ × List ℕ
  pub llen : List ℕ → ℕ
  pub IdSet : Type 0
  pub no_ids : IdSet
  pub sismember : ℕ → IdSet → Bool
  pub sadd : ℕ → IdSet → IdSet × ℕ
  pub srem : ℕ → IdSet → IdSet × ℕ
  pub SortedSet : Type 0
  pub no_scores : SortedSet
  pub zscore : ℕ → SortedSet → Option ℕ
  -- `zadd score id`
  pub zadd : ℕ → ℕ → SortedSet → SortedSet
  pub zrem : ℕ → SortedSet → SortedSet × ℕ
  pub zcard : SortedSet → ℕ
  -- ZRANGEBYSCORE key -inf max LIMIT 0 count
  pub zrange_by_score : ℕ → ℕ → SortedSet → List ℕ
  -- ZREMRANGEBYSCORE key -inf max
  pub zrem_range_by_score : ℤ → SortedSet → SortedSet
  -- ZCOUNT key (min +inf
  pub zcount_above : ℤ → SortedSet → ℕ
  -- The score in the reply of ZRANGE key 0 0 WITHSCORES.
  pub zlowest : SortedSet → Option ℕ

pub record IsRedis (r : Redis) : Type 0 where
  pub rpush_lem : (i : ℕ) (xs : List ℕ) → r.rpush i xs ≡ xs ++ i ∷ []
  pub lpop_nil : r.lpop [] ≡ (none, [])
  pub lpop_cons : (i : ℕ) (xs : List ℕ) → r.lpop (i ∷ xs) ≡ (some i, xs)
  pub llen_lem : (xs : List ℕ) → r.llen xs ≡ length xs
  pub no_ids_lem : (i : ℕ) → r.sismember i r.no_ids ≡ false
  pub sadd_lem :
      (i j : ℕ) (s : r.IdSet)
      → r.sismember j (r.sadd i s).0 ≡ (if i == j then true else r.sismember j s)
  pub sadd_reply : (i : ℕ) (s : r.IdSet) → (r.sadd i s).1 ≡ (if r.sismember i s then 0 else 1)
  pub srem_lem :
      (i j : ℕ) (s : r.IdSet)
      → r.sismember j (r.srem i s).0 ≡ (if i == j then false else r.sismember j s)
  pub no_scores_lem : (i : ℕ) → r.zscore i r.no_scores ≡ none
  pub zadd_lem :
      (n i j : ℕ) (z : r.SortedSet)
      → r.zscore j (r.zadd n i z) ≡ (if i == j then some n else r.zscore j z)
  pub zrem_lem :
      (i j : ℕ) (z : r.SortedSet)
      → r.zscore j (r.zrem i z).0 ≡ (if i == j then none else r.zscore j z)
  pub zrem_reply : (i : ℕ) (z : r.SortedSet) → (r.zrem i z).1 ≡ bit (is_some (r.zscore i z))
  -- Only ids that are due are returned, each once, and all of them unless the limit cuts them off.
  pub zrange_sound :
      (now limit i : ℕ) (z : r.SortedSet)
      → occurs i (r.zrange_by_score now limit z) ≤ bit (is_due now (r.zscore i z))
  pub zrange_complete :
      (now limit i : ℕ) (z : r.SortedSet)
      → length (r.zrange_by_score now limit z) < limit
      → occurs i (r.zrange_by_score now limit z) ≡ bit (is_due now (r.zscore i z))
  pub zrange_limit :
      (now limit : ℕ) (z : r.SortedSet) → length (r.zrange_by_score now limit z) ≤ limit
  pub zcount_none : (b : ℤ) → r.zcount_above b r.no_scores ≡ 0
  pub zcount_zadd :
      (n i : ℕ) (b : ℤ) (z : r.SortedSet)
      → r.zscore i z ≡ none
      → r.zcount_above b (r.zadd n i z) ≡ r.zcount_above b z + bit (ltb_ℤ b (pos n))
  pub zcount_zrem_range :
      (a b : ℤ) (z : r.SortedSet)
      → ltb_ℤ b a ≡ false
      → r.zcount_above b (r.zrem_range_by_score a z) ≡ r.zcount_above b z
  pub zcard_zrem_range :
      (a : ℤ) (z : r.SortedSet) → r.zcard (r.zrem_range_by_score a z) ≡ r.zcount_above a z
  pub zrem_range_lem :
      (a : ℤ) (i : ℕ) (z : r.SortedSet)
      → r.zscore i z ≡ none
      → r.zscore i (r.zrem_range_by_score a z) ≡ none
