-- ===== src/Queues/TaskQueue/Places.antt =====
-- Where src/queues/taskQueue.js keeps an id: in the ready list, under a lease, or delayed.
use mathlib.Core.List.{append_assoc}
use ai_distributed_workflow.Base.{
  ℕ, ◌+◌, ◌≡◌, refl, arith, true, false, List, [], ◌∷◌, ◌==◌, if◌then◌else◌, none, ◌++◌, sym, ◌∙◌,
  Bool, ap,
}
use ai_distributed_workflow.Redis.{Redis, occurs, IsRedis, bit, is_some}
use ai_distributed_workflow.Queues.TaskQueue.{Queue, move_ready}
use ai_distributed_workflow.Mongo.Counting.{append_nil}

module _ (r : Redis) where
  abbrev pub places : ℕ → Queue r → ℕ
  places i q =
      occurs i q.ready
      + (bit (is_some (r.zscore i q.leases)) + bit (is_some (r.zscore i q.delayed)))

  -- Each id is in one place if it is a member, and in none otherwise.
  abbrev pub IsSound : Queue r → Type 0
  IsSound q = (i : ℕ) → places i q ≡ bit (r.sismember i q.members)

pub occurs-append : (i : ℕ) (xs ys : List ℕ) → occurs i (xs ++ ys) ≡ occurs i xs + occurs i ys
occurs-append i [] ys = omega arith
occurs-append i (x ∷ xs) ys = omega (arith, occurs-append i xs ys)

module _ (r : Redis) (laws : IsRedis r) where
  -- One round of the loop of the reaper and the promoter.
  pub move_score :
      (ids : List ℕ) (z : r.SortedSet) (ready : List ℕ) (j : ℕ)
      → r.zscore j (move_ready r ids (z, ready)).0
        ≡ (if occurs j ids == 0 then r.zscore j z else none)
  unfolding move_ready
  move_score [] z ready j = refl
  move_score (id ∷ ids) z ready j = ground (
    arith,
    move_score ids (r.zrem id z).0 (if (r.zrem id z).1 == 1 then r.rpush id ready else ready) j,
    laws.zrem_lem id j z,
  )

  -- An id leaves the sorted set and enters the list together.
  pub move_place :
      (ids : List ℕ) (z : r.SortedSet) (ready : List ℕ) (j : ℕ)
      → occurs j (move_ready r ids (z, ready)).1
          + bit (is_some (r.zscore j (move_ready r ids (z, ready)).0))
        ≡ occurs j ready + bit (is_some (r.zscore j z))
  unfolding move_ready
  move_place [] z ready j = refl
  move_place (id ∷ ids) z ready j = ground (
    arith,
    move_place ids (r.zrem id z).0 (if (r.zrem id z).1 == 1 then r.rpush id ready else ready) j,
    laws.zrem_lem id j z,
    laws.zrem_reply id z,
    laws.rpush_lem id ready,
    occurs-append j ready (id ∷ []),
  )

  -- What enters is appended.
  joined :
      (b : Bool) (id : ℕ) (ready : List ℕ)
      → (if b then r.rpush id ready else ready) ≡ ready ++ (if b then id ∷ [] else [])
  joined true id ready = laws.rpush_lem id ready
  joined false id ready = sym (append_nil ready)

  pub move_append :
      (ids : List ℕ) (z : r.SortedSet) (ready : List ℕ)
      → (added : List ℕ) × ((move_ready r ids (z, ready)).1 ≡ ready ++ added)
  unfolding move_ready
  move_append [] z ready = ([], sym (append_nil ready))
  move_append (id ∷ ids) z ready =
      let first_in = if (r.zrem id z).1 == 1 then id ∷ [] else [] in
      let (added, h) =
        move_append ids (r.zrem id z).0
          (if (r.zrem id z).1 == 1 then r.rpush id ready else ready) in
      (
        first_in ++ added,
        h
            ∙ (ap (λ xs. xs ++ added) (joined ((r.zrem id z).1 == 1) id ready)
                ∙ append_assoc ready first_in added),
      )
