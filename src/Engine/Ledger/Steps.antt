-- ===== src/Engine/Ledger/Steps.antt =====
-- How updates of one collection move the invariant.
use ai_distributed_workflow.Base.{
  ℕ, ◌+◌, ◌≡◌, refl, ap, ◌∙◌, ◌<◌, Bool, true, false, List, [], ◌∷◌, All, All-map_of, some, first,
  arith,
}
use ai_distributed_workflow.Base.Int.{pos}
use ai_distributed_workflow.Mongo.Driver.{change_first, change_all}
use ai_distributed_workflow.Mongo.Counting.{
  count-change_first, count-change_first_same, count-change_all_same,
}
use ai_distributed_workflow.Mongo.Keyed.{Distinct-change_first, Distinct-change_all}
use ai_distributed_workflow.Engine.Model.{Execution, Task, Store}
use ai_distributed_workflow.Engine.Actions.{set_tasks}
use ai_distributed_workflow.Engine.Ledger.{
  Books, Ledger, nowhere, nobody, just, only, unfinished, broken, unfinished_of, broken_of,
  is_unfinished, is_broken,
}

-- What an update may not touch.
pub record KeepsIdentity (f : Task → Task) : Type 0 where
  pub same_id : (t : Task) → (f t).id ≡ t.id
  pub same_run : (t : Task) → (f t).execution_id ≡ t.execution_id

-- The counts of unfinished and broken tasks of each run, before and after.
pub record Moves (g g' : ℕ → ℕ) (b b' : ℕ → Bool) (ts ts' : List Task) : Type 0 where
  pub counts : (i : ℕ) → unfinished i ts + g i ≡ unfinished i ts' + g' i
  pub breaks : (i : ℕ) → b' i ≡ false → (b i ≡ false) × (broken i ts' ≡ broken i ts)

pub Books-Moves :
    {g g' : ℕ → ℕ} {b b' : ℕ → Bool} {ts ts' : List Task}
    → Moves g g' b b' ts ts'
    → (x : Execution) → Books g b ts x
    → Books g' b' ts' x
Books-Moves mv x h = record {
  pending = h.pending ∙ ap pos (mv.counts x.id);
  sound = λ e o. (mv.breaks x.id e).1 ∙ h.sound (mv.breaks x.id e).0 o;
  over = λ o. omega (arith, mv.counts x.id, h.over o);
}

-- The bounds on ids only grow.
Issued-tasks :
    (p : Task → Bool) (f : Task → Task) (n : ℕ) (ts : List Task)
    → KeepsIdentity f
    → All (λ t. (t.id < n) × (t.execution_id < n)) ts
    → All (λ t. (t.id < n) × (t.execution_id < n)) (change_all p f ts)
Issued-tasks p f n [] k h = tt
Issued-tasks p f n (t ∷ ts) k h =
    ground (arith, Issued-tasks p f n ts k h.1, k.same_id t, k.same_run t)

Issued-first :
    (p : Task → Bool) (f : Task → Task) (n : ℕ) (ts : List Task)
    → KeepsIdentity f
    → All (λ t. (t.id < n) × (t.execution_id < n)) ts
    → All (λ t. (t.id < n) × (t.execution_id < n)) (change_first p f ts)
Issued-first p f n [] k h = tt
Issued-first p f n (t ∷ ts) k h =
    ground (arith, Issued-first p f n ts k h.1, k.same_id t, k.same_run t)

module _ {g g' : ℕ → ℕ} {b b' : ℕ → Bool} (p : Task → Bool) (f : Task → Task)
    (k : KeepsIdentity f) where
  pub Ledger-change_first :
      (s : Store)
      → Moves g g' b b' s.tasks (change_first p f s.tasks)
      → Ledger g b s
      → Ledger g' b' (set_tasks (change_first p f s.tasks) s)
  Ledger-change_first s mv v = record {
    executions_distinct = v.executions_distinct;
    tasks_distinct = Distinct-change_first (λ t. t.id) p f s.tasks k.same_id v.tasks_distinct;
    executions_issued = v.executions_issued;
    tasks_issued = Issued-first p f s.issued s.tasks k v.tasks_issued;
    books = All-map_of _ _ s.executions (Books-Moves mv) v.books;
  }

  pub Ledger-change_all :
      (s : Store)
      → Moves g g' b b' s.tasks (change_all p f s.tasks)
      → Ledger g b s
      → Ledger g' b' (set_tasks (change_all p f s.tasks) s)
  Ledger-change_all s mv v = record {
    executions_distinct = v.executions_distinct;
    tasks_distinct = Distinct-change_all (λ t. t.id) p f s.tasks k.same_id v.tasks_distinct;
    executions_issued = v.executions_issued;
    tasks_issued = Issued-tasks p f s.issued s.tasks k v.tasks_issued;
    books = All-map_of _ _ s.executions (Books-Moves mv) v.books;
  }

-- No unfinished task ends and none appears.
abbrev pub SameStanding : (Task → Bool) → (Task → Task) → Type 0
SameStanding p f =
    (t : Task)
    → p t ≡ true
    → (is_unfinished (f t).status ≡ is_unfinished t.status)
      × (is_broken (f t).status ≡ is_broken t.status)

module _ (g : ℕ → ℕ) (b : ℕ → Bool) (p : Task → Bool) (f : Task → Task) (k : KeepsIdentity f)
    (same : SameStanding p f) where
  same_unfinished : (i : ℕ) (t : Task) → p t ≡ true → unfinished_of i (f t) ≡ unfinished_of i t
  same_unfinished i t e = ground (arith, same t e, k.same_run t)

  same_broken : (i : ℕ) (t : Task) → p t ≡ true → broken_of i (f t) ≡ broken_of i t
  same_broken i t e = ground (arith, same t e, k.same_run t)

  pub Moves-all : (ts : List Task) → Moves g g b b ts (change_all p f ts)
  unfolding unfinished broken
  Moves-all ts = record {
    counts = λ i. omega (arith, count-change_all_same (unfinished_of i) p f ts (same_unfinished i));
    breaks = λ i e. (e, count-change_all_same (broken_of i) p f ts (same_broken i));
  }

  pub Moves-first : (ts : List Task) → Moves g g b b ts (change_first p f ts)
  unfolding unfinished broken
  Moves-first ts = record {
    counts =
        λ i. omega (arith, count-change_first_same (unfinished_of i) p f ts (same_unfinished i));
    breaks = λ i e. (e, count-change_first_same (broken_of i) p f ts (same_broken i));
  }

-- One task `t` of run `e` ends.
module _ (p : Task → Bool) (f : Task → Task) (k : KeepsIdentity f) (e : ℕ) (t : Task)
    (of_run : t.execution_id ≡ e) (was : is_unfinished t.status ≡ true)
    (ended : is_unfinished (f t).status ≡ false) (ts : List Task) (hit : first p ts ≡ some t) where
  one_less : (i : ℕ) → unfinished i ts + 0 ≡ unfinished i (change_first p f ts) + just e 1 i
  unfolding unfinished
  one_less i = ground (arith, count-change_first (unfinished_of i) p f ts hit, k.same_run t)

  pub Moves-completed :
      is_broken (f t).status ≡ false
      → Moves nowhere (just e 1) nobody nobody ts (change_first p f ts)
  unfolding broken
  Moves-completed clean = record {
    counts = one_less;
    breaks =
        λ i n. (refl, ground (arith, count-change_first (broken_of i) p f ts hit, k.same_run t));
  }

  pub Moves-failed : Moves nowhere (just e 1) nobody (only e) ts (change_first p f ts)
  unfolding broken
  Moves-failed = record {
    counts = one_less;
    breaks =
        λ i n. (refl, ground (arith, count-change_first (broken_of i) p f ts hit, k.same_run t));
  }
