-- ===== src/Engine/Ledger/Runs.antt =====
-- How the cancelling of tasks and the updates of one run move the invariant.
use ai_distributed_workflow.Base.{
  ℕ, ◌≡◌, ◌<◌, Bool, true, false, List, ◌==◌, count, arith, Bool-cases, inl, inr, ==_iff, All,
  All-both, ◌∷◌, [],
}
use ai_distributed_workflow.Mongo.Driver.{change_first, change_all}
use ai_distributed_workflow.Mongo.Counting.{count-change_all_same, count-change_all_out}
use ai_distributed_workflow.Mongo.Keyed.{KeepsId, Selects, Distinct-change_first, All-change_first}
use ai_distributed_workflow.Engine.Model.{Execution, Task, Store}
use ai_distributed_workflow.Engine.Actions.{set_executions}
use ai_distributed_workflow.Engine.Ledger.{
  Books, Ledger, nowhere, just, only, unfinished, broken, unfinished_of, broken_of, is_unfinished,
}
use ai_distributed_workflow.Engine.Ledger.Steps.{KeepsIdentity, Moves}

-- The tasks of run `e` that pass are cancelled.
module _ (e : ℕ) (p : Task → Bool) (f : Task → Task) (k : KeepsIdentity f)
    (picks : (t : Task) → p t ≡ true → (t.execution_id ≡ e) × (is_unfinished t.status ≡ true))
    (ends : (t : Task) → is_unfinished (f t).status ≡ false) where
  here_out :
      (i : ℕ)
      → i ≡ e
      → (t : Task) → p t ≡ true
      → (unfinished_of i t ≡ true) × (unfinished_of i (f t) ≡ false)
  here_out i same t h = ground (arith, picks t h, ends t)

  elsewhere_unfinished :
      (i : ℕ)
      → (i == e) ≡ false
      → (t : Task) → p t ≡ true
      → unfinished_of i (f t) ≡ unfinished_of i t
  elsewhere_unfinished i other t h = ground (arith, picks t h, k.same_run t)

  elsewhere_broken :
      (i : ℕ) → (i == e) ≡ false → (t : Task) → p t ≡ true → broken_of i (f t) ≡ broken_of i t
  elsewhere_broken i other t h = ground (arith, picks t h, k.same_run t)

  pub Moves-cancelled :
      (b : ℕ → Bool) (ts : List Task)
      → ((i : ℕ) → only e i ≡ false → b i ≡ false)
      → Moves nowhere (just e (count p ts)) b (only e) ts (change_all p f ts)
  unfolding unfinished broken
  Moves-cancelled b ts excused = record {
    counts = λ i. elim (Bool-cases (i == e)) [
      | inl h ↦ rw h (
          omega
            (arith, count-change_all_out (unfinished_of i) p f ts (here_out i ((==_iff i e).0 h))))
      | inr h ↦
          rw h (
            omega
              (arith, count-change_all_same (unfinished_of i) p f ts (elsewhere_unfinished i h)))
    ];
    breaks =
        λ i h. (excused i h, count-change_all_same (broken_of i) p f ts (elsewhere_broken i h));
  }

-- The first document that a filter by id `e` lets pass is exchanged; `R` is known of the documents.
pub Ledger-execution :
    {g g' : ℕ → ℕ} {b b' : ℕ → Bool} (R : Execution → Type 0) (e : ℕ) (p : Execution → Bool)
    (f : Execution → Execution) (s : Store)
    → All R s.executions
    → Selects (λ x. x.id) e p
    → KeepsId (λ x. x.id) f
    → ((x : Execution) → p x ≡ true → R x → Books g b s.tasks x → Books g' b' s.tasks (f x))
    → ((x : Execution) → p x ≡ false → R x → Books g b s.tasks x → Books g' b' s.tasks x)
    → Ledger g b s
    → Ledger g' b' (set_executions (change_first p f s.executions) s)
Ledger-execution {g = g} {g' = g'} {b = b} {b' = b'} R e p f s known sel k hit miss v = record {
  executions_distinct = Distinct-change_first (λ x. x.id) p f s.executions k v.executions_distinct;
  tasks_distinct = v.tasks_distinct;
  executions_issued =
      All-change_first (λ x. x.id) (λ x. x.id < s.issued) (λ x. x.id < s.issued) e p f s.executions
        sel v.executions_distinct (λ x h l. omega (arith, k x)) (λ x h l. l) v.executions_issued;
  tasks_issued = v.tasks_issued;
  books =
      All-change_first (λ x. x.id) (λ x. R x × Books g b s.tasks x) (Books g' b' s.tasks) e p f
        s.executions sel v.executions_distinct (λ x h r. hit x h r.0 r.1)
        (λ x h r. miss x h r.0 r.1) (All-both R (Books g b s.tasks) s.executions known v.books);
}

pub All-Unit : {A : Type 0} (xs : List A) → All (λ _. Unit {0}) xs
All-Unit [] = tt
All-Unit (x ∷ xs) = (tt, All-Unit xs)
