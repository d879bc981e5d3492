-- ===== src/Engine/Ledger/Start.antt =====
-- The invariant of Engine/Ledger and the new run and tasks of startExecution, in src/workflow/engine.js.
use ai_distributed_workflow.Base.{
  ◌∙◌, refl, ℕ, true, false, if◌then◌else◌, Bool, ◌+◌, List, [], ◌∷◌, suc, ◌++◌, ◌≤◌, ◌<◌,
  All-map_of, ◌≡◌, length, All, arith, ap, is_empty, All-append, count-append, All-both,
}
use ai_distributed_workflow.Base.Result.{ok}
use ai_distributed_workflow.Engine.Model.{Store, Task}
use ai_distributed_workflow.Workflow.Dag.{Children}
use ai_distributed_workflow.Engine.Start.{TaskDef, new_tasks, new_task}
use ai_distributed_workflow.Engine.Ledger.{
  IsBalanced, Execution, is_unfinished, is_broken, E, T, pos, unfinished, Books, broken, nowhere,
  nobody, is_over, unfinished_of, broken_of,
}
use ai_distributed_workflow.Mongo.Keyed.{Distinct, Distinct-append}
use ai_distributed_workflow.Mongo.Counting.{count_out, count_in}

-- The tasks of a new run `e`: ids from `n` on, none finished.
pub record Fresh (e n k : ℕ) (t : Task) : Type 0 where
  pub from : n ≤ t.id
  pub below : t.id < k
  pub of_run : t.execution_id ≡ e
  pub unended : is_unfinished t.status ≡ true
  pub unbroken : is_broken t.status ≡ false

pub record Drawn (e n : ℕ) (defs : List TaskDef) (ts : List Task) : Type 0 where
  pub distinct : Distinct (λ t. t.id) ts
  pub fresh : All (Fresh e n (n + length defs)) ts
  pub many : length ts ≡ length defs

-- As many ids are drawn as there are definitions.
abbrev pub drawn : ℕ → ℕ → Children → ℕ → List TaskDef → ℕ → List Task
drawn e owner ch at [] n = []
drawn e owner ch at (t ∷ ts) n = new_task n e owner ch at t ∷ drawn e owner ch at ts (suc n)

pub new_tasks-drawn :
    (e owner : ℕ) (ch : Children) (at : ℕ) (defs : List TaskDef) (s : Store)
    → new_tasks e owner ch at defs s
      ≡ (ok (drawn e owner ch at defs s.issued), record s { issued = s.issued + length defs })
unfolding new_tasks
new_tasks-drawn e owner ch at [] s = ap (λ n. (ok [], record s { issued = n })) (omega arith)
new_tasks-drawn e owner ch at (t ∷ ts) s =
    rw (new_tasks-drawn e owner ch at ts (record s { issued = suc s.issued })) (
      ap (λ n. (ok (drawn e owner ch at (t ∷ ts) s.issued), record s { issued = n })) (omega arith))

new_task-Fresh :
    (e owner : ℕ) (ch : Children) (at n k : ℕ) (t : TaskDef)
    → n < k
    → Fresh e n k (new_task n e owner ch at t)
new_task-Fresh e owner ch at n k t h = record {
  from = omega arith;
  below = h;
  of_run = refl;
  unended = unended (is_empty t.depends_on);
  unbroken = unbroken (is_empty t.depends_on);
}
  where
    unended : (b : Bool) → is_unfinished (if b then T.ready else T.pending) ≡ true
    unended true = refl
    unended false = refl

    unbroken : (b : Bool) → is_broken (if b then T.ready else T.pending) ≡ false
    unbroken true = refl
    unbroken false = refl

Fresh-earlier : (e n k j : ℕ) (t : Task) → Fresh e (suc n) k t → k ≡ j → Fresh e n j t
Fresh-earlier e n k j t f h = record {
  from = omega (arith, f.from);
  below = omega (arith, f.below);
  of_run = f.of_run;
  unended = f.unended;
  unbroken = f.unbroken;
}

pub drawn-Drawn :
    (e owner : ℕ) (ch : Children) (at : ℕ) (defs : List TaskDef) (n : ℕ)
    → Drawn e n defs (drawn e owner ch at defs n)
drawn-Drawn e owner ch at [] n = record { distinct = tt; fresh = tt; many = refl }
drawn-Drawn e owner ch at (t ∷ ts) n =
    let rest = drawn-Drawn e owner ch at ts (suc n) in
    record {
      distinct = (
        All-map_of _ _ (drawn e owner ch at ts (suc n)) (λ y f. ground (arith, f.from)) rest.fresh,
        rest.distinct,
      );
      fresh = (
        new_task-Fresh e owner ch at n _ t (omega arith),
        All-map_of _ _ (drawn e owner ch at ts (suc n))
            (λ y f. Fresh-earlier e n _ _ y f (omega arith)) rest.fresh,
      );
      many = omega (arith, rest.many);
    }

-- The store after both inserts.
module _ (s : Store) (v : IsBalanced s) (x : Execution) (defs : List TaskDef) (ts : List Task)
    (new : x.id ≡ s.issued) (running : x.status ≡ E.running)
    (counted : x.pending_tasks ≡ pos (length defs))
    (dr : Drawn s.issued (suc s.issued) defs ts) where
  abbrev opened : Store
  opened = record s {
    executions = s.executions ++ x ∷ [];
    tasks = s.tasks ++ ts;
    issued = suc s.issued + length defs;
  }

  -- The new tasks count for no other run.
  old_counts :
      (i : ℕ)
      → i < s.issued
      → (unfinished i (s.tasks ++ ts) ≡ unfinished i s.tasks)
        × (broken i (s.tasks ++ ts) ≡ broken i s.tasks)
  unfolding unfinished broken
  old_counts i h = (
    omega (
      arith,
      count-append (unfinished_of i) s.tasks ts,
      count_out (unfinished_of i) ts (All-map_of _ _ ts (λ t f. ground (arith, f.of_run)) dr.fresh),
    ),
    omega (
      arith,
      count-append (broken_of i) s.tasks ts,
      count_out (broken_of i) ts (All-map_of _ _ ts (λ t f. ground (arith, f.of_run)) dr.fresh),
    ),
  )

  new_counts :
      (unfinished s.issued (s.tasks ++ ts) ≡ length defs) × (broken s.issued (s.tasks ++ ts) ≡ 0)
  unfolding unfinished broken
  new_counts = (
    omega (
      arith,
      count-append (unfinished_of s.issued) s.tasks ts,
      count_out (unfinished_of s.issued) s.tasks
          (All-map_of _ _ s.tasks (λ t h. ground (arith, h.1)) v.tasks_issued),
      count_in (unfinished_of s.issued) ts
          (All-map_of _ _ ts (λ t f. ground (arith, f.of_run, f.unended)) dr.fresh),
      dr.many,
    ),
    omega (
      arith,
      count-append (broken_of s.issued) s.tasks ts,
      count_out (broken_of s.issued) s.tasks
          (All-map_of _ _ s.tasks (λ t h. ground (arith, h.1)) v.tasks_issued),
      count_out (broken_of s.issued) ts
          (All-map_of _ _ ts (λ t f. ground (arith, f.unbroken)) dr.fresh),
    ),
  )

  old-Books :
      (y : Execution)
      → y.id < s.issued
      → Books nowhere nobody s.tasks y
      → Books nowhere nobody (s.tasks ++ ts) y
  old-Books y h books = record {
    pending = rw (old_counts y.id h).0 books.pending;
    sound = λ e o. rw (old_counts y.id h).1 (books.sound e o);
    over = λ o. rw (old_counts y.id h).0 (books.over o);
  }

  new-Books : Books nowhere nobody (s.tasks ++ ts) x
  new-Books = record {
    pending = rw new (rw new_counts.0 (counted ∙ ap pos (omega arith)));
    sound = λ e o. rw new new_counts.1;
    over = λ o.
        let not_yet : is_over E.running ≡ true = rw running at o in
        absurd (ground (arith, not_yet));
  }

  pub opened-IsBalanced : IsBalanced opened
  opened-IsBalanced = record {
    executions_distinct =
        Distinct-append (λ y. y.id) s.executions (x ∷ []) v.executions_distinct (tt, tt)
          (All-map_of _ _ s.executions (λ y h. (ground (arith, new), tt)) v.executions_issued);
    tasks_distinct =
        Distinct-append (λ t. t.id) s.tasks ts v.tasks_distinct dr.distinct
          (All-map_of _ _ s.tasks
            (λ t h. All-map_of _ _ ts (λ y f. ground (arith, f.from, h.0)) dr.fresh)
            v.tasks_issued);
    executions_issued =
        All-append _ s.executions (x ∷ [])
          (All-map_of _ _ s.executions (λ y h. omega arith) v.executions_issued)
          (omega (arith, new), tt);
    tasks_issued =
        All-append _ s.tasks ts
          (All-map_of _ _ s.tasks (λ t h. (omega (arith, h.0), omega (arith, h.1))) v.tasks_issued)
          (All-map_of _ _ ts (λ t f. (f.below, omega (arith, f.of_run))) dr.fresh);
    books =
        All-append _ s.executions (x ∷ [])
          (All-map_of _ _ s.executions (λ y h. old-Books y h.0 h.1)
            (All-both _ _ s.executions v.executions_issued v.books))
          (new-Books, tt);
  }
