-- ===== src/Engine/Runs/Guarantees.antt =====
-- What the invariant of the reachable states means for a completed run of
-- src/workflow/engine.js.
use ai_distributed_workflow.Base.{
  ℕ, refl, ◌≡◌, Bool, true, false, List, [], ◌∷◌, All, ◌==◌, count, Bool-cases, arith, inl, inr,
  first, some, All-map_of, All-both, All-first, subst,
}
use ai_distributed_workflow.Workflow.States.{ExecutionStatus as E, TaskStatus as T}
use ai_distributed_workflow.Mongo.Driver.{Mongo, IsMongo}
use ai_distributed_workflow.Engine.Model.{Store, Deps, Execution}
use ai_distributed_workflow.Engine.Ledger.{
  is_unfinished, is_sound, is_broken, Books, broken, unfinished, nowhere, nobody, is_over,
  broken_of, unfinished_of,
}
use ai_distributed_workflow.Engine.Runs.{Reachable}
use ai_distributed_workflow.Engine.Dispatch.{has_id}
use ai_distributed_workflow.Mongo.Counting.{first_passes}
use ai_distributed_workflow.Engine.Runs.Invariant.{Reachable-IsBalanced}

-- A task that is neither unfinished nor broken is COMPLETED.
settled-completed : (st : T) → is_unfinished st ≡ false → is_broken st ≡ false → st ≡ T.completed
settled-completed T.pending u b = absurd (ground (arith, u))
settled-completed T.ready u b = absurd (ground (arith, u))
settled-completed T.queued u b = absurd (ground (arith, u))
settled-completed T.running u b = absurd (ground (arith, u))
settled-completed T.retrying u b = absurd (ground (arith, u))
settled-completed T.waiting_for_approval u b = absurd (ground (arith, u))
settled-completed T.completed u b = refl
settled-completed T.failed u b = absurd (ground (arith, b))
settled-completed T.dead_letter u b = absurd (ground (arith, b))
settled-completed T.cancelled u b = absurd (ground (arith, b))

none-All : {A : Type 0} (q : A → Bool) (xs : List A) → count q xs ≡ 0 → All (λ x. q x ≡ false) xs
none-All q [] h = tt
none-All q (x ∷ xs) h = elim (Bool-cases (q x)) [
  | inl e ↦ absurd (ground (arith, e, h))
  | inr e ↦ let rest : count q xs ≡ 0 = ground (arith, e, h) in (e, none-All q xs rest)
]

-- What every task of run `e` satisfies.
abbrev pub EachTask : ℕ → (T → Type 0) → Store → Type 0
EachTask e P s = All (λ t. (t.execution_id == e) ≡ true → P t.status) s.tasks

module _ (m : Mongo) (laws : IsMongo m) (d : Deps) (s : Store) (r : Reachable m d s) (x : Execution)
    (e : ℕ) (found : first (has_id e) s.executions ≡ some x) where
  its-Books : Books nowhere nobody s.tasks x
  its-Books = All-first _ (has_id e) s.executions (Reachable-IsBalanced m laws d s r).books found

  its_id : x.id ≡ e
  its_id =
      let h : (x.id == e) ≡ true = first_passes (has_id e) s.executions found in ground (arith, h)

  no_unfinished : is_over x.status ≡ true → All (λ t. unfinished_of e t ≡ false) s.tasks
  unfolding unfinished
  no_unfinished o =
      none-All (unfinished_of e) s.tasks
        (subst (λ i. count (unfinished_of i) s.tasks ≡ 0) its_id (omega (arith, its-Books.over o)))

  no_broken : is_sound x.status ≡ true → All (λ t. broken_of e t ≡ false) s.tasks
  unfolding broken
  no_broken o =
      none-All (broken_of e) s.tasks
        (subst (λ i. count (broken_of i) s.tasks ≡ 0) its_id (its-Books.sound refl o))

  -- In every reachable state, each task of a COMPLETED run is COMPLETED.
  pub completed_run_done : x.status ≡ E.completed → EachTask e (λ st. st ≡ T.completed) s
  completed_run_done c =
      All-map_of _ _ s.tasks
        (λ t h own.
          settled-completed t.status (ground (arith, h.0, own)) (ground (arith, h.1, own)))
        (All-both _ _ s.tasks (no_unfinished (rw c refl)) (no_broken (rw c refl)))
