-- ===== src/Scheduler/Once.antt =====
-- One due slot in runDue of src/scheduler/scheduler.js, also with two leaders.
use ai_distributed_workflow.Base.{
  ℕ, ◌≡◌, ◌<◌, ◌≤◌, ◌&&◌, Bool, false, Option, none, some, List, [], ◌∷◌, String, any, count,
  count-append, first, arith, refl, ap, ◌∙◌, same_refl, Option-cases, inl, inr, ◌==◌, All-first,
}
use ai_distributed_workflow.Base.Result.{Result, err}
use ai_distributed_workflow.Mongo.Reference.{reference, reference-IsMongo, for_every_driver}
use ai_distributed_workflow.Engine.Model.{Deps, Store, Execution, Failure}
use ai_distributed_workflow.Engine.Start.{start_execution, same_user, same_key, new_execution}
use ai_distributed_workflow.Engine.Ledger.{IsBalanced}
use ai_distributed_workflow.Engine.Runs.Starting.{Outboxed, start_execution-Settled}
use ai_distributed_workflow.Services.Executions.Replay.{start_execution-clash}
use ai_distributed_workflow.Engine.Runs.Starting.{IsStartable}
use ai_distributed_workflow.Services.Workflows.{Document, Schedule, snapshot, set_documents}
use ai_distributed_workflow.Scheduler.Cron.{CronParser, next_run_after}
use ai_distributed_workflow.Engine.Model.{duplicate_key_error}
use ai_distributed_workflow.Scheduler.Due.{
  Texts, slot_key, Site, slot_request, move_on, after_slot, run_slot, slot_is, advance, moved_on,
  base_of, slot_error,
}
use ai_distributed_workflow.Mongo.Driver.{Mongo, IsMongo}
use ai_distributed_workflow.Mongo.Keyed.{Distinct, All-change_first}
use ai_distributed_workflow.Mongo.Counting.{change_first-none}
use ai_distributed_workflow.Engine.Runs.{Reachable}
use ai_distributed_workflow.Services.Workflows.Changes.{Later, nothing}
use ai_distributed_workflow.Engine.Runs.Fencing.{first-none}
use ai_distributed_workflow.Services.Workflows.Stored.{
  stored-IsRunnable, Later-IsKept, nothing-IsKept,
}
use ai_distributed_workflow.Engine.Ledger.Runs.{All-Unit}
use ai_distributed_workflow.Engine.Runs.Invariant.{Reachable-IsBalanced}

-- The run was started for the owner with the key.
abbrev pub of_slot : ℕ → String → Execution → Bool
of_slot owner key x = same_user (some owner) x.triggered_by && same_key (some key) x.idempotency_key

-- How many runs were.
abbrev pub runs_of : ℕ → String → Store → ℕ
runs_of owner key s = count (of_slot owner key) s.executions

module _ {A : Type 0} (p : A → Bool) where
  first-any : (xs : List A) → first p xs ≡ none → any p xs ≡ false
  first-any [] h = refl
  first-any (x ∷ xs) h = ground (arith, h, first-any xs)

  first-count_none : (xs : List A) → first p xs ≡ none → count p xs ≡ 0
  first-count_none [] h = refl
  first-count_none (x ∷ xs) h = ground (arith, h, first-count_none xs)

  first-count : (xs : List A) {x : A} → first p xs ≡ some x → 0 < count p xs
  first-count [] h = absurd (ground (arith, h))
  first-count (y ∷ xs) {x} h = ground (arith, h, first-count xs {x = x})

module _ (d : Deps) (c : CronParser) (texts : Texts) (w : Document) (p : Schedule)
    (current at later : ℕ) where
  abbrev key : String
  key = slot_key texts w.id p.next_run_at

  abbrev begun : Store → Result Failure Execution × Store
  begun s =
      start_execution reference d (snapshot w) (slot_request reference d c texts w p) at later s

  move_on-engine :
      (r : Result Failure Execution) (next : Option ℕ) (s : Site)
      → (move_on reference d c texts w p current r next s).1.engine ≡ s.engine
  move_on-engine r none s = refl
  move_on-engine r (some n) s = refl

  after_slot-engine :
      (s : Site) (b : Result Failure Execution × Store)
      → (after_slot reference d c texts w p current s b).1.engine ≡ b.1
  after_slot-engine s (r, engine) = move_on-engine r _ _

  run_slot-engine :
      (s : Site)
      → (run_slot reference d c texts w p current at later s).1.engine ≡ (begun s.engine).1
  unfolding run_slot
  run_slot-engine s = after_slot-engine s (begun s.engine)

  -- A start leaves one run of the slot.
  begun_once :
      (s : Store)
      → IsBalanced s
      → Outboxed s
      → IsStartable (snapshot w)
      → runs_of w.owner_id key s ≤ 1
      → runs_of w.owner_id key (begun s).1 ≡ 1
  begun_once s v out g most = elim (Option-cases (first (of_slot w.owner_id key) s.executions)) [
    | inl free ↦
        let x = new_execution s.issued (snapshot w) (slot_request reference d c texts w p) at in
        let settled =
          start_execution-Settled d (snapshot w) (slot_request reference d c texts w p) at s v out g
            (first-any _ s.executions free) later in
        let new : count (of_slot w.owner_id key) (x ∷ []) ≡ 1 = ground (arith, same_refl key) in
        ap (λ xs. count (of_slot w.owner_id key) xs) settled.0
        ∙ ground (
          arith,
          count-append (of_slot w.owner_id key) s.executions (x ∷ []),
          new,
          first-count_none _ s.executions free,
        )
    | inr (x, there) ↦
        let clash =
          start_execution-clash reference reference-IsMongo d (snapshot w)
            (record { id = w.owner_id; is_admin = false }) key
            (slot_request reference d c texts w p) at later s {x = x} g refl refl there in
        let some_run = first-count (of_slot w.owner_id key) s.executions {x = x} there in
        ap (λ r. runs_of w.owner_id key r.1) clash ∙ ground (arith, most, some_run)
  ]

  abbrev at_slot : Document → Bool
  at_slot v = v.id == w.id && slot_is p.next_run_at v.schedule

  -- With a run for the slot and no workflow on it, a round does nothing.
  again :
      (t : Site)
      → IsStartable (snapshot w)
      → 0 < runs_of w.owner_id key t.engine
      → first at_slot t.workflows.documents ≡ none
      → (run_slot reference d c texts w p current at later t).1 ≡ t
  unfolding run_slot advance
  again t g there gone = elim (Option-cases (first (of_slot w.owner_id key) t.engine.executions)) [
    | inl free ↦
        absurd (
          ground (arith, there, first-count_none (of_slot w.owner_id key) t.engine.executions free))
    | inr (x, found) ↦
        let clash =
          start_execution-clash reference reference-IsMongo d (snapshot w)
            (record { id = w.owner_id; is_admin = false }) key
            (slot_request reference d c texts w p) at later t.engine {x = x} g refl refl found in
        rw clash (by_next (next_run_after c p.cron (base_of p.next_run_at current) p.timezone))
  ]
    where
      by_next :
          (next : Option ℕ)
          → (move_on reference d c texts w p current (err duplicate_key_error) next t).1 ≡ t
      by_next none = refl
      by_next (some n) =
          ap (λ xs. record t { workflows = set_documents xs t.workflows })
            (change_first-none at_slot _ t.workflows.documents gone)

  slot_left :
      (next : ℕ) (e : Option Failure) (o : Option Schedule)
      → p.next_run_at < next
      → slot_is p.next_run_at (moved_on next current e o) ≡ false
  slot_left next e none lt = refl
  slot_left next e (some q) lt = ground (arith, lt)

  -- The workflow leaves the slot for a later one.
  leaves :
      (s : Site) (next : ℕ)
      → Distinct (λ v. v.id) s.workflows.documents
      → next_run_after c p.cron (base_of p.next_run_at current) p.timezone ≡ some next
      → p.next_run_at < next
      → first at_slot (run_slot reference d c texts w p current at later s).1.workflows.documents
        ≡ none
  unfolding run_slot advance
  leaves s next distinct e lt = by_start (begun s.engine)
    where
      by_start :
          (b : Result Failure Execution × Store)
          → first at_slot (after_slot reference d c texts w p current s b).1.workflows.documents
            ≡ none
      by_start (r, engine) =
          let set : Document → Document =
            λ v. record v { schedule = moved_on next current (slot_error r) v.schedule } in
          rw e (
            first-none at_slot _ (
              All-change_first (λ v. v.id) (λ v. Unit {0}) (λ v. at_slot v ≡ false) w.id at_slot set
                s.workflows.documents (λ v h. ground (arith, h)) distinct
                (λ v h _. ground (arith, slot_left next (slot_error r) v.schedule lt)) (λ v h _. h)
                (All-Unit s.workflows.documents)))

-- What a round on the slot leaves: one run of the slot, no workflow on the slot, and a second round,
-- of a leader that has read the workflow before, changes nothing.
abbrev pub Served :
    Mongo → Deps → CronParser → Texts → Document → Schedule → ℕ → ℕ → ℕ → Site → Type 0
Served m d c texts w p current at later t =
    (runs_of w.owner_id (slot_key texts w.id p.next_run_at) t.engine ≡ 1)
    × (first (λ v. v.id == w.id && slot_is p.next_run_at v.schedule) t.workflows.documents ≡ none)
    × ((run_slot m d c texts w p current at later t).1 ≡ t)

-- In every state that the calls of the engine, users and the scheduler bring about, with an outbox
-- whose event ids were drawn: a round on a slot of a stored workflow, of which at most one run was
-- started so far, leaves exactly one run of the slot, started by it or before, and the workflow on
-- no longer on the slot, when the parser finds a later one. A second leader that has read the
-- workflow before starts nothing for the slot and changes nothing.
pub slot-Served :
    (m : Mongo)
    → IsMongo m
    → (d : Deps) (c : CronParser) (texts : Texts) (s : Site) (w : Document) (p : Schedule)
      (current at later next current' at' later' : ℕ)
    → Reachable m d s.engine
    → Outboxed s.engine
    → Later m c nothing s.workflows
    → first (λ v. v.id == w.id) s.workflows.documents ≡ some w
    → runs_of w.owner_id (slot_key texts w.id p.next_run_at) s.engine ≤ 1
    → next_run_after c p.cron (base_of p.next_run_at current) p.timezone ≡ some next
    → p.next_run_at < next
    → Served m d c texts w p current' at' later' (run_slot m d c texts w p current at later s).1
slot-Served m laws d c texts s w p current at later next current' at' later' reached out edits
      stored most e lt =
    for_every_driver
      (λ m.
        Reachable m d s.engine
        → Later m c nothing s.workflows
        → Served m d c texts w p current' at' later'
            (run_slot m d c texts w p current at later s).1)
      by_reference m laws reached edits
  where
    by_reference :
        Reachable reference d s.engine
        → Later reference c nothing s.workflows
        → Served reference d c texts w p current' at' later'
            (run_slot reference d c texts w p current at later s).1
    by_reference reached edits =
        let t = (run_slot reference d c texts w p current at later s).1 in
        let g =
          (All-first _ _ s.workflows.documents
            (stored-IsRunnable reference reference-IsMongo c s.workflows edits) stored).startable in
        let kept = Later-IsKept c nothing s.workflows edits nothing-IsKept in
        let once : runs_of w.owner_id (slot_key texts w.id p.next_run_at) t.engine ≡ 1 =
          ap (λ u. runs_of w.owner_id (slot_key texts w.id p.next_run_at) u)
            (run_slot-engine d c texts w p current at later s)
          ∙ begun_once d c texts w p current at later s.engine
              (Reachable-IsBalanced reference reference-IsMongo d s.engine reached) out g most in
        let gone = leaves d c texts w p current at later s next kept.distinct e lt in
        (once, gone, again d c texts w p current' at' later' t g (ground (arith, once)) gone)
