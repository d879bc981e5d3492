-- ===== src/Services/Workflows/Changes.antt =====
-- The calls that change the collection of workflows: those of src/services/workflow.service.js, by
-- any users, and the update with which src/scheduler/scheduler.js moves a schedule on.
use ai_distributed_workflow.Base.{
  ℕ, suc, ◌≡◌, ◌≤◌, ◌==◌, ◌&&◌, Bool, true, Option, none, some, List, [], ◌∷◌, ◌++◌, String, map,
  refl, inl, inr, Bool-cases, arith, any, ◌⊎◌, subst, sym,
}
use ai_distributed_workflow.Base.Result.{Result, ok, err, continue}
use ai_distributed_workflow.Mongo.Driver.{Mongo, change_first}
use ai_distributed_workflow.Mongo.Reference.{reference}
use ai_distributed_workflow.Workflow.Validate.{Report, validate_dag}
use ai_distributed_workflow.Engine.Model.{Text, Failure}
use ai_distributed_workflow.Engine.Start.{TaskDef, node_of}
use ai_distributed_workflow.Services.Executions.{User}
use ai_distributed_workflow.Scheduler.Cron.{CronParser, assert_valid_cron, next_run_after}
use ai_distributed_workflow.Scheduler.Due.{advance, moved_on}
use ai_distributed_workflow.Services.Workflows.{
  Document, Workflows, Definition, Error, create, update, set_schedule, clear_schedule,
  set_documents, new_document, redefined, visible, assert_valid_graph, require_valid_graph,
  schedule_at, checked_cron, or_not_found, after_update, attach, Schedule, thrown, invalid_graph,
  store_document,
}

-- The state after one call, also if the call throws.
pub data Change (m : Mongo) (c : CronParser) (s : Workflows) : Workflows → Type 0 where
  creates : (user : User) (b : Definition) → Change m c s (create m user b s).1
  updates :
      (user : User) (id version : ℕ) (b : Definition)
      → Change m c s (update m user id version b s).1
  schedules :
      (user : User) (id : ℕ) (cron : Text) (timezone : String) (enabled : Bool) (input : String)
      (at later : ℕ)
      → Change m c s (set_schedule m c user id cron timezone enabled input at later s).1
  clears : (user : User) (id : ℕ) → Change m c s (clear_schedule m user id s).1
  advances :
      (id slot next current : ℕ) (e : Option Failure)
      → Change m c s (advance m id slot next current e s)

-- The states after any number of calls.
pub data Later (m : Mongo) (c : CronParser) (s : Workflows) : Workflows → Type 0 where
  unchanged : Later m c s s
  after : {s' s'' : Workflows} → Later m c s s' → Change m c s' s'' → Later m c s s''

abbrev pub nothing : Workflows
nothing = record { documents = []; issued = 0 }

-- validateDag finds the task graph valid.
abbrev pub Graph : List TaskDef → Type 0
Graph tasks = (r : Report) × ((validate_dag (map node_of tasks) ≡ some r) × (r.valid ≡ true))

-- An update after which a document has its id and a valid graph, and no lower version.
pub record IsEdit (f : Document → Document) : Type 0 where
  pub same_id : (w : Document) → (f w).id ≡ w.id
  pub version_kept : (w : Document) → w.version ≤ (f w).version
  pub graph_kept : (w : Document) → Graph w.tasks → Graph (f w).tasks

-- What a call can do to the collection.
pub data Shape (s : Workflows) : Workflows → Type 0 where
  untouched : Shape s s
  added :
      (w : Document)
      → w.id ≡ s.issued
      → Graph w.tasks
      → Shape s (record { documents = s.documents ++ w ∷ []; issued = suc s.issued })
  edited :
      (p : Document → Bool) (f : Document → Document)
      → IsEdit f
      → Shape s (set_documents (change_first p f s.documents) s)

judged :
    (r : Option Report)
    → ((x : Report) × ((r ≡ some x) × (x.valid ≡ true)) × (require_valid_graph r ≡ ok tt))
      ⊎ ((e : Error) × (require_valid_graph r ≡ err e))
judged none = inr (thrown, refl)
judged (some x) = elim (Bool-cases x.valid) [
  | inl h ↦ inl (x, (refl, h), rw h refl)
  | inr h ↦ inr (invalid_graph x.errors, rw h refl)
]

-- assertValidGraph passes the valid graphs, and throws otherwise.
pub assert_valid_graph-cases :
    (tasks : List TaskDef)
    → (Graph tasks × (assert_valid_graph tasks ≡ ok tt))
      ⊎ ((e : Error) × (assert_valid_graph tasks ≡ err e))
unfolding assert_valid_graph
assert_valid_graph-cases tasks = elim (judged (validate_dag (map node_of tasks))) [
  | inl (r, h, passed) ↦ inl ((r, h), passed)
  | inr refused ↦ inr refused
]

or_not_found-keeps : (w : Option Document) (s : Workflows) → (or_not_found w s).1 ≡ s
or_not_found-keeps none s = refl
or_not_found-keeps (some w) s = refl

after_update-keeps :
    (user : User) (id : ℕ) (w : Option Document) (s : Workflows)
    → (after_update reference user id (w, s)).1 ≡ s
after_update-keeps user id none s = refl
after_update-keeps user id (some w) s = refl

rescheduled-IsEdit : (f : Document → Option Schedule) → IsEdit (λ w. record w { schedule = f w })
rescheduled-IsEdit f = record {
  same_id = λ w. refl;
  version_kept = λ w. omega arith;
  graph_kept = λ w g. g;
}

redefined-IsEdit : (b : Definition) → Graph b.tasks → IsEdit (redefined b)
redefined-IsEdit b g = record {
  same_id = λ w. refl;
  version_kept = λ w. omega arith;
  graph_kept = λ w _. g;
}

create-Shape :
    (user : User) (b : Definition) (s : Workflows) → Shape s (create reference user b s).1
unfolding create
create-Shape user b s = elim (assert_valid_graph-cases b.tasks) [
  | inr (e, h) ↦ rw h untouched
  | inl (g, h) ↦ rw h (elim (Bool-cases (any (λ y. s.issued == y.id) s.documents)) [
    | inl clash ↦ rw (clash, store_document) untouched
    | inr clash ↦ rw (clash, store_document) (added (new_document s.issued user b) refl g)
  ])
]

update-Shape :
    (user : User) (id version : ℕ) (b : Definition) (s : Workflows)
    → Shape s (update reference user id version b s).1
unfolding update
update-Shape user id version b s = elim (assert_valid_graph-cases b.tasks) [
  | inr (e, h) ↦ rw h untouched
  | inl (g, h) ↦
      let p : Document → Bool = λ w. visible user id w && w.version == version in
      rw h (
        subst (Shape s) (sym (after_update-keeps user id _ _))
          (edited p (redefined b) (redefined-IsEdit b g)))
]

attach-Shape :
    (user : User) (id : ℕ) (cron : Text) (timezone : String) (enabled : Bool) (input : String)
    (slot : Option ℕ) (s : Workflows)
    → Shape s (attach reference user id cron timezone enabled input slot s).1
attach-Shape user id cron timezone enabled input none s = untouched
attach-Shape user id cron timezone enabled input (some slot) s =
    subst (Shape s) (sym (or_not_found-keeps _ _)) (
      edited (visible user id) _
        (rescheduled-IsEdit (λ w. some (schedule_at cron timezone enabled input slot))))

set_schedule-Shape :
    (c : CronParser) (user : User) (id : ℕ) (cron : Text) (timezone : String) (enabled : Bool)
    (input : String) (at later : ℕ) (s : Workflows)
    → Shape s (set_schedule reference c user id cron timezone enabled input at later s).1
unfolding set_schedule
set_schedule-Shape c user id cron timezone enabled input at later s =
    by_check (checked_cron (assert_valid_cron c at cron timezone))
  where
    by_check :
        (r : Result Error (Unit {0}))
        → Shape s
            (continue
              (r, s)
              (λ _ t.
                attach reference user id cron timezone enabled input
                  (next_run_after c cron later timezone)
                  t)).1
    by_check (err e) = untouched
    by_check (ok _) =
        attach-Shape user id cron timezone enabled input (next_run_after c cron later timezone) s

pub Change-Shape : (c : CronParser) (s s' : Workflows) → Change reference c s s' → Shape s s'
unfolding clear_schedule advance
Change-Shape c s _ (creates user b) = create-Shape user b s
Change-Shape c s _ (updates user id version b) = update-Shape user id version b s
Change-Shape c s _ (schedules user id cron timezone enabled input at later) =
    set_schedule-Shape c user id cron timezone enabled input at later s
Change-Shape c s _ (clears user id) =
    subst (Shape s) (sym (or_not_found-keeps _ _))
      (edited (visible user id) _ (rescheduled-IsEdit (λ w. none)))
Change-Shape c s _ (advances id slot next current e) =
    edited _ _ (rescheduled-IsEdit (λ w. moved_on next current e w.schedule))
