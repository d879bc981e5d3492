-- ===== src/Engine/Transition.antt =====
-- transitionTask of src/repositories/task.repository.js, by its two answers.
use ai_distributed_workflow.Base.{ℕ, ◌≡◌, Bool, true, false, first, some, Option-cases, inl, inr}
use ai_distributed_workflow.Mongo.Driver.{change_first}
use ai_distributed_workflow.Mongo.Counting.{change_first-none}
use ai_distributed_workflow.Mongo.Reference.{reference}
use ai_distributed_workflow.Workflow.States.{TaskStatus as T, task, can_transition}
use ai_distributed_workflow.Engine.Model.{Task, Store}
use ai_distributed_workflow.Engine.Actions.{set_tasks}
use ai_distributed_workflow.Engine.After.{After, Keeps}
use ai_distributed_workflow.Engine.Tasks.{in_status, to_status, transition_task}
use ai_distributed_workflow.Workflow.States.Laws.{assert_transition_legal}

abbrev pub moved : ℕ → T → T → (Task → Bool) → (Task → Task) → Store → Store
moved id from to extra set s =
    set_tasks (change_first (in_status extra id from) (to_status set to) s.tasks) s

pub After-transition {ℓ} :
    (Q : Bool → Store → Type ℓ) (id : ℕ) (from to : T) (extra : Task → Bool) (set : Task → Task)
    (s : Store)
    → can_transition task from to ≡ true
    → Q false s
    → ((t : Task)
        → first (in_status extra id from) s.tasks ≡ some t
        → Q true (moved id from to extra set s))
    → After Q (transition_task reference id from to extra set s)
unfolding transition_task
After-transition Q id from to extra set s legal lost won =
    elim (Option-cases (first (in_status extra id from) s.tasks)) [
      | inl q ↦
          rw
            (
              assert_transition_legal task from to legal,
              q,
              change_first-none (in_status extra id from) (to_status set to) s.tasks q,
            )
            lost
      | inr (t, q) ↦ rw (assert_transition_legal task from to legal, q) (won t q)
    ]

pub Keeps-transition {ℓ} :
    (P : Store → Type ℓ) (id : ℕ) (from to : T) (extra : Task → Bool) (set : Task → Task)
    → can_transition task from to ≡ true
    → ((s : Store) (t : Task)
        → first (in_status extra id from) s.tasks ≡ some t
        → P s
        → P (moved id from to extra set s))
    → Keeps P (transition_task reference id from to extra set)
unfolding transition_task
Keeps-transition P id from to extra set legal won s h =
    elim (Option-cases (first (in_status extra id from) s.tasks)) [
      | inl q ↦
          rw
            (
              assert_transition_legal task from to legal,
              change_first-none (in_status extra id from) (to_status set to) s.tasks q,
            )
            h
      | inr (t, q) ↦ rw (assert_transition_legal task from to legal) (won s t q h)
    ]
