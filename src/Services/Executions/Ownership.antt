-- ===== src/Services/Executions/Ownership.antt =====
-- Who may see and control what, in src/services/execution.service.js.
use ai_distributed_workflow.Base.{
  refl, ℕ, String, ◌≡◌, arith, Bool, true, false, Option, none, List, [], ◌∷◌, ◌==◌, ◌&&◌, All,
  first,
}
use ai_distributed_workflow.Base.Result.{err}
use ai_distributed_workflow.Mongo.Driver.{Mongo, IsMongo}
use ai_distributed_workflow.Engine.Model.{Store, Execution, Deps}
use ai_distributed_workflow.Engine.Start.{Workflow}
use ai_distributed_workflow.Services.Executions.{
  Hashing, User, Action, run, control, get, in_scope, workflow_not_found, execution_not_found,
}

module _ {A : Type 0} (ident owner : A → ℕ) where
  -- Every document with the id belongs to someone else.
  abbrev pub Foreign : User → ℕ → List A → Type 0
  Foreign user i xs = All (λ x. (ident x == i) ≡ true → (owner x == user.id) ≡ false) xs

  no_owned :
      (user : User) (i : ℕ) (xs : List A)
      → user.is_admin ≡ false
      → Foreign user i xs
      → first (λ x. ident x == i && in_scope user (owner x)) xs ≡ none
  no_owned user i [] h f = refl
  no_owned user i (x ∷ xs) h f = ground (arith, h, f.0, no_owned user i xs h f.1)

module _ (m : Mongo) (laws : IsMongo m) (d : Deps) where
  -- To a user who is no administrator the workflows and runs of others do not exist: `run`, `control`
  -- and `get` answer that there is none, and leave the store as it is.
  pub unowned_hidden :
      (hashing : Hashing) (workflows : List Workflow) (user : User) (workflow_id execution_id : ℕ)
      (input : String) (key : Option String) (action : Action) (at t t' t'' : ℕ) (s : Store)
      → user.is_admin ≡ false
      → Foreign (λ w. w.id) (λ w. w.owner_id) user workflow_id workflows
      → Foreign (λ x. x.id) (λ x. x.owner_id) user execution_id s.executions
      → (run m d hashing workflows user workflow_id input key at t s ≡ (err workflow_not_found, s))
        × (control m d hashing user execution_id action t t' t'' s ≡ (err execution_not_found, s))
        × (get m d hashing user execution_id s ≡ (err execution_not_found, s))
  unfolding run control get
  unowned_hidden hashing workflows user workflow_id execution_id input key action at t t' t'' s h fw
        fx =
      let no_workflow = no_owned (λ w. w.id) (λ w. w.owner_id) user workflow_id workflows h fw in
      let no_run = no_owned (λ x. x.id) (λ x. x.owner_id) user execution_id s.executions h fx in
      let filter : Execution → Bool = λ x. x.id == execution_id && in_scope user x.owner_id in
      (
        rw
            (
              laws.find_one_lem (λ w. w.id == workflow_id && in_scope user w.owner_id) workflows,
              no_workflow,
            )
            refl,
        rw (laws.find_one_lem filter s.executions, no_run) refl,
        rw (laws.find_one_lem filter s.executions, no_run) refl,
      )
