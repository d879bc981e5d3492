-- ===== src/Services/Executions/Replay.antt =====
-- A repeated request in `run` of src/services/execution.service.js.
use ai_distributed_workflow.Base.{
  ◌⊎◌, inl, inr, refl, some, suc, refl, ℕ, ◌≡◌, arith, Bool, true, some, List, [], ◌∷◌, String, any,
  first, ◌==◌, ◌&&◌, if◌then◌else◌, Option, false, Bool-cases,
}
use ai_distributed_workflow.Base.Tests.{same}
use ai_distributed_workflow.Base.Result.{err, ok}
use ai_distributed_workflow.Mongo.Driver.{Mongo, IsMongo}
use ai_distributed_workflow.Workflow.Dag.{Children}
use ai_distributed_workflow.Engine.Model.{Store, Execution, Deps, duplicate_key_error}
use ai_distributed_workflow.Engine.Start.{
  Workflow, Request, start_execution, start_body, store_run, new_execution, key_clash,
}
use ai_distributed_workflow.Engine.Runs.Starting.{IsStartable}
use ai_distributed_workflow.Services.Executions.{
  Hashing, hash, User, of_key, run, in_scope, same_hash, idempotency_key_reused, replay_found,
  request_of,
}

any-first :
    (p : Execution → Bool) (xs : List Execution) {x : Execution}
    → first p xs ≡ some x
    → any p xs ≡ true
any-first p [] h = absurd (ground (arith, h))
any-first p (y ∷ xs) {x} h = ground (arith, h, any-first p xs {x = x})

module _ (m : Mongo) (laws : IsMongo m) (d : Deps) where
  store_run-clash :
      (x : Execution) (s : Store)
      → any (key_clash x) s.executions ≡ true
      → store_run m d x s ≡ (err duplicate_key_error, s)
  unfolding store_run
  store_run-clash x s h = rw (store_run, laws.insert_lem key_clash x s.executions, h) refl

  start_body-clash :
      (w : Workflow) (r : Request) (ch : Children) (at : ℕ) (s : Store)
      → any (key_clash (new_execution s.issued w r at)) s.executions ≡ true
      → start_body m d w r ch at s ≡ (err duplicate_key_error, record s { issued = suc s.issued })
  unfolding start_body
  start_body-clash w r ch at s h =
      rw (store_run-clash (new_execution s.issued w r at) (record s { issued = suc s.issued }) h)
        refl

  -- The unique index refuses a second run with the user's key, and nothing of it is stored.
  pub start_execution-clash :
      (w : Workflow) (user : User) (key : String) (r : Request) (at later : ℕ) (s : Store)
      {x : Execution}
      → IsStartable w
      → r.triggered_by ≡ some user.id
      → r.idempotency_key ≡ some key
      → first (of_key user (some key)) s.executions ≡ some x
      → start_execution m d w r at later s ≡ (err duplicate_key_error, s)
  unfolding start_execution
  start_execution-clash w user key r at later s {x} g u k there =
      let clash : any (key_clash (new_execution s.issued w r at)) s.executions ≡ true =
        rw (u, k) (any-first (of_key user (some key)) s.executions {x = x} there) in
      rw
        (
          g.validated,
          g.valid,
          g.linked,
          laws.transaction_lem,
          start_body-clash w r g.children at s clash,
        )
        refl

  -- A request whose key is not empty and was used by the user before starts nothing and leaves the
  -- store as it is, when the user may see the workflow and its graph is valid: the same request gets
  -- the run that the key has started, marked as replayed, and any other is refused.
  pub run_again :
      (hashing : Hashing) (workflows : List Workflow) (user : User) (w : Workflow)
      (input key : String) (at later : ℕ) (s : Store) (x : Execution)
      → first (λ v. v.id == w.id && in_scope user v.owner_id) workflows ≡ some w
      → same key "" ≡ false
      → IsStartable w
      → first (of_key user (some key)) s.executions ≡ some x
      → run m d hashing workflows user w.id input (some key) at later s ≡ (
        (if same_hash x.request_hash (some (hash hashing w.id input))
            then ok (record { execution = x; replayed = true })
            else err idempotency_key_reused),
        s,
      )
  unfolding run
  run_again hashing workflows user w input key at later s x here given g there =
      rw
        (
          laws.find_one_lem (λ v. v.id == w.id && in_scope user v.owner_id) workflows,
          here,
          start_execution-clash w user key (request_of m d hashing user w.id input (some key)) at
              later s {x = x} g refl refl there,
          given,
          laws.find_one_lem (of_key user (some key)) s.executions,
          there,
        )
        (by_hash (Bool-cases (same_hash x.request_hash (some (hash hashing w.id input)))))
    where
      wanted : Option String
      wanted = some (hash hashing w.id input)

      by_hash :
          (same_hash x.request_hash wanted ≡ true) ⊎ (same_hash x.request_hash wanted ≡ false)
          → replay_found m d hashing wanted (some x) s ≡ (
            (if same_hash x.request_hash wanted
                then ok (record { execution = x; replayed = true })
                else err idempotency_key_reused),
            s,
          )
      by_hash (inl e) = rw e refl
      by_hash (inr e) = rw e refl
