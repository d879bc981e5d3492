-- ===== src/Engine/Runs/Fencing.antt =====
-- The fencing token of src/workflow/engine.js and src/repositories/task.repository.js, against
-- reports that come too late.
use ai_distributed_workflow.Engine.Report.{complete_task, fail_task, completed_with}
use ai_distributed_workflow.Engine.Claim.{renew_lease}
use ai_distributed_workflow.Base.{
  ◌∙◌, ℕ, suc, refl, ◌≡◌, ◌==◌, Bool, true, false, some, none, List, [], ◌∷◌, All, first, String,
  arith, Option, sym, first_same, Bool-cases, inl, ap, inr, All-map_of, ◌+◌,
}
use ai_distributed_workflow.Base.Result.{ok}
use ai_distributed_workflow.Workflow.States.{
  TaskStatus as T, can_transition, assert_transition, task,
}
use ai_distributed_workflow.Mongo.Driver.{Mongo, IsMongo, change_first}
use ai_distributed_workflow.Engine.Tasks.{
  claim_task, holds_lease, claimed_by, transition_task, claimable, in_status, renew_task_lease,
  to_status,
}
use ai_distributed_workflow.Engine.Model.{Deps, Store, Task}
use ai_distributed_workflow.Engine.Runs.{Reachable, renew_lease, complete_task, fail_task, Thrown}
use ai_distributed_workflow.Mongo.Reference.{for_every_driver, reference}
use ai_distributed_workflow.Engine.Ledger.{IsBalanced}
use ai_distributed_workflow.Engine.Approve.{suspend_body, without_lease}
use ai_distributed_workflow.Engine.Report.{fail_body, has_token, complete_body, ignored}
use ai_distributed_workflow.Engine.Runs.Invariant.{Reachable-IsBalanced}
use ai_distributed_workflow.Workflow.States.Laws.{assert_transition_legal}
use ai_distributed_workflow.Mongo.Counting.{change_first-none}
use ai_distributed_workflow.Mongo.Keyed.{only_first, Distinct-change_first, first-change_first}

-- What completeTask, failTask, suspendForApproval and renewLease do when nobody holds the lease.
abbrev pub Refused : Mongo → Deps → ℕ → ℕ → Store → Type 0
Refused m d id token s =
    ((output : Option String) (now later : ℕ)
      → complete_task m d id token output now later s ≡ (ok false, s))
    × ((e : Thrown) (now : ℕ) → fail_task m d id token e now s ≡ (ok ignored, s))
    × ((request : String) (timeout_ms now : ℕ)
        → suspend_body m d id token request timeout_ms now s ≡ (ok false, s))
    × ((db_now : ℕ) → renew_lease m d id token db_now s ≡ (ok false, s))

module _ (d : Deps) (id token : ℕ) (s : Store)
    (gone : first (holds_lease id token) s.tasks ≡ none) where
  no_match : first (in_status (has_token token) id T.running) s.tasks ≡ none
  no_match =
      sym (
        first_same (holds_lease id token) (in_status (has_token token) id T.running) s.tasks
          (λ x. ground arith))
      ∙ gone

  lost :
      (to : T) (set : Task → Task)
      → can_transition task T.running to ≡ true
      → transition_task reference id T.running to (has_token token) set s ≡ (ok false, s)
  unfolding transition_task
  lost to set legal =
      rw
        (
          assert_transition_legal task T.running to legal,
          no_match,
          change_first-none (in_status (has_token token) id T.running) (to_status set to) s.tasks
              no_match,
        )
        refl

  complete_refused :
      (output : Option String) (now later : ℕ)
      → complete_task reference d id token output now later s ≡ (ok false, s)
  unfolding complete_task complete_body can_transition
  complete_refused output now later = rw (lost T.completed (completed_with output now) refl) refl

  fail_refused : (e : Thrown) (now : ℕ) → fail_task reference d id token e now s ≡ (ok ignored, s)
  unfolding fail_task fail_body
  fail_refused e now = rw gone refl

  suspend_refused :
      (request : String) (timeout_ms now : ℕ)
      → suspend_body reference d id token request timeout_ms now s ≡ (ok false, s)
  unfolding suspend_body can_transition
  suspend_refused request timeout_ms now = rw (lost T.waiting_for_approval without_lease refl) refl

  renew_refused : (db_now : ℕ) → renew_lease reference d id token db_now s ≡ (ok false, s)
  unfolding renew_lease renew_task_lease
  renew_refused db_now =
      rw
        (
          gone,
          change_first-none (holds_lease id token)
              (λ t. record t { lease_expires_at = some (db_now + d.lease_ms) }) s.tasks gone,
        )
        refl

-- When no RUNNING task `id` holds the token, completeTask, failTask, renewLease and the transaction
-- of suspendForApproval answer so, and leave the store as it is: nothing is stored, queued or
-- emitted.
pub stale_token-Refused :
    (m : Mongo)
    → IsMongo m
    → (d : Deps) (id token : ℕ) (s : Store) → first (holds_lease id token) s.tasks ≡ none
    → Refused m d id token s
stale_token-Refused m laws d id token s gone =
    for_every_driver (λ m. Refused m d id token s)
      (
        complete_refused d id token s gone,
        fail_refused d id token s gone,
        suspend_refused d id token s gone,
        renew_refused d id token s gone,
      )
      m laws

pub first-none :
    {A : Type 0} (p : A → Bool) (xs : List A) → All (λ x. p x ≡ false) xs → first p xs ≡ none
first-none p [] h = refl
first-none p (x ∷ xs) h = ground (arith, h.0, first-none p xs h.1)

-- `c` is `t` in the hands of the worker: RUNNING until the lease is over, as the next attempt and with
-- the next token.
pub record IsClaimOf (t : Task) (worker : String) (lease now : ℕ) (c : Task) : Type 0 where
  pub same_id : c.id ≡ t.id
  pub is_running : c.status ≡ T.running
  pub next_attempt : c.attempt ≡ t.attempt + 1
  pub next_token : c.lease_token ≡ t.lease_token + 1
  pub owned : c.lease_owner ≡ some worker
  pub leased : c.lease_expires_at ≡ some (now + lease)

-- A claim of `t` is answered with the task that is then stored, and no token but its own holds the
-- lease.
abbrev pub Claims : Mongo → ℕ → String → ℕ → ℕ → Task → Store → Type 0
Claims m id worker lease now t s =
    (c : Task) × (((claim_task m id worker lease now s).0 ≡ ok (some c))
      × IsClaimOf t worker lease now c
      × (first (λ y. y.id == id) (claim_task m id worker lease now s).1.tasks ≡ some c)
      × ((token : ℕ)
          → (token == c.lease_token) ≡ false
          → first (holds_lease id token) (claim_task m id worker lease now s).1.tasks ≡ none))

reference-Claims :
    (id : ℕ) (worker : String) (lease now : ℕ) (t : Task) (s : Store)
    → IsBalanced s
    → first (claimable id now) s.tasks ≡ some t
    → Claims reference id worker lease now t s
unfolding claim_task can_transition assert_transition
reference-Claims id worker lease now t s v q = (
  claimed_by worker lease now t,
  (
    rw q refl,
    record {
      same_id = refl;
      is_running = refl;
      next_attempt = omega arith;
      next_token = omega arith;
      owned = refl;
      leased = refl;
    },
    stored,
    λ token other. first-none (holds_lease id token) _ (
        All-map_of _ _ (change_first (claimable id now) (claimed_by worker lease now) s.tasks)
          (λ y same. stale token y other same) alone),
  ),
)
  where
    stored :
        first
          (λ y. y.id == id)
          (change_first (claimable id now) (claimed_by worker lease now) s.tasks)
        ≡ some (claimed_by worker lease now t)
    stored =
        first-change_first (λ y. y.id) id (claimable id now) (claimed_by worker lease now) s.tasks
          (λ y h. ground arith) (λ y. refl) v.tasks_distinct q

    alone :
        All
          (λ y. (y.id == id) ≡ true → y ≡ claimed_by worker lease now t)
          (change_first (claimable id now) (claimed_by worker lease now) s.tasks)
    alone =
        only_first (λ y. y.id) id (λ y. y.id == id) _ (λ y h. h)
          (Distinct-change_first (λ y. y.id) (claimable id now) (claimed_by worker lease now)
            s.tasks (λ y. refl) v.tasks_distinct)
          stored

    stale :
        (token : ℕ) (y : Task)
        → (token == suc t.lease_token) ≡ false
        → ((y.id == id) ≡ true → y ≡ claimed_by worker lease now t)
        → holds_lease id token y ≡ false
    stale token y other same = elim (Bool-cases (y.id == id)) [
      | inl e ↦
          let its : y.lease_token ≡ suc t.lease_token = ap (λ z. z.lease_token) (same e) in
          ground (arith, its, other)
      | inr e ↦ ground (arith, e)
    ]

-- In every reachable state: a claim that finds a task is answered with it, RUNNING and leased to the
-- worker for `lease` from MongoDB's time on, with the next token and the next attempt number. So it is
-- stored, and no other token holds the lease of that task then.
pub claim-fences :
    (m : Mongo)
    → IsMongo m
    → (d : Deps) (s : Store) → Reachable m d s
    → (id : ℕ) (worker : String) (lease now : ℕ) (t : Task)
    → first (claimable id now) s.tasks ≡ some t
    → Claims m id worker lease now t s
claim-fences m laws d s r id worker lease now t q =
    for_every_driver (λ m. Claims m id worker lease now t s)
      (reference-Claims id worker lease now t s (Reachable-IsBalanced m laws d s r) q) m laws
