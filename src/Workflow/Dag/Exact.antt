-- ===== src/Workflow/Dag/Exact.antt =====
-- What the waves of kahn in src/workflow/dag.js have counted off: the invariant of their loops.
use mathlib.Core.List.{append_assoc}
use ai_distributed_workflow.Mongo.Counting.{append_nil}
use ai_distributed_workflow.Base.{
  true, false, ◌≡◌, arith, true, false, some, List, [], ◌∷◌, ◌++◌, ◌==◌, String, same, All,
  Bool-cases, inl, inr,
}
use ai_distributed_workflow.Base.Int.{pos}
use ai_distributed_workflow.Base.Dict.{has, get}
use ai_distributed_workflow.Workflow.Dag.{Node, deps, keys, Degrees}
use ai_distributed_workflow.Workflow.Dag.Edges.{Edges, taken, unmet}

-- Every task with the key depends on keys of the list only.
abbrev pub Met : List Node → List String → String → Type 0
Met tasks before k = All (λ t. same t.key k ≡ true → All (λ d. has d before ≡ true) (deps t)) tasks

-- Each key of the list is new, and its dependencies come before it.
abbrev pub Ordered : List Node → List String → List String → Type 0
Ordered tasks before [] = Unit
Ordered tasks before (k ∷ ks) =
    (has k before ≡ false) × (Met tasks before k × Ordered tasks (before ++ k ∷ []) ks)

pub record IsExact (tasks : List Node) (m : Degrees) (emitted : List String) (x : Edges)
    : Type 0 where
  pub degrees : All (λ t. get t.key m ≡ some (pos (unmet x t.key (deps t)))) tasks
  pub ready : All (λ t. has t.key emitted ≡ (unmet x t.key (deps t) == 0)) tasks
  pub sources : (d c : String) → taken x d c ≡ true → has d emitted ≡ true
  pub ordered : Ordered tasks [] emitted
  pub known : All (λ k. has k (keys tasks) ≡ true) emitted

-- A child of `p` that is still to be counted off.
pub record IsChild (tasks : List Node) (x : Edges) (p c : String) : Type 0 where
  pub of_task : has c (keys tasks) ≡ true
  pub depends : All (λ t. same t.key c ≡ true → has p (deps t) ≡ true) tasks
  pub open_edge : taken x p c ≡ false

pub Ordered-snoc :
    (tasks : List Node) (before ks : List String) (k : String)
    → Ordered tasks before ks
    → has k (before ++ ks) ≡ false
    → Met tasks (before ++ ks) k
    → Ordered tasks before (ks ++ k ∷ [])
Ordered-snoc tasks before [] k o n h =
    (rw (append_nil before) at n, (rw (append_nil before) at h, tt))
Ordered-snoc tasks before (j ∷ ks) k (nj, (mj, o)) n h =
    let assoc = append_assoc before (j ∷ []) ks in
    (nj, (mj, Ordered-snoc tasks (before ++ j ∷ []) ks k o (rw assoc n) (rw assoc h)))

-- The task of a known key, with what holds of every task.
pub task_of :
    (P : Node → Type 0) (tasks : List Node) (c : String)
    → has c (keys tasks) ≡ true
    → All P tasks
    → (t : Node) × ((same t.key c ≡ true) × P t)
unfolding has
task_of P [] c h a = absurd (ground (arith, h))
task_of P (t ∷ ts) c h (p, a) = elim (Bool-cases (same t.key c)) [
  | inl e ↦ (t, (e, p))
  | inr e ↦ task_of P ts c (ground (arith, h, e)) a
]
