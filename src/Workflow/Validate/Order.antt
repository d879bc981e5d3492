-- ===== src/Workflow/Validate/Order.antt =====
-- What validateDag of src/workflow/dag.js answers, by the graph alone.
use ai_distributed_workflow.Workflow.Cycle.{find_cycle}
use ai_distributed_workflow.Base.{
  suc, true, false, Option-cases, refl, none, some, refl, zero, suc, ℕ, ◌+◌, ◌≡◌, ◌<◌, arith, true,
  false, none, some, List, [], ◌∷◌, String, same_iff, All, All-map_of, All-both, Bool-cases, inl,
  inr, sym, ◌∙◌, subst, ◌↔◌,
}
use ai_distributed_workflow.Base.Dict.{has}
use ai_distributed_workflow.Workflow.Dag.{cycle, Node, DagError, deps, keys, Kahn, kahn, leftover}
use ai_distributed_workflow.Workflow.Validate.Place.{place, Ordered-place}
use ai_distributed_workflow.Workflow.Validate.{
  rejected, Report, validate_dag, structural_errors, judge, analyse_graph, with_cycle,
}
use ai_distributed_workflow.Workflow.Dag.Clean.{IsClean, errors-IsClean}
use ai_distributed_workflow.Workflow.Dag.Exact.{Ordered, task_of}
use ai_distributed_workflow.Workflow.Dag.Begin.{kahn-Final}

-- The list has the key of each task, once, and no other key, and each stands after all that its task
-- depends on.
pub record IsTopological (tasks : List Node) (order : List String) : Type 0 where
  pub whole : All (λ t. has t.key order ≡ true) tasks
  pub known : All (λ k. has k (keys tasks) ≡ true) order
  pub ordered : Ordered tasks [] order

-- Keys can be ranked so that each dependency is below its task: there is no cycle.
abbrev pub Acyclic : List Node → Type 0
Acyclic tasks = (rank : (String → ℕ)) × All (λ t. All (λ d. rank d < rank t.key) (deps t)) tasks

pub structural_errors-IsClean : (tasks : List Node) → structural_errors tasks ≡ [] → IsClean tasks
unfolding structural_errors
structural_errors-IsClean tasks h = errors-IsClean tasks h

leftover-none :
    (order : List String) (ts : List Node)
    → leftover order (keys ts) ≡ []
    → All (λ t. has t.key order ≡ true) ts
unfolding leftover
leftover-none order [] h = tt
leftover-none order (t ∷ ts) h = elim (Bool-cases (has t.key order)) [
  | inl e ↦ (e, leftover-none order ts (ground (arith, h, e)))
  | inr e ↦ absurd (ground (arith, h, e))
]

none-leftover :
    (order : List String) (ts : List Node)
    → All (λ t. has t.key order ≡ true) ts
    → leftover order (keys ts) ≡ []
unfolding leftover
none-leftover order [] a = refl
none-leftover order (t ∷ ts) (h, a) = ground (arith, h, none-leftover order ts a)

validate-clean :
    (tasks : List Node) (k : Kahn)
    → structural_errors tasks ≡ []
    → kahn tasks ≡ some k
    → validate_dag tasks ≡ judge tasks k k.unprocessed
unfolding validate_dag
validate-clean tasks k c e = rw (c, analyse_graph, e) refl

-- With an error in the structure the graph is not valid.
validate-broken :
    (tasks : List Node) (r : Report) (e : DagError) (es : List DagError)
    → structural_errors tasks ≡ e ∷ es
    → validate_dag tasks ≡ some r
    → r.valid ≡ false
unfolding validate_dag
validate-broken tasks r e es c v =
    let shown : validate_dag tasks ≡ some (rejected (e ∷ es)) = rw (c, analyse_graph) refl in
    ground (arith, v, shown)

judge-valid :
    (tasks : List Node) (k : Kahn) (us : List String) (r : Report)
    → judge tasks k us ≡ some r
    → r.valid ≡ true
    → (us ≡ []) × (r.order ≡ k.order)
judge-valid tasks k [] r j v = (refl, ground (arith, j))
judge-valid tasks k (u ∷ us) r j v = elim (Option-cases (find_cycle tasks (u ∷ us))) [
  | inl e ↦
      let shown : judge tasks k (u ∷ us) ≡ none = rw (judge, e, with_cycle) refl in
      absurd (ground (arith, j, shown))
  | inr (c, e) ↦
      let shown : judge tasks k (u ∷ us) ≡ some (rejected (cycle c ∷ [])) =
        rw (judge, e, with_cycle) refl in
      absurd (ground (arith, j, v, shown))
]

-- A graph that validateDag finds valid passes the structural checks, and `order` is a topological
-- order of it: it has the key of each task once, and no other key, each after all that its task
-- depends on.
pub valid-Topological :
    (tasks : List Node) (r : Report)
    → validate_dag tasks ≡ some r
    → r.valid ≡ true
    → (structural_errors tasks ≡ []) × IsTopological tasks r.order
valid-Topological tasks r v h = by_errors (structural_errors tasks) refl
  where
    by_errors :
        (es : List DagError)
        → structural_errors tasks ≡ es
        → (structural_errors tasks ≡ []) × IsTopological tasks r.order
    by_errors (e ∷ es) c = absurd (ground (arith, h, validate-broken tasks r e es c v))
    by_errors [] c =
        let (k, (ends, (left, (ordered, (complete, known))))) =
          kahn-Final tasks (structural_errors-IsClean tasks c) in
        let (none_left, order) =
          judge-valid tasks k k.unprocessed r (sym (validate-clean tasks k c ends) ∙ v) h in
        (
          c,
          subst (IsTopological tasks) (sym order) (record {
            whole = leftover-none k.order tasks (sym left ∙ none_left);
            known = known;
            ordered = ordered;
          }),
        )

below :
    (tasks : List Node) (order : List String) (rank : (String → ℕ))
    → IsClean tasks
    → All (λ t. All (λ d. rank d < rank t.key) (deps t)) tasks
    → All (λ t. All (λ d. has d order ≡ true) (deps t) → has t.key order ≡ true) tasks
    → (n : ℕ) → All (λ t. rank t.key < n → has t.key order ≡ true) tasks
below tasks order rank c ranked complete zero =
    All-map_of _ _ tasks (λ t u h. absurd (ground (arith, h))) c.lists
below tasks order rank c ranked complete (suc n) =
    let ih = below tasks order rank c ranked complete n in
    All-map_of _ _ tasks
      (λ t f h. f.1 (
        All-map_of _ _ (deps t) (λ d g. found d ih g.0 (ground (arith, g.1, h)))
          (All-both _ _ (deps t) f.0.0 f.0.1)))
      (All-both _ _ tasks (All-both _ _ tasks c.known ranked) complete)
  where
    found :
        (d : String)
        → All (λ t. rank t.key < n → has t.key order ≡ true) tasks
        → has d (keys tasks) ≡ true
        → rank d < n
        → has d order ≡ true
    found d ih there low =
        let (t, (e, f)) = task_of (λ t. rank t.key < n → has t.key order ≡ true) tasks d there ih in
        let eq : t.key ≡ d = (same_iff t.key d).0 e in
        subst (λ j. has j order ≡ true) eq (f (subst (λ j. rank j < n) (sym eq) low))

largest : (rank : (String → ℕ)) (ts : List Node) → (n : ℕ) × All (λ t. rank t.key < n) ts
largest rank [] = (0, tt)
largest rank (t ∷ ts) =
    let (n, a) = largest rank ts in
    (suc (rank t.key) + n, (ground arith, All-map_of _ _ ts (λ s h. ground (arith, h)) a))

-- validateDag finds a graph valid that passes the structural checks and has no cycle.
Acyclic-valid :
    (tasks : List Node)
    → structural_errors tasks ≡ []
    → Acyclic tasks
    → (r : Report) × ((validate_dag tasks ≡ some r) × (r.valid ≡ true))
Acyclic-valid tasks c (rank, ranked) =
    let (k, (ends, (left, (ordered, (complete, known))))) =
      kahn-Final tasks (structural_errors-IsClean tasks c) in
    let (n, low) = largest rank tasks in
    let all_in =
      All-map_of _ _ tasks (λ t h. h.0 h.1)
        (All-both _ _ tasks
          (below tasks k.order rank (structural_errors-IsClean tasks c) ranked complete n) low) in
    (
      record { valid = true; errors = []; order = k.order; levels = k.levels },
      (validate-clean tasks k c ends ∙ rw (left, none-leftover k.order tasks all_in) refl, refl),
    )

-- validateDag answers "valid" exactly for the graphs that pass the structural checks and have no
-- cycle.
pub valid_iff :
    (tasks : List Node)
    → ((r : Report) × ((validate_dag tasks ≡ some r) × (r.valid ≡ true)))
      ↔ ((structural_errors tasks ≡ []) × Acyclic tasks)
valid_iff tasks = (forward, λ h. Acyclic-valid tasks h.0 h.1)
  where
    forward :
        ((r : Report) × ((validate_dag tasks ≡ some r) × (r.valid ≡ true)))
        → (structural_errors tasks ≡ []) × Acyclic tasks
    forward (r, (v, h)) =
        let (c, order) = valid-Topological tasks r v h in
        (
          c,
          (
            λ k. place k r.order,
            All-map_of _ _ tasks (λ t f. f.0 f.1)
                (All-both _ _ tasks (Ordered-place tasks [] r.order order.ordered) order.whole),
          ),
        )
