-- ===== src/Services/Workflows/Stored.antt =====
-- The workflows that src/services/workflow.service.js has stored.
use ai_distributed_workflow.Base.{
  ◌≡◌, ◌<◌, List, [], ◌∷◌, All, All-append, All-map_of, Bool, map, arith, sym, subst, Bool-cases,
  inl, inr,
}
use ai_distributed_workflow.Mongo.Keyed.{Distinct, Distinct-append, Distinct-change_first}
use ai_distributed_workflow.Mongo.Driver.{Mongo, IsMongo, change_first}
use ai_distributed_workflow.Mongo.Reference.{reference, for_every_driver}
use ai_distributed_workflow.Workflow.Dag.Children.{children_built}
use ai_distributed_workflow.Workflow.Validate.{structural_errors}
use ai_distributed_workflow.Workflow.Validate.Order.{Acyclic, valid_iff, structural_errors-IsClean}
use ai_distributed_workflow.Engine.Start.{node_of}
use ai_distributed_workflow.Scheduler.Cron.{CronParser}
use ai_distributed_workflow.Engine.Runs.Starting.{IsStartable}
use ai_distributed_workflow.Services.Workflows.{Document, Workflows, snapshot}
use ai_distributed_workflow.Services.Workflows.Changes.{
  Later, after, unchanged, nothing, Shape, added, edited, untouched, Graph, Change-Shape,
}

-- What holds of each document is kept by an update that keeps it.
pub All-edited :
    (P : Document → Type 0) (p : Document → Bool) (f : Document → Document) (xs : List Document)
    → ((w : Document) → P w → P (f w))
    → All P xs
    → All P (change_first p f xs)
All-edited P p f [] k h = tt
All-edited P p f (x ∷ xs) k h = elim (Bool-cases (p x)) [
  | inl e ↦ rw e (k x h.0, h.1)
  | inr e ↦ rw e (h.0, All-edited P p f xs k h.1)
]

-- The graph of each is valid, and each has an id of its own that was drawn.
pub record IsKept (s : Workflows) : Type 0 where
  pub graphs : All (λ w. Graph w.tasks) s.documents
  pub drawn : All (λ w. w.id < s.issued) s.documents
  pub distinct : Distinct (λ w. w.id) s.documents

Shape-IsKept : (s s' : Workflows) → Shape s s' → IsKept s → IsKept s'
Shape-IsKept s _ untouched k = k
Shape-IsKept s _ (added w new g) k = record {
  graphs = All-append _ s.documents (w ∷ []) k.graphs (g, tt);
  drawn =
      All-append _ s.documents (w ∷ [])
        (All-map_of _ _ s.documents (λ v h. ground (arith, h)) k.drawn) (ground (arith, new), tt);
  distinct =
      Distinct-append (λ w. w.id) s.documents (w ∷ []) k.distinct (tt, tt)
        (All-map_of _ _ s.documents (λ v h. (ground (arith, h, new), tt)) k.drawn);
}
Shape-IsKept s _ (edited p f e) k = record {
  graphs = All-edited _ p f s.documents (λ w h. e.graph_kept w h) k.graphs;
  drawn =
      All-edited _ p f s.documents (λ w h. subst (λ i. i < s.issued) (sym (e.same_id w)) h) k.drawn;
  distinct = Distinct-change_first (λ w. w.id) p f s.documents (λ w. e.same_id w) k.distinct;
}

pub nothing-IsKept : IsKept nothing
nothing-IsKept = record { graphs = tt; drawn = tt; distinct = tt }

pub Later-IsKept :
    (c : CronParser) (s s' : Workflows) → Later reference c s s' → IsKept s → IsKept s'
Later-IsKept c s _ unchanged k = k
Later-IsKept c s _ (after l ch) k =
    Shape-IsKept _ _ (Change-Shape c _ _ ch) (Later-IsKept c s _ l k)

-- The graph passes the checks of validateDag and has no cycle, and startExecution accepts it.
pub record IsRunnable (w : Document) : Type 0 where
  pub no_errors : structural_errors (map node_of w.tasks) ≡ []
  pub acyclic : Acyclic (map node_of w.tasks)
  pub startable : IsStartable (snapshot w)

Graph-IsRunnable : (w : Document) → Graph w.tasks → IsRunnable w
Graph-IsRunnable w (r, (v, h)) =
    let (clean, acyclic) = (valid_iff (map node_of w.tasks)).0 (r, (v, h)) in
    let (ch, (linked, _)) =
      children_built (map node_of w.tasks)
        (structural_errors-IsClean (map node_of w.tasks) clean) in
    record {
      no_errors = clean;
      acyclic = acyclic;
      startable = record { report = r; validated = v; valid = h; children = ch; linked = linked };
    }

-- Whatever users and the scheduler do, in any order, each workflow that is stored has a task graph
-- without a cycle that passes the structural checks, and startExecution finds the graph valid.
pub stored-IsRunnable :
    (m : Mongo)
    → IsMongo m
    → (c : CronParser) (s : Workflows) → Later m c nothing s
    → All IsRunnable s.documents
stored-IsRunnable m laws c s l =
    for_every_driver (λ m. Later m c nothing s → All IsRunnable s.documents)
      (λ l'.
        All-map_of _ _ s.documents (λ w g. Graph-IsRunnable w g)
          (Later-IsKept c nothing s l' nothing-IsKept).graphs)
      m laws l
