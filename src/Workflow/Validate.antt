-- ===== src/Workflow/Validate.antt =====
-- src/workflow/dag.js, validateDag: the structural checks, then Kahn, then the search for a cycle.
pub mod Place
pub mod Order
mod Examples
use ai_distributed_workflow.Base.{
  Bool, true, false, Option, none, some, List, [], ◌∷◌, ◌++◌, String,
}
use ai_distributed_workflow.Workflow.Dag.{
  Node, DagError, cycle, key_errors, key_set, edge_errors, kahn, Kahn,
}
use ai_distributed_workflow.Workflow.Cycle.{find_cycle}

pub record Report : Type 0 where
  pub valid : Bool
  pub errors : List DagError
  pub order : List String
  pub levels : List (List String)

abbrev pub rejected : List DagError → Report
rejected es = record { valid = false; errors = es; order = []; levels = [] }

-- `errors` after the two structural loops.
unfoldable pub structural_errors : List Node → List DagError
unfolding key_errors key_set edge_errors
structural_errors tasks = key_errors [] tasks ++ edge_errors (key_set [] tasks) tasks

abbrev pub with_cycle : Option (List String) → Option Report
with_cycle none = none
with_cycle (some c) = some (rejected (cycle c ∷ []))

abbrev pub judge : List Node → Kahn → List String → Option Report
judge tasks k [] = some (record { valid = true; errors = []; order = k.order; levels = k.levels })
judge tasks k (u ∷ us) = with_cycle (find_cycle tasks (u ∷ us))

abbrev pub analyse_graph : List Node → List DagError → Option Report
analyse_graph tasks (e ∷ es) = some (rejected (e ∷ es))
analyse_graph tasks [] = elim (kahn tasks) [ none ↦ none | some k ↦ judge tasks k k.unprocessed ]

-- `none` stands for an exception or for a loop that the fuel cut short.
unfoldable pub validate_dag : List Node → Option Report
unfolding structural_errors
validate_dag tasks = analyse_graph tasks (structural_errors tasks)
