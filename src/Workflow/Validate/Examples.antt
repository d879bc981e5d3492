-- ===== src/Workflow/Validate/Examples.antt =====
-- The theorems on src/workflow/dag.js at a graph of four tasks.
use ai_distributed_workflow.Base.{◌≡◌, ◌↔◌, refl, true, some, [], ◌∷◌}
use ai_distributed_workflow.Base.Tests.{same}
use ai_distributed_workflow.Base.Dict.{get, put, has, add}
use ai_distributed_workflow.Workflow.Samples.{diamond}
use ai_distributed_workflow.Workflow.Dag.{
  in_degrees, no_children, add_children, visit_child, visit_children, run_wave, waves, kahn,
  leftover,
}
use ai_distributed_workflow.Workflow.Validate.{Report, validate_dag, structural_errors}
use ai_distributed_workflow.Workflow.Validate.Order.{
  IsTopological, Acyclic, valid-Topological, valid_iff,
}

abbrev diamond_report : Report
diamond_report = record {
  valid = true;
  errors = [];
  order = "A" ∷ "B" ∷ "C" ∷ "D" ∷ [];
  levels = ("A" ∷ []) ∷ ("B" ∷ "C" ∷ []) ∷ ("D" ∷ []) ∷ [];
}

diamond_validated : validate_dag diamond ≡ some diamond_report
unfolding validate_dag kahn get put has add in_degrees no_children add_children visit_child
    visit_children run_wave waves leftover same
diamond_validated = refl

valid-Topological_example :
    (structural_errors diamond ≡ []) × IsTopological diamond diamond_report.order
valid-Topological_example = valid-Topological diamond diamond_report diamond_validated refl

valid_iff_example :
    ((r : Report) × ((validate_dag diamond ≡ some r) × (r.valid ≡ true)))
    ↔ ((structural_errors diamond ≡ []) × Acyclic diamond)
valid_iff_example = valid_iff diamond
