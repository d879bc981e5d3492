-- ===== src/Workflow/Samples.antt =====
-- Small task graphs, and what validateDag of src/workflow/dag.js says of them.
use ai_distributed_workflow.Base.{◌≡◌, refl, true, some, List, [], ◌∷◌, String}
use ai_distributed_workflow.Base.Tests.{same}
use ai_distributed_workflow.Base.Dict.{get, put, has, add}
use ai_distributed_workflow.Workflow.Dag.{
  Node, duplicate_key, self_dependency, unknown_dependency, duplicate_dependency, cycle, in_degrees,
  no_children, add_children, visit_child, visit_children, run_wave, waves, kahn, leftover,
}
use ai_distributed_workflow.Workflow.Cycle.{find_cycle}
use ai_distributed_workflow.Workflow.Validate.{validate_dag, rejected}

abbrev pub node : String → List String → Node
node k ds = record { key = k; depends_on = some ds }

-- A -> B, A -> C, B -> D, C -> D
abbrev pub diamond : List Node
diamond = node "D" ("B" ∷ "C" ∷ []) ∷ node "B" ("A" ∷ []) ∷ node "C" ("A" ∷ []) ∷ node "A" [] ∷ []

abbrev pub looped : List Node
looped = node "A" ("C" ∷ []) ∷ node "B" ("A" ∷ []) ∷ node "C" ("B" ∷ []) ∷ node "D" [] ∷ []

program : Unit {0}
unfolding validate_dag kahn find_cycle get put has add in_degrees no_children add_children
    visit_child visit_children run_wave waves leftover same
program = tt

validate_diamond :
    validate_dag diamond
    ≡ some (record {
      valid = true;
      errors = [];
      order = "A" ∷ "B" ∷ "C" ∷ "D" ∷ [];
      levels = ("A" ∷ []) ∷ ("B" ∷ "C" ∷ []) ∷ ("D" ∷ []) ∷ [];
    })
unfolding program
validate_diamond = refl

validate_looped : validate_dag looped ≡ some (rejected (cycle ("A" ∷ "B" ∷ "C" ∷ "A" ∷ []) ∷ []))
unfolding program
validate_looped = refl

validate_broken :
    validate_dag (node "A" ("A" ∷ "X" ∷ "X" ∷ []) ∷ node "A" [] ∷ [])
    ≡ some (
        rejected (
          duplicate_key "A"
          ∷ self_dependency "A"
          ∷ unknown_dependency "A" "X"
          ∷ unknown_dependency "A" "X"
          ∷ duplicate_dependency "A" "X"
          ∷ []))
unfolding program
validate_broken = refl
