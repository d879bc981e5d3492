-- ===== src/Workflow/Dag.antt =====
-- src/workflow/dag.js: structural checks, Kahn's algorithm by waves, and the search for a cycle.
-- `Map` and `Set` are those of Base/Dict. Kahn's `while` loop and the depth of `visit` are bounded
-- by fuel, one round or one level for each task and one more.
pub mod Sets
pub mod Edges
pub mod Exact
pub mod Wave
pub mod Rounds
pub mod Clean
pub mod Children
pub mod Begin
use ai_distributed_workflow.Base.{
  ℕ, zero, suc, Bool, false, not, Option, none, some, List, [], ◌∷◌, ◌++◌, String, map, keep,
  length, same, if◌then◌else◌,
}
use ai_distributed_workflow.Base.Int.{ℤ, pos, decrease, is_zero}
use ai_distributed_workflow.Base.Dict.{get, put, has, add}

pub record Node : Type 0 where
  pub key : String
  pub depends_on : Option (List String)

-- `task.dependsOn ?? []`
abbrev pub or_none : Option (List String) → List String
or_none none = []
or_none (some ds) = ds

abbrev pub deps : Node → List String
deps n = or_none n.depends_on

-- DAG_ERROR, each with the fields beside `code` and `message`.
pub data DagError : Type 0 where
  duplicate_key self_dependency : String → DagError
  unknown_dependency duplicate_dependency : String → String → DagError
  cycle : List String → DagError

-- The first loop of validateDag: the errors, for the keys seen so far.
unfoldable pub key_errors : List String → List Node → List DagError
key_errors seen [] = []
key_errors seen (t ∷ ts) =
    let rest = key_errors (add t.key seen) ts in
    if has t.key seen then duplicate_key t.key ∷ rest else rest

-- `seen` after that loop.
unfoldable pub key_set : List String → List Node → List String
key_set seen [] = seen
key_set seen (t ∷ ts) = key_set (add t.key seen) ts

abbrev pub edge_error : List String → String → String → List DagError
edge_error seen key dep =
    if same dep key
    then self_dependency key ∷ []
    else if has dep seen
    then []
    else unknown_dependency key dep ∷ []

abbrev pub repeat_error : List String → String → String → List DagError
repeat_error counted key dep = if has dep counted then duplicate_dependency key dep ∷ [] else []

-- The inner loop over one task's dependencies.
unfoldable pub dep_errors : List String → String → List String → List String → List DagError
dep_errors seen key counted [] = []
dep_errors seen key counted (d ∷ ds) =
    edge_error seen key d ++ (repeat_error counted key d ++ dep_errors seen key (add d counted) ds)

unfoldable pub edge_errors : List String → List Node → List DagError
unfolding dep_errors
edge_errors seen [] = []
edge_errors seen (t ∷ ts) = dep_errors seen t.key [] (deps t) ++ edge_errors seen ts

abbrev pub Degrees : Type 0
Degrees = List (String × ℤ)

abbrev pub Children : Type 0
Children = List (String × List String)

unfoldable pub in_degrees : Degrees → List Node → Degrees
in_degrees m [] = m
in_degrees m (t ∷ ts) = in_degrees (put t.key (pos (length (deps t))) m) ts

unfoldable pub no_children : Children → List Node → Children
no_children m [] = m
no_children m (t ∷ ts) = no_children (put t.key [] m) ts

-- `children.get(dep).push(key)`. A missing entry would be a TypeError: `none`.
unfoldable pub push_child : String → String → Children → Option Children
push_child key dep m = elim (get dep m) [
  | none ↦ none
  | some ks ↦ some (put dep (ks ++ key ∷ []) m)
]

unfoldable pub push_deps : String → List String → Children → Option Children
unfolding push_child
push_deps key [] m = some m
push_deps key (d ∷ ds) m = elim (push_child key d m) [ none ↦ none | some m' ↦ push_deps key ds m' ]

unfoldable pub add_children : List Node → Children → Option Children
unfolding push_deps
add_children [] m = some m
add_children (t ∷ ts) m = elim (push_deps t.key (deps t) m) [
  | none ↦ none
  | some m' ↦ add_children ts m'
]

abbrev pub degree : Degrees → String → Option ℤ
degree m k = get k m

abbrev pub is_root : Degrees → Node → Bool
is_root m t = elim (get t.key m) [ none ↦ false | some n ↦ is_zero n ]

-- One child of a finished task: its in-degree drops, and at 0 it joins the next wave.
abbrev pub drop_to : ℤ → String → Degrees × List String → Degrees × List String
drop_to n child (m, next) = (put child n m, if is_zero n then next ++ child ∷ [] else next)

-- A child always has an entry; `undefined - 1` would be NaN, and never 0.
unfoldable pub visit_child : String → Degrees × List String → Degrees × List String
visit_child child (m, next) = elim (get child m) [
  | none ↦ (m, next)
  | some n ↦ drop_to (decrease n 1) child (m, next)
]

unfoldable pub visit_children : List String → Degrees × List String → Degrees × List String
visit_children [] s = s
visit_children (c ∷ cs) s = visit_children cs (visit_child c s)

abbrev pub children_of : Children → String → List String
children_of ch k = or_none (get k ch)

unfoldable pub run_wave : Children → List String → Degrees × List String → Degrees × List String
run_wave ch [] s = s
run_wave ch (k ∷ ks) s = run_wave ch ks (visit_children (children_of ch k) s)

pub record Waves : Type 0 where
  pub order : List String
  pub levels : List (List String)

-- The `while` loop: `none` when the fuel is used up before a wave is empty.
unfoldable pub waves : ℕ → Children → Degrees → List String → Waves → Option Waves
waves fuel ch m [] w = some w
waves zero ch m (k ∷ ks) w = none
waves (suc fuel) ch m (k ∷ ks) w =
    let wave = k ∷ ks in
    let (m', next) = run_wave ch wave (m, []) in
    waves fuel ch m' next (record { order = w.order ++ wave; levels = w.levels ++ wave ∷ [] })

pub record Kahn : Type 0 where
  pub order : List String
  pub levels : List (List String)
  pub unprocessed : List String

abbrev pub keys : List Node → List String
keys tasks = map (λ t. t.key) tasks

unfoldable pub leftover : List String → List String → List String
leftover order ks = keep (λ k. not (has k order)) ks

unfoldable pub kahn : List Node → Option Kahn
unfolding leftover
kahn tasks = elim (add_children tasks (no_children [] tasks)) [
  | none ↦ none
  | some ch ↦
      let m = in_degrees [] tasks in
      elim (waves (suc (length tasks)) ch m (keys (keep (is_root m) tasks))
        (record { order = []; levels = [] })) [
          | none ↦ none
          | some w ↦ some (record {
            order = w.order;
            levels = w.levels;
            unprocessed = leftover w.order (keys tasks);
          })
        ]
]
