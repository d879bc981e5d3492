-- ===== src/Workflow/Cycle.antt =====
-- src/workflow/dag.js, findCycle: the depth-first search with three colours. The depth of `visit`
-- is bounded by fuel, since no task is entered twice on one path.
use ai_distributed_workflow.Base.{
  ℕ, zero, suc, Option, none, some, List, [], ◌∷◌, ◌++◌, String, same, if◌then◌else◌, length,
}
use mathlib.Core.List.{reverse}
use ai_distributed_workflow.Base.Dict.{get, put}
use ai_distributed_workflow.Workflow.Dag.{Node, deps, or_none}

pub data Colour : Type 0 where
  white grey black : Colour

pub record Search : Type 0 where
  pub colour : List (String × Colour)
  pub path : List String

-- What `visit` returns: a cycle, null, or that the fuel ran out.
pub data Found : Type 0 where
  found : List String → Found
  clear stuck : Found

-- `new Map(…)` of pairs, the later over the earlier.
unfoldable pub dep_map : List (String × List String) → List Node → List (String × List String)
dep_map m [] = m
dep_map m (t ∷ ts) = dep_map (put t.key (deps t) m) ts

unfoldable pub all_white : List (String × Colour) → List Node → List (String × Colour)
all_white m [] = m
all_white m (t ∷ ts) = all_white (put t.key white m) ts

-- path.slice(path.indexOf(dep))
unfoldable pub slice_from : String → List String → List String
slice_from dep [] = []
slice_from dep (k ∷ ks) = if same k dep then k ∷ ks else slice_from dep ks

-- path.pop()
unfoldable pub drop_last : List String → List String
drop_last [] = []
drop_last (k ∷ []) = []
drop_last (k ∷ j ∷ ks) = k ∷ drop_last (j ∷ ks)

-- The loop over a task's dependencies; `visit` is passed in.
unfoldable pub scan : (String → Search → Search × Found) → List String → Search → Search × Found
unfolding slice_from
scan visit [] s = (s, clear)
scan visit (d ∷ ds) s =
    let rest = scan visit ds s in
    elim (get d s.colour) [
      | some grey ↦ (s, found (slice_from d s.path ++ d ∷ []))
      | some white ↦
          let (s', r) = visit d s in
          let rest' = scan visit ds s' in elim r [ clear ↦ rest' | other ↦ (s', other) ]
      | _ ↦ rest
    ]

abbrev pub leave : String → Search × Found → Search × Found
leave key (s, clear) = (record { colour = put key black s.colour; path = drop_last s.path }, clear)
leave key (s, r) = (s, r)

unfoldable pub visit : ℕ → List (String × List String) → String → Search → Search × Found
unfolding scan drop_last
visit zero ds key s = (s, stuck)
visit (suc fuel) ds key s = leave key (
    scan (visit fuel ds) (or_none (get key ds))
      (record { colour = put key grey s.colour; path = s.path ++ key ∷ [] }))

-- The loop over the candidates; a cycle is reported in execution direction.
unfoldable pub search_all : ℕ → List (String × List String) → List String → Search → Found
unfolding visit
search_all fuel ds [] s = clear
search_all fuel ds (k ∷ ks) s =
    let skip = search_all fuel ds ks s in
    elim (get k s.colour) [
      | some white ↦
          let (s', r) = visit fuel ds k s in
          let rest = search_all fuel ds ks s' in
          elim r [ clear ↦ rest | found c ↦ found (reverse c) | stuck ↦ stuck ]
      | _ ↦ skip
    ]

-- With no cycle found the candidates themselves are returned.
unfoldable pub find_cycle : List Node → List String → Option (List String)
unfolding search_all dep_map all_white
find_cycle tasks candidates =
    elim (search_all (suc (length tasks)) (dep_map [] tasks) candidates
      (record { colour = all_white [] tasks; path = [] })) [
        | found c ↦ some c
        | clear ↦ some candidates
        | stuck ↦ none
      ]
