-- ===== src/Workflow/Dag/Clean.antt =====
-- What the structural checks of validateDag in src/workflow/dag.js establish.
use ai_distributed_workflow.Base.{
  refl, ◌≡◌, arith, true, false, List, [], ◌∷◌, ◌++◌, ◌||◌, String, same_iff, All, All-map_of,
  Bool-cases, inl, inr,
}
use ai_distributed_workflow.Base.Dict.{has, add, has-add}
use ai_distributed_workflow.Workflow.Dag.{
  Node, deps, keys, key_errors, key_set, dep_errors, edge_errors, edge_error, repeat_error,
}
use ai_distributed_workflow.Workflow.Dag.Sets.{Unique}

-- Different keys, and dependencies that are other tasks, each once.
pub record IsClean (tasks : List Node) : Type 0 where
  pub unique : Unique (keys tasks)
  pub lists : All (λ t. Unique (deps t)) tasks
  pub known : All (λ t. All (λ d. has d (keys tasks) ≡ true) (deps t)) tasks

pub append-nil_left : {A : Type 0} (xs ys : List A) → xs ++ ys ≡ [] → (xs ≡ []) × (ys ≡ [])
append-nil_left [] ys h = (refl, h)
append-nil_left (x ∷ xs) ys h = absurd (ground (arith, h))

key_errors-clean :
    (seen : List String) (ts : List Node)
    → key_errors seen ts ≡ []
    → Unique (keys ts) × ((k : String) → has k seen ≡ true → has k (keys ts) ≡ false)
unfolding key_errors has
key_errors-clean seen [] h = (tt, λ k s. refl)
key_errors-clean seen (t ∷ ts) h =
    let here : has t.key seen ≡ false = elim (Bool-cases (has t.key seen)) [
      | inl e ↦ absurd (ground (arith, h, e))
      | inr e ↦ e
    ] in
    let (u, apart) = key_errors-clean (add t.key seen) ts (ground (arith, h, here)) in
    (
      (apart t.key (ground (arith, has-add t.key t.key seen, same_iff t.key t.key)), u),
      λ k s. ground (arith, s, here, same_iff t.key k, apart k, has-add t.key k seen),
    )

key_set-has :
    (seen : List String) (ts : List Node) (k : String)
    → has k (key_set seen ts) ≡ (has k seen || has k (keys ts))
unfolding key_set has
key_set-has seen [] k = ground arith
key_set-has seen (t ∷ ts) k =
    ground (arith, key_set-has (add t.key seen) ts k, has-add t.key k seen)

dep_errors-clean :
    (seen : List String) (key : String) (counted ds : List String)
    → dep_errors seen key counted ds ≡ []
    → Unique ds
      × (All (λ d. has d seen ≡ true) ds × ((k : String) → has k counted ≡ true → has k ds ≡ false))
unfolding dep_errors has
dep_errors-clean seen key counted [] h = (tt, (tt, λ k s. refl))
dep_errors-clean seen key counted (d ∷ ds) h =
    let (e1, rest) =
      append-nil_left (edge_error seen key d)
        (repeat_error counted key d ++ dep_errors seen key (add d counted) ds) h in
    let (e2, e3) =
      append-nil_left (repeat_error counted key d) (dep_errors seen key (add d counted) ds) rest in
    let (u, (a, apart)) = dep_errors-clean seen key (add d counted) ds e3 in
    (
      (apart d (ground (arith, has-add d d counted, same_iff d d)), u),
      (
        (ground (arith, e1), a),
        λ k s. ground (arith, s, e2, same_iff d k, apart k, has-add d k counted),
      ),
    )

edge_errors-clean :
    (seen : List String) (ts : List Node)
    → edge_errors seen ts ≡ []
    → All (λ t. Unique (deps t)) ts × All (λ t. All (λ d. has d seen ≡ true) (deps t)) ts
unfolding edge_errors
edge_errors-clean seen [] h = (tt, tt)
edge_errors-clean seen (t ∷ ts) h =
    let (e1, e2) = append-nil_left (dep_errors seen t.key [] (deps t)) (edge_errors seen ts) h in
    let (u, (a, _)) = dep_errors-clean seen t.key [] (deps t) e1 in
    let (us, as_) = edge_errors-clean seen ts e2 in ((u, us), (a, as_))

pub errors-IsClean :
    (tasks : List Node)
    → key_errors [] tasks ++ edge_errors (key_set [] tasks) tasks ≡ []
    → IsClean tasks
unfolding has
errors-IsClean tasks h =
    let (e1, e2) = append-nil_left (key_errors [] tasks) (edge_errors (key_set [] tasks) tasks) h in
    let (us, ks) = edge_errors-clean (key_set [] tasks) tasks e2 in
    record {
      unique = (key_errors-clean [] tasks e1).0;
      lists = us;
      known =
          All-map_of _ _ tasks
            (λ t a. All-map_of _ _ (deps t) (λ d e. ground (arith, e, key_set-has [] tasks d)) a)
            ks;
    }
