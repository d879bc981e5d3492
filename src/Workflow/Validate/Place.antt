-- ===== src/Workflow/Validate/Place.antt =====
-- The places of keys in an order of tasks, for validateDag of src/workflow/dag.js.
use mathlib.Core.List.{append_assoc}
use ai_distributed_workflow.Base.{
  suc, true, false, suc, ℕ, ◌≡◌, ◌<◌, arith, true, false, List, [], ◌∷◌, ◌++◌, length, same_refl,
  String, same_iff, All, All-map_of, All-both, Bool-cases, inl, inr, subst, if◌then◌else◌, same,
  ◌||◌,
}
use ai_distributed_workflow.Base.Dict.{has}
use ai_distributed_workflow.Workflow.Dag.{Node, deps}
use ai_distributed_workflow.Workflow.Dag.Exact.{Ordered}

-- The place of a key in a list.
unfoldable pub place : String → List String → ℕ
place k [] = 0
place k (x ∷ xs) = if same x k then 0 else suc (place k xs)

place-before : (d : String) (xs ys : List String) → has d xs ≡ true → place d (xs ++ ys) < length xs
unfolding place has
place-before d [] ys h = absurd (ground (arith, h))
place-before d (x ∷ xs) ys h = elim (Bool-cases (same x d)) [
  | inl e ↦ ground (arith, e)
  | inr e ↦ let lt = place-before d xs ys (ground (arith, h, e)) in ground (arith, e, lt)
]

place-new :
    (k : String) (xs ys : List String) → has k xs ≡ false → place k (xs ++ k ∷ ys) ≡ length xs
unfolding place has
place-new k [] ys h = ground (arith, same_refl k)
place-new k (x ∷ xs) ys h = let eq = place-new k xs ys (ground (arith, h)) in ground (arith, h, eq)

pub Ordered-place :
    (tasks : List Node) (before ks : List String)
    → Ordered tasks before ks
    → All
        (λ t.
          has t.key ks ≡ true
          → All (λ d. place d (before ++ ks) < place t.key (before ++ ks)) (deps t))
        tasks
unfolding has
Ordered-place tasks before [] o = nothing tasks
  where
    nothing :
        (ts : List Node)
        → All
            (λ t.
              false ≡ true
              → All (λ d. place d (before ++ []) < place t.key (before ++ [])) (deps t))
            ts
    nothing [] = tt
    nothing (t ∷ ts) = (λ e. absurd (ground (arith, e)), nothing ts)
Ordered-place tasks before (k ∷ ks) (n, (met, o)) =
    All-map_of _ _ tasks joined
      (All-both _ _ tasks met (Ordered-place tasks (before ++ k ∷ []) ks o))
  where
    Later : Node → List String → Type 0
    Later t xs = All (λ d. place d xs < place t.key xs) (deps t)

    joined :
        (t : Node)
        → (same t.key k ≡ true → All (λ d. has d before ≡ true) (deps t))
          × (has t.key ks ≡ true → Later t ((before ++ k ∷ []) ++ ks))
        → (same k t.key || has t.key ks) ≡ true
        → Later t (before ++ k ∷ ks)
    joined t f h = elim (Bool-cases (same k t.key)) [
      | inl e ↦
          let eq : k ≡ t.key = (same_iff k t.key).0 e in
          All-map_of _ _ (deps t)
            (λ d there.
              let lt = place-before d before (k ∷ ks) there in
              let at = place-new k before ks n in
              subst (λ j. place d (before ++ k ∷ ks) < place j (before ++ k ∷ ks)) eq
                (ground (arith, lt, at)))
            (f.0 (ground (arith, e, same_iff k t.key, same_iff t.key k)))
      | inr e ↦ subst (Later t) (append_assoc before (k ∷ []) ks) (f.1 (ground (arith, h, e)))
    ]
