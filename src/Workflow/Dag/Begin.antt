-- ===== src/Workflow/Dag/Begin.antt =====
-- The degrees and the first wave of kahn in src/workflow/dag.js, and its result.
use mathlib.Core.List.{append_assoc}
use ai_distributed_workflow.Base.{
  refl, ◌≡◌, arith, Bool, true, false, some, List, [], ◌∷◌, ◌++◌, ◌==◌, String, same, same_iff,
  same_refl, All, All-map_of, Bool-cases, inl, inr, keep, ◌∙◌, length, All-both, ap, sym, subst,
  suc,
}
use ai_distributed_workflow.Base.Int.{pos}
use ai_distributed_workflow.Base.Dict.{has, get, put, get-put}
use ai_distributed_workflow.Workflow.Dag.{
  Node, deps, keys, Degrees, in_degrees, is_root, kahn, Kahn, leftover,
}
use ai_distributed_workflow.Workflow.Dag.Sets.{Unique, Unique-snoc, Unique-apart}
use ai_distributed_workflow.Workflow.Dag.Exact.{Ordered, IsExact}
use ai_distributed_workflow.Workflow.Dag.Clean.{IsClean}
use ai_distributed_workflow.Workflow.Dag.Edges.{taken, unmet-nil}
use ai_distributed_workflow.Workflow.Dag.Children.{children_built}
use ai_distributed_workflow.Workflow.Dag.Rounds.{IsRound, waves-Final}

get-in_degrees :
    (m : Degrees) (ts : List Node) (k : String)
    → has k (keys ts) ≡ false
    → get k (in_degrees m ts) ≡ get k m
unfolding in_degrees has
get-in_degrees m [] k h = refl
get-in_degrees m (t ∷ ts) k h = ground (
  arith,
  h,
  get-in_degrees (put t.key (pos (length (deps t))) m) ts k,
  get-put t.key k (pos (length (deps t))) m,
)

all_degrees :
    (m : Degrees) (ts : List Node)
    → Unique (keys ts)
    → All (λ t. get t.key (in_degrees m ts) ≡ some (pos (length (deps t)))) ts
unfolding in_degrees
all_degrees m [] u = tt
all_degrees m (t ∷ ts) (n, u) = (
  get-in_degrees (put t.key (pos (length (deps t))) m) ts t.key n
      ∙ ground (arith, get-put t.key t.key (pos (length (deps t))) m, same_refl t.key),
  all_degrees (put t.key (pos (length (deps t))) m) ts u,
)

-- The keys of the tasks that pass a test.
abbrev picked : (Node → Bool) → List Node → List String
picked p ts = keys (keep p ts)

absent_picked :
    (p : Node → Bool) (c : String) (ts : List Node)
    → has c (keys ts) ≡ false
    → has c (picked p ts) ≡ false
unfolding has
absent_picked p c [] h = refl
absent_picked p c (t ∷ ts) h = ground (arith, h, absent_picked p c ts)

Unique-picked : (p : Node → Bool) (ts : List Node) → Unique (keys ts) → Unique (picked p ts)
Unique-picked p [] u = tt
Unique-picked p (t ∷ ts) (n, u) = elim (Bool-cases (p t)) [
  | inl e ↦ rw e (absent_picked p t.key ts n, Unique-picked p ts u)
  | inr e ↦ rw e (Unique-picked p ts u)
]

picked-exact :
    (p : Node → Bool) (ts : List Node)
    → Unique (keys ts)
    → All (λ t. has t.key (picked p ts) ≡ p t) ts
unfolding has
picked-exact p [] u = tt
picked-exact p (t ∷ ts) (n, u) = (
  ground (arith, absent_picked p t.key ts n, same_refl t.key),
  shifted ts n (picked-exact p ts u),
)
  where
    shifted :
        (us : List Node)
        → has t.key (keys us) ≡ false
        → All (λ s. has s.key (picked p ts) ≡ p s) us
        → All (λ s. has s.key (picked p (t ∷ ts)) ≡ p s) us
    shifted [] m a = tt
    shifted (s ∷ us) m (h, a) = (
      ground (arith, h, m, same_iff t.key s.key, same_iff s.key t.key),
      shifted us (ground (arith, m)) a,
    )

picked-known :
    (p : Node → Bool) (tasks ts : List Node)
    → ((k : String) → has k (keys ts) ≡ true → has k (keys tasks) ≡ true)
    → All (λ k. has k (keys tasks) ≡ true) (picked p ts)
unfolding has
picked-known p tasks [] f = tt
picked-known p tasks (t ∷ ts) f = elim (Bool-cases (p t)) [
  | inl e ↦ rw e (
    f t.key (ground (arith, same_refl t.key)),
    picked-known p tasks ts (λ k h. f k (ground (arith, h))),
  )
  | inr e ↦ rw e (picked-known p tasks ts (λ k h. f k (ground (arith, h))))
]

-- Tasks without dependencies are in order in any order.
Ordered-roots :
    (tasks : List Node) (before ks : List String)
    → Unique (before ++ ks)
    → Unique before
    → ((k : String) → has k ks ≡ true → All (λ t. same t.key k ≡ true → deps t ≡ []) tasks)
    → Ordered tasks before ks
unfolding has
Ordered-roots tasks before [] u ub f = tt
Ordered-roots tasks before (k ∷ ks) u ub f =
    let fresh = Unique-apart before (k ∷ ks) k u (ground (arith, same_refl k)) in
    (
      fresh,
      (
        All-map_of _ _ tasks (λ t h e. rw (h e) tt) (f k (ground (arith, same_refl k))),
        Ordered-roots tasks (before ++ k ∷ []) ks (rw (append_assoc before (k ∷ []) ks) u)
            (Unique-snoc before k ub fresh) (λ j h. f j (ground (arith, h))),
      ),
    )

no_deps : (ds : List String) → (length ds == 0) ≡ true → ds ≡ []
no_deps [] h = refl
no_deps (d ∷ ds) h = absurd (ground (arith, h))

module _ (tasks : List Node) (clean : IsClean tasks) where
  abbrev start_degrees : Degrees
  start_degrees = in_degrees [] tasks

  abbrev roots : List String
  roots = picked (is_root start_degrees) tasks

  root_of :
      (m : Degrees) (t : Node)
      → get t.key m ≡ some (pos (length (deps t)))
      → is_root m t ≡ (length (deps t) == 0)
  root_of m t g = rw (is_root, g) refl

  root_exact : All (λ t. is_root start_degrees t ≡ (length (deps t) == 0)) tasks
  root_exact = All-map_of _ _ tasks (root_of start_degrees) (all_degrees [] tasks clean.unique)

  roots_ready : All (λ t. has t.key roots ≡ (length (deps t) == 0)) tasks
  roots_ready =
      All-map_of _ _ tasks (λ t h. h.0 ∙ h.1)
        (All-both _ _ tasks (picked-exact (is_root start_degrees) tasks clean.unique) root_exact)

  IsExact-start : IsExact tasks start_degrees roots []
  unfolding taken
  IsExact-start = record {
    degrees =
        All-map_of _ _ tasks (λ t g. g ∙ ap (λ n. some (pos n)) (sym (unmet-nil t.key (deps t))))
          (all_degrees [] tasks clean.unique);
    ready =
        All-map_of _ _ tasks (λ t h. h ∙ ap (λ n. n == 0) (sym (unmet-nil t.key (deps t))))
          roots_ready;
    sources = λ d c h. absurd (ground (arith, h));
    ordered =
        Ordered-roots tasks [] roots (Unique-picked (is_root start_degrees) tasks clean.unique) tt
          (λ k h.
            All-map_of _ _ tasks
              (λ t r e.
                no_deps (deps t)
                  (sym r ∙ subst (λ j. has j roots ≡ true) (sym ((same_iff t.key k).0 e)) h))
              roots_ready);
    known = picked-known (is_root start_degrees) tasks tasks (λ k h. h);
  }

  no_edge : (d c : String) → taken [] d c ≡ true → has d [] ≡ true
  unfolding taken
  no_edge d c h = absurd (ground (arith, h))

  nothing_done :
      (key : String) (ds : List String) → All (λ d. has d [] ≡ true → taken [] d key ≡ true) ds
  unfolding has
  nothing_done key [] = tt
  nothing_done key (d ∷ ds) = (λ h. absurd (ground (arith, h)), nothing_done key ds)

  -- kahn ends with an order that no task can be added to.
  pub kahn-Final :
      (k : Kahn) × ((kahn tasks ≡ some k)
        × ((k.unprocessed ≡ leftover k.order (keys tasks))
            × (Ordered tasks [] k.order
                × (All
                      (λ t. All (λ d. has d k.order ≡ true) (deps t) → has t.key k.order ≡ true)
                      tasks
                    × All (λ j. has j (keys tasks) ≡ true) k.order))))
  unfolding kahn
  kahn-Final =
      let (ch, (built, links)) = children_built tasks clean in
      let start : IsRound tasks clean.lists ch links start_degrees [] roots [] = record {
        exact = IsExact-start;
        from = no_edge;
        done = All-map_of _ _ tasks (λ t u. nothing_done t.key (deps t)) clean.lists;
      } in
      let (w, (ends, final)) =
        waves-Final tasks clean.lists ch links (suc (length tasks)) start_degrees roots
          (record { order = []; levels = [] }) [] start (ground arith) in
      (
        record { order = w.order; levels = w.levels; unprocessed = leftover w.order (keys tasks) },
        (rw (kahn, built, ends) refl, (refl, (final.ordered, (final.complete, final.known)))),
      )
