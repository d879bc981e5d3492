-- ===== src/Workflow/Dag/Rounds.antt =====
-- The loops of kahn in src/workflow/dag.js: the children of a task, the tasks of a wave, the waves.
use mathlib.Core.List.{append_assoc}
use ai_distributed_workflow.Base.{
  zero, suc, some, length-append, ◌<◌, same_refl, refl, ◌≡◌, arith, Bool, true, false, List, [],
  ◌∷◌, ◌++◌, ◌||◌, ◌&&◌, String, same, same_iff, same_refl, All, Bool-cases, inl, inr, ap, length,
  subst, ◌+◌, suc, All-map_of, ◌≤◌, ◌∙◌, ◌==◌, All-both, length-append, ℕ,
}
use ai_distributed_workflow.Base.Dict.{has, has-append}
use ai_distributed_workflow.Workflow.Dag.{
  Node, deps, keys, Degrees, Children, children_of, visit_child, visit_children, run_wave, waves,
  Waves,
}
use ai_distributed_workflow.Workflow.Dag.Sets.{
  Unique, Unique-right, Unique-apart, Unique-length, Unique-snoc,
}
use ai_distributed_workflow.Workflow.Dag.Edges.{Edges, taken, taken-cons, unmet}
use ai_distributed_workflow.Workflow.Dag.Wave.{visit_child-IsExact}
use ai_distributed_workflow.Workflow.Dag.Exact.{IsExact, IsChild, Ordered}
use ai_distributed_workflow.Mongo.Counting.{append_nil}

-- The lists of children are those of the tasks, without repetition.
pub record IsChildren (tasks : List Node) (ch : Children) : Type 0 where
  pub unique : (p : String) → Unique (children_of ch p)
  pub complete :
      All (λ t. (p : String) → has p (deps t) ≡ true → has t.key (children_of ch p) ≡ true) tasks
  pub of_task : (p c : String) → has c (children_of ch p) ≡ true → has c (keys tasks) ≡ true
  pub depends :
      (p c : String)
      → has c (children_of ch p) ≡ true
      → All (λ t. same t.key c ≡ true → has p (deps t) ≡ true) tasks

module _ (tasks : List Node) (lists : All (λ t. Unique (deps t)) tasks) (ch : Children)
    (links : IsChildren tasks ch) where
  -- The edges after the children `cs` of `p`.
  abbrev Taken : Edges → (String → String → Bool) → Edges → Type 0
  Taken x more x' = (d e : String) → taken x' d e ≡ (taken x d e || more d e)

  visit_children-IsExact :
      (m : Degrees) (base next : List String) (x : Edges) (p : String) (cs : List String)
      → IsExact tasks m (base ++ next) x
      → has p base ≡ true
      → Unique cs
      → ((c : String) → has c cs ≡ true → (has c (children_of ch p) ≡ true) × (taken x p c ≡ false))
      → let (m', next') = visit_children cs (m, next) in
        (x' : Edges) × (IsExact tasks m' (base ++ next') x'
          × Taken x (λ d e. same p d && has e cs) x')
  unfolding visit_children has
  visit_children-IsExact m base next x p [] v h u ok_ = (x, (v, λ d e. ground arith))
  visit_children-IsExact m base next x p (c ∷ cs) v h (n, u) ok_ =
      let (child, open_edge) = ok_ c (ground (arith, same_refl c)) in
      let is_child : IsChild tasks x p c = record {
        of_task = links.of_task p c child;
        depends = links.depends p c child;
        open_edge = open_edge;
      } in
      let (m', next') = visit_child c (m, next) in
      let v' =
        visit_child-IsExact tasks lists m base next x p c v is_child
          (ground (arith, has-append p base next, h)) in
      let (x', (v'', tk)) = visit_children-IsExact m' base next' ((p, c) ∷ x) p cs v' h u (λ j hj. (
        (ok_ j (ground (arith, hj))).0,
        ground (arith, (ok_ j (ground (arith, hj))).1, taken-cons x p c p j, n, hj, same_iff c j),
      )) in
      (x', (v'', λ d e. ground (arith, tk d e, taken-cons x p c d e)))

  run_wave-IsExact :
      (m : Degrees) (base next : List String) (x : Edges) (ks : List String)
      → IsExact tasks m (base ++ next) x
      → ((k : String) → has k ks ≡ true → has k base ≡ true)
      → Unique ks
      → ((k c : String) → has k ks ≡ true → taken x k c ≡ false)
      → let (m', next') = run_wave ch ks (m, next) in
        (x' : Edges) × (IsExact tasks m' (base ++ next') x'
          × Taken x (λ d e. has d ks && has e (children_of ch d)) x')
  unfolding run_wave has
  run_wave-IsExact m base next x [] v sub u fresh = (x, (v, λ d e. ground arith))
  run_wave-IsExact m base next x (k ∷ ks) v sub (n, u) fresh =
      let (m', next') = visit_children (children_of ch k) (m, next) in
      let (x', (v', tk)) =
        visit_children-IsExact m base next x k (children_of ch k) v
          (sub k (ground (arith, same_refl k))) (links.unique k)
          (λ c hc. (hc, fresh k c (ground (arith, same_refl k)))) in
      let (x'', (v'', tk')) =
        run_wave-IsExact m' base next' x' ks v' (λ j hj. sub j (ground (arith, hj))) u
          (λ j c hj. ground (arith, tk j c, fresh j c (ground (arith, hj)), hj, n, same_iff k j)) in
      (
        x'',
        (
          v'',
          λ d e.
              let swap : same k d ≡ true → children_of ch k ≡ children_of ch d =
                λ h. ap (children_of ch) ((same_iff k d).0 h) in
              elim (Bool-cases (same k d)) [
                | inl h ↦ rw (← swap h) (ground (arith, tk d e, tk' d e, h))
                | inr h ↦ ground (arith, tk d e, tk' d e, h)
              ],
        ),
      )

  pub record IsRound (m : Degrees) (order wave : List String) (x : Edges) : Type 0 where
    pub exact : IsExact tasks m (order ++ wave) x
    pub from : (d e : String) → taken x d e ≡ true → has d order ≡ true
    pub done : All (λ t. All (λ d. has d order ≡ true → taken x d t.key ≡ true) (deps t)) tasks

  Ordered-Unique :
      (before ks : List String) → Unique before → Ordered tasks before ks → Unique (before ++ ks)
  Ordered-Unique before [] u o = rw (append_nil before) u
  Ordered-Unique before (k ∷ ks) u (n, (met, o)) =
      rw (← append_assoc before (k ∷ []) ks)
        (Ordered-Unique (before ++ k ∷ []) ks (Unique-snoc before k u n) o)

  -- The keys processed when no wave is left.
  pub record IsFinal (order : List String) : Type 0 where
    pub ordered : Ordered tasks [] order
    pub complete : All (λ t. All (λ d. has d order ≡ true) (deps t) → has t.key order ≡ true) tasks
    pub known : All (λ k. has k (keys tasks) ≡ true) order

  length-keys : (ts : List Node) → length (keys ts) ≡ length ts
  length-keys [] = refl
  length-keys (t ∷ ts) = ap suc (length-keys ts)

  All-has : (P : String → Type 0) (xs : List String) (k : String) → All P xs → has k xs ≡ true → P k
  unfolding has
  All-has P [] k a h = absurd (ground (arith, h))
  All-has P (x ∷ xs) k (p, a) h = elim (Bool-cases (same x k)) [
    | inl e ↦ subst P ((same_iff x k).0 e) p
    | inr e ↦ All-has P xs k a (ground (arith, h, e))
  ]

  order_short :
      (m : Degrees) (order wave : List String) (x : Edges)
      → IsRound m order wave x
      → length order + length wave ≤ length tasks
  order_short m order wave x v =
      let fits =
        Unique-length (order ++ wave) (keys tasks)
          (Ordered-Unique [] (order ++ wave) tt v.exact.ordered)
          (λ k h. All-has (λ j. has j (keys tasks) ≡ true) (order ++ wave) k v.exact.known h) in
      ground (arith, fits, length-append order wave, length-keys tasks)

  unmet_none :
      (x : Edges) (key : String) (ds : List String)
      → All (λ d. taken x d key ≡ true) ds
      → unmet x key ds ≡ 0
  unfolding unmet
  unmet_none x key [] a = refl
  unmet_none x key (d ∷ ds) a = ground (arith, a.0, unmet_none x key ds a.1)

  apply_all :
      (P Q : String → Type 0) (ds : List String) → All (λ d. P d → Q d) ds → All P ds → All Q ds
  apply_all P Q [] f a = tt
  apply_all P Q (d ∷ ds) f a = (f.0 a.0, apply_all P Q ds f.1 a.1)

  IsRound-Final :
      (m : Degrees) (order : List String) (x : Edges) → IsRound m order [] x → IsFinal order
  IsRound-Final m order x v =
      let exact : IsExact tasks m order x =
        subst (λ ks. IsExact tasks m ks x) (append_nil order) v.exact in
      record {
        ordered = exact.ordered;
        known = exact.known;
        complete =
            All-map_of _ _ tasks
              (λ t both all.
                both.0
                ∙ ap (λ n. n == 0)
                    (unmet_none x t.key (deps t) (
                      apply_all (λ d. has d order ≡ true) (λ d. taken x d t.key ≡ true) (deps t)
                        both.1 all)))
              (All-both _ _ tasks exact.ready v.done);
      }

  has_tail : (d e : String) (ds : List String) → has d ds ≡ true → has d (e ∷ ds) ≡ true
  unfolding has
  has_tail d e ds h = ground (arith, h)

  has_head : (d : String) (ds : List String) → has d (d ∷ ds) ≡ true
  unfolding has
  has_head d ds = ground (arith, same_refl d)

  all_members : (ds : List String) → All (λ d. has d ds ≡ true) ds
  all_members [] = tt
  all_members (d ∷ ds) =
      (has_head d ds, All-map_of _ _ ds (λ e h. has_tail e d ds h) (all_members ds))

  IsRound-next :
      (m : Degrees) (order : List String) (wave : List String) (x : Edges)
      → IsRound m order wave x
      → let (m', next) = run_wave ch wave (m, []) in
        (x' : Edges) × IsRound m' (order ++ wave) next x'
  IsRound-next m order wave x v =
      let (m', next) = run_wave ch wave (m, []) in
      let unique = Ordered-Unique [] (order ++ wave) tt v.exact.ordered in
      let whole : IsExact tasks m ((order ++ wave) ++ []) x =
        rw (append_nil (order ++ wave)) v.exact in
      let (x', (v', tk)) =
        run_wave-IsExact m (order ++ wave) [] x wave whole
          (λ k h. ground (arith, h, has-append k order wave)) (Unique-right order wave unique)
          (λ k c h. elim (Bool-cases (taken x k c)) [
            | inl e ↦ absurd (ground (arith, v.from k c e, Unique-apart order wave k unique h))
            | inr e ↦ e
          ]) in
      (
        x',
        record {
          exact = v';
          from = λ d e h. ground (arith, h, tk d e, v.from d e, has-append d order wave);
          done =
              All-map_of _ _ tasks
                (λ t both.
                  All-map_of _ _ (deps t)
                    (λ d h there. taken_next x' d t.key (tk d t.key) (h.0) (both.1 d h.1) there)
                    (All-both _ _ (deps t) both.0 (all_members (deps t))))
                (All-both _ _ tasks v.done links.complete);
        },
      )
    where
      taken_next :
          (x' : Edges) (d c : String)
          → taken x' d c ≡ (taken x d c || (has d wave && has c (children_of ch d)))
          → (has d order ≡ true → taken x d c ≡ true)
          → has c (children_of ch d) ≡ true
          → has d (order ++ wave) ≡ true
          → taken x' d c ≡ true
      taken_next x' d c tk old child there =
          ground (arith, tk, old, child, there, has-append d order wave)

  -- The fuel lasts, since each round processes a task at least.
  pub waves-Final :
      (fuel : ℕ) (m : Degrees) (wave : List String) (w : Waves) (x : Edges)
      → IsRound m w.order wave x
      → length tasks < fuel + length w.order
      → (w' : Waves) × ((waves fuel ch m wave w ≡ some w') × IsFinal w'.order)
  unfolding waves
  waves-Final fuel m [] w x v enough = (w, (refl, IsRound-Final m w.order x v))
  waves-Final zero m (k ∷ ks) w x v enough =
      absurd (ground (arith, enough, order_short m w.order (k ∷ ks) x v))
  waves-Final (suc fuel) m (k ∷ ks) w x v enough =
      let (m', next) = run_wave ch (k ∷ ks) (m, []) in
      let (x', v') = IsRound-next m w.order (k ∷ ks) x v in
      waves-Final fuel m' next
        (record { order = w.order ++ k ∷ ks; levels = w.levels ++ (k ∷ ks) ∷ [] }) x' v'
        (ground (arith, enough, length-append w.order (k ∷ ks)))
