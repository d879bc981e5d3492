-- ===== src/Workflow/Dag/Wave.antt =====
-- One wave of kahn in src/workflow/dag.js: the invariant of the degrees and of the keys emitted.
use mathlib.Core.List.{append_assoc}
use ai_distributed_workflow.Base.{
  ap, All-append, ◌∙◌, refl, true, false, subst, suc, ℕ, ◌≡◌, arith, true, false, some, List, [],
  ◌∷◌, ◌++◌, ◌||◌, ◌&&◌, ◌==◌, String, same, same_iff, All, All-map_of, Bool-cases, inl, inr,
  if◌then◌else◌, subst, All-both, Bool, sym,
}
use ai_distributed_workflow.Base.Int.{pos, decrease-pos}
use ai_distributed_workflow.Base.Dict.{has, has-append, get, put, get-put}
use ai_distributed_workflow.Workflow.Dag.{Node, deps, keys, Degrees, visit_child}
use ai_distributed_workflow.Workflow.Dag.Sets.{Unique}
use ai_distributed_workflow.Workflow.Dag.Edges.{
  Edges, taken, unmet, taken-cons, unmet-other, unmet-take, unmet-zero,
}
use ai_distributed_workflow.Workflow.Dag.Exact.{
  Met, Ordered, IsExact, IsChild, Ordered-snoc, task_of,
}

module _ (tasks : List Node) (lists : All (λ t. Unique (deps t)) tasks) where
  -- What is known of one task when a child `c` of `p` is visited.
  abbrev Known : Degrees → Edges → String → String → Node → Type 0
  Known m x p c t =
      Unique (deps t)
      × ((get t.key m ≡ some (pos (unmet x t.key (deps t))))
          × (same t.key c ≡ true → has p (deps t) ≡ true))

  falls :
      (m : Degrees) (x : Edges) (p c : String) (t : Node)
      → Known m x p c t
      → taken x p c ≡ false
      → same t.key c ≡ true
      → unmet x t.key (deps t) ≡ suc (unmet ((p, c) ∷ x) t.key (deps t))
  falls m x p c t (u, (g, d)) open_edge e =
      let eq : t.key ≡ c = (same_iff t.key c).0 e in
      rw eq (unmet-take x p c (deps t) u (d e) open_edge)

  stays :
      (x : Edges) (p c : String) (t : Node)
      → same t.key c ≡ false
      → unmet ((p, c) ∷ x) t.key (deps t) ≡ unmet x t.key (deps t)
  stays x p c t e =
      unmet-other x p c t.key (deps t) (ground (arith, e, same_iff t.key c, same_iff c t.key))

  degree_after :
      (m : Degrees) (x : Edges) (p c : String) (n : ℕ) (t : Node)
      → Known m x p c t
      → taken x p c ≡ false
      → get c m ≡ some (pos (suc n))
      → get t.key (put c (pos n) m) ≡ some (pos (unmet ((p, c) ∷ x) t.key (deps t)))
  degree_after m x p c n t k open_edge g = elim (Bool-cases (same t.key c)) [
    | inl e ↦
        let eq : t.key ≡ c = (same_iff t.key c).0 e in
        let one = falls m x p c t k open_edge e in
        let same_degree : get c m ≡ some (pos (unmet x t.key (deps t))) =
          subst (λ j. get j m ≡ some (pos (unmet x t.key (deps t)))) eq k.1.0 in
        ground (
          arith,
          same_degree,
          g,
          one,
          get-put c t.key (pos n) m,
          same_iff t.key c,
          same_iff c t.key,
          e,
        )
    | inr e ↦
        let same_degree = stays x p c t e in
        ground (
          arith,
          k.1.0,
          same_degree,
          get-put c t.key (pos n) m,
          same_iff t.key c,
          same_iff c t.key,
          e,
        )
  ]

  ready_after :
      (m : Degrees) (x : Edges) (p c : String) (n : ℕ) (emitted : List String) (t : Node)
      → Known m x p c t
      → taken x p c ≡ false
      → get c m ≡ some (pos (suc n))
      → has t.key emitted ≡ (unmet x t.key (deps t) == 0)
      → has t.key (if n == 0 then emitted ++ c ∷ [] else emitted)
        ≡ (unmet ((p, c) ∷ x) t.key (deps t) == 0)
  unfolding has
  ready_after m x p c n emitted t k open_edge g r = elim (Bool-cases (same t.key c)) [
    | inl e ↦
        let eq : t.key ≡ c = (same_iff t.key c).0 e in
        let one = falls m x p c t k open_edge e in
        let same_degree : get c m ≡ some (pos (unmet x t.key (deps t))) =
          subst (λ j. get j m ≡ some (pos (unmet x t.key (deps t)))) eq k.1.0 in
        ground (
          arith,
          same_degree,
          g,
          one,
          r,
          same_iff t.key c,
          same_iff c t.key,
          e,
          has-append t.key emitted (c ∷ []),
        )
    | inr e ↦
        let same_degree = stays x p c t e in
        ground (
          arith,
          r,
          same_degree,
          same_iff t.key c,
          same_iff c t.key,
          e,
          has-append t.key emitted (c ∷ []),
        )
  ]

  met_after :
      (x : Edges) (p c : String) (emitted : List String) (t : Node)
      → ((d e : String) → taken x d e ≡ true → has d emitted ≡ true)
      → has p emitted ≡ true
      → unmet ((p, c) ∷ x) t.key (deps t) ≡ 0
      → All (λ d. has d emitted ≡ true) (deps t)
  met_after x p c emitted t src h z =
      All-map_of (λ d. taken ((p, c) ∷ x) d t.key ≡ true) (λ d. has d emitted ≡ true) (deps t)
        (λ d e. edge_source d (rw (taken-cons x p c d t.key) at e))
        (unmet-zero ((p, c) ∷ x) t.key (deps t) z)
    where
      edge_source :
          (d : String)
          → ((same p d && same c t.key) || taken x d t.key) ≡ true
          → has d emitted ≡ true
      edge_source d e = ground (arith, e, h, src d t.key, same_iff p d)

  visit_child-eq :
      (m : Degrees) (next : List String) (c : String) (n : ℕ)
      → get c m ≡ some (pos (suc n))
      → visit_child c (m, next) ≡ (put c (pos n) m, if n == 0 then next ++ c ∷ [] else next)
  unfolding visit_child
  visit_child-eq m next c n g = rw (visit_child, g, decrease-pos n 1 (suc n) (ground arith)) refl

  joined :
      (b : Bool) (base next : List String) (c : String)
      → base ++ (if b then next ++ c ∷ [] else next)
        ≡ (if b then (base ++ next) ++ c ∷ [] else base ++ next)
  joined true base next c = sym (append_assoc base next (c ∷ []))
  joined false base next c = refl

  emit-IsExact :
      (m : Degrees) (x : Edges) (p c : String) (n : ℕ) (emitted : List String)
      → IsExact tasks m emitted x
      → IsChild tasks x p c
      → has p emitted ≡ true
      → get c m ≡ some (pos (suc n))
      → All (Known m x p c) tasks
      → IsExact tasks (put c (pos n) m) (if n == 0 then emitted ++ c ∷ [] else emitted) ((p, c) ∷ x)
  emit-IsExact m x p c n emitted v ch h g k = record {
    degrees =
        All-map_of (Known m x p c)
          (λ t. get t.key (put c (pos n) m) ≡ some (pos (unmet ((p, c) ∷ x) t.key (deps t)))) tasks
          (λ t kt. degree_after m x p c n t kt ch.open_edge g) k;
    ready =
        All-map_of (λ t. Known m x p c t × (has t.key emitted ≡ (unmet x t.key (deps t) == 0)))
          (λ t.
            has t.key (if n == 0 then emitted ++ c ∷ [] else emitted)
            ≡ (unmet ((p, c) ∷ x) t.key (deps t) == 0))
          tasks (λ t both. ready_after m x p c n emitted t both.0 ch.open_edge g both.1)
          (All-both (Known m x p c) (λ t. has t.key emitted ≡ (unmet x t.key (deps t) == 0)) tasks k
            v.ready);
    sources = sources;
    ordered = ordered;
    known = known;
  }
    where
      Both : Node → Type 0
      Both t = Known m x p c t × (has t.key emitted ≡ (unmet x t.key (deps t) == 0))

      both : All Both tasks
      both =
          All-both (Known m x p c) (λ t. has t.key emitted ≡ (unmet x t.key (deps t) == 0)) tasks k
            v.ready

      left : (t : Node) → Known m x p c t → same t.key c ≡ true → unmet x t.key (deps t) ≡ suc n
      left t kt e =
          let same_degree : get c m ≡ some (pos (unmet x t.key (deps t))) =
            subst (λ j. get j m ≡ some (pos (unmet x t.key (deps t)))) ((same_iff t.key c).0 e)
              kt.1.0 in
          ground (arith, same_degree, g)

      new_key : has c emitted ≡ false
      new_key =
          let (t, (e, (kt, r))) = task_of Both tasks c ch.of_task both in
          let none_left = left t kt e in
          subst (λ j. has j emitted ≡ false) ((same_iff t.key c).0 e) (ground (arith, r, none_left))

      met : (n == 0) ≡ true → Met tasks emitted c
      met z =
          All-map_of (Known m x p c)
            (λ t. same t.key c ≡ true → All (λ d. has d emitted ≡ true) (deps t)) tasks
            (λ t kt e.
              let none_left = left t kt e in
              let one = falls m x p c t kt ch.open_edge e in
              met_after x p c emitted t v.sources h (ground (arith, none_left, one, z)))
            k

      ordered : Ordered tasks [] (if n == 0 then emitted ++ c ∷ [] else emitted)
      ordered = elim (Bool-cases (n == 0)) [
        | inl z ↦ rw z (Ordered-snoc tasks [] emitted c v.ordered new_key (met z))
        | inr z ↦ rw z v.ordered
      ]

      known : All (λ j. has j (keys tasks) ≡ true) (if n == 0 then emitted ++ c ∷ [] else emitted)
      known = elim (Bool-cases (n == 0)) [
        | inl z ↦
            rw z (
              All-append (λ j. has j (keys tasks) ≡ true) emitted (c ∷ []) v.known (ch.of_task, tt))
        | inr z ↦ rw z v.known
      ]

      grown :
          (d : String)
          → has d emitted ≡ true
          → has d (if n == 0 then emitted ++ c ∷ [] else emitted) ≡ true
      grown d e = elim (Bool-cases (n == 0)) [
        | inl z ↦ rw (z, has-append d emitted (c ∷ []), e) refl
        | inr z ↦ rw z e
      ]

      sources :
          (d e : String)
          → taken ((p, c) ∷ x) d e ≡ true
          → has d (if n == 0 then emitted ++ c ∷ [] else emitted) ≡ true
      sources d e tk =
          grown d (ground (arith, tk, h, v.sources d e, taken-cons x p c d e, same_iff p d))

  -- One child visited.
  pub visit_child-IsExact :
      (m : Degrees) (base next : List String) (x : Edges) (p c : String)
      → IsExact tasks m (base ++ next) x
      → IsChild tasks x p c
      → has p (base ++ next) ≡ true
      → let (m', next') = visit_child c (m, next) in IsExact tasks m' (base ++ next') ((p, c) ∷ x)
  visit_child-IsExact m base next x p c v ch h =
      let known : All (Known m x p c) tasks =
        All-both (λ t. Unique (deps t))
          (λ t.
            (get t.key m ≡ some (pos (unmet x t.key (deps t))))
            × (same t.key c ≡ true → has p (deps t) ≡ true))
          tasks lists
          (All-both (λ t. get t.key m ≡ some (pos (unmet x t.key (deps t))))
            (λ t. same t.key c ≡ true → has p (deps t) ≡ true) tasks v.degrees ch.depends) in
      let (t, (e, kt)) = task_of (Known m x p c) tasks c ch.of_task known in
      let n = unmet ((p, c) ∷ x) t.key (deps t) in
      let g : get c m ≡ some (pos (suc n)) =
        subst (λ j. get j m ≡ some (pos (suc n))) ((same_iff t.key c).0 e)
          (kt.1.0 ∙ ap (λ i. some (pos i)) (falls m x p c t kt ch.open_edge e)) in
      rw (visit_child-eq m next c n g, joined (n == 0) base next c)
        (emit-IsExact m x p c n (base ++ next) v ch h g known)
