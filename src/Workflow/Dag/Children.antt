-- ===== src/Workflow/Dag/Children.antt =====
-- The map of children that kahn in src/workflow/dag.js builds.
use mathlib.Core.List.{append_assoc}
use ai_distributed_workflow.Mongo.Counting.{append_nil}
use ai_distributed_workflow.Base.{
  subst, refl, ◌≡◌, arith, true, false, some, List, [], ◌∷◌, ◌++◌, String, same, same_iff,
  same_refl, All, All-map_of, Bool-cases, inl, inr, if◌then◌else◌, keep, sym, ◌∙◌,
}
use ai_distributed_workflow.Base.Dict.{has, get, put, get-put}
use ai_distributed_workflow.Workflow.Dag.{
  Node, deps, keys, Children, no_children, push_child, push_deps, add_children, children_of,
}
use ai_distributed_workflow.Workflow.Dag.Sets.{Unique}
use ai_distributed_workflow.Workflow.Dag.Clean.{IsClean}
use ai_distributed_workflow.Workflow.Dag.Rounds.{IsChildren}

abbrev Entry : Children → String → Type 0
Entry m d = (ks : List String) × (get d m ≡ some ks)

get-no_children :
    (m : Children) (ts : List Node) (p : String)
    → get p (no_children m ts) ≡ (if has p (keys ts) then some [] else get p m)
unfolding no_children has
get-no_children m [] p = refl
get-no_children m (t ∷ ts) p =
    ground (arith, get-no_children (put t.key [] m) ts p, get-put t.key p [] m)

pushed :
    (key d p : String) (m : Children) (ks : List String)
    → get d m ≡ some ks
    → children_of (put d (ks ++ key ∷ []) m) p
      ≡ (if same d p then children_of m p ++ key ∷ [] else children_of m p)
pushed key d p m ks h = elim (Bool-cases (same d p)) [
  | inl e ↦
      let there : get p m ≡ some ks = subst (λ j. get j m ≡ some ks) ((same_iff d p).0 e) h in
      ground (arith, e, there, get-put d p (ks ++ key ∷ []) m)
  | inr e ↦ ground (arith, e, get-put d p (ks ++ key ∷ []) m)
]

Entry-put :
    (d : String) (v : List String) (m : Children) (p : String) → Entry m p → Entry (put d v m) p
Entry-put d v m p (ks, g) = elim (Bool-cases (same d p)) [
  | inl e ↦ (v, ground (arith, e, get-put d p v m))
  | inr e ↦ (ks, ground (arith, e, g, get-put d p v m))
]

push_deps-some :
    (key : String) (ds : List String) (m : Children)
    → Unique ds
    → All (Entry m) ds
    → (m' : Children) × ((push_deps key ds m ≡ some m')
        × (((p : String)
              → children_of m' p
                ≡ (if has p ds then children_of m p ++ key ∷ [] else children_of m p))
            × ((p : String) → Entry m p → Entry m' p)))
unfolding push_deps push_child has
push_deps-some key [] m u a = (m, (refl, (λ p. refl, λ p e. e)))
push_deps-some key (d ∷ ds) m (n, u) ((ks, g), a) =
    let m1 = put d (ks ++ key ∷ []) m in
    let (m', (eq, (lists, entries))) =
      push_deps-some key ds m1 u
        (All-map_of (Entry m) (Entry m1) ds (λ p e. Entry-put d (ks ++ key ∷ []) m p e) a) in
    (
      m',
      (
        rw (push_deps, push_child, g) eq,
        (
          λ p. ground (arith, n, lists p, pushed key d p m ks g, same_iff d p),
          λ p e. entries p (Entry-put d (ks ++ key ∷ []) m p e),
        ),
      ),
    )

-- The children of a task, in the order of the tasks.
abbrev pub dependents : String → List Node → List String
dependents p ts = keys (keep (λ t. has p (deps t)) ts)

add_children-some :
    (ts : List Node) (m : Children)
    → All (λ t. Unique (deps t)) ts
    → All (λ t. All (Entry m) (deps t)) ts
    → (m' : Children) × ((add_children ts m ≡ some m')
        × ((p : String) → children_of m' p ≡ children_of m p ++ dependents p ts))
unfolding add_children
add_children-some [] m us es = (m, (refl, λ p. sym (append_nil (children_of m p))))
add_children-some (t ∷ ts) m (u, us) (e, es) =
    let (m1, (eq1, (lists1, entries1))) = push_deps-some t.key (deps t) m u e in
    let (m', (eq, lists)) =
      add_children-some ts m1 us
        (All-map_of _ _ ts (λ s h. All-map_of _ _ (deps s) (λ d k. entries1 d k) h) es) in
    (
      m',
      (
        rw (add_children, eq1) eq,
        λ p. elim (Bool-cases (has p (deps t))) [
          | inl yes_ ↦ rw yes_ (
              lists p
              ∙ rw (lists1 p, yes_) (append_assoc (children_of m p) (t.key ∷ []) (dependents p ts)))
          | inr no_ ↦ rw no_ (lists p ∙ rw (lists1 p, no_) refl)
        ],
      ),
    )

absent_dependents :
    (p c : String) (ts : List Node) → has c (keys ts) ≡ false → has c (dependents p ts) ≡ false
unfolding has
absent_dependents p c [] h = refl
absent_dependents p c (t ∷ ts) h = ground (arith, h, absent_dependents p c ts)

Unique-dependents : (p : String) (ts : List Node) → Unique (keys ts) → Unique (dependents p ts)
Unique-dependents p [] u = tt
Unique-dependents p (t ∷ ts) (n, u) = elim (Bool-cases (has p (deps t))) [
  | inl e ↦ rw e (absent_dependents p t.key ts n, Unique-dependents p ts u)
  | inr e ↦ rw e (Unique-dependents p ts u)
]

dependents-known :
    (p c : String) (ts : List Node) → has c (dependents p ts) ≡ true → has c (keys ts) ≡ true
unfolding has
dependents-known p c [] h = h
dependents-known p c (t ∷ ts) h = ground (arith, h, dependents-known p c ts)

-- A key stands among the children of `p` exactly when its task depends on `p`.
dependents-exact :
    (p : String) (ts : List Node)
    → Unique (keys ts)
    → All (λ t. has t.key (dependents p ts) ≡ has p (deps t)) ts
unfolding has
dependents-exact p [] u = tt
dependents-exact p (t ∷ ts) (n, u) = (
  ground (arith, absent_dependents p t.key ts n, same_refl t.key),
  shifted ts n (dependents-exact p ts u),
)
  where
    shifted :
        (us : List Node)
        → has t.key (keys us) ≡ false
        → All (λ s. has s.key (dependents p ts) ≡ has p (deps s)) us
        → All (λ s. has s.key (dependents p (t ∷ ts)) ≡ has p (deps s)) us
    shifted [] m a = tt
    shifted (s ∷ us) m (h, a) = (
      ground (arith, h, m, same_iff t.key s.key, same_iff s.key t.key),
      shifted us (ground (arith, m)) a,
    )

All-swap :
    (Q : String → Node → Type 0) (ts : List Node)
    → ((p : String) → All (Q p) ts)
    → All (λ t. (p : String) → Q p t) ts
All-swap Q [] a = tt
All-swap Q (t ∷ ts) a = (λ p. (a p).0, All-swap Q ts (λ p. (a p).1))

pub children_built :
    (tasks : List Node)
    → IsClean tasks
    → (ch : Children) × ((add_children tasks (no_children [] tasks) ≡ some ch)
        × IsChildren tasks ch)
unfolding get
children_built tasks c =
    let m = no_children [] tasks in
    let entries =
      All-map_of _ _ tasks
        (λ t a. All-map_of _ _ (deps t) (λ d h. ([], get-no_children [] tasks d ∙ rw h refl)) a)
        c.known in
    let (ch, (eq, lists)) = add_children-some tasks m c.lists entries in
    let exact : (p : String) → children_of ch p ≡ dependents p tasks = λ p. lists p ∙ empty p in
    (
      ch,
      (
        eq,
        record {
          unique = λ p. rw (exact p) (Unique-dependents p tasks c.unique);
          complete =
              All-swap (λ p t. has p (deps t) ≡ true → has t.key (children_of ch p) ≡ true) tasks
                (λ p.
                  rw (exact p)
                    (All-map_of _ _ tasks (λ t h k. h ∙ k) (dependents-exact p tasks c.unique)));
          of_task = λ p k h. dependents-known p k tasks (rw (exact p) at h);
          depends = λ p k h.
              let there : has k (dependents p tasks) ≡ true = rw (exact p) at h in
              All-map_of _ _ tasks
                (λ t e same_key.
                  sym e
                  ∙ subst (λ j. has j (dependents p tasks) ≡ true)
                      (sym ((same_iff t.key k).0 same_key)) there)
                (dependents-exact p tasks c.unique);
        },
      ),
    )
  where
    empty :
        (p : String)
        → children_of (no_children [] tasks) p ++ dependents p tasks ≡ dependents p tasks
    empty p = elim (Bool-cases (has p (keys tasks))) [
      | inl e ↦ rw (get-no_children [] tasks p, e) refl
      | inr e ↦ rw (get-no_children [] tasks p, e) refl
    ]
