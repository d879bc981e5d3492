-- ===== src/Services/Workflows/Editing.antt =====
-- Two edits of one version of a workflow, in `update` of src/services/workflow.service.js.
use ai_distributed_workflow.Base.{
  ℕ, suc, ◌≡◌, ◌<◌, ◌==◌, ◌&&◌, Bool, true, none, some, Option-cases, List, [], ◌∷◌, All,
  All-append, arith, sym, subst, refl, Bool-cases, inl, inr, first, All-first, ap, ◌∙◌,
}
use ai_distributed_workflow.Base.Result.{ok, err}
use ai_distributed_workflow.Mongo.Keyed.{All-change_first, only_first}
use ai_distributed_workflow.Mongo.Counting.{first_passes, change_first-none}
use ai_distributed_workflow.Mongo.Driver.{Mongo, IsMongo, change_first}
use ai_distributed_workflow.Mongo.Reference.{reference, for_every_driver}
use ai_distributed_workflow.Scheduler.Cron.{CronParser}
use ai_distributed_workflow.Services.Executions.{User}
use ai_distributed_workflow.Services.Workflows.{
  Document, Workflows, Definition, Error, update, visible, redefined, why_unmatched, set_documents,
}
use ai_distributed_workflow.Services.Workflows.Changes.{
  Later, after, unchanged, nothing, Shape, added, edited, untouched, Change-Shape,
  assert_valid_graph-cases,
}
use ai_distributed_workflow.Services.Workflows.Stored.{
  IsKept, Later-IsKept, nothing-IsKept, All-edited,
}

-- Workflow `id` exists or existed, and is beyond the version.
pub record IsBeyond (id version : ℕ) (s : Workflows) : Type 0 where
  pub old : id < s.issued
  pub above : All (λ w. (w.id == id) ≡ true → version < w.version) s.documents

abbrev edits : User → ℕ → ℕ → Document → Bool
edits user id version w = visible user id w && w.version == version

Shape-IsBeyond :
    (id version : ℕ) (s s' : Workflows)
    → Shape s s'
    → IsBeyond id version s
    → IsBeyond id version s'
Shape-IsBeyond id version s _ untouched k = k
Shape-IsBeyond id version s _ (added w new g) k =
    let lt = k.old in
    record {
      old = ground (arith, lt);
      above =
          All-append _ s.documents (w ∷ []) k.above
            ((λ h. absurd (ground (arith, h, new, lt))), tt);
    }
Shape-IsBeyond id version s _ (edited p f e) k = record {
  old = k.old;
  above =
      All-edited _ p f s.documents
        (λ w h q.
          ground (arith, h (subst (λ i. (i == id) ≡ true) (e.same_id w) q), e.version_kept w))
        k.above;
}

Later-IsBeyond :
    (c : CronParser) (id version : ℕ) (s s' : Workflows)
    → Later reference c s s'
    → IsBeyond id version s
    → IsBeyond id version s'
Later-IsBeyond c id version s _ unchanged k = k
Later-IsBeyond c id version s _ (after l ch) k =
    Shape-IsBeyond id version _ _ (Change-Shape c _ _ ch) (Later-IsBeyond c id version s _ l k)

-- The update of the one document with the id and the version.
updated-IsBeyond :
    (user : User) (id version : ℕ) (b : Definition) (s : Workflows) {w : Document}
    → IsKept s
    → first (edits user id version) s.documents ≡ some w
    → IsBeyond id version
        (set_documents (change_first (edits user id version) (redefined b) s.documents) s)
updated-IsBeyond user id version b s {w} k h =
    let p = edits user id version in
    let hit : p w ≡ true = first_passes p s.documents h in
    let lt = All-first (λ v. v.id < s.issued) p s.documents k.drawn h in
    record {
      old = ground (arith, lt, hit);
      above =
          All-change_first (λ v. v.id) (λ v. (v.id == id) ≡ true → v ≡ w) _ id p (redefined b)
            s.documents (λ v q. ground (arith, q)) k.distinct (λ v q _ _. ground (arith, q))
            (λ v q one same.
              absurd (ground (arith, q, subst (λ x. p x ≡ true) (sym (one same)) hit)))
            (only_first (λ v. v.id) id p s.documents (λ v q. ground (arith, q)) k.distinct h);
    }

none_edited :
    (user : User) (id version : ℕ) (xs : List Document)
    → All (λ w. (w.id == id) ≡ true → version < w.version) xs
    → first (edits user id version) xs ≡ none
none_edited user id version [] a = refl
none_edited user id version (x ∷ xs) (h, a) =
    let rest = none_edited user id version xs a in
    elim (Bool-cases (edits user id version x)) [
      | inl e ↦ absurd (ground (arith, e, h))
      | inr e ↦ rw e rest
    ]

-- `update` throws and changes nothing.
abbrev pub Refused : Mongo → User → ℕ → ℕ → Definition → Workflows → Type 0
Refused m user id version b s = (e : Error) × (update m user id version b s ≡ (err e, s))

beyond-Refused :
    (user : User) (id version : ℕ) (b : Definition) (s : Workflows)
    → IsBeyond id version s
    → Refused reference user id version b s
unfolding update
beyond-Refused user id version b s k = elim (assert_valid_graph-cases b.tasks) [
  | inr (e, h) ↦ (e, rw h refl)
  | inl (g, h) ↦
      let gone = none_edited user id version s.documents k.above in
      (
        why_unmatched (first (visible user id) s.documents),
        rw (h, gone, change_first-none (edits user id version) (redefined b) s.documents gone) refl,
      )
]

-- What `update` did when it returned a document.
updated :
    (user : User) (id version : ℕ) (b : Definition) (s s' : Workflows) (w : Document)
    → update reference user id version b s ≡ (ok w, s')
    → (v : Document) × ((first (edits user id version) s.documents ≡ some v)
        × (redefined b v ≡ w)
        × (set_documents (change_first (edits user id version) (redefined b) s.documents) s ≡ s'))
unfolding update
updated user id version b s s' w u = elim (assert_valid_graph-cases b.tasks) [
  | inr (e, h) ↦
      let shown : update reference user id version b s ≡ (err e, s) = rw h refl in
      absurd (ground (arith, ap (λ r. r.0) (sym u ∙ shown)))
  | inl (g, h) ↦
      let p = edits user id version in
      let t = set_documents (change_first p (redefined b) s.documents) s in
      elim (Option-cases (first p s.documents)) [
        | inl none_found ↦
            let shown : update reference user id version b s
                ≡ (err (why_unmatched (first (visible user id) t.documents)), t) =
              rw (h, none_found) refl in
            absurd (ground (arith, ap (λ r. r.0) (sym u ∙ shown)))
        | inr (v, found) ↦
            let shown : update reference user id version b s ≡ (ok (redefined b v), t) =
              rw (h, found) refl in
            (
              v,
              (found, ground (arith, ap (λ r. r.0) (sym shown ∙ u)), ap (λ r. r.1) (sym shown ∙ u)),
            )
      ]
]

-- In every state that users and the scheduler can bring about: when `update` accepts an edit of a
-- version, it returns a document with the new tasks and the next version, and after any further calls
-- each other edit of the old version, by whomever, throws and changes nothing.
pub update_once :
    (m : Mongo)
    → IsMongo m
    → (c : CronParser) (s s' s'' : Workflows) (user other : User) (id version : ℕ)
      (b b' : Definition) (w : Document)
    → Later m c nothing s
    → update m user id version b s ≡ (ok w, s')
    → Later m c s' s''
    → (w.version ≡ suc version) × (w.tasks ≡ b.tasks) × Refused m other id version b' s''
update_once m laws c s s' s'' user other id version b b' w before done later =
    for_every_driver
      (λ m.
        Later m c nothing s
        → update m user id version b s ≡ (ok w, s')
        → Later m c s' s''
        → (w.version ≡ suc version) × (w.tasks ≡ b.tasks) × Refused m other id version b' s'')
      by_reference m laws before done later
  where
    by_reference :
        Later reference c nothing s
        → update reference user id version b s ≡ (ok w, s')
        → Later reference c s' s''
        → (w.version ≡ suc version)
          × (w.tasks ≡ b.tasks)
          × Refused reference other id version b' s''
    by_reference before done later =
        let (v, (found, same, moved)) = updated user id version b s s' w done in
        let hit = first_passes (edits user id version) s.documents found in
        let beyond =
          updated-IsBeyond user id version b s (Later-IsKept c nothing s before nothing-IsKept)
            found in
        (
          sym (ap (λ x. x.version) same) ∙ ground (arith, hit),
          sym (ap (λ x. x.tasks) same),
          beyond-Refused other id version b' s''
              (Later-IsBeyond c id version s' s'' later (subst (IsBeyond id version) moved beyond)),
        )
