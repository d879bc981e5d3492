-- ===== src/Services/Canonical/Sorting.antt =====
-- The order of keys in src/services/execution.service.js: canonical sorts them, so that the order in
-- which an object has them makes no difference.
use ai_distributed_workflow.Base.{
  ◌≡◌, refl, true, false, List, [], ◌∷◌, arith, Bool-cases, inl, inr, ap, not, ◌∙◌,
}
use ai_distributed_workflow.Engine.Model.{Text}
use ai_distributed_workflow.Services.Canonical.{leb_text, same_text, insert_key}

leb_text_trans : (s t u : Text) → leb_text s t ≡ true → leb_text t u ≡ true → leb_text s u ≡ true
leb_text_trans [] t u h k = refl
leb_text_trans (c ∷ s) [] u h k = absurd (ground (arith, h))
leb_text_trans (c ∷ s) (d ∷ t) [] h k = absurd (ground (arith, k))
leb_text_trans (c ∷ s) (d ∷ t) (e ∷ u) h k = ground (arith, h, k, leb_text_trans s t u)

-- Of two different texts one comes first.
leb_text_flip : (s t : Text) → same_text s t ≡ false → leb_text t s ≡ not (leb_text s t)
leb_text_flip [] [] h = absurd (ground (arith, h))
leb_text_flip [] (d ∷ t) h = refl
leb_text_flip (c ∷ s) [] h = refl
leb_text_flip (c ∷ s) (d ∷ t) h = ground (arith, h, leb_text_flip s t)

pub insert_key-swap :
    (a b : Text) (xs : List Text)
    → same_text a b ≡ false
    → insert_key a (insert_key b xs) ≡ insert_key b (insert_key a xs)
insert_key-swap a b [] h =
    let flip = leb_text_flip a b h in
    elim (Bool-cases (leb_text a b)) [
      | inl e ↦ rw (e, flip ∙ ap not e) refl
      | inr e ↦ rw (e, flip ∙ ap not e) refl
    ]
insert_key-swap a b (x ∷ xs) h =
    let flip = leb_text_flip a b h in
    elim (Bool-cases (leb_text a x)) [
      | inl p ↦ elim (Bool-cases (leb_text b x)) [
        | inl q ↦ elim (Bool-cases (leb_text a b)) [
          | inl e ↦ rw (p, q, e, flip ∙ ap not e) refl
          | inr e ↦ rw (p, q, e, flip ∙ ap not e, p) refl
        ]
        | inr q ↦
            let back : leb_text b a ≡ false = elim (Bool-cases (leb_text b a)) [
              | inl o ↦ absurd (ground (arith, q, leb_text_trans b a x o p))
              | inr o ↦ o
            ] in
            rw (p, q, back, p) refl
      ]
      | inr p ↦ elim (Bool-cases (leb_text b x)) [
        | inl q ↦
            let back : leb_text a b ≡ false = elim (Bool-cases (leb_text a b)) [
              | inl o ↦ absurd (ground (arith, p, leb_text_trans a b x o q))
              | inr o ↦ o
            ] in
            rw (p, q, back, p) refl
        | inr q ↦ rw (p, q, p) (ap (λ ys. x ∷ ys) (insert_key-swap a b xs h))
      ]
    ]
