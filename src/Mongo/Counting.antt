-- ===== src/Mongo/Counting.antt =====
-- How many documents pass a test, before and after an update.
use ai_distributed_workflow.Base.{
  ◌++◌, ◌∙◌, ℕ, ◌+◌, ◌≡◌, refl, Bool, true, false, none, some, List, [], ◌∷◌, count, first, arith,
  ap, All, length, sym, Bool-cases, any, inl, inr,
}
use ai_distributed_workflow.Mongo.Driver.{change_first, change_all, store_all}

abbrev pub bit : Bool → ℕ
bit true = 1
bit false = 0

module _ {A : Type 0} where
  pub count-cons : (q : A → Bool) (x : A) (xs : List A) → count q (x ∷ xs) ≡ bit (q x) + count q xs
  count-cons q x xs = ground arith

  pub change_first-none :
      (p : A → Bool) (f : A → A) (xs : List A) → first p xs ≡ none → change_first p f xs ≡ xs
  change_first-none p f [] h = refl
  change_first-none p f (x ∷ xs) h = ground (arith, change_first-none p f xs)

  pub first_passes : (p : A → Bool) (xs : List A) {x : A} → first p xs ≡ some x → p x ≡ true
  first_passes p [] h = ground arith
  first_passes p (y ∷ xs) {x} h = ground (arith, first_passes p xs {x = x})

  -- Only the first match `x` is exchanged for `f x`.
  pub count-change_first :
      (q p : A → Bool) (f : A → A) (xs : List A) {x : A}
      → first p xs ≡ some x
      → count q (change_first p f xs) + bit (q x) ≡ count q xs + bit (q (f x))
  count-change_first q p f [] h = ground arith
  count-change_first q p f (y ∷ xs) {x} h =
      ground (arith, count-change_first q p f xs {x = x}, count-cons q (f y) xs)

  -- An update of which the test takes no notice.
  pub count-change_first_same :
      (q p : A → Bool) (f : A → A) (xs : List A)
      → ((x : A) → p x ≡ true → q (f x) ≡ q x)
      → count q (change_first p f xs) ≡ count q xs
  count-change_first_same q p f [] h = refl
  count-change_first_same q p f (x ∷ xs) h = ground (arith, h x, count-change_first_same q p f xs h)

  pub count-change_all_same :
      (q p : A → Bool) (f : A → A) (xs : List A)
      → ((x : A) → p x ≡ true → q (f x) ≡ q x)
      → count q (change_all p f xs) ≡ count q xs
  count-change_all_same q p f [] h = refl
  count-change_all_same q p f (x ∷ xs) h = ground (arith, h x, count-change_all_same q p f xs h)

  -- An update after which no changed document passes, where each passed before.
  pub count-change_all_out :
      (q p : A → Bool) (f : A → A) (xs : List A)
      → ((x : A) → p x ≡ true → (q x ≡ true) × (q (f x) ≡ false))
      → count q xs ≡ count q (change_all p f xs) + count p xs
  count-change_all_out q p f [] h = omega arith
  count-change_all_out q p f (x ∷ xs) h = ground (arith, h x, count-change_all_out q p f xs h)

  pub count_none : (q : A → Bool) (xs : List A) → ((x : A) → q x ≡ false) → count q xs ≡ 0
  count_none q [] h = refl
  count_none q (x ∷ xs) h = ground (arith, h x, count_none q xs h)

  -- An update that takes away every document that passes.
  pub count-change_all_swept :
      (q p : A → Bool) (f : A → A) (xs : List A)
      → ((x : A) → p x ≡ true → q (f x) ≡ false)
      → ((x : A) → p x ≡ false → q x ≡ false)
      → count q (change_all p f xs) ≡ 0
  count-change_all_swept q p f [] h k = refl
  count-change_all_swept q p f (x ∷ xs) h k =
      ground (arith, h x, k x, count-change_all_swept q p f xs h k)

  pub count_out : (q : A → Bool) (xs : List A) → All (λ x. q x ≡ false) xs → count q xs ≡ 0
  count_out q [] h = refl
  count_out q (x ∷ xs) h = ground (arith, h.0, count_out q xs h.1)

  pub count_in : (q : A → Bool) (xs : List A) → All (λ x. q x ≡ true) xs → count q xs ≡ length xs
  count_in q [] h = refl
  count_in q (x ∷ xs) h = ground (arith, h.0, count_in q xs h.1)

  pub append_nil : (xs : List A) → xs ++ [] ≡ xs
  append_nil [] = refl
  append_nil (x ∷ xs) = ap (λ zs. x ∷ zs) (append_nil xs)

  pub append_snoc : (xs : List A) (y : A) (ys : List A) → (xs ++ y ∷ []) ++ ys ≡ xs ++ y ∷ ys
  append_snoc [] y ys = refl
  append_snoc (x ∷ xs) y ys = ap (λ zs. x ∷ zs) (append_snoc xs y ys)

  -- Documents that clash with none are added at the end.
  pub store_all-append :
      (clash : A → A → Bool) (ys xs : List A) {zs : List A}
      → store_all clash ys xs ≡ some zs
      → zs ≡ xs ++ ys
  store_all-append clash [] xs {zs} h =
      let same : xs ≡ zs = ground arith in sym same ∙ sym (append_nil xs)
  store_all-append clash (y ∷ ys) xs {zs} h = elim (Bool-cases (any (clash y) xs)) [
    | inl q ↦
        let none_left : none ≡ some zs = rw (q, store_all) at h in
        absurd (ground (arith, none_left))
    | inr q ↦
        let rest : store_all clash ys (xs ++ y ∷ []) ≡ some zs = rw (q, store_all) at h in
        store_all-append clash ys (xs ++ y ∷ []) rest ∙ append_snoc xs y ys
  ]
