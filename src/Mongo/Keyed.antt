-- ===== src/Mongo/Keyed.antt =====
-- Collections whose documents have different ids, and updates that filter by an id.
use ai_distributed_workflow.Base.{
  ◌++◌, ℕ, ◌≡◌, Bool, true, false, some, List, [], ◌∷◌, ◌==◌, first, Bool-cases, inl, inr, arith,
  All, All-map_of, All-append,
}
use ai_distributed_workflow.Mongo.Driver.{change_first, change_all}
use ai_distributed_workflow.Mongo.Counting.{first_passes}

module _ {A : Type 0} (ident : A → ℕ) where
  abbrev pub Other : ℕ → A → Type 0
  Other i y = (ident y == i) ≡ false

  -- No two documents have one id.
  abbrev pub Distinct : List A → Type 0
  Distinct [] = Unit
  Distinct (x ∷ xs) = All (Other (ident x)) xs × Distinct xs

  -- An update that leaves the ids alone.
  abbrev pub KeepsId : (A → A) → Type 0
  KeepsId f = (x : A) → ident (f x) ≡ ident x

  Other-change_first :
      (i : ℕ) (p : A → Bool) (f : A → A) (xs : List A)
      → KeepsId f
      → All (Other i) xs
      → All (Other i) (change_first p f xs)
  Other-change_first i p f [] k h = tt
  Other-change_first i p f (x ∷ xs) k h = ground (arith, Other-change_first i p f xs k h.1, k x)

  pub Distinct-change_first :
      (p : A → Bool) (f : A → A) (xs : List A)
      → KeepsId f
      → Distinct xs
      → Distinct (change_first p f xs)
  Distinct-change_first p f [] k d = tt
  Distinct-change_first p f (x ∷ xs) k d =
      ground
        (arith, Distinct-change_first p f xs k d.1, Other-change_first (ident x) p f xs k d.0, k x)

  Other-change_all :
      (i : ℕ) (p : A → Bool) (f : A → A) (xs : List A)
      → KeepsId f
      → All (Other i) xs
      → All (Other i) (change_all p f xs)
  Other-change_all i p f [] k h = tt
  Other-change_all i p f (x ∷ xs) k h = ground (arith, Other-change_all i p f xs k h.1, k x)

  pub Distinct-change_all :
      (p : A → Bool) (f : A → A) (xs : List A)
      → KeepsId f
      → Distinct xs
      → Distinct (change_all p f xs)
  Distinct-change_all p f [] k d = tt
  Distinct-change_all p f (x ∷ xs) k d =
      ground (arith, Distinct-change_all p f xs k d.1, Other-change_all (ident x) p f xs k d.0, k x)

  -- A filter that only documents with id `i` pass.
  abbrev pub Selects : ℕ → (A → Bool) → Type 0
  Selects i p = (x : A) → p x ≡ true → (ident x == i) ≡ true

  -- With different ids, `change_first` changes every document that passes such a filter.
  pub All-change_first {κ} :
      (P Q : A → Type κ) (i : ℕ) (p : A → Bool) (f : A → A) (xs : List A)
      → Selects i p
      → Distinct xs
      → ((x : A) → p x ≡ true → P x → Q (f x))
      → ((x : A) → p x ≡ false → P x → Q x)
      → All P xs
      → All Q (change_first p f xs)
  All-change_first P Q i p f [] sel d hit miss h = tt
  All-change_first P Q i p f (x ∷ xs) sel d hit miss h = elim (Bool-cases (p x)) [
    | inl e ↦ rw e (hit x e h.0, rest e xs d.0 h.1)
    | inr e ↦ rw e (miss x e h.0, All-change_first P Q i p f xs sel d.1 hit miss h.1)
  ]
    where
      missed : (y : A) → Other (ident x) y → p x ≡ true → p y ≡ false
      missed y o e = ground (arith, sel x e, sel y)

      rest : p x ≡ true → (ys : List A) → All (Other (ident x)) ys → All P ys → All Q ys
      rest e [] o hs = tt
      rest e (y ∷ ys) o hs = (miss y (missed y o.0 e) hs.0, rest e ys o.1 hs.1)

  first-Other :
      (j : ℕ) (p : A → Bool) (xs : List A) {x : A}
      → All (Other j) xs
      → first p xs ≡ some x
      → (ident x == j) ≡ false
  first-Other j p [] o h = ground arith
  first-Other j p (y ∷ xs) {x} o h = ground (arith, first-Other j p xs {x = x} o.1)

  -- The changed document is the one that its id finds.
  pub first-change_first :
      (i : ℕ) (p : A → Bool) (f : A → A) (xs : List A) {x : A}
      → Selects i p
      → KeepsId f
      → Distinct xs
      → first p xs ≡ some x
      → first (λ y. ident y == i) (change_first p f xs) ≡ some (f x)
  first-change_first i p f [] sel k d h = ground arith
  first-change_first i p f (y ∷ xs) {x} sel k d h = elim (Bool-cases (p y)) [
    | inl e ↦ ground (arith, sel y e, k y)
    | inr e ↦
        let there : first p xs ≡ some x = rw e at h in
        let other : (ident x == ident y) ≡ false = first-Other (ident y) p xs d.0 there in
        let hit : (ident x == i) ≡ true = sel x (first_passes p xs there) in
        let miss : (ident y == i) ≡ false = ground arith in
        rw (e, miss) (first-change_first i p f xs sel k d.1 there)
  ]

  -- It is the only document with that id.
  pub only_first :
      (i : ℕ) (p : A → Bool) (xs : List A) {x : A}
      → Selects i p
      → Distinct xs
      → first p xs ≡ some x
      → All (λ y. (ident y == i) ≡ true → y ≡ x) xs
  only_first i p [] sel d h = tt
  only_first i p (y ∷ xs) {x} sel d h = elim (Bool-cases (p y)) [
    | inl e ↦
        let same : y ≡ x = ground arith in
        (
          λ _. same,
          All-map_of (Other (ident y)) (λ z. (ident z == i) ≡ true → z ≡ x) xs
              (λ z o q. ground (arith, sel y e)) d.0,
        )
    | inr e ↦
        let there : first p xs ≡ some x = rw e at h in
        let other : (ident x == ident y) ≡ false = first-Other (ident y) p xs d.0 there in
        let hit : (ident x == i) ≡ true = sel x (first_passes p xs there) in
        (λ q. ground arith, only_first i p xs sel d.1 there)
  ]

  pub Distinct-append :
      (xs ys : List A)
      → Distinct xs
      → Distinct ys
      → All (λ x. All (Other (ident x)) ys) xs
      → Distinct (xs ++ ys)
  Distinct-append [] ys dx dy o = dy
  Distinct-append (x ∷ xs) ys dx dy o =
      (All-append (Other (ident x)) xs ys dx.0 o.0, Distinct-append xs ys dx.1 dy o.1)
