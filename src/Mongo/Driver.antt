-- ===== src/Mongo/Driver.antt =====
-- The operations of the driver that the program calls, and their documented behaviour.
use ai_distributed_workflow.Base.{
  ℕ, zero, suc, ◌≡◌, Bool, Option, none, some, List, [], ◌∷◌, ◌++◌, keep, any, count, first,
  if◌then◌else◌, map,
}
use ai_distributed_workflow.Base.Result.{Call, settle}

pub record Mongo : Type 1 where
  pub find : {A : Type 0} → (A → Bool) → List A → List A
  pub find_limited : {A : Type 0} → (A → Bool) → ℕ → List A → List A
  pub find_one : {A : Type 0} → (A → Bool) → List A → Option A
  -- The collection after the update, and how many documents matched.
  pub update_one : {A : Type 0} → (A → Bool) → (A → A) → List A → List A × ℕ
  pub update_many : {A : Type 0} → (A → Bool) → (A → A) → List A → List A × ℕ
  -- With `returnDocument: "after"`.
  pub find_one_and_update : {A : Type 0} → (A → Bool) → (A → A) → List A → List A × Option A
  -- The test says which stored documents clash on a unique index; `none` is error E11000.
  pub insert : {A : Type 0} → (A → A → Bool) → A → List A → Option (List A)
  pub insert_many : {A : Type 0} → (A → A → Bool) → List A → List A → Option (List A)
  -- `connection.transaction(body)`
  pub transaction : {S E A : Type 0} → Call S E A → Call S E A

module _ {A : Type 0} where
  -- `limit(n)`: at most `n` of the documents, where 0 is no limit.
  abbrev pub at_most : ℕ → List A → List A
  at_most zero xs = []
  at_most (suc n) [] = []
  at_most (suc n) (x ∷ xs) = x ∷ at_most n xs

  abbrev pub limited : ℕ → List A → List A
  limited zero xs = xs
  limited (suc n) xs = at_most (suc n) xs

  -- The first document that passes is changed.
  abbrev pub change_first : (A → Bool) → (A → A) → List A → List A
  change_first p f [] = []
  change_first p f (x ∷ xs) = let rest = change_first p f xs in if p x then f x ∷ xs else x ∷ rest

  abbrev pub change_all : (A → Bool) → (A → A) → List A → List A
  change_all p f xs = map (λ x. if p x then f x else x) xs

  abbrev pub changed : (A → A) → Option A → Option A
  changed f none = none
  changed f (some x) = some (f x)

  abbrev pub one_of : Option A → ℕ
  one_of none = 0
  one_of (some x) = 1

  abbrev pub store : (A → A → Bool) → A → List A → Option (List A)
  store clash x xs = if any (clash x) xs then none else some (xs ++ x ∷ [])

  abbrev pub store_all : (A → A → Bool) → List A → List A → Option (List A)
  store_all clash [] xs = some xs
  store_all clash (y ∷ ys) xs = elim (store clash y xs) [
    | none ↦ none
    | some xs' ↦ store_all clash ys xs'
  ]

pub record IsMongo (m : Mongo) : Type 1 where
  pub find_lem : {A : Type 0} (p : A → Bool) (xs : List A) → m.find p xs ≡ keep p xs
  pub find_limited_lem :
      {A : Type 0} (p : A → Bool) (n : ℕ) (xs : List A)
      → m.find_limited p n xs ≡ limited n (keep p xs)
  pub find_one_lem : {A : Type 0} (p : A → Bool) (xs : List A) → m.find_one p xs ≡ first p xs
  pub update_one_lem :
      {A : Type 0} (p : A → Bool) (f : A → A) (xs : List A)
      → m.update_one p f xs ≡ (change_first p f xs, one_of (first p xs))
  pub update_many_lem :
      {A : Type 0} (p : A → Bool) (f : A → A) (xs : List A)
      → m.update_many p f xs ≡ (change_all p f xs, count p xs)
  pub find_one_and_update_lem :
      {A : Type 0} (p : A → Bool) (f : A → A) (xs : List A)
      → m.find_one_and_update p f xs ≡ (change_first p f xs, changed f (first p xs))
  pub insert_lem :
      {A : Type 0} (clash : A → A → Bool) (x : A) (xs : List A)
      → m.insert clash x xs ≡ store clash x xs
  pub insert_many_lem :
      {A : Type 0} (clash : A → A → Bool) (ys xs : List A)
      → m.insert_many clash ys xs ≡ store_all clash ys xs
  pub transaction_lem :
      {S E A : Type 0} (body : Call S E A) (s : S) → m.transaction body s ≡ settle s (body s)
