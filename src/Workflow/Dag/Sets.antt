-- ===== src/Workflow/Dag/Sets.antt =====
-- Lists of keys without repetition, for the graph checks of src/workflow/dag.js.
use ai_distributed_workflow.Base.{
  refl, suc, ◌≡◌, ◌≤◌, arith, true, false, not, List, [], ◌∷◌, ◌++◌, ◌&&◌, String, same, same_iff,
  same_refl, length, keep, Bool-cases, inl, inr,
}
use ai_distributed_workflow.Base.Dict.{has, has-append}

-- No key stands twice in the list.
abbrev pub Unique : List String → Type 0
Unique [] = Unit
Unique (k ∷ ks) = (has k ks ≡ false) × Unique ks

pub Unique-snoc :
    (xs : List String) (k : String) → Unique xs → has k xs ≡ false → Unique (xs ++ k ∷ [])
unfolding has
Unique-snoc [] k u h = (refl, tt)
Unique-snoc (x ∷ xs) k (n, u) h = (
  ground (arith, n, h, has-append x xs (k ∷ []), same_iff k x, same_iff x k),
  Unique-snoc xs k u (ground (arith, h)),
)

pub Unique-right : (xs ys : List String) → Unique (xs ++ ys) → Unique ys
Unique-right [] ys u = u
Unique-right (x ∷ xs) ys (n, u) = Unique-right xs ys u

pub Unique-apart :
    (xs ys : List String) (k : String) → Unique (xs ++ ys) → has k ys ≡ true → has k xs ≡ false
unfolding has
Unique-apart [] ys k u h = refl
Unique-apart (x ∷ xs) ys k (n, u) h =
    ground (arith, n, h, has-append x xs ys, same_iff x k, Unique-apart xs ys k u h)

-- One entry of a list taken out.
abbrev without : String → List String → List String
without k xs = keep (λ x. not (same x k)) xs

has-without :
    (j k : String) (xs : List String) → has j (without k xs) ≡ (not (same k j) && has j xs)
unfolding has
has-without j k [] = ground arith
has-without j k (x ∷ xs) =
    ground (arith, has-without j k xs, same_iff x k, same_iff x j, same_iff k j)

length-without :
    (k : String) (xs : List String) → has k xs ≡ true → suc (length (without k xs)) ≤ length xs
unfolding has
length-without k [] h = absurd (ground (arith, h))
length-without k (x ∷ xs) h = elim (Bool-cases (same x k)) [
  | inl e ↦ let le = length-without_le k xs in ground (arith, e, le)
  | inr e ↦ let le = length-without k xs (ground (arith, e, h)) in ground (arith, e, le)
]
  where
    length-without_le : (j : String) (ys : List String) → length (without j ys) ≤ length ys
    length-without_le j [] = ground arith
    length-without_le j (y ∷ ys) = ground (arith, length-without_le j ys)

-- A list without repetition whose entries stand in another is no longer than that.
pub Unique-length :
    (xs ys : List String)
    → Unique xs
    → ((k : String) → has k xs ≡ true → has k ys ≡ true)
    → length xs ≤ length ys
unfolding has
Unique-length [] ys u sub = ground arith
Unique-length (x ∷ xs) ys (n, u) sub =
    let here : has x ys ≡ true = sub x (ground (arith, same_refl x)) in
    let fewer = length-without x ys here in
    let rest =
      Unique-length xs (without x ys) u (λ k h.
        ground (arith, has-without k x ys, sub k (ground (arith, h)), h, n, same_iff x k)) in
    ground (arith, fewer, rest)
