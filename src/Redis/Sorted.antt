-- ===== src/Redis/Sorted.antt =====
-- A sorted set as a list of ids and scores, each id once.
use ai_distributed_workflow.Base.{
  zero, suc, ℕ, ◌≡◌, ◌≤◌, ◌<◌, refl, arith, true, false, List, [], ◌∷◌, ◌==◌, if◌then◌else◌, Option,
  none, some, not, keep, count, length, All, min, leb, Bool, suc, ap, Bool-cases, inl, subst, inr,
}
use ai_distributed_workflow.Mongo.Keyed.{Distinct, Other}
use ai_distributed_workflow.Mongo.Driver.{at_most}
use ai_distributed_workflow.Redis.{occurs, bit, is_due}
use ai_distributed_workflow.Base.Int.{ℤ, ltb_ℤ, pos}

abbrev pub Entries : Type 0
Entries = List (ℕ × ℕ)

abbrev pub IsIndexed : Entries → Type 0
IsIndexed xs = Distinct (λ e. e.0) xs

abbrev pub score : ℕ → Entries → Option ℕ
score i [] = none
score i ((j, n) ∷ xs) = if j == i then some n else score i xs

abbrev pub without : ℕ → Entries → Entries
without i xs = keep (λ e. not (e.0 == i)) xs

abbrev pub is_above : ℤ → ℕ × ℕ → Bool
is_above b e = ltb_ℤ b (pos e.1)

-- The ids whose time has come.
abbrev pub due : ℕ → Entries → List ℕ
due now [] = []
due now ((i, n) ∷ xs) = if leb n now then i ∷ due now xs else due now xs

abbrev pub lowest : Entries → Option ℕ
lowest [] = none
lowest ((i, n) ∷ xs) = elim (lowest xs) [ none ↦ some n | some k ↦ some (min n k) ]

Other-keep :
    (i : ℕ) (p : ℕ × ℕ → Bool) (xs : Entries)
    → All (Other (λ e. e.0) i) xs
    → All (Other (λ e. e.0) i) (keep p xs)
Other-keep i p [] h = tt
Other-keep i p (x ∷ xs) h = ground (arith, Other-keep i p xs h.1)

pub IsIndexed-keep : (p : ℕ × ℕ → Bool) (xs : Entries) → IsIndexed xs → IsIndexed (keep p xs)
IsIndexed-keep p [] h = tt
IsIndexed-keep p (x ∷ xs) h = ground (arith, IsIndexed-keep p xs h.1, Other-keep x.0 p xs h.0)

Other-without : (i : ℕ) (xs : Entries) → All (Other (λ e. e.0) i) (without i xs)
Other-without i [] = tt
Other-without i (x ∷ xs) = ground (arith, Other-without i xs)

pub IsIndexed-add : (n i : ℕ) (xs : Entries) → IsIndexed xs → IsIndexed ((i, n) ∷ without i xs)
IsIndexed-add n i xs h = (Other-without i xs, IsIndexed-keep (λ e. not (e.0 == i)) xs h)

pub score-without :
    (i j : ℕ) (xs : Entries) → score j (without i xs) ≡ (if i == j then none else score j xs)
score-without i j [] = ground arith
score-without i j ((k, n) ∷ xs) = ground (arith, score-without i j xs)

pub score-keep :
    (p : ℕ × ℕ → Bool) (i : ℕ) (xs : Entries) → score i xs ≡ none → score i (keep p xs) ≡ none
score-keep p i [] h = refl
score-keep p i ((k, n) ∷ xs) h = ground (arith, score-keep p i xs)

pub count-without :
    (p : ℕ × ℕ → Bool) (i : ℕ) (xs : Entries)
    → score i xs ≡ none
    → count p (without i xs) ≡ count p xs
count-without p i [] h = refl
count-without p i ((k, n) ∷ xs) h = ground (arith, count-without p i xs)

pub count-keep :
    (p q : ℕ × ℕ → Bool) (xs : Entries)
    → ((x : ℕ × ℕ) → q x ≡ true → p x ≡ true)
    → count q (keep p xs) ≡ count q xs
count-keep p q [] h = refl
count-keep p q (x ∷ xs) h = ground (arith, h x, count-keep p q xs h)

pub length-keep : (p : ℕ × ℕ → Bool) (xs : Entries) → length (keep p xs) ≡ count p xs
length-keep p [] = refl
length-keep p (x ∷ xs) = ground (arith, length-keep p xs)

absent-due : (now i : ℕ) (xs : Entries) → All (Other (λ e. e.0) i) xs → occurs i (due now xs) ≡ 0
absent-due now i [] h = refl
absent-due now i (x ∷ xs) h = ground (arith, absent-due now i xs h.1)

absent-score : (i : ℕ) (xs : Entries) → All (Other (λ e. e.0) i) xs → score i xs ≡ none
absent-score i [] h = refl
absent-score i (x ∷ xs) h = ground (arith, absent-score i xs h.1)

pub occurs-due :
    (now i : ℕ) (xs : Entries)
    → IsIndexed xs
    → occurs i (due now xs) ≡ bit (is_due now (score i xs))
occurs-due now i [] h = refl
occurs-due now i ((k, n) ∷ xs) h = elim (Bool-cases (k == i)) [
  | inl e ↦
      let same : k ≡ i = ground (arith, e) in
      let others : All (Other (λ e. e.0) i) xs =
        subst (λ j. All (Other (λ e. e.0) j) xs) same h.0 in
      ground (arith, e, absent-due now i xs others)
  | inr e ↦ ground (arith, e, occurs-due now i xs h.1)
]

pub occurs-at_most : (i n : ℕ) (xs : List ℕ) → occurs i (at_most n xs) ≤ occurs i xs
occurs-at_most i zero xs = omega arith
occurs-at_most i (suc n) [] = omega arith
occurs-at_most i (suc n) (x ∷ xs) = omega (arith, occurs-at_most i n xs)

pub at_most_all : (n : ℕ) (xs : List ℕ) → length (at_most n xs) < n → at_most n xs ≡ xs
at_most_all zero xs h = absurd (omega arith)
at_most_all (suc n) [] h = refl
at_most_all (suc n) (x ∷ xs) h = ap (λ ys. x ∷ ys) (at_most_all n xs (omega arith))

pub length-at_most : (n : ℕ) (xs : List ℕ) → length (at_most n xs) ≤ n
length-at_most zero xs = omega arith
length-at_most (suc n) [] = omega arith
length-at_most (suc n) (x ∷ xs) = omega (arith, length-at_most n xs)

pub is_above_mono :
    (a b : ℤ) (e : ℕ × ℕ) → ltb_ℤ b a ≡ false → is_above b e ≡ true → is_above a e ≡ true
is_above_mono a b e h k = ground (arith, h, k)
