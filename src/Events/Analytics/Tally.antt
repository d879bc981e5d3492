-- ===== src/Events/Analytics/Tally.antt =====
-- The counts that src/events/analyticsProcessor.js stores.
use ai_distributed_workflow.Base.{
  String, refl, sym, ℕ, ◌+◌, ◌∙◌, ◌≡◌, arith, Bool, true, false, List, [], ◌∷◌, ◌++◌, ◌==◌, ◌&&◌,
  any, same, same_iff, if◌then◌else◌, inl, inr, Bool-cases, &&-eq-true,
}
use ai_distributed_workflow.Base.Result.{Result, ok, err}
use ai_distributed_workflow.Mongo.Driver.{change_first}
use ai_distributed_workflow.Events.Analytics.{
  Stat, Delivery, Reply, applied, duplicate, Error, day, is_for, add_one,
}

-- The count that the collection shows for a day and a type.
abbrev pub tally : ℕ → String → List Stat → ℕ
tally d t [] = 0
tally d t (x ∷ xs) = if is_for d t x then x.count else tally d t xs

-- Deliveries that belong to the day and the type.
abbrev pub matches : ℕ → String → Delivery → Bool
matches d t e = day e == d && same e.type_name t

abbrev pub is_applied : Result Error Reply → Bool
is_applied (ok applied) = true
is_applied (ok duplicate) = false
is_applied (err e) = false

-- Every call of MongoDB in the delivery gets through.
abbrev pub is_up : Delivery → Bool
is_up e = e.insert_up && (e.update_up && e.commit_up)

abbrev pub has_id : ℕ → Delivery → Bool
has_id i e = e.event_id == i

abbrev pub bit : Bool → ℕ
bit true = 1
bit false = 0

-- The same day and type.
for_eq :
    (d d' : ℕ) (t t' : String) (x : Stat)
    → is_for d t x ≡ true
    → is_for d' t' x ≡ (d == d' && same t t')
for_eq d d' t t' x h =
    let (hd, ht) = &&-eq-true (x.day == d) (same x.type_name t) h in
    let day_eq : x.day ≡ d = ground (arith, hd) in
    let type_eq : x.type_name ≡ t = (same_iff x.type_name t).0 ht in rw (day_eq, type_eq) refl

same_sym : (s t : String) → same s t ≡ same t s
same_sym s t = elim (Bool-cases (same s t)) [
  | inl e ↦ let eq : s ≡ t = (same_iff s t).0 e in rw eq refl
  | inr e ↦ elim (Bool-cases (same t s)) [
    | inl e' ↦ let eq : t ≡ s = (same_iff t s).0 e' in rw eq refl
    | inr e' ↦ e ∙ sym e'
  ]
]

pub tally-change_first :
    (d d' : ℕ) (t t' : String) (xs : List Stat)
    → any (is_for d t) xs ≡ true
    → tally d' t' (change_first (is_for d t) add_one xs)
      ≡ tally d' t' xs + bit (d == d' && same t t')
tally-change_first d d' t t' [] h = absurd (ground (arith, h))
tally-change_first d d' t t' (x ∷ xs) h = elim (Bool-cases (is_for d t x)) [
  | inl e ↦ rw e (ground (arith, for_eq d d' t t' x e))
  | inr e ↦
      let rest = tally-change_first d d' t t' xs (ground (arith, h, e)) in
      rw e (elim (Bool-cases (is_for d' t' x)) [
        | inl e' ↦ ground (arith, e', e, for_eq d' d t' t x e', same_sym t t')
        | inr e' ↦ ground (arith, e', rest)
      ])
]

pub tally-append_new :
    (d d' : ℕ) (t t' : String) (xs : List Stat)
    → any (is_for d t) xs ≡ false
    → tally d' t' (xs ++ add_one (record { day = d; type_name = t; count = 0 }) ∷ [])
      ≡ tally d' t' xs + bit (d == d' && same t t')
tally-append_new d d' t t' [] h = ground arith
tally-append_new d d' t t' (x ∷ xs) h =
    let rest = tally-append_new d d' t t' xs (ground (arith, h)) in
    elim (Bool-cases (is_for d' t' x)) [
      | inl e' ↦ ground (arith, e', h, for_eq d' d t' t x e', same_sym t t')
      | inr e' ↦ ground (arith, e', rest)
    ]
