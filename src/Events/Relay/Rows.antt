-- ===== src/Events/Relay/Rows.antt =====
-- The rows of the outbox that a batch of src/events/relay.js contains.
use ai_distributed_workflow.Base.{
  subst, sym, refl, ℕ, ◌≡◌, arith, Bool, true, some, List, [], ◌∷◌, ◌==◌, count, All, first,
  Bool-cases, inl, inr, false, length, ◌||◌, ◌+◌,
}
use ai_distributed_workflow.Mongo.Keyed.{Distinct, Other, only_first}
use ai_distributed_workflow.Events.Relay.{Row, Message, is_unpublished, in_batch, mark}
use ai_distributed_workflow.Mongo.Driver.{change_all}

-- Whether the topic holds the message of the row.
abbrev pub has_event : Row → Message → Bool
has_event row x = x.event_id == row.event_id

abbrev pub Found : List Row → Row → Type 0
Found rows e = (first (λ x. x.id == e.id) rows ≡ some e) × (is_unpublished e ≡ true)

no-Other :
    (i : ℕ) (rows : List Row) → All (Other (λ e. e.id) i) rows → count (λ x. x.id == i) rows ≡ 0
no-Other i [] o = refl
no-Other i (x ∷ rows) o = let h = no-Other i rows o.1 in ground (arith, h, o.0)

one_only :
    (i : ℕ) (rows : List Row) {e : Row}
    → Distinct (λ x. x.id) rows
    → first (λ x. x.id == i) rows ≡ some e
    → count (λ x. x.id == i) rows ≡ 1
one_only i [] d h = ground (arith, h)
one_only i (x ∷ rows) {e} d h = elim (Bool-cases (x.id == i)) [
  | inl hit ↦ let n = no-Other x.id rows d.0 in ground (arith, hit, n)
  | inr miss ↦
      let n = one_only i rows {e = e} d.1 (ground (arith, h, miss)) in ground (arith, miss, n)
]

-- What holds of the batch holds of each stored row with an id of the batch.
pub All-in_batch :
    (P : Row → Type 0) (batch rows : List Row)
    → Distinct (λ x. x.id) rows
    → All (Found rows) batch
    → All P batch
    → All (λ row. in_batch batch row ≡ true → P row) rows
All-in_batch P [] rows d f h = nothing rows
  where
    nothing : (xs : List Row) → All (λ row. false ≡ true → P row) xs
    nothing [] = tt
    nothing (x ∷ xs) = (λ e. absurd (ground (arith, e)), nothing xs)
All-in_batch P (b ∷ batch) rows d f h =
    both rows (only_first (λ x. x.id) b.id (λ x. x.id == b.id) rows (λ x e. e) d f.0.0)
      (All-in_batch P batch rows d f.1 h.1)
  where
    both :
        (xs : List Row)
        → All (λ y. (y.id == b.id) ≡ true → y ≡ b) xs
        → All (λ row. in_batch batch row ≡ true → P row) xs
        → All (λ row. in_batch (b ∷ batch) row ≡ true → P row) xs
    both [] o r = tt
    both (x ∷ xs) o r = (
      λ e. elim (Bool-cases (x.id == b.id)) [
        | inl hit ↦ subst P (sym (o.0 hit)) h.0
        | inr miss ↦ r.0 (rw miss at e)
      ],
      both xs o.1 r.1,
    )

not_in_batch :
    (x : Row) (i : ℕ) (batch : List Row)
    → All (Other (λ e. e.id) i) batch
    → (x.id == i) ≡ true
    → in_batch batch x ≡ false
not_in_batch x i [] o e = refl
not_in_batch x i (b ∷ batch) o e = ground (arith, o.0, e, not_in_batch x i batch o.1 e)

count_or :
    (p q : Row → Bool) (rows : List Row)
    → ((x : Row) → p x ≡ true → q x ≡ false)
    → count (λ x. p x || q x) rows ≡ count p rows + count q rows
count_or p q [] apart = refl
count_or p q (x ∷ rows) apart = ground (arith, apart x, count_or p q rows apart)

count_nothing : (rows : List Row) → count (λ x. false) rows ≡ 0
count_nothing [] = refl
count_nothing (x ∷ rows) = count_nothing rows

pub count-in_batch :
    (batch rows : List Row)
    → Distinct (λ x. x.id) rows
    → Distinct (λ x. x.id) batch
    → All (Found rows) batch
    → count (in_batch batch) rows ≡ length batch
count-in_batch [] rows d db f = count_nothing rows
count-in_batch (b ∷ batch) rows d db f =
    let both =
      count_or (λ x. x.id == b.id) (in_batch batch) rows
        (λ x e. not_in_batch x b.id batch db.0 e) in
    let one = one_only b.id rows {e = b} d f.0.0 in
    let more = count-in_batch batch rows d db.1 f.1 in ground (arith, both, one, more)

-- Marking the rows that pass takes them off the unpublished ones.
pub count-mark :
    (p : Row → Bool) (now : ℕ) (rows : List Row)
    → All (λ row. p row ≡ true → is_unpublished row ≡ true) rows
    → count is_unpublished rows ≡ count is_unpublished (change_all p (mark now) rows) + count p rows
count-mark p now [] h = refl
count-mark p now (x ∷ rows) h = elim (Bool-cases (p x)) [
  | inl e ↦ let n = count-mark p now rows h.1 in rw e (ground (arith, n, e, h.0))
  | inr e ↦ let n = count-mark p now rows h.1 in rw e (ground (arith, n, e))
]
