-- ===== src/Events/Relay/Delivery.antt =====
-- What src/events/relay.js guarantees about committed events.
use mathlib.Core.List.{append_assoc}
use ai_distributed_workflow.Mongo.Counting.{append_nil}
use ai_distributed_workflow.Base.{
  is_empty, refl, true, false, subst, sym, ap, none, inl, inr, refl, ℕ, ◌≡◌, arith, Bool, true,
  false, none, some, List, [], ◌∷◌, ◌++◌, map, ◌==◌, ◌||◌, not, keep, any, All, first, Bool-cases,
  inl, inr, ◌⊎◌, All-append, All-map_of, All-first,
}
use ai_distributed_workflow.Mongo.Keyed.{Distinct, Other, Distinct-append, Distinct-change_all}
use ai_distributed_workflow.Mongo.Driver.{Mongo, IsMongo, change_all}
use ai_distributed_workflow.Events.Relay.{
  Row, Message, Outbox, Deps, IsRelay, message_of, is_unpublished, in_batch, mark, relay_once,
}
use ai_distributed_workflow.Events.Relay.Rows.{has_event, All-in_batch}

-- The rows committed so far, oldest first, and a state of the collection and the topic: rows are
-- committed with new ids, relays run, whatever fails, and published rows are removed in the end.
pub data Run (m : Mongo) (d : Deps) : List Row → Outbox → Type 0 where
  nothing : Run m d [] (record { rows = []; log = [] })
  commits :
      (rows : List Row) (s : Outbox) (row : Row)
      → Run m d rows s
      → row.published_at ≡ none
      → All (Other (λ e. e.id) row.id) s.rows
      → Run m d (rows ++ row ∷ []) (record s { rows = s.rows ++ row ∷ [] })
  relays :
      (rows : List Row) (s : Outbox) (now : ℕ)
      → Run m d rows s
      → Run m d rows (relay_once m d now s).1
  expires :
      (rows : List Row) (s : Outbox) (is_old : Row → Bool)
      → Run m d rows s
      → Run m d rows (record s { rows = keep (λ e. is_unpublished e || not (is_old e)) s.rows })

abbrev pub is_delivered : Outbox → Row → Bool
is_delivered s e = any (has_event e) s.log

abbrev pub is_at : Row → Row → Bool
is_at e x = x.id == e.id

-- The event is in the topic, or its row is still in the collection and unpublished.
abbrev pub Pending : Outbox → Row → Type 0
Pending s e =
    (is_delivered s e ≡ true) ⊎ ((first (is_at e) s.rows ≡ some e) × (is_unpublished e ≡ true))

any-append : (p : Message → Bool) (xs ys : List Message) → any p (xs ++ ys) ≡ (any p xs || any p ys)
any-append p [] ys = refl
any-append p (x ∷ xs) ys = ground (arith, any-append p xs ys)

batch_delivered :
    (log : List Message) (batch : List Row)
    → All (λ e. any (has_event e) (log ++ map message_of batch) ≡ true) batch
batch_delivered log [] = tt
batch_delivered log (b ∷ batch) = (
  ground (arith, any-append (has_event b) log (map message_of (b ∷ batch))),
  subst (λ xs. All (λ e. any (has_event e) xs ≡ true) batch)
      (append_assoc log (message_of b ∷ []) (map message_of batch))
      (batch_delivered (log ++ message_of b ∷ []) batch),
)

first-change_all_kept :
    (e : Row) (p : Row → Bool) (now : ℕ) (rows : List Row)
    → p e ≡ false
    → first (is_at e) rows ≡ some e
    → first (is_at e) (change_all p (mark now) rows) ≡ some e
first-change_all_kept e p now [] h f = f
first-change_all_kept e p now (x ∷ rows) h f = elim (Bool-cases (is_at e x)) [
  | inl hit ↦ let same : x ≡ e = ground (arith, hit, f) in rw (same, h) (ground arith)
  | inr miss ↦
      let rest = first-change_all_kept e p now rows h (ground (arith, f, miss)) in
      ground (arith, miss, rest)
]

first-keep :
    (e : Row) (p : Row → Bool) (rows : List Row)
    → p e ≡ true
    → first (is_at e) rows ≡ some e
    → first (is_at e) (keep p rows) ≡ some e
first-keep e p [] h f = f
first-keep e p (x ∷ rows) h f = elim (Bool-cases (is_at e x)) [
  | inl hit ↦ let same : x ≡ e = ground (arith, hit, f) in rw (same, h) (ground arith)
  | inr miss ↦
      let rest = first-keep e p rows h (ground (arith, f, miss)) in ground (arith, miss, rest)
]

first-append :
    (e : Row) (xs ys : List Row) → first (is_at e) xs ≡ some e → first (is_at e) (xs ++ ys) ≡ some e
first-append e [] ys h = ground (arith, h)
first-append e (x ∷ xs) ys h = ground (arith, h, first-append e xs ys)

first_new :
    (e : Row) (xs : List Row)
    → All (Other (λ x. x.id) e.id) xs
    → first (is_at e) (xs ++ e ∷ []) ≡ some e
first_new e [] o = ground arith
first_new e (x ∷ xs) o = let h = first_new e xs o.1 in ground (arith, h, o.0)

pub All-keep : (P : Row → Type 0) (p : Row → Bool) (xs : List Row) → All P xs → All P (keep p xs)
All-keep P p [] h = tt
All-keep P p (x ∷ xs) h = elim (Bool-cases (p x)) [
  | inl e ↦ rw e (h.0, All-keep P p xs h.1)
  | inr e ↦ rw e (All-keep P p xs h.1)
]

pub Distinct-keep :
    (p : Row → Bool) (xs : List Row) → Distinct (λ e. e.id) xs → Distinct (λ e. e.id) (keep p xs)
Distinct-keep p [] d = tt
Distinct-keep p (x ∷ xs) d = elim (Bool-cases (p x)) [
  | inl e ↦ rw e (All-keep (Other (λ y. y.id) x.id) p xs d.0, Distinct-keep p xs d.1)
  | inr e ↦ rw e (Distinct-keep p xs d.1)
]

module _ (m : Mongo) (laws : IsMongo m) (d : Deps) (works : IsRelay d) where
  abbrev pub batch_of : Outbox → List Row
  batch_of s = d.find_oldest d.batch_size s.rows

  abbrev Unmarked : Outbox → Outbox → Type 0
  Unmarked s s' = (s'.rows ≡ s.rows) × ((part : List Message) × (s'.log ≡ s.log ++ part))

  abbrev Marked : ℕ → Outbox → Outbox → Type 0
  Marked now s s' =
      (s'.rows ≡ change_all (in_batch (batch_of s)) (mark now) s.rows)
      × (s'.log ≡ s.log ++ map message_of (batch_of s))

  relay_once-cases :
      (s : Outbox) (now : ℕ)
      → Unmarked s (relay_once m d now s).1 ⊎ Marked now s (relay_once m d now s).1
  unfolding relay_once
  relay_once-cases s now = elim (Bool-cases (d.find_up now)) [
    | inr e ↦ inl (rw e (refl, ([], sym (append_nil s.log))))
    | inl e ↦ elim (Bool-cases (is_empty (batch_of s))) [
      | inl e1 ↦ inl (rw (e, e1) (refl, ([], sym (append_nil s.log))))
      | inr e1 ↦ elim (Bool-cases (d.publish now (map message_of (batch_of s)) s.log).0) [
        | inr e2 ↦ inl (rw (e, e1, e2) (refl, works.thrown now (map message_of (batch_of s)) s.log))
        | inl e2 ↦ elim (Bool-cases (d.mark_up now)) [
          | inr e3 ↦
              inl (rw (e, e1, e2, e3) (refl, works.thrown now (map message_of (batch_of s)) s.log))
          | inl e3 ↦ inr (
              rw (e, e1, e2, e3)
                (
                  ap (λ r. r.0) (laws.update_many_lem (in_batch (batch_of s)) (mark now) s.rows),
                  works.appended now (map message_of (batch_of s)) s.log e2,
                ))
        ]
      ]
    ]
  ]

  relays-Distinct :
      (s : Outbox) (now : ℕ)
      → Distinct (λ e. e.id) s.rows
      → Distinct (λ e. e.id) (relay_once m d now s).1.rows
  relays-Distinct s now h = elim (relay_once-cases s now) [
    | inl (same, _) ↦ subst (Distinct (λ e. e.id)) (sym same) h
    | inr (marked, _) ↦
        subst (Distinct (λ e. e.id)) (sym marked)
          (Distinct-change_all (λ e. e.id) (in_batch (batch_of s)) (mark now) s.rows (λ x. refl) h)
  ]

  relays-Pending :
      (s : Outbox) (now : ℕ) (e : Row)
      → Distinct (λ x. x.id) s.rows
      → Pending s e
      → Pending (relay_once m d now s).1 e
  relays-Pending s now e h (inl there) = inl (elim (relay_once-cases s now) [
    | inl (_, (part, k)) ↦ rw (k, any-append (has_event e) s.log part, there) refl
    | inr (_, k) ↦ rw (k, any-append (has_event e) s.log (map message_of (batch_of s)), there) refl
  ])
  relays-Pending s now e h (inr (stored, free)) = elim (relay_once-cases s now) [
    | inl (same, _) ↦ inr (rw same stored, free)
    | inr (marked, k) ↦ elim (Bool-cases (in_batch (batch_of s) e)) [
      | inr out ↦
          inr (
            rw marked (first-change_all_kept e (in_batch (batch_of s)) now s.rows out stored),
            free,
          )
      | inl hit ↦
          let sent =
            All-in_batch (λ x. any (has_event x) (s.log ++ map message_of (batch_of s)) ≡ true)
              (batch_of s) s.rows h (works.found d.batch_size s.rows h)
              (batch_delivered s.log (batch_of s)) in
          inl (
            rw k (
              All-first
                (λ x.
                  in_batch (batch_of s) x ≡ true
                  → any (has_event x) (s.log ++ map message_of (batch_of s)) ≡ true)
                (is_at e) s.rows {x = e} sent stored hit))
    ]
  ]

  pub Run-Distinct : (rows : List Row) (s : Outbox) → Run m d rows s → Distinct (λ e. e.id) s.rows
  Run-Distinct rows s nothing = tt
  Run-Distinct rows s (commits before p row t free new) =
      Distinct-append (λ e. e.id) p.rows (row ∷ []) (Run-Distinct before p t) (tt, tt)
        (All-map_of (Other (λ e. e.id) row.id) (λ x. All (Other (λ e. e.id) x.id) (row ∷ [])) p.rows
          (λ x o. (ground (arith, o), tt)) new)
  Run-Distinct rows s (relays before p now t) = relays-Distinct p now (Run-Distinct before p t)
  Run-Distinct rows s (expires before p is_old t) =
      Distinct-keep (λ e. is_unpublished e || not (is_old e)) p.rows (Run-Distinct before p t)

  commits-Pending :
      (s : Outbox) (row e : Row) → Pending s e → Pending (record s { rows = s.rows ++ row ∷ [] }) e
  commits-Pending s row e (inl there) = inl there
  commits-Pending s row e (inr (stored, free)) = inr (first-append e s.rows (row ∷ []) stored, free)

  expires-Pending :
      (s : Outbox) (is_old : Row → Bool) (e : Row)
      → Pending s e
      → Pending (record s { rows = keep (λ x. is_unpublished x || not (is_old x)) s.rows }) e
  expires-Pending s is_old e (inl there) = inl there
  expires-Pending s is_old e (inr (stored, free)) =
      inr
        (first-keep e (λ x. is_unpublished x || not (is_old x)) s.rows (rw free refl) stored, free)

  -- No committed event is lost: whatever calls of MongoDB and Kafka failed, each is in the topic, or
  -- its row is still in the collection and unpublished.
  pub Run-Pending : (rows : List Row) (s : Outbox) → Run m d rows s → All (Pending s) rows
  Run-Pending rows s nothing = tt
  Run-Pending rows s (commits before p row t free new) =
      All-append (Pending (record p { rows = p.rows ++ row ∷ [] })) before (row ∷ [])
        (All-map_of (Pending p) (Pending (record p { rows = p.rows ++ row ∷ [] })) before
          (commits-Pending p row) (Run-Pending before p t))
        (inr (first_new row p.rows new, rw free refl), tt)
  Run-Pending rows s (relays before p now t) =
      All-map_of (Pending p) (Pending (relay_once m d now p).1) before
        (λ e. relays-Pending p now e (Run-Distinct before p t)) (Run-Pending before p t)
  Run-Pending rows s (expires before p is_old t) =
      All-map_of (Pending p)
        (Pending (record p { rows = keep (λ x. is_unpublished x || not (is_old x)) p.rows })) before
        (expires-Pending p is_old) (Run-Pending before p t)
