-- ===== src/Events/Relay/Reference.antt =====
-- A query and a producer that meet what src/events/relay.js relies on; rows stand in the order of
-- their ids.
use ai_distributed_workflow.Base.{
  refl, zero, suc, ℕ, ◌≡◌, ◌<◌, arith, Bool, true, List, [], ◌∷◌, ◌++◌, keep, length, count, All,
  All-both, All-map_of, Bool-cases, inl, inr, min,
}
use ai_distributed_workflow.Mongo.Keyed.{Distinct, Other}
use ai_distributed_workflow.Mongo.Driver.{limited, at_most}
use ai_distributed_workflow.Events.Relay.{Row, Deps, IsRelay, is_unpublished}
use ai_distributed_workflow.Events.Relay.Rows.{Found}
use ai_distributed_workflow.Events.Relay.Delivery.{All-keep, Distinct-keep}

abbrev pub deps : ℕ → Deps
deps batch_size = record {
  find_oldest = λ n rows. limited n (keep is_unpublished rows);
  publish = λ now ms log. (true, log ++ ms);
  find_up = λ now. true;
  mark_up = λ now. true;
  batch_size = batch_size;
}

found_later : (x e : Row) (xs : List Row) → Other (λ y. y.id) x.id e → Found xs e → Found (x ∷ xs) e
found_later x e xs o (f, u) = (ground (arith, o, f), u)

keep_found :
    (rows : List Row) → Distinct (λ e. e.id) rows → All (Found rows) (keep is_unpublished rows)
keep_found [] d = tt
keep_found (x ∷ xs) d =
    let rest : All (Found (x ∷ xs)) (keep is_unpublished xs) =
      All-map_of (λ e. Other (λ y. y.id) x.id e × Found xs e) (Found (x ∷ xs))
        (keep is_unpublished xs) (λ e h. found_later x e xs h.0 h.1)
        (All-both (Other (λ y. y.id) x.id) (Found xs) (keep is_unpublished xs)
          (All-keep (Other (λ y. y.id) x.id) is_unpublished xs d.0) (keep_found xs d.1)) in
    elim (Bool-cases (is_unpublished x)) [
      | inl e ↦ rw e ((ground arith, e), rest)
      | inr e ↦ rw e rest
    ]

All-at_most : (P : Row → Type 0) (n : ℕ) (xs : List Row) → All P xs → All P (at_most n xs)
All-at_most P zero xs h = tt
All-at_most P (suc n) [] h = tt
All-at_most P (suc n) (x ∷ xs) h = (h.0, All-at_most P n xs h.1)

All-limited : (P : Row → Type 0) (n : ℕ) (xs : List Row) → All P xs → All P (limited n xs)
All-limited P zero xs h = h
All-limited P (suc n) xs h = All-at_most P (suc n) xs h

Distinct-at_most :
    (n : ℕ) (xs : List Row) → Distinct (λ e. e.id) xs → Distinct (λ e. e.id) (at_most n xs)
Distinct-at_most zero xs d = tt
Distinct-at_most (suc n) [] d = tt
Distinct-at_most (suc n) (x ∷ xs) d =
    (All-at_most (Other (λ e. e.id) x.id) n xs d.0, Distinct-at_most n xs d.1)

Distinct-limited :
    (n : ℕ) (xs : List Row) → Distinct (λ e. e.id) xs → Distinct (λ e. e.id) (limited n xs)
Distinct-limited zero xs d = d
Distinct-limited (suc n) xs d = Distinct-at_most (suc n) xs d

length-keep : (p : Row → Bool) (xs : List Row) → length (keep p xs) ≡ count p xs
length-keep p [] = refl
length-keep p (x ∷ xs) = ground (arith, length-keep p xs)

length-at_most : (n : ℕ) (xs : List Row) → length (at_most n xs) ≡ min n (length xs)
length-at_most zero xs = ground arith
length-at_most (suc n) [] = ground arith
length-at_most (suc n) (x ∷ xs) = ground (arith, length-at_most n xs)

length-limited : (n : ℕ) (xs : List Row) → 0 < n → length (limited n xs) ≡ min n (length xs)
length-limited zero xs h = absurd (ground (arith, h))
length-limited (suc n) xs h = length-at_most (suc n) xs

pub deps-IsRelay : (batch_size : ℕ) → IsRelay (deps batch_size)
deps-IsRelay batch_size = record {
  found = λ n rows d. All-limited (Found rows) n (keep is_unpublished rows) (keep_found rows d);
  once = λ n rows d.
      Distinct-limited n (keep is_unpublished rows) (Distinct-keep is_unpublished rows d);
  size = λ n rows h.
      rw (← length-keep is_unpublished rows) (length-limited n (keep is_unpublished rows) h);
  appended = λ now ms log h. refl;
  thrown = λ now ms log. (ms, refl);
}
