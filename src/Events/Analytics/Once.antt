-- ===== src/Events/Analytics/Once.antt =====
-- What src/events/analyticsProcessor.js counts when events are delivered several times.
use ai_distributed_workflow.Events.Analytics.Tally.{
  tally, matches, is_applied, is_up, has_id, bit, tally-change_first, tally-append_new,
}
use ai_distributed_workflow.Base.{
  ◌⊎◌, String, refl, ℕ, ◌+◌, ◌∙◌, ◌≡◌, arith, Bool, true, false, List, [], ◌∷◌, ◌++◌, ◌==◌, ◌&&◌,
  any, same, inl, inr, Bool-cases, count, ap, All,
}
use ai_distributed_workflow.Base.Result.{Result}
use ai_distributed_workflow.Mongo.Driver.{IsMongo}
use ai_distributed_workflow.Base.{All-map_of, ◌≤◌}
use ai_distributed_workflow.Events.Analytics.{
  Marker, marker_ttl, expire, Stat, Delivery, Reply, Error, day, is_for, add_one, Mongo, Stats,
  Upsert, IsUpsert, process, body, no_stats,
}
use ai_distributed_workflow.Events.Analytics.Markers.{
  is_marked, with_reply, Event, delivers, removes, InOrder, Apart, Spaced, Counts, covers, any-snoc,
  covered-marked, expire-marked, expire-covered,
}

module _ (m : Mongo) (u : Upsert) where
  -- `process` on each delivery in turn.
  unfoldable pub consume : List Event → List Delivery × Stats → List Delivery × Stats
  consume [] (h, s) = (h, s)
  consume (delivers e ∷ xs) (h, s) =
      let (reply, s') = process m u e s in consume xs (with_reply e reply h, s')
  consume (removes now chosen ∷ xs) (h, s) = consume xs (h, expire now chosen s)

module _ (m : Mongo) (laws : IsMongo m) (u : Upsert) (works : IsUpsert u) where
  abbrev counted : Delivery → Stats → Stats
  counted e s = record {
    processed = s.processed ++ record { event_id = e.event_id; processed_at = e.now } ∷ [];
    stats =
        u.upsert_one (is_for (day e) e.type_name) add_one
          (record { day = day e; type_name = e.type_name; count = 0 }) s.stats;
  }

  abbrev Counted : Delivery → Stats → Result Error Reply × Stats → Type 0
  Counted e s (reply, s') =
      (is_applied reply ≡ true) × (s' ≡ counted e s) × (is_marked e.event_id s ≡ false)

  abbrev Skipped : Delivery → Stats → Result Error Reply × Stats → Type 0
  Skipped e s (reply, s') =
      (is_applied reply ≡ false) × (s' ≡ s) × (is_up e ≡ true → is_marked e.event_id s ≡ true)

  process-cases :
      (e : Delivery) (s : Stats) → Counted e s (process m u e s) ⊎ Skipped e s (process m u e s)
  unfolding process body
  process-cases e s =
      let stored =
        laws.insert_lem (λ x y. x.event_id == y.event_id)
          (record { event_id = e.event_id; processed_at = e.now }) s.processed in
      elim (Bool-cases e.insert_up) [
        | inr down ↦
            inr (rw (laws.transaction_lem, down) (refl, refl, λ h. ground (arith, h, down)))
        | inl up ↦ elim (Bool-cases (is_marked e.event_id s)) [
          | inl old ↦ inr (rw (laws.transaction_lem, up, stored, old) (refl, refl, λ h. refl))
          | inr new ↦ elim (Bool-cases e.update_up) [
            | inr down ↦ inr (
                rw (laws.transaction_lem, up, stored, new, down)
                  (refl, refl, λ h. ground (arith, h, down)))
            | inl up' ↦ elim (Bool-cases e.commit_up) [
              | inr down ↦ inr (
                  rw (laws.transaction_lem, up, stored, new, up', down)
                    (refl, refl, λ h. ground (arith, h, down)))
              | inl up'' ↦
                  inl (rw (laws.transaction_lem, up, stored, new, up', up'') (refl, refl, refl))
            ]
          ]
        ]
      ]

  -- The delivery is marked, or older than a marker gets by then.
  abbrev Remembered : ℕ → Stats → Delivery → Type 0
  Remembered clock s x = (any (covers x) s.processed ≡ true) ⊎ (x.now + marker_ttl ≤ clock)

  record IsExact (clock : ℕ) (h : List Delivery) (s : Stats) : Type 0 where
    tallies : (d : ℕ) (t : String) → tally d t s.stats ≡ count (matches d t) h
    marked : (i : ℕ) → is_marked i s ≡ true → any (has_id i) h ≡ true
    remembered : All (Remembered clock s) h
    spaced : Spaced h

  expire-IsExact :
      (clock now : ℕ) (chosen : Marker → Bool) (h : List Delivery) (s : Stats)
      → clock ≤ now
      → IsExact clock h s
      → IsExact now h (expire now chosen s)
  unfolding expire
  expire-IsExact clock now chosen h s le v = record {
    tallies = v.tallies;
    marked = λ i k. v.marked i (expire-marked i now chosen s.processed k);
    remembered =
        All-map_of _ _ h
          (λ x r. elim r [
            | inl there ↦ expire-covered x now chosen s.processed there
            | inr old ↦ inr (omega (arith, old, le))
          ])
          v.remembered;
    spaced = v.spaced;
  }

  counted-IsExact :
      (clock : ℕ) (e : Delivery) (h : List Delivery) (s : Stats)
      → clock ≤ e.now
      → is_marked e.event_id s ≡ false
      → IsExact clock h s
      → IsExact e.now (e ∷ h) (counted e s)
  counted-IsExact clock e h s le new v = record {
    tallies = λ d t. upserted d t ∙ ground (arith, v.tallies d t);
    marked = λ i k. ground (arith, k, any-snoc (λ y. i == y.event_id) mine s.processed, v.marked i);
    remembered = (
      inl (ground (arith, any-snoc (covers e) mine s.processed)),
      All-map_of _ _ h
          (λ x r. elim r [
            | inl there ↦ inl (ground (arith, there, any-snoc (covers x) mine s.processed))
            | inr old ↦ inr (omega (arith, old, le))
          ])
          v.remembered,
    );
    spaced = (All-map_of _ _ h apart v.remembered, v.spaced);
  }
    where
      mine : Marker
      mine = record { event_id = e.event_id; processed_at = e.now }

      apart : (x : Delivery) → Remembered clock s x → Apart e x
      apart x (inr old) q = omega (arith, old, le)
      apart x (inl there) q =
          let same_id : e.event_id ≡ x.event_id = ground (arith, q) in
          let found : is_marked e.event_id s ≡ true =
            rw same_id (covered-marked x s.processed there) in
          absurd (ground (arith, found, new))

      fresh : Stat
      fresh = record { day = day e; type_name = e.type_name; count = 0 }

      upserted :
          (d : ℕ) (t : String)
          → tally d t (counted e s).stats
            ≡ tally d t s.stats + bit (day e == d && same e.type_name t)
      upserted d t = elim (Bool-cases (any (is_for (day e) e.type_name) s.stats)) [
        | inl there ↦
            ap (tally d t) (works.updates (is_for (day e) e.type_name) add_one fresh s.stats there)
            ∙ tally-change_first (day e) d e.type_name t s.stats there
        | inr not_there ↦
            ap (tally d t)
              (works.inserts (is_for (day e) e.type_name) add_one fresh s.stats not_there)
            ∙ tally-append_new (day e) d e.type_name t s.stats not_there
      ]

  process-IsExact :
      (clock : ℕ) (e : Delivery) (h : List Delivery) (s : Stats)
      → clock ≤ e.now
      → IsExact clock h s
      → let (reply, s') = process m u e s in IsExact e.now (with_reply e reply h) s'
  process-IsExact clock e h s le v = elim (process-cases e s) [
    | inl (done, same_state, new) ↦ rw (same_state, done) (counted-IsExact clock e h s le new v)
    | inr (skipped, same_state, _) ↦
        rw (same_state, skipped)
          (record {
            tallies = v.tallies;
            marked = v.marked;
            remembered =
                All-map_of _ _ h
                  (λ x r. elim r [ inl there ↦ inl there | inr old ↦ inr (omega (arith, old, le)) ])
                  v.remembered;
            spaced = v.spaced;
          })
  ]

  consume-IsExact :
      (clock : ℕ) (xs : List Event) (h : List Delivery) (s : Stats)
      → InOrder clock xs
      → IsExact clock h s
      → (end : ℕ) × IsExact end (consume m u xs (h, s)).0 (consume m u xs (h, s)).1
  unfolding consume
  consume-IsExact clock [] h s o v = (clock, v)
  consume-IsExact clock (delivers e ∷ xs) h s (le, o) v =
      let (reply, s') = process m u e s in
      consume-IsExact e.now xs (with_reply e reply h) s' o (process-IsExact clock e h s le v)
  consume-IsExact clock (removes now chosen ∷ xs) h s (le, o) v =
      consume-IsExact now xs h (expire now chosen s) o (expire-IsExact clock now chosen h s le v)

  with_reply_kept :
      (i : ℕ) (e : Delivery) (reply : Result Error Reply) (h : List Delivery)
      → any (has_id i) h ≡ true
      → any (has_id i) (with_reply e reply h) ≡ true
  with_reply_kept i e reply h k = ground (arith, k)

  consume_kept :
      (i : ℕ) (xs : List Event) (h : List Delivery) (s : Stats)
      → any (has_id i) h ≡ true
      → any (has_id i) (consume m u xs (h, s)).0 ≡ true
  unfolding consume
  consume_kept i [] h s k = k
  consume_kept i (delivers e ∷ xs) h s k =
      let (reply, s') = process m u e s in
      consume_kept i xs (with_reply e reply h) s' (with_reply_kept i e reply h k)
  consume_kept i (removes now chosen ∷ xs) h s k = consume_kept i xs h (expire now chosen s) k

  processed_there :
      (clock : ℕ) (e : Delivery) (h : List Delivery) (s : Stats)
      → IsExact clock h s
      → is_up e ≡ true
      → any (has_id e.event_id) (with_reply e (process m u e s).0 h) ≡ true
  processed_there clock e h s v up = elim (process-cases e s) [
    | inl (done, _, _) ↦ rw done (ground arith)
    | inr (skipped, _, old) ↦ rw skipped (v.marked e.event_id (old up))
  ]

  consume-All :
      (clock : ℕ) (xs : List Event) (h : List Delivery) (s : Stats)
      → InOrder clock xs
      → IsExact clock h s
      → All (Counts (consume m u xs (h, s)).0) xs
  unfolding consume
  consume-All clock [] h s o v = tt
  consume-All clock (delivers e ∷ xs) h s (le, o) v =
      let (reply, s') = process m u e s in
      (
        λ up.
            consume_kept e.event_id xs (with_reply e reply h) s' (processed_there clock e h s v up),
        consume-All e.now xs (with_reply e reply h) s' o (process-IsExact clock e h s le v),
      )
  consume-All clock (removes now chosen ∷ xs) h s (le, o) v =
      (tt, consume-All now xs h (expire now chosen s) o (expire-IsExact clock now chosen h s le v))

  -- Deliveries of events, in any order and any number of times, with calls of MongoDB failing at will
  -- and its removal of expired markers between them, on clocks that do not go back: the count of a day
  -- and a type is the number of deliveries answered "applied" that belong there; two of these that are
  -- of one event are at least 30 days apart, so that redeliveries within 30 days are counted once; and
  -- each event with a delivery in which no call failed has one.
  pub consume_once :
      (xs : List Event)
      → InOrder 0 xs
      → let (h, s) = consume m u xs ([], no_stats) in
        ((d : ℕ) (t : String) → tally d t s.stats ≡ count (matches d t) h)
        × Spaced h
        × All (Counts h) xs
  consume_once xs o =
      let nothing : IsExact 0 [] no_stats = record {
        tallies = λ d t. refl;
        marked = λ i k. absurd (ground (arith, k));
        remembered = tt;
        spaced = tt;
      } in
      let (_, v) = consume-IsExact 0 xs [] no_stats o nothing in
      (v.tallies, v.spaced, consume-All 0 xs [] no_stats o nothing)
