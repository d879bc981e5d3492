-- ===== src/Events/Relay/Draining.antt =====
-- How far one `tick` of src/events/relay.js gets when MongoDB and Kafka answer.
use ai_distributed_workflow.Base.{
  ap, ◌∙◌, sym, zero, suc, refl, zero, suc, ℕ, ◌+◌, ◌*◌, ◌≡◌, ◌≤◌, ◌<◌, arith, true, false, List,
  [], ◌∷◌, map, ◌==◌, length, count, All, Bool-cases, inl, inr, min, All-map_of, All-first,
  is_empty, sym,
}
use ai_distributed_workflow.Base.Result.{ok}
use ai_distributed_workflow.Mongo.Keyed.{Distinct}
use ai_distributed_workflow.Mongo.Driver.{Mongo, IsMongo, change_all}
use ai_distributed_workflow.Events.Relay.{
  Row, Message, Outbox, Deps, IsRelay, message_of, is_unpublished, in_batch, mark, relay_once,
  drain, go_on,
}
use ai_distributed_workflow.Events.Relay.Rows.{Found, All-in_batch, count-in_batch, count-mark}
use ai_distributed_workflow.Events.Relay.Delivery.{
  Run, relays, Pending, is_delivered, is_at, Run-Pending, Run-Distinct,
}

-- All calls get through at these times.
pub record IsUp (d : Deps) (clock : ℕ → ℕ) : Type 0 where
  pub finds : (i : ℕ) → d.find_up (clock i) ≡ true
  pub sends : (i : ℕ) (ms log : List Message) → (d.publish (clock i) ms log).0 ≡ true
  pub marks : (i : ℕ) → d.mark_up (clock i) ≡ true

abbrev pub unpublished : Outbox → ℕ
unpublished s = count is_unpublished s.rows

none_free :
    (rows : List Row) → count is_unpublished rows ≡ 0 → All (λ e. is_unpublished e ≡ false) rows
none_free [] h = tt
none_free (x ∷ rows) h = (ground (arith, h), none_free rows (ground (arith, h)))

empty_length : (xs : List Row) → is_empty xs ≡ true → length xs ≡ 0
empty_length [] h = refl
empty_length (x ∷ xs) h = absurd (ground (arith, h))

module _ (m : Mongo) (laws : IsMongo m) (d : Deps) (works : IsRelay d) where
  marked_count :
      (s : Outbox) (now : ℕ) (batch : List Row) {n : ℕ}
      → Distinct (λ e. e.id) s.rows
      → Distinct (λ e. e.id) batch
      → All (Found s.rows) batch
      → length batch ≡ n
      → unpublished s ≡ count is_unpublished (change_all (in_batch batch) (mark now) s.rows) + n
  marked_count s now batch h once found e =
      let free =
        All-in_batch (λ x. is_unpublished x ≡ true) batch s.rows h found
          (All-map_of (Found s.rows) (λ x. is_unpublished x ≡ true) batch (λ x f. f.1) found) in
      let counted = count-mark (in_batch batch) now s.rows free in
      let long = count-in_batch batch s.rows h once found in ground (arith, counted, long, e)

  relay_once-up :
      (s : Outbox) (clock : ℕ → ℕ) (i : ℕ)
      → IsUp d clock
      → 0 < d.batch_size
      → Distinct (λ e. e.id) s.rows
      → let n = min d.batch_size (unpublished s) in
        ((relay_once m d (clock i) s).0 ≡ ok n)
        × (unpublished s ≡ unpublished (relay_once m d (clock i) s).1 + n)
  unfolding relay_once
  relay_once-up s clock i up some_room h =
      let batch = d.find_oldest d.batch_size s.rows in
      let n = works.size d.batch_size s.rows some_room in
      let found = works.found d.batch_size s.rows h in
      elim (Bool-cases (is_empty batch)) [
        | inl e ↦
            rw (up.finds i, e)
              (let zero_long : 0 ≡ min d.batch_size (unpublished s) =
                  sym (empty_length batch e) ∙ n in
                (ap ok zero_long, ground (arith, zero_long)))
        | inr e ↦
            rw (up.finds i, e, up.sends i (map message_of batch) s.log, up.marks i)
              (
                ap ok n,
                rw (laws.update_many_lem (in_batch batch) (mark (clock i)) s.rows)
                    (marked_count s (clock i) batch h (works.once d.batch_size s.rows h) found n),
              )
      ]

  -- When MongoDB and Kafka answer, the loop of a tick ends without an exception, and if there are at
  -- most `rounds` full batches of unpublished rows, none is left.
  drain-empties :
      (rounds : ℕ) (rows : List Row) (s : Outbox) (clock : ℕ → ℕ)
      → IsUp d clock
      → 0 < d.batch_size
      → Run m d rows s
      → unpublished s ≤ rounds * d.batch_size
      → ((drain m d rounds clock s).0 ≡ ok tt)
        × (unpublished (drain m d rounds clock s).1 ≡ 0)
        × Run m d rows (drain m d rounds clock s).1
  unfolding drain
  drain-empties zero rows s clock up some_room t few = (refl, ground (arith, few), t)
  drain-empties (suc rounds) rows s clock up some_room t few =
      let (reply, left) =
        relay_once-up s clock rounds up some_room (Run-Distinct m laws d works rows s t) in
      let later =
        drain-empties rounds rows (relay_once m d (clock rounds) s).1 clock up some_room
          (relays rows s (clock rounds) t) in
      elim (Bool-cases (min d.batch_size (unpublished s) == 0)) [
        | inl e ↦
            rw (go_on, reply, e)
              (refl, ground (arith, left, e, some_room), relays rows s (clock rounds) t)
        | inr e ↦ rw (go_on, reply, e) (later (ground (arith, left, e, few)))
      ]

  -- When MongoDB and Kafka answer, and at most as many rows are unpublished as the rounds of the loop
  -- have room for, the loop ends without an exception, and every event committed so far is in the
  -- topic.
  pub drain-delivers :
      (rounds : ℕ) (rows : List Row) (s : Outbox) (clock : ℕ → ℕ)
      → IsUp d clock
      → 0 < d.batch_size
      → Run m d rows s
      → unpublished s ≤ rounds * d.batch_size
      → ((drain m d rounds clock s).0 ≡ ok tt)
        × All (λ e. is_delivered (drain m d rounds clock s).1 e ≡ true) rows
  drain-delivers rounds rows s clock up some_room t few =
      let (reply, empty, t') = drain-empties rounds rows s clock up some_room t few in
      let s' = (drain m d rounds clock s).1 in
      (
        reply,
        All-map_of (Pending s') (λ e. is_delivered s' e ≡ true) rows (delivered s' empty)
            (Run-Pending m laws d works rows s' t'),
      )
    where
      delivered :
          (s' : Outbox) → unpublished s' ≡ 0 → (e : Row) → Pending s' e → is_delivered s' e ≡ true
      delivered s' empty e (inl there) = there
      delivered s' empty e (inr (stored, free)) =
          let busy =
            All-first (λ x. is_unpublished x ≡ false) (is_at e) s'.rows {x = e}
              (none_free s'.rows empty) stored in
          absurd (ground (arith, busy, free))
