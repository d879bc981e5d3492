-- ===== src/Events/Runner/Leading.antt =====
-- Who relays, in src/events/relay.js.
use ai_distributed_workflow.Base.{
  ap, Bool, true, false, none, some, refl, inl, inr, ◌∙◌, refl, ℕ, ◌≡◌, ◌<◌, arith, true, Option,
  none, some, if◌then◌else◌, Bool-cases, inl, inr, ◌⊎◌, Option-cases,
}
use ai_distributed_workflow.Base.Result.{ok, err, Result, ok, err, continue}
use ai_distributed_workflow.Mongo.Driver.{Mongo}
use ai_distributed_workflow.Redis.Keys.{Keys, IsKeys}
use ai_distributed_workflow.Queues.Lock.{Lock, Held, extend, set_token, next_fence, is_token}
use ai_distributed_workflow.Events.Relay.{Deps, Failure}
use ai_distributed_workflow.Events.Runner.{
  count_fence, Runner, Now, lead, tick, take_lead, extend_held, drain_if, after_lead,
}

module _ (k : Keys) (laws : IsKeys k) (m : Mongo) (d : Deps) where
  is_token_eq : (token : ℕ) (o : Option ℕ) → is_token token o ≡ true → o ≡ some token
  is_token_eq token none h = absurd (ground (arith, h))
  is_token_eq token (some held) h = ground (arith, h)

  extend_leads :
      (now ttl token : ℕ) (l : Lock k)
      → 0 < ttl
      → (extend k now token ttl l).0 ≡ true
      → k.get now (extend k now token ttl l).1.cell ≡ some token
  unfolding extend
  extend_leads now ttl token l long still = elim (Bool-cases (is_token token (k.get now l.cell))) [
    | inl e ↦ rw e (
        laws.pexpire_get now ttl now token l.cell (is_token_eq token (k.get now l.cell) e)
          (ground arith)
        ∙ ground (arith, long))
    | inr e ↦ absurd (ground (arith, still, e))
  ]

  set_token_leads :
      (now ttl token : ℕ) (l : Lock k)
      → 0 < ttl
      → (set_token k now ttl token l).0 ≡ true
      → k.get now (set_token k now ttl token l).1.cell ≡ some token
  unfolding set_token
  set_token_leads now ttl token l long wrote = elim (Option-cases (k.get now l.cell)) [
    | inl e ↦
        let mine = laws.set_get now token ttl now l.cell e (ground arith) in
        ground (arith, mine, long)
    | inr (holder, e) ↦ absurd (ground (arith, wrote, laws.set_held now token ttl holder l.cell e))
  ]

  still_leads :
      (now ttl : ℕ) (h h' : Held) (l : Lock k)
      → 0 < ttl
      → (if (extend k now h.token ttl l).0 then some h else none) ≡ some h'
      → k.get now (extend k now h.token ttl l).1.cell ≡ some h'.token
  still_leads now ttl h h' l long e = elim (Bool-cases (extend k now h.token ttl l).0) [
    | inl still ↦
        let same : h ≡ h' = ground (arith, e, still) in
        rw (← same) (extend_leads now ttl h.token l long still)
    | inr lost ↦ absurd (ground (arith, e, lost))
  ]

  -- After the two ifs of `tick`, unless they threw: a runner that keeps a token holds the lock.
  abbrev Leads : ℕ → Runner k → Type 0
  Leads now s = (h : Held) → s.held ≡ some h → k.get now s.lock.cell ≡ some h.token

  abbrev Led : ℕ → Runner k → Result Failure (Unit {0}) × Runner k → Type 0
  Led now s (reply, s') = (s'.outbox ≡ s.outbox) × (reply ≡ ok tt → Leads now s')

  extend_held-Led :
      (ttl : ℕ) (at : Now) (held : Option Held) (s : Runner k)
      → 0 < ttl
      → s.held ≡ held
      → Led at.time s (extend_held k ttl at held s)
  extend_held-Led ttl at none s long e = (refl, λ _ h e'. absurd (ground (arith, e, e')))
  extend_held-Led ttl at (some h) s long e = elim (Bool-cases at.extend_up) [
    | inr down ↦ rw down (refl, λ r. absurd (ground (arith, r)))
    | inl up ↦ rw up (refl, λ _ h' e'. still_leads at.time ttl h h' s.lock long e')
  ]

  count_fence-Led :
      (at : Now) (r : Bool × Lock k) (s : Runner k)
      → (r.0 ≡ true → k.get at.time r.1.cell ≡ some at.token)
      → Led at.time s (count_fence k at r s)
  unfolding next_fence
  count_fence-Led at (false, l) s mine = (refl, λ _ h e. absurd (ground (arith, e)))
  count_fence-Led at (true, l) s mine = elim (Bool-cases at.incr_up) [
    | inr down ↦ rw down (refl, λ r. absurd (ground (arith, r)))
    | inl up ↦ rw up (
      refl,
      λ _ h e.
          let same : at.token ≡ h.token = ground (arith, e) in mine refl ∙ ap (λ t. some t) same,
    )
  ]

  take_lead-Led :
      (ttl : ℕ) (at : Now) (held : Option Held) (s : Runner k)
      → 0 < ttl
      → Leads at.time s
      → Led at.time s (take_lead k ttl at held s)
  take_lead-Led ttl at (some h) s long v = (refl, λ _. v)
  take_lead-Led ttl at none s long v = elim (Bool-cases at.set_up) [
    | inr down ↦ simp down (refl, λ r. absurd (ground (arith, r)))
    | inl up ↦ simp up (
        count_fence-Led at (set_token k at.time ttl at.token s.lock) s
          (set_token_leads at.time ttl at.token s.lock long))
  ]

  lead-Led : (ttl : ℕ) (at : Now) (s : Runner k) → 0 < ttl → Led at.time s (lead k ttl at s)
  unfolding lead
  lead-Led ttl at s long =
      by_reply (extend_held k ttl at s.held s) (extend_held-Led ttl at s.held s long refl)
    where
      by_reply :
          (r : Result Failure (Unit {0}) × Runner k)
          → Led at.time s r
          → Led at.time s (continue r (λ _ t. take_lead k ttl at t.held t))
      by_reply (ok u, t) (same, v) =
          let (same', v') = take_lead-Led ttl at t.held t long (v refl) in (same' ∙ same, v')
      by_reply (err e, t) v = v

  abbrev Relayed : ℕ → Runner k → Runner k → Type 0
  Relayed now s t =
      (t.outbox ≡ s.outbox)
      ⊎ ((h : Held) × (t.held ≡ some h) × (k.get now t.lock.cell ≡ some h.token))

  -- Only the leader relays: a `tick` that changes the outbox ends with a token that holds the lock at
  -- the time of the tick, whichever calls to Redis fail.
  pub tick-leads :
      (ttl : ℕ) (at : Now) (s : Runner k)
      → 0 < ttl
      → ((tick k m d ttl at s).outbox ≡ s.outbox)
        ⊎ ((h : Held) × ((tick k m d ttl at s).held ≡ some h)
            × (k.get at.time (tick k m d ttl at s).lock.cell ≡ some h.token))
  unfolding tick
  tick-leads ttl at s long = elim (Bool-cases s.busy) [
    | inl e ↦ inl (rw e refl)
    | inr e ↦ rw e (
        by_reply (lead k ttl at (record s { busy = true }))
          (lead-Led ttl at (record s { busy = true }) long))
  ]
    where
      by_held :
          (held : Option Held) (t : Runner k)
          → t.held ≡ held
          → t.outbox ≡ s.outbox
          → Leads at.time t
          → Relayed at.time s (drain_if k m d held at t)
      by_held none t e same v = inl same
      by_held (some h) t e same v = inr (h, e, v h e)

      by_reply :
          (r : Result Failure (Unit {0}) × Runner k)
          → Led at.time s r
          → Relayed at.time s (after_lead k m d at r)
      by_reply (ok u, t) (same, v) = by_held t.held t refl same (v refl)
      by_reply (err e, t) (same, v) = inl same
