-- ===== src/Queues/Lock/Holding.antt =====
-- Who holds the lock of src/queues/lock.js, and for how long.
use ai_distributed_workflow.Base.{
  refl, suc, ℕ, ◌+◌, ◌≡◌, ◌≤◌, ◌<◌, ◌==◌, false, none, some, arith, ◌∙◌,
}
use ai_distributed_workflow.Redis.Keys.{Keys, IsKeys, until}
use ai_distributed_workflow.Queues.Lock.{Lock, set_token, next_fence, acquire, release, extend}

-- Commands of clients with other tokens, sent at times from `now` on and before `deadline`.
pub data Others (k : Keys) (mine now deadline : ℕ) (l : Lock k) : Lock k → Type 0 where
  rest : Others k mine now deadline l l
  sets :
      (l' : Lock k) (at ttl token : ℕ)
      → Others k mine now deadline l l'
      → now ≤ at
      → at < deadline
      → (token == mine) ≡ false
      → Others k mine now deadline l (set_token k at ttl token l').1
  counts :
      (l' : Lock k) (token : ℕ)
      → Others k mine now deadline l l'
      → Others k mine now deadline l (next_fence k token l').1
  releases :
      (l' : Lock k) (at token : ℕ)
      → Others k mine now deadline l l'
      → now ≤ at
      → at < deadline
      → (token == mine) ≡ false
      → Others k mine now deadline l (release k at token l').1
  extends :
      (l' : Lock k) (at ttl token : ℕ)
      → Others k mine now deadline l l'
      → now ≤ at
      → at < deadline
      → (token == mine) ≡ false
      → Others k mine now deadline l (extend k at token ttl l').1

module _ (k : Keys) (laws : IsKeys k) where
  -- While one token holds the lock, `acquire` gives no other client the lock, and `release` and
  -- `extend` with another token are refused and change nothing.
  pub held_refuses :
      (l : Lock k) (now ttl token holder : ℕ)
      → k.get now l.cell ≡ some holder
      → (token == holder) ≡ false
      → (acquire k now ttl token l ≡ (none, l))
        × (release k now token l ≡ (false, l))
        × (extend k now token ttl l ≡ (false, l))
  unfolding acquire set_token next_fence release extend
  held_refuses l now ttl token holder h other =
      ground (arith, h, other, laws.set_held now token ttl holder l.cell h)

  abbrev HeldUntil : ℕ → ℕ → ℕ → Lock k → Type 0
  HeldUntil mine now deadline l =
      (later : ℕ) → now ≤ later → k.get later l.cell ≡ until later deadline mine

  Others-HeldUntil :
      (mine now deadline : ℕ) (l l' : Lock k)
      → Others k mine now deadline l l'
      → HeldUntil mine now deadline l
      → HeldUntil mine now deadline l'
  unfolding set_token next_fence release extend
  Others-HeldUntil mine now deadline l l' rest h = h
  Others-HeldUntil mine now deadline l l' (sets p at ttl token o le lt ne) h =
      let before = Others-HeldUntil mine now deadline l p o h in
      λ later after. ground (
        arith,
        before later after,
        laws.set_held at token ttl mine p.cell (ground (arith, before at le, lt)),
      )
  Others-HeldUntil mine now deadline l l' (counts p token o) h =
      Others-HeldUntil mine now deadline l p o h
  Others-HeldUntil mine now deadline l l' (releases p at token o le lt ne) h =
      let before = Others-HeldUntil mine now deadline l p o h in
      λ later after. ground (arith, before later after, before at le, lt, ne)
  Others-HeldUntil mine now deadline l l' (extends p at ttl token o le lt ne) h =
      let before = Others-HeldUntil mine now deadline l p o h in
      λ later after. ground (arith, before later after, before at le, lt, ne)

  acquire_free :
      (l : Lock k) (now ttl token : ℕ)
      → k.get now l.cell ≡ none
      → (acquire k now ttl token l).0 ≡ some (record { token = token; fence = suc l.fence })
  unfolding acquire set_token next_fence
  acquire_free l now ttl token h = rw (laws.set_free now token ttl l.cell h, laws.incr_lem) refl

  acquire-HeldUntil :
      (l : Lock k) (now ttl token : ℕ)
      → k.get now l.cell ≡ none
      → HeldUntil token now (now + ttl) (acquire k now ttl token l).1
  unfolding acquire set_token next_fence
  acquire-HeldUntil l now ttl token h later after =
      rw (laws.set_free now token ttl l.cell h) (laws.set_get now token ttl later l.cell h after)

  -- The client that acquires a free lock is its only holder for `ttl`, whatever other clients send in
  -- that time, and until `ttl` is over no call of theirs gets the lock.
  pub acquire-Exclusive :
      (l l' : Lock k) (now ttl token : ℕ)
      → k.get now l.cell ≡ none
      → Others k token now (now + ttl) (acquire k now ttl token l).1 l'
      → (at ttl' other : ℕ) → now ≤ at
      → at < now + ttl
      → (other == token) ≡ false
      → (k.get at l'.cell ≡ some token) × (acquire k at ttl' other l' ≡ (none, l'))
  acquire-Exclusive l l' now ttl token h o at ttl' other le lt ne =
      let held : k.get at l'.cell ≡ some token =
        Others-HeldUntil token now (now + ttl) (acquire k now ttl token l).1 l' o
          (acquire-HeldUntil l now ttl token h) at le
        ∙ ground (arith, lt) in
      (held, (held_refuses l' at ttl' other token held ne).0)

  -- The lock of a holder that crashed frees itself: from `ttl` after its `acquire` on, if others only
  -- tried before, the next `acquire` succeeds, with the next fence.
  pub acquire-expires :
      (l l' : Lock k) (now ttl token : ℕ)
      → k.get now l.cell ≡ none
      → Others k token now (now + ttl) (acquire k now ttl token l).1 l'
      → (at ttl' other : ℕ) → now + ttl ≤ at
      → (acquire k at ttl' other l').0 ≡ some (record { token = other; fence = suc l'.fence })
  acquire-expires l l' now ttl token h o at ttl' other late = acquire_free l' at ttl' other (
      Others-HeldUntil token now (now + ttl) (acquire k now ttl token l).1 l' o
        (acquire-HeldUntil l now ttl token h) at (ground (arith, late))
      ∙ ground (arith, late))
