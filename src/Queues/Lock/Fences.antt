-- ===== src/Queues/Lock/Fences.antt =====
-- The fencing tokens of src/queues/lock.js.
use ai_distributed_workflow.Base.{refl, ℕ, suc, ◌+◌, ◌≡◌, ◌≤◌, ◌<◌, true, none, some, arith, ◌∙◌}
use ai_distributed_workflow.Redis.Keys.{Keys, IsKeys, until}
use ai_distributed_workflow.Queues.Lock.{Lock, set_token, next_fence, acquire, release, extend}

-- The commands of any clients, at any times.
pub data Commands (k : Keys) (l : Lock k) : Lock k → Type 0 where
  idle : Commands k l l
  sets :
      (l' : Lock k) (at ttl token : ℕ)
      → Commands k l l'
      → Commands k l (set_token k at ttl token l').1
  counts : (l' : Lock k) (token : ℕ) → Commands k l l' → Commands k l (next_fence k token l').1
  releases : (l' : Lock k) (at token : ℕ) → Commands k l l' → Commands k l (release k at token l').1
  extends :
      (l' : Lock k) (at ttl token : ℕ) → Commands k l l' → Commands k l (extend k at token ttl l').1

module _ (k : Keys) (laws : IsKeys k) where
  Commands-fence : (l l' : Lock k) → Commands k l l' → l.fence ≤ l'.fence
  unfolding set_token next_fence release extend
  Commands-fence l l' idle = ground arith
  Commands-fence l l' (sets p at ttl token c) = let h = Commands-fence l p c in ground (arith, h)
  Commands-fence l l' (counts p token c) =
      let h = Commands-fence l p c in ground (arith, h, laws.incr_lem p.fence)
  Commands-fence l l' (releases p at token c) = let h = Commands-fence l p c in ground (arith, h)
  Commands-fence l l' (extends p at ttl token c) = let h = Commands-fence l p c in ground (arith, h)

  -- Of two counted fences the later is the greater, whatever commands come between them.
  pub next_fence-rises :
      (l l' : Lock k) (token other : ℕ)
      → Commands k (next_fence k token l).1 l'
      → (next_fence k token l).0.fence < (next_fence k other l').0.fence
  unfolding next_fence
  next_fence-rises l l' token other c = ground (
    arith,
    Commands-fence (next_fence k token l).1 l' c,
    laws.incr_lem l.fence,
    laws.incr_lem l'.fence,
  )

  -- A client is paused for at least `ttl` between the two commands of `acquire`, and another acquires
  -- the lock meanwhile: the paused client then gets the greater fence, although the other holds the
  -- lock, so a check of the fences rejects the holder and not the stale client.
  pub fence_overtaken :
      (l : Lock k) (now ttl token at other : ℕ)
      → k.get now l.cell ≡ none
      → now + ttl ≤ at
      → let paused = (set_token k now ttl token l).1 in
        let taken = acquire k at ttl other paused in
        ((set_token k now ttl token l).0 ≡ true)
        × (taken.0 ≡ some (record { token = other; fence = suc l.fence }))
        × (k.get at taken.1.cell ≡ until at (at + ttl) other)
        × (suc l.fence < (next_fence k token taken.1).0.fence)
  unfolding set_token next_fence acquire
  fence_overtaken l now ttl token at other h late =
      let expired : k.get at (k.set_nx now token ttl l.cell).1 ≡ none =
        laws.set_get now token ttl at l.cell h (ground (arith, late)) ∙ ground (arith, late) in
      let taken = laws.set_free at other ttl (k.set_nx now token ttl l.cell).1 expired in
      (
        laws.set_free now token ttl l.cell h,
        rw (taken, laws.incr_lem) refl,
        rw taken
            (laws.set_get at other ttl at (k.set_nx now token ttl l.cell).1 expired (ground arith)),
        rw taken (ground (arith, laws.incr_lem l.fence, laws.incr_lem (k.incr l.fence))),
      )
