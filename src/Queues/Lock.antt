-- ===== src/Queues/Lock.antt =====
-- src/queues/lock.js: createLock. `now` is Redis's clock at the command, `token` what randomUUID
-- gave. A call of `acquire` is two commands, between which other clients may run theirs.
pub mod Holding
pub mod Fences
mod Examples
use ai_distributed_workflow.Base.{ℕ, Bool, true, false, Option, none, some, ◌==◌, if◌then◌else◌}
use ai_distributed_workflow.Redis.Keys.{Keys}

-- What `acquire` resolves to.
pub record Held : Type 0 where
  pub token : ℕ
  pub fence : ℕ

abbrev pub is_token : ℕ → Option ℕ → Bool
is_token token none = false
is_token token (some held) = held == token

module _ (k : Keys) where
  -- The two keys.
  pub record Lock : Type 0 where
    pub cell : k.Key
    pub fence : ℕ

  abbrev pub free_lock : Lock
  free_lock = record { cell = k.no_key; fence = 0 }

  -- The SET of `acquire`.
  unfoldable pub set_token : ℕ → ℕ → ℕ → Lock → Bool × Lock
  set_token now ttl token l =
      let (ok, cell) = k.set_nx now token ttl l.cell in (ok, record l { cell = cell })

  -- The INCR of `acquire`.
  unfoldable pub next_fence : ℕ → Lock → Held × Lock
  next_fence token l =
      let fence = k.incr l.fence in
      (record { token = token; fence = fence }, record l { fence = fence })

  -- `acquire` when no other client comes between.
  unfoldable pub acquire : ℕ → ℕ → ℕ → Lock → Option Held × Lock
  unfolding set_token next_fence
  acquire now ttl token l =
      let (ok, l') = set_token now ttl token l in
      let (held, l'') = next_fence token l' in if ok then (some held, l'') else (none, l')

  unfoldable pub release : ℕ → ℕ → Lock → Bool × Lock
  release now token l =
      if is_token token (k.get now l.cell)
      then (true, record l { cell = k.del l.cell })
      else (false, l)

  unfoldable pub extend : ℕ → ℕ → ℕ → Lock → Bool × Lock
  extend now token ttl l =
      if is_token token (k.get now l.cell)
      then (true, record l { cell = k.pexpire now ttl l.cell })
      else (false, l)
