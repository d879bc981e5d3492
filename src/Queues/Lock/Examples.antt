-- ===== src/Queues/Lock/Examples.antt =====
-- The lock of src/queues/lock.js on a key that tells the value and its deadline.
use ai_distributed_workflow.Base.{refl, suc, ◌≡◌, ◌<◌, true, false, none, some, arith}
use ai_distributed_workflow.Redis.Keys.{until, keys, keys-IsKeys}
use ai_distributed_workflow.Queues.Lock.{
  Lock, free_lock, set_token, next_fence, acquire, release, extend,
}
use ai_distributed_workflow.Queues.Lock.Holding.{
  Others, held_refuses, acquire-Exclusive, acquire-expires,
}
use ai_distributed_workflow.Queues.Lock.Holding.Others.{rest, releases, sets}
use ai_distributed_workflow.Queues.Lock.Fences.{fence_overtaken}

abbrev taken : Lock keys
taken = (acquire keys 10 100 7 (free_lock keys)).1

abbrev tried : Lock keys
tried = (release keys 60 8 (set_token keys 50 30 8 taken).1).1

others : Others keys 7 10 110 taken tried
others =
    releases (set_token keys 50 30 8 taken).1 60 8
      (sets taken 50 30 8 rest (ground arith) (ground arith) refl) (ground arith) (ground arith)
      refl

held_refuses_example :
    (acquire keys 50 100 8 taken ≡ (none, taken))
    × (release keys 50 8 taken ≡ (false, taken))
    × (extend keys 50 8 100 taken ≡ (false, taken))
unfolding acquire set_token next_fence
held_refuses_example = held_refuses keys keys-IsKeys taken 50 100 8 7 refl refl

acquire-Exclusive_example :
    (keys.get 70 tried.cell ≡ some 7) × (acquire keys 70 100 9 tried ≡ (none, tried))
acquire-Exclusive_example =
    acquire-Exclusive keys keys-IsKeys (free_lock keys) tried 10 100 7 refl others 70 100 9
      (ground arith) (ground arith) refl

acquire-expires_example :
    (acquire keys 110 100 9 tried).0 ≡ some (record { token = 9; fence = suc tried.fence })
acquire-expires_example =
    acquire-expires keys keys-IsKeys (free_lock keys) tried 10 100 7 refl others 110 100 9
      (ground arith)

fence_overtaken_example :
    let paused = (set_token keys 10 100 7 (free_lock keys)).1 in
    let taken = acquire keys 200 100 8 paused in
    ((set_token keys 10 100 7 (free_lock keys)).0 ≡ true)
    × (taken.0 ≡ some (record { token = 8; fence = 1 }))
    × (keys.get 200 taken.1.cell ≡ until 200 300 8)
    × (1 < (next_fence keys 7 taken.1).0.fence)
fence_overtaken_example =
    fence_overtaken keys keys-IsKeys (free_lock keys) 10 100 7 200 8 refl (ground arith)
