-- ===== src/Middleware/RateLimit/Examples.antt =====
-- Three requests of caller 5 to src/middleware/rateLimit.js, with a limit of two in 100 ms.
use ai_distributed_workflow.Middleware.RateLimit.Log.{within}
use ai_distributed_workflow.Base.{refl, ℕ, ◌≤◌, ◌≡◌, arith, true, some, List, [], ◌∷◌}
use ai_distributed_workflow.Redis.Reference.{redis, redis-IsRedis}
use ai_distributed_workflow.Redis.Expiry.{Expiry, expiry, expiry-IsExpiry}
use ai_distributed_workflow.Middleware.RateLimit.{Options, Outcome, rate_limit, Store, rate_limited}
use ai_distributed_workflow.Middleware.RateLimit.Window.{recorded, Requests, Requests-within}
use ai_distributed_workflow.Middleware.RateLimit.Window.Requests.{none_yet, asks}

abbrev options : Options
options = record { limit = 2; window_ms = 100; fail_closed = true }

abbrev keys : Expiry redis
keys = expiry redis

abbrev first_store : Store redis keys
first_store = (rate_limit redis keys options true 10 1 (some 5) (λ caller. keys.no_key)).1

abbrev second_store : Store redis keys
second_store = (rate_limit redis keys options true 40 2 (some 5) first_store).1

abbrev third : Outcome × Store redis keys
third = rate_limit redis keys options true 90 3 (some 5) second_store

third_refused : third.0.error ≡ some (rate_limited 1)
unfolding rate_limit
third_refused = refl

fourth_passes :
    recorded 5 (some 5) 110 (rate_limit redis keys options true 110 4 (some 5) third.1).0 []
    ≡ 110 ∷ []
unfolding rate_limit
fourth_passes = refl

abbrev passed_once : List ℕ
passed_once =
    recorded 5 (some 5) 10
      (rate_limit redis keys options true 10 1 (some 5) (λ caller. keys.no_key)).0 []

abbrev passed_twice : List ℕ
passed_twice =
    recorded 5 (some 5) 40 (rate_limit redis keys options true 40 2 (some 5) first_store).0
      passed_once

requests : Requests redis keys options 5 40 (2 ∷ 1 ∷ []) passed_twice second_store
requests =
    asks 10 (1 ∷ []) passed_once first_store true 40 2 (some 5)
      (asks 0 [] [] (λ caller. keys.no_key) true 10 1 (some 5) none_yet (ground arith) refl)
      (ground arith) refl

Requests-within_example : within 100 0 passed_twice ≤ 2
Requests-within_example =
    Requests-within redis keys redis-IsRedis (expiry-IsExpiry redis) options 5 40 (2 ∷ 1 ∷ [])
      passed_twice second_store refl requests 0
