-- ===== src/Middleware/RateLimit/Window.antt =====
-- How many requests of one caller src/middleware/rateLimit.js lets through.
use ai_distributed_workflow.Middleware.RateLimit.Log.{
  recent, within, Limited, Limited-within, above_sub, sub_above,
}
use ai_distributed_workflow.Middleware.RateLimit.{
  Error, Options, Outcome, rate_limit, Store, sliding_window, answer, refused,
}
use ai_distributed_workflow.Base.{
  refl, none, some, true, ℕ, ◌+◌, ◌≡◌, ◌≤◌, arith, false, List, [], ◌∷◌, ltb, ◌&&◌, inl, inr,
  Bool-cases, Option, none, if◌then◌else◌, Bool, ◌==◌, ◌∙◌,
}
use ai_distributed_workflow.Base.Int.{sub_ℕ}
use ai_distributed_workflow.Redis.{bit, Redis, IsRedis, occurs}
use ai_distributed_workflow.Redis.Expiry.{Expiry, IsExpiry}

abbrev pub let_through : Option Error → Bool
let_through none = true
let_through (some e) = false

-- The times at which requests of the caller `who` were let through, with one more request.
abbrev pub recorded : ℕ → Option ℕ → ℕ → Outcome → List ℕ → List ℕ
recorded who none now out xs = xs
recorded who (some caller) now out xs =
    if caller == who && let_through out.error then now ∷ xs else xs

-- Requests of any callers, with Redis failing at will: the clock of Redis at the last, the members
-- used so far, and the times at which `who` was let through, with the later first.
pub data Requests (r : Redis) (k : Expiry r) (o : Options) (who : ℕ)
    : ℕ → List ℕ → List ℕ → Store r k → Type 0 where
  none_yet : Requests r k o who 0 [] [] (λ caller. k.no_key)
  asks :
      (last : ℕ) (used passed : List ℕ) (s : Store r k) (redis_up : Bool) (now id : ℕ)
      (caller : Option ℕ)
      → Requests r k o who last used passed s
      → last ≤ now
      → occurs id used ≡ 0
      → Requests r k o who now
          (id ∷ used)
          (recorded who caller now (rate_limit r k o redis_up now id caller s).0 passed)
          (rate_limit r k o redis_up now id caller s).1

module _ (r : Redis) (k : Expiry r) (laws : IsRedis r) (key_laws : IsExpiry r k) where
  record Keeps (window now : ℕ) (used passed : List ℕ) (x : k.Key) : Type 0 where
    counted :
        (later m : ℕ)
        → now ≤ later
        → later ≤ m
        → recent window m passed ≤ r.zcount_above (sub_ℕ m window) (k.view later x)
    fresh : (later i : ℕ) → now ≤ later → occurs i used ≡ 0 → r.zscore i (k.view later x) ≡ none
    past : (m : ℕ) → now + window ≤ m → recent window m passed ≡ 0

  Keeps-later :
      (window last now id : ℕ) (used passed : List ℕ) (x : k.Key)
      → last ≤ now
      → Keeps window last used passed x
      → Keeps window now (id ∷ used) passed x
  Keeps-later window last now id used passed x le v = record {
    counted = λ later m a b. v.counted later m (ground (arith, le, a)) b;
    fresh = λ later i a unused. v.fresh later i (ground (arith, le, a)) (ground (arith, unused));
    past = λ m a. v.past m (ground (arith, le, a));
  }

  -- ZREMRANGEBYSCORE
  dropped : ℕ → ℕ → k.Key → k.Key
  dropped now window x = k.update now (r.zrem_range_by_score (sub_ℕ now window)) x

  dropped-Keeps :
      (window now : ℕ) (used passed : List ℕ) (x : k.Key)
      → Keeps window now used passed x
      → Keeps window now used passed (dropped now window x)
  unfolding dropped
  dropped-Keeps window now used passed x v = record {
    counted = λ later m a b.
        elim (key_laws.update_later now later (r.zrem_range_by_score (sub_ℕ now window)) x a) [
          | inl e ↦
              rw
                (
                  e,
                  laws.zcount_zrem_range (sub_ℕ now window) (sub_ℕ m window) (k.view now x)
                      (sub_above window m now (ground (arith, a, b))),
                )
                (v.counted now m (ground arith) (ground (arith, a, b)))
          | inr (e, gone) ↦ rw (e, ← gone) (v.counted later m a b)
        ];
    fresh = λ later i a unused.
        elim (key_laws.update_later now later (r.zrem_range_by_score (sub_ℕ now window)) x a) [
          | inl e ↦ rw e (
              laws.zrem_range_lem (sub_ℕ now window) i (k.view now x)
                (v.fresh now i (ground arith) unused))
          | inr (e, gone) ↦ rw e (laws.no_scores_lem i)
        ];
    past = v.past;
  }

  admitted : ℕ → ℕ → ℕ → k.Key → k.Key
  admitted now window id x =
      k.pexpire now window (k.update now (r.zadd now id) (dropped now window x))

  admitted_view :
      (now window id : ℕ) (x : k.Key)
      → k.view now (k.update now (r.zadd now id) (dropped now window x))
        ≡ r.zadd now id (r.zrem_range_by_score (sub_ℕ now window) (k.view now x))
  unfolding dropped
  admitted_view now window id x =
      rw
        (
          key_laws.update_now now (r.zadd now id)
              (k.update now (r.zrem_range_by_score (sub_ℕ now window)) x),
          key_laws.update_now now (r.zrem_range_by_score (sub_ℕ now window)) x,
        )
        refl

  admitted_count :
      (now window id m : ℕ) (x : k.Key)
      → now ≤ m
      → r.zscore id (k.view now x) ≡ none
      → r.zcount_above
          (sub_ℕ m window)
          (r.zadd now id (r.zrem_range_by_score (sub_ℕ now window) (k.view now x)))
        ≡ r.zcount_above (sub_ℕ m window) (k.view now x) + bit (ltb m (now + window))
  admitted_count now window id m x le h =
      let z = r.zrem_range_by_score (sub_ℕ now window) (k.view now x) in
      laws.zcount_zadd now id (sub_ℕ m window) z
        (laws.zrem_range_lem (sub_ℕ now window) id (k.view now x) h)
      ∙ rw
          (
            laws.zcount_zrem_range (sub_ℕ now window) (sub_ℕ m window) (k.view now x)
                (sub_above window m now le),
            above_sub window m now,
          )
          refl

  admitted-Keeps :
      (window last now id : ℕ) (used passed : List ℕ) (x : k.Key)
      → last ≤ now
      → occurs id used ≡ 0
      → Keeps window last used passed x
      → Keeps window now (id ∷ used) (now ∷ passed) (admitted now window id x)
  unfolding admitted
  admitted-Keeps window last now id used passed x le unused v = record {
    counted = λ later m a b.
        elim (key_laws.pexpire_later now window later
          (k.update now (r.zadd now id) (dropped now window x)) a) [
            | inl e ↦
                rw (e, admitted_view now window id x)
                  (let n = v.counted now m le (ground (arith, a, b)) in
                    ground (
                      arith,
                      n,
                      admitted_count now window id m x (ground (arith, a, b))
                          (v.fresh now id le unused),
                    ))
            | inr (e, gone) ↦
                let h = v.past m (ground (arith, le, gone, b)) in ground (arith, h, gone, b)
          ];
    fresh = λ later i a new.
        elim (key_laws.pexpire_later now window later
          (k.update now (r.zadd now id) (dropped now window x)) a) [
            | inl e ↦
                rw (e, admitted_view now window id x)
                  (let h =
                      laws.zrem_range_lem (sub_ℕ now window) i (k.view now x)
                        (v.fresh now i le (ground (arith, new))) in
                    ground (
                      arith,
                      new,
                      h,
                      laws.zadd_lem now id i
                          (r.zrem_range_by_score (sub_ℕ now window) (k.view now x)),
                    ))
            | inr (e, gone) ↦ rw e (laws.no_scores_lem i)
          ];
    past = λ m a. let h = v.past m (ground (arith, le, a)) in ground (arith, h, a);
  }

  kept_count :
      (now window : ℕ) (x : k.Key)
      → r.zcard (k.view now (dropped now window x))
        ≡ r.zcount_above (sub_ℕ now window) (k.view now x)
  unfolding dropped
  kept_count now window x =
      rw (key_laws.update_now now (r.zrem_range_by_score (sub_ℕ now window)) x)
        (laws.zcard_zrem_range (sub_ℕ now window) (k.view now x))

  abbrev IsSound : Options → ℕ → List ℕ → List ℕ → k.Key → Type 0
  IsSound o now used passed x =
      Keeps o.window_ms now used passed x × Limited o.window_ms o.limit passed

  abbrev after : Options → ℕ → Outcome → List ℕ → List ℕ
  after o now out passed = if let_through out.error then now ∷ passed else passed

  refused_stopped :
      (o : Options) (now window : ℕ) (lowest : Option ℕ)
      → o.fail_closed ≡ true
      → let_through (answer r k o (refused now window lowest)).error ≡ false
  unfolding answer
  refused_stopped o now window none h = rw h refl
  refused_stopped o now window (some n) h = refl

  sliding_window-IsSound :
      (o : Options) (last now id : ℕ) (used passed : List ℕ) (x : k.Key)
      → o.fail_closed ≡ true
      → last ≤ now
      → occurs id used ≡ 0
      → IsSound o last used passed x
      → let (reply, x') = sliding_window r k now o.window_ms o.limit id x in
        IsSound o now (id ∷ used) (after o now (answer r k o reply) passed) x'
  unfolding sliding_window answer dropped admitted
  sliding_window-IsSound o last now id used passed x closed le unused (v, l) =
      elim (Bool-cases (ltb (r.zcard (k.view now (dropped now o.window_ms x))) o.limit)) [
        | inl e ↦ rw e (
          admitted-Keeps o.window_ms last now id used passed x le unused v,
          (
            let n = v.counted now now le (ground arith) in
                ground (arith, n, e, kept_count now o.window_ms x),
            l,
          ),
        )
        | inr e ↦
            rw
              (
                e,
                refused_stopped o now o.window_ms
                    (r.zlowest (k.view now (dropped now o.window_ms x))) closed,
              )
              (
                dropped-Keeps o.window_ms now (id ∷ used) passed x
                    (Keeps-later o.window_ms last now id used passed x le v),
                l,
              )
      ]

  Requests-IsSound :
      (o : Options) (who last : ℕ) (used passed : List ℕ) (s : Store r k)
      → o.fail_closed ≡ true
      → Requests r k o who last used passed s
      → IsSound o last used passed (s who)
  unfolding rate_limit
  Requests-IsSound o who last used passed s closed none_yet = (
    record {
      counted = λ later m a b. ground arith;
      fresh = λ later i a new. rw (key_laws.view_none later) (laws.no_scores_lem i);
      past = λ m a. refl;
    },
    tt,
  )
  Requests-IsSound o who now' used' passed' s' closed
        (asks last used passed s up now id none t le new) =
      let (v, l) = Requests-IsSound o who last used passed s closed t in
      (Keeps-later o.window_ms last now id used passed (s who) le v, l)
  Requests-IsSound o who now' used' passed' s' closed
        (asks last used passed s true now id (some caller) t le new) =
      let (v, l) = Requests-IsSound o who last used passed s closed t in
      elim (Bool-cases (caller == who)) [
        | inl e ↦
            let same : caller ≡ who = ground (arith, e) in
            rw (e, same)
              (sliding_window-IsSound o last now id used passed (s who) closed le new (v, l))
        | inr e ↦ rw e (Keeps-later o.window_ms last now id used passed (s who) le v, l)
      ]
  Requests-IsSound o who now' used' passed' s' closed
        (asks last used passed s false now id (some caller) t le new) =
      let (v, l) = Requests-IsSound o who last used passed s closed t in
      elim (Bool-cases (caller == who)) [
        | inl e ↦ rw (e, closed) (Keeps-later o.window_ms last now id used passed (s who) le v, l)
        | inr e ↦ rw e (Keeps-later o.window_ms last now id used passed (s who) le v, l)
      ]

  -- A limiter that fails closed lets at most `limit` requests of one caller through in any period as
  -- long as the window, whatever other callers send and however often Redis is down, when Redis's
  -- clock never goes back and no member is used twice.
  pub Requests-within :
      (o : Options) (who last : ℕ) (used passed : List ℕ) (s : Store r k)
      → o.fail_closed ≡ true
      → Requests r k o who last used passed s
      → (from : ℕ) → within o.window_ms from passed ≤ o.limit
  Requests-within o who last used passed s closed t from =
      Limited-within o.window_ms o.limit from passed
        (Requests-IsSound o who last used passed s closed t).1
