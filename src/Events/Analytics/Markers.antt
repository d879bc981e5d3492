-- ===== src/Events/Analytics/Markers.antt =====
-- The markers of processed events in src/events/analyticsProcessor.js, which MongoDB removes when
-- they are over.
use ai_distributed_workflow.Events.Analytics.Tally.{is_applied, is_up, has_id}
use ai_distributed_workflow.Base.{
  ◌⊎◌, ℕ, ◌+◌, ◌≡◌, arith, Bool, true, List, [], ◌∷◌, ◌++◌, ◌==◌, ◌&&◌, any, if◌then◌else◌, inl,
  inr, Bool-cases, All, ◌||◌,
}
use ai_distributed_workflow.Base.Result.{Result}
use ai_distributed_workflow.Base.{keep, not, leb, ◌≤◌}
use ai_distributed_workflow.Events.Analytics.{Marker, marker_ttl, Delivery, Reply, Error, Stats}

abbrev pub is_marked : ℕ → Stats → Bool
is_marked i s = any (λ k. i == k.event_id) s.processed

-- The deliveries that were answered "applied", with the later first.
abbrev pub with_reply : Delivery → Result Error Reply → List Delivery → List Delivery
with_reply e reply h = if is_applied reply then e ∷ h else h

-- A delivery, or MongoDB removes markers.
pub data Event : Type 0 where
  delivers : Delivery → Event
  removes : ℕ → (Marker → Bool) → Event

abbrev pub time : Event → ℕ
time (delivers e) = e.now
time (removes now chosen) = now

-- No clock is behind the one before it.
abbrev pub InOrder : ℕ → List Event → Type 0
InOrder clock [] = Unit
InOrder clock (x ∷ xs) = (clock ≤ time x) × InOrder (time x) xs

-- Two deliveries of one event are at least the time to live of a marker apart.
abbrev pub Apart : Delivery → Delivery → Type 0
Apart later earlier =
    (later.event_id == earlier.event_id) ≡ true → earlier.now + marker_ttl ≤ later.now

abbrev pub Spaced : List Delivery → Type 0
Spaced [] = Unit
Spaced (e ∷ h) = All (Apart e) h × Spaced h

-- A delivery in which no call failed is of an event that was applied.
abbrev pub Counts : List Delivery → Event → Type 0
Counts h (delivers e) = is_up e ≡ true → any (has_id e.event_id) h ≡ true
Counts h (removes now chosen) = Unit

-- A marker of the event that is not older than the delivery.
abbrev pub covers : Delivery → Marker → Bool
covers x k = x.event_id == k.event_id && leb x.now k.processed_at

pub any-snoc :
    (p : Marker → Bool) (k : Marker) (xs : List Marker) → any p (xs ++ k ∷ []) ≡ (any p xs || p k)
any-snoc p k [] = ground arith
any-snoc p k (x ∷ xs) = ground (arith, any-snoc p k xs)

pub covered-marked :
    (x : Delivery) (ks : List Marker)
    → any (covers x) ks ≡ true
    → any (λ k. x.event_id == k.event_id) ks ≡ true
covered-marked x [] h = h
covered-marked x (k ∷ ks) h = ground (arith, h, covered-marked x ks)

abbrev pub survives : ℕ → (Marker → Bool) → Marker → Bool
survives now chosen k = not (chosen k && leb (k.processed_at + marker_ttl) now)

pub expire-marked :
    (i now : ℕ) (chosen : Marker → Bool) (ks : List Marker)
    → any (λ k. i == k.event_id) (keep (survives now chosen) ks) ≡ true
    → any (λ k. i == k.event_id) ks ≡ true
expire-marked i now chosen [] h = h
expire-marked i now chosen (k ∷ ks) h = ground (arith, h, expire-marked i now chosen ks)

pub expire-covered :
    (x : Delivery) (now : ℕ) (chosen : Marker → Bool) (ks : List Marker)
    → any (covers x) ks ≡ true
    → (any (covers x) (keep (survives now chosen) ks) ≡ true) ⊎ (x.now + marker_ttl ≤ now)
expire-covered x now chosen [] h = inl h
expire-covered x now chosen (k ∷ ks) h = elim (Bool-cases (any (covers x) ks)) [
  | inl later ↦ elim (expire-covered x now chosen ks later) [
    | inl there ↦ inl (ground (arith, there))
    | inr old ↦ inr old
  ]
  | inr other ↦
      let its : covers x k ≡ true = ground (arith, h, other) in
      elim (Bool-cases (survives now chosen k)) [
        | inl stays ↦ inl (ground (arith, its, stays))
        | inr gone ↦ inr (ground (arith, its, gone))
      ]
]
