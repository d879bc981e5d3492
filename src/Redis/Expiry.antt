-- ===== src/Redis/Expiry.antt =====
-- One sorted-set key of Redis with a time to live: its contents at a time of Redis's clock.
use ai_distributed_workflow.Base.{
  Bool-cases, refl, ℕ, ◌+◌, ◌≤◌, ◌≡◌, ◌⊎◌, inl, inr, Bool, true, false, Option, none, some, leb,
  if◌then◌else◌, arith,
}
use ai_distributed_workflow.Redis.{Redis}

pub record Expiry (r : Redis) : Type 1 where
  pub Key : Type 0
  pub no_key : Key
  pub view : ℕ → Key → r.SortedSet
  -- A command that changes the set, at a time; a key that it creates has no time to live.
  pub update : ℕ → (r.SortedSet → r.SortedSet) → Key → Key
  -- PEXPIRE ttl at a time
  pub pexpire : ℕ → ℕ → Key → Key

pub record IsExpiry (r : Redis) (k : Expiry r) : Type 0 where
  pub view_none : (now : ℕ) → k.view now k.no_key ≡ r.no_scores
  pub update_now :
      (now : ℕ) (f : r.SortedSet → r.SortedSet) (x : k.Key)
      → k.view now (k.update now f x) ≡ f (k.view now x)
  -- The new contents stay, unless the time to live of the old key ends.
  pub update_later :
      (now later : ℕ) (f : r.SortedSet → r.SortedSet) (x : k.Key)
      → now ≤ later
      → (k.view later (k.update now f x) ≡ f (k.view now x))
        ⊎ ((k.view later (k.update now f x) ≡ r.no_scores) × (k.view later x ≡ r.no_scores))
  pub pexpire_later :
      (now ttl later : ℕ) (x : k.Key)
      → now ≤ later
      → (k.view later (k.pexpire now ttl x) ≡ k.view now x)
        ⊎ ((k.view later (k.pexpire now ttl x) ≡ r.no_scores) × (now + ttl ≤ later))

abbrev pub is_over : ℕ → Option ℕ → Bool
is_over now none = false
is_over now (some deadline) = leb deadline now

-- An instance: the set and its deadline.
abbrev pub contents : (r : Redis) → ℕ → r.SortedSet × Option ℕ → r.SortedSet
contents r now (z, deadline) = if is_over now deadline then r.no_scores else z

abbrev pub changed :
    (r : Redis) → ℕ → (r.SortedSet → r.SortedSet) → r.SortedSet × Option ℕ → r.SortedSet × Option ℕ
changed r now f (z, deadline) =
    if is_over now deadline then (f r.no_scores, none) else (f z, deadline)

abbrev pub expiring : (r : Redis) → ℕ → r.SortedSet × Option ℕ → ℕ → r.SortedSet × Option ℕ
expiring r now (z, old) deadline = if is_over now old then (z, old) else (z, some deadline)

abbrev pub expiry : (r : Redis) → Expiry r
expiry r = record {
  Key = r.SortedSet × Option ℕ;
  no_key = (r.no_scores, none);
  view = contents r;
  update = changed r;
  pexpire = λ now ttl x. expiring r now x (now + ttl);
}

over_later :
    (now later : ℕ) (d : Option ℕ) → now ≤ later → is_over now d ≡ true → is_over later d ≡ true
over_later now later none le h = h
over_later now later (some d) le h = ground (arith, le, h)

pub expiry-IsExpiry : (r : Redis) → IsExpiry r (expiry r)
expiry-IsExpiry r = record {
  view_none = λ now. refl;
  update_now = λ now f x. at_once now f x;
  update_later = λ now later f x le. in_time now later f x le;
  pexpire_later = λ now ttl later x le. expires now ttl later x le;
}
  where
    at_once :
        (now : ℕ) (f : r.SortedSet → r.SortedSet) (x : r.SortedSet × Option ℕ)
        → contents r now (changed r now f x) ≡ f (contents r now x)
    at_once now f (z, d) = elim (Bool-cases (is_over now d)) [
      | inl e ↦ rw e refl
      | inr e ↦ rw (e, e) refl
    ]

    in_time :
        (now later : ℕ) (f : r.SortedSet → r.SortedSet) (x : r.SortedSet × Option ℕ)
        → now ≤ later
        → (contents r later (changed r now f x) ≡ f (contents r now x))
          ⊎ ((contents r later (changed r now f x) ≡ r.no_scores)
              × (contents r later x ≡ r.no_scores))
    in_time now later f (z, d) le = elim (Bool-cases (is_over now d)) [
      | inl e ↦ inl (rw e refl)
      | inr e ↦ elim (Bool-cases (is_over later d)) [
        | inl e' ↦ inr (rw (e, e') (refl, refl))
        | inr e' ↦ inl (rw (e, e') refl)
      ]
    ]

    expires :
        (now ttl later : ℕ) (x : r.SortedSet × Option ℕ)
        → now ≤ later
        → (contents r later (expiring r now x (now + ttl)) ≡ contents r now x)
          ⊎ ((contents r later (expiring r now x (now + ttl)) ≡ r.no_scores) × (now + ttl ≤ later))
    expires now ttl later (z, d) le = elim (Bool-cases (is_over now d)) [
      | inl e ↦ inl (rw (e, over_later now later d le e) refl)
      | inr e ↦ elim (Bool-cases (leb (now + ttl) later)) [
        | inl e' ↦ inr (rw (e, e') refl, ground (arith, e'))
        | inr e' ↦ inl (rw (e, e') refl)
      ]
    ]
