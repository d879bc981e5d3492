-- ===== src/Redis/Keys.antt =====
-- One string key of Redis with a time to live, read at a time of Redis's clock, and a counter.
use ai_distributed_workflow.Base.{
  refl, ℕ, suc, ◌+◌, ◌≤◌, ◌≡◌, Bool, true, false, Option, none, some, ltb, if◌then◌else◌, arith,
}

pub record Keys : Type 1 where
  pub Key : Type 0
  pub no_key : Key
  -- GET at a time
  pub get : ℕ → Key → Option ℕ
  -- SET value PX ttl NX at a time, and whether the reply is OK
  pub set_nx : ℕ → ℕ → ℕ → Key → Bool × Key
  pub del : Key → Key
  -- PEXPIRE ttl at a time
  pub pexpire : ℕ → ℕ → Key → Key
  pub incr : ℕ → ℕ

abbrev pub until : ℕ → ℕ → ℕ → Option ℕ
until now deadline value = if ltb now deadline then some value else none

pub record IsKeys (k : Keys) : Type 0 where
  pub get_none : (now : ℕ) → k.get now k.no_key ≡ none
  -- A key that has expired stays away until it is set.
  pub get_later :
      (now later : ℕ) (x : k.Key) → now ≤ later → k.get now x ≡ none → k.get later x ≡ none
  pub set_free :
      (now value ttl : ℕ) (x : k.Key) → k.get now x ≡ none → (k.set_nx now value ttl x).0 ≡ true
  pub set_get :
      (now value ttl later : ℕ) (x : k.Key)
      → k.get now x ≡ none
      → now ≤ later
      → k.get later (k.set_nx now value ttl x).1 ≡ until later (now + ttl) value
  pub set_held :
      (now value ttl held : ℕ) (x : k.Key)
      → k.get now x ≡ some held
      → k.set_nx now value ttl x ≡ (false, x)
  pub del_get : (now : ℕ) (x : k.Key) → k.get now (k.del x) ≡ none
  pub pexpire_get :
      (now ttl later value : ℕ) (x : k.Key)
      → k.get now x ≡ some value
      → now ≤ later
      → k.get later (k.pexpire now ttl x) ≡ until later (now + ttl) value
  pub incr_lem : (n : ℕ) → k.incr n ≡ suc n

-- An instance: the value and its deadline.
abbrev pub read : ℕ → Option (ℕ × ℕ) → Option ℕ
read now none = none
read now (some (value, deadline)) = until now deadline value

abbrev pub expire_at : ℕ → Option (ℕ × ℕ) → Option (ℕ × ℕ)
expire_at deadline none = none
expire_at deadline (some (value, old)) = some (value, deadline)

abbrev pub set_if : ℕ → ℕ → ℕ → Option (ℕ × ℕ) → Option ℕ → Bool × Option (ℕ × ℕ)
set_if now value ttl x none = (true, some (value, now + ttl))
set_if now value ttl x (some held) = (false, x)

abbrev pub keys : Keys
keys = record {
  Key = Option (ℕ × ℕ);
  no_key = none;
  get = read;
  set_nx = λ now value ttl x. set_if now value ttl x (read now x);
  del = λ x. none;
  pexpire = λ now ttl x. expire_at (now + ttl) x;
  incr = λ n. suc n;
}

read_later :
    (now later : ℕ) (x : Option (ℕ × ℕ)) → now ≤ later → read now x ≡ none → read later x ≡ none
read_later now later none le h = refl
read_later now later (some (value, deadline)) le h = ground (arith, le, h)

read-expire_at :
    (now deadline later value : ℕ) (x : Option (ℕ × ℕ))
    → read now x ≡ some value
    → read later (expire_at deadline x) ≡ until later deadline value
read-expire_at now deadline later value none h = absurd (ground (arith, h))
read-expire_at now deadline later value (some (v, old)) h = ground (arith, h)

pub keys-IsKeys : IsKeys keys
keys-IsKeys = record {
  get_none = λ now. refl;
  get_later = read_later;
  set_free = λ now value ttl x h. rw (h, set_if) refl;
  set_get = λ now value ttl later x h le. rw (h, set_if) refl;
  set_held = λ now value ttl held x h. rw (h, set_if) refl;
  del_get = λ now x. refl;
  pexpire_get = λ now ttl later value x h le. read-expire_at now (now + ttl) later value x h;
  incr_lem = λ n. refl;
}
