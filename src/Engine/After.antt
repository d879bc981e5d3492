-- ===== src/Engine/After.antt =====
-- Reasoning about the steps of src/workflow/engine.js: what holds after a call that does not throw,
-- and what a call keeps whether it throws or not.
use ai_distributed_workflow.Base.{refl, Bool, true, false, if◌then◌else◌, ◌≡◌}
use ai_distributed_workflow.Base.Result.{Result, ok, err, continue, settle}
use ai_distributed_workflow.Mongo.Reference.{reference}
use ai_distributed_workflow.Workflow.States.{
  Machine, Status, assert_transition, Asserted, allowed, invalid_transition,
}
use ai_distributed_workflow.Engine.Model.{Store, Failure}
use ai_distributed_workflow.Engine.Actions.{unless_invalid, Act, ◌>>=◌, assert_legal, when}

-- `Q` holds of the result and the state, unless the call threw.
abbrev pub After {ℓ} : {A : Type 0} → (A → Store → Type ℓ) → Result Failure A × Store → Type ℓ
After Q (ok a, s) = Q a s
After Q (err e, s) = Unit

-- `P` is kept, also by a call that throws.
abbrev pub Keeps {ℓ} : {A : Type 0} → (Store → Type ℓ) → Act A → Type ℓ
Keeps P a = (s : Store) → P s → P (a s).1

module _ {ℓ κ} {A B : Type 0} (Q : A → Store → Type ℓ) (R : B → Store → Type κ) where
  After-continue :
      (r : Result Failure A × Store) (f : A → Act B)
      → After Q r
      → ((a : A) (s : Store) → Q a s → After R (f a s))
      → After R (continue r f)
  After-continue (ok a, s) f h k = k a s h
  After-continue (err e, s) f h k = tt

  pub After-bind :
      (a : Act A) (f : A → Act B) (s : Store)
      → After Q (a s)
      → ((x : A) (s' : Store) → Q x s' → After R (f x s'))
      → After R ((a >>= f) s)
  After-bind a f s h k = After-continue (a s) f h k

module _ {ℓ} {A B : Type 0} (P : Store → Type ℓ) where
  Keeps-continue :
      (r : Result Failure A × Store) (f : A → Act B)
      → P r.1
      → ((a : A) → Keeps P (f a))
      → P (continue r f).1
  Keeps-continue (ok a, s) f h k = k a s h
  Keeps-continue (err e, s) f h k = h

  pub Keeps-bind :
      (a : Act A) (f : A → Act B) → Keeps P a → ((x : A) → Keeps P (f x)) → Keeps P (a >>= f)
  Keeps-bind a f ka kf s h = Keeps-continue (a s) f (ka s h) kf

module _ {ℓ} {A : Type 0} (P : Store → Type ℓ) where
  settle-After :
      (s : Store) (r : Result Failure A × Store) → P s → After (λ _. P) r → P (settle s r).1
  settle-After s (ok a, s') h q = q
  settle-After s (err e, s') h q = h

  -- A transaction keeps what its body ensures when it does not throw.
  pub Keeps-transaction :
      (body : Act A)
      → ((s : Store) → P s → After (λ _. P) (body s))
      → Keeps P (reference.transaction body)
  Keeps-transaction body h s p = settle-After s (body s) p (h s p)

  pub After-of : (r : Result Failure A × Store) → P r.1 → After (λ _. P) r
  After-of (ok x, s') q = q
  After-of (err e, s') q = tt

  pub Keeps-After : (a : Act A) (s : Store) → Keeps P a → P s → After (λ _. P) (a s)
  Keeps-After a s k h = After-of (a s) (k s h)

  pub Keeps-if : (b : Bool) (a c : Act A) → Keeps P a → Keeps P c → Keeps P (if b then a else c)
  Keeps-if true a c ka kc = ka
  Keeps-if false a c ka kc = kc

pub Keeps-assert {ℓ} :
    (P : Store → Type ℓ) (mc : Machine) (from to : Status mc) → Keeps P (assert_legal mc from to)
Keeps-assert P mc from to s h = by_answer (assert_transition mc from to)
  where
    by_answer : (r : Asserted mc) → P (unless_invalid r s).1
    by_answer allowed = h
    by_answer (invalid_transition _ _) = h

pub After-when {ℓ} :
    (P : Store → Type ℓ) (b : Bool) (a : Act (Unit {0})) (s : Store)
    → (b ≡ true → After (λ _. P) (a s))
    → P s
    → After (λ _. P) (when b a s)
After-when P true a s h k = h refl
After-when P false a s h k = k

pub Keeps-when {ℓ} :
    (P : Store → Type ℓ) (b : Bool) (a : Act (Unit {0})) → Keeps P a → Keeps P (when b a)
Keeps-when P true a k s h = k s h
Keeps-when P false a k s h = h
