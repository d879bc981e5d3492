-- ===== src/Base/Result.antt =====
-- Calls that read and change a state and may throw: what was written before a throw stays
-- written, so the state comes back beside the error too.

pub data Result {ℓ κ} (E : Type ℓ) (A : Type κ) : Type (ℓ ⊔ κ) where
  ok : A → Result E A
  err : E → Result E A

-- A call in a program whose state is `S` and whose exceptions are `E`.
abbrev pub Call {ℓ} : Type ℓ → Type ℓ → Type ℓ → Type ℓ
Call S E A = S → Result E A × S

module _ {ℓ} {S E : Type ℓ} where
  abbrev pub continue : {A B : Type ℓ} → Result E A × S → (A → Call S E B) → Result E B × S
  continue (ok a, s) f = f a s
  continue (err e, s) f = (err e, s)

  -- If the body throws, the transaction is aborted and nothing of it is stored.
  abbrev pub settle : {A : Type ℓ} → S → Result E A × S → Result E A × S
  settle s (ok a, s') = (ok a, s')
  settle s (err e, s') = (err e, s)
