-- ===== src/Scheduler/Slots.antt =====
-- The idempotency key of a slot in src/scheduler/scheduler.js.
use Prim.Native.Char.{Char, char, code}
use Prim.Native.String.{◌++◌, [], ◌∷◌}
use text.Mathlib.TextLemmas.{
  nil-append, cons-append, append_cancel_left, head-eq_of_cons-eq, tail-eq_of_cons-eq,
}
use ai_distributed_workflow.Base.{
  ℕ, ◌≡◌, ◌∙◌, ap, sym, String, refl, arith, Bool, true, not, ◌&&◌, ◌==◌,
}
use ai_distributed_workflow.Scheduler.Due.{Texts, slot_key}

unfoldable pub has_no_colon : String → Bool
has_no_colon [] = true
has_no_colon (c ∷ s) = not (code c == b':') && has_no_colon s

-- MongoDB's ids are shown in hexadecimal, so without a colon, and two ids or two times have different
-- texts.
pub record IsTexts (texts : Texts) : Type 0 where
  pub id_text-plain : (id : ℕ) → has_no_colon (texts.id_text id) ≡ true
  pub id_text-injective : (id id' : ℕ) → texts.id_text id ≡ texts.id_text id' → id ≡ id'
  pub iso_text-injective : (t t' : ℕ) → texts.iso_text t ≡ texts.iso_text t' → t ≡ t'

abbrev colon : Char
colon = char b':' tt

colon_append : (t : String) → ":" ++ t ≡ colon ∷ t
colon_append t = cons-append colon [] t ∙ ap (λ u. colon ∷ u) (nil-append t)

-- A text that begins with a colon does not begin with another character.
not_colon : (c : Char) (s t : String) → not (code c == b':') ≡ true → ":" ++ t ≡ c ∷ s → ⊥
not_colon c s t h e =
    let same : colon ≡ c = head-eq_of_cons-eq (sym (colon_append t) ∙ e) in
    let its : b':' ≡ code c = ap code same in ground (arith, h, its)

-- The part before the first colon and the part after it.
parts :
    (s s' t t' : String)
    → has_no_colon s ≡ true
    → has_no_colon s' ≡ true
    → s ++ (":" ++ t) ≡ s' ++ (":" ++ t')
    → (s ≡ s') × (t ≡ t')
unfolding has_no_colon
parts [] [] t t' h h' e = (refl, append_cancel_left ":" t t' (append_cancel_left [] _ _ e))
parts [] (c ∷ s') t t' h h' e =
    let first : not (code c == b':') ≡ true = ground (arith, h') in
    let same = sym (nil-append (":" ++ t)) ∙ e ∙ cons-append c s' (":" ++ t') in
    absurd (not_colon c _ t first same)
parts (c ∷ s) [] t t' h h' e =
    let first : not (code c == b':') ≡ true = ground (arith, h) in
    let same = sym (nil-append (":" ++ t')) ∙ sym e ∙ cons-append c s (":" ++ t) in
    absurd (not_colon c _ t' first same)
parts (c ∷ s) (c' ∷ s') t t' h h' e =
    let same = sym (cons-append c s (":" ++ t)) ∙ e ∙ cons-append c' s' (":" ++ t') in
    let (before, after) =
      parts s s' t t' (ground (arith, h)) (ground (arith, h')) (tail-eq_of_cons-eq same) in
    (ap (λ u. c ∷ u) before ∙ ap (λ d. d ∷ s') (head-eq_of_cons-eq same), after)

-- When ids have different texts, without a colon, and times have different texts: two slots have one
-- idempotency key only if they are one, the same time of the same workflow.
pub slot_key-injective :
    (texts : Texts)
    → IsTexts texts
    → (id id' t t' : ℕ) → slot_key texts id t ≡ slot_key texts id' t'
    → (id ≡ id') × (t ≡ t')
unfolding slot_key
slot_key-injective texts laws id id' t t' e =
    let (ids, times) =
      parts (texts.id_text id) (texts.id_text id') (texts.iso_text t) (texts.iso_text t')
        (laws.id_text-plain id) (laws.id_text-plain id') (append_cancel_left "schedule:" _ _ e) in
    (laws.id_text-injective id id' ids, laws.iso_text-injective t t' times)
