-- ===== src/Base/Dict.antt =====
-- JavaScript's `Map` and `Set` with text keys, as lists in insertion order.
use Prim.Native.String.{String}
use mathlib.Core.Path.{◌≡◌, refl}
use mathlib.Core.Bool.{Bool, false, ◌||◌}
use mathlib.Core.Option.{Option, none, some}
use mathlib.Core.List.{List, [], ◌∷◌, ◌++◌}
use native.Mathlib.Omega.{arith}
use ai_distributed_workflow.Base.Tests.{same, same_iff, if◌then◌else◌}

module _ {ℓ} {V : Type ℓ} where
  -- m.get(k)
  unfoldable pub get : String → List (String × V) → Option V
  get k [] = none
  get k ((j, v) ∷ m) = if same j k then some v else get k m

  -- m.set(k, v): a key that is there keeps its place.
  unfoldable pub put : String → V → List (String × V) → List (String × V)
  put k v [] = (k, v) ∷ []
  put k v ((j, w) ∷ m) = if same j k then (j, v) ∷ m else (j, w) ∷ put k v m

  pub get-put :
      (k j : String) (v : V) (m : List (String × V))
      → get j (put k v m) ≡ (if same k j then some v else get j m)
  unfolding get put
  get-put k j v [] = refl
  get-put k j v ((i, w) ∷ m) =
      ground (arith, same_iff k j, same_iff i k, same_iff i j, get-put k j v m)

-- s.has(k)
unfoldable pub has : String → List String → Bool
has k [] = false
has k (j ∷ s) = same j k || has k s

-- s.add(k)
unfoldable pub add : String → List String → List String
unfolding has
add k s = if has k s then s else s ++ k ∷ []

pub has-append : (k : String) (s t : List String) → has k (s ++ t) ≡ (has k s || has k t)
unfolding has
has-append k [] t = refl
has-append k (j ∷ s) t = ground (arith, has-append k s t)

pub has-add : (k j : String) (s : List String) → has j (add k s) ≡ (same k j || has j s)
unfolding add has
has-add k j s = ground (arith, has-append j s (k ∷ []), same_iff k j)
