-- ===== src/Services/Canonical/Examples.antt =====
-- A value with the keys of its objects in two orders, as src/services/execution.service.js sees it.
use ai_distributed_workflow.Base.{◌≡◌, refl, [], ◌∷◌, ◌++◌}
use ai_distributed_workflow.Base.Text.{codes}
use ai_distributed_workflow.Engine.Model.{Text}
use ai_distributed_workflow.Services.Canonical.{
  Json, atom, array, object, item, no_item, field, no_field, canonical,
}
use ai_distributed_workflow.Services.Canonical.Alike.{
  arrays, objects, items, no_items, swapped, canonical-Alike,
}

-- What `JSON.stringify` makes of a key without special characters.
abbrev quote : Text → Text
quote t = b'"' ∷ (t ++ b'"' ∷ [])

abbrev one_key : Json
one_key = object (field (b'd' ∷ []) (atom (b'1' ∷ [])) no_field)

-- [{"a":2,"b":{"d":1}}] and [{"b":{"d":1},"a":2}]
abbrev sorted : Json
sorted = array (
    item (object (field (b'a' ∷ []) (atom (b'2' ∷ [])) (field (b'b' ∷ []) one_key no_field)))
      no_item)

abbrev unsorted : Json
unsorted = array (
    item (object (field (b'b' ∷ []) one_key (field (b'a' ∷ []) (atom (b'2' ∷ [])) no_field)))
      no_item)

unsorted_text : canonical quote unsorted ≡ codes "[{\"a\":2,\"b\":{\"d\":1}}]"
unfolding canonical codes
unsorted_text = refl

canonical-Alike_example : canonical quote sorted ≡ canonical quote unsorted
canonical-Alike_example =
    canonical-Alike quote sorted unsorted (arrays (items (objects (swapped refl)) no_items))
