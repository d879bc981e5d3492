-- ===== src/Services/Canonical.antt =====
-- src/services/execution.service.js: canonical, the JSON text of a value with the keys of its objects
-- sorted. An atom is a value that is no array and no object, as `JSON.stringify` shows it; what
-- `JSON.stringify` makes of a key is a parameter.
pub mod Sorting
pub mod Alike
mod Examples
use ai_distributed_workflow.Base.{
  ℕ, Bool, true, false, List, [], ◌∷◌, ◌++◌, ◌==◌, ◌&&◌, ◌||◌, ltb, if◌then◌else◌, map,
}
use ai_distributed_workflow.Engine.Model.{Text}

mutual
  pub data Json : Type 0 where
    atom : Text → Json
    array : Items → Json
    object : Fields → Json

  pub data Items : Type 0 where
    no_item : Items
    item : Json → Items → Items

  pub data Fields : Type 0 where
    no_field : Fields
    field : Text → Json → Fields → Fields

abbrev pub same_text : Text → Text → Bool
same_text [] [] = true
same_text [] (d ∷ t) = false
same_text (c ∷ s) [] = false
same_text (c ∷ s) (d ∷ t) = c == d && same_text s t

-- The order of `sort` on strings: by code units.
abbrev pub leb_text : Text → Text → Bool
leb_text [] t = true
leb_text (c ∷ s) [] = false
leb_text (c ∷ s) (d ∷ t) = ltb c d || (c == d && leb_text s t)

abbrev pub insert_key : Text → List Text → List Text
insert_key k [] = k ∷ []
insert_key k (x ∷ xs) =
    let rest = insert_key k xs in if leb_text k x then k ∷ (x ∷ xs) else x ∷ rest

abbrev pub sort : List Text → List Text
sort [] = []
sort (k ∷ ks) = insert_key k (sort ks)

-- `join(",")`
abbrev pub join : List Text → Text
join [] = []
join (x ∷ []) = x
join (x ∷ y ∷ xs) = x ++ b',' ∷ join (y ∷ xs)

abbrev pub keys : List (Text × Text) → List Text
keys [] = []
keys ((k, v) ∷ es) = k ∷ keys es

abbrev pub value_at : Text → List (Text × Text) → Text
value_at k [] = []
value_at k ((j, v) ∷ es) = let rest = value_at k es in if same_text k j then v else rest

module _ (quote : Text → Text) where
  abbrev pub entry : List (Text × Text) → Text → Text
  entry es k = quote k ++ b':' ∷ value_at k es

  abbrev pub object_text : List (Text × Text) → Text
  object_text es = b'{' ∷ (join (map (entry es) (sort (keys es))) ++ b'}' ∷ [])

  unfoldable mutual
    pub canonical : Json → Text
    canonical (atom t) = t
    canonical (array xs) = b'[' ∷ (join (item_texts xs) ++ b']' ∷ [])
    canonical (object fs) = object_text (entries fs)

    pub item_texts : Items → List Text
    item_texts no_item = []
    item_texts (item x xs) = canonical x ∷ item_texts xs

    pub entries : Fields → List (Text × Text)
    entries no_field = []
    entries (field k x fs) = (k, canonical x) ∷ entries fs
