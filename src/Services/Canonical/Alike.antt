-- ===== src/Services/Canonical/Alike.antt =====
-- What canonical of src/services/execution.service.js makes of values that differ in the order of
-- keys.
use ai_distributed_workflow.Base.{
  ◌≡◌, refl, ◌∙◌, ap, true, false, List, [], ◌∷◌, ◌++◌, map, arith, Bool-cases, inl, inr,
}
use ai_distributed_workflow.Engine.Model.{Text}
use ai_distributed_workflow.Services.Canonical.{
  Json, atom, array, object, Items, no_item, item, Fields, no_field, field, same_text, sort,
  insert_key, keys, value_at, entry, entries, item_texts, canonical, join, object_text,
}
use ai_distributed_workflow.Services.Canonical.Sorting.{insert_key-swap}

-- Two values are alike if they differ only in the order of the keys of objects, at any depth.
mutual
  pub data Alike : Json → Json → Type 0 where
    atoms : {t : Text} → Alike (atom t) (atom t)
    arrays : {xs ys : Items} → AlikeItems xs ys → Alike (array xs) (array ys)
    objects : {fs gs : Fields} → AlikeFields fs gs → Alike (object fs) (object gs)

  pub data AlikeItems : Items → Items → Type 0 where
    no_items : AlikeItems no_item no_item
    items :
        {x y : Json} {xs ys : Items}
        → Alike x y
        → AlikeItems xs ys
        → AlikeItems (item x xs) (item y ys)

  pub data AlikeFields : Fields → Fields → Type 0 where
    no_fields : AlikeFields no_field no_field
    fields :
        {k : Text} {x y : Json} {fs gs : Fields}
        → Alike x y
        → AlikeFields fs gs
        → AlikeFields (field k x fs) (field k y gs)
    swapped :
        {k l : Text} {x y : Json} {fs : Fields}
        → same_text k l ≡ false
        → AlikeFields (field k x (field l y fs)) (field l y (field k x fs))
    chained : {fs gs hs : Fields} → AlikeFields fs gs → AlikeFields gs hs → AlikeFields fs hs

-- Two lists of entries with the same sorted keys and the same value for each key.
abbrev AsOne : List (Text × Text) → List (Text × Text) → Type 0
AsOne es ds = (sort (keys es) ≡ sort (keys ds)) × ((k : Text) → value_at k es ≡ value_at k ds)

same_text-eq : (s t : Text) → same_text s t ≡ true → s ≡ t
same_text-eq [] [] h = refl
same_text-eq [] (d ∷ t) h = absurd (ground (arith, h))
same_text-eq (c ∷ s) [] h = absurd (ground (arith, h))
same_text-eq (c ∷ s) (d ∷ t) h =
    let head : c ≡ d = ground (arith, h) in
    let tail : s ≡ t = same_text-eq s t (ground (arith, h)) in
    ap (λ n. n ∷ s) head ∙ ap (λ u. d ∷ u) tail

module _ (quote : Text → Text) where
  map-entry :
      (es ds : List (Text × Text)) (ks : List Text)
      → ((k : Text) → value_at k es ≡ value_at k ds)
      → map (entry quote es) ks ≡ map (entry quote ds) ks
  map-entry es ds [] h = refl
  map-entry es ds (k ∷ ks) h =
      ap (λ v. (quote k ++ b':' ∷ v) ∷ map (entry quote es) ks) (h k)
      ∙ ap (λ ys. entry quote ds k ∷ ys) (map-entry es ds ks h)

  object_text-eq :
      (es ds : List (Text × Text)) → AsOne es ds → object_text quote es ≡ object_text quote ds
  object_text-eq es ds (order, values) =
      ap (λ ks. b'{' ∷ (join (map (entry quote es) ks) ++ b'}' ∷ [])) order
      ∙ ap (λ ys. b'{' ∷ (join ys ++ b'}' ∷ [])) (map-entry es ds (sort (keys ds)) values)

  swap-AsOne :
      (k l v w : Text) (es : List (Text × Text))
      → same_text k l ≡ false
      → AsOne ((k, v) ∷ (l, w) ∷ es) ((l, w) ∷ (k, v) ∷ es)
  swap-AsOne k l v w es h = (insert_key-swap k l (sort (keys es)) h, values)
    where
      values : (j : Text) → value_at j ((k, v) ∷ (l, w) ∷ es) ≡ value_at j ((l, w) ∷ (k, v) ∷ es)
      values j = elim (Bool-cases (same_text j k)) [
        | inl e ↦
            let same : j ≡ k = same_text-eq j k e in
            let other : same_text j l ≡ false = rw same h in rw (e, other) refl
        | inr e ↦ rw e refl
      ]

  mutual
    unfolding canonical

    one_text : {x y : Json} → Alike x y → canonical quote x ≡ canonical quote y
    one_text atoms = refl
    one_text (arrays h) = ap (λ ts. b'[' ∷ (join ts ++ b']' ∷ [])) (item_texts-AlikeItems h)
    one_text (objects h) = object_text-eq _ _ (entries-AlikeFields h)

    item_texts-AlikeItems :
        {xs ys : Items} → AlikeItems xs ys → item_texts quote xs ≡ item_texts quote ys
    item_texts-AlikeItems no_items = refl
    item_texts-AlikeItems (items {y = y} {xs = xs} h t) =
        ap (λ u. u ∷ item_texts quote xs) (one_text h)
        ∙ ap (λ us. canonical quote y ∷ us) (item_texts-AlikeItems t)

    entries-AlikeFields :
        {fs gs : Fields} → AlikeFields fs gs → AsOne (entries quote fs) (entries quote gs)
    entries-AlikeFields no_fields = (refl, λ k. refl)
    entries-AlikeFields (fields {k = k} h t) =
        let (order, values) = entries-AlikeFields t in
        let same = one_text h in (ap (λ ks. insert_key k ks) order, λ j. rw (same, values j) refl)
    entries-AlikeFields (swapped {k = k} {l = l} {x = x} {y = y} {fs = fs} h) =
        swap-AsOne k l (canonical quote x) (canonical quote y) (entries quote fs) h
    entries-AlikeFields (chained h t) =
        let (order, values) = entries-AlikeFields h in
        let (order', values') = entries-AlikeFields t in (order ∙ order', λ k. values k ∙ values' k)

  -- Values that differ only in the order of the keys of objects, at any depth, have one canonical
  -- text, whatever `JSON.stringify` makes of keys.
  pub canonical-Alike : (x y : Json) → Alike x y → canonical quote x ≡ canonical quote y
  canonical-Alike x y h = one_text h
