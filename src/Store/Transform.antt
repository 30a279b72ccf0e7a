-- ===== src/Store/Transform.antt =====
-- store/transformer.go, and `ResultEvent` of store/store.go. A value of the type `interface{}` is
-- one of the types that the transformers know, or another one.
pub mod Collection
mod Tests
pub mod Unique
pub mod Ids
pub mod Model
use go_res.Base.{
  if◌then◌else◌, str_eq, codes, Bytes, Option, none, some, List, [], ◌∷◌, map, ◌⊎◌, inl, inr,
}
use go_res.Params.{insert}
use go_res.Events.{ℤ}

-- `string`, `[]string`, `res.Ref`, `[]res.Ref`, `map[string]res.Ref`, and `res.DeleteAction`, and nil.
pub data Dynamic (V : Type 0) : Type 0 where
  string ref : Bytes → Dynamic V
  strings refs : List Bytes → Dynamic V
  ref_map : List (Bytes × Bytes) → Dynamic V
  delete_action nil : Dynamic V
  other : V → Dynamic V

-- A field that an event does not set has its zero value.
pub record ResultEvent (V : Type 0) : Type 0 where
  pub name : Bytes
  pub idx : ℤ
  pub value : Dynamic V
  pub changed : List (Bytes × Dynamic V)

pub data TransformError : Type 0 where
  result_not_strings add_not_string remove_not_string : TransformError

-- `refs[id] = res.Ref(t(id))` for each.
unfoldable pub ref_entries :
    (Bytes → Bytes) → List Bytes → List (Bytes × Bytes) → List (Bytes × Bytes)
ref_entries t [] m = m
ref_entries t (id ∷ ids) m = ref_entries t ids (insert id (t id) m)

module _ {V : Type 0} (t : Bytes → Bytes) where
  unfoldable pub collection_result : Dynamic V → TransformError ⊎ Dynamic V
  collection_result (strings ids) = inr (refs (map t ids))
  collection_result v = inl result_not_strings

  -- `evs[i].Value = res.Ref(t(id))`, for an add event with a string.
  collection_event : ResultEvent V → Dynamic V → TransformError ⊎ ResultEvent V
  collection_event ev (string id) = inr (record ev { value = ref (t id) })
  collection_event ev v = inl add_not_string

  -- The events that are left in the caller's slice, which the loop writes to, and the error.
  unfoldable pub collection_events :
      List (ResultEvent V) → Option TransformError × List (ResultEvent V)
  unfolding collection_event
  collection_events [] = (none, [])
  collection_events (ev ∷ evs) =
      let rest = collection_events evs in
      if str_eq ev.name (codes "add")
      then elim (collection_event ev ev.value) [
        | inl e ↦ (some e, ev ∷ evs)
        | inr ev' ↦ (rest.0, ev' ∷ rest.1)
      ]
      else (rest.0, ev ∷ rest.1)

  unfoldable pub model_result : Dynamic V → TransformError ⊎ Dynamic V
  unfolding ref_entries
  model_result (strings ids) = inr (ref_map (ref_entries t ids []))
  model_result v = inl result_not_strings

  model_add : Dynamic V → List (Bytes × Dynamic V) → TransformError ⊎ List (Bytes × Dynamic V)
  model_add (string id) ch = inr (insert id (ref (t id)) ch)
  model_add v ch = inl add_not_string

  model_remove : Dynamic V → List (Bytes × Dynamic V) → TransformError ⊎ List (Bytes × Dynamic V)
  model_remove (string id) ch = inr (insert id delete_action ch)
  model_remove v ch = inl remove_not_string

  -- One event; those of another name are passed over.
  model_event : ResultEvent V → List (Bytes × Dynamic V) → TransformError ⊎ List (Bytes × Dynamic V)
  unfolding model_add model_remove
  model_event ev ch =
      if str_eq ev.name (codes "add")
      then model_add ev.value ch
      else if str_eq ev.name (codes "remove")
      then model_remove ev.value ch
      else inr ch

  model_changes :
      List (ResultEvent V) → List (Bytes × Dynamic V) → TransformError ⊎ List (Bytes × Dynamic V)
  unfolding model_event
  model_changes [] ch = inr ch
  model_changes (ev ∷ evs) ch = elim (model_event ev ch) [
    | inl e ↦ inl e
    | inr ch' ↦ model_changes evs ch'
  ]

  -- `ResultEvent{Name: "change", Changed: ch}`
  abbrev pub change_of_all : List (Bytes × Dynamic V) → ResultEvent V
  change_of_all ch = record { name = codes "change"; idx = ℤ.pos 0; value = nil; changed = ch }

  unfoldable pub model_events : List (ResultEvent V) → TransformError ⊎ List (ResultEvent V)
  unfolding model_changes
  model_events [] = inr []
  model_events (ev ∷ evs) = elim (model_changes (ev ∷ evs) []) [
    | inl e ↦ inl e
    | inr ch ↦ inr (change_of_all ch ∷ [])
  ]
