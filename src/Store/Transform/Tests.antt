-- ===== src/Store/Transform/Tests.antt =====
-- Runs of the transformers, and the theorems about them.
use go_res.Base.{codes, str_eq, Bytes, none, some, List, [], ◌∷◌, ◌++◌, ok, inr, ◌≡◌, refl}
use go_res.Events.{ℤ}
use go_res.Params.{Params, lookup}
use go_res.Parts.{parts, first, others}
use go_res.Pattern.Match.{values}
use go_res.Store.Diff.Script.{insert_elem, delete_elem}
use go_res.Store.Transform.{
  string, strings, refs, ref_map, ResultEvent, collection_result, collection_events, model_result,
  model_events, add_not_string,
}
use go_res.Store.Transform.Collection.{edit_with, edit_at, as_ref, collection_events-edit}
use go_res.Store.Transform.Unique.{has, edit_unique, edit_once}
use go_res.Store.Transform.Model.{OneChange, follow_changes, model_events-edit}
use go_res.Store.Transform.Ids.{id_transformer, to_id, to_rid, to_id-to_rid}

abbrev book : Bytes → Bytes
book id = codes "book." ++ id

-- "1" is moved behind "2", and "3" is put in front.
abbrev moves : List (ResultEvent (Unit {0}))
moves =
    (record { name = codes "remove"; idx = ℤ.pos 0; value = string (codes "1"); changed = [] })
    ∷ (record { name = codes "add"; idx = ℤ.pos 1; value = string (codes "1"); changed = [] })
    ∷ (record { name = codes "add"; idx = ℤ.pos 0; value = string (codes "3"); changed = [] })
    ∷ []

abbrev ids_before : List Bytes
ids_before = codes "1" ∷ codes "2" ∷ []

abbrev ids_after : List Bytes
ids_after = codes "3" ∷ codes "2" ∷ codes "1" ∷ []

collection_events-edit_example :
    (evs' : List (ResultEvent (Unit {0}))) × (before : List Bytes) × (after : List Bytes)
    × (collection_result {V = Unit {0}} book (strings ids_before) ≡ inr (refs before))
    × (collection_result {V = Unit {0}} book (strings ids_after) ≡ inr (refs after))
    × (collection_events book moves ≡ (none, evs'))
    × (edit_with as_ref evs' before ≡ some after)
unfolding edit_with edit_at str_eq insert_elem delete_elem
collection_events-edit_example = collection_events-edit book moves ids_before ids_after refl

model_events-edit_example :
    (evs' : List (ResultEvent (Unit {0}))) × (before : List (Bytes × Bytes)) × (after : List
      (Bytes × Bytes))
    × (model_result {V = Unit {0}} book (strings ids_before) ≡ inr (ref_map before))
    × (model_result {V = Unit {0}} book (strings ids_after) ≡ inr (ref_map after))
    × (model_events book moves ≡ inr evs')
    × OneChange moves evs'
    × ((k : Bytes) → follow_changes k evs' (lookup k before) ≡ lookup k after)
unfolding edit_unique edit_once str_eq insert_elem delete_elem has
model_events-edit_example = model_events-edit book moves ids_before ids_after refl refl

to_id-to_rid_example :
    (rid : Bytes) × (params : Params) × (to_rid
        (id_transformer {V = Unit {0}} {E = Unit {0}} (codes "id") none)
        (codes "42")
        tt
        (codes "book.$id.page")
      ≡ ok rid)
    × (values (codes "book.$id.page") rid ≡ some (some params))
    × (to_id (id_transformer {V = Unit {0}} {E = Unit {0}} (codes "id") none) rid params
        ≡ codes "42")
unfolding parts first others str_eq
to_id-to_rid_example =
    to_id-to_rid (codes "id") (codes "42") (codes "book.$id.page") tt none refl refl refl refl refl

-- TransformEvents writes to the slice that it is given: of the events that it returned, the additions
-- no longer hold strings.

transformed_twice :
    (collection_events book (collection_events book moves).1).0 ≡ some add_not_string
unfolding collection_events str_eq
transformed_twice = refl
