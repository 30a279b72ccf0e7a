-- ===== src/Store/Transform/Model.antt =====
-- The events of a list of identifiers, transformed, are a change of the model of references.
use go_res.Base.{
  ℕ, all, and-eq-true, if◌then◌else◌, str_eq, eq_of_str_eq, codes, Bytes, Bool, true, false,
  Bool-cases, Option, none, some, eq_of_some, List, [], ◌∷◌, follow-eq-some, inl, inr, ◌≡◌, refl,
  sym, ◌∙◌, ap, arith,
}
use go_res.Params.{insert, lookup, lookup-insert-eq}
use go_res.Events.{ℤ}
use go_res.Store.Diff.Script.{delete_elem, insert_elem}
use go_res.Store.Transform.{
  nil, Dynamic, string, strings, ref, ref_map, delete_action, ResultEvent, ref_entries,
  model_result, model_add, model_remove, model_event, model_changes, change_of_all, model_events,
}
use go_res.Store.Transform.Collection.{as_string, eq_of_as_string}
use go_res.Store.Transform.Unique.{
  has, distinct, stands_at, edit_once, edit_unique, has-insert_elem, distinct-insert_elem,
  has-delete_elem, distinct-delete_elem, edit_once_cases,
}

-- The copy of a property, behind what a change event holds for it.
abbrev pub take_change : {V : Type 0} → Option (Dynamic V) → Option Bytes → Option Bytes
take_change (some (ref r)) held = some r
take_change (some delete_action) held = none
take_change _ held = held

abbrev pub follow_changes :
    {V : Type 0} → Bytes → List (ResultEvent V) → Option Bytes → Option Bytes
follow_changes k [] held = held
follow_changes k (ev ∷ evs) held =
    follow_changes k evs
      (if str_eq ev.name (codes "change") then take_change (lookup k ev.changed) held else held)

-- No event for no events, and else one change event, with a model of references and deletions only.
abbrev pub is_update : {V : Type 0} → Dynamic V → Bool
is_update (ref r) = true
is_update delete_action = true
is_update _ = false

abbrev pub OneChange : {V : Type 0} → List (ResultEvent V) → List (ResultEvent V) → Type 0
OneChange [] evs' = evs' ≡ []
OneChange {V} (ev ∷ evs) evs' =
    (ch : List (Bytes × Dynamic V)) × (all (λ p. is_update p.1) ch ≡ true)
    × (evs' ≡ record { name = codes "change"; idx = ℤ.pos 0; value = nil; changed = ch } ∷ [])

abbrev property : (Bytes → Bytes) → Bytes → List Bytes → Option Bytes
property t k xs = if has k xs then some (t k) else none

lookup-ref_entries :
    (t : Bytes → Bytes) (k : Bytes) (xs : List Bytes) (m : List (Bytes × Bytes))
    → lookup k (ref_entries t xs m) ≡ (if has k xs then some (t k) else lookup k m)
unfolding has ref_entries
lookup-ref_entries t k [] m = refl
lookup-ref_entries t k (x ∷ xs) m =
    lookup-ref_entries t k xs (insert x (t x) m) ∙ (elim (Bool-cases (str_eq x k)) [
      | inl e ↦ rw (lookup-insert-eq x k (t x) m, e, eq_of_str_eq x k e) (ground arith)
      | inr e ↦ rw (lookup-insert-eq x k (t x) m, e) refl
    ])

module _ {V : Type 0} (t : Bytes → Bytes) where
  abbrev Tracks : (Bytes → Option Bytes) → List (Bytes × Dynamic V) → List Bytes → Type 0
  Tracks base ch xs = (k : Bytes) → take_change (lookup k ch) (base k) ≡ property t k xs

  abbrev OnlyUpdates : List (Bytes × Dynamic V) → Type 0
  OnlyUpdates ch = all (λ p. is_update p.1) ch ≡ true

  insert-OnlyUpdates :
      (k : Bytes) (v : Dynamic V) (ch : List (Bytes × Dynamic V))
      → is_update v ≡ true
      → OnlyUpdates ch
      → OnlyUpdates (insert k v ch)
  unfolding insert
  insert-OnlyUpdates k v [] e h = rw e refl
  insert-OnlyUpdates k v ((j, w) ∷ ch) e h =
      let (here, more) = and-eq-true (is_update w) (all (λ p. is_update p.1) ch) h in
      elim (Bool-cases (str_eq j k)) [
        | inl y ↦ rw (y, e) more
        | inr y ↦ rw (y, here) (insert-OnlyUpdates k v ch e more)
      ]

  added-Tracks :
      (base : Bytes → Option Bytes) (ch : List (Bytes × Dynamic V)) (id : Bytes) (n : ℕ)
      (xs ys : List Bytes)
      → insert_elem id n xs ≡ some ys
      → Tracks base ch xs
      → Tracks base (insert id (ref (t id)) ch) ys
  added-Tracks base ch id n xs ys h tr k = elim (Bool-cases (str_eq id k)) [
    | inl e ↦
        rw
          (
            lookup-insert-eq id k (ref (t id)) ch,
            has-insert_elem k id n xs ys h,
            e,
            eq_of_str_eq id k e,
          )
          refl
    | inr e ↦ rw (lookup-insert-eq id k (ref (t id)) ch, has-insert_elem k id n xs ys h, e) (tr k)
  ]

  removed-Tracks :
      (base : Bytes → Option Bytes) (ch : List (Bytes × Dynamic V)) (id : Bytes) (n : ℕ)
      (xs ys : List Bytes)
      → delete_elem n xs ≡ some ys
      → stands_at id n xs ≡ true
      → distinct xs ≡ true
      → Tracks base ch xs
      → Tracks base (insert id delete_action ch) ys
  removed-Tracks base ch id n xs ys h a d tr k = elim (Bool-cases (str_eq id k)) [
    | inl e ↦
        rw
          (
            lookup-insert-eq {V = Dynamic V} id k delete_action ch,
            has-delete_elem k id n xs ys h a d,
            e,
          )
          (ground arith)
    | inr e ↦
        rw
          (
            lookup-insert-eq {V = Dynamic V} id k delete_action ch,
            has-delete_elem k id n xs ys h a d,
            e,
          )
          (tr k ∙ ground arith)
  ]

  model_changes-cons :
      (ev : ResultEvent V) (evs : List (ResultEvent V)) (ch ch' : List (Bytes × Dynamic V))
      → model_event t ev ch ≡ inr ch'
      → model_changes t (ev ∷ evs) ch ≡ model_changes t evs ch'
  unfolding model_changes
  model_changes-cons ev evs ch ch' h = rw (model_changes, h) refl

  model_event-add :
      (ev : ResultEvent V) (ch : List (Bytes × Dynamic V)) (id : Bytes)
      → str_eq ev.name (codes "add") ≡ true
      → ev.value ≡ string id
      → model_event t ev ch ≡ inr (insert id (ref (t id)) ch)
  unfolding model_event model_add
  model_event-add ev ch id a v = rw (a, v) refl

  model_event-remove :
      (ev : ResultEvent V) (ch : List (Bytes × Dynamic V)) (id : Bytes)
      → str_eq ev.name (codes "add") ≡ false
      → str_eq ev.name (codes "remove") ≡ true
      → ev.value ≡ string id
      → model_event t ev ch ≡ inr (insert id delete_action ch)
  unfolding model_event model_remove
  model_event-remove ev ch id a r v = rw (a, r, v) refl

  model_changes-Tracks :
      (base : Bytes → Option Bytes) (evs : List (ResultEvent V)) (ch : List (Bytes × Dynamic V))
      (xs ys : List Bytes)
      → edit_unique evs xs ≡ some ys
      → distinct xs ≡ true
      → OnlyUpdates ch
      → Tracks base ch xs
      → (ch' : List (Bytes × Dynamic V)) × (model_changes t evs ch ≡ inr ch')
        × OnlyUpdates ch'
        × Tracks base ch' ys
  unfolding edit_unique model_changes
  model_changes-Tracks base [] ch xs ys h d us tr =
      (ch, refl, us, λ k. tr k ∙ ap (λ z. property t k z) (eq_of_some h))
  model_changes-Tracks base (ev ∷ evs) ch xs ys h d us tr =
      let (id, need, rest) = follow-eq-some (as_string ev.value) _ h in
      let (zs, edit, tail) =
        follow-eq-some (edit_once ev.name ev.idx id xs) (edit_unique evs) rest in
      let v : ev.value ≡ string id = eq_of_as_string ev.value id need in
      elim (edit_once_cases ev.name ev.idx id xs zs edit) [
        | inl (a, (n, k, q)) ↦
            let (ch', e, us', tr') =
              model_changes-Tracks base evs (insert id (ref (t id)) ch) zs ys tail
                (distinct-insert_elem id n xs zs q k d)
                (insert-OnlyUpdates id (ref (t id)) ch refl us)
                (added-Tracks base ch id n xs zs q tr) in
            (ch', model_changes-cons ev evs ch _ (model_event-add ev ch id a v) ∙ e, us', tr')
        | inr (a, r, (n, k, q)) ↦
            let (ch', e, us', tr') =
              model_changes-Tracks base evs (insert id delete_action ch) zs ys tail
                (distinct-delete_elem id n xs zs q k d)
                (insert-OnlyUpdates id delete_action ch refl us)
                (removed-Tracks base ch id n xs zs q k d tr) in
            (ch', model_changes-cons ev evs ch _ (model_event-remove ev ch id a r v) ∙ e, us', tr')
      ]

  -- If the events lead a list of identifiers without repetitions to another one, so that each adds an
  -- identifier that is not there or removes one at its index, then TransformEvents returns no error,
  -- and returns no event for no events, and else one change event, whose values are references and
  -- delete actions. What is returned leads the model of references that
  -- TransformResult makes of the first list to that which it makes of the second, key by key.
  pub model_events-edit :
      (evs : List (ResultEvent V)) (xs ys : List Bytes)
      → edit_unique evs xs ≡ some ys
      → distinct xs ≡ true
      → (evs' : List (ResultEvent V)) × (before : List (Bytes × Bytes)) × (after : List
          (Bytes × Bytes))
        × (model_result {V = V} t (strings xs) ≡ inr (ref_map before))
        × (model_result {V = V} t (strings ys) ≡ inr (ref_map after))
        × (model_events t evs ≡ inr evs')
        × OneChange evs evs'
        × ((k : Bytes) → follow_changes k evs' (lookup k before) ≡ lookup k after)
  unfolding model_events model_result edit_unique lookup str_eq
  model_events-edit [] xs ys h d = (
    [],
    ref_entries t xs [],
    ref_entries t ys [],
    refl,
    refl,
    refl,
    refl,
    λ k. ap (λ z. lookup k (ref_entries t z [])) (eq_of_some h),
  )
  model_events-edit (ev ∷ evs) xs ys h d =
      let base : Bytes → Option Bytes = λ k. lookup k (ref_entries t xs []) in
      let (ch, e, us, tr) =
        model_changes-Tracks base (ev ∷ evs) [] xs ys h d refl
          (λ k. lookup-ref_entries t k xs []) in
      (
        change_of_all t ch ∷ [],
        ref_entries t xs [],
        ref_entries t ys [],
        refl,
        refl,
        rw (model_events, e) refl,
        (ch, us, refl),
        λ k. tr k ∙ sym (lookup-ref_entries t k ys []),
      )
