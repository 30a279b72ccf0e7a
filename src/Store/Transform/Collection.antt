-- ===== src/Store/Transform/Collection.antt =====
-- The events of a list of identifiers, transformed, are those of the list of references.
use mathlib.Core.Option
use go_res.Base.{
  none-ne-some, ◌⊎◌, inl, inr, true, ℕ, zero, suc, if◌then◌else◌, str_eq, codes, Bytes, false,
  Bool-cases, Option, none, some, eq_of_some, List, [], ◌∷◌, map, follow, follow-eq-some, ◌≡◌, refl,
  ap,
}
use go_res.Events.{ℤ}
use go_res.Store.Diff.Script.{delete_elem, insert_elem}
use go_res.Store.Transform.{
  Dynamic, string, strings, ref, refs, ResultEvent, collection_result, collection_events,
  collection_event,
}

-- What an event does to a list that is served as a collection: an add event puts what it holds at
-- its index, and a remove event takes out what is there.
unfoldable pub edit_at : {A : Type 0} → Bytes → ℤ → A → List A → Option (List A)
edit_at name (ℤ.negsuc n) v xs = none
edit_at name (ℤ.pos n) v xs =
    if str_eq name (codes "add")
    then insert_elem v n xs
    else if str_eq name (codes "remove")
    then delete_elem n xs
    else none

-- What an add event holds is read by `read`; other events need nothing.
abbrev pub needed : {V : Type 0} → (Dynamic V → Option Bytes) → Bytes → Dynamic V → Option Bytes
needed read name v = if str_eq name (codes "add") then read v else some []

unfoldable pub edit_with :
    {V : Type 0}
    → (Dynamic V → Option Bytes)
    → List (ResultEvent V)
    → List Bytes
    → Option (List Bytes)
unfolding edit_at
edit_with read [] xs = some xs
edit_with read (ev ∷ evs) xs =
    follow (needed read ev.name ev.value)
      (λ id. follow (edit_at ev.name ev.idx id xs) (edit_with read evs))

abbrev pub as_string : {V : Type 0} → Dynamic V → Option Bytes
as_string (string id) = some id
as_string v = none

abbrev pub as_ref : {V : Type 0} → Dynamic V → Option Bytes
as_ref (ref r) = some r
as_ref v = none

edit_at_ignored :
    {A : Type 0} (name : Bytes) (i : ℤ) (v w : A) (xs : List A)
    → str_eq name (codes "add") ≡ false
    → edit_at name i v xs ≡ edit_at name i w xs
unfolding edit_at
edit_at_ignored name (ℤ.negsuc n) v w xs h = refl
edit_at_ignored name (ℤ.pos n) v w xs h = rw h refl

module _ {A B : Type 0} (t : A → B) where
  map_cons :
      (x : A) (o : Option (List A))
      → Option.map (λ ys. t x ∷ ys) (Option.map (map t) o)
        ≡ Option.map (map t) (Option.map (λ ys. x ∷ ys) o)
  map_cons x none = refl
  map_cons x (some ys) = refl

  insert_elem-map :
      (v : A) (n : ℕ) (xs : List A)
      → insert_elem (t v) n (map t xs) ≡ Option.map (map t) (insert_elem v n xs)
  unfolding insert_elem
  insert_elem-map v zero xs = refl
  insert_elem-map v (suc n) [] = refl
  insert_elem-map v (suc n) (x ∷ xs) = rw (insert_elem-map v n xs) (map_cons x (insert_elem v n xs))

  delete_elem-map :
      (n : ℕ) (xs : List A) → delete_elem n (map t xs) ≡ Option.map (map t) (delete_elem n xs)
  unfolding delete_elem
  delete_elem-map n [] = refl
  delete_elem-map zero (x ∷ xs) = refl
  delete_elem-map (suc n) (x ∷ xs) = rw (delete_elem-map n xs) (map_cons x (delete_elem n xs))

  edit_at-map :
      (name : Bytes) (i : ℤ) (v : A) (xs : List A)
      → edit_at name i (t v) (map t xs) ≡ Option.map (map t) (edit_at name i v xs)
  unfolding edit_at
  edit_at-map name (ℤ.negsuc n) v xs = refl
  edit_at-map name (ℤ.pos n) v xs = elim (Bool-cases (str_eq name (codes "add"))) [
    | inl a ↦ rw a (insert_elem-map v n xs)
    | inr a ↦ elim (Bool-cases (str_eq name (codes "remove"))) [
      | inl r ↦ rw (a, r) (delete_elem-map n xs)
      | inr r ↦ rw (a, r) refl
    ]
  ]

-- What an event that could be followed did to a list.
pub edit_at_cases :
    {A : Type 0} (name : Bytes) (i : ℤ) (v : A) (xs zs : List A)
    → edit_at name i v xs ≡ some zs
    → (n : ℕ) × (i ≡ ℤ.pos n)
      × (((str_eq name (codes "add") ≡ true) × (insert_elem v n xs ≡ some zs))
          ⊎ ((str_eq name (codes "add") ≡ false)
              × (str_eq name (codes "remove") ≡ true)
              × (delete_elem n xs ≡ some zs)))
unfolding edit_at
edit_at_cases name (ℤ.negsuc n) v xs zs h = absurd (none-ne-some h)
edit_at_cases name (ℤ.pos n) v xs zs h = elim (Bool-cases (str_eq name (codes "add"))) [
  | inl a ↦ (n, refl, inl (a, rw a at h))
  | inr a ↦ elim (Bool-cases (str_eq name (codes "remove"))) [
    | inl r ↦ (n, refl, inr (a, r, rw (a, r) at h))
    | inr r ↦ absurd (none-ne-some (rw (a, r) at h))
  ]
]

pub eq_of_as_string :
    {V : Type 0} (v : Dynamic V) (id : Bytes) → as_string v ≡ some id → v ≡ string id
eq_of_as_string (string s) id h = ap string (eq_of_some h)
eq_of_as_string _ id h = cc

module _ {V : Type 0} (t : Bytes → Bytes) where
  abbrev Carried : List (ResultEvent V) → List Bytes → List Bytes → Type 0
  Carried evs xs ys =
      (evs' : List (ResultEvent V)) × (collection_events t evs ≡ (none, evs'))
      × (edit_with as_ref evs' (map t xs) ≡ some (map t ys))

  collection_events-Carried :
      (evs : List (ResultEvent V)) (xs ys : List Bytes)
      → edit_with as_string evs xs ≡ some ys
      → Carried evs xs ys
  unfolding edit_with collection_events collection_event
  collection_events-Carried [] xs ys h = ([], refl, ap (λ z. some (map t z)) (eq_of_some h))
  collection_events-Carried (ev ∷ evs) xs ys h =
      let (id, need, rest) = follow-eq-some (needed as_string ev.name ev.value) _ h in
      let (zs, edit, tail) =
        follow-eq-some (edit_at ev.name ev.idx id xs) (edit_with as_string evs) rest in
      let (evs', e, run) = collection_events-Carried evs zs ys tail in
      elim (Bool-cases (str_eq ev.name (codes "add"))) [
        | inl a ↦
            let v : ev.value ≡ string id = eq_of_as_string ev.value id (rw a at need) in
            (
              record ev { value = ref (t id) } ∷ evs',
              rw (a, v, e) refl,
              rw (a, edit_at-map t ev.name ev.idx id xs, edit) run,
            )
        | inr a ↦ (
          ev ∷ evs',
          rw (a, e) refl,
          rw
              (
                a,
                edit_at_ignored ev.name ev.idx [] (t id) (map t xs) a,
                edit_at-map t ev.name ev.idx id xs,
                edit,
              )
              run,
        )
      ]

  -- If the events lead a list of identifiers to another one, each of the additions with a string,
  -- then TransformEvents returns no error, and the events that it returns lead the references that
  -- TransformResult makes of the first list to those that it makes of the second.
  pub collection_events-edit :
      (evs : List (ResultEvent V)) (xs ys : List Bytes)
      → edit_with as_string evs xs ≡ some ys
      → (evs' : List (ResultEvent V)) × (before : List Bytes) × (after : List Bytes)
        × (collection_result {V = V} t (strings xs) ≡ inr (refs before))
        × (collection_result {V = V} t (strings ys) ≡ inr (refs after))
        × (collection_events t evs ≡ (none, evs'))
        × (edit_with as_ref evs' before ≡ some after)
  unfolding collection_result
  collection_events-edit evs xs ys h =
      let (evs', e, run) = collection_events-Carried evs xs ys h in
      (evs', map t xs, map t ys, refl, refl, e, run)
