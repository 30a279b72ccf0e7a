-- ===== src/Store/Transform/Unique.antt =====
-- Lists of identifiers without repetitions, and the events on them.
use mathlib.Core.Option
use go_res.Base.{
  ℕ, zero, suc, if◌then◌else◌, str_eq, eq_of_str_eq, str_eq_iff, codes, Bytes, Bool, true, false,
  not, and-eq-true, ◌&&◌, ◌||◌, Bool-cases, Option, none, some, none-ne-some, eq_of_some, List, [],
  ◌∷◌, follow, ◌⊎◌, inl, inr, ◌≡◌, refl, sym, ap, arith,
}
use go_res.Events.{ℤ}
use go_res.Store.Diff.Script.{delete_elem, insert_elem}
use go_res.Store.Transform.{ResultEvent}
use go_res.Store.Transform.Collection.{as_string}

unfoldable pub has : Bytes → List Bytes → Bool
has k [] = false
has k (x ∷ xs) = str_eq x k || has k xs

abbrev pub distinct : List Bytes → Bool
distinct [] = true
distinct (x ∷ xs) = not (has x xs) && distinct xs

-- Whether the identifier is the one in its place.
abbrev pub stands_at : Bytes → ℕ → List Bytes → Bool
stands_at id n [] = false
stands_at id zero (x ∷ xs) = str_eq x id
stands_at id (suc n) (x ∷ xs) = stands_at id n xs

-- An event on a list without repetitions: an identifier is added that is not there, or removed with
-- its own index.
unfoldable pub edit_once : Bytes → ℤ → Bytes → List Bytes → Option (List Bytes)
edit_once name (ℤ.negsuc n) id xs = none
edit_once name (ℤ.pos n) id xs =
    if str_eq name (codes "add")
    then (if has id xs then none else insert_elem id n xs)
    else if str_eq name (codes "remove")
    then (if stands_at id n xs then delete_elem n xs else none)
    else none

unfoldable pub edit_unique : {V : Type 0} → List (ResultEvent V) → List Bytes → Option (List Bytes)
unfolding edit_once
edit_unique [] xs = some xs
edit_unique (ev ∷ evs) xs =
    follow (as_string ev.value) (λ id. follow (edit_once ev.name ev.idx id xs) (edit_unique evs))

map_cons-eq-some :
    {A : Type 0} (x : A) (o : Option (List A)) (zs : List A)
    → Option.map (λ ys. x ∷ ys) o ≡ some zs
    → (ys : List A) × (o ≡ some ys) × (zs ≡ x ∷ ys)
map_cons-eq-some x none zs h = absurd (none-ne-some h)
map_cons-eq-some x (some ys) zs h = (ys, refl, sym (eq_of_some h))

pub has-insert_elem :
    (k v : Bytes) (n : ℕ) (xs ys : List Bytes)
    → insert_elem v n xs ≡ some ys
    → has k ys ≡ (str_eq v k || has k xs)
unfolding has insert_elem
has-insert_elem k v zero xs ys h = rw (← eq_of_some h) refl
has-insert_elem k v (suc n) [] ys h = absurd (none-ne-some h)
has-insert_elem k v (suc n) (x ∷ xs) ys h =
    let (zs, p, e) = map_cons-eq-some x (insert_elem v n xs) ys h in
    rw e (ground (arith, has-insert_elem k v n xs zs p))

pub distinct-insert_elem :
    (v : Bytes) (n : ℕ) (xs ys : List Bytes)
    → insert_elem v n xs ≡ some ys
    → has v xs ≡ false
    → distinct xs ≡ true
    → distinct ys ≡ true
unfolding has insert_elem
distinct-insert_elem v zero xs ys h a d = rw (← eq_of_some h, a) d
distinct-insert_elem v (suc n) [] ys h a d = absurd (none-ne-some h)
distinct-insert_elem v (suc n) (x ∷ xs) ys h a d =
    let (zs, p, e) = map_cons-eq-some x (insert_elem v n xs) ys h in
    rw e (
      ground (
        arith,
        distinct-insert_elem v n xs zs p,
        has-insert_elem x v n xs zs p,
        str_eq_iff v x,
        str_eq_iff x v,
      ))

has_same : (j k : Bytes) (xs : List Bytes) → str_eq j k ≡ true → has j xs ≡ has k xs
has_same j k xs h = ap (λ i. has i xs) (eq_of_str_eq j k h)

stands_at-has : (id : Bytes) (n : ℕ) (xs : List Bytes) → stands_at id n xs ≡ true → has id xs ≡ true
unfolding has
stands_at-has id n [] h = cc
stands_at-has id zero (x ∷ xs) h = rw h refl
stands_at-has id (suc n) (x ∷ xs) h = ground (arith, stands_at-has id n xs h)

pub has-delete_elem :
    (k id : Bytes) (n : ℕ) (xs ys : List Bytes)
    → delete_elem n xs ≡ some ys
    → stands_at id n xs ≡ true
    → distinct xs ≡ true
    → has k ys ≡ (has k xs && not (str_eq id k))
unfolding has delete_elem
has-delete_elem k id n [] ys h a d = absurd (none-ne-some h)
has-delete_elem k id zero (x ∷ xs) ys h a d =
    rw (← eq_of_some h, eq_of_str_eq x id a)
      (ground (arith, d, has_same id k xs, ap (λ z. has z xs) (eq_of_str_eq x id a)))
has-delete_elem k id (suc n) (x ∷ xs) ys h a d =
    let (zs, p, e) = map_cons-eq-some x (delete_elem n xs) ys h in
    let (fresh, rest) = and-eq-true (not (has x xs)) (distinct xs) d in
    rw e (
      ground (
        arith,
        fresh,
        has-delete_elem k id n xs zs p a rest,
        stands_at-has id n xs a,
        has_same id x xs,
        str_eq_iff x k,
        str_eq_iff id k,
        str_eq_iff id x,
      ))

pub distinct-delete_elem :
    (id : Bytes) (n : ℕ) (xs ys : List Bytes)
    → delete_elem n xs ≡ some ys
    → stands_at id n xs ≡ true
    → distinct xs ≡ true
    → distinct ys ≡ true
unfolding has delete_elem
distinct-delete_elem id n [] ys h a d = absurd (none-ne-some h)
distinct-delete_elem id zero (x ∷ xs) ys h a d =
    rw (← eq_of_some h) (and-eq-true (not (has x xs)) (distinct xs) d).1
distinct-delete_elem id (suc n) (x ∷ xs) ys h a d =
    let (zs, p, e) = map_cons-eq-some x (delete_elem n xs) ys h in
    let (fresh, rest) = and-eq-true (not (has x xs)) (distinct xs) d in
    rw e (
      ground (
        arith,
        fresh,
        distinct-delete_elem id n xs zs p a rest,
        has-delete_elem x id n xs zs p a rest,
      ))

-- What an event that could be followed did.
abbrev pub Added : Bytes → Bytes → List Bytes → List Bytes → Type 0
Added name id xs zs =
    (str_eq name (codes "add") ≡ true)
    × ((n : ℕ) × (has id xs ≡ false) × (insert_elem id n xs ≡ some zs))

abbrev pub Removed : Bytes → Bytes → List Bytes → List Bytes → Type 0
Removed name id xs zs =
    (str_eq name (codes "add") ≡ false)
    × (str_eq name (codes "remove") ≡ true)
    × ((n : ℕ) × (stands_at id n xs ≡ true) × (delete_elem n xs ≡ some zs))

pub edit_once_cases :
    (name : Bytes) (i : ℤ) (id : Bytes) (xs zs : List Bytes)
    → edit_once name i id xs ≡ some zs
    → Added name id xs zs ⊎ Removed name id xs zs
unfolding edit_once
edit_once_cases name (ℤ.negsuc n) id xs zs h = absurd (none-ne-some h)
edit_once_cases name (ℤ.pos n) id xs zs h = elim (Bool-cases (str_eq name (codes "add"))) [
  | inl a ↦ elim (Bool-cases (has id xs)) [
    | inl k ↦ absurd (none-ne-some (rw (a, k) at h))
    | inr k ↦ inl (a, (n, k, rw (a, k) at h))
  ]
  | inr a ↦ elim (Bool-cases (str_eq name (codes "remove"))) [
    | inr r ↦ absurd (none-ne-some (rw (a, r) at h))
    | inl r ↦ elim (Bool-cases (stands_at id n xs)) [
      | inr k ↦ absurd (none-ne-some (rw (a, r, k) at h))
      | inl k ↦ inr (a, r, (n, k, rw (a, r, k) at h))
    ]
  ]
]
