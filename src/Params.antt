-- ===== src/Params.antt =====
-- A Go map with string keys, as an association list. A nil map is an empty one.
use go_res.Base.{
  arith, str_eq_iff, str_eq_refl, false, ◌≡◌, refl, str_eq, Bytes, if◌then◌else◌, Option, some,
  none, List, [], ◌∷◌,
}

-- A map from strings to strings; `m[k] = v` and `m[k]`.
abbrev pub Params : Type 0
Params = List (Bytes × Bytes)

unfoldable pub insert {ℓ} : {V : Type ℓ} → Bytes → V → List (Bytes × V) → List (Bytes × V)
insert k v [] = (k, v) ∷ []
insert k v ((j, w) ∷ m) = if str_eq j k then (k, v) ∷ m else (j, w) ∷ insert k v m

unfoldable pub lookup {ℓ} : {V : Type ℓ} → Bytes → List (Bytes × V) → Option V
lookup k [] = none
lookup k ((j, v) ∷ m) = if str_eq j k then some v else lookup k m

pub lookup-insert-eq :
    {V : Type 0} (j k : Bytes) (v : V) (m : List (Bytes × V))
    → lookup k (insert j v m) ≡ (if str_eq j k then some v else lookup k m)
unfolding lookup insert
lookup-insert-eq j k v [] = refl
lookup-insert-eq j k v ((i, w) ∷ m) =
    ground (arith, lookup-insert-eq j k v m, str_eq_iff i j, str_eq_iff i k, str_eq_iff j k)

pub lookup-insert :
    {V : Type 0} (k : Bytes) (v : V) (m : List (Bytes × V)) → lookup k (insert k v m) ≡ some v
lookup-insert k v m = rw (lookup-insert-eq k k v m, str_eq_refl k) refl

pub lookup-insert_other :
    {V : Type 0} (j k : Bytes) (v : V) (m : List (Bytes × V))
    → str_eq j k ≡ false
    → lookup k (insert j v m) ≡ lookup k m
lookup-insert_other j k v m h = rw (lookup-insert-eq j k v m, h) refl
