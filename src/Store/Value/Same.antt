-- ===== src/Store/Value/Same.antt =====
-- `Equal` is an equivalence of values: it compares the types, and what the type tells to compare.
use go_res.Base.{
  str_eq_refl, eq_of_str_eq, and-eq-true, Bytes, true, [], ◌≡◌, refl, ap, sym, ◌∙◌, arith,
}
use go_res.Store.Value.{
  ValueType, none, primitive, reference, soft_reference, content, delete, Value, same_type,
  equal_as, equal,
}

eq_of_same_type : (t u : ValueType) → same_type t u ≡ true → t ≡ u
unfolding same_type
eq_of_same_type none u h = ground arith
eq_of_same_type primitive u h = ground arith
eq_of_same_type reference u h = ground arith
eq_of_same_type soft_reference u h = ground arith
eq_of_same_type content u h = ground arith
eq_of_same_type delete u h = ground arith

-- What Equal compares of a value of the type.
abbrev compared : ValueType → Value → Bytes
compared none v = []
compared primitive v = v.raw_message
compared reference v = v.rid
compared soft_reference v = v.rid
compared content v = v.inner
compared delete v = []

equal_as-compared :
    (t : ValueType) (v w : Value) → equal_as t v w ≡ true → compared t v ≡ compared t w
unfolding equal_as
equal_as-compared none v w h = refl
equal_as-compared primitive v w h = eq_of_str_eq v.raw_message w.raw_message h
equal_as-compared reference v w h = eq_of_str_eq v.rid w.rid h
equal_as-compared soft_reference v w h = eq_of_str_eq v.rid w.rid h
equal_as-compared content v w h = eq_of_str_eq v.inner w.inner h
equal_as-compared delete v w h = refl

compared-equal_as :
    (t : ValueType) (v w : Value) → compared t v ≡ compared t w → equal_as t v w ≡ true
unfolding equal_as
compared-equal_as none v w h = refl
compared-equal_as primitive v w h = rw h (str_eq_refl w.raw_message)
compared-equal_as reference v w h = rw h (str_eq_refl w.rid)
compared-equal_as soft_reference v w h = rw h (str_eq_refl w.rid)
compared-equal_as content v w h = rw h (str_eq_refl w.inner)
compared-equal_as delete v w h = refl

same_type_refl : (t : ValueType) → same_type t t ≡ true
unfolding same_type
same_type_refl none = refl
same_type_refl primitive = refl
same_type_refl reference = refl
same_type_refl soft_reference = refl
same_type_refl content = refl
same_type_refl delete = refl

abbrev Same : Value → Value → Type 0
Same v w = (v.type ≡ w.type) × (compared v.type v ≡ compared v.type w)

equal-Same : (v w : Value) → equal v w ≡ true → Same v w
unfolding equal
equal-Same v w h =
    let (a, b) = and-eq-true (same_type v.type w.type) (equal_as v.type v w) h in
    (eq_of_same_type v.type w.type a, equal_as-compared v.type v w b)

Same-equal : (v w : Value) → Same v w → equal v w ≡ true
unfolding equal
Same-equal v w (t, c) = rw (compared-equal_as v.type v w c, ← t, same_type_refl v.type) refl

pub equal_trans : (u v w : Value) → equal u v ≡ true → equal v w ≡ true → equal u w ≡ true
equal_trans u v w h k =
    let (t, c) = equal-Same u v h in
    let (t', c') = equal-Same v w k in
    Same-equal u w (t ∙ t', c ∙ ap (λ x. compared x v) t ∙ c' ∙ ap (λ x. compared x w) (sym t))
