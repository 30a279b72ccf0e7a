-- ===== src/Store/Transform/Ids.antt =====
-- store/transformer.go: the transformers of a Handler, and the names that `IDTransformer` makes.
use go_res.Base.{
  if◌then◌else◌, ◌==◌, str_eq, str_eq_refl, eq_of_str_eq, Bytes, Bool, true, false, Bool-cases, not,
  and-eq-true, ◌&&◌, ◌||◌, all, any, Option, none, some, List, [], ◌∷◌, map, ◌⊎◌, inl, inr, Result,
  ok, ◌≡◌, refl, ◌∙◌, ap, arith,
}
use go_res.Params.{Params, insert, lookup, lookup-insert-eq}
use go_res.Parts.{parts, dotless, parts-join, parts-dotless}
use go_res.Pattern.Valid.{is_nil, pmark, fwild}
use go_res.Pattern.Shape.{matchable, named, is_wild_part, is_full_wild_part, values_parts}
use go_res.Pattern.Match.{values}
use go_res.Pattern.Match.Values.{values-eq-values_parts}
use go_res.Pattern.Replace.{replace_tag}
use go_res.Pattern.Replace.Spec.{replace_part, replaced}
use go_res.Pattern.Replace.Written.{replace-eq-replaced}
use go_res.Pattern.Replace.Back.{is_tag_of}

-- The struct `transformer`; a function that is nil is `none`. `E` is the type of the errors.
pub record TransformFuncs (V E : Type 0) : Type 0 where
  pub rid_to_id : Option (Bytes → Params → Bytes)
  pub id_to_rid : Option (Bytes → V → Bytes → Result Bytes)
  pub transform : Option (Bytes → V → E ⊎ V)

-- `m[k]` of a missing key is the empty string.
value_of : Option Bytes → Bytes
value_of none = []
value_of (some v) = v

module _ {V E : Type 0} where
  unfoldable pub to_id : TransformFuncs V E → Bytes → Params → Bytes
  to_id t rid params = elim t.rid_to_id [ none ↦ rid | some f ↦ f rid params ]

  unfoldable pub to_rid : TransformFuncs V E → Bytes → V → Bytes → Result Bytes
  to_rid t id v p = elim t.id_to_rid [ none ↦ ok id | some f ↦ f id v p ]

  unfoldable pub transform_value : TransformFuncs V E → Bytes → V → E ⊎ V
  transform_value t id v = elim t.transform [ none ↦ inr v | some f ↦ f id v ]

  unfoldable pub id_transformer : Bytes → Option (Bytes → V → E ⊎ V) → TransformFuncs V E
  unfolding value_of replace_tag lookup
  id_transformer tag transform = record {
    rid_to_id = some (λ rid params. value_of (lookup tag params));
    id_to_rid = some (λ id v p. replace_tag tag id p);
    transform = transform;
  }

-- Each wildcard of the parts is the tag.
abbrev pub only_tag : Bytes → List Bytes → Bool
only_tag tag [] = true
only_tag tag (t ∷ ts) =
    (is_tag_of tag t || not (is_wild_part t || is_full_wild_part t)) && only_tag tag ts

abbrev set_tag : Bytes → Bytes → Bytes → Option Bytes
set_tag tag id t = if str_eq tag t then some id else none

values_parts-set :
    (tag id : Bytes) (ts : List Bytes) (m : Params)
    → only_tag tag ts ≡ true
    → (m' : Params) × (values_parts ts (map (replace_part (set_tag tag id)) ts) m ≡ some m')
      × (lookup tag m' ≡ (if any (is_tag_of tag) ts then some id else lookup tag m))
unfolding str_eq
values_parts-set tag id [] m h = (m, refl, refl)
values_parts-set tag id ([] ∷ ts) m h = values_parts-set tag id ts m h
values_parts-set tag id ((c ∷ t) ∷ ts) m h = elim (Bool-cases (c == pmark)) [
  | inl d ↦
      let g : only_tag tag ts ≡ true = ground arith in
      let same : str_eq t tag ≡ true = ground arith in
      let (m', e, l) = values_parts-set tag id ts (insert t id m) g in
      let full : (c == fwild) ≡ false = ground arith in
      let known : str_eq tag t ≡ true = rw (eq_of_str_eq t tag same) (str_eq_refl tag) in
      let at_tag : lookup tag (insert t id m) ≡ some id =
        rw (lookup-insert-eq t tag id m, same) refl in
      (m', rw (d, full, known) e, l ∙ rw (at_tag, d, same) (ground arith))
  | inr d ↦
      let g : only_tag tag ts ≡ true = ground arith in
      let (m', e, l) = values_parts-set tag id ts m g in
      (m', rw d (ground (arith, e, str_eq_refl (c ∷ t))), l ∙ rw d refl)
]

set-named :
    (tag id : Bytes) (ts : List Bytes)
    → is_nil id ≡ false
    → matchable ts ≡ true
    → named (map (replace_part (set_tag tag id)) ts) ≡ true
set-named tag id [] h k = refl
set-named tag id ([] ∷ ts) h k = ground arith
set-named tag id ((c ∷ t) ∷ ts) h k = elim (Bool-cases (c == pmark && str_eq tag t)) [
  | inl d ↦ ground (arith, set-named tag id ts h)
  | inr d ↦ ground (arith, set-named tag id ts h)
]

set_dotless :
    (tag id : Bytes) (ts : List Bytes)
    → dotless id ≡ true
    → all dotless ts ≡ true
    → all dotless (map (replace_part (set_tag tag id)) ts) ≡ true
set_dotless tag id [] h k = refl
set_dotless tag id ([] ∷ ts) h k = set_dotless tag id ts h k
set_dotless tag id ((c ∷ t) ∷ ts) h k =
    let (a, b) = and-eq-true (dotless (c ∷ t)) (all dotless ts) k in
    let ih = set_dotless tag id ts h b in
    elim (Bool-cases (c == pmark)) [
      | inr d ↦ rw (d, a) ih
      | inl d ↦ elim (Bool-cases (str_eq tag t)) [
        | inl e ↦ rw (d, e, h) ih
        | inr e ↦ rw (d, e, a) ih
      ]
    ]

parts-replaced :
    (tag id p : Bytes)
    → dotless id ≡ true
    → parts (replaced (set_tag tag id) p) ≡ map (replace_part (set_tag tag id)) (parts p)
unfolding parts
parts-replaced tag id p h = parts-join _ _ (set_dotless tag id (parts p) h (parts-dotless p))

module _ {V E : Type 0} where
  -- For a pattern of well formed parts, of which the wildcards are all the one tag and some part is,
  -- and an identifier that is not empty and has no dot: IDToRID of an IDTransformer returns, the
  -- pattern matches the resource name that it returns, and RIDToID makes the identifier again of the
  -- values that the pattern finds in the name.
  pub to_id-to_rid :
      (tag id p : Bytes) (v : V) (transform : Option (Bytes → V → E ⊎ V))
      → matchable (parts p) ≡ true
      → only_tag tag (parts p) ≡ true
      → any (is_tag_of tag) (parts p) ≡ true
      → is_nil id ≡ false
      → dotless id ≡ true
      → (rid : Bytes) × (params : Params) × (to_rid (id_transformer tag transform) id v p ≡ ok rid)
        × (values p rid ≡ some (some params))
        × (to_id (id_transformer tag transform) rid params ≡ id)
  unfolding to_id to_rid id_transformer value_of replace_tag
  to_id-to_rid tag id p v transform h o a n d =
      let (m, e, l) = values_parts-set tag id (parts p) [] o in
      let q = parts-replaced tag id p d in
      (
        replaced (set_tag tag id) p,
        m,
        replace-eq-replaced (set_tag tag id) p,
        values-eq-values_parts p (replaced (set_tag tag id) p) h
              (rw q (set-named tag id (parts p) n h))
            ∙ ap some (rw q e),
        rw (l, a) refl,
      )
