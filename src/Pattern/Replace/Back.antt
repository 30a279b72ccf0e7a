-- ===== src/Pattern/Replace/Back.antt =====
-- ReplaceTags puts the values that `Values` found back into the pattern.
use go_res.Base.{
  if◌then◌else◌, ◌==◌, str_eq, eq_of_str_eq, none-ne-some, Bytes, Bool, true, false, not, ◌&&◌,
  ◌||◌, Bool-cases, inl, inr, some, eq_of_some, List, [], ◌∷◌, any, map, ok, ◌≡◌, refl, sym, ap,
  ap₂, ◌∙◌, arith,
}
use go_res.Params.{Params, insert, lookup, lookup-insert, lookup-insert_other}
use go_res.Parts.{parts, join, join-parts}
use go_res.Pattern.Valid.{pmark}
use go_res.Pattern.Shape.{
  matchable, named, is_tag_part, is_wild_part, is_full_wild_part, tail, values_parts,
}
use go_res.Pattern.Match.{values}
use go_res.Pattern.Match.Values.{values-eq-values_parts}
use go_res.Pattern.Replace.{replace_tags}
use go_res.Pattern.Replace.Spec.{replace_part, replaced}
use go_res.Pattern.Replace.Written.{replace-eq-replaced}

-- A tag part with the name `k`.
abbrev pub is_tag_of : Bytes → Bytes → Bool
is_tag_of k t = is_tag_part t && str_eq (tail t) k

-- Each wildcard is a tag, and no two tags have one name.
abbrev pub tagged : List Bytes → Bool
tagged [] = true
tagged (t ∷ ts) =
    (if is_tag_part t
      then not (any (is_tag_of (tail t)) ts)
      else not (is_wild_part t || is_full_wild_part t))
    && tagged ts

replace_part-none : (ts : List Bytes) → map (replace_part (λ t. lookup {V = Bytes} t [])) ts ≡ ts
unfolding lookup
replace_part-none [] = refl
replace_part-none ([] ∷ ts) = ap (λ us. [] ∷ us) (replace_part-none ts)
replace_part-none ((c ∷ t) ∷ ts) = elim (Bool-cases (c == pmark)) [
  | inl e ↦ rw e (ap (λ us. (c ∷ t) ∷ us) (replace_part-none ts))
  | inr e ↦ rw e (ap (λ us. (c ∷ t) ∷ us) (replace_part-none ts))
]

-- ReplaceTags replaces the tags that the map has.
pub replace_tags-eq-replaced :
    (m : Params) (p : Bytes) → replace_tags m p ≡ ok (replaced (λ t. lookup t m) p)
unfolding replace_tags
replace_tags-eq-replaced [] p = ap ok (sym (ap join (replace_part-none (parts p)) ∙ join-parts p))
replace_tags-eq-replaced (entry ∷ m) p = replace-eq-replaced (λ t. lookup t (entry ∷ m)) p

values_parts-lookup :
    (k : Bytes) (ts us : List Bytes) (m0 m : Params)
    → any (is_tag_of k) ts ≡ false
    → values_parts ts us m0 ≡ some m
    → tagged ts ≡ true
    → lookup k m ≡ lookup k m0
values_parts-lookup k [] [] m0 m h e w = ap (lookup k) (sym (eq_of_some e))
values_parts-lookup k [] (u ∷ us) m0 m h e w = absurd (none-ne-some e)
values_parts-lookup k (t ∷ ts) [] m0 m h e w = absurd (none-ne-some e)
values_parts-lookup k ([] ∷ ts) (u ∷ us) m0 m h e w =
    ground (arith, values_parts-lookup k ts us m0 m)
values_parts-lookup k ((c ∷ t) ∷ ts) (u ∷ us) m0 m h e w = ground (
  arith,
  values_parts-lookup k ts us m0 m,
  values_parts-lookup k ts us (insert t u m0) m,
  lookup-insert_other t k u m0,
)

values_parts-back :
    (ts us : List Bytes) (m0 m : Params)
    → tagged ts ≡ true
    → values_parts ts us m0 ≡ some m
    → map (replace_part (λ t. lookup t m)) ts ≡ us
values_parts-back [] [] m0 m h e = refl
values_parts-back [] (u ∷ us) m0 m h e = absurd (none-ne-some e)
values_parts-back (t ∷ ts) [] m0 m h e = absurd (none-ne-some e)
values_parts-back ([] ∷ ts) (u ∷ us) m0 m h e =
    ground (arith, eq_of_str_eq [] u, values_parts-back ts us m0 m)
values_parts-back ((c ∷ t) ∷ ts) (u ∷ us) m0 m h e = elim (Bool-cases (c == pmark)) [
  | inl d ↦
      let a : any (is_tag_of t) ts ≡ false = ground arith in
      let g : tagged ts ≡ true = ground arith in
      let f : values_parts ts us (insert t u m0) ≡ some m = ground arith in
      let l : lookup t m ≡ some u =
        values_parts-lookup t ts us (insert t u m0) m a f g ∙ lookup-insert t u m0 in
      rw (d, l) (ap (λ vs. u ∷ vs) (values_parts-back ts us (insert t u m0) m g f))
  | inr d ↦
      let g : tagged ts ≡ true = ground arith in
      let q : str_eq (c ∷ t) u ≡ true = ground arith in
      let f : values_parts ts us m0 ≡ some m = ground arith in
      rw d (ap₂ ◌∷◌ (eq_of_str_eq (c ∷ t) u q) (values_parts-back ts us m0 m g f))
]

-- If `Values` finds the values of the tags of a pattern in a name, ReplaceTags with these values
-- makes the name of the pattern: for a pattern and a name of well formed parts, where no tag comes
-- twice in the pattern and no wildcard is without a name.
pub replace_tags-values :
    (p s : Bytes) (m : Params)
    → matchable (parts p) ≡ true
    → named (parts s) ≡ true
    → tagged (parts p) ≡ true
    → values p s ≡ some (some m)
    → replace_tags m p ≡ ok s
replace_tags-values p s m h k w e =
    let v : values_parts (parts p) (parts s) [] ≡ some m =
      eq_of_some (sym (values-eq-values_parts p s h k) ∙ e) in
    replace_tags-eq-replaced m p
    ∙ ap ok (ap join (values_parts-back (parts p) (parts s) [] m w v) ∙ join-parts s)
