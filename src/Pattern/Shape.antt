-- ===== src/Pattern/Shape.antt =====
-- What a pattern is, part by part: the description that the byte loops are compared with.
use go_res.Base.{
  str_eq, length, ℕ, if◌then◌else◌, ◌==◌, Bytes, Bool, true, false, not, ◌&&◌, ◌||◌, List, [], ◌∷◌,
  all, any,
}
use go_res.Params.{Params, insert}
use go_res.Base.{Option, some, none}
use go_res.Pattern.Valid.{is_nil, is_bad_char, pmark, pwild, fwild}

abbrev pub is_plain_char : ℕ → Bool
is_plain_char c = not (is_bad_char c || c == pwild || c == fwild)

abbrev pub is_not_pmark : ℕ → Bool
is_not_pmark c = not (c == pmark)

-- A lone *, a lone > as the last part, a $ with a name that is not only $s, or plain characters.
abbrev pub part_ok : Bool → Bytes → Bool
part_ok last [] = false
part_ok last (c ∷ t) =
    if c == pwild
    then is_nil t
    else if c == fwild
    then is_nil t && last
    else if c == pmark
    then all is_plain_char t && any is_not_pmark t
    else is_plain_char c && all is_plain_char t

abbrev pub parts_ok : List Bytes → Bool
parts_ok [] = true
parts_ok (t ∷ ts) = part_ok (is_nil ts) t && parts_ok ts

-- Parts that can be matched.
abbrev pub is_wild_part : Bytes → Bool
is_wild_part [] = false
is_wild_part (c ∷ t) = c == pmark || c == pwild

abbrev pub is_tag_part : Bytes → Bool
is_tag_part [] = false
is_tag_part (c ∷ t) = c == pmark

abbrev pub tail : Bytes → Bytes
tail [] = []
tail (c ∷ t) = t

abbrev pub is_full_wild_part : Bytes → Bool
is_full_wild_part [] = false
is_full_wild_part (c ∷ t) = c == fwild

-- A pattern part is plain, a tag or a *, or a full wildcard in the last place. A plain part holds
-- no $, as a $ inside of a part is read as a wildcard by `Matches`.
abbrev pub is_literal_char : ℕ → Bool
is_literal_char c = not (c == pmark || c == pwild || c == fwild)

abbrev pub matchable : List Bytes → Bool
matchable [] = true
matchable (t ∷ ts) =
    (if is_full_wild_part t
      then is_nil ts && length t == 1
      else is_wild_part t || (not (is_nil t) && all is_literal_char t))
    && matchable ts

-- The parts of a name are not empty.
abbrev pub named : List Bytes → Bool
named [] = true
named (t ∷ ts) = not (is_nil t) && named ts

abbrev pub part_matches : Bytes → Bytes → Bool
part_matches t u = if is_wild_part t then not (is_full_wild_part u) else str_eq t u

abbrev pub parts_match : List Bytes → List Bytes → Bool
parts_match [] [] = true
parts_match [] (u ∷ us) = false
parts_match (t ∷ ts) [] = false
parts_match (t ∷ ts) (u ∷ us) =
    if is_full_wild_part t then true else part_matches t u && parts_match ts us

-- What `Values` collects, part by part, in front of which `m` holds already.
abbrev pub values_parts : List Bytes → List Bytes → Params → Option Params
values_parts [] [] m = some m
values_parts [] (u ∷ us) m = none
values_parts (t ∷ ts) [] m = none
values_parts (t ∷ ts) (u ∷ us) m =
    if is_full_wild_part t
    then some m
    else if is_tag_part t
    then values_parts ts us (insert (tail t) u m)
    else if is_wild_part t || str_eq t u
    then values_parts ts us m
    else none
