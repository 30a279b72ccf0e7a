-- ===== src/Pattern/Tests.antt =====
-- Runs of the functions of pattern.go, and the theorems about them at concrete patterns.
use go_res.Base.{
  ok, Option, if◌then◌else◌, str_eq, codes, Bytes, true, false, ◌||◌, some, none, [], ◌∷◌, ◌≡◌, ◌≢◌,
  refl,
}
use go_res.Params.{Params}
use go_res.Pattern.Replace.{replace, replace_tag, replace_tags}
use go_res.Pattern.Replace.Spec.{replaced}
use go_res.Pattern.Replace.Written.{replace-eq-replaced}
use go_res.Pattern.Replace.Back.{replace_tags-values}
use go_res.Parts.{parts, first, others}
use go_res.Pattern.Valid.{is_nil, is_valid, index_wildcard}
use go_res.Pattern.Valid.Laws.{is_valid-eq-parts_ok}
use go_res.Pattern.Shape.{matchable, named, parts_ok, parts_match}
use go_res.Pattern.Match.{matches, values}
use go_res.Pattern.Match.Laws.{matches-eq-parts_match, matches_total}
use go_res.Pattern.Match.Values.{no_full_wild}

valid_tag : is_valid (codes "user.$id.>") ≡ true
unfolding is_valid
valid_tag = refl

invalid_tag : is_valid (codes "user.$.x") ≡ false
unfolding is_valid
invalid_tag = refl

star_inside : is_valid (codes "test.foo*") ≡ false
unfolding is_valid
star_inside = refl

matches_tag : matches (codes "user.$id.*") (codes "user.42.name") ≡ some true
unfolding matches
matches_tag = refl

matches_short : matches (codes "user.$id") (codes "user") ≡ some false
unfolding matches
matches_short = refl

-- A $ inside of a part is a wildcard for `Matches`, and no wildcard for `Values`.
inner_dollar : matches (codes "a$b") (codes "axyz") ≡ some true
unfolding matches
inner_dollar = refl

inner_dollar_values : values (codes "a$b") (codes "axyz") ≡ some none
unfolding values str_eq
inner_dollar_values = refl

values_tags :
    values (codes "a.$x.$y") (codes "a.b.c")
    ≡ some (some ((codes "x", codes "b") ∷ (codes "y", codes "c") ∷ []))
unfolding values str_eq
values_tags = refl

first_wildcard : index_wildcard (codes "a.b$.$c") ≡ some 5
unfolding index_wildcard
first_wildcard = refl

is_valid-eq-parts_ok_example :
    is_valid (codes "a.$b.>") ≡ (is_nil (codes "a.$b.>") || parts_ok (parts (codes "a.$b.>")))
is_valid-eq-parts_ok_example = is_valid-eq-parts_ok (codes "a.$b.>")

matches_total_example : matches (codes "a$b.>") (codes "..") ≢ none
matches_total_example = matches_total (codes "a$b.>") (codes "..")

abbrev pattern_text : Bytes
pattern_text = codes "a.$x.>"

abbrev name_text : Bytes
name_text = codes "a.b.c.d"

pattern_matchable : matchable (parts pattern_text) ≡ true
unfolding parts first others
pattern_matchable = refl

name_named : named (parts name_text) ≡ true
unfolding parts first others
name_named = refl

name_plain : no_full_wild (parts name_text) ≡ true
unfolding parts first others
name_plain = refl

matches-eq-parts_match_example :
    matches pattern_text name_text ≡ some (parts_match (parts pattern_text) (parts name_text))
matches-eq-parts_match_example =
    matches-eq-parts_match pattern_text name_text pattern_matchable name_named

replace_id :
    replace_tag (codes "id") (codes "42") (codes "user.$id.$name") ≡ ok (codes "user.42.$name")
unfolding replace_tag str_eq first go_res.Parts.skip
replace_id = refl

-- A value may be longer than its tag, and hold a tag itself.
replace_both :
    replace_tags ((codes "a", codes "long") ∷ (codes "b", codes "$a") ∷ []) (codes "$a.x.$b")
    ≡ ok (codes "long.x.$a")
unfolding replace_tags replace str_eq first go_res.Parts.skip
replace_both = refl

known_id : Bytes → Option Bytes
known_id t = if str_eq t (codes "id") then some (codes "42") else none

replace-eq-replaced_example :
    replace known_id (codes "user.$id.$id") ≡ ok (replaced known_id (codes "user.$id.$id"))
replace-eq-replaced_example = replace-eq-replaced known_id (codes "user.$id.$id")

abbrev found_values : Params
found_values = (codes "x", codes "b") ∷ (codes "y", codes "c") ∷ []

replace_tags-values_example : replace_tags found_values (codes "a.$x.$y") ≡ ok (codes "a.b.c")
unfolding str_eq parts first others
replace_tags-values_example =
    replace_tags-values (codes "a.$x.$y") (codes "a.b.c") found_values refl refl refl values_tags
