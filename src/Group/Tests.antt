-- ===== src/Group/Tests.antt =====
-- Runs of group.go, and the round trip at a concrete group.
use go_res.Base.{
  str_eq, codes, some, List, [], ◌∷◌, ◌≡◌, refl, map, ok, panic, empty_group_tag,
  group_tag_not_found, unexpected_end_of_group_tag,
}
use go_res.Parts.{split_pattern}
use go_res.Group.{GPart, parse_group, to_string}
use go_res.Group.Parse.{braced, to_string-parse_group}

abbrev two_tags : List GPart
two_tags =
    record { str = []; idx = 1 }
    ∷ record { str = codes "."; idx = 0 }
    ∷ record { str = []; idx = 2 }
    ∷ []

parse_two_tags : parse_group (codes "${foo}.${bar}") (codes "test.$foo.$bar.>") ≡ ok (some two_tags)
unfolding parse_group split_pattern str_eq
parse_two_tags = refl

empty_tag : parse_group (codes "${}") (codes "test.$foo") ≡ panic (empty_group_tag 2)
unfolding parse_group split_pattern str_eq
empty_tag = refl

unknown_tag :
    parse_group (codes "${bar}") (codes "test.$foo") ≡ panic (group_tag_not_found (codes "bar"))
unfolding parse_group split_pattern str_eq
unknown_tag = refl

open_tag : parse_group (codes "a$") (codes "test.$foo") ≡ panic unexpected_end_of_group_tag
unfolding parse_group split_pattern str_eq
open_tag = refl

written :
    to_string (some two_tags) (codes "test.a.b.c") (split_pattern (codes "test.a.b.c"))
    ≡ ok (codes "a.b")
unfolding to_string split_pattern
written = refl

to_string-parse_group_example :
    to_string (some two_tags) (codes "r") (map braced (split_pattern (codes "test.$foo.$bar.>")))
    ≡ ok (codes "${foo}.${bar}")
to_string-parse_group_example =
    to_string-parse_group (codes "${foo}.${bar}") (codes "test.$foo.$bar.>") (codes "r") two_tags
      parse_two_tags
