-- ===== src/Rid/Tests.antt =====
-- Runs of the tests for resource identifiers.
use go_res.Base.{codes, true, false, ◌≡◌, refl}
use go_res.Rid.{is_valid_rid, parse_rid}

with_query : is_valid_rid (codes "library.books?start=0&limit=5") ≡ true
unfolding is_valid_rid
with_query = refl

dot_before_query : is_valid_rid (codes "library.?start=0") ≡ false
unfolding is_valid_rid
dot_before_query = refl

split_query : parse_rid (codes "books?a?b") ≡ (codes "books", codes "a?b")
unfolding parse_rid
split_query = refl
