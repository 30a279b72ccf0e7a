-- ===== src/Rid.antt =====
-- Resource identifiers: `IsValidRID` of types.go, `isValidPart` of resource.go and `parseRID` of
-- service.go. The loops range over runes; a byte of a rune outside ASCII is above 126 as the rune is.
pub mod Laws
mod Tests
use go_res.Base.{
  ℕ, if◌then◌else◌, ◌==◌, ltb, Bytes, Bool, true, false, not, ◌&&◌, ◌||◌, List, [], ◌∷◌, any,
}
use go_res.Parts.{btsep}
use go_res.Pattern.Valid.{is_nil, pwild, fwild}

abbrev pub query_mark : ℕ
query_mark = b'?'

rid_from : Bool → Bytes → Bool
rid_from start [] = not start
rid_from start (c ∷ rid) =
    let rest = rid_from (c == btsep) rid in
    if c == query_mark
    then not start
    else if ltb c 33 || ltb 126 c || c == pwild || c == fwild
    then false
    else if c == btsep && start
    then false
    else rest

unfoldable pub is_valid_rid : Bytes → Bool
unfolding rid_from
is_valid_rid rid = rid_from true rid

unfoldable pub is_bad_part_char : ℕ → Bool
is_bad_part_char c =
    ltb c 33 || ltb 126 c || c == query_mark || c == pwild || c == fwild || c == btsep

unfoldable pub is_valid_part : Bytes → Bool
unfolding is_bad_part_char
is_valid_part p = if is_nil p then false else not (any is_bad_part_char p)

-- `rid[:i]` and `rid[i+1:]`, where `i` is the index of the first question mark.
unfoldable pub before_query : Bytes → Bytes
before_query [] = []
before_query (c ∷ rid) = if c == query_mark then [] else c ∷ before_query rid

unfoldable pub behind_query : Bytes → Bytes
behind_query [] = []
behind_query (c ∷ rid) = if c == query_mark then rid else behind_query rid

unfoldable pub parse_rid : Bytes → Bytes × Bytes
unfolding before_query behind_query
parse_rid rid = (before_query rid, behind_query rid)
