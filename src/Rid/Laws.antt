-- ===== src/Rid/Laws.antt =====
-- A resource identifier is valid exactly if the parts of its name are.
use go_res.Base.{
  if◌then◌else◌, Bytes, Bool, true, false, not, ◌&&◌, [], ◌∷◌, any, all, ◌≡◌, refl, arith,
}
use go_res.Parts.{first, others, parts}
use go_res.Rid.{rid_from, is_valid_rid, is_valid_part, is_bad_part_char, before_query, parse_rid}

rid_from-eq :
    (start : Bool) (rid : Bytes)
    → rid_from start rid ≡ (
        (if start
          then is_valid_part (first (before_query rid))
          else not (any is_bad_part_char (first (before_query rid))))
        && all is_valid_part (others (before_query rid)))
unfolding rid_from is_valid_part before_query first others
rid_from-eq true [] = refl
rid_from-eq false [] = refl
rid_from-eq true (c ∷ rid) = ground (arith, rid_from-eq true rid, rid_from-eq false rid)
rid_from-eq false (c ∷ rid) = ground (arith, rid_from-eq true rid, rid_from-eq false rid)

-- `IsValidRID` accepts an identifier exactly if `isValidPart` accepts each part of the name that
-- `parseRID` takes from it.
pub is_valid_rid-eq-parts :
    (rid : Bytes) → is_valid_rid rid ≡ all is_valid_part (parts (parse_rid rid).0)
unfolding is_valid_rid parse_rid parts
is_valid_rid-eq-parts rid = rid_from-eq true rid
