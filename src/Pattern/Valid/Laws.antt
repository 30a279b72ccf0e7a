-- ===== src/Pattern/Valid/Laws.antt =====
-- `IsValid` accepts exactly the empty pattern and the patterns whose parts are well formed.
use go_res.Base.{
  ◌+◌, ℕ, if◌then◌else◌, ◌==◌, Bytes, Bool, true, false, not, ◌&&◌, ◌||◌, List, [], ◌∷◌, all, any,
  ◌≡◌, refl, arith,
}
use go_res.Parts.{first, others, parts}
use go_res.Pattern.Valid.{
  is_nil, is_valid, scan, scan_step, Scan, is_none, index_from, index_wildcard, is_valid_path,
  pmark, pwild, fwild,
}
use go_res.Pattern.Shape.{is_plain_char, is_not_pmark, part_ok, parts_ok}

-- Where the scan stands in a part.
data Mode : Type 0 where
  at_start behind_star in_empty_tag in_part : Mode

abbrev to_scan : Mode → Scan
to_scan at_start = record { start = true; alone = false; emptytag = false }
to_scan behind_star = record { start = false; alone = true; emptytag = false }
to_scan in_empty_tag = record { start = false; alone = false; emptytag = true }
to_scan in_part = record { start = false; alone = false; emptytag = false }

abbrev rest_ok : Mode → Bytes → List Bytes → Bool
rest_ok at_start t ts = part_ok (is_nil ts) t && parts_ok ts
rest_ok behind_star t ts = is_nil t && parts_ok ts
rest_ok in_empty_tag t ts = (all is_plain_char t && any is_not_pmark t) && parts_ok ts
rest_ok in_part t ts = all is_plain_char t && parts_ok ts

scan-eq-rest_ok : (m : Mode) (p : Bytes) → scan (to_scan m) p ≡ rest_ok m (first p) (others p)
unfolding scan scan_step first others
scan-eq-rest_ok at_start [] = refl
scan-eq-rest_ok behind_star [] = refl
scan-eq-rest_ok in_empty_tag [] = refl
scan-eq-rest_ok in_part [] = refl
scan-eq-rest_ok at_start (c ∷ p) = ground (
  arith,
  scan-eq-rest_ok in_part p,
  scan-eq-rest_ok in_empty_tag p,
  scan-eq-rest_ok behind_star p,
)
scan-eq-rest_ok behind_star (c ∷ p) = ground (arith, scan-eq-rest_ok at_start p)
scan-eq-rest_ok in_empty_tag (c ∷ p) =
    ground
      (arith, scan-eq-rest_ok at_start p, scan-eq-rest_ok in_empty_tag p, scan-eq-rest_ok in_part p)
scan-eq-rest_ok in_part (c ∷ p) =
    ground (arith, scan-eq-rest_ok at_start p, scan-eq-rest_ok in_part p)

-- A pattern is valid exactly if it is empty or each of its parts is a lone *, a > in the last
-- place, a $ behind which something else than $ stands, or plain characters.
pub is_valid-eq-parts_ok : (p : Bytes) → is_valid p ≡ (is_nil p || parts_ok (parts p))
unfolding is_valid parts
is_valid-eq-parts_ok [] = refl
is_valid-eq-parts_ok (c ∷ p) = scan-eq-rest_ok at_start (c ∷ p)

-- A part at which `IndexWildcard` stops.
abbrev pub starts_wild : Bool → Bytes → Bool
starts_wild last [] = false
starts_wild last (c ∷ t) = (c == fwild && (is_nil t && last)) || c == pwild || c == pmark

abbrev pub any_wild : List Bytes → Bool
any_wild [] = false
any_wild (t ∷ ts) = starts_wild (is_nil ts) t || any_wild ts

index_from-eq :
    (i : ℕ) (start : Bool) (p : Bytes)
    → is_none (index_from i start p)
      ≡ not (if start then any_wild (first p ∷ others p) else any_wild (others p))
unfolding index_from first others
index_from-eq i true [] = refl
index_from-eq i false [] = refl
index_from-eq i true (c ∷ p) =
    ground (arith, index_from-eq (i + 1) true p, index_from-eq (i + 1) false p)
index_from-eq i false (c ∷ p) =
    ground (arith, index_from-eq (i + 1) true p, index_from-eq (i + 1) false p)

-- `IndexWildcard` finds nothing exactly if no part starts with * or $ and the last one is not a lone >.
pub index_wildcard-eq-any_wild : (p : Bytes) → is_none (index_wildcard p) ≡ not (any_wild (parts p))
unfolding index_wildcard parts
index_wildcard-eq-any_wild p = index_from-eq 0 true p

-- A path is valid exactly if it is empty or all its parts are well formed and none is a wildcard
-- or a tag.
pub is_valid_path-eq :
    (p : Bytes) → is_valid_path p ≡ (is_nil p || (parts_ok (parts p) && not (any_wild (parts p))))
unfolding is_valid_path
is_valid_path-eq p = ground (arith, is_valid-eq-parts_ok p, index_wildcard-eq-any_wild p)
