-- ===== src/Pattern/Replace/Spec.antt =====
-- What `replace` makes of a pattern, part by part, and of a list of places.
use go_res.Base.{
  ℕ, ◌-◌, if◌then◌else◌, ◌==◌, ◌≤◌, ◌<◌, take, drop, Bytes, Option, none, some, List, [], ◌∷◌, ◌++◌,
  map,
}
use go_res.Parts.{parts, join}
use go_res.Pattern.Valid.{pmark}
use go_res.Pattern.Replace.{Rep}

-- A tag that the replacer knows becomes its value.
abbrev pub replace_part : (Bytes → Option Bytes) → Bytes → Bytes
replace_part replacer [] = []
replace_part replacer (c ∷ t) =
    if c == pmark then (elim (replacer t) [ none ↦ c ∷ t | some v ↦ v ]) else c ∷ t

abbrev pub replaced : (Bytes → Option Bytes) → Bytes → Bytes
replaced replacer p = join (map (replace_part replacer) (parts p))

-- What the places make of the pattern's bytes from the index `pi` on.
unfoldable pub assemble : ℕ → Bytes → List Rep → Bytes
assemble pi s [] = s
assemble pi s (r ∷ rs) = take (r.o - pi) s ++ (r.v ++ assemble r.e (drop (r.e - pi) s) rs)

-- The places are in order, and lie between the index `pi` and the index `last`.
abbrev pub InOrder : ℕ → ℕ → List Rep → Type 0
InOrder pi last [] = Unit
InOrder pi last (r ∷ rs) = (pi ≤ r.o) × (r.o < r.e) × (r.e ≤ last) × InOrder r.e last rs
