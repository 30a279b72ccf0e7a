-- ===== src/Pattern/Valid.antt =====
-- `Pattern.IsValid` and `Pattern.IndexWildcard`. Both loops range over runes; a byte of a rune
-- outside ASCII is above 126 as the rune is, so the loops over bytes take the same branches.
pub mod Laws
use go_res.Base.{
  ℕ, ◌+◌, if◌then◌else◌, ◌==◌, ltb, Bytes, Bool, true, false, not, ◌&&◌, ◌||◌, Option, none, some,
  List, [], ◌∷◌,
}
use go_res.Parts.{btsep}

-- The constants `pmark`, `pwild` and `fwild` of mux.go.
abbrev pub pmark : ℕ
pmark = b'$'

abbrev pub pwild : ℕ
pwild = b'*'

abbrev pub fwild : ℕ
fwild = b'>'

-- `len(t) == 0`
abbrev pub is_nil {ℓ} : {A : Type ℓ} → List A → Bool
is_nil [] = true
is_nil (_ ∷ _) = false

-- The variables of the loop of `IsValid`.
pub record Scan : Type 0 where
  pub start : Bool
  pub alone : Bool
  pub emptytag : Bool

-- `c < 33 || c > 126 || c == '?'`
abbrev pub is_bad_char : ℕ → Bool
is_bad_char c = ltb c 33 || ltb 126 c || c == b'?'

-- One round for the character `c`; `last` is `i == len(p)-1`, and `none` is `return false`.
scan_step : Scan → ℕ → Bool → Option Scan
scan_step st c last =
    if c == btsep
    then (if st.start || st.emptytag
        then none
        else some (record { start = true; alone = false; emptytag = false }))
    else if st.alone || is_bad_char c
    then none
    else if c == fwild
    then (if not st.start || not last then none else some (record st { start = false }))
    else if c == pwild
    then (if not st.start then none else some (record st { start = false; alone = true }))
    else if c == pmark
    then some (record st { start = false; emptytag = st.start || st.emptytag })
    else some (record st { start = false; emptytag = false })

scan : Scan → Bytes → Bool
scan st [] = not (st.start || st.emptytag)
scan st (c ∷ p) = elim (scan_step st c (is_nil p)) [ none ↦ false | some st' ↦ scan st' p ]

unfoldable pub is_valid : Bytes → Bool
unfolding scan scan_step
is_valid [] = true
is_valid (c ∷ p) = scan (record { start = true; alone = false; emptytag = false }) (c ∷ p)

-- `IndexWildcard`: `i` is the index, and `none` is the result -1.
index_from : ℕ → Bool → Bytes → Option ℕ
index_from i start [] = none
index_from i start (c ∷ p) =
    let found = start && ((c == fwild && is_nil p) || c == pwild || c == pmark) in
    let rest = index_from (i + 1) (c == btsep) p in
    if c == btsep then rest else if found then some i else rest

unfoldable pub index_wildcard : Bytes → Option ℕ
unfolding index_from
index_wildcard p = index_from 0 true p

-- `isValidPath` of mux.go.
abbrev pub is_none {ℓ} : {A : Type ℓ} → Option A → Bool
is_none none = true
is_none (some _) = false

unfoldable pub is_valid_path : Bytes → Bool
unfolding is_valid index_wildcard
is_valid_path p = is_nil p || (is_valid p && is_none (index_wildcard p))
