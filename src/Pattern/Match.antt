-- ===== src/Pattern/Match.antt =====
-- `Pattern.Matches` and `Pattern.Values`. The indices `pi` and `si` are the suffixes of the two
-- strings behind them. Each round takes a byte of the pattern, so the fuel is its length; `none`
-- means that the fuel ran out.
pub mod Laws
pub mod Values
use go_res.Base.{
  ℕ, zero, suc, if◌then◌else◌, ◌==◌, str_eq, length, Bytes, Bool, false, ◌||◌, Option, none, some,
  List, [], ◌∷◌,
}
use go_res.Params.{Params, insert}
use go_res.Parts.{btsep, first, skip}
use go_res.Pattern.Valid.{is_nil, pmark, pwild, fwild}

matches_loop : ℕ → Bytes → Bytes → Option Bool
matches_loop f [] s = some (is_nil s)
matches_loop zero (c ∷ p) s = none
matches_loop (suc f) (c ∷ p) [] = some false
matches_loop (suc f) (c ∷ p) (x ∷ s) =
    let behind_part = matches_loop f (skip p) (skip (x ∷ s)) in
    let behind_char = matches_loop f p s in
    if c == pmark || c == pwild
    then (if x == fwild then some false else behind_part)
    else if c == fwild
    then some (is_nil p)
    else if c == x
    then behind_char
    else some false

unfoldable pub matches : Bytes → Bytes → Option Bool
unfolding matches_loop skip
matches p s = matches_loop (length p) p s

-- The inner loop of the default case; `none` is `return nil, false`.
literal_run : ℕ → Bytes → Bytes → Option (Bytes × Bytes)
literal_run c p [] = none
literal_run c [] (x ∷ s) = if c == x then some ([], s) else none
literal_run c (d ∷ p) (x ∷ s) =
    let further = literal_run d p s in
    if c == x then (if c == btsep then some (d ∷ p, s) else further) else none

-- How the outer loop, `next`, goes on behind the inner one.
after :
    (Bytes → Bytes → Params → Option (Option Params))
    → Params
    → Option (Bytes × Bytes)
    → Option (Option Params)
after next m none = some none
after next m (some (p, s)) = next p s m

values_loop : ℕ → Bytes → Bytes → Params → Option (Option Params)
values_loop f [] s m = some (if is_nil s then some m else none)
values_loop zero (c ∷ p) s m = none
values_loop (suc f) (c ∷ p) [] m = some none
values_loop (suc f) (c ∷ p) (x ∷ s) m =
    let tagged = values_loop f (skip p) (skip (x ∷ s)) (insert (first p) (first (x ∷ s)) m) in
    let wild = values_loop f (skip p) (skip (x ∷ s)) m in
    if c == pmark
    then tagged
    else if c == pwild
    then wild
    else if c == fwild
    then some (if is_nil p then some m else none)
    else after (values_loop f) m (literal_run c p (x ∷ s))

-- The result `nil, false` is `some none`, and `m, true` is `some (some m)`.
unfoldable pub values : Bytes → Bytes → Option (Option Params)
unfolding values_loop after literal_run first skip insert
values p s = values_loop (length p) p s []
