-- ===== src/Pattern/Replace.antt =====
-- `replace`, `ReplaceTag` and `ReplaceTags` of pattern.go. A tag that the replacer does not know is
-- `none`.
pub mod Spec
pub mod Found
pub mod Written
pub mod Back
use go_res.Base.{
  replicate, ℕ, zero, suc, ◌+◌, ◌-◌, if◌then◌else◌, ◌==◌, ltb, leb, str_eq, length, take, drop,
  Bytes, Bool, true, false, ◌&&◌, Option, none, some, List, [], ◌∷◌, ◌++◌, Result, ok, panic,
  index_out_of_range, ◌>>=◌,
}
use go_res.Params.{Params, lookup}
use go_res.Parts.{btsep, first, skip}
use go_res.Pattern.Valid.{pmark}

pub record Rep : Type 0 where
  pub o : ℕ
  pub e : ℕ
  pub v : Bytes

-- What is in hand ahead of a round: the index `pi`, the flag `start`, and p[pi:].
pub record Cursor : Type 0 where
  pub pi : ℕ
  pub start : Bool
  pub rest : Bytes

module _ (replacer : Bytes → Option Bytes) where
  -- The tag between $ and the index behind it.
  found_tag : ℕ → Bytes → List Rep
  found_tag o tag = elim (replacer tag) [
    | none ↦ []
    | some v ↦ record { o = o - 1; e = o + length tag; v = v } ∷ []
  ]

  -- A round for the character `c`, behind `pi++`: what is appended to `rs`, and the next state.
  round : ℕ → ℕ → Bool → Bytes → List Rep × Cursor
  unfolding found_tag
  round c pi start rest =
      if c == pmark
      then (if start
          then (
            found_tag pi (first rest),
            record { pi = pi + length (first rest); start = start; rest = skip rest },
          )
          else ([], record { pi = pi; start = start; rest = rest }))
      else if c == btsep
      then ([], record { pi = pi; start = true; rest = rest })
      else ([], record { pi = pi; start = false; rest = rest })

  -- The first loop, which passes over a byte at least in a round.
  find_loop : ℕ → Cursor → List Rep
  unfolding round
  find_loop zero s = []
  find_loop (suc f) s = elim s.rest [
    | [] ↦ []
    | c ∷ rest ↦ let next = round c (s.pi + 1) s.start rest in next.0 ++ find_loop f next.1
  ]

  unfoldable pub find_reps : Bytes → List Rep
  unfolding find_loop
  find_reps p = find_loop (length p) (record { pi = 0; start = true; rest = p })

-- `nl += len(r.v) - r.e + r.o`, for each one: never below 0, as what is replaced is part of p.
result_length : ℕ → List Rep → ℕ
result_length nl [] = nl
result_length nl (r ∷ rs) = result_length ((nl + length r.v + r.o) - r.e) rs

-- `p[i:j]`
slice : Bytes → ℕ → ℕ → Result Bytes
slice p i j =
    if leb i j && leb j (length p) then ok (take (j - i) (drop i p)) else panic index_out_of_range

-- `copy(result[o:], src)`, which writes as many bytes as there is room for.
copy_at : Bytes → ℕ → Bytes → Result Bytes
copy_at result o src =
    if leb o (length result)
    then ok (take o result ++ (take (length result - o) src ++ drop (length src) (drop o result)))
    else panic index_out_of_range

-- What is copied ahead of a tag, if the tag is not at the start, and the offset behind it.
write_between : Bytes → Bytes → ℕ → ℕ → Rep → Result (Bytes × ℕ)
unfolding slice copy_at
write_between p result o pi r =
    if ltb 0 r.o
    then (do seg ← slice p pi r.o; copied ← copy_at result o seg; ok (copied, o + length seg))
    else ok (result, o)

-- The loop that writes the result, and the rest of the pattern behind it: `o` is the offset in the
-- result, and `pi` the index in the pattern.
write_reps : Bytes → Bytes → ℕ → ℕ → List Rep → Result Bytes
unfolding write_between
write_reps p result o pi [] =
    if ltb pi (length p) then (do seg ← slice p pi (length p); copy_at result o seg) else ok result
write_reps p result o pi (r ∷ rs) = do
  written ← write_between p result o pi r
  copied ← copy_at written.0 written.1 r.v
  write_reps p copied (written.1 + length r.v) r.e rs

write_result : Bytes → List Rep → Result Bytes
unfolding result_length write_reps
write_result p [] = ok p
write_result p (r ∷ rs) =
    write_reps p (replicate (result_length (length p) (r ∷ rs)) 0) 0 0 (r ∷ rs)

unfoldable pub replace : (Bytes → Option Bytes) → Bytes → Result Bytes
unfolding find_reps write_result
replace replacer p = write_result p (find_reps replacer p)

unfoldable pub replace_tag : Bytes → Bytes → Bytes → Result Bytes
unfolding replace
replace_tag tag value p = replace (λ t. if str_eq tag t then some value else none) p

unfoldable pub replace_tags : Params → Bytes → Result Bytes
unfolding replace lookup
replace_tags [] p = ok p
replace_tags (entry ∷ m) p = replace (λ t. lookup t (entry ∷ m)) p
