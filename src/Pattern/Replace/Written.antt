-- ===== src/Pattern/Replace/Written.antt =====
-- The second half of `replace` writes within its buffer, and fills it.
use go_res.Base.{
  replicate, length-replicate, length-take, length-drop, take-all, drop-all, drop-drop, take-append,
  drop-append, ℕ, ◌+◌, ◌-◌, ◌≤◌, ltb, leb, length, length-append, take, drop, Bytes, true,
  Bool-cases, inl, inr, List, [], ◌∷◌, ◌++◌, append_assoc, append-nil, ok, ◌≡◌, refl, sym, ap, ◌∙◌,
  arith,
}
use go_res.Pattern.Replace.{
  Rep, find_reps, result_length, slice, copy_at, write_between, write_reps, write_result, replace,
}
use go_res.Pattern.Replace.Spec.{assemble, InOrder, replaced}
use go_res.Pattern.Replace.Found.{find_reps-found}
use go_res.Base.{Option}

slice-ok : (p : Bytes) (i j : ℕ) → i ≤ j → j ≤ length p → slice p i j ≡ ok (take (j - i) (drop i p))
unfolding slice
slice-ok p i j h k = ground (arith, h, k)

-- The bytes behind the offset are overwritten.
copy_at-ok :
    (w junk src : Bytes) (o : ℕ)
    → o ≡ length w
    → length src ≤ length junk
    → copy_at (w ++ junk) o src ≡ ok (w ++ (src ++ drop (length src) junk))
unfolding copy_at
copy_at-ok w junk src o e h =
    let len = length-append w junk in
    let b : leb o (length (w ++ junk)) ≡ true = ground (arith, e, len) in
    rw
      (
        b,
        take-append w 0 o junk (omega (arith, e)),
        drop-append w 0 o junk (omega (arith, e)),
        take-all (length (w ++ junk) - o) src (omega (arith, e, h, len)),
        append-nil,
      )
      refl

result_length-assemble :
    (nl k pi last : ℕ) (s : Bytes) (rs : List Rep)
    → nl ≡ k + length s
    → last ≡ pi + length s
    → InOrder pi last rs
    → result_length nl rs ≡ k + length (assemble pi s rs)
unfolding result_length assemble
result_length-assemble nl k pi last s [] f e h = f
result_length-assemble nl k pi last s (r ∷ rs) f e (h, i, l, m) =
    let t = drop (r.e - pi) s in
    let d = length-drop (r.e - pi) s in
    let k' = k + (r.o - pi) + length r.v in
    result_length-assemble ((nl + length r.v + r.o) - r.e) k' r.e last t rs
      (omega (arith, d, f, e, h, i, l)) (omega (arith, d, e, h, i, l)) m
    ∙ omega (
      arith,
      length-append (take (r.o - pi) s) (r.v ++ assemble r.e t rs),
      length-append r.v (assemble r.e t rs),
      length-take (r.o - pi) s (omega (arith, e, h, i, l)),
    )

module _ (p : Bytes) where
  -- What stands ahead of a tag is copied behind what is written already.
  write_between-ok :
      (w junk : Bytes) (o pi : ℕ) (r : Rep)
      → o ≡ length w
      → pi ≤ r.o
      → r.o ≤ length p
      → r.o - pi ≤ length junk
      → let seg = take (r.o - pi) (drop pi p) in
        write_between p (w ++ junk) o pi r
        ≡ ok ((w ++ seg) ++ drop (length seg) junk, length (w ++ seg))
  unfolding write_between
  write_between-ok w junk o pi r e h k l = elim (Bool-cases (ltb 0 r.o)) [
    | inl y ↦
        let seg = take (r.o - pi) (drop pi p) in
        let n : length seg ≡ r.o - pi =
          length-take (r.o - pi) (drop pi p) (omega (arith, k, length-drop pi p)) in
        rw
          (
            write_between,
            y,
            slice-ok p pi r.o h k,
            copy_at-ok w junk seg o e (omega (arith, n, l)),
            e,
            length-append w seg,
            append_assoc,
          )
          refl
    | inr y ↦ let z : r.o - pi ≡ 0 = ground (arith, y) in rw (y, z, append-nil, e) refl
  ]

  write_reps-ok :
      (w junk : Bytes) (o pi : ℕ) (rs : List Rep)
      → o ≡ length w
      → pi ≤ length p
      → InOrder pi (length p) rs
      → length junk ≡ length (assemble pi (drop pi p) rs)
      → write_reps p (w ++ junk) o pi rs ≡ ok (w ++ assemble pi (drop pi p) rs)
  unfolding write_reps assemble
  write_reps-ok w junk o pi [] e h i n = elim (Bool-cases (ltb pi (length p))) [
    | inl y ↦
        rw
          (
            y,
            slice-ok p pi (length p) h (omega arith),
            take-all (length p - pi) (drop pi p) (omega (arith, length-drop pi p)),
            copy_at-ok w junk (drop pi p) o e (omega (arith, n)),
            drop-all (length (drop pi p)) junk (omega (arith, n)),
            append-nil,
          )
          refl
    | inr y ↦
        let z : drop pi p ≡ [] = drop-all pi p (ground (arith, y)) in
        let t : junk ≡ [] = drop-all 0 junk (omega (arith, n, ap length z)) in rw (y, z, t) refl
  ]
  write_reps-ok w junk o pi (r ∷ rs) e h (j, k, l, m) n =
      let seg = take (r.o - pi) (drop pi p) in
      let a = assemble r.e (drop (r.e - pi) (drop pi p)) rs in
      let d : drop (r.e - pi) (drop pi p) ≡ drop r.e p =
        drop-drop (r.e - pi) pi r.e p (omega (arith, j, k)) in
      let q : length junk ≡ length seg + (length r.v + length a) =
        omega (arith, n, length-append seg (r.v ++ a), length-append r.v a) in
      let g : length seg ≡ r.o - pi =
        length-take (r.o - pi) (drop pi p) (omega (arith, k, l, length-drop pi p)) in
      let junk1 = drop (length seg) junk in
      let c = length-drop (length seg) junk in
      let b = length-drop (length r.v) junk1 in
      let f : length (drop (length r.v) junk1) ≡ length (assemble r.e (drop r.e p) rs) =
        omega (arith, b, c, q, ap (λ (x : Bytes). length (assemble r.e x rs)) d) in
      rw
        (
          write_between-ok w junk o pi r e j (omega (arith, k, l)) (omega (arith, g, q)),
          copy_at-ok (w ++ seg) junk1 r.v (length (w ++ seg)) refl (omega (arith, c, q)),
          ← append_assoc (w ++ seg) r.v (drop (length r.v) junk1),
          write_reps-ok ((w ++ seg) ++ r.v) (drop (length r.v) junk1)
              (length (w ++ seg) + length r.v) r.e rs (sym (length-append (w ++ seg) r.v)) l m f,
          d,
          append_assoc,
          append_assoc,
        )
        refl

  write_result-ok :
      (rs : List Rep) → InOrder 0 (length p) rs → write_result p rs ≡ ok (assemble 0 p rs)
  unfolding write_result assemble
  write_result-ok [] i = refl
  write_result-ok (r ∷ rs) i =
      write_reps-ok [] (replicate (result_length (length p) (r ∷ rs)) 0) 0 0 (r ∷ rs) refl
        (omega arith) i
        (length-replicate (result_length (length p) (r ∷ rs)) 0
          ∙ (result_length-assemble (length p) 0 0 (length p) p (r ∷ rs) (omega arith) (omega arith)
                i
              ∙ omega arith))

-- `replace` never reads or writes out of range, and makes of every string, also of one that is no
-- valid pattern, the string in which each part that is a tag known to the replacer is its value.
pub replace-eq-replaced :
    (replacer : Bytes → Option Bytes) (p : Bytes) → replace replacer p ≡ ok (replaced replacer p)
unfolding replace
replace-eq-replaced replacer p =
    let (i, a) = find_reps-found replacer p in write_result-ok p (find_reps replacer p) i ∙ ap ok a
