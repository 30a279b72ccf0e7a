-- ===== src/Pattern/Replace/Found.antt =====
-- The places that the first loop finds are in order, and stand for the pattern with its known tags
-- replaced.
use go_res.Base.{
  take-append, drop-append, ℕ, zero, suc, ◌+◌, ◌-◌, ◌≤◌, if◌then◌else◌, ◌==◌, length, length-append,
  drop, Bytes, Bool, true, false, Option, none, some, Option-cases, Bool-cases, inl, inr, List, [],
  ◌∷◌, ◌++◌, map, append_assoc, append-nil, ◌≡◌, refl, sym, ap, ◌∙◌, arith,
}
use go_res.Parts.{btsep, first, skip, others, parts, join, first-append-skip, skip-cases}
use go_res.Pattern.Valid.{pmark}
use go_res.Pattern.Replace.{Rep, found_tag, round, find_loop, find_reps}
use go_res.Pattern.Replace.Spec.{replace_part, replaced, assemble, InOrder}

-- What is passed over ahead of the places stays.
assemble-pass :
    (a s : Bytes) (pi here last : ℕ) (rs : List Rep)
    → here ≡ pi + length a
    → InOrder here last rs
    → assemble pi (a ++ s) rs ≡ a ++ assemble here s rs
unfolding assemble
assemble-pass a s pi here last [] e h = refl
assemble-pass a s pi here last (r ∷ rs) e (h, k, l, m) =
    rw
      (
        take-append a (r.o - here) (r.o - pi) s (omega (arith, h, e)),
        drop-append a (r.e - here) (r.e - pi) s (omega (arith, h, k, e)),
        append_assoc,
      )
      refl

InOrder-pass :
    (pi here last : ℕ) (rs : List Rep) → pi ≤ here → InOrder here last rs → InOrder pi last rs
InOrder-pass pi here last [] e h = tt
InOrder-pass pi here last (r ∷ rs) e (h, i, l, m) = (omega arith, i, l, m)

mark-not-dot : (c : ℕ) → (c == pmark) ≡ true → (c == btsep) ≡ false
mark-not-dot c k = ground arith

dot-eq : (c : ℕ) → (c == btsep) ≡ true → c ≡ btsep
dot-eq c d = ground arith

length-first-skip : (s : Bytes) → length (first s) + length (skip s) ≡ length s
length-first-skip s = sym (length-append (first s) (skip s)) ∙ ap length (first-append-skip s)

length-first_le : (s : Bytes) → length (first s) ≤ length s
length-first_le s = omega (arith, length-first-skip s)

module _ (replacer : Bytes → Option Bytes) where
  -- What the rest of a pattern becomes, within a part or at the start of one.
  abbrev rest_replaced : Bool → Bytes → Bytes
  rest_replaced start s = join (
      (if start then replace_part replacer (first s) else first s)
      ∷ map (replace_part replacer) (others s))

  join-cons : (c : ℕ) (t : Bytes) (us : List Bytes) → join ((c ∷ t) ∷ us) ≡ c ∷ join (t ∷ us)
  unfolding join
  join-cons c t [] = refl
  join-cons c t (u ∷ us) = refl

  -- A part with what comes behind it.
  join-skip :
      (x s : Bytes)
      → join (x ∷ map (replace_part replacer) (others s)) ≡ x ++ rest_replaced true (skip s)
  unfolding join first others parts
  join-skip x s = elim (skip-cases s) [
    | inl (p, q) ↦ rw (p, q) (sym (append-nil x))
    | inr (t, p, q) ↦ rw (p, q)
  ]

  abbrev Found : ℕ → Type 0
  Found f =
      (pi last : ℕ) (start : Bool) (s : Bytes)
      → length s ≤ f
      → last ≡ pi + length s
      → InOrder pi last (find_loop replacer f (record { pi = pi; start = start; rest = s }))
        × (assemble pi s (find_loop replacer f (record { pi = pi; start = start; rest = s }))
            ≡ rest_replaced start s)

  -- Past one character that no place begins at.
  pass_one :
      (f pi last c : ℕ) (start next : Bool) (s : Bytes)
      → Found f
      → length s ≤ f
      → last ≡ pi + suc (length s)
      → rest_replaced start (c ∷ s) ≡ c ∷ rest_replaced next s
      → let rs = find_loop replacer f (record { pi = pi + 1; start = next; rest = s }) in
        InOrder pi last rs × (assemble pi (c ∷ s) rs ≡ rest_replaced start (c ∷ s))
  pass_one f pi last c start next s ih h e k =
      let (i, a) = ih (pi + 1) last next s h (omega (arith, e)) in
      (
        InOrder-pass pi (pi + 1) last _ (omega arith) i,
        assemble-pass (c ∷ []) s pi (pi + 1) last _ (omega arith) i ∙ (ap (λ t. c ∷ t) a ∙ sym k),
      )

  tag_replaced :
      (c : ℕ) (s : Bytes)
      → (c == pmark) ≡ true
      → rest_replaced true (c ∷ s)
        ≡ replace_part replacer (c ∷ first s) ++ rest_replaced true (skip s)
  unfolding first others
  tag_replaced c s k =
      let d = mark-not-dot c k in rw d (join-skip (replace_part replacer (c ∷ first s)) s)

  dot_replaced :
      (c : ℕ) (start : Bool) (s : Bytes)
      → (c == btsep) ≡ true
      → rest_replaced start (c ∷ s) ≡ c ∷ rest_replaced true s
  unfolding first others join
  dot_replaced c true s d = rw d (ap (λ x. x ∷ rest_replaced true s) (sym (dot-eq c d)))
  dot_replaced c false s d = rw d (ap (λ x. x ∷ rest_replaced true s) (sym (dot-eq c d)))

  char_replaced :
      (c : ℕ) (start : Bool) (s : Bytes)
      → (start ≡ true → (c == pmark) ≡ false)
      → (c == btsep) ≡ false
      → rest_replaced start (c ∷ s) ≡ c ∷ rest_replaced false s
  unfolding first others
  char_replaced c true s k d = rw (d, k refl) (join-cons c (first s) _)
  char_replaced c false s k d = rw d (join-cons c (first s) _)

  tag_found :
      (pi last c : ℕ) (s v : Bytes) (rs : List Rep)
      → last ≡ pi + suc (length s)
      → InOrder (pi + 1 + length (first s)) last rs
      → let r : Rep = record { o = (pi + 1) - 1; e = pi + 1 + length (first s); v = v } in
        InOrder pi last (r ∷ rs)
        × (assemble pi (c ∷ s) (r ∷ rs) ≡ v ++ assemble (pi + 1 + length (first s)) (skip s) rs)
  unfolding assemble
  tag_found pi last c s v rs e i =
      let t = pi + 1 + length (first s) in
      let d : drop (t - pi) (c ∷ s) ≡ skip s =
        ap (λ z. drop (t - pi) (c ∷ z)) (sym (first-append-skip s))
        ∙ drop-append (c ∷ first s) 0 (t - pi) (skip s) (omega arith) in
      let z : ((pi + 1) - 1) - pi ≡ 0 = omega arith in
      ((omega arith, omega arith, omega (arith, e, length-first_le s), i), rw (z, d) refl)

  found_tag-none : (o : ℕ) (tag : Bytes) → replacer tag ≡ none → found_tag replacer o tag ≡ []
  unfolding found_tag
  found_tag-none o tag y = rw (found_tag, y) refl

  found_tag-some :
      (o : ℕ) (tag v : Bytes)
      → replacer tag ≡ some v
      → found_tag replacer o tag ≡ record { o = o - 1; e = o + length tag; v = v } ∷ []
  unfolding found_tag
  found_tag-some o tag v y = rw (found_tag, y) refl

  at_tag :
      (f pi last c : ℕ) (s : Bytes)
      → Found f
      → length s ≤ f
      → last ≡ pi + suc (length s)
      → (c == pmark) ≡ true
      → let t = pi + 1 + length (first s) in
        let rs =
          found_tag replacer (pi + 1) (first s)
          ++ find_loop replacer f (record { pi = t; start = true; rest = skip s }) in
        InOrder pi last rs × (assemble pi (c ∷ s) rs ≡ rest_replaced true (c ∷ s))
  at_tag f pi last c s ih h e k =
      let t = pi + 1 + length (first s) in
      let len = length-first-skip s in
      let (i, a) = ih t last true (skip s) (omega (arith, h, len)) (omega (arith, e, len)) in
      let rs : List Rep = find_loop replacer f (record { pi = t; start = true; rest = skip s }) in
      elim (Option-cases (replacer (first s))) [
        | inl y ↦
            let p : rest_replaced true (c ∷ s) ≡ c ∷ first s ++ rest_replaced true (skip s) =
              tag_replaced c s k ∙ rw (k, y) refl in
            rw (found_tag-none (pi + 1) (first s) y) (
              InOrder-pass pi t last _ (omega arith) i,
              ap (λ (z : Bytes). assemble pi (c ∷ z) rs) (sym (first-append-skip s))
                  ∙ (assemble-pass (c ∷ first s) (skip s) pi t last _ (omega arith) i
                      ∙ (ap (λ z. c ∷ (first s ++ z)) a ∙ sym p)),
            )
        | inr (v, y) ↦
            let p : rest_replaced true (c ∷ s) ≡ v ++ rest_replaced true (skip s) =
              tag_replaced c s k ∙ rw (k, y) refl in
            let (j, b) = tag_found pi last c s v _ e i in
            rw (found_tag-some (pi + 1) (first s) v y) (j, b ∙ (ap (λ z. v ++ z) a ∙ sym p))
      ]

  at_char :
      (f pi last c : ℕ) (start : Bool) (s : Bytes)
      → Found f
      → length s ≤ f
      → last ≡ pi + suc (length s)
      → let next = round replacer c (pi + 1) start s in
        let rs = next.0 ++ find_loop replacer f next.1 in
        InOrder pi last rs × (assemble pi (c ∷ s) rs ≡ rest_replaced start (c ∷ s))
  unfolding round
  at_char f pi last c true s ih h e = elim (Bool-cases (c == pmark)) [
    | inl k ↦ rw k (at_tag f pi last c s ih h e k)
    | inr k ↦ elim (Bool-cases (c == btsep)) [
      | inl d ↦ rw (k, d) (pass_one f pi last c true true s ih h e (dot_replaced c true s d))
      | inr d ↦
          rw (k, d) (pass_one f pi last c true false s ih h e (char_replaced c true s (λ y. k) d))
    ]
  ]
  at_char f pi last c false s ih h e = elim (Bool-cases (c == pmark)) [
    | inl k ↦ rw k (
        pass_one f pi last c false false s ih h e
          (char_replaced c false s (λ y. cc) (mark-not-dot c k)))
    | inr k ↦ elim (Bool-cases (c == btsep)) [
      | inl d ↦ rw (k, d) (pass_one f pi last c false true s ih h e (dot_replaced c false s d))
      | inr d ↦
          rw (k, d)
            (pass_one f pi last c false false s ih h e (char_replaced c false s (λ y. cc) d))
    ]
  ]

  find_loop-Found : (f : ℕ) → Found f
  unfolding find_loop assemble join first others
  find_loop-Found zero pi last true [] h e = (tt, refl)
  find_loop-Found zero pi last false [] h e = (tt, refl)
  find_loop-Found zero pi last start (c ∷ s) h e = absurd (omega (arith, h))
  find_loop-Found (suc f) pi last true [] h e = (tt, refl)
  find_loop-Found (suc f) pi last false [] h e = (tt, refl)
  find_loop-Found (suc f) pi last start (c ∷ s) h e =
      at_char f pi last c start s (find_loop-Found f) (omega (arith, h)) (omega (arith, e))

  pub find_reps-found :
      (p : Bytes)
      → InOrder 0 (length p) (find_reps replacer p)
        × (assemble 0 p (find_reps replacer p) ≡ replaced replacer p)
  unfolding find_reps parts
  find_reps-found p = find_loop-Found (length p) 0 (length p) true p (omega arith) (omega arith)
