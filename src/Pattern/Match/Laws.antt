-- ===== src/Pattern/Match/Laws.antt =====
-- `Matches` and `Values` compare a pattern and a name part by part.
use go_res.Base.{
  ◌≢◌, ℕ, zero, suc, ◌≤◌, if◌then◌else◌, ◌==◌, str_eq, length, Bytes, true, false, ◌&&◌, [], ◌∷◌,
  all, ◌≡◌, refl, arith, Bool-cases, inl, inr, some, none,
}
use go_res.Parts.{first, skip, others, parts, btsep, length-skip-le}
use go_res.Pattern.Valid.{is_nil, fwild}
use go_res.Pattern.Shape.{
  is_literal_char, matchable, named, parts_match, is_wild_part, is_full_wild_part,
}
use go_res.Pattern.Match.{matches, matches_loop}

loop-nil : (f : ℕ) (s : Bytes) → matches_loop f [] s ≡ some (is_nil s)
unfolding matches_loop
loop-nil zero s = refl
loop-nil (suc f) s = refl

loop-end : (f c : ℕ) (p : Bytes) → matches_loop (suc f) (c ∷ p) [] ≡ some false
unfolding matches_loop
loop-end f c p = refl

loop-literal :
    (f c x : ℕ) (p s : Bytes)
    → is_literal_char c ≡ true
    → matches_loop (suc f) (c ∷ p) (x ∷ s) ≡ (if c == x then matches_loop f p s else some false)
unfolding matches_loop
loop-literal f c x p s h = ground arith

loop-wild :
    (f c x : ℕ) (p s : Bytes)
    → is_wild_part (c ∷ p) ≡ true
    → matches_loop (suc f) (c ∷ p) (x ∷ s)
      ≡ (if x == fwild then some false else matches_loop f (skip p) (skip (x ∷ s)))
unfolding matches_loop
loop-wild f c x p s h = ground arith

first-others_dot :
    (c : ℕ) (p : Bytes)
    → (c == btsep) ≡ true
    → (first (c ∷ p) ≡ []) × (others (c ∷ p) ≡ parts p) × (is_literal_char c ≡ true)
unfolding first others parts
first-others_dot c p h = (rw h, rw h, ground arith)

first-others_char :
    (c : ℕ) (p : Bytes)
    → (c == btsep) ≡ false
    → (first (c ∷ p) ≡ c ∷ first p) × (others (c ∷ p) ≡ others p)
unfolding first others
first-others_char c p h = (rw h, rw h)

loop-full_wild :
    (f c x : ℕ) (p s : Bytes)
    → is_full_wild_part (c ∷ p) ≡ true
    → matches_loop (suc f) (c ∷ p) (x ∷ s) ≡ some (is_nil p)
unfolding matches_loop
loop-full_wild f c x p s h = ground arith

pub skip_parts : (p : Bytes) → (first (skip p) ≡ []) × (others (skip p) ≡ others p)
unfolding first others skip
skip_parts [] = (refl, refl)
skip_parts (c ∷ p) = elim (Bool-cases (c == btsep)) [
  | inl e ↦ rw (e, e) (ground arith, ground arith)
  | inr e ↦ rw e (skip_parts p)
]

pub skip-char : (c : ℕ) (p : Bytes) → (c == btsep) ≡ false → skip (c ∷ p) ≡ skip p
unfolding skip
skip-char c p h = rw h

pub nil_of_parts :
    (p : Bytes) → is_nil (others p) ≡ true → is_nil (first p) ≡ true → is_nil p ≡ true
unfolding first others
nil_of_parts [] h k = refl
nil_of_parts (c ∷ p) h k = ground arith

-- Inside a plain part, and at the start of a part.
mutual
  unfolding str_eq first others parts

  inside_part :
      (f : ℕ) (p s : Bytes)
      → length p ≤ f
      → all is_literal_char (first p) ≡ true
      → matchable (others p) ≡ true
      → named (others s) ≡ true
      → matches_loop f p s ≡ some (str_eq (first p) (first s) && parts_match (others p) (others s))
  inside_part f [] [] h k l m = rw loop-nil
  inside_part f [] (x ∷ s) h k l m = ground (arith, loop-nil f (x ∷ s))
  inside_part zero (c ∷ p) s h k l m = absurd (omega arith)
  inside_part (suc f) (c ∷ p) [] h k l m = ground (arith, loop-end f c p)
  inside_part (suc f) (c ∷ p) (x ∷ s) h k l m = elim (Bool-cases (c == btsep)) [
    | inl e ↦ elim (Bool-cases (x == btsep)) [
      | inl d ↦ ground (arith, loop-literal f c x p s, at_part f p s)
      | inr d ↦ ground (arith, loop-literal f c x p s)
    ]
    | inr e ↦ elim (Bool-cases (x == btsep)) [
      | inl d ↦ ground (arith, loop-literal f c x p s)
      | inr d ↦ ground (arith, loop-literal f c x p s, inside_part f p s)
    ]
  ]

  at_part :
      (f : ℕ) (p s : Bytes)
      → length p ≤ f
      → matchable (parts p) ≡ true
      → named (parts s) ≡ true
      → matches_loop f p s ≡ some (parts_match (parts p) (parts s))
  at_part f [] s h k l = ground (arith, loop-nil f s)
  at_part zero (c ∷ p) s h k l = absurd (omega arith)
  at_part (suc f) (c ∷ p) [] h k l = ground (arith, loop-end f c p)
  at_part (suc f) (c ∷ p) (x ∷ s) h k l = elim (Bool-cases (c == btsep)) [
    | inl e ↦ ground arith
    | inr e ↦ elim (Bool-cases (x == btsep)) [
      | inl d ↦ ground arith
      | inr d ↦ elim (Bool-cases (is_wild_part (c ∷ p))) [
        | inl w ↦ ground (
          arith,
          loop-wild f c x p s,
          skip-char x s d,
          skip_parts p,
          skip_parts s,
          length-skip-le p,
          inside_part f (skip p) (skip s),
        )
        | inr w ↦ elim (Bool-cases (is_full_wild_part (c ∷ p))) [
          | inl v ↦ ground (arith, loop-full_wild f c x p s, nil_of_parts p)
          | inr v ↦ ground (arith, loop-literal f c x p s, inside_part f p s)
        ]
      ]
    ]
  ]

total : (f : ℕ) (p s : Bytes) → length p ≤ f → matches_loop f p s ≢ none
unfolding matches_loop
total f [] s h = ground (arith, loop-nil f s)
total zero (c ∷ p) s h = absurd (omega arith)
total (suc f) (c ∷ p) [] h = ground arith
total (suc f) (c ∷ p) (x ∷ s) h =
    ground (arith, total f p s, total f (skip p) (skip (x ∷ s)), length-skip-le p)

-- For a pattern and a name of well formed parts, `Matches` compares them part by part.
pub matches-eq-parts_match :
    (p s : Bytes)
    → matchable (parts p) ≡ true
    → named (parts s) ≡ true
    → matches p s ≡ some (parts_match (parts p) (parts s))
unfolding matches
matches-eq-parts_match p s h k = at_part (length p) p s (omega arith) h k

-- `Matches` ends within its fuel, for every pattern and every name.
pub matches_total : (p s : Bytes) → matches p s ≢ none
unfolding matches
matches_total p s = total (length p) p s (omega arith)
