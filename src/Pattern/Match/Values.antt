-- ===== src/Pattern/Match/Values.antt =====
-- `Values` collects the parts of a name that stand at the tags of a pattern.
use go_res.Base.{
  ◌<◌, ℕ, zero, suc, ◌≤◌, if◌then◌else◌, ◌==◌, str_eq, length, Bytes, Bool, true, false, not, ◌&&◌,
  List, [], ◌∷◌, all, ◌≡◌, refl, arith, Bool-cases, inl, inr, some, none, Option, ap,
}
use mathlib.Core.Option
use go_res.Params.{Params, insert}
use go_res.Parts.{first, skip, others, parts, btsep, length-skip-le, skip-cases}
use go_res.Pattern.Valid.{is_nil, pmark, pwild, fwild}
use go_res.Pattern.Shape.{
  is_literal_char, matchable, named, values_parts, tail, parts_match, is_full_wild_part,
}
use go_res.Pattern.Match.{matches, values, values_loop, after, literal_run}
use go_res.Pattern.Match.Laws.{skip-char, nil_of_parts, matches-eq-parts_match}

loop-nil :
    (f : ℕ) (s : Bytes) (m : Params)
    → values_loop f [] s m ≡ some (if is_nil s then some m else none)
unfolding values_loop
loop-nil zero s m = refl
loop-nil (suc f) s m = refl

abbrev AtPart : ℕ → Type 0
AtPart f =
    (p s : Bytes) (m : Params)
    → length p ≤ f
    → matchable (parts p) ≡ true
    → named (parts s) ≡ true
    → values_loop f p s m ≡ some (values_parts (parts p) (parts s) m)

inside_part :
    (f c : ℕ) (p s : Bytes) (m : Params)
    → AtPart f
    → length p ≤ f
    → all is_literal_char (first (c ∷ p)) ≡ true
    → matchable (others (c ∷ p)) ≡ true
    → named (others s) ≡ true
    → after (values_loop f) m (literal_run c p s)
      ≡ some (
          if str_eq (first (c ∷ p)) (first s)
          then values_parts (others (c ∷ p)) (others s) m
          else none)
unfolding after literal_run first others parts str_eq
inside_part f c p [] m ih h k l n = ground arith
inside_part f c [] (x ∷ []) m ih h k l n = ground (arith, loop-nil f [] m)
inside_part f c [] (x ∷ y ∷ s) m ih h k l n = ground (arith, loop-nil f (y ∷ s) m)
inside_part f c (d ∷ p) (x ∷ s) m ih h k l n = elim (Bool-cases (c == btsep)) [
  | inl e ↦ elim (Bool-cases (x == btsep)) [
    | inl y ↦ ground (arith, ih (d ∷ p) s m)
    | inr y ↦ ground arith
  ]
  | inr e ↦ elim (Bool-cases (x == btsep)) [
    | inl y ↦ ground arith
    | inr y ↦ ground (arith, inside_part f d p s m ih (omega arith))
  ]
]

abbrev Before : ℕ → Type 0
Before zero = Unit
Before (suc f) = AtPart f

loop-literal :
    (f c x : ℕ) (p s : Bytes) (m : Params)
    → is_literal_char c ≡ true
    → values_loop (suc f) (c ∷ p) (x ∷ s) m ≡ after (values_loop f) m (literal_run c p (x ∷ s))
unfolding values_loop
loop-literal f c x p s m h = ground arith

loop-tag :
    (f c x : ℕ) (p s : Bytes) (m : Params)
    → (c == pmark) ≡ true
    → values_loop (suc f) (c ∷ p) (x ∷ s) m
      ≡ values_loop f (skip p) (skip (x ∷ s)) (insert (first p) (first (x ∷ s)) m)
unfolding values_loop
loop-tag f c x p s m h = rw h

loop-star :
    (f c x : ℕ) (p s : Bytes) (m : Params)
    → (c == pwild) ≡ true
    → values_loop (suc f) (c ∷ p) (x ∷ s) m ≡ values_loop f (skip p) (skip (x ∷ s)) m
unfolding values_loop
loop-star f c x p s m h = ground arith

loop-full_wild :
    (f c x : ℕ) (p s : Bytes) (m : Params)
    → (c == fwild) ≡ true
    → values_loop (suc f) (c ∷ p) (x ∷ s) m ≡ some (if is_nil p then some m else none)
unfolding values_loop
loop-full_wild f c x p s m h = ground arith

loop-end : (f c : ℕ) (p : Bytes) (m : Params) → values_loop (suc f) (c ∷ p) [] m ≡ some none
unfolding values_loop
loop-end f c p m = refl

behind_dot :
    (f : ℕ) (q s : Bytes) (m : Params)
    → Before f
    → length q < f
    → matchable (parts q) ≡ true
    → named (others s) ≡ true
    → values_loop f (btsep ∷ q) (skip s) m ≡ some (values_parts (parts q) (others s) m)
unfolding first others parts str_eq
behind_dot zero q s m before h k l = absurd (omega arith)
behind_dot (suc f) q s m before h k l = elim (skip-cases s) [
  | inl (y, z) ↦ rw (y, z) (loop-end f btsep q m)
  | inr (r, y, z) ↦
      ground (arith, loop-literal f btsep btsep q r m, inside_part f btsep q (btsep ∷ r) m before)
]

-- Behind a tag or a *, where nothing or a dot is left of the pattern.
behind_part :
    (f : ℕ) (p s : Bytes) (m : Params)
    → Before f
    → length p ≤ f
    → matchable (others p) ≡ true
    → named (others s) ≡ true
    → values_loop f (skip p) (skip s) m ≡ some (values_parts (others p) (others s) m)
unfolding parts first others
behind_part f p s m before h k l = elim (skip-cases p) [
  | inl (e, d) ↦ elim (skip-cases s) [
    | inl (y, z) ↦ ground (arith, loop-nil f [] m)
    | inr (r, y, z) ↦ ground (arith, loop-nil f (btsep ∷ r) m)
  ]
  | inr (q, e, d) ↦ ground (arith, behind_dot f q s m before, length-skip-le p)
]

at_part : (f : ℕ) → AtPart f → Before f → AtPart (suc f)
unfolding first others parts str_eq
at_part f ih before [] s m h k l = ground arith
at_part f ih before (c ∷ p) [] m h k l = ground arith
at_part f ih before (c ∷ p) (x ∷ s) m h k l = elim (Bool-cases (c == btsep)) [
  | inl e ↦ ground arith
  | inr e ↦ elim (Bool-cases (x == btsep)) [
    | inl d ↦ ground arith
    | inr d ↦ elim (Bool-cases (c == pmark)) [
      | inl w ↦ ground (
        arith,
        loop-tag f c x p s m,
        skip-char x s d,
        behind_part f p s (insert (first p) (first (x ∷ s)) m) before,
      )
      | inr w ↦ elim (Bool-cases (c == pwild)) [
        | inl w ↦ ground (arith, loop-star f c x p s m, skip-char x s d, behind_part f p s m before)
        | inr u ↦ elim (Bool-cases (c == fwild)) [
          | inl v ↦ ground (arith, loop-full_wild f c x p s m, nil_of_parts p)
          | inr v ↦ ground (arith, loop-literal f c x p s m, inside_part f c p (x ∷ s) m ih)
        ]
      ]
    ]
  ]
]

all_parts : (f : ℕ) → AtPart f × Before f
unfolding first others parts
all_parts zero = (
  λ p s m h k l.
      elim p
          as (λ q.
            length q ≤ 0
            → matchable (parts q) ≡ true
            → values_loop zero q s m ≡ some (values_parts (parts q) (parts s) m)) [
              | [] ↦ λ h k. ground arith
              | c ∷ q ↦ λ h k. absurd (omega arith)
            ]
        h k,
  tt,
)
all_parts (suc f) = let (here, before) = all_parts f in (at_part f here before, here)

-- For a pattern and a name of well formed parts, `Values` answers as the comparison part by part
-- does, with the parts of the name that stand at the tags.
pub values-eq-values_parts :
    (p s : Bytes)
    → matchable (parts p) ≡ true
    → named (parts s) ≡ true
    → values p s ≡ some (values_parts (parts p) (parts s) [])
unfolding values
values-eq-values_parts p s h k = (all_parts (length p)).0 p s [] (omega arith) h k

-- The names that two functions agree on hold no full wildcard.
abbrev pub no_full_wild : List Bytes → Bool
no_full_wild [] = true
no_full_wild (u ∷ us) = not (is_full_wild_part u) && no_full_wild us

abbrev pub is_some {ℓ} : {A : Type ℓ} → Option A → Bool
is_some none = false
is_some (some _) = true

values_parts-eq-parts_match :
    (ts us : List Bytes) (m : Params)
    → no_full_wild us ≡ true
    → is_some (values_parts ts us m) ≡ parts_match ts us
values_parts-eq-parts_match [] [] m h = refl
values_parts-eq-parts_match [] (u ∷ us) m h = refl
values_parts-eq-parts_match (t ∷ ts) [] m h = refl
values_parts-eq-parts_match (t ∷ ts) (u ∷ us) m h = ground (
  arith,
  values_parts-eq-parts_match ts us m,
  values_parts-eq-parts_match ts us (insert (tail t) u m),
)

-- `Values` finds a name to match exactly if `Matches` does, for a name without a full wildcard.
pub values-IsSome-matches :
    (p s : Bytes)
    → matchable (parts p) ≡ true
    → named (parts s) ≡ true
    → no_full_wild (parts s) ≡ true
    → Option.map is_some (values p s) ≡ matches p s
values-IsSome-matches p s h k l =
    rw (values-eq-values_parts p s h k, matches-eq-parts_match p s h k)
      (ap some (values_parts-eq-parts_match (parts p) (parts s) [] l))
