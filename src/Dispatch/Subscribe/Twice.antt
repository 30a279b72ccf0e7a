-- ===== src/Dispatch/Subscribe/Twice.antt =====
-- What the test for overlapping patterns keeps.
use go_res.Base.{
  ℕ, ◌+◌, ◌≤◌, if◌then◌else◌, str_eq, eq_of_str_eq, Bytes, true, false, ◌||◌, List, [], ◌∷◌, any,
  ◌≡◌, refl, arith, by_test, or-true, some, Bool-cases, inl, inr,
}
use go_res.Pattern.Match.{matches}
use go_res.Dispatch.Subscribe.{keep, kept, overlaps, is_true}

-- How often a pattern is in a list.
unfoldable pub count : Bytes → List Bytes → ℕ
count p [] = 0
count p (q ∷ ps) = (if str_eq q p then 1 else 0) + count p ps

count-overlaps :
    (p : Bytes) (ps : List Bytes)
    → overlaps p p ≡ true
    → 1 ≤ count p ps
    → any (λ m. overlaps m p) ps ≡ true
unfolding count
count-overlaps p [] h l = absurd (omega arith)
count-overlaps p (q ∷ ps) h l = elim (Bool-cases (str_eq q p)) [
  | inl e ↦ rw (eq_of_str_eq q p e, h) refl
  | inr e ↦ or-true (overlaps q p) (count-overlaps p ps h (omega (arith, rw e at l)))
]

overlapped :
    (p : Bytes) (before after : List Bytes)
    → overlaps p p ≡ true
    → 1 ≤ count p before + count p after
    → any (λ m. overlaps m p) before || any (λ m. overlaps m p) after ≡ true
overlapped p before after h l = ground (arith, count-overlaps p before h, count-overlaps p after h)

keep-twice :
    (p : Bytes) (before after : List Bytes)
    → overlaps p p ≡ true
    → 2 ≤ count p before + count p after
    → any (λ q. str_eq q p) (keep before after) ≡ false
unfolding keep count
keep-twice p before [] h l = refl
keep-twice p before (q ∷ after) h l =
    let rest = keep-twice p (q ∷ before) after h (omega arith) in
    elim (Bool-cases (str_eq q p)) [
      | inl e ↦
          rw (eq_of_str_eq q p e, overlapped p before after h (omega (arith, rw e at l)))
            (rw (eq_of_str_eq q p e) at rest)
      | inr e ↦
          by_test (λ ps. any (λ r. str_eq r p) ps ≡ false)
            (any (λ m. overlaps m q) before || any (λ m. overlaps m q) after)
            {y = q ∷ keep (q ∷ before) after} (λ y. rest) (λ y. rw (e, rest) refl)
    ]

-- A pattern that is twice in the list, and matches itself, is not subscribed to at all: each of its
-- occurrences is dropped for the other.
pub kept-twice :
    (p : Bytes) (ps : List Bytes)
    → matches p p ≡ some true
    → 2 ≤ count p ps
    → any (λ q. str_eq q p) (kept ps) ≡ false
unfolding kept count overlaps is_true
kept-twice p ps h l = keep-twice p [] ps (rw h refl) (omega (arith, l))
