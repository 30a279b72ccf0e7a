-- ===== src/Parts/Split.antt =====
-- `first` and `others` describe the parts of a string without an index: the bytes up to the first
-- dot, and the parts behind it. `split_pattern` is the loop of the source.
use Prim.Native.Nat.{ℕ, ◌≤◌}
use go_res.Base.{
  if◌then◌else◌, ◌==◌, length, Bytes, ◌≡◌, refl, List, [], ◌∷◌, ◌++◌, arith, append_assoc,
  append-nil, Bool-cases, inl, inr, ◌⊎◌,
}

-- The constant `btsep`.
abbrev pub btsep : ℕ
btsep = b'.'

-- `for si < sl && s[si] != '.' { si++ }`: what the loop passes over, and what it leaves.
unfoldable pub first : Bytes → Bytes
first [] = []
first (c ∷ p) = if c == btsep then [] else c ∷ first p

unfoldable pub skip : Bytes → Bytes
skip [] = []
skip (c ∷ p) = if c == btsep then c ∷ p else skip p

unfoldable pub others : Bytes → List Bytes
others [] = []
others (c ∷ p) = if c == btsep then first p ∷ others p else others p

unfoldable pub parts : Bytes → List Bytes
parts p = first p ∷ others p

-- The loop of `splitPattern`: `token` is p[start:i].
split_from : List Bytes → Bytes → Bytes → List Bytes
split_from tokens token [] = tokens ++ token ∷ []
split_from tokens token (c ∷ p) =
    let here = c == btsep in
    split_from (if here then tokens ++ token ∷ [] else tokens)
      (if here then [] else token ++ c ∷ []) p

unfoldable pub split_pattern : Bytes → List Bytes
unfolding split_from
split_pattern [] = []
split_pattern (c ∷ p) = split_from [] [] (c ∷ p)

split_from-eq :
    (tokens : List Bytes) (token p : Bytes)
    → split_from tokens token p ≡ tokens ++ (token ++ first p) ∷ others p
unfolding split_from first others
split_from-eq tokens token [] = rw append-nil
split_from-eq tokens token (c ∷ p) = elim (Bool-cases (c == btsep)) [
  | inl e ↦ rw (e, split_from-eq (tokens ++ token ∷ []) [] p, append_assoc, append-nil)
  | inr e ↦ rw (e, split_from-eq tokens (token ++ c ∷ []) p, append_assoc)
]

-- The loop of `splitPattern` finds the parts.
pub split_pattern-eq-parts : (c : ℕ) (p : Bytes) → split_pattern (c ∷ p) ≡ parts (c ∷ p)
unfolding split_pattern parts
split_pattern-eq-parts c p = split_from-eq [] [] (c ∷ p)

pub length-skip-le : (p : Bytes) → length (skip p) ≤ length p
unfolding skip
length-skip-le [] = omega arith
length-skip-le (c ∷ p) = ground (arith, length-skip-le p)

-- What is left behind a part is nothing or a dot with the next parts behind it.
pub skip-cases :
    (p : Bytes)
    → ((skip p ≡ []) × (others p ≡ []))
      ⊎ ((q : Bytes) × (skip p ≡ btsep ∷ q) × (others p ≡ parts q))
unfolding skip others parts
skip-cases [] = inl (refl, refl)
skip-cases (c ∷ p) = elim (Bool-cases (c == btsep)) [
  | inl e ↦ inr (p, ground arith, ground arith)
  | inr e ↦ rw e (skip-cases p)
]

pub first-append-skip : (p : Bytes) → first p ++ skip p ≡ p
unfolding first skip
first-append-skip [] = refl
first-append-skip (c ∷ p) = elim (Bool-cases (c == btsep)) [
  | inl e ↦ rw e
  | inr e ↦ rw (e, first-append-skip p)
]
