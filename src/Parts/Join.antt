-- ===== src/Parts/Join.antt =====
-- `mergePattern` of mux.go and `strings.Join` with a dot: joining parts back to a string.
use go_res.Base.{
  ℕ, ◌==◌, ==_iff, Bool, true, false, not, and-eq-true, all, ap₂, arith, Bool-cases, inl, inr, ◌≡◌,
  refl, ap, ◌∙◌, Bytes, List, [], ◌∷◌, ◌++◌,
}
use go_res.Parts.Split.{btsep, first, others, parts}

unfoldable pub merge_pattern : Bytes → Bytes → Bytes
merge_pattern [] b = b
merge_pattern (c ∷ a) [] = c ∷ a
merge_pattern (c ∷ a) (d ∷ b) = (c ∷ a) ++ btsep ∷ d ∷ b

unfoldable pub join : List Bytes → Bytes
join [] = []
join (t ∷ []) = t
join (t ∷ u ∷ ts) = t ++ btsep ∷ join (u ∷ ts)

-- The parts of a string make it again.
pub join-parts : (p : Bytes) → join (parts p) ≡ p
unfolding join parts first others
join-parts [] = refl
join-parts (c ∷ p) = elim (Bool-cases (c == btsep)) [
  | inl e ↦ rw (e, (==_iff c btsep).0 e) (ap (λ q. btsep ∷ q) (join-parts p))
  | inr e ↦ rw e (join-cons c (first p) (others p) ∙ ap (λ q. c ∷ q) (join-parts p))
]
  where
    join-cons : (d : ℕ) (t : Bytes) (us : List Bytes) → join ((d ∷ t) ∷ us) ≡ d ∷ join (t ∷ us)
    join-cons d t [] = refl
    join-cons d t (u ∷ us) = refl

-- A string without a dot.
abbrev pub dotless : Bytes → Bool
dotless s = all (λ c. not (c == btsep)) s

abbrev head_of : List Bytes → Bytes
head_of [] = []
head_of (x ∷ xs) = x

abbrev rest_of : List Bytes → List Bytes
rest_of [] = []
rest_of (x ∷ xs) = xs

-- The parts of two strings with a dot between them.
pub parts-append : (a b : Bytes) → parts (a ++ btsep ∷ b) ≡ parts a ++ parts b
unfolding parts first others
parts-append [] b = refl
parts-append (c ∷ a) b =
    let ih = parts-append a b in
    elim (Bool-cases (c == btsep)) [
      | inl e ↦ rw e (ap (λ us. [] ∷ us) ih)
      | inr e ↦ rw e (ap₂ (λ x y. (c ∷ x) ∷ y) (ap head_of ih) (ap rest_of ih))
    ]

parts_alone : (t : Bytes) → dotless t ≡ true → parts t ≡ t ∷ []
unfolding parts first others
parts_alone [] h = refl
parts_alone (c ∷ t) h =
    let (n, k) = and-eq-true (not (c == btsep)) (dotless t) h in
    let e : (c == btsep) ≡ false = ground (arith, n) in
    let ih = parts_alone t k in rw e (ap₂ (λ x y. (c ∷ x) ∷ y) (ap head_of ih) (ap rest_of ih))

parts_behind : (t s : Bytes) → dotless t ≡ true → parts (t ++ btsep ∷ s) ≡ t ∷ parts s
parts_behind t s h = parts-append t s ∙ ap (λ us. us ++ parts s) (parts_alone t h)

pub parts-join :
    (t : Bytes) (ts : List Bytes) → all dotless (t ∷ ts) ≡ true → parts (join (t ∷ ts)) ≡ t ∷ ts
unfolding join
parts-join t [] h = parts_alone t (and-eq-true (dotless t) true h).0
parts-join t (u ∷ ts) h =
    let (n, k) = and-eq-true (dotless t) (all dotless (u ∷ ts)) h in
    parts_behind t (join (u ∷ ts)) n ∙ ap (λ us. t ∷ us) (parts-join u ts k)

first-others-dotless : (p : Bytes) → (dotless (first p) ≡ true) × (all dotless (others p) ≡ true)
unfolding first others
first-others-dotless [] = (refl, refl)
first-others-dotless (c ∷ p) =
    let (a, b) = first-others-dotless p in
    elim (Bool-cases (c == btsep)) [
      | inl e ↦ (rw e refl, rw (e, a) b)
      | inr e ↦ (rw (e, e) a, rw e b)
    ]

pub parts-dotless : (p : Bytes) → all dotless (parts p) ≡ true
unfolding parts
parts-dotless p = let (a, b) = first-others-dotless p in rw a b
