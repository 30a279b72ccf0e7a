-- ===== src/Store/Diff/Matrix.antt =====
-- The indices of the matrix are within it.
use native.Mathlib.Nat.{mul-le-mul_left}
use go_res.Base.{
  ℕ, zero, suc, ◌+◌, ◌*◌, ◌≤◌, ◌<◌, if◌then◌else◌, ltb, leb, length, get_elem?, Bool, some, List,
  [], ◌∷◌, ok, ◌≡◌, refl, ◌∙◌, arith, Bool-cases, inl, inr,
}
use go_res.Store.Diff.{at, put, set_at, entry, fill_column, fill, prefers_add}

pub get_elem?-some :
    {A : Type 0} (c : List A) (k : ℕ) → k < length c → (v : A) × (get_elem? c k ≡ some v)
get_elem?-some [] k h = absurd (omega (arith, h))
get_elem?-some (x ∷ c) zero h = (x, refl)
get_elem?-some (x ∷ c) (suc k) h = get_elem?-some c k (omega (arith, h))

pub at-get_elem? :
    {A : Type 0} (c : List A) (k : ℕ) (v : A) → get_elem? c k ≡ some v → at c k ≡ ok v
unfolding at
at-get_elem? c k v e = rw (at, e) refl

pub at-ok : {A : Type 0} (c : List A) (k : ℕ) → k < length c → (v : A) × (at c k ≡ ok v)
at-ok c k h = let (v, e) = get_elem?-some c k h in (v, at-get_elem? c k v e)

length-set_at : (c : List ℕ) (k v : ℕ) → length (set_at c k v) ≡ length c
length-set_at [] k v = refl
length-set_at (x ∷ c) zero v = refl
length-set_at (x ∷ c) (suc k) v = omega (arith, length-set_at c k v)

put-ok :
    (c : List ℕ) (k v : ℕ)
    → k < length c
    → (c' : List ℕ) × (put c k v ≡ ok c') × (length c' ≡ length c)
unfolding put
put-ok c k v h = (set_at c k v, ground (arith, h), length-set_at c k v)

mul_lt : (w i j n : ℕ) → i < w → j ≤ n → i + w * j < w * (n + 1)
mul_lt w i j n h k = omega (arith, mul-le-mul_left w k)

module _ {V : Type 0} (equal : V → V → Bool) where
  entry-ok :
      (w n i j : ℕ) (x y : V) (c : List ℕ)
      → suc i < w
      → j < n
      → length c ≡ w * (n + 1)
      → (v : ℕ) × (entry equal w c i x j y ≡ ok v)
  unfolding entry
  entry-ok w n i j x y c h k l =
      let (v0, e0) =
        at-ok c (i + w * j) (omega (arith, l, mul_lt w i j n (omega arith) (omega arith))) in
      let (v1, e1) =
        at-ok c ((i + 1) + w * j)
          (omega (arith, l, mul_lt w (i + 1) j n (omega arith) (omega arith))) in
      let (v2, e2) =
        at-ok c (i + w * (j + 1))
          (omega (arith, l, mul_lt w i (j + 1) n (omega arith) (omega arith))) in
      elim (Bool-cases (equal x y)) [
        | inl b ↦ (v0 + 1, rw (b, e0) refl)
        | inr b ↦ (if ltb v1 v2 then v2 else v1, rw (b, e1, e2) refl)
      ]

  fill_column-ok :
      (w n i j : ℕ) (x : V) (bb : List V) (c : List ℕ)
      → suc i < w
      → j + length bb ≡ n
      → length c ≡ w * (n + 1)
      → (c' : List ℕ) × (fill_column equal w i x j bb c ≡ ok c') × (length c' ≡ length c)
  unfolding fill_column
  fill_column-ok w n i j x [] c h k l = (c, refl, refl)
  fill_column-ok w n i j x (y ∷ bb) c h k l =
      let (v, e) = entry-ok w n i j x y c h (omega (arith, k)) l in
      let (c1, e1, l1) =
        put-ok c ((i + 1) + w * (j + 1)) v
          (omega (arith, l, mul_lt w (i + 1) (j + 1) n (omega arith) (omega (arith, k)))) in
      let (c2, e2, l2) = fill_column-ok w n i (j + 1) x bb c1 h (omega (arith, k)) (l1 ∙ l) in
      (c2, rw (e, e1, e2) refl, l2 ∙ l1)

  pub fill-ok :
      (w i : ℕ) (aa bb : List V) (c : List ℕ)
      → i + length aa < w
      → length c ≡ w * (length bb + 1)
      → (c' : List ℕ) × (fill equal w i aa bb c ≡ ok c') × (length c' ≡ length c)
  unfolding fill
  fill-ok w i [] bb c h l = (c, refl, refl)
  fill-ok w i (x ∷ aa) bb c h l =
      let (c1, e1, l1) =
        fill_column-ok w (length bb) i 0 x bb c (omega (arith, h)) (omega arith) l in
      let (c2, e2, l2) = fill-ok w (i + 1) aa bb c1 (omega (arith, h)) (l1 ∙ l) in
      (c2, rw (e1, e2) refl, l2 ∙ l1)

  pub prefers_add-ok :
      (w n m k : ℕ) (c : List ℕ)
      → suc m < w
      → k < n
      → length c ≡ w * (n + 1)
      → (b : Bool) × (prefers_add equal w c m k ≡ ok b)
  unfolding prefers_add
  prefers_add-ok w n m k c h l e =
      let (v1, e1) =
        at-ok c (suc m + w * k) (omega (arith, e, mul_lt w (suc m) k n h (omega arith))) in
      let (v2, e2) =
        at-ok c (m + w * suc k)
          (omega (arith, e, mul_lt w m (suc k) n (omega arith) (omega arith))) in
      (leb v2 v1, rw (e1, e2) refl)
