-- ===== src/Base/Lists.antt =====
-- Lists over the native numbers.
use Prim.Native.Nat.{ℕ, zero, suc, ◌+◌, ◌-◌, ◌≤◌}
use mathlib.Core.Path.{◌≡◌, refl, ap}
use mathlib.Core.Bool.{Bool, true, false, ◌&&◌, ◌||◌}
use mathlib.Core.Option.{Option, none, some}
use mathlib.Core.List.{List, [], ◌∷◌, ◌++◌}
use native.Mathlib.Omega.{arith}

module _ {ℓ} {A : Type ℓ} where
  abbrev pub length : List A → ℕ
  length [] = 0
  length (x ∷ xs) = suc (length xs)

  abbrev pub get_elem? : List A → ℕ → Option A
  get_elem? [] i = none
  get_elem? (x ∷ xs) zero = some x
  get_elem? (x ∷ xs) (suc i) = get_elem? xs i

  abbrev pub take : ℕ → List A → List A
  take zero xs = []
  take (suc n) [] = []
  take (suc n) (x ∷ xs) = x ∷ take n xs

  abbrev pub drop : ℕ → List A → List A
  drop zero xs = xs
  drop (suc n) [] = []
  drop (suc n) (x ∷ xs) = drop n xs

  abbrev pub replicate : ℕ → A → List A
  replicate zero x = []
  replicate (suc n) x = x ∷ replicate n x

  pub length-replicate : (n : ℕ) (x : A) → length (replicate n x) ≡ n
  length-replicate zero x = refl
  length-replicate (suc n) x = omega (arith, length-replicate n x)

  abbrev pub all : (A → Bool) → List A → Bool
  all p [] = true
  all p (x ∷ xs) = p x && all p xs

  abbrev pub any : (A → Bool) → List A → Bool
  any p [] = false
  any p (x ∷ xs) = p x || any p xs

  pub length-append : (xs ys : List A) → length (xs ++ ys) ≡ length xs + length ys
  length-append [] ys = omega arith
  length-append (x ∷ xs) ys = omega (arith, length-append xs ys)

  pub length-take : (n : ℕ) (s : List A) → n ≤ length s → length (take n s) ≡ n
  length-take zero s h = refl
  length-take (suc n) [] h = absurd (omega (arith, h))
  length-take (suc n) (c ∷ s) h = omega (arith, length-take n s (omega (arith, h)))

  pub length-drop : (n : ℕ) (s : List A) → length (drop n s) ≡ length s - n
  length-drop zero s = omega arith
  length-drop (suc n) [] = omega arith
  length-drop (suc n) (c ∷ s) = omega (arith, length-drop n s)

  pub take-all : (n : ℕ) (s : List A) → length s ≤ n → take n s ≡ s
  take-all zero [] h = refl
  take-all zero (c ∷ s) h = absurd (omega (arith, h))
  take-all (suc n) [] h = refl
  take-all (suc n) (c ∷ s) h = ap (λ t. c ∷ t) (take-all n s (omega (arith, h)))

  pub drop-all : (n : ℕ) (s : List A) → length s ≤ n → drop n s ≡ []
  drop-all zero [] h = refl
  drop-all zero (c ∷ s) h = absurd (omega (arith, h))
  drop-all (suc n) [] h = refl
  drop-all (suc n) (c ∷ s) h = drop-all n s (omega (arith, h))

  pub drop-drop : (i j n : ℕ) (s : List A) → n ≡ j + i → drop i (drop j s) ≡ drop n s
  drop-drop i zero n s e = ap (λ m. drop m s) (omega (arith, e))
  drop-drop zero (suc j) zero [] e = refl
  drop-drop zero (suc j) (suc n) [] e = refl
  drop-drop (suc i) (suc j) zero [] e = refl
  drop-drop (suc i) (suc j) (suc n) [] e = refl
  drop-drop i (suc j) zero (c ∷ s) e = absurd (omega (arith, e))
  drop-drop i (suc j) (suc n) (c ∷ s) e = drop-drop i j n s (omega (arith, e))

  pub take-append :
      (a : List A) (k n : ℕ) (s : List A) → n ≡ length a + k → take n (a ++ s) ≡ a ++ take k s
  take-append [] k n s e = ap (λ m. take m s) (omega (arith, e))
  take-append (c ∷ a) k zero s e = absurd (omega (arith, e))
  take-append (c ∷ a) k (suc n) s e = ap (λ t. c ∷ t) (take-append a k n s (omega (arith, e)))

  pub drop-append :
      (a : List A) (k n : ℕ) (s : List A) → n ≡ length a + k → drop n (a ++ s) ≡ drop k s
  drop-append [] k n s e = ap (λ m. drop m s) (omega (arith, e))
  drop-append (c ∷ a) k zero s e = absurd (omega (arith, e))
  drop-append (c ∷ a) k (suc n) s e = drop-append a k n s (omega (arith, e))

module _ {ℓ κ} {A : Type ℓ} where
  abbrev pub All : (A → Type κ) → List A → Type κ
  All P [] = Unit
  All P (x ∷ xs) = P x × All P xs

  pub All-append : (P : A → Type κ) (xs ys : List A) → All P xs → All P ys → All P (xs ++ ys)
  All-append P [] ys h k = k
  All-append P (x ∷ xs) ys (p, h) k = (p, All-append P xs ys h k)
