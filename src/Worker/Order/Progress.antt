-- ===== src/Worker/Order/Progress.antt =====
-- Reading the progress of a work after a change of one worker, and the heap after a change of one
-- work.
use go_res.Base.{
  ℕ, zero, suc, ◌+◌, ◌≤◌, if◌then◌else◌, ◌==◌, ==_iff, length, drop, get_elem?, Option, none, some,
  eq_of_some, Bool-cases, ◌⊎◌, inl, inr, sym, List, [], ◌∷◌, ◌++◌, ◌≡◌, refl, ap, arith,
}
use go_res.Worker.{Work, Worker, idle, exited, running, set, update}
use go_res.Worker.Lists.{weight, count_running, weight-le}
use go_res.Worker.Order.{progress}

pub progress-zero : (p : ℕ) (ws : List Worker) → count_running p ws ≡ 0 → progress p ws ≡ 0
progress-zero p [] h = refl
progress-zero p (idle ∷ ws) h = progress-zero p ws (omega arith)
progress-zero p (exited ∷ ws) h = progress-zero p ws (omega arith)
progress-zero p (running q idx ∷ ws) h = ground (arith, progress-zero p ws)

pub progress-at :
    (p j idx : ℕ) (ws : List Worker)
    → get_elem? ws j ≡ some (running p idx)
    → count_running p ws ≤ 1
    → progress p ws ≡ idx
progress-at p j idx [] h k = cc
progress-at p zero idx (w ∷ ws) h k = rw (eq_of_some h) (ground arith)
progress-at p (suc j) idx (idle ∷ ws) h k = progress-at p j idx ws h (omega arith)
progress-at p (suc j) idx (exited ∷ ws) h k = progress-at p j idx ws h (omega arith)
progress-at p (suc j) idx (running q i ∷ ws) h k =
    ground (arith, progress-at p j idx ws h, weight-le p j ws (running p idx) h, ==_iff p p)

pub progress-set :
    (p j : ℕ) (ws : List Worker) (w v : Worker)
    → get_elem? ws j ≡ some w
    → weight p w ≡ 0
    → weight p v ≡ 0
    → progress p (set ws j v) ≡ progress p ws
progress-set p j [] w v h a b = cc
progress-set p zero (u ∷ ws) w v h a b = same u v (ground (arith, eq_of_some h)) b
  where
    same :
        (x y : Worker) → weight p x ≡ 0 → weight p y ≡ 0 → progress p (y ∷ ws) ≡ progress p (x ∷ ws)
    same idle idle a b = refl
    same idle exited a b = refl
    same idle (running q i) a b = ground arith
    same exited idle a b = refl
    same exited exited a b = refl
    same exited (running q i) a b = ground arith
    same (running q i) idle a b = ground arith
    same (running q i) exited a b = ground arith
    same (running q i) (running q' i') a b = ground arith
progress-set p (suc j) (idle ∷ ws) w v h a b = progress-set p j ws w v h a b
progress-set p (suc j) (exited ∷ ws) w v h a b = progress-set p j ws w v h a b
progress-set p (suc j) (running q i ∷ ws) w v h a b = rw (progress-set p j ws w v h a b)

pub get_elem?-set_self :
    (ws : List Worker) (j : ℕ) (w v : Worker)
    → get_elem? ws j ≡ some w
    → get_elem? (set ws j v) j ≡ some v
get_elem?-set_self [] j w v h = cc
get_elem?-set_self (u ∷ ws) zero w v h = refl
get_elem?-set_self (u ∷ ws) (suc j) w v h = get_elem?-set_self ws j w v h

pub get_elem?-set :
    (ws : List Worker) (j i : ℕ) (v u : Worker)
    → get_elem? (set ws j v) i ≡ some u
    → (get_elem? ws i ≡ some u) ⊎ (u ≡ v)
get_elem?-set [] j i v u e = inl e
get_elem?-set (w ∷ ws) zero zero v u e = inr (sym (eq_of_some e))
get_elem?-set (w ∷ ws) zero (suc i) v u e = inl e
get_elem?-set (w ∷ ws) (suc j) zero v u e = inl e
get_elem?-set (w ∷ ws) (suc j) (suc i) v u e = get_elem?-set ws j i v u e

-- Some worker runs the work, or none of its callbacks was started.
pub progress-cases :
    (p : ℕ) (ws : List Worker)
    → (progress p ws ≡ 0)
      ⊎ ((j : ℕ) × (idx : ℕ) × (get_elem? ws j ≡ some (running p idx)) × (progress p ws ≡ idx))
progress-cases p [] = inl refl
progress-cases p (idle ∷ ws) = elim (progress-cases p ws) [
  | inl e ↦ inl e
  | inr (j, idx, e, h) ↦ inr (suc j, idx, e, h)
]
progress-cases p (exited ∷ ws) = elim (progress-cases p ws) [
  | inl e ↦ inl e
  | inr (j, idx, e, h) ↦ inr (suc j, idx, e, h)
]
progress-cases p (running q i ∷ ws) = elim (Bool-cases (q == p)) [
  | inl y ↦ inr (0, i, ap (λ r. some (running r i)) ((==_iff q p).0 y), rw y)
  | inr y ↦ elim (progress-cases p ws) [
    | inl e ↦ inl (rw y e)
    | inr (j, idx, e, h) ↦ inr (suc j, idx, e, rw y h)
  ]
]

module _ {C : Type 0} where
  abbrev pub map_work : (Work C → Work C) → Option (Work C) → Option (Work C)
  map_work f none = none
  map_work f (some w) = some (f w)

  pub get_elem?-update :
      (ws : List (Work C)) (p q : ℕ) (f : Work C → Work C)
      → get_elem? (update ws p f) q
        ≡ (if q == p then map_work f (get_elem? ws q) else get_elem? ws q)
  unfolding update
  get_elem?-update [] p q f = ground arith
  get_elem?-update (w ∷ ws) zero zero f = refl
  get_elem?-update (w ∷ ws) zero (suc q) f = ground arith
  get_elem?-update (w ∷ ws) (suc p) zero f = ground arith
  get_elem?-update (w ∷ ws) (suc p) (suc q) f = ground (arith, get_elem?-update ws p q f)

module _ {ℓ} {A : Type ℓ} where
  pub drop-append_one :
      (k : ℕ) (xs : List A) (x : A) → k ≤ length xs → drop k (xs ++ x ∷ []) ≡ drop k xs ++ x ∷ []
  drop-append_one zero xs x h = refl
  drop-append_one (suc k) [] x h = absurd (omega arith)
  drop-append_one (suc k) (y ∷ xs) x h = drop-append_one k xs x (omega arith)

  -- The element at an index heads what is behind it.
  pub drop-get_elem? :
      (k : ℕ) (xs : List A) (x : A) → get_elem? xs k ≡ some x → drop k xs ≡ x ∷ drop (k + 1) xs
  drop-get_elem? k [] x h = cc
  drop-get_elem? zero (y ∷ xs) x h = ground arith
  drop-get_elem? (suc k) (y ∷ xs) x h = ground (arith, drop-get_elem? k xs x h)

  pub drop-none : (k : ℕ) (xs : List A) → get_elem? xs k ≡ none → drop k xs ≡ []
  drop-none zero [] h = refl
  drop-none (suc k) [] h = refl
  drop-none zero (y ∷ xs) h = cc
  drop-none (suc k) (y ∷ xs) h = drop-none k xs h

  pub get_elem?-lt : (xs : List A) (k : ℕ) (x : A) → get_elem? xs k ≡ some x → k + 1 ≤ length xs
  get_elem?-lt [] k x h = cc
  get_elem?-lt (y ∷ xs) zero x h = omega arith
  get_elem?-lt (y ∷ xs) (suc k) x h = omega (arith, get_elem?-lt xs k x h)
