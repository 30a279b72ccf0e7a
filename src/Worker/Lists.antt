-- ===== src/Worker/Lists.antt =====
-- Reading the lists of the state after a write, and counting in them.
use go_res.Base.{
  ap, eq_of_some, ℕ, zero, suc, ◌+◌, ◌≤◌, if◌then◌else◌, ◌==◌, str_eq, str_eq_iff, length,
  get_elem?, Bytes, Bool, true, false, none, some, List, [], ◌∷◌, ◌++◌, ◌≡◌, ◌≢◌, refl, arith,
}
use go_res.Params.{lookup}
use go_res.Worker.{Work, Worker, idle, exited, running, set, delete, update, append_callback}

abbrev pub one_if : Bool → ℕ
one_if true = 1
one_if false = 0

abbrev pub count : ℕ → List ℕ → ℕ
count p [] = 0
count p (q ∷ qs) = one_if (q == p) + count p qs

-- Whether the worker runs a callback of the work.
abbrev pub weight : ℕ → Worker → ℕ
weight p idle = 0
weight p exited = 0
weight p (running q idx) = one_if (q == p)

abbrev pub count_running : ℕ → List Worker → ℕ
count_running p [] = 0
count_running p (w ∷ ws) = weight p w + count_running p ws

pub count-append : (p q : ℕ) (qs : List ℕ) → count p (qs ++ q ∷ []) ≡ count p qs + one_if (q == p)
count-append p q [] = omega arith
count-append p q (r ∷ qs) = omega (arith, count-append p q qs)

pub count_running-set :
    (p j : ℕ) (ws : List Worker) (w v : Worker)
    → get_elem? ws j ≡ some w
    → count_running p (set ws j v) + weight p w ≡ count_running p ws + weight p v
count_running-set p j [] w v h = cc
count_running-set p zero (u ∷ ws) w v h = rw (eq_of_some h) (omega arith)
count_running-set p (suc j) (u ∷ ws) w v h = omega (arith, count_running-set p j ws w v h)

pub weight-le :
    (p j : ℕ) (ws : List Worker) (w : Worker)
    → get_elem? ws j ≡ some w
    → weight p w ≤ count_running p ws
weight-le p j [] w h = cc
weight-le p zero (u ∷ ws) w h = rw (eq_of_some h) (omega arith)
weight-le p (suc j) (u ∷ ws) w h = omega (arith, weight-le p j ws w h)

-- Two workers that run callbacks of one work are counted twice.
pub two_running :
    (p i j : ℕ) (ws : List Worker) (v w : Worker)
    → i ≢ j
    → get_elem? ws i ≡ some v
    → get_elem? ws j ≡ some w
    → weight p v + weight p w ≤ count_running p ws
two_running p i j [] v w n h k = cc
two_running p zero zero (u ∷ ws) v w n h k = absurd (n refl)
two_running p zero (suc j) (u ∷ ws) v w n h k =
    rw (eq_of_some h) (omega (arith, weight-le p j ws w k))
two_running p (suc i) zero (u ∷ ws) v w n h k =
    rw (eq_of_some k) (omega (arith, weight-le p i ws v h))
two_running p (suc i) (suc j) (u ∷ ws) v w n h k =
    omega (arith, two_running p i j ws v w (λ e. n (ap suc e)) h k)

pub lookup-delete :
    (k wid : Bytes) (m : List (Bytes × ℕ))
    → lookup k (delete wid m) ≡ (if str_eq wid k then none else lookup k m)
unfolding lookup delete
lookup-delete k wid [] = ground arith
lookup-delete k wid ((j, v) ∷ m) =
    ground (arith, lookup-delete k wid m, str_eq_iff j k, str_eq_iff j wid, str_eq_iff wid k)

module _ {ℓ} {A : Type ℓ} where
  pub get_elem?-append_one :
      (xs : List A) (x : A) (p : ℕ)
      → get_elem? (xs ++ x ∷ []) p ≡ (if p == length xs then some x else get_elem? xs p)
  get_elem?-append_one [] x zero = refl
  get_elem?-append_one [] x (suc p) = ground arith
  get_elem?-append_one (y ∷ xs) x zero = ground arith
  get_elem?-append_one (y ∷ xs) x (suc p) = ground (arith, get_elem?-append_one xs x p)

module _ {C : Type 0} where
  pub length-update :
      (ws : List (Work C)) (p : ℕ) (f : Work C → Work C) → length (update ws p f) ≡ length ws
  unfolding update
  length-update [] p f = refl
  length-update (w ∷ ws) zero f = refl
  length-update (w ∷ ws) (suc p) f = ap suc (length-update ws p f)

  -- Appending a callback changes no identifier.
  pub wid-update :
      (ws : List (Work C)) (p q : ℕ) (cb : C) (w : Work C)
      → get_elem? (update ws p (append_callback cb)) q ≡ some w
      → (v : Work C) × (get_elem? ws q ≡ some v) × (v.wid ≡ w.wid)
  unfolding update append_callback
  wid-update [] p q cb w h = cc
  wid-update (v ∷ ws) zero zero cb w h = (v, refl, ap (λ (x : Work C). x.wid) (eq_of_some h))
  wid-update (v ∷ ws) zero (suc q) cb w h = (w, h, refl)
  wid-update (v ∷ ws) (suc p) zero cb w h = (w, h, refl)
  wid-update (v ∷ ws) (suc p) (suc q) cb w h = wid-update ws p q cb w h
