-- ===== src/Store/Diff.antt =====
-- `collectionDiff` of store/storehandler.go. A[:i] is kept as the list of its elements from the last
-- one to the first, and `i` is its length.
pub mod Matrix
pub mod Script
pub mod Walk
pub mod Right
pub mod Copies
use go_res.Base.{
  replicate, ℕ, zero, suc, ◌+◌, ◌-◌, ◌*◌, if◌then◌else◌, ltb, leb, length, get_elem?, Bool, true,
  false, ◌&&◌, Option, none, some, List, [], ◌∷◌, ◌++◌, Result, ok, panic, index_out_of_range,
  ◌>>=◌,
}
use go_res.Pattern.Valid.{is_nil}

-- RemoveEvent and AddEvent of the resource.
pub data DiffEvent (V : Type 0) : Type 0 where
  remove_at : ℕ → DiffEvent V
  add_at : V → ℕ → DiffEvent V

-- An element of `adds`: the index in `bb`, `idx`, and the number of removals until then.
pub record Add : Type 0 where
  pub n : ℕ
  pub idx : ℕ
  pub rems : ℕ

-- The variables of the loop: aa[:i] and bb[:j]; `adds` has the newest one first.
pub record Walker (V : Type 0) : Type 0 where
  pub ra : List V
  pub rb : List V
  pub idx : ℕ
  pub rems : ℕ
  pub adds : List Add
  pub removes : List (DiffEvent V)

-- `c[k]` and `c[k] = v`
unfoldable pub at {ℓ} : {A : Type ℓ} → List A → ℕ → Result A
at c k = elim (get_elem? c k) [ none ↦ panic index_out_of_range | some v ↦ ok v ]

abbrev pub set_at : List ℕ → ℕ → ℕ → List ℕ
set_at [] k v = []
set_at (x ∷ c) zero v = v ∷ c
set_at (x ∷ c) (suc k) v = x ∷ set_at c k v

unfoldable pub put : List ℕ → ℕ → ℕ → Result (List ℕ)
put c k v = if ltb k (length c) then ok (set_at c k v) else panic index_out_of_range

abbrev pub reverse {ℓ} : {A : Type ℓ} → List A → List A
reverse [] = []
reverse (x ∷ xs) = reverse xs ++ x ∷ []

module _ {V : Type 0} (equal : V → V → Bool) where
  -- How many elements agree at the start, and what is behind them. The loop at the end is that of
  -- the reversed lists.
  pub common : List V → List V → ℕ × List V × List V
  common [] b = (0, [], b)
  common (x ∷ a) [] = (0, x ∷ a, [])
  common (x ∷ a) (y ∷ b) =
      let rest = common a b in if equal x y then (rest.0 + 1, rest.1, rest.2) else (0, x ∷ a, y ∷ b)

  pub entry : ℕ → List ℕ → ℕ → V → ℕ → V → Result ℕ
  unfolding at
  entry w c i x j y = if equal x y then (do v ← at c (i + w * j); ok (v + 1)) else (do
    v1 ← at c ((i + 1) + w * j)
    v2 ← at c (i + w * (j + 1))
    ok (if ltb v1 v2 then v2 else v1))

  -- The inner loop from `j` on, and the outer one from `i` on.
  pub fill_column : ℕ → ℕ → V → ℕ → List V → List ℕ → Result (List ℕ)
  unfolding entry put
  fill_column w i x j [] c = ok c
  fill_column w i x j (y ∷ bb) c = do
    v ← entry w c i x j y
    c' ← put c ((i + 1) + w * (j + 1)) v
    fill_column w i x (j + 1) bb c'

  pub fill : ℕ → ℕ → List V → List V → List ℕ → Result (List ℕ)
  unfolding fill_column
  fill w i [] bb c = ok c
  fill w i (x ∷ aa) bb c = do c' ← fill_column w i x 0 bb c; fill w (i + 1) aa bb c'

  pub add_step : Walker V → List V → Walker V
  add_step s rb = record s {
    rb = rb;
    adds = record { n = length rb; idx = s.idx; rems = s.rems } ∷ s.adds;
  }

  pub remove_step : Walker V → List V → Walker V
  remove_step s ra = record s {
    ra = ra;
    idx = s.idx - 1;
    rems = s.rems + 1;
    removes = s.removes ++ remove_at (s.idx - 1) ∷ [];
  }

  -- `c[i+w*n] >= c[m+w*j]`, with m = i-1 and n = j-1.
  pub prefers_add : ℕ → List ℕ → ℕ → ℕ → Result Bool
  unfolding at
  prefers_add w c m n = do v1 ← at c (suc m + w * n); v2 ← at c (m + w * suc n); ok (leb v2 v1)

  -- A round of the loop; `none` is `break Loop`.
  pub walk_step : ℕ → List ℕ → Walker V → List V → List V → Result (Option (Walker V))
  unfolding add_step remove_step prefers_add
  walk_step w c s [] [] = ok none
  walk_step w c s [] (y ∷ rb) = ok (some (add_step s rb))
  walk_step w c s (x ∷ ra) [] = ok (some (remove_step s ra))
  walk_step w c s (x ∷ ra) (y ∷ rb) =
      if equal x y then ok (some (record s { ra = ra; rb = rb; idx = s.idx - 1 })) else (do
        b ← prefers_add w c (length ra) (length rb)
        ok (some (if b then add_step s rb else remove_step s ra)))

  -- Each round takes an element of aa or of bb.
  pub continue : ℕ → ℕ → List ℕ → Walker V → Result (Walker V)
  unfolding walk_step
  continue zero w c s = ok s
  continue (suc f) w c s = do
    next ← walk_step w c s s.ra s.rb
    elim next [ none ↦ ok s | some s' ↦ continue f w c s' ]

  -- The loop over `adds`, of which `k` are done: the index is written so that no difference is
  -- below 0.
  pub add_events : List V → ℕ → ℕ → List Add → Result (List (DiffEvent V))
  unfolding at
  add_events bb rems k [] = ok []
  add_events bb rems k (add ∷ adds) = do
    v ← at bb add.n
    es ← add_events bb rems (k + 1) adds
    ok (add_at v ((add.idx + add.rems + k) - rems) ∷ es)

  -- The matrix, the removals and the additions for `aa` and `bb`, which are given reversed. The
  -- entry of the matrix that only gives the capacity of `adds` is not read here.
  pub middle_events : ℕ → List V → List V → Result (List (DiffEvent V))
  unfolding fill continue add_events
  middle_events s ra rb = do
    let m = length ra
    let n = length rb
    let w = m + 1
    c ← fill w 0 (reverse ra) (reverse rb) (replicate (w * (n + 1)) 0)
    d ←
        continue (m + n) w c
          (record { ra = ra; rb = rb; idx = m + s; rems = 0; adds = []; removes = [] })
    es ← add_events (reverse rb) d.rems 0 d.adds
    ok (d.removes ++ es)

  unfoldable pub collection_diff : List V → List V → Result (List (DiffEvent V))
  unfolding common middle_events
  collection_diff a b =
      let t = common a b in
      if is_nil t.1 && is_nil t.2
      then ok []
      else (let u = common (reverse t.1) (reverse t.2) in middle_events t.0 u.1 u.2)
