-- ===== src/Mux/Lookup/Filled.antt =====
-- The lookup of mux.go reads the path parameters of the node that it finds within the tokens.
use go_res.Base.{
  ℕ, ◌+◌, ◌<◌, ◌≤◌, get_elem?, length, Bytes, Bool, true, false, ◌&&◌, some, List, [], ◌∷◌, ◌≡◌,
  refl, arith, sym, suc, zero,
}
use mathlib.Core.Path.{subst}
use go_res.Base.{ok}
use go_res.Params.{Params, insert}
use go_res.Mux.Tree.{PathParam, Node, Slot, literal, param, wild, params}
use go_res.Mux.Tree.Indexed.{Bounded, Bounded-le, Indexed, indexed}
use go_res.Mux.Fetch.Indexed.{child-Indexed, mount_idx-le}
use go_res.Mux.Lookup.{match_node, fill_params}
use go_res.Mux.Lookup.Best.{
  Leads, stop, literal_step, param_step, wild_rest, mount_idx, match_node-Best,
}

get_elem?-within :
    (i : ℕ) (xs : List Bytes) → i < length xs → (x : Bytes) × (get_elem? xs i ≡ some x)
get_elem?-within i [] h = absurd (omega (arith, h))
get_elem?-within zero (x ∷ xs) h = (x, refl)
get_elem?-within (suc i) (x ∷ xs) h = get_elem?-within i xs (omega (arith, h))

fill_params-Bounded :
    (ps : List PathParam) (toks : List Bytes) (mi : ℕ) (m : Params)
    → Bounded (length toks) mi ps
    → (m' : Params) × (fill_params ps toks mi m ≡ ok m')
unfolding fill_params
fill_params-Bounded [] toks mi m h = (m, refl)
fill_params-Bounded (p ∷ ps) toks mi m (h, hs) =
    let (t, e) = get_elem?-within (p.idx + mi) toks h in
    let (m', f) = fill_params-Bounded ps toks mi (insert p.name t m) hs in
    (m', rw (fill_params, e) f)

module _ {A L : Type 0} where
  up : (l : Node A L) (i mi : ℕ) → mi ≤ i → mount_idx l i mi ≤ i + 1
  up l i mi e = omega (arith, mount_idx-le l i mi e)

  at_child : {lit : Bool} {i mi : ℕ} {n : Node A L} → Indexed lit i mi n → Bounded i mi (params n)
  at_child (indexed b m c) = b

  one_more :
      (n : Node A L) (k i j : ℕ)
      → Bounded (i + 1 + j) k (params n) × (k ≤ i + 1 + j)
      → Bounded (i + suc j) k (params n) × (k ≤ i + suc j)
  one_more n k i j (b, e) =
      (Bounded-le (i + 1 + j) (i + suc j) k (params n) (omega arith) b, omega (arith, e))

  Leads-Bounded :
      {lit : Bool} {l n : Node A L} {i mi k : ℕ} {toks : List Bytes} {q : List Slot}
      → mi ≤ i
      → Indexed lit i mi l
      → Leads l i mi toks q n k
      → Bounded (i + length toks) k (params n) × (k ≤ i + length toks)
  Leads-Bounded {lit} {n} {i} {k} e (indexed b m c) (stop x) =
      (Bounded-le i (i + 0) k (params n) (omega arith) b, omega (arith, e))
  Leads-Bounded {lit} {l} {n = n'} {i} {mi} {k} e x (literal_step {n} {t} {toks} u c d) =
      one_more n' k i (length toks)
        (Leads-Bounded {lit = lit && true} (up l i mi e) (child-Indexed (literal t) n x c) d)
  Leads-Bounded {lit} {l} {n = n'} {i} {mi} {k} e x (param_step {n} {toks} c d) =
      one_more n' k i (length toks)
        (Leads-Bounded {lit = lit && false} (up l i mi e) (child-Indexed param n x c) d)
  Leads-Bounded {lit} {l} {n} {i} {mi} e x (wild_rest {toks} c refl_k) = (
    subst (λ j. Bounded (i + suc (length toks)) j (params n)) (sym refl_k)
        (Bounded-le (i + 1) (i + suc (length toks)) (mount_idx l i mi) (params n) (omega arith)
          (at_child (child-Indexed wild n x c))),
    subst (λ j. j ≤ i + suc (length toks)) (sym refl_k) (omega (arith, mount_idx-le l i mi e)),
  )

  -- The indices of the path parameters of the node that `matchNode` finds, and the mount index, are
  -- within the tokens.
  pub match_node-Bounded :
      (l n : Node A L) (toks : List Bytes) (k : ℕ)
      → Indexed true 0 0 l
      → match_node l toks 0 0 ≡ some (n, k)
      → ((m : Params) × (fill_params (params n) toks k [] ≡ ok m)) × (k ≤ length toks)
  match_node-Bounded l n toks k x h =
      let (q, lead, _) = match_node-Best l n toks 0 0 k h in
      let (b, e) = Leads-Bounded (omega arith) x lead in
      (
        fill_params-Bounded (params n) toks k []
            (Bounded-le (0 + length toks) (length toks) k (params n) (omega arith) b),
        omega (arith, e),
      )
