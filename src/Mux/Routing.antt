-- ===== src/Mux/Routing.antt =====
-- Registration and lookup together: a name that a registered pattern fits finds a node, by a path
-- that is at least as specific as the pattern.
use mathlib.Core.Bool.{false≢true}
use go_res.Base.{
  none-ne-some, ℕ, ◌+◌, str_eq, eq_of_str_eq, and-eq-true, Bytes, Bool, true, false, ◌&&◌, some,
  Option-cases, List, [], ◌∷◌, ◌≡◌, refl, inl, inr, ok,
}
use go_res.Parts.{split_pattern}
use go_res.Mux.Tree.{Node, Slot, literal, param, wild, child, handler_at}
use go_res.Mux.Tree.Laws.{path_eq_refl}
use go_res.Mux.Fetch.{add}
use go_res.Mux.Fetch.Steps.{slots}
use go_res.Mux.Fetch.Insert.{add-handler_at}
use go_res.Mux.Lookup.{match_node}
use go_res.Mux.Lookup.Best.{
  Leads, stop, literal_step, param_step, wild_rest, AtLeastAs, match_node-Best, match_node-none,
  mount_idx,
}

-- A path fits tokens: a literal its own token, a parameter any one, a full wildcard all that are
-- left, which is at least one.
abbrev pub fits : List Slot → List Bytes → Bool
fits [] [] = true
fits [] (u ∷ us) = false
fits (s ∷ q) [] = false
fits (literal t ∷ q) (u ∷ us) = str_eq t u && fits q us
fits (param ∷ q) (u ∷ us) = fits q us
fits (wild ∷ []) (u ∷ us) = true
fits (wild ∷ s ∷ q) (u ∷ us) = false

module _ {A L : Type 0} where
  Leads-handler_at :
      (l : Node A L) (i mi : ℕ) (q : List Slot) (toks : List Bytes) (h : A)
      → fits q toks ≡ true
      → handler_at l q ≡ some h
      → (n : Node A L) × (k : ℕ) × Leads l i mi toks q n k
  unfolding handler_at
  Leads-handler_at l i mi [] [] h f e = (l, mi, stop e)
  Leads-handler_at l i mi [] (u ∷ us) h f e = elim (false≢true f) [ ]
  Leads-handler_at l i mi (s ∷ q) [] h f e = elim (false≢true f) [ ]
  Leads-handler_at l i mi (literal t ∷ q) (u ∷ us) h f e =
      let (same, rest) = and-eq-true (str_eq t u) (fits q us) f in
      elim (Option-cases (child (literal t) l)) [
        | inl c ↦ absurd (none-ne-some (rw c at e))
        | inr (n, c) ↦
            let (m, k, d) = Leads-handler_at n (i + 1) (mount_idx l i mi) q us h rest (rw c at e) in
            (m, k, literal_step (eq_of_str_eq t u same) c d)
      ]
  Leads-handler_at l i mi (param ∷ q) (u ∷ us) h f e = elim (Option-cases (child param l)) [
    | inl c ↦ absurd (none-ne-some (rw c at e))
    | inr (n, c) ↦
        let (m, k, d) = Leads-handler_at n (i + 1) (mount_idx l i mi) q us h f (rw c at e) in
        (m, k, param_step c d)
  ]
  Leads-handler_at l i mi (wild ∷ []) (u ∷ us) h f e = elim (Option-cases (child wild l)) [
    | inl c ↦ absurd (none-ne-some (rw c at e))
    | inr (n, c) ↦ (n, mount_idx l i mi, wild_rest c refl)
  ]
  Leads-handler_at l i mi (wild ∷ s ∷ q) (u ∷ us) h f e = elim (false≢true f) [ ]

  -- Where a path with a handler fits the tokens, `matchNode` finds a node, by a path that is at
  -- least as specific.
  pub match_node-handler_at :
      (l : Node A L) (q : List Slot) (t : Bytes) (toks : List Bytes) (h : A)
      → fits q (t ∷ toks) ≡ true
      → handler_at l q ≡ some h
      → (n : Node A L) × (k : ℕ) × (p : List Slot) × (match_node l (t ∷ toks) 0 0 ≡ some (n, k))
        × Leads l 0 0 (t ∷ toks) p n k
        × AtLeastAs p q
  match_node-handler_at l q t toks h f e =
      let (m, j, d) = Leads-handler_at l 0 0 q (t ∷ toks) h f e in
      elim (Option-cases (match_node l (t ∷ toks) 0 0)) [
        | inl c ↦ absurd (match_node-none l t toks 0 0 c q m j d)
        | inr ((n, k), c) ↦
            let (p, lead, best) = match_node-Best l n (t ∷ toks) 0 0 k c in
            (n, k, p, c, lead, best q m j d)
      ]

  -- After a registration, each name that the pattern fits finds a node, by a path that is at least
  -- as specific as the pattern.
  pub add-match_node :
      (pattern : Bytes) (h : A) (ls : List (Bytes × L)) (root root' : Node A L) (t : Bytes)
      (toks : List Bytes)
      → add pattern h ls root ≡ ok root'
      → fits (slots (split_pattern pattern)) (t ∷ toks) ≡ true
      → (n : Node A L) × (k : ℕ) × (p : List Slot) × (match_node root' (t ∷ toks) 0 0 ≡ some (n, k))
        × Leads root' 0 0 (t ∷ toks) p n k
        × AtLeastAs p (slots (split_pattern pattern))
  add-match_node pattern h ls root root' t toks e f =
      let (_, _, now) = add-handler_at pattern h ls root root' e in
      match_node-handler_at root' (slots (split_pattern pattern)) t toks h f (
        rw (now (slots (split_pattern pattern)), path_eq_refl (slots (split_pattern pattern))) refl)
