-- ===== src/Mux/Contains.antt =====
-- `Contains` of mux.go.
use go_res.Base.{
  or-true, ◌||◌, follow, Bytes, Bool, true, false, Option, none, some, List, [], ◌∷◌, ◌≡◌, refl,
  ok_injective, none-ne-some, ok, arith,
}
use go_res.Parts.{split_pattern}
use go_res.Pattern.Valid.{is_nil, is_valid}
use go_res.Mux.Tree.{
  Node, Nodes, Pointer, node, nil, to, end, entry, Slot, literal, param, wild, child, hs,
  handler_at, empty_node, get_entry,
}
use go_res.Mux.Fetch.{add}

-- `hs != nil && test(hs.Handler)`
unfoldable pub accepts : {A : Type 0} → (A → Bool) → Option A → Bool
accepts test none = false
accepts test (some h) = test h

unfoldable mutual
  pub contains : {A L : Type 0} → (A → Bool) → Node A L → Bool
  contains test (node h ps ns p w m ls) =
      wild_contains test w || pointer_contains test p || nodes_contain test ns

  pub wild_contains : {A L : Type 0} → (A → Bool) → Pointer A L → Bool
  wild_contains test nil = false
  wild_contains test (to n) = accepts test (hs n)

  pub pointer_contains : {A L : Type 0} → (A → Bool) → Pointer A L → Bool
  pointer_contains test nil = false
  pointer_contains test (to n) = accepts test (hs n) || contains test n

  pub nodes_contain : {A L : Type 0} → (A → Bool) → Nodes A L → Bool
  nodes_contain test end = false
  nodes_contain test (entry k n ns) =
      (accepts test (hs n) || contains test n) || nodes_contain test ns

-- The paths that `contains` follows: not the empty one, nor one that leads on behind `wild`.
unfoldable pub is_followed : List Slot → Bool
is_followed [] = false
is_followed (wild ∷ q) = is_nil q
is_followed (literal t ∷ q) = is_nil q || is_followed q
is_followed (param ∷ q) = is_nil q || is_followed q

-- What follows a step is nothing, or a path that is followed too.
is_followed-tail :
    (s : Slot) (q : List Slot) → is_followed (s ∷ q) ≡ true → is_nil q || is_followed q ≡ true
unfolding is_followed
is_followed-tail (literal t) q f = f
is_followed-tail param q f = f
is_followed-tail wild q f = rw f refl

module _ {A L : Type 0} (test : A → Bool) (h : A) (test_h : test h ≡ true) where
  get_entry-contains :
      (t : Bytes) (q : List Slot) (ns : Nodes A L)
      → ((n : Node A L) → handler_at n q ≡ some h → accepts test (hs n) || contains test n ≡ true)
      → follow (get_entry t ns) (λ n. handler_at n q) ≡ some h
      → nodes_contain test ns ≡ true
  unfolding get_entry contains
  get_entry-contains t q end ih e = absurd (none-ne-some e)
  get_entry-contains t q (entry k n ns) ih e = ground (arith, ih n, get_entry-contains t q ns ih)

  -- The step from a node to a child.
  child-contains :
      (s : Slot) (q : List Slot) (n : Node A L)
      → ((n : Node A L) → handler_at n q ≡ some h → accepts test (hs n) || contains test n ≡ true)
      → is_followed (s ∷ q) ≡ true
      → handler_at n (s ∷ q) ≡ some h
      → contains test n ≡ true
  unfolding handler_at child contains accepts is_followed
  child-contains (literal t) q (node g ps ns p w m ls) ih f e =
      ground (arith, get_entry-contains t q ns ih e)
  child-contains param q (node g ps ns nil w m ls) ih f e = absurd (none-ne-some e)
  child-contains param q (node g ps ns (to n) w m ls) ih f e = ground (arith, ih n e)
  child-contains wild q (node g ps ns p nil m ls) ih f e = absurd (none-ne-some e)
  child-contains wild [] (node g ps ns p (to n) m ls) ih f e = rw (e, test_h) refl
  child-contains wild (r ∷ q) (node g ps ns p (to n) m ls) ih f e = cc

  below-contains :
      (q : List Slot) (n : Node A L)
      → is_nil q || is_followed q ≡ true
      → handler_at n q ≡ some h
      → accepts test (hs n) || contains test n ≡ true
  unfolding handler_at accepts
  below-contains [] n f e = rw (e, test_h) refl
  below-contains (s ∷ q) n f e =
      or-true (accepts test (hs n))
        (child-contains s q n (λ n'. below-contains q n' (is_followed-tail s q f)) f e)

  -- `Contains` finds each handler that passes its test, but for one at the root of the tree: behind
  -- a path that is not empty and does not lead on behind a full wildcard, a handler that passes the
  -- test makes the result true.
  pub contains-handler_at :
      (q : List Slot) (n : Node A L)
      → is_followed q ≡ true
      → handler_at n q ≡ some h
      → contains test n ≡ true
  unfolding is_followed
  contains-handler_at [] n f e = cc
  contains-handler_at (s ∷ q) n f e =
      child-contains s q n (λ n'. below-contains q n' (is_followed-tail s q f)) f e

-- `Contains` does not see a handler at the root: its result is false, whatever its test, for a tree
-- with one handler that was added with the empty pattern to an empty tree.
pub contains-add_root :
    {A L : Type 0} (test : A → Bool) (h : A) (root : Node A L)
    → add [] h [] (empty_node {A = A} {L = L}) ≡ ok root
    → (hs root ≡ some h) × (contains test root ≡ false)
unfolding add split_pattern is_valid contains
contains-add_root test h root e = rw⁻¹ (ok_injective e) (refl, refl)
