-- ===== src/Mux/Tree/Laws.antt =====
-- Reading a tree after a write.
use go_res.Base.{
  Bool-cases, inl, inr, Option, ap₂, and-eq-true, if◌then◌else◌, str_eq, eq_of_str_eq, str_eq_iff,
  Bytes, true, none, some, List, [], ◌∷◌, ◌≡◌, refl, arith, ◌↔◌, ap,
}
use go_res.Mux.Tree.{
  PathParam, set_params, set_hs, set_listeners, Node, Nodes, node, end, entry, Slot, literal, param,
  wild, empty_node, hs, get_entry, set_entry, child, set_child, handler_at, slot_eq, path_eq,
}

module _ {A L : Type 0} where
  get_entry-set_entry :
      (t u : Bytes) (n : Node A L) (ns : Nodes A L)
      → get_entry u (set_entry t n ns) ≡ (if str_eq t u then some n else get_entry u ns)
  unfolding get_entry set_entry
  get_entry-set_entry t u n end = refl
  get_entry-set_entry t u n (entry k m ns) =
      ground (arith, get_entry-set_entry t u n ns, str_eq_iff k t, str_eq_iff k u, str_eq_iff t u)

  pub child-set_child :
      (s r : Slot) (n l : Node A L)
      → child r (set_child s n l) ≡ (if slot_eq s r then some n else child r l)
  unfolding child set_child slot_eq
  child-set_child (literal t) (literal u) n (node h ps ns p w m ls) = get_entry-set_entry t u n ns
  child-set_child (literal t) param n (node h ps ns p w m ls) = refl
  child-set_child (literal t) wild n (node h ps ns p w m ls) = refl
  child-set_child param (literal u) n (node h ps ns p w m ls) = refl
  child-set_child param param n (node h ps ns p w m ls) = refl
  child-set_child param wild n (node h ps ns p w m ls) = refl
  child-set_child wild (literal u) n (node h ps ns p w m ls) = refl
  child-set_child wild param n (node h ps ns p w m ls) = refl
  child-set_child wild wild n (node h ps ns p w m ls) = refl

  pub hs-set_child : (s : Slot) (n l : Node A L) → hs (set_child s n l) ≡ hs l
  unfolding set_child
  hs-set_child (literal t) n (node h ps ns p w m ls) = refl
  hs-set_child param n (node h ps ns p w m ls) = refl
  hs-set_child wild n (node h ps ns p w m ls) = refl

pub handler_at-empty :
    (A L : Type 0) (q : List Slot) → handler_at {A = A} {L = L} empty_node q ≡ none
unfolding handler_at child
handler_at-empty A L [] = refl
handler_at-empty A L (literal t ∷ q) = refl
handler_at-empty A L (param ∷ q) = refl
handler_at-empty A L (wild ∷ q) = refl

pub slot_eq_iff : (s r : Slot) → (slot_eq s r ≡ true) ↔ (s ≡ r)
unfolding slot_eq
slot_eq_iff (literal t) (literal u) =
    (λ h. ap literal (eq_of_str_eq t u h), λ e. ground (arith, str_eq_iff t u))
slot_eq_iff param param = (λ h. refl, λ e. refl)
slot_eq_iff wild wild = (λ h. refl, λ e. refl)
slot_eq_iff (literal t) param = ground arith
slot_eq_iff (literal t) wild = ground arith
slot_eq_iff param (literal u) = ground arith
slot_eq_iff param wild = ground arith
slot_eq_iff wild (literal u) = ground arith
slot_eq_iff wild param = ground arith

pub path_eq_refl : (q : List Slot) → path_eq q q ≡ true
unfolding path_eq
path_eq_refl [] = refl
path_eq_refl (s ∷ q) = ground (arith, slot_eq_iff s s, path_eq_refl q)

pub eq_of_path_eq : (q p : List Slot) → path_eq q p ≡ true → q ≡ p
unfolding path_eq
eq_of_path_eq [] [] h = refl
eq_of_path_eq [] (r ∷ p) h = cc
eq_of_path_eq (s ∷ q) [] h = cc
eq_of_path_eq (s ∷ q) (r ∷ p) h =
    let (e, d) = and-eq-true (slot_eq s r) (path_eq q p) h in
    ap₂ ◌∷◌ ((slot_eq_iff s r).0 e) (eq_of_path_eq q p d)

module _ {A L : Type 0} where
  pub handler_at-set_child :
      (s : Slot) (n l : Node A L) (r : Slot) (q : List Slot)
      → handler_at (set_child s n l) (r ∷ q)
        ≡ (if slot_eq s r then handler_at n q else handler_at l (r ∷ q))
  unfolding handler_at
  handler_at-set_child s n l r q = elim (Bool-cases (slot_eq s r)) [
    | inl e ↦ rw (e, child-set_child s r n l, e)
    | inr e ↦ rw (e, child-set_child s r n l, e)
  ]

  pub child-set_params :
      (ps : List PathParam) (n : Node A L) (s : Slot) → child s (set_params ps n) ≡ child s n
  unfolding child
  child-set_params ps (node h qs ns p w m ls) (literal t) = refl
  child-set_params ps (node h qs ns p w m ls) param = refl
  child-set_params ps (node h qs ns p w m ls) wild = refl

  pub child-set_hs : (o : Option A) (n : Node A L) (s : Slot) → child s (set_hs o n) ≡ child s n
  unfolding child
  child-set_hs o (node h qs ns p w m ls) (literal t) = refl
  child-set_hs o (node h qs ns p w m ls) param = refl
  child-set_hs o (node h qs ns p w m ls) wild = refl

  pub child-set_listeners :
      (xs : List L) (n : Node A L) (s : Slot) → child s (set_listeners xs n) ≡ child s n
  unfolding child
  child-set_listeners xs (node h qs ns p w m ls) (literal t) = refl
  child-set_listeners xs (node h qs ns p w m ls) param = refl
  child-set_listeners xs (node h qs ns p w m ls) wild = refl

  pub hs-set_params : (ps : List PathParam) (n : Node A L) → hs (set_params ps n) ≡ hs n
  hs-set_params ps (node h qs ns p w m ls) = refl

  pub hs-set_hs : (o : Option A) (n : Node A L) → hs (set_hs o n) ≡ o
  hs-set_hs o (node h qs ns p w m ls) = refl

  pub hs-set_listeners : (xs : List L) (n : Node A L) → hs (set_listeners xs n) ≡ hs n
  hs-set_listeners xs (node h qs ns p w m ls) = refl
