-- ===== src/Mux/Tree.antt =====
-- The node tree of mux.go. A pointer to a node is the node itself: within one tree no two fields
-- point to the same node. `A` is the type of a registered handler, and `L` that of a listener.
pub mod Laws
pub mod Indexed
use go_res.Base.{
  follow, ℕ, if◌then◌else◌, ◌&&◌, str_eq, Bytes, Bool, true, false, Option, none, some, List, [],
  ◌∷◌,
}

pub record PathParam : Type 0 where
  pub name : Bytes
  pub idx : ℕ

mutual
  pub data Node (A L : Type 0) : Type 0 where
    node :
        Option A → List PathParam → Nodes A L → Pointer A L → Pointer A L → Bool → List L → Node A L

  -- The map `nodes`; a nil map is empty.
  pub data Nodes (A L : Type 0) : Type 0 where
    end : Nodes A L
    entry : Bytes → Node A L → Nodes A L → Nodes A L

  pub data Pointer (A L : Type 0) : Type 0 where
    nil : Pointer A L
    to : Node A L → Pointer A L

-- Where a token leads from a node: an entry of `nodes`, `param` or `wild`.
pub data Slot : Type 0 where
  literal : Bytes → Slot
  param wild : Slot

-- Equality of paths, for statements.
unfoldable pub slot_eq : Slot → Slot → Bool
slot_eq (literal t) (literal u) = str_eq t u
slot_eq param param = true
slot_eq wild wild = true
slot_eq _ _ = false

unfoldable pub path_eq : List Slot → List Slot → Bool
path_eq [] [] = true
path_eq (s ∷ q) (r ∷ p) = slot_eq s r && path_eq q p
path_eq _ _ = false

module _ {A L : Type 0} where
  abbrev pub empty_node : Node A L
  empty_node = node none [] end nil nil false []

  abbrev pub hs : Node A L → Option A
  hs (node h ps ns p w m ls) = h

  abbrev pub params : Node A L → List PathParam
  params (node h ps ns p w m ls) = ps

  abbrev pub mounted : Node A L → Bool
  mounted (node h ps ns p w m ls) = m

  abbrev pub listeners : Node A L → List L
  listeners (node h ps ns p w m ls) = ls

  abbrev pub set_hs : Option A → Node A L → Node A L
  set_hs h' (node h ps ns p w m ls) = node h' ps ns p w m ls

  abbrev pub set_params : List PathParam → Node A L → Node A L
  set_params ps' (node h ps ns p w m ls) = node h ps' ns p w m ls

  abbrev pub set_mounted : Node A L → Node A L
  set_mounted (node h ps ns p w m ls) = node h ps ns p w true ls

  abbrev pub set_listeners : List L → Node A L → Node A L
  set_listeners ls' (node h ps ns p w m ls) = node h ps ns p w m ls'

  abbrev pub deref : Pointer A L → Option (Node A L)
  deref nil = none
  deref (to n) = some n

  -- `nodes[t]` and `nodes[t] = n`
  unfoldable pub get_entry : Bytes → Nodes A L → Option (Node A L)
  get_entry t end = none
  get_entry t (entry k n ns) = if str_eq k t then some n else get_entry t ns

  unfoldable pub set_entry : Bytes → Node A L → Nodes A L → Nodes A L
  set_entry t n end = entry t n end
  set_entry t n (entry k m ns) = if str_eq k t then entry k n ns else entry k m (set_entry t n ns)

  unfoldable pub child : Slot → Node A L → Option (Node A L)
  unfolding get_entry
  child (literal t) (node h ps ns p w m ls) = get_entry t ns
  child param (node h ps ns p w m ls) = deref p
  child wild (node h ps ns p w m ls) = deref w

  unfoldable pub set_child : Slot → Node A L → Node A L → Node A L
  unfolding set_entry
  set_child (literal t) n (node h ps ns p w m ls) = node h ps (set_entry t n ns) p w m ls
  set_child param n (node h ps ns p w m ls) = node h ps ns (to n) w m ls
  set_child wild n (node h ps ns p w m ls) = node h ps ns p (to n) m ls

  -- The node behind a path of slots.
  unfoldable pub node_at : Node A L → List Slot → Option (Node A L)
  node_at l [] = some l
  node_at l (s ∷ q) = follow (child s l) (λ n. node_at n q)

  -- The handler registered behind a path: the tree as a map.
  unfoldable pub handler_at : Node A L → List Slot → Option A
  handler_at l [] = hs l
  handler_at l (s ∷ q) = follow (child s l) (λ n. handler_at n q)
