-- ===== src/Mux/Fetch/Steps.antt =====
-- One token of a pattern in the walk of `fetch`.
use mathlib.Core.Path.{subst}
use go_res.Base.{
  ℕ, ◌+◌, ◌-◌, if◌then◌else◌, ◌==◌, Bytes, Bool, ◌||◌, Option, List, [], ◌∷◌, ◌≡◌, refl, arith,
}
use go_res.Base.{ok, >>=-eq-ok, ok_injective}
use go_res.Pattern.Valid.{is_nil, pmark, pwild, fwild}
use go_res.Mux.Tree.{PathParam, Node, Slot, literal, param, wild, mounted, child, set_child}
use go_res.Mux.Fetch.{Change, token_slot, token_params, next_node, fetch_from}

-- Where a token of a pattern leads.
abbrev pub slot_of : Bytes → Slot
slot_of [] = literal []
slot_of (c ∷ name) =
    if c == pmark || c == pwild then param else if c == fwild then wild else literal (c ∷ name)

abbrev pub slots : List Bytes → List Slot
slots [] = []
slots (t ∷ toks) = slot_of t ∷ slots toks

token_slot-eq : (t : Bytes) (last : Bool) (s : Slot) → token_slot t last ≡ ok s → s ≡ slot_of t
unfolding token_slot
token_slot-eq [] last s h = cc
token_slot-eq (c ∷ name) last s h = ground arith

module _ {A L : Type 0} where
  -- One round of `fetch`, taken apart.
  pub record Walked (mount : Option (Node A L)) (change : Change A L) (same : Bool) (i mi : ℕ)
      (ps : List PathParam) (t : Bytes) (toks : List Bytes) (l l' : Node A L) : Type 0 where
    pub ps' : List PathParam
    pub next : Bool × Node A L
    pub n : Node A L
    pub tagged : token_params t (i - (if mounted l then i else mi)) ps ≡ ok ps'
    pub stepped : next_node mount (is_nil toks) (slot_of t) (child (slot_of t) l) ≡ ok next
    pub walked :
        fetch_from mount change next.0 (i + 1) (if mounted l then i else mi) ps' toks next.1 ≡ ok n
    pub written : set_child (slot_of t) n l ≡ l'

  pub fetch_from-Walked :
      (mount : Option (Node A L)) (change : Change A L) (same : Bool) (i mi : ℕ)
      (ps : List PathParam) (t : Bytes) (toks : List Bytes) (l l' : Node A L)
      → fetch_from mount change same i mi ps (t ∷ toks) l ≡ ok l'
      → Walked mount change same i mi ps t toks l l'
  unfolding fetch_from
  fetch_from-Walked mount change same i mi ps t toks l l' h =
      let (s, e1, h1) = >>=-eq-ok (token_slot t (is_nil toks)) _ h in
      let (ps', e2, h2) = >>=-eq-ok (token_params t (i - (if mounted l then i else mi)) ps) _ h1 in
      let (next, e3, h3) = >>=-eq-ok (next_node mount (is_nil toks) s (child s l)) _ h2 in
      let (n, e4, h4) =
        >>=-eq-ok
          (fetch_from mount change next.0 (i + 1) (if mounted l then i else mi) ps' toks next.1) _
          h3 in
      let z = token_slot-eq t (is_nil toks) s e1 in
      record {
        ps' = ps';
        next = next;
        n = n;
        tagged = e2;
        stepped = subst (λ x. next_node mount (is_nil toks) x (child x l) ≡ ok next) z e3;
        walked = e4;
        written = subst (λ x. set_child x n l ≡ l') z (ok_injective h4);
      }

  pub fetch_from-nil :
      (mount : Option (Node A L)) (change : Change A L) (same : Bool) (i mi : ℕ)
      (ps : List PathParam) (l : Node A L)
      → fetch_from mount change same i mi ps [] l ≡ change same ps l
  unfolding fetch_from
  fetch_from-nil mount change same i mi ps l = refl
