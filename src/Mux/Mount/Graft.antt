-- ===== src/Mux/Mount/Graft.antt =====
-- Mount puts the handlers of a Mux behind a path, and keeps all others.
use mathlib.Core.Path.{subst}
use mathlib.Core.Bool.{false≢true}
use go_res.Base.{
  follow, ℕ, ◌+◌, if◌then◌else◌, Bytes, Bool, true, false, not, Option, none, some, List, [], ◌∷◌,
  ◌++◌, ◌≡◌, refl, sym, ap, ◌∙◌,
}
use go_res.Base.{
  ok, >>=-eq-ok, ok_injective, require, require-ok, invalid_path, already_mounted,
  already_registered, mount_to_root,
}
use go_res.Parts.{split_pattern, merge_pattern, parts, first, others, split_pattern-eq-parts}
use go_res.Pattern.Valid.{is_nil, is_valid_path}
use go_res.Mux.Tree.{
  PathParam, Node, node, Slot, literal, param, wild, mounted, set_mounted, child, set_child,
  handler_at, slot_eq,
}
use go_res.Mux.Tree.Laws.{hs-set_child, handler_at-empty, slot_eq_iff}
use go_res.Mux.Fetch.{next_node, fetch_from, fetch}
use go_res.Mux.Fetch.Steps.{slot_of, slots, fetch_from-Walked, fetch_from-nil}
use go_res.Mux.Tree.Laws.{handler_at-set_child}
use go_res.Mux.Mount.{Mux, put_mounted, mount}

-- The path behind a prefix.
abbrev pub strip_slots : List Slot → List Slot → Option (List Slot)
strip_slots [] p = some p
strip_slots (s ∷ q) [] = none
strip_slots (s ∷ q) (r ∷ p) = if slot_eq s r then strip_slots q p else none

if-same :
    {A : Type 0} (b : Bool) (x y z : A)
    → (b ≡ true → x ≡ y)
    → (if b then x else z) ≡ (if b then y else z)
if-same true x y z h = h refl
if-same false x y z h = refl

module _ {A L : Type 0} where
  abbrev pub behind : Node A L → Option A → Option (List Slot) → Option A
  behind sub held none = held
  behind sub held (some r) = handler_at sub r

  -- The handlers of `sub` behind the path, and those of `l` elsewhere.
  abbrev pub grafted : List Slot → Node A L → Node A L → List Slot → Option A
  grafted q sub l p = behind sub (handler_at l p) (strip_slots q p)

  handler_at-set_mounted :
      (n : Node A L) (p : List Slot) → handler_at (set_mounted n) p ≡ handler_at n p
  unfolding handler_at child
  handler_at-set_mounted (node h ps ns p w m ls) [] = refl
  handler_at-set_mounted (node h ps ns p w m ls) (literal t ∷ q) = refl
  handler_at-set_mounted (node h ps ns p w m ls) (param ∷ q) = refl
  handler_at-set_mounted (node h ps ns p w m ls) (wild ∷ q) = refl

  record Grafts (sub : Node A L) (q : List Slot) (l l' : Node A L) : Type 0 where
    free : (p : List Slot) → handler_at l (q ++ p) ≡ none
    result : (p : List Slot) → handler_at l' p ≡ grafted q sub l p

  -- The last token: a new child is made, which is the mounted root.
  pub last_free :
      (sub : Node A L) (s : Slot) (o : Option (Node A L)) (next : Bool × Node A L)
      → next_node (some sub) true s o ≡ ok next
      → next.0 ≡ true
      → (o ≡ none) × (next.1 ≡ sub)
  unfolding next_node
  last_free sub s (some n) next e h = absurd (false≢true (rw (← ok_injective e) at h))
  last_free sub (literal t) none next e h =
      (refl, ap (λ (x : Bool × Node A L). x.1) (sym (ok_injective e)))
  last_free sub param none next e h =
      (refl, ap (λ (x : Bool × Node A L). x.1) (sym (ok_injective e)))
  last_free sub wild none next e h = cc

  before_last :
      (sub : Node A L) (s : Slot) (o : Option (Node A L)) (next : Bool × Node A L) (q : List Slot)
      → next_node (some sub) false s o ≡ ok next
      → handler_at next.1 q ≡ follow o (λ n. handler_at n q)
  unfolding next_node
  before_last sub s none next q h = rw (← ok_injective h) (handler_at-empty A L q)
  before_last sub s (some n) next q h = rw (← ok_injective h) refl

  pub put_mounted-ok :
      (spath : Bytes) (same : Bool) (ps : List PathParam) (n n' : Node A L)
      → put_mounted spath same ps n ≡ ok n'
      → (same ≡ true) × (set_mounted n ≡ n')
  unfolding put_mounted
  put_mounted-ok spath true ps n n' h = (refl, ok_injective h)
  put_mounted-ok spath false ps n n' h = cc

  follow-none :
      (o : Option (Node A L)) (q : List Slot) → o ≡ none → follow o (λ n. handler_at n q) ≡ none
  follow-none o q e = rw e refl

  behind-if :
      (sub : Node A L) (held : Option A) (b : Bool) (o : Option (List Slot))
      → behind sub held (if b then o else none) ≡ (if b then behind sub held o else held)
  behind-if sub held true o = refl
  behind-if sub held false o = refl

  -- A child is written, and holds what is grafted behind its slot.
  set_child-grafted :
      (sub n l : Node A L) (s r : Slot) (q p : List Slot)
      → (slot_eq s r ≡ true → handler_at n p ≡ behind sub (handler_at l (r ∷ p)) (strip_slots q p))
      → handler_at (set_child s n l) (r ∷ p) ≡ grafted (s ∷ q) sub l (r ∷ p)
  set_child-grafted sub n l s r q p h =
      handler_at-set_child s n l r p
      ∙ (if-same (slot_eq s r) (handler_at n p)
            (behind sub (handler_at l (r ∷ p)) (strip_slots q p)) (handler_at l (r ∷ p)) h
          ∙ sym (behind-if sub (handler_at l (r ∷ p)) (slot_eq s r) (strip_slots q p)))

  Grafts-last :
      (sub l : Node A L) (s : Slot)
      → child s l ≡ none
      → Grafts sub (s ∷ []) l (set_child s (set_mounted sub) l)
  unfolding handler_at
  Grafts-last sub l s e = record { free = λ p. follow-none (child s l) p e; result = elsewhere }
    where
      elsewhere :
          (p : List Slot)
          → handler_at (set_child s (set_mounted sub) l) p ≡ grafted (s ∷ []) sub l p
      elsewhere [] = hs-set_child s (set_mounted sub) l
      elsewhere (r ∷ p) =
          set_child-grafted sub (set_mounted sub) l s r [] p (λ h. handler_at-set_mounted sub p)

  Grafts-step :
      (sub l n : Node A L) (s : Slot) (q : List Slot) (next : Bool × Node A L)
      → next_node (some sub) false s (child s l) ≡ ok next
      → Grafts sub q next.1 n
      → Grafts sub (s ∷ q) l (set_child s n l)
  unfolding handler_at
  Grafts-step sub l n s q next e g = record {
    free = λ p. sym (before_last sub s (child s l) next (q ++ p) e) ∙ g.free p;
    result = elsewhere;
  }
    where
      held :
          (r : Slot) (p : List Slot)
          → slot_eq s r ≡ true
          → handler_at next.1 p ≡ handler_at l (r ∷ p)
      held r p h =
          before_last sub s (child s l) next p e
          ∙ ap (λ (x : Slot). handler_at l (x ∷ p)) ((slot_eq_iff s r).0 h)

      elsewhere : (p : List Slot) → handler_at (set_child s n l) p ≡ grafted (s ∷ q) sub l p
      elsewhere [] = hs-set_child s n l
      elsewhere (r ∷ p) =
          set_child-grafted sub n l s r q p
            (λ h. g.result p ∙ ap (λ (o : Option A). behind sub o (strip_slots q p)) (held r p h))

  fetch_from-Grafts :
      (sub : Node A L) (spath : Bytes) (same : Bool) (i mi : ℕ) (ps : List PathParam) (t : Bytes)
      (toks : List Bytes) (l l' : Node A L)
      → fetch_from (some sub) (put_mounted spath) same i mi ps (t ∷ toks) l ≡ ok l'
      → Grafts sub (slots (t ∷ toks)) l l'
  fetch_from-Grafts sub spath same i mi ps t [] l l' h =
      let w = fetch_from-Walked (some sub) (put_mounted spath) same i mi ps t [] l l' h in
      let (now, put) = put_mounted-ok spath w.next.0 w.ps' w.next.1 w.n (
        sym (
          fetch_from-nil (some sub) (put_mounted spath) w.next.0 (i + 1)
            (if mounted l then i else mi) w.ps' w.next.1)
        ∙ w.walked) in
      let (none_there, it) = last_free sub (slot_of t) (child (slot_of t) l) w.next w.stepped now in
      subst (Grafts sub (slots (t ∷ [])) l)
        (ap (λ (x : Node A L). set_child (slot_of t) x l) (sym (ap set_mounted it) ∙ put)
          ∙ w.written)
        (Grafts-last sub l (slot_of t) none_there)
  fetch_from-Grafts sub spath same i mi ps t (u ∷ toks) l l' h =
      let w = fetch_from-Walked (some sub) (put_mounted spath) same i mi ps t (u ∷ toks) l l' h in
      subst (Grafts sub (slots (t ∷ u ∷ toks)) l) w.written (
        Grafts-step sub l w.n (slot_of t) (slots (u ∷ toks)) w.next w.stepped (
          fetch_from-Grafts sub spath w.next.0 (i + 1) (if mounted l then i else mi) w.ps' u toks
            w.next.1 w.n w.walked))

  fetch-Grafts :
      (sub : Node A L) (at spath : Bytes) (l l' : Node A L)
      → not (is_nil spath) ≡ true
      → fetch spath (some sub) (put_mounted at) l ≡ ok l'
      → Grafts sub (slots (split_pattern spath)) l l'
  unfolding fetch parts
  fetch-Grafts sub at [] l l' n h = absurd (false≢true n)
  fetch-Grafts sub at (c ∷ p) l l' n h =
      subst
        (λ toks.
          fetch_from (some sub) (put_mounted at) false 0 0 [] toks l ≡ ok l'
          → Grafts sub (slots toks) l l')
        (sym (split_pattern-eq-parts c p))
        (fetch_from-Grafts sub at false 0 0 [] (first (c ∷ p)) (others (c ∷ p)) l l') h

  -- If Mount returns, nothing was registered behind the path that is made of the path given and
  -- that of the mounted Mux. Behind it the parent then holds the handlers of the mounted Mux, and
  -- elsewhere those it held before.
  pub mount-handler_at :
      (path : Bytes) (sub m m' sub' : Mux A L)
      → mount path sub m ≡ ok (m', sub')
      → let q = slots (split_pattern (merge_pattern path sub.path)) in
        ((p : List Slot) → handler_at m.root (q ++ p) ≡ none)
        × ((p : List Slot) → handler_at m'.root p ≡ grafted q sub.root m.root p)
  unfolding mount
  mount-handler_at path sub m m' sub' h =
      let spath = merge_pattern path sub.path in
      let (u1, e1, h1) = >>=-eq-ok (require (is_valid_path path) invalid_path) _ h in
      let (u2, e2, h2) = >>=-eq-ok (require (not sub.has_parent) already_mounted) _ h1 in
      let (u3, e3, h3) = >>=-eq-ok (require (not sub.has_service) already_registered) _ h2 in
      let (u4, e4, h4) = >>=-eq-ok (require (not (is_nil spath)) mount_to_root) _ h3 in
      let (root', e5, h5) =
        >>=-eq-ok (fetch spath (some sub.root) (put_mounted spath) m.root) _ h4 in
      let g =
        fetch-Grafts sub.root spath spath m.root root'
          (require-ok (not (is_nil spath)) mount_to_root u4 e4) e5 in
      let z : root' ≡ m'.root = ap (λ (x : Mux A L × Mux A L). x.0.root) (ok_injective h5) in
      (g.free, λ p. ap (λ (x : Node A L). handler_at x p) (sym z) ∙ g.result p)
