-- ===== src/Mux/Fetch/Insert.antt =====
-- Registering a handler is an insertion into the map from paths to handlers.
use mathlib.Core.Path.{subst}
use go_res.Base.{
  ◌++◌, require, require-ok, invalid_pattern, follow, ℕ, ◌+◌, if◌then◌else◌, Bytes, Bool, true,
  false, Option, none, some, List, [], ◌∷◌, ◌≡◌, refl, arith, Bool-cases, inl, inr, sym, ◌∙◌,
}
use go_res.Base.{ok, >>=-eq-ok, ok_injective}
use go_res.Parts.{split_pattern}
use go_res.Pattern.Valid.{is_nil, is_valid}
use go_res.Mux.Tree.{
  PathParam, Node, Slot, hs, params, mounted, listeners, set_params, child, set_child, handler_at,
  slot_eq, path_eq,
}
use go_res.Mux.Fetch.Steps.{slot_of, slots, fetch_from-Walked}
use go_res.Mux.Tree.Laws.{
  handler_at-set_child, child-set_params, child-set_hs, child-set_listeners, hs-set_params,
  hs-set_hs, hs-set_listeners, eq_of_path_eq, hs-set_child, handler_at-empty, slot_eq_iff,
}
use go_res.Mux.Fetch.{
  Change, next_node, fetch_from, fetch, set_and_validate_params, register_if, listen, add_listener,
  add_listeners, register, add,
}

module _ {A L : Type 0} where
  -- The node that the walk goes on with stands for what the slot held.
  next_node-handler_at :
      (last : Bool) (s : Slot) (o : Option (Node A L)) (next : Bool × Node A L) (q : List Slot)
      → next_node none last s o ≡ ok next
      → handler_at next.1 q ≡ follow o (λ n. handler_at n q)
  unfolding next_node
  next_node-handler_at last s none next q h = rw (← ok_injective h) (handler_at-empty A L q)
  next_node-handler_at last s (some n) next q h = rw (← ok_injective h) refl

  -- A change of a node that leaves its children.
  abbrev pub KeepsChildren : Change A L → Type 0
  KeepsChildren change =
      (same : Bool) (ps : List PathParam) (n n' : Node A L)
      → change same ps n ≡ ok n'
      → (s : Slot) → child s n' ≡ child s n

  -- The walk reaches a node that holds what the path held, changes it, and leaves all other paths.
  record Inserts (change : Change A L) (q : List Slot) (l l' : Node A L) : Type 0 where
    same : Bool
    ps : List PathParam
    old : Node A L
    new : Node A L
    changed : change same ps old ≡ ok new
    held : hs old ≡ handler_at l q
    result : (p : List Slot) → handler_at l' p ≡ (if path_eq q p then hs new else handler_at l p)

  Inserts-step :
      (change : Change A L) (last : Bool) (s : Slot) (q : List Slot) (l n : Node A L)
      (next : Bool × Node A L)
      → next_node none last s (child s l) ≡ ok next
      → Inserts change q next.1 n
      → Inserts change (s ∷ q) l (set_child s n l)
  unfolding handler_at path_eq
  Inserts-step change last s q l n next e r = record {
    same = r.same;
    ps = r.ps;
    old = r.old;
    new = r.new;
    changed = r.changed;
    held = r.held ∙ next_node-handler_at last s (child s l) next q e;
    result = elsewhere;
  }
    where
      elsewhere :
          (p : List Slot)
          → handler_at (set_child s n l) p
            ≡ (if path_eq (s ∷ q) p then hs r.new else handler_at l p)
      elsewhere [] = hs-set_child s n l
      elsewhere (t ∷ p) = elim (Bool-cases (slot_eq s t)) [
        | inl h ↦
            let z : s ≡ t = (slot_eq_iff s t).0 h in
            rw (handler_at-set_child s n l t p, h, ← z, r.result p)
              (rw (next_node-handler_at last s (child s l) next p e) refl)
        | inr h ↦ rw (handler_at-set_child s n l t p, h) refl
      ]

  fetch_from-Inserts :
      (change : Change A L) (same : Bool) (i mi : ℕ) (ps : List PathParam) (toks : List Bytes)
      (l l' : Node A L)
      → KeepsChildren change
      → fetch_from none change same i mi ps toks l ≡ ok l'
      → Inserts change (slots toks) l l'
  unfolding fetch_from handler_at path_eq
  fetch_from-Inserts change same i mi ps [] l l' keeps h = record {
    same = same;
    ps = ps;
    old = l;
    new = l';
    changed = h;
    held = refl;
    result = at_end;
  }
    where
      at_end : (p : List Slot) → handler_at l' p ≡ (if path_eq [] p then hs l' else handler_at l p)
      at_end [] = refl
      at_end (s ∷ p) = rw (keeps same ps l l' h s)
  fetch_from-Inserts change same i mi ps (t ∷ toks) l l' keeps h =
      let w = fetch_from-Walked none change same i mi ps t toks l l' h in
      subst (Inserts change (slots (t ∷ toks)) l) w.written (
        Inserts-step change (is_nil toks) (slot_of t) (slots toks) l w.n w.next w.stepped (
          fetch_from-Inserts change w.next.0 (i + 1) (if mounted l then i else mi) w.ps' toks
            w.next.1 w.n keeps w.walked))

  -- Setting the parameters leaves the handler and the children.
  set_and_validate_params-keeps :
      (ps : List PathParam) (n n' : Node A L)
      → set_and_validate_params ps n ≡ ok n'
      → (hs n' ≡ hs n) × ((s : Slot) → child s n' ≡ child s n)
  unfolding set_and_validate_params
  set_and_validate_params-keeps ps n n' h = elim (Bool-cases (is_nil (params n))) [
    | inl e ↦
        let z : ok (set_params ps n) ≡ ok n' = rw e at h in
        rw (← ok_injective z) (hs-set_params ps n, child-set_params ps n)
    | inr e ↦ let z : n ≡ n' = ground arith in rw (← z) (refl, λ s. refl)
  ]

  register_if-ok :
      (pattern : Bytes) (h : A) (ps : List PathParam) (n n' : Node A L) (o : Option A)
      → register_if pattern h ps n o ≡ ok n'
      → (o ≡ none) × (hs n' ≡ some h) × ((s : Slot) → child s n' ≡ child s n)
  unfolding register_if
  register_if-ok pattern h ps n n' (some x) e = cc
  register_if-ok pattern h ps n n' none e =
      let (m, e1, e2) = >>=-eq-ok (set_and_validate_params ps n) _ e in
      rw (← ok_injective e2) (
        refl,
        hs-set_hs (some h) m,
        λ s. rw (child-set_hs (some h) m s) ((set_and_validate_params-keeps ps n m e1).1 s),
      )

  listen-KeepsChildren : (x : L) → KeepsChildren (listen x)
  unfolding listen
  listen-KeepsChildren x same ps n n' e =
      let (m, e1, e2) = >>=-eq-ok (set_and_validate_params ps n) _ e in
      λ s.
        rw (← ok_injective e2, child-set_listeners (listeners m ++ x ∷ []) m s)
          ((set_and_validate_params-keeps ps n m e1).1 s)

  listen-hs :
      (x : L) (same : Bool) (ps : List PathParam) (n n' : Node A L)
      → listen x same ps n ≡ ok n'
      → hs n' ≡ hs n
  unfolding listen
  listen-hs x same ps n n' e =
      let (m, e1, e2) = >>=-eq-ok (set_and_validate_params ps n) _ e in
      rw (← ok_injective e2, hs-set_listeners (listeners m ++ x ∷ []) m)
        (set_and_validate_params-keeps ps n m e1).0

  -- Adding a listener changes no handler.
  pub add_listener-handler_at :
      (pattern : Bytes) (x : L) (root root' : Node A L)
      → add_listener pattern x root ≡ ok root'
      → (p : List Slot) → handler_at root' p ≡ handler_at root p
  unfolding add_listener fetch
  add_listener-handler_at pattern x root root' h p =
      let r =
        fetch_from-Inserts (listen x) false 0 0 [] (split_pattern pattern) root root'
          (listen-KeepsChildren x) h in
      let held = listen-hs x r.same r.ps r.old r.new r.changed ∙ r.held in
      elim (Bool-cases (path_eq (slots (split_pattern pattern)) p)) [
        | inl e ↦
            let z = eq_of_path_eq (slots (split_pattern pattern)) p e in
            rw (r.result p, e, ← z) held
        | inr e ↦ rw (r.result p, e) refl
      ]

  pub add_listeners-handler_at :
      (ls : List (Bytes × L)) (root root' : Node A L)
      → add_listeners ls root ≡ ok root'
      → (p : List Slot) → handler_at root' p ≡ handler_at root p
  unfolding add_listeners
  add_listeners-handler_at [] root root' h p = rw (ok_injective h)
  add_listeners-handler_at ((pattern, x) ∷ ls) root root' h p =
      let (r, e1, e2) = >>=-eq-ok (add_listener pattern x root) _ h in
      add_listeners-handler_at ls r root' e2 p ∙ add_listener-handler_at pattern x root r e1 p

  -- A registration succeeds only where the pattern's path held no handler. Then the path holds the
  -- new handler, and every other path what it held.
  pub add-handler_at :
      (pattern : Bytes) (h : A) (ls : List (Bytes × L)) (root root' : Node A L)
      → add pattern h ls root ≡ ok root'
      → (is_valid pattern ≡ true)
        × (handler_at root (slots (split_pattern pattern)) ≡ none)
        × ((p : List Slot)
            → handler_at root' p
              ≡ (if path_eq (slots (split_pattern pattern)) p then some h else handler_at root p))
  unfolding add fetch register
  add-handler_at pattern h ls root root' e =
      let (u, e1, e2) = >>=-eq-ok (require (is_valid pattern) invalid_pattern) _ e in
      let (r, e3, e4) =
        >>=-eq-ok (fetch_from none (register pattern h) false 0 0 [] (split_pattern pattern) root) _
          e2 in
      let i =
        fetch_from-Inserts (register pattern h) false 0 0 [] (split_pattern pattern) root r
          (λ same ps n n' c. (register_if-ok pattern h ps n n' (hs n) c).2) e3 in
      let (was, now, _) = register_if-ok pattern h i.ps i.old i.new (hs i.old) i.changed in
      (
        require-ok (is_valid pattern) invalid_pattern u e1,
        sym i.held ∙ was,
        λ p.
            add_listeners-handler_at ls r root' e4 p
            ∙ subst
                (λ o.
                  handler_at r p
                  ≡ (if path_eq (slots (split_pattern pattern)) p then o else handler_at root p))
                now (i.result p),
      )
