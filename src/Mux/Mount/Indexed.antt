-- ===== src/Mux/Mount/Indexed.antt =====
-- Mount keeps the bounds on the indices of the path parameters: a path to mount at has no tags, and
-- the indices of the mounted tree are those behind its root.
use mathlib.Core.Path.{subst}
use mathlib.Core.Bool.{false≢true}
use go_res.Base.{
  ℕ, ◌+◌, ◌≤◌, Bytes, Bool, true, false, not, ◌&&◌, Option, none, some, List, [], ◌∷◌, ◌++◌, ◌≡◌,
  refl, arith, all, sym, ap, ◌∙◌, and-eq-true, Bool-cases, inl, inr,
}
use go_res.Base.{
  ok, >>=-eq-ok, ok_injective, require, require-ok, invalid_path, already_mounted,
  already_registered, mount_to_root,
}
use go_res.Parts.{
  split_pattern, merge_pattern, parts, first, others, split_pattern-eq-parts, parts-append,
}
use go_res.Pattern.Valid.{is_nil, is_valid_path}
use go_res.Pattern.Valid.Laws.{any_wild, is_valid_path-eq}
use go_res.Pattern.Shape.{parts_ok}
use go_res.Mux.Tree.{PathParam, Node, node, Slot, literal, param, wild, set_mounted, child}
use go_res.Mux.Tree.Indexed.{
  is_literal, Bounded, Indexed, indexed, set_child-Indexed, Indexed-shift,
}
use go_res.Mux.Fetch.{next_node, fetch_from, fetch}
use go_res.Mux.Fetch.Steps.{slot_of, fetch_from-Walked, fetch_from-nil}
use go_res.Mux.Fetch.Indexed.{child-Indexed, next_node-Indexed, mount_idx-le}
use go_res.Mux.Lookup.Best.{mount_idx}
use go_res.Mux.Mount.{Mux, put_mounted, mount}
use go_res.Mux.Mount.Graft.{last_free, put_mounted-ok}

abbrev leads_by_literal : Bytes → Bool
leads_by_literal t = is_literal (slot_of t)

all_literal-append :
    (xs ys : List Bytes)
    → all leads_by_literal xs ≡ true
    → all leads_by_literal ys ≡ true
    → all leads_by_literal (xs ++ ys) ≡ true
all_literal-append [] ys h k = k
all_literal-append (x ∷ xs) ys h k =
    let (a, b) = and-eq-true (leads_by_literal x) (all leads_by_literal xs) h in
    rw (a, all_literal-append xs ys b k)

all_literal-wild :
    (ts : List Bytes) → parts_ok ts && not (any_wild ts) ≡ true → all leads_by_literal ts ≡ true
all_literal-wild [] h = refl
all_literal-wild ([] ∷ ts) h = ground (arith, h)
all_literal-wild ((c ∷ t) ∷ ts) h = ground (arith, h, all_literal-wild ts)

-- The parts of a path to mount at are literals.
is_valid_path-literal :
    (c : ℕ) (p : Bytes) → is_valid_path (c ∷ p) ≡ true → all leads_by_literal (parts (c ∷ p)) ≡ true
is_valid_path-literal c p h = all_literal-wild (parts (c ∷ p)) (sym (is_valid_path-eq (c ∷ p)) ∙ h)

merge_pattern-literal :
    (a b : Bytes)
    → is_valid_path a ≡ true
    → is_valid_path b ≡ true
    → all leads_by_literal (split_pattern (merge_pattern a b)) ≡ true
unfolding merge_pattern split_pattern
merge_pattern-literal [] [] h k = refl
merge_pattern-literal [] (d ∷ b) h k = rw (split_pattern-eq-parts d b) (is_valid_path-literal d b k)
merge_pattern-literal (c ∷ a) [] h k = rw (split_pattern-eq-parts c a) (is_valid_path-literal c a h)
merge_pattern-literal (c ∷ a) (d ∷ b) h k =
    ap (all leads_by_literal)
      (split_pattern-eq-parts c (a ++ b'.' ∷ d ∷ b) ∙ parts-append (c ∷ a) (d ∷ b))
    ∙ all_literal-append (parts (c ∷ a)) (parts (d ∷ b)) (is_valid_path-literal c a h)
        (is_valid_path-literal d b k)

module _ {A L : Type 0} where
  -- The mounted root stands behind `i` tokens, and is where the indices of its tree start.
  set_mounted-Indexed :
      (i mi : ℕ) (l : Node A L) → Indexed true 0 0 l → Indexed true i mi (set_mounted l)
  unfolding child
  set_mounted-Indexed i mi (node h ps ns p w m ls) (indexed b c k) =
      indexed (no_params ps b) (λ e. refl) behind
    where
      no_params : (qs : List PathParam) → Bounded 0 0 qs → Bounded i mi qs
      no_params [] e = e
      no_params (q ∷ qs) (e, es) = absurd (omega (arith, e))

      behind :
          (s : Slot) (n : Node A L)
          → child s (node h ps ns p w true ls) ≡ some n
          → Indexed (is_literal s) (i + 1) i n
      behind s n e = Indexed-shift i (i + 1) i (omega arith) start (k s n (same_child s ∙ e))
        where
          start : i ≡ mount_idx (node h ps ns p w m ls) 0 0 + i
          start = elim (Bool-cases m) [ inl x ↦ rw x (omega arith) | inr x ↦ rw x (omega arith) ]

          same_child :
              (r : Slot) → child r (node h ps ns p w m ls) ≡ child r (node h ps ns p w true ls)
          same_child (literal t) = refl
          same_child param = refl
          same_child wild = refl

  next_node-mounted :
      (sub : Node A L) (s : Slot) (o : Option (Node A L))
      → next_node (some sub) false s o ≡ next_node none false s o
  unfolding next_node
  next_node-mounted sub s none = refl
  next_node-mounted sub s (some n) = refl

  fetch_from-mounted-Indexed :
      (sub : Node A L) (spath : Bytes) (same : Bool) (i mi : ℕ) (ps : List PathParam) (t : Bytes)
      (toks : List Bytes) (l l' : Node A L)
      → mi ≤ i
      → all leads_by_literal (t ∷ toks) ≡ true
      → Indexed true 0 0 sub
      → Indexed true i mi l
      → fetch_from (some sub) (put_mounted spath) same i mi ps (t ∷ toks) l ≡ ok l'
      → Indexed true i mi l'
  fetch_from-mounted-Indexed sub spath same i mi ps t [] l l' e f y x h =
      let w = fetch_from-Walked (some sub) (put_mounted spath) same i mi ps t [] l l' h in
      let idx = mount_idx l i mi in
      let (now, put) = put_mounted-ok spath w.next.0 w.ps' w.next.1 w.n (
        sym (fetch_from-nil (some sub) (put_mounted spath) w.next.0 (i + 1) idx w.ps' w.next.1)
        ∙ w.walked) in
      let (_, it) = last_free sub (slot_of t) (child (slot_of t) l) w.next w.stepped now in
      subst (Indexed true i mi) w.written (
        set_child-Indexed (slot_of t) w.n l x (
          subst (λ b. Indexed b (i + 1) idx w.n) (sym (and-eq-true (leads_by_literal t) true f).0)
            (subst (Indexed true (i + 1) idx) (sym (ap set_mounted it) ∙ put)
              (set_mounted-Indexed (i + 1) idx sub y))))
  fetch_from-mounted-Indexed sub spath same i mi ps t (u ∷ toks) l l' e f y x h =
      let w = fetch_from-Walked (some sub) (put_mounted spath) same i mi ps t (u ∷ toks) l l' h in
      let s = slot_of t in
      let idx = mount_idx l i mi in
      let (here, later) = and-eq-true (leads_by_literal t) (all leads_by_literal (u ∷ toks)) f in
      let next : Indexed true (i + 1) idx w.next.1 =
        next_node-Indexed false s (child s l) w.next true (i + 1) idx
          (sym (next_node-mounted sub s (child s l)) ∙ w.stepped)
          (λ n c. subst (λ b. Indexed b (i + 1) idx n) here (child-Indexed s n x c)) in
      let new =
        fetch_from-mounted-Indexed sub spath w.next.0 (i + 1) idx w.ps' u toks w.next.1 w.n
          (omega (arith, mount_idx-le l i mi e)) later y next w.walked in
      subst (Indexed true i mi) w.written
        (set_child-Indexed s w.n l x (subst (λ b. Indexed b (i + 1) idx w.n) (sym here) new))

  fetch-mounted-Indexed :
      (sub : Node A L) (at spath : Bytes) (l l' : Node A L)
      → not (is_nil spath) ≡ true
      → all leads_by_literal (split_pattern spath) ≡ true
      → Indexed true 0 0 sub
      → Indexed true 0 0 l
      → fetch spath (some sub) (put_mounted at) l ≡ ok l'
      → Indexed true 0 0 l'
  unfolding fetch parts
  fetch-mounted-Indexed sub at [] l l' n f y x h = absurd (false≢true n)
  fetch-mounted-Indexed sub at (c ∷ p) l l' n f y x h =
      let e = split_pattern-eq-parts c p in
      fetch_from-mounted-Indexed sub at false 0 0 [] (first (c ∷ p)) (others (c ∷ p)) l l'
        (omega arith) (sym (ap (all leads_by_literal) e) ∙ f) y x
        (sym (ap (λ toks. fetch_from (some sub) (put_mounted at) false 0 0 [] toks l) e) ∙ h)

  -- A Mux whose path is one that NewMux accepts, with a tree within the bounds.
  abbrev pub IsBounded : Mux A L → Type 0
  IsBounded m = (is_valid_path m.path ≡ true) × Indexed true 0 0 m.root

  pub mount-IsBounded :
      (path : Bytes) (sub m m' sub' : Mux A L)
      → IsBounded sub
      → IsBounded m
      → mount path sub m ≡ ok (m', sub')
      → IsBounded m' × IsBounded sub'
  unfolding mount
  mount-IsBounded path sub m m' sub' (v, y) (u, x) h =
      let spath = merge_pattern path sub.path in
      let (u1, e1, h1) = >>=-eq-ok (require (is_valid_path path) invalid_path) _ h in
      let (u2, e2, h2) = >>=-eq-ok (require (not sub.has_parent) already_mounted) _ h1 in
      let (u3, e3, h3) = >>=-eq-ok (require (not sub.has_service) already_registered) _ h2 in
      let (u4, e4, h4) = >>=-eq-ok (require (not (is_nil spath)) mount_to_root) _ h3 in
      let (root', e5, h5) =
        >>=-eq-ok (fetch spath (some sub.root) (put_mounted spath) m.root) _ h4 in
      let literals =
        merge_pattern-literal path sub.path (require-ok (is_valid_path path) invalid_path u1 e1)
          v in
      subst (λ (r : Mux A L × Mux A L). IsBounded r.0 × IsBounded r.1) (ok_injective h5)
        (
          (
            u,
            fetch-mounted-Indexed sub.root spath spath m.root root'
                (require-ok (not (is_nil spath)) mount_to_root u4 e4) literals y x e5,
          ),
          (v, set_mounted-Indexed 0 0 sub.root y),
        )
