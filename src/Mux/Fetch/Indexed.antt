-- ===== src/Mux/Fetch/Indexed.antt =====
-- The walk of `fetch` in mux.go keeps the bounds on the indices of the path parameters.
use mathlib.Core.Path.{subst}
use mathlib.Core.Bool.{false≢true}
use go_res.Base.{
  ℕ, ◌+◌, ◌-◌, ◌<◌, ◌≤◌, ◌==◌, str_eq, any, Bytes, Bool, true, false, ◌&&◌, Option, none, some,
  List, [], ◌∷◌, ◌≡◌, refl, arith, Bool-cases, inl, inr, sym, ◌∙◌, All-append, and-eq-true,
}
use go_res.Base.{ok, ok_injective}
use go_res.Parts.{split_pattern}
use go_res.Pattern.Valid.{is_nil, pmark}
use go_res.Mux.Tree.{PathParam, Node, Slot, mounted, child}
use go_res.Mux.Fetch.{Change, token_params, next_node, fetch_from, fetch}
use go_res.Mux.Fetch.Steps.{slot_of, fetch_from-Walked, fetch_from-nil}
use go_res.Mux.Lookup.Best.{mount_idx}
use go_res.Mux.Tree.Indexed.{
  is_literal, Bounded, Bounded-le, Indexed, indexed, empty-Indexed, set_child-Indexed,
}

token_params-Bounded :
    (t : Bytes) (i idx : ℕ) (ps ps' : List PathParam)
    → idx ≤ i
    → Bounded i idx ps
    → token_params t (i - idx) ps ≡ ok ps'
    → Bounded (i + 1) idx ps'
unfolding token_params
token_params-Bounded [] i idx ps ps' e b h =
    subst (Bounded (i + 1) idx) (ok_injective h) (Bounded-le i (i + 1) idx ps (omega arith) b)
token_params-Bounded (c ∷ name) i idx ps ps' e b h = elim (Bool-cases (c == pmark)) [
  | inl x ↦ elim (Bool-cases (any (λ p. str_eq p.name name) ps)) [
    | inl y ↦ absurd (ground (arith, h, x, y))
    | inr y ↦ subst (Bounded (i + 1) idx) (ok_injective (rw (x, y) at h)) (
        All-append (λ pp. pp.idx + idx < i + 1) ps (record { name = name; idx = i - idx } ∷ [])
          (Bounded-le i (i + 1) idx ps (omega arith) b) (omega (arith, e), tt))
  ]
  | inr x ↦
      subst (Bounded (i + 1) idx) (ok_injective (rw x at h))
        (Bounded-le i (i + 1) idx ps (omega arith) b)
]

-- A literal adds no parameter.
token_params-literal :
    (t : Bytes) (k : ℕ) (ps ps' : List PathParam)
    → is_literal (slot_of t) ≡ true
    → token_params t k ps ≡ ok ps'
    → ps ≡ ps'
unfolding token_params
token_params-literal [] k ps ps' l h = ok_injective h
token_params-literal (c ∷ name) k ps ps' l h = elim (Bool-cases (c == pmark)) [
  | inl x ↦ absurd (false≢true (rw x at l))
  | inr x ↦ ok_injective (rw x at h)
]

module _ {A L : Type 0} where
  -- A change that keeps the bounds of the node that it is given with parameters within them.
  abbrev pub KeepsIndexed : Change A L → Type 0
  KeepsIndexed change =
      (lit : Bool) (i mi : ℕ) (same : Bool) (ps : List PathParam) (n n' : Node A L)
      → Bounded i mi ps
      → Indexed lit i mi n
      → change same ps n ≡ ok n'
      → Indexed lit i mi n'

  pub child-Indexed :
      {lit : Bool} {i mi : ℕ} {l : Node A L} (s : Slot) (n : Node A L)
      → Indexed lit i mi l
      → child s l ≡ some n
      → Indexed (lit && is_literal s) (i + 1) (mount_idx l i mi) n
  child-Indexed s n (indexed b m k) h = k s n h

  mounted-literal :
      {lit : Bool} {i mi : ℕ} {l : Node A L} → Indexed lit i mi l → mounted l ≡ true → lit ≡ true
  mounted-literal (indexed b m k) h = m h

  pub next_node-Indexed :
      (last : Bool) (s : Slot) (o : Option (Node A L)) (next : Bool × Node A L) (lit : Bool)
      (i mi : ℕ)
      → next_node none last s o ≡ ok next
      → ((n : Node A L) → o ≡ some n → Indexed lit i mi n)
      → Indexed lit i mi next.1
  unfolding next_node
  next_node-Indexed last s none next lit i mi h k =
      subst (λ (x : Bool × Node A L). Indexed lit i mi x.1) (ok_injective h)
        (empty-Indexed lit i mi)
  next_node-Indexed last s (some n) next lit i mi h k =
      subst (λ (x : Bool × Node A L). Indexed lit i mi x.1) (ok_injective h) (k n refl)

  pub mount_idx-le : (l : Node A L) (i mi : ℕ) → mi ≤ i → mount_idx l i mi ≤ i
  mount_idx-le l i mi e = elim (Bool-cases (mounted l)) [
    | inl x ↦ rw x (omega arith)
    | inr x ↦ rw x e
  ]

  mount_idx-Bounded :
      (l : Node A L) (lit : Bool) (i mi : ℕ) (ps : List PathParam)
      → (mounted l ≡ true → lit ≡ true)
      → (lit ≡ true → [] ≡ ps)
      → Bounded i mi ps
      → Bounded i (mount_idx l i mi) ps
  mount_idx-Bounded l lit i mi ps m z b = elim (Bool-cases (mounted l)) [
    | inl x ↦ subst (Bounded i (mount_idx l i mi)) (z (m x)) tt
    | inr x ↦ rw x b
  ]

  fetch_from-Indexed :
      (change : Change A L) (same lit : Bool) (i mi : ℕ) (ps : List PathParam) (toks : List Bytes)
      (l l' : Node A L)
      → KeepsIndexed change
      → mi ≤ i
      → Bounded i mi ps
      → (lit ≡ true → [] ≡ ps)
      → Indexed lit i mi l
      → fetch_from none change same i mi ps toks l ≡ ok l'
      → Indexed lit i mi l'
  fetch_from-Indexed change same lit i mi ps [] l l' keeps e b z x h =
      keeps lit i mi same ps l l' b x (sym (fetch_from-nil none change same i mi ps l) ∙ h)
  fetch_from-Indexed change same lit i mi ps (t ∷ toks) l l' keeps e b z x h =
      let w = fetch_from-Walked none change same i mi ps t toks l l' h in
      let s = slot_of t in
      let idx = mount_idx l i mi in
      let lit' = lit && is_literal s in
      let before = mount_idx-Bounded l lit i mi ps (mounted-literal x) z b in
      let le = mount_idx-le l i mi e in
      let next =
        next_node-Indexed (is_nil toks) s (child s l) w.next lit' (i + 1) idx w.stepped
          (λ n c. child-Indexed s n x c) in
      let none_yet : lit' ≡ true → [] ≡ w.ps' = λ y.
        let (u, v) = and-eq-true lit (is_literal s) y in
        z u ∙ token_params-literal t (i - idx) ps w.ps' v w.tagged in
      let new =
        fetch_from-Indexed change w.next.0 lit' (i + 1) idx w.ps' toks w.next.1 w.n keeps
          (omega (arith, le)) (token_params-Bounded t i idx ps w.ps' le before w.tagged) none_yet
          next w.walked in
      subst (Indexed lit i mi) w.written (set_child-Indexed s w.n l x new)

  pub fetch-Indexed :
      (pattern : Bytes) (change : Change A L) (root root' : Node A L)
      → KeepsIndexed change
      → Indexed true 0 0 root
      → fetch pattern none change root ≡ ok root'
      → Indexed true 0 0 root'
  unfolding fetch
  fetch-Indexed pattern change root root' keeps x h =
      fetch_from-Indexed change false true 0 0 [] (split_pattern pattern) root root' keeps
        (omega arith) tt (λ e. refl) x h
