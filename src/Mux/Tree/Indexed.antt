-- ===== src/Mux/Tree/Indexed.antt =====
-- The bounds on the indices of the path parameters in a tree of mux.go.
use mathlib.Core.Path.{subst}
use go_res.Base.{
  ℕ, ◌+◌, ◌<◌, ◌≤◌, Bool, true, false, ◌&&◌, none, some, List, [], ◌∷◌, ◌≡◌, refl, arith, All,
  Bool-cases, inl, inr, none-ne-some, if◌then◌else◌, sym, ◌∙◌, eq_of_some,
}
use go_res.Mux.Tree.{
  PathParam, Node, node, Slot, literal, param, wild, empty_node, params, mounted, child, set_child,
  slot_eq,
}
use go_res.Mux.Tree.Laws.{child-set_child, slot_eq_iff}
use go_res.Mux.Lookup.Best.{mount_idx}

abbrev pub is_literal : Slot → Bool
is_literal (literal t) = true
is_literal param = false
is_literal wild = false

-- Behind the mount index, the indices point at tokens before `i`.
abbrev pub Bounded : ℕ → ℕ → List PathParam → Type 0
Bounded i mi ps = All (λ pp. pp.idx + mi < i) ps

pub Bounded-le : (i j mi : ℕ) (ps : List PathParam) → i ≤ j → Bounded i mi ps → Bounded j mi ps
Bounded-le i j mi [] e h = h
Bounded-le i j mi (p ∷ ps) e (h, hs) = (omega (arith, e, h), Bounded-le i j mi ps e hs)

pub Bounded-shift :
    (d i mi j mj : ℕ) (ps : List PathParam)
    → j ≡ i + d
    → mj ≡ mi + d
    → Bounded i mi ps
    → Bounded j mj ps
Bounded-shift d i mi j mj [] e k h = h
Bounded-shift d i mi j mj (p ∷ ps) e k (h, hs) =
    (omega (arith, e, k, h), Bounded-shift d i mi j mj ps e k hs)

module _ {A L : Type 0} where
  -- A tree whose root is behind `i` tokens of a path, and behind the mount index `mi`: the indices
  -- of each node point at tokens of its path, and a node is mounted on a path of literals only,
  -- which the flag tells of the path to the root.
  pub data Indexed : Bool → ℕ → ℕ → Node A L → Type 0 where
    indexed :
        {lit : Bool} {i mi : ℕ} {l : Node A L}
        → Bounded i mi (params l)
        → (mounted l ≡ true → lit ≡ true)
        → ((s : Slot) (n : Node A L)
            → child s l ≡ some n
            → Indexed (lit && is_literal s) (i + 1) (mount_idx l i mi) n)
        → Indexed lit i mi l

  child-empty : (s : Slot) → child {A = A} {L = L} s empty_node ≡ none
  unfolding child
  child-empty (literal t) = refl
  child-empty param = refl
  child-empty wild = refl

  pub empty-Indexed : (lit : Bool) (i mi : ℕ) → Indexed lit i mi empty_node
  empty-Indexed lit i mi =
      indexed tt (λ h. ground arith) (λ s n h. absurd (none-ne-some (rw (child-empty s) at h)))

  params-set_child : (s : Slot) (n l : Node A L) → params (set_child s n l) ≡ params l
  unfolding set_child
  params-set_child (literal t) n (node h ps ns p w m ls) = refl
  params-set_child param n (node h ps ns p w m ls) = refl
  params-set_child wild n (node h ps ns p w m ls) = refl

  mounted-set_child : (s : Slot) (n l : Node A L) → mounted (set_child s n l) ≡ mounted l
  unfolding set_child
  mounted-set_child (literal t) n (node h ps ns p w m ls) = refl
  mounted-set_child param n (node h ps ns p w m ls) = refl
  mounted-set_child wild n (node h ps ns p w m ls) = refl

  -- A node that differs in its parameters or in what is registered at it only.
  pub Indexed-cong :
      {lit : Bool} {i mi : ℕ} {l : Node A L} (l' : Node A L)
      → Bounded i mi (params l')
      → mounted l' ≡ mounted l
      → ((s : Slot) → child s l' ≡ child s l)
      → Indexed lit i mi l
      → Indexed lit i mi l'
  Indexed-cong {lit} {i} {mi} {l} l' b e c (indexed _ m k) =
      indexed b (λ h. m (sym e ∙ h))
        (λ s n h.
          subst (λ x. Indexed (lit && is_literal s) (i + 1) (if x then i else mi) n) (sym e)
            (k s n (sym (c s) ∙ h)))

  pub set_child-Indexed :
      {lit : Bool} {i mi : ℕ} (s : Slot) (n l : Node A L)
      → Indexed lit i mi l
      → Indexed (lit && is_literal s) (i + 1) (mount_idx l i mi) n
      → Indexed lit i mi (set_child s n l)
  set_child-Indexed {lit} {i} {mi} s n l (indexed b m k) new =
      indexed (rw (params-set_child s n l) b) (λ h. m (sym (mounted-set_child s n l) ∙ h))
        (λ r c h.
          subst (λ x. Indexed (lit && is_literal r) (i + 1) (if x then i else mi) c)
            (sym (mounted-set_child s n l)) (behind r c (sym (child-set_child s r n l) ∙ h)))
    where
      behind :
          (r : Slot) (c : Node A L)
          → (if slot_eq s r then some n else child r l) ≡ some c
          → Indexed (lit && is_literal r) (i + 1) (mount_idx l i mi) c
      behind r c h = elim (Bool-cases (slot_eq s r)) [
        | inl e ↦
            subst (λ x. Indexed (lit && is_literal x) (i + 1) (mount_idx l i mi) c)
              ((slot_eq_iff s r).0 e)
              (subst (Indexed (lit && is_literal s) (i + 1) (mount_idx l i mi))
                (eq_of_some (rw e at h)) new)
        | inr e ↦ k r c (rw e at h)
      ]

  -- The tree behind `d` more tokens.
  pub Indexed-shift :
      {lit : Bool} {i mi : ℕ} {l : Node A L} (d j mj : ℕ)
      → j ≡ i + d
      → mj ≡ mi + d
      → Indexed lit i mi l
      → Indexed lit j mj l
  Indexed-shift {lit} {i} {mi} {l} d j mj e f (indexed b m k) =
      indexed (Bounded-shift d i mi j mj (params l) e f b) m
        (λ s n h. Indexed-shift d (j + 1) (mount_idx l j mj) (omega (arith, e)) idx (k s n h))
    where
      idx : mount_idx l j mj ≡ mount_idx l i mi + d
      idx = elim (Bool-cases (mounted l)) [ inl x ↦ rw x e | inr x ↦ rw x f ]
