-- ===== src/Mux/Lookup/Best.antt =====
-- `matchNode` finds the most specific path of the tree that leads to the tokens.
use mathlib.Core.Path.{subst}
use go_res.Base.{
  or_else, follow, eq_of_some, ℕ, ◌+◌, ◌<◌, if◌then◌else◌, Bytes, Option, none, some, List, [], ◌∷◌,
  ◌≡◌, refl, arith, inl, inr, ◌⊎◌, ap, some, ◌∙◌, sym,
}
use go_res.Mux.Tree.{Node, Slot, literal, param, wild, hs, mounted, child}
use go_res.Mux.Lookup.{match_node, attempts, accept}

abbrev pub rank : Slot → ℕ
rank (literal t) = 0
rank param = 1
rank wild = 2

-- The order of specificity: the first slot that differs decides, a literal before a parameter
-- before a full wildcard.
pub data AtLeastAs : List Slot → List Slot → Type 0 where
  same : {q : List Slot} → AtLeastAs q q
  before : {s r : Slot} {q p : List Slot} → rank s < rank r → AtLeastAs (s ∷ q) (r ∷ p)
  behind : {s r : Slot} {q p : List Slot} → s ≡ r → AtLeastAs q p → AtLeastAs (s ∷ q) (r ∷ p)

-- The token index of the last mounted node, behind the node `l`.
abbrev pub mount_idx : {A L : Type 0} → Node A L → ℕ → ℕ → ℕ
mount_idx l i mi = if mounted l then i else mi

module _ {A L : Type 0} where
  -- The path leads from the node along the tokens to a node with handlers, or to a full wildcard.
  -- The first token has the index `i`; the last mounted node on the way, the one that is reached
  -- left out, is at the token `k`, or is that at `mi` from before.
  pub data Leads : Node A L → ℕ → ℕ → List Bytes → List Slot → Node A L → ℕ → Type 0 where
    stop : {l : Node A L} {i mi : ℕ} {h : A} → hs l ≡ some h → Leads l i mi [] [] l mi
    literal_step :
        {l n m : Node A L} {i mi k : ℕ} {t u : Bytes} {toks : List Bytes} {q : List Slot}
        → t ≡ u
        → child (literal t) l ≡ some n
        → Leads n (i + 1) (mount_idx l i mi) toks q m k
        → Leads l i mi (u ∷ toks) (literal t ∷ q) m k
    param_step :
        {l n m : Node A L} {i mi k : ℕ} {u : Bytes} {toks : List Bytes} {q : List Slot}
        → child param l ≡ some n
        → Leads n (i + 1) (mount_idx l i mi) toks q m k
        → Leads l i mi (u ∷ toks) (param ∷ q) m k
    wild_rest :
        {l n : Node A L} {i mi k : ℕ} {u : Bytes} {toks : List Bytes}
        → child wild l ≡ some n
        → k ≡ mount_idx l i mi
        → Leads l i mi (u ∷ toks) (wild ∷ []) n k

  -- Among the paths that hold of `P`, `q` leads to the tokens and is the most specific one.
  abbrev pub IsBest :
      Node A L → ℕ → ℕ → List Bytes → (List Slot → List Slot) → List Slot → Node A L × ℕ → Type 0
  IsBest l i mi toks f q (n, k) =
      Leads l i mi toks (f q) n k
      × ((p : List Slot) (m : Node A L) (j : ℕ)
          → Leads l i mi toks (f p) m j
          → AtLeastAs (f q) (f p))

  -- The answer for the paths of the form `f q`: the most specific one, or there is none.
  abbrev Among :
      Node A L → ℕ → ℕ → List Bytes → (List Slot → List Slot) → Option (Node A L × ℕ) → Type 0
  Among l i mi toks f none = (q : List Slot) (n : Node A L) (k : ℕ) → ¬ Leads l i mi toks (f q) n k
  Among l i mi toks f (some r) = (q : List Slot) × IsBest l i mi toks f q r

  abbrev pub Answer : Node A L → ℕ → ℕ → List Bytes → Option (Node A L × ℕ) → Type 0
  Answer l i mi toks o = Among l i mi toks (λ q. q) o

  abbrev Part : Slot → Node A L → ℕ → ℕ → List Bytes → Option (Node A L × ℕ) → Type 0
  Part s l i mi toks o = Among l i mi toks (λ q. s ∷ q) o

  first_slot :
      {l n : Node A L} {i mi k : ℕ} {t : Bytes} {toks : List Bytes} {p : List Slot}
      → Leads l i mi (t ∷ toks) p n k
      → ((q : List Slot) × (p ≡ literal t ∷ q))
        ⊎ (((q : List Slot) × (p ≡ param ∷ q)) ⊎ ((q : List Slot) × (p ≡ wild ∷ q)))
  first_slot (literal_step {q} e c d) = inl (q, ap (λ x. literal x ∷ q) e)
  first_slot (param_step {q} c d) = inr (inl (q, refl))
  first_slot (wild_rest c e) = inr (inr ([], refl))

  module _ (l : Node A L) (i mi : ℕ) (t : Bytes) (toks : List Bytes) where
    combine :
        (a b c : Option (Node A L × ℕ))
        → Part (literal t) l i mi (t ∷ toks) a
        → Part param l i mi (t ∷ toks) b
        → Part wild l i mi (t ∷ toks) c
        → Answer l i mi (t ∷ toks) (or_else a (or_else b c))
    combine (some r) b c (q, (d, best)) pb pc = (
      literal t ∷ q,
      (
        d,
        λ p m j e. elim (first_slot e) [
          | inl (p', z) ↦ rw z (best p' m j (rw z at e))
          | inr (inl (p', z)) ↦ rw z (before (omega arith))
          | inr (inr (p', z)) ↦ rw z (before (omega arith))
        ],
      ),
    )
    combine none (some r) c pa (q, (d, best)) pc = (
      param ∷ q,
      (
        d,
        λ p m j e. elim (first_slot e) [
          | inl (p', z) ↦ absurd (pa p' m j (rw z at e))
          | inr (inl (p', z)) ↦ rw z (best p' m j (rw z at e))
          | inr (inr (p', z)) ↦ rw z (before (omega arith))
        ],
      ),
    )
    combine none none (some r) pa pb (q, (d, best)) = (
      wild ∷ q,
      (
        d,
        λ p m j e. elim (first_slot e) [
          | inl (p', z) ↦ absurd (pa p' m j (rw z at e))
          | inr (inl (p', z)) ↦ absurd (pb p' m j (rw z at e))
          | inr (inr (p', z)) ↦ rw z (best p' m j (rw z at e))
        ],
      ),
    )
    combine none none none pa pb pc = λ p m j e. elim (first_slot e) [
      | inl (p', z) ↦ pa p' m j (rw z at e)
      | inr (inl (p', z)) ↦ pb p' m j (rw z at e)
      | inr (inr (p', z)) ↦ pc p' m j (rw z at e)
    ]

    literal_inv :
        {q : List Slot} {m n : Node A L} {k : ℕ}
        → child (literal t) l ≡ some n
        → Leads l i mi (t ∷ toks) (literal t ∷ q) m k
        → Leads n (i + 1) (mount_idx l i mi) toks q m k
    literal_inv {q} {m} {k} c (literal_step e c' d) =
        subst (λ x. Leads x (i + 1) (mount_idx l i mi) toks q m k) (eq_of_some (sym c' ∙ c)) d

    param_inv :
        {q : List Slot} {m n : Node A L} {k : ℕ}
        → child param l ≡ some n
        → Leads l i mi (t ∷ toks) (param ∷ q) m k
        → Leads n (i + 1) (mount_idx l i mi) toks q m k
    param_inv {q} {m} {k} c (param_step c' d) =
        subst (λ x. Leads x (i + 1) (mount_idx l i mi) toks q m k) (eq_of_some (sym c' ∙ c)) d

    -- The rounds for the literal child and for `l.param`.
    literal-Part :
        (n : Node A L) (o : Option (Node A L × ℕ))
        → child (literal t) l ≡ some n
        → Answer n (i + 1) (mount_idx l i mi) toks o
        → Part (literal t) l i mi (t ∷ toks) o
    literal-Part n none c a = λ q m k d. a q m k (literal_inv c d)
    literal-Part n (some r) c (q, (d, best)) =
        (q, (literal_step refl c d, λ p m j e. behind refl (best p m j (literal_inv c e))))

    param-Part :
        (n : Node A L) (o : Option (Node A L × ℕ))
        → child param l ≡ some n
        → Answer n (i + 1) (mount_idx l i mi) toks o
        → Part param l i mi (t ∷ toks) o
    param-Part n none c a = λ q m k d. a q m k (param_inv c d)
    param-Part n (some r) c (q, (d, best)) =
        (q, (param_step c d, λ p m j e. behind refl (best p m j (param_inv c e))))

    no_literal :
        child (literal t) l ≡ none
        → (q : List Slot) (m : Node A L) (k : ℕ) → ¬ Leads l i mi (t ∷ toks) (literal t ∷ q) m k
    no_literal c q m k (literal_step e c' d) = cc

    no_param :
        child param l ≡ none
        → (q : List Slot) (m : Node A L) (k : ℕ) → ¬ Leads l i mi (t ∷ toks) (param ∷ q) m k
    no_param c q m k (param_step c' d) = cc

    no_wild :
        child wild l ≡ none
        → (q : List Slot) (m : Node A L) (k : ℕ) → ¬ Leads l i mi (t ∷ toks) (wild ∷ q) m k
    no_wild c q m k (wild_rest c' e) = cc

    wild_end :
        {q : List Slot} {m : Node A L} {k : ℕ} → Leads l i mi (t ∷ toks) (wild ∷ q) m k → q ≡ []
    wild_end (wild_rest c e) = refl

    wild-Part :
        (w : Option (Node A L))
        → child wild l ≡ w
        → Part wild l i mi (t ∷ toks) (follow w (λ n. some (n, mount_idx l i mi)))
    wild-Part none c = no_wild c
    wild-Part (some n) c = ([], (wild_rest c refl, λ p m j e. rw (wild_end e) same))

    attempts-Answer :
        (next : Node A L → Option (Node A L × ℕ))
        → ((n : Node A L) → Answer n (i + 1) (mount_idx l i mi) toks (next n))
        → Answer l i mi (t ∷ toks) (attempts next t (mount_idx l i mi) l)
    unfolding attempts
    attempts-Answer next ih =
        combine _ _ _ (literal_case (child (literal t) l) refl) (param_case (child param l) refl)
          (wild-Part (child wild l) refl)
      where
        literal_case :
            (o : Option (Node A L))
            → child (literal t) l ≡ o
            → Part (literal t) l i mi (t ∷ toks) (follow o next)
        literal_case none c = no_literal c
        literal_case (some n) c = literal-Part n (next n) c (ih n)

        param_case :
            (o : Option (Node A L))
            → child param l ≡ o
            → Part param l i mi (t ∷ toks) (follow o next)
        param_case none c = no_param c
        param_case (some n) c = param-Part n (next n) c (ih n)

  accept-Answer : (i mi : ℕ) (n : Node A L) → Answer n i mi [] (accept mi n)
  unfolding accept
  accept-Answer i mi n = go (hs n) refl
    where
      nil_path : {q : List Slot} {m : Node A L} {k : ℕ} → Leads n i mi [] q m k → q ≡ []
      nil_path (stop d) = refl

      no_stop : hs n ≡ none → (q : List Slot) (m : Node A L) (k : ℕ) → ¬ Leads n i mi [] q m k
      no_stop e q m k (stop d) = cc

      go : (o : Option A) → hs n ≡ o → Answer n i mi [] (follow o (λ h. some (n, mi)))
      go none e = no_stop e
      go (some h) e = ([], (stop e, λ p m j d. rw (nil_path d) same))

  match_node-Answer :
      (t : Bytes) (toks : List Bytes) (l : Node A L) (i mi : ℕ)
      → Answer l i mi (t ∷ toks) (match_node l (t ∷ toks) i mi)
  unfolding match_node
  match_node-Answer t [] l i mi =
      attempts-Answer l i mi t [] (accept (mount_idx l i mi))
        (accept-Answer (i + 1) (mount_idx l i mi))
  match_node-Answer t (u ∷ toks) l i mi =
      attempts-Answer l i mi t (u ∷ toks) _
        (λ n. match_node-Answer u toks n (i + 1) (mount_idx l i mi))

  -- What `matchNode` finds is led to by a path along the tokens, and every path that leads along
  -- them is at most as specific.
  pub match_node-Best :
      (l n : Node A L) (toks : List Bytes) (i mi k : ℕ)
      → match_node l toks i mi ≡ some (n, k)
      → (q : List Slot) × Leads l i mi toks q n k
        × ((p : List Slot) (m : Node A L) (j : ℕ) → Leads l i mi toks p m j → AtLeastAs q p)
  unfolding match_node
  match_node-Best l n [] i mi k h = cc
  match_node-Best l n (t ∷ toks) i mi k h =
      let (q, (d, best)) = subst (Answer l i mi (t ∷ toks)) h (match_node-Answer t toks l i mi) in
      (q, d, best)

  -- If `matchNode` finds nothing, no path leads along the tokens.
  pub match_node-none :
      (l : Node A L) (t : Bytes) (toks : List Bytes) (i mi : ℕ)
      → match_node l (t ∷ toks) i mi ≡ none
      → (q : List Slot) (n : Node A L) (k : ℕ) → ¬ Leads l i mi (t ∷ toks) q n k
  match_node-none l t toks i mi h =
      subst (Answer l i mi (t ∷ toks)) h (match_node-Answer t toks l i mi)
