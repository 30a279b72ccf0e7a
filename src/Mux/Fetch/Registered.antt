-- ===== src/Mux/Fetch/Registered.antt =====
-- `add` and `AddListener` of mux.go keep the bounds on the indices of the path parameters.
use mathlib.Core.Path.{subst}
use go_res.Base.{
  ◌++◌, require, invalid_pattern, ℕ, Bytes, Bool, true, Option, none, some, List, [], ◌∷◌, ◌≡◌,
  refl, arith, Bool-cases, inl, inr,
}
use go_res.Base.{ok, >>=-eq-ok, ok_injective}
use go_res.Pattern.Valid.{is_nil, is_valid}
use go_res.Mux.Tree.{
  PathParam, Node, node, hs, params, listeners, set_params, set_hs, set_listeners,
}
use go_res.Mux.Tree.Laws.{child-set_params, child-set_hs, child-set_listeners}
use go_res.Mux.Fetch.{
  fetch, set_and_validate_params, register_if, listen, add_listener, add_listeners, register, add,
}
use go_res.Mux.Fetch.Indexed.{KeepsIndexed, fetch-Indexed}
use go_res.Mux.Tree.Indexed.{Bounded, Indexed, indexed, Indexed-cong}

module _ {A L : Type 0} where
  set_and_validate_params-Indexed :
      (lit : Bool) (i mi : ℕ) (ps : List PathParam) (n n' : Node A L)
      → Bounded i mi ps
      → Indexed lit i mi n
      → set_and_validate_params ps n ≡ ok n'
      → Indexed lit i mi n'
  unfolding set_and_validate_params
  set_and_validate_params-Indexed lit i mi ps n n' b x h = elim (Bool-cases (is_nil (params n))) [
    | inl e ↦
        let z : ok (set_params ps n) ≡ ok n' = rw e at h in
        subst (Indexed lit i mi) (ok_injective z) (with_params n x)
    | inr e ↦ let z : n ≡ n' = ground arith in subst (Indexed lit i mi) z x
  ]
    where
      with_params : (m : Node A L) → Indexed lit i mi m → Indexed lit i mi (set_params ps m)
      with_params (node h qs ns p w m ls) y =
          Indexed-cong (node h ps ns p w m ls) b refl (child-set_params ps (node h qs ns p w m ls))
            y

  own_params : {lit : Bool} {i mi : ℕ} {l : Node A L} → Indexed lit i mi l → Bounded i mi (params l)
  own_params (indexed b m k) = b

  register-KeepsIndexed :
      (pattern : Bytes) (h : A) → KeepsIndexed {A = A} {L = L} (register pattern h)
  unfolding register register_if
  register-KeepsIndexed pattern h lit i mi same ps n n' b x e = registered (hs n) e
    where
      with_hs : (m : Node A L) → Indexed lit i mi m → Indexed lit i mi (set_hs (some h) m)
      with_hs (node o qs ns p w m ls) y =
          Indexed-cong (node (some h) qs ns p w m ls) (own_params y) refl
            (child-set_hs (some h) (node o qs ns p w m ls)) y

      registered : (o : Option A) → register_if pattern h ps n o ≡ ok n' → Indexed lit i mi n'
      registered (some k) e' = cc
      registered none e' =
          let (m, e1, e2) = >>=-eq-ok (set_and_validate_params ps n) _ e' in
          subst (Indexed lit i mi) (ok_injective e2)
            (with_hs m (set_and_validate_params-Indexed lit i mi ps n m b x e1))

  listen-KeepsIndexed : (x : L) → KeepsIndexed {A = A} {L = L} (listen x)
  unfolding listen
  listen-KeepsIndexed x lit i mi same ps n n' b y e =
      let (m, e1, e2) = >>=-eq-ok (set_and_validate_params ps n) _ e in
      subst (Indexed lit i mi) (ok_injective e2)
        (heard m (set_and_validate_params-Indexed lit i mi ps n m b y e1))
    where
      heard :
          (m : Node A L)
          → Indexed lit i mi m
          → Indexed lit i mi (set_listeners (listeners m ++ x ∷ []) m)
      heard (node o qs ns p w f ls) z =
          Indexed-cong (node o qs ns p w f (ls ++ x ∷ [])) (own_params z) refl
            (child-set_listeners (ls ++ x ∷ []) (node o qs ns p w f ls)) z

  pub add_listener-Indexed :
      (pattern : Bytes) (x : L) (root root' : Node A L)
      → Indexed true 0 0 root
      → add_listener pattern x root ≡ ok root'
      → Indexed true 0 0 root'
  unfolding add_listener
  add_listener-Indexed pattern x root root' y h =
      fetch-Indexed pattern (listen x) root root' (listen-KeepsIndexed x) y h

  add_listeners-Indexed :
      (ls : List (Bytes × L)) (root root' : Node A L)
      → Indexed true 0 0 root
      → add_listeners ls root ≡ ok root'
      → Indexed true 0 0 root'
  unfolding add_listeners
  add_listeners-Indexed [] root root' y h = subst (Indexed true 0 0) (ok_injective h) y
  add_listeners-Indexed ((pattern, x) ∷ more) root root' y h =
      let (m, e1, e2) = >>=-eq-ok (add_listener pattern x root) _ h in
      add_listeners-Indexed more m root' (add_listener-Indexed pattern x root m y e1) e2

  pub add-Indexed :
      (pattern : Bytes) (h : A) (ls : List (Bytes × L)) (root root' : Node A L)
      → Indexed true 0 0 root
      → add pattern h ls root ≡ ok root'
      → Indexed true 0 0 root'
  unfolding add
  add-Indexed pattern h ls root root' y e =
      let (u, e1, e2) = >>=-eq-ok (require (is_valid pattern) invalid_pattern) _ e in
      let (m, e3, e4) = >>=-eq-ok (fetch pattern none (register pattern h) root) _ e2 in
      add_listeners-Indexed ls m root'
        (fetch-Indexed pattern (register pattern h) root m (register-KeepsIndexed pattern h) y e3)
        e4
