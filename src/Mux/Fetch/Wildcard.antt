-- ===== src/Mux/Fetch/Wildcard.antt =====
-- A pattern with a part * cannot be registered: `fetch` takes a lone * for an invalid tag.
use go_res.Base.{
  ℕ, ◌+◌, ◌-◌, if◌then◌else◌, str_eq, eq_of_str_eq, any, Bytes, Bool, true, false, or-eq-true, none,
  List, [], ◌∷◌, ◌≡◌, ◌≢◌, refl, inl, inr, ok, panic, >>=-eq-ok, require, invalid_pattern,
}
use go_res.Parts.{split_pattern}
use go_res.Pattern.Valid.{is_nil, is_valid, pwild}
use go_res.Mux.Tree.{PathParam, Node, child, mounted}
use go_res.Mux.Fetch.{Change, token_slot, token_params, next_node, fetch_from, fetch, register, add}

abbrev pub is_star : Bytes → Bool
is_star t = str_eq t (pwild ∷ [])

token_slot-star : (last : Bool) → token_slot (pwild ∷ []) last ≡ panic invalid_pattern
unfolding token_slot
token_slot-star last = refl

module _ {A L : Type 0} where
  fetch_from-star :
      (change : Change A L) (same : Bool) (i mi : ℕ) (ps : List PathParam) (toks : List Bytes)
      (l l' : Node A L)
      → any is_star toks ≡ true
      → fetch_from none change same i mi ps toks l ≢ ok l'
  unfolding fetch_from
  fetch_from-star change same i mi ps [] l l' h e = cc
  fetch_from-star change same i mi ps (t ∷ toks) l l' h e =
      let (s, e1, h1) = >>=-eq-ok (token_slot t (is_nil toks)) _ e in
      elim (or-eq-true (is_star t) (any is_star toks) h) [
        | inl star ↦
            let z : panic invalid_pattern ≡ ok s =
              rw (eq_of_str_eq t (pwild ∷ []) star, token_slot-star) at e1 in
            cc
        | inr later ↦
            let (ps', e2, h2) =
              >>=-eq-ok (token_params t (i - (if mounted l then i else mi)) ps) _ h1 in
            let (next, e3, h3) = >>=-eq-ok (next_node none (is_nil toks) s (child s l)) _ h2 in
            let (n, e4, h4) =
              >>=-eq-ok
                (fetch_from none change next.0 (i + 1) (if mounted l then i else mi) ps' toks
                  next.1)
                _ h3 in
            fetch_from-star change next.0 (i + 1) (if mounted l then i else mi) ps' toks next.1 n
              later e4
      ]

  -- No pattern with a part * can be registered, be it a valid one: the call panics.
  pub add-star :
      (pattern : Bytes) (h : A) (ls : List (Bytes × L)) (root root' : Node A L)
      → any is_star (split_pattern pattern) ≡ true
      → add pattern h ls root ≢ ok root'
  unfolding add fetch
  add-star pattern h ls root root' star e =
      let (u, e1, e2) = >>=-eq-ok (require (is_valid pattern) invalid_pattern) _ e in
      let (r, e3, e4) =
        >>=-eq-ok (fetch_from none (register pattern h) false 0 0 [] (split_pattern pattern) root) _
          e2 in
      fetch_from-star (register pattern h) false 0 0 [] (split_pattern pattern) root r star e3
