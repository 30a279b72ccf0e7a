-- ===== src/Store/Diff/Copies.antt =====
-- A copy that only agrees with the collection can follow its events, too.
use mathlib.Core.Option
use go_res.Base.{
  ℕ, zero, suc, Bool, true, Option, none, some, List, [], ◌∷◌, follow-eq-some, none-ne-some,
  eq_of_some, ◌≡◌, refl, sym, ◌⊎◌, inl, inr,
}
use mathlib.Core.Path.{subst}
use go_res.Store.Diff.{DiffEvent, remove_at, add_at}
use go_res.Store.Diff.Script.{
  delete_elem, insert_elem, receive, receive_all, Agree, agree_nil, agree_cons,
}

module _ {V : Type 0} (equal : V → V → Bool)
    (trans : (x y z : V) → equal x y ≡ true → equal y z ≡ true → equal x z ≡ true) where
  agree_trans :
      (x y z : V)
      → (x ≡ y) ⊎ (equal x y ≡ true)
      → (y ≡ z) ⊎ (equal y z ≡ true)
      → (x ≡ z) ⊎ (equal x z ≡ true)
  agree_trans x y z (inl p) q = subst (λ t. (t ≡ z) ⊎ (equal t z ≡ true)) (sym p) q
  agree_trans x y z (inr p) (inl q) = inr (rw (← q) p)
  agree_trans x y z (inr p) (inr q) = inr (trans x y z p q)

  pub Agree-trans : (xs ys zs : List V) → Agree equal xs ys → Agree equal ys zs → Agree equal xs zs
  Agree-trans xs ys zs agree_nil k = k
  Agree-trans (x ∷ xs) (y ∷ ys) [] (agree_cons h hs) k = elim k [ ]
  Agree-trans (x ∷ xs) (y ∷ ys) (z ∷ zs) (agree_cons h hs) (agree_cons k ks) =
      agree_cons (agree_trans x y z h k) (Agree-trans xs ys zs hs ks)

module _ {V : Type 0} (equal : V → V → Bool) where
  abbrev Copied : Option (List V) → List V → Type 0
  Copied o ys = (xs : List V) × (o ≡ some xs) × Agree equal xs ys

  map_cons-Copied :
      (x y : V) (o o' : Option (List V)) (zs : List V)
      → (x ≡ y) ⊎ (equal x y ≡ true)
      → ((ys : List V) → o' ≡ some ys → Copied o ys)
      → Option.map (λ ys. y ∷ ys) o' ≡ some zs
      → Copied (Option.map (λ ys. x ∷ ys) o) zs
  map_cons-Copied x y o none zs e h k = absurd (none-ne-some k)
  map_cons-Copied x y o (some ys) zs e h k =
      let (xs, p, a) = h ys refl in
      (x ∷ xs, rw p refl, subst (Agree equal (x ∷ xs)) (eq_of_some k) (agree_cons e a))

  delete_elem-Copied :
      (n : ℕ) (xs ys zs : List V)
      → Agree equal xs ys
      → delete_elem n ys ≡ some zs
      → Copied (delete_elem n xs) zs
  unfolding delete_elem
  delete_elem-Copied n [] [] zs agree_nil h = absurd (none-ne-some h)
  delete_elem-Copied n [] (y ∷ ys) zs a h = elim a [ ]
  delete_elem-Copied zero (x ∷ xs) [] zs a h = elim a [ ]
  delete_elem-Copied (suc n) (x ∷ xs) [] zs a h = elim a [ ]
  delete_elem-Copied zero (x ∷ xs) (y ∷ ys) zs (agree_cons e a) h =
      (xs, refl, subst (Agree equal xs) (eq_of_some h) a)
  delete_elem-Copied (suc n) (x ∷ xs) (y ∷ ys) zs (agree_cons e a) h =
      map_cons-Copied x y (delete_elem n xs) (delete_elem n ys) zs e
        (λ ws q. delete_elem-Copied n xs ys ws a q) h

  insert_elem-Copied :
      (v : V) (n : ℕ) (xs ys zs : List V)
      → Agree equal xs ys
      → insert_elem v n ys ≡ some zs
      → Copied (insert_elem v n xs) zs
  unfolding insert_elem
  insert_elem-Copied v zero xs ys zs a h =
      (v ∷ xs, refl, subst (Agree equal (v ∷ xs)) (eq_of_some h) (agree_cons (inl refl) a))
  insert_elem-Copied v (suc n) [] [] zs agree_nil h = absurd (none-ne-some h)
  insert_elem-Copied v (suc n) [] (y ∷ ys) zs a h = elim a [ ]
  insert_elem-Copied v (suc n) (x ∷ xs) [] zs a h = elim a [ ]
  insert_elem-Copied v (suc n) (x ∷ xs) (y ∷ ys) zs (agree_cons e a) h =
      map_cons-Copied x y (insert_elem v n xs) (insert_elem v n ys) zs e
        (λ ws q. insert_elem-Copied v n xs ys ws a q) h

  receive-Copied :
      (e : DiffEvent V) (xs ys zs : List V)
      → Agree equal xs ys
      → receive e ys ≡ some zs
      → Copied (receive e xs) zs
  unfolding receive
  receive-Copied (remove_at n) xs ys zs a h = delete_elem-Copied n xs ys zs a h
  receive-Copied (add_at v n) xs ys zs a h = insert_elem-Copied v n xs ys zs a h

  pub receive_all-Copied :
      (es : List (DiffEvent V)) (xs ys zs : List V)
      → Agree equal xs ys
      → receive_all es ys ≡ some zs
      → Copied (receive_all es xs) zs
  unfolding receive_all
  receive_all-Copied [] xs ys zs a h = (xs, refl, subst (Agree equal xs) (eq_of_some h) a)
  receive_all-Copied (e ∷ es) xs ys zs a h =
      let (ws, p, q) = follow-eq-some (receive e ys) (receive_all es) h in
      let (xs', p', a') = receive-Copied e xs ys ws a p in
      rw p' (receive_all-Copied es xs' ws zs a' q)
