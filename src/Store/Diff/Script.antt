-- ===== src/Store/Diff/Script.antt =====
-- What the events do to a copy of the collection, and the events for what is added.
use go_res.Base.{
  eq_of_some, follow, ℕ, zero, suc, ◌+◌, ◌-◌, length, length-append, get_elem?, drop, Bool, true,
  Option, none, some, List, [], ◌∷◌, ◌++◌, append_assoc, ok, ◌≡◌, refl, sym, ◌∙◌, ap, ◌⊎◌, inl, inr,
  arith,
}
use mathlib.Core.Option
use go_res.Store.Diff.Matrix.{at-get_elem?}
use go_res.Store.Diff.{DiffEvent, remove_at, add_at, Add, add_events}

-- A client takes an element out, or puts it in; `none` is an index out of range.
unfoldable pub delete_elem : {V : Type 0} → ℕ → List V → Option (List V)
delete_elem k [] = none
delete_elem zero (x ∷ xs) = some xs
delete_elem (suc k) (x ∷ xs) = Option.map (λ ys. x ∷ ys) (delete_elem k xs)

unfoldable pub insert_elem : {V : Type 0} → V → ℕ → List V → Option (List V)
insert_elem v zero xs = some (v ∷ xs)
insert_elem v (suc k) [] = none
insert_elem v (suc k) (x ∷ xs) = Option.map (λ ys. x ∷ ys) (insert_elem v k xs)

unfoldable pub receive : {V : Type 0} → DiffEvent V → List V → Option (List V)
unfolding delete_elem insert_elem
receive (remove_at k) xs = delete_elem k xs
receive (add_at v k) xs = insert_elem v k xs

unfoldable pub receive_all : {V : Type 0} → List (DiffEvent V) → List V → Option (List V)
unfolding receive
receive_all [] xs = some xs
receive_all (e ∷ es) xs = follow (receive e xs) (receive_all es)

module _ {V : Type 0} where
  pub delete_elem-append :
      (k : ℕ) (xs : List V) (x : V) (ys : List V)
      → k ≡ length xs
      → delete_elem k (xs ++ x ∷ ys) ≡ some (xs ++ ys)
  unfolding delete_elem
  delete_elem-append zero [] x ys h = refl
  delete_elem-append (suc k) [] x ys h = absurd (omega (arith, h))
  delete_elem-append zero (z ∷ xs) x ys h = absurd (omega (arith, h))
  delete_elem-append (suc k) (z ∷ xs) x ys h =
      rw (delete_elem-append k xs x ys (omega (arith, h))) refl

  insert_elem-append :
      (k : ℕ) (xs : List V) (v : V) (ys : List V)
      → k ≡ length xs
      → insert_elem v k (xs ++ ys) ≡ some (xs ++ v ∷ ys)
  unfolding insert_elem
  insert_elem-append zero [] v ys h = refl
  insert_elem-append (suc k) [] v ys h = absurd (omega (arith, h))
  insert_elem-append zero (z ∷ xs) v ys h = absurd (omega (arith, h))
  insert_elem-append (suc k) (z ∷ xs) v ys h =
      rw (insert_elem-append k xs v ys (omega (arith, h))) refl

  pub receive_all-append :
      (es fs : List (DiffEvent V)) (xs ys : List V)
      → receive_all es xs ≡ some ys
      → receive_all (es ++ fs) xs ≡ receive_all fs ys
  unfolding receive_all
  receive_all-append [] fs xs ys h = ap (receive_all fs) (eq_of_some h)
  receive_all-append (e ∷ es) fs xs ys h =
      at_event (λ zs q. receive_all-append es fs zs ys q) (receive e xs) h
    where
      at_event :
          ((zs : List V)
            → receive_all es zs ≡ some ys
            → receive_all (es ++ fs) zs ≡ receive_all fs ys)
          → (o : Option (List V)) → follow o (receive_all es) ≡ some ys
          → follow o (receive_all (es ++ fs)) ≡ receive_all fs ys
      at_event later none q = cc
      at_event later (some zs) q = later zs q

module _ {V : Type 0} (equal : V → V → Bool) where
  -- Two lists agree: each element is the other's, or equal to it.
  pub data Agree : List V → List V → Type 0 where
    agree_nil : Agree [] []
    agree_cons :
        {x y : V} {xs ys : List V}
        → (x ≡ y) ⊎ (equal x y ≡ true)
        → Agree xs ys
        → Agree (x ∷ xs) (y ∷ ys)

  pub Agree-append :
      (xs ys zs ws : List V) → Agree xs ys → Agree zs ws → Agree (xs ++ zs) (ys ++ ws)
  Agree-append [] [] zs ws h k = k
  Agree-append [] (y ∷ ys) zs ws h k = no_cons h
    where
      no_cons : Agree [] (y ∷ ys) → Agree zs (y ∷ (ys ++ ws))
      no_cons p = elim p [ ]
  Agree-append (x ∷ xs) ys zs ws (agree_cons e h) k = agree_cons e (Agree-append xs _ zs ws h k)

  -- How the elements of `bb` from the index `j` on come from `kept`, what is left of the collection,
  -- and from the additions; the result is the list `now`.
  pub data Script (bb : List V) : ℕ → List V → List Add → List V → Type 0 where
    script_end : Script bb (length bb) [] [] []
    script_keep :
        {j : ℕ} {kept now : List V} {adds : List Add} {x y : V}
        → Script bb (suc j) kept adds now
        → get_elem? bb j ≡ some y
        → equal x y ≡ true
        → Script bb j (x ∷ kept) adds (x ∷ now)
    script_add :
        {j : ℕ} {kept now : List V} {adds : List Add} {y : V} {add : Add}
        → Script bb (suc j) kept adds now
        → get_elem? bb j ≡ some y
        → add.n ≡ j
        → Script bb j kept (add ∷ adds) (y ∷ now)

  drop-get_elem? :
      (j : ℕ) (bb : List V) (y : V) → get_elem? bb j ≡ some y → drop j bb ≡ y ∷ drop (suc j) bb
  drop-get_elem? j [] y h = cc
  drop-get_elem? zero (x ∷ bb) y h = ap (λ z. z ∷ bb) (eq_of_some h)
  drop-get_elem? (suc j) (x ∷ bb) y h = drop-get_elem? j bb y h

  drop-length : (bb : List V) → drop (length bb) bb ≡ []
  drop-length [] = refl
  drop-length (x ∷ bb) = drop-length bb

  pub Script-Agree :
      (bb : List V) {j : ℕ} {kept now : List V} {adds : List Add}
      → Script bb j kept adds now
      → Agree now (drop j bb)
  Script-Agree bb script_end = rw (drop-length bb) agree_nil
  Script-Agree bb (script_keep {j} {y} s h e) =
      rw (drop-get_elem? j bb y h) (agree_cons (inr e) (Script-Agree bb s))
  Script-Agree bb (script_add {j} {y} s h e) =
      rw (drop-get_elem? j bb y h) (agree_cons (inl refl) (Script-Agree bb s))

  -- Of the additions from the k-th on: where each comes to stand, if `j` more are to come and
  -- `total` counts the removals with those elements that may still be removed.
  abbrev pub Placed : ℕ → ℕ → ℕ → ℕ → List Add → Type 0
  Placed s total j k [] = Unit
  Placed s total j k (add ∷ adds) =
      (add.idx + add.rems + k + j ≡ s + add.n + total) × Placed s total j (k + 1) adds

  abbrev Added : (bb : List V) (s rems k j : ℕ) (kept now : List V) (adds : List Add) → Type 0
  Added bb s rems k j kept now adds =
      (es : List (DiffEvent V)) × (add_events equal bb rems k adds ≡ ok es)
      × ((xs suf : List V)
          → length xs ≡ s + j
          → receive_all es (xs ++ (kept ++ suf)) ≡ some (xs ++ (now ++ suf)))

  pub Script-Added :
      (bb : List V) (s rems k : ℕ) {j : ℕ} {kept now : List V} {adds : List Add}
      → Script bb j kept adds now
      → Placed s rems 0 k adds
      → Added bb s rems k j kept now adds
  unfolding add_events receive_all receive
  Script-Added bb s rems k script_end p = ([], refl, λ xs suf h. refl)
  Script-Added bb s rems k (script_keep {kept} {now} {x} r h e) p =
      let (es, f, run) = Script-Added bb s rems k r p in
      (
        es,
        f,
        λ xs suf l.
            rw (append_assoc xs (x ∷ []) (kept ++ suf), append_assoc xs (x ∷ []) (now ++ suf)) at
              (run (xs ++ x ∷ []) suf (omega (arith, l, length-append xs (x ∷ [])))),
      )
  Script-Added bb s rems k (script_add {j} {kept} {now} {y} {add} r h e) (here, p) =
      let (es, f, run) = Script-Added bb s rems (k + 1) r p in
      let index : (add.idx + add.rems + k) - rems ≡ s + j = omega (arith, here, e) in
      (
        add_at y ((add.idx + add.rems + k) - rems) ∷ es,
        rw (e, at-get_elem? bb j y h, f) refl,
        λ xs suf l.
            rw
              (insert_elem-append ((add.idx + add.rems + k) - rems) xs y (kept ++ suf)
                (index ∙ sym l))
              (rw (append_assoc xs (y ∷ []) (kept ++ suf), append_assoc xs (y ∷ []) (now ++ suf)) at
                (run (xs ++ y ∷ []) suf (omega (arith, l, length-append xs (y ∷ []))))),
      )
