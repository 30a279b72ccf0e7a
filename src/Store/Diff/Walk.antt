-- ===== src/Store/Diff/Walk.antt =====
-- The loop of `collectionDiff` takes every element, and keeps its copy in step.
use mathlib.Core.Path.{subst}
use go_res.Base.{
  ap₂, ℕ, zero, suc, ◌+◌, ◌-◌, ◌*◌, ◌≤◌, ◌<◌, length, length-append, get_elem?, Bool, true, none,
  some, List, [], ◌∷◌, ◌++◌, append_assoc, ok, ◌≡◌, refl, sym, ◌∙◌, ap, Bool-cases, inl, inr, arith,
}
use go_res.Store.Diff.{remove_at, Add, Walker, reverse, add_step, remove_step, walk_step, continue}
use go_res.Store.Diff.Matrix.{prefers_add-ok}
use go_res.Store.Diff.Script.{
  receive_all, receive, delete_elem-append, receive_all-append, Script, script_keep, script_add,
  Placed,
}

module _ {V : Type 0} where
  pub length-reverse : (xs : List V) → length (reverse xs) ≡ length xs
  length-reverse [] = refl
  length-reverse (x ∷ xs) = omega (arith, length-append (reverse xs) (x ∷ []), length-reverse xs)

  get_elem?-behind :
      (k : ℕ) (xs : List V) (y : V) (zs : List V)
      → k ≡ length xs
      → get_elem? (xs ++ y ∷ zs) k ≡ some y
  get_elem?-behind zero [] y zs h = refl
  get_elem?-behind (suc k) [] y zs h = absurd (omega (arith, h))
  get_elem?-behind zero (x ∷ xs) y zs h = absurd (omega (arith, h))
  get_elem?-behind (suc k) (x ∷ xs) y zs h = get_elem?-behind k xs y zs (omega (arith, h))

module _ {V : Type 0} (equal : V → V → Bool) where
  pub Placed-shift :
      (s total j k total' j' k' : ℕ) (adds : List Add)
      → (k + j) + total' ≡ (k' + j') + total
      → Placed equal s total j k adds
      → Placed equal s total' j' k' adds
  Placed-shift s total j k total' j' k' [] h p = tt
  Placed-shift s total j k total' j' k' (add ∷ adds) h (here, p) = (
    omega (arith, h, here),
    Placed-shift s total j (k + 1) total' j' (k' + 1) adds (omega (arith, h)) p,
  )

module _ {V : Type 0} (equal : V → V → Bool) (orig pre suf bb : List V) where
  -- `ra` and `rb` are what is left, `kept` and `now` what came of the elements behind.
  pub record Inv (s : Walker V) (ra rb kept now : List V) : Type 0 where
    pub script : Script equal bb (length rb) kept s.adds now
    pub index : s.idx ≡ length pre + length ra
    pub placed : Placed equal (length pre) (length ra + s.rems) (length rb) 0 s.adds
    pub rest : List V
    pub front : bb ≡ reverse rb ++ rest
    pub run : receive_all s.removes orig ≡ some (pre ++ (reverse ra ++ (kept ++ suf)))

  reverse-front :
      (rb rest : List V) (y : V) → bb ≡ reverse (y ∷ rb) ++ rest → bb ≡ reverse rb ++ (y ∷ rest)
  reverse-front rb rest y e = e ∙ append_assoc (reverse rb) (y ∷ []) rest

  last_elem :
      (rb rest : List V) (y : V) → bb ≡ reverse rb ++ (y ∷ rest) → get_elem? bb (length rb) ≡ some y
  last_elem rb rest y e =
      subst (λ z. get_elem? z (length rb) ≡ some y) (sym e)
        (get_elem?-behind (length rb) (reverse rb) y rest (sym (length-reverse rb)))

  keep-Inv :
      (s : Walker V) (ra rb kept now : List V) (x y : V)
      → equal x y ≡ true
      → Inv s (x ∷ ra) (y ∷ rb) kept now
      → Inv (record s { ra = ra; rb = rb; idx = s.idx - 1 }) ra rb (x ∷ kept) (x ∷ now)
  keep-Inv s ra rb kept now x y e i =
      let f = reverse-front rb i.rest y i.front in
      record {
        script = script_keep i.script (last_elem rb i.rest y f) e;
        index = omega (arith, i.index);
        placed =
            Placed-shift equal (length pre) (length (x ∷ ra) + s.rems) (length (y ∷ rb)) 0
              (length ra + s.rems) (length rb) 0 s.adds (omega arith) i.placed;
        rest = y ∷ i.rest;
        front = f;
        run =
            i.run
            ∙ ap (λ (z : List V). some (pre ++ z))
                (append_assoc (reverse ra) (x ∷ []) (kept ++ suf));
      }

  add_step-Inv :
      (s : Walker V) (ra rb kept now : List V) (y : V)
      → Inv s ra (y ∷ rb) kept now
      → Inv (add_step equal s rb) ra rb kept (y ∷ now)
  unfolding add_step
  add_step-Inv s ra rb kept now y i =
      let f = reverse-front rb i.rest y i.front in
      record {
        script = script_add i.script (last_elem rb i.rest y f) refl;
        index = i.index;
        placed = (
          omega (arith, i.index),
          Placed-shift equal (length pre) (length ra + s.rems) (length (y ∷ rb)) 0
              (length ra + s.rems) (length rb) 1 s.adds (omega arith) i.placed,
        );
        rest = y ∷ i.rest;
        front = f;
        run = i.run;
      }

  remove_step-Inv :
      (s : Walker V) (ra rb kept now : List V) (x : V)
      → Inv s (x ∷ ra) rb kept now
      → Inv (remove_step equal s ra) ra rb kept now
  unfolding remove_step receive_all receive
  remove_step-Inv s ra rb kept now x i = record {
    script = i.script;
    index = omega (arith, i.index);
    placed =
        Placed-shift equal (length pre) (length (x ∷ ra) + s.rems) (length rb) 0
          (length ra + (s.rems + 1)) (length rb) 0 s.adds (omega arith) i.placed;
    rest = i.rest;
    front = i.front;
    run =
        receive_all-append s.removes (remove_at (s.idx - 1) ∷ []) orig
          (pre ++ (reverse (x ∷ ra) ++ (kept ++ suf))) i.run
        ∙ taken;
  }
    where
      taken :
          receive_all (remove_at (s.idx - 1) ∷ []) (pre ++ (reverse (x ∷ ra) ++ (kept ++ suf)))
          ≡ some (pre ++ (reverse ra ++ (kept ++ suf)))
      taken =
          rw
            (
              append_assoc (reverse ra) (x ∷ []) (kept ++ suf),
              ← append_assoc pre (reverse ra) (x ∷ (kept ++ suf)),
              delete_elem-append (s.idx - 1) (pre ++ reverse ra) x (kept ++ suf)
                  (omega (arith, i.index, length-append pre (reverse ra), length-reverse ra)),
              append_assoc pre (reverse ra) (kept ++ suf),
            )
            refl

  module _ (w : ℕ) (c : List ℕ) where
    continue-step :
        (f : ℕ) (s s' : Walker V) (ra rb : List V)
        → s.ra ≡ ra
        → s.rb ≡ rb
        → walk_step equal w c s ra rb ≡ ok (some s')
        → continue equal (suc f) w c s ≡ continue equal f w c s'
    unfolding continue
    continue-step f s s' ra rb ea eb h =
        let e : walk_step equal w c s s.ra s.rb ≡ ok (some s') =
          ap₂ (walk_step equal w c s) ea eb ∙ h in
        rw e refl

    -- The loop ends with both lists taken.
    abbrev pub Ends : ℕ → Walker V → Type 0
    Ends f s =
        (d : Walker V) × (kept : List V) × (now : List V) × (continue equal f w c s ≡ ok d)
        × Inv d [] [] kept now

    step-Ends :
        (f : ℕ) (s s' : Walker V) (ra rb : List V)
        → s.ra ≡ ra
        → s.rb ≡ rb
        → walk_step equal w c s ra rb ≡ ok (some s')
        → Ends f s'
        → Ends (suc f) s
    step-Ends f s s' ra rb ea eb h (d, kept, now, e, i) =
        (d, kept, now, continue-step f s s' ra rb ea eb h ∙ e, i)

    pub continue-Ends :
        (f : ℕ) (s : Walker V) (ra rb kept now : List V)
        → s.ra ≡ ra
        → s.rb ≡ rb
        → length ra + length rb ≤ f
        → length ra < w
        → length rb ≤ length bb
        → length c ≡ w * (length bb + 1)
        → Inv s ra rb kept now
        → Ends f s
    unfolding continue walk_step
    continue-Ends zero s [] [] kept now ea eb h k l m i = (s, kept, now, refl, i)
    continue-Ends zero s (x ∷ ra) rb kept now ea eb h k l m i = absurd (omega (arith, h))
    continue-Ends zero s [] (y ∷ rb) kept now ea eb h k l m i = absurd (omega (arith, h))
    continue-Ends (suc f) s [] [] kept now ea eb h k l m i =
        let e : walk_step equal w c s s.ra s.rb ≡ ok none = ap₂ (walk_step equal w c s) ea eb in
        (s, kept, now, rw e refl, i)
    continue-Ends (suc f) s [] (y ∷ rb) kept now ea eb h k l m i =
        step-Ends f s (add_step equal s rb) [] (y ∷ rb) ea eb refl (
          continue-Ends f (add_step equal s rb) [] rb kept (y ∷ now) ea refl (omega (arith, h)) k
            (omega (arith, l)) m (add_step-Inv s [] rb kept now y i))
    continue-Ends (suc f) s (x ∷ ra) [] kept now ea eb h k l m i =
        step-Ends f s (remove_step equal s ra) (x ∷ ra) [] ea eb refl (
          continue-Ends f (remove_step equal s ra) ra [] kept now refl eb (omega (arith, h))
            (omega (arith, k)) l m (remove_step-Inv s ra [] kept now x i))
    continue-Ends (suc f) s (x ∷ ra) (y ∷ rb) kept now ea eb h k l m i =
        elim (Bool-cases (equal x y)) [
          | inl e ↦
              step-Ends f s (record s { ra = ra; rb = rb; idx = s.idx - 1 }) (x ∷ ra) (y ∷ rb) ea eb
                (rw e refl)
                (continue-Ends f (record s { ra = ra; rb = rb; idx = s.idx - 1 }) ra rb (x ∷ kept)
                  (x ∷ now) refl refl (omega (arith, h)) (omega (arith, k)) (omega (arith, l)) m
                  (keep-Inv s ra rb kept now x y e i))
          | inr e ↦
              let (b, p) = prefers_add-ok equal w (length bb) (length ra) (length rb) c k l m in
              elim (Bool-cases b) [
                | inl t ↦
                    step-Ends f s (add_step equal s rb) (x ∷ ra) (y ∷ rb) ea eb (rw (e, p, t) refl)
                      (continue-Ends f (add_step equal s rb) (x ∷ ra) rb kept (y ∷ now) ea refl
                        (omega (arith, h)) k (omega (arith, l)) m
                        (add_step-Inv s (x ∷ ra) rb kept now y i))
                | inr t ↦
                    step-Ends f s (remove_step equal s ra) (x ∷ ra) (y ∷ rb) ea eb
                      (rw (e, p, t) refl)
                      (continue-Ends f (remove_step equal s ra) ra (y ∷ rb) kept now refl eb
                        (omega (arith, h)) (omega (arith, k)) l m
                        (remove_step-Inv s ra (y ∷ rb) kept now x i))
              ]
        ]
