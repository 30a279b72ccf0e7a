-- ===== src/Store/Diff/Right.antt =====
-- The events of `collectionDiff` turn the collection before into the one after.
use mathlib.Core.Path.{subst}
use go_res.Base.{
  replicate, length-replicate, by_test, append-nil, ℕ, ◌+◌, ◌*◌, if◌then◌else◌, length, Bool, true,
  false, ◌&&◌, some, List, [], ◌∷◌, ◌++◌, append_assoc, Result, ok, ◌≡◌, refl, sym, ◌∙◌, ap, inr,
  arith, and-eq-true,
}
use go_res.Pattern.Valid.{is_nil}
use go_res.Store.Diff.{DiffEvent, Walker, reverse, common, middle_events, collection_diff}
use go_res.Store.Diff.Matrix.{fill-ok}
use go_res.Store.Diff.Script.{
  receive_all, receive_all-append, Agree, agree_nil, agree_cons, Agree-append, Script, script_end,
  Script-Agree, Script-Added,
}
use go_res.Store.Diff.Walk.{Placed-shift, length-reverse, Inv, continue-Ends}

module _ {V : Type 0} where
  reverse-append : (xs ys : List V) → reverse (xs ++ ys) ≡ reverse ys ++ reverse xs
  reverse-append [] ys = sym (append-nil (reverse ys))
  reverse-append (x ∷ xs) ys =
      ap (λ (z : List V). z ++ x ∷ []) (reverse-append xs ys)
      ∙ append_assoc (reverse ys) (reverse xs) (x ∷ [])

  reverse-reverse : (xs : List V) → reverse (reverse xs) ≡ xs
  reverse-reverse [] = refl
  reverse-reverse (x ∷ xs) =
      reverse-append (reverse xs) (x ∷ []) ∙ ap (λ (z : List V). x ∷ z) (reverse-reverse xs)

  -- A list whose reverse is split.
  reverse-split : (xs p u : List V) → reverse xs ≡ p ++ u → xs ≡ reverse u ++ reverse p
  reverse-split xs p u e = sym (reverse-reverse xs) ∙ (ap reverse e ∙ reverse-append p u)

module _ {V : Type 0} (equal : V → V → Bool) where
  Agree-reverse : (xs ys : List V) → Agree equal xs ys → Agree equal (reverse xs) (reverse ys)
  Agree-reverse _ _ agree_nil = agree_nil
  Agree-reverse (x ∷ xs) (y ∷ ys) (agree_cons e h) =
      Agree-append equal (reverse xs) (reverse ys) (x ∷ []) (y ∷ []) (Agree-reverse xs ys h)
        (agree_cons e agree_nil)

  record Splits (a b : List V) (t : ℕ × List V × List V) : Type 0 where
    p : List V
    q : List V
    left : a ≡ p ++ t.1
    right : b ≡ q ++ t.2
    count : length p ≡ t.0
    agree : Agree equal p q

  common-Splits : (a b : List V) → Splits a b (common equal a b)
  unfolding common
  common-Splits [] b = record {
    p = [];
    q = [];
    left = refl;
    right = refl;
    count = refl;
    agree = agree_nil;
  }
  common-Splits (x ∷ a) [] = record {
    p = [];
    q = [];
    left = refl;
    right = refl;
    count = refl;
    agree = agree_nil;
  }
  common-Splits (x ∷ a) (y ∷ b) = by_equal (common-Splits a b) (equal x y) refl
    where
      by_equal :
          Splits a b (common equal a b)
          → (e : Bool) → equal x y ≡ e
          → Splits (x ∷ a) (y ∷ b) (
              if e
              then ((common equal a b).0 + 1, (common equal a b).1, (common equal a b).2)
              else (0, x ∷ a, y ∷ b))
      by_equal h true e = record {
        p = x ∷ h.p;
        q = y ∷ h.q;
        left = ap (λ (z : List V). x ∷ z) h.left;
        right = ap (λ (z : List V). y ∷ z) h.right;
        count = omega (arith, h.count);
        agree = agree_cons (inr e) h.agree;
      }
      by_equal h false e = record {
        p = [];
        q = [];
        left = refl;
        right = refl;
        count = refl;
        agree = agree_nil;
      }

  middle_events-receive_all :
      (orig pre suf ra rb : List V)
      → orig ≡ pre ++ (reverse ra ++ suf)
      → (es : List (DiffEvent V)) × (now : List V) × (middle_events equal (length pre) ra rb
          ≡ ok es)
        × (receive_all es orig ≡ some (pre ++ (now ++ suf)))
        × Agree equal now (reverse rb)
  unfolding middle_events receive_all
  middle_events-receive_all orig pre suf ra rb h =
      let bb = reverse rb in
      let m = length ra in
      let w = m + 1 in
      let s0 : Walker V = record {
        ra = ra;
        rb = rb;
        idx = m + length pre;
        rems = 0;
        adds = [];
        removes = [];
      } in
      let la = length-reverse ra in
      let lb = length-reverse rb in
      let lz : length (replicate {A = ℕ} (w * (length rb + 1)) 0) ≡ w * (length bb + 1) =
        length-replicate (w * (length rb + 1)) 0 ∙ ap (λ (n : ℕ). w * (n + 1)) (sym lb) in
      let (c, e1, lc) =
        fill-ok equal w 0 (reverse ra) bb (replicate (w * (length rb + 1)) 0) (omega (arith, la))
          lz in
      let start : Inv equal orig pre suf bb s0 ra rb [] [] = record {
        script = subst (λ n. Script equal bb n [] [] []) lb script_end;
        index = omega arith;
        placed = tt;
        rest = [];
        front = sym (append-nil bb);
        run = ap some h;
      } in
      let (d, kept, now, e2, i) =
        continue-Ends equal orig pre suf bb w c (m + length rb) s0 ra rb [] [] refl refl
          (omega arith) (omega arith) (omega (arith, lb)) (lc ∙ lz) start in
      let (es, e3, run) = Script-Added equal bb (length pre) d.rems 0 i.script (
        Placed-shift equal (length pre) (0 + d.rems) 0 0 d.rems 0 0 d.adds (omega arith)
          i.placed) in
      (
        d.removes ++ es,
        now,
        rw (e1, e2, e3) refl,
        receive_all-append d.removes es orig (pre ++ (kept ++ suf)) i.run
            ∙ run pre suf (omega arith),
        Script-Agree equal bb i.script,
      )

  nil_of : (xs : List V) → is_nil xs ≡ true → xs ≡ []
  nil_of [] h = refl
  nil_of (x ∷ xs) h = cc

  abbrev pub TurnsInto : List V → List V → Result (List (DiffEvent V)) → Type 0
  TurnsInto a b r =
      (es : List (DiffEvent V)) × (a' : List V) × (r ≡ ok es)
      × (receive_all es a ≡ some a')
      × Agree equal a' b

  same-TurnsInto :
      (a b : List V)
      → (let t = common equal a b in is_nil t.1 && is_nil t.2 ≡ true)
      → TurnsInto a b (ok [])
  unfolding receive_all
  same-TurnsInto a b h =
      let s = common-Splits a b in
      let t = common equal a b in
      let (ha, hb) = and-eq-true (is_nil t.1) (is_nil t.2) h in
      let ea : a ≡ s.p =
        s.left ∙ (ap (λ (z : List V). s.p ++ z) (nil_of t.1 ha) ∙ append-nil s.p) in
      let eb : b ≡ s.q =
        s.right ∙ (ap (λ (z : List V). s.q ++ z) (nil_of t.2 hb) ∙ append-nil s.q) in
      (
        [],
        a,
        refl,
        refl,
        subst (λ z. Agree equal a z) (sym eb) (subst (λ z. Agree equal z s.q) (sym ea) s.agree),
      )

  middle-TurnsInto :
      (a b : List V)
      → let t = common equal a b in
        let u = common equal (reverse t.1) (reverse t.2) in
        TurnsInto a b (middle_events equal t.0 u.1 u.2)
  middle-TurnsInto a b =
      let t = common equal a b in
      let u = common equal (reverse t.1) (reverse t.2) in
      let s = common-Splits a b in
      let r = common-Splits (reverse t.1) (reverse t.2) in
      let ea : a ≡ s.p ++ (reverse u.1 ++ reverse r.p) =
        s.left ∙ ap (λ (z : List V). s.p ++ z) (reverse-split t.1 r.p u.1 r.left) in
      let eb : b ≡ s.q ++ (reverse u.2 ++ reverse r.q) =
        s.right ∙ ap (λ (z : List V). s.q ++ z) (reverse-split t.2 r.q u.2 r.right) in
      let (es, now, e, run, agree) = middle_events-receive_all a s.p (reverse r.p) u.1 u.2 ea in
      (
        es,
        s.p ++ (now ++ reverse r.p),
        ap (λ (k : ℕ). middle_events equal k u.1 u.2) (sym s.count) ∙ e,
        run,
        subst (Agree equal (s.p ++ (now ++ reverse r.p))) (sym eb) (
            Agree-append equal s.p s.q _ _ s.agree
              (Agree-append equal now (reverse u.2) _ _ agree (Agree-reverse r.p r.q r.agree))),
      )

  -- `collectionDiff` always returns, with no index out of range, and a client that does what its
  -- events say, one after the other, can do so, and ends with a copy that agrees with the collection
  -- after: each element is the one after, or one that is equal to it.
  pub collection_diff-receive_all :
      (a b : List V)
      → (es : List (DiffEvent V)) × (a' : List V) × (collection_diff equal a b ≡ ok es)
        × (receive_all es a ≡ some a')
        × Agree equal a' b
  unfolding collection_diff
  collection_diff-receive_all a b =
      let t = common equal a b in
      by_test (TurnsInto a b) (is_nil t.1 && is_nil t.2) {x = ok []}
        {y = middle_events equal t.0 (common equal (reverse t.1) (reverse t.2)).1
          (common equal (reverse t.1) (reverse t.2)).2}
        (same-TurnsInto a b) (λ h. middle-TurnsInto a b)
