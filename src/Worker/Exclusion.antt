-- ===== src/Worker/Exclusion.antt =====
-- No two workers run callbacks with one identifier at a time.
use mathlib.Core.Path.{subst}
use go_res.Base.{
  by_test, ◌++◌, none-ne-some, ℕ, zero, suc, ◌+◌, ◌≤◌, if◌then◌else◌, ◌==◌, ==_iff, str_eq,
  str_eq_refl, eq_of_str_eq, length, length-append, get_elem?, Bytes, true, false, Bool-cases,
  eq_of_some, Option, none, some, List, [], ◌∷◌, ◌≡◌, ◌≢◌, refl, sym, ◌∙◌, ap, arith, inl, inr,
}
use go_res.Params.{lookup}
use go_res.Pattern.Valid.{is_nil}
use go_res.Worker.{
  initial, Work, Worker, idle, exited, running, Phase, started, stopping, State, is_started,
  call_run_with, set, or_nil, delete, append_callback, enqueue_new, enqueue_at, enqueue, proceed,
  process_at, process_queue, close,
}
use go_res.Worker.Step.{
  Step, call, run_with, take, returned, start, shutdown, closing, exit, Reach, here, next,
}
use go_res.Worker.Lists.{
  one_if, count, weight, count_running, count-append, count_running-set, weight-le, two_running,
  lookup-delete, get_elem?-append_one, length-update, wid-update,
}

module _ {C : Type 0} where
  -- How often the work is queued or run.
  abbrev pub active : State C → ℕ → ℕ
  active s p = count p (or_nil s.workqueue) + count_running p s.workers

  -- A work is queued or run at most once, and is the entry of its identifier while it is.
  pub record IsValid (s : State C) : Type 0 where
    pub once : (p : ℕ) → active s p ≤ 1
    pub bounded : (p : ℕ) → length s.heap ≤ p → active s p ≡ 0
    pub mapped :
        (p : ℕ) (w : Work C)
        → get_elem? s.heap p ≡ some w
        → 1 ≤ active s p
        → is_nil w.wid ≡ false
        → lookup w.wid s.rwork ≡ some p

  enqueue_some-IsValid :
      (wid : Bytes) (cb : C) (s : State C) (p : ℕ)
      → IsValid s
      → IsValid (enqueue_at wid cb s (some p))
  unfolding enqueue_at
  enqueue_some-IsValid wid cb s p v = record {
    once = v.once;
    bounded = λ q h. v.bounded q (rw (length-update s.heap p (append_callback cb)) at h);
    mapped = λ q w h k n.
        let (u, e, d) = wid-update s.heap p q cb w h in
        subst (λ x. lookup x s.rwork ≡ some q) d (v.mapped q u e k (rw (← d) at n));
  }

  enqueue_new-IsValid :
      (wid : Bytes) (cb : C) (s : State C)
      → IsValid s
      → (is_nil wid ≡ false → lookup wid s.rwork ≡ none)
      → IsValid (enqueue_new wid cb s)
  unfolding enqueue_new lookup
  enqueue_new-IsValid wid cb s v fresh = record {
    once = λ p.
        ground (arith, count-append p (length s.heap) (or_nil s.workqueue), v.once p, v.bounded p);
    bounded = λ p h.
        let more : length s.heap + 1 ≤ p =
          rw (length-append s.heap (record { wid = wid; queue = cb ∷ [] } ∷ [])) at h in
        ground (arith, count-append p (length s.heap) (or_nil s.workqueue), v.bounded p);
    mapped = λ p w h k n. elim (Bool-cases (p == length s.heap)) [
      | inl e ↦
          new_entry p w e
            (rw (get_elem?-append_one s.heap (record { wid = wid; queue = cb ∷ [] }) p, e) at h) n
      | inr e ↦
          old_entry p w e
            (rw (get_elem?-append_one s.heap (record { wid = wid; queue = cb ∷ [] }) p, e) at h) k n
    ];
  }
    where
      added : List (Bytes × ℕ)
      added = if is_nil wid then s.rwork else (wid, length s.heap) ∷ s.rwork

      new_entry :
          (p : ℕ) (w : Work C)
          → (p == length s.heap) ≡ true
          → some (record { wid = wid; queue = cb ∷ [] }) ≡ some w
          → is_nil w.wid ≡ false
          → lookup w.wid added ≡ some p
      new_entry p w e h n =
          let d = ap (λ (x : Work C). x.wid) (eq_of_some h) in
          let n' : is_nil wid ≡ false = subst (λ x. is_nil x ≡ false) (sym d) n in
          rw (← d, n', str_eq_refl wid) (ap some (sym ((==_iff p (length s.heap)).0 e)))

      old_entry :
          (p : ℕ) (w : Work C)
          → (p == length s.heap) ≡ false
          → get_elem? s.heap p ≡ some w
          → 1 ≤ active (enqueue_new wid cb s) p
          → is_nil w.wid ≡ false
          → lookup w.wid added ≡ some p
      old_entry p w e h k n =
          let old =
            v.mapped p w h
              (ground (
                arith,
                count-append p (length s.heap) (or_nil s.workqueue),
                ==_iff p (length s.heap),
              ))
              n in
          elim (Bool-cases (is_nil wid)) [
            | inl z ↦ rw z old
            | inr z ↦ elim (Bool-cases (str_eq wid w.wid)) [
              | inl y ↦ absurd (
                  none-ne-some (
                    sym (fresh z)
                    ∙ subst (λ x. lookup x s.rwork ≡ some p) (sym (eq_of_str_eq wid w.wid y)) old))
              | inr y ↦ rw (z, y) old
            ]
          ]

  pub enqueue-IsValid :
      (wid : Bytes) (cb : C) (s : State C) → IsValid s → IsValid (enqueue wid cb s)
  unfolding enqueue enqueue_at
  enqueue-IsValid wid cb s v = elim (Bool-cases (is_nil wid)) [
    | inl e ↦ rw e (enqueue_new-IsValid wid cb s v (λ n. absurd (ground arith)))
    | inr e ↦ rw e (at (lookup wid s.rwork) refl)
  ]
    where
      at : (o : Option ℕ) → lookup wid s.rwork ≡ o → IsValid (enqueue_at wid cb s o)
      at none h = enqueue_new-IsValid wid cb s v (λ n. h)
      at (some p) h = enqueue_some-IsValid wid cb s p v

  -- A work that was counted once, and that a worker goes on with.
  proceed_running-IsValid :
      (j p idx : ℕ) (s : State C) (qs : Option (List ℕ)) (u : Worker)
      → IsValid s
      → get_elem? s.workers j ≡ some u
      → ((q : ℕ)
          → count q (or_nil qs) + one_if (p == q) ≡ count q (or_nil s.workqueue) + weight q u)
      → IsValid (record s { workqueue = qs; workers = set s.workers j (running p idx) })
  proceed_running-IsValid j p idx s qs u v h same =
      let now : (q : ℕ)
          → count q (or_nil qs) + count_running q (set s.workers j (running p idx)) ≡ active s q =
        λ q. omega (arith, same q, count_running-set q j s.workers u (running p idx) h) in
      record {
        once = λ q. rw (now q) (v.once q);
        bounded = λ q b. rw (now q) (v.bounded q b);
        mapped = λ q w e k n. v.mapped q w e (rw (now q) at k) n;
      }

  -- A work that was counted once, and that its worker is done with.
  proceed_done-IsValid :
      (j p : ℕ) (s : State C) (qs : Option (List ℕ)) (u : Worker) (x : Work C)
      → IsValid s
      → get_elem? s.workers j ≡ some u
      → get_elem? s.heap p ≡ some x
      → ((q : ℕ)
          → count q (or_nil qs) + one_if (p == q) ≡ count q (or_nil s.workqueue) + weight q u)
      → IsValid (record s {
        rwork = if is_nil x.wid then s.rwork else delete x.wid s.rwork;
        workqueue = qs;
        workers = set s.workers j idle;
      })
  proceed_done-IsValid j p s qs u x v h hx same =
      let now : (q : ℕ)
          → (count q (or_nil qs) + count_running q (set s.workers j idle)) + one_if (p == q)
            ≡ active s q =
        λ q. omega (arith, same q, count_running-set q j s.workers u idle h) in
      record {
        once = λ q. omega (arith, now q, v.once q);
        bounded = λ q b. omega (arith, now q, v.bounded q b);
        mapped = λ q w e k n. still q w e k n (now q) (now p);
      }
    where
      still :
          (q : ℕ) (w : Work C)
          → get_elem? s.heap q ≡ some w
          → 1 ≤ count q (or_nil qs) + count_running q (set s.workers j idle)
          → is_nil w.wid ≡ false
          → (count q (or_nil qs) + count_running q (set s.workers j idle)) + one_if (p == q)
            ≡ active s q
          → (count p (or_nil qs) + count_running p (set s.workers j idle)) + one_if (p == p)
            ≡ active s p
          → lookup w.wid (if is_nil x.wid then s.rwork else delete x.wid s.rwork) ≡ some q
      still q w e k n now_q now_p =
          let old = v.mapped q w e (omega arith) n in
          elim (Bool-cases (is_nil x.wid)) [
            | inl z ↦ rw z old
            | inr z ↦ elim (Bool-cases (str_eq x.wid w.wid)) [
              | inl y ↦
                  let here_p = v.mapped p x hx (ground (arith, ==_iff p p)) z in
                  let both : p ≡ q = eq_of_some (
                    sym here_p
                    ∙ subst (λ k'. lookup k' s.rwork ≡ some q) (sym (eq_of_str_eq x.wid w.wid y))
                        old) in
                  absurd (ground (arith, v.once q, ==_iff p q))
              | inr y ↦ rw (z, lookup-delete w.wid x.wid s.rwork, y) old
            ]
          ]

  process_at-IsValid :
      (j p idx : ℕ) (s : State C) (qs : Option (List ℕ)) (u : Worker) (o : Option (Work C))
      → IsValid s
      → get_elem? s.workers j ≡ some u
      → get_elem? s.heap p ≡ o
      → ((q : ℕ)
          → count q (or_nil qs) + one_if (p == q) ≡ count q (or_nil s.workqueue) + weight q u)
      → ((q : ℕ) → count q (or_nil qs) ≤ count q (or_nil s.workqueue))
      → IsValid (process_at j p idx (record s { workqueue = qs }) o).0
  unfolding process_at
  process_at-IsValid j p idx s qs u none v h e same fewer = record {
    once = λ q. omega (arith, v.once q, fewer q);
    bounded = λ q b. omega (arith, v.bounded q b, fewer q);
    mapped = λ q w k n m. v.mapped q w k (omega (arith, n, fewer q)) m;
  }
  process_at-IsValid j p idx s qs u (some w) v h e same fewer = on_callback (get_elem? w.queue idx)
    where
      on_callback : (f : Option C) → IsValid (proceed j p idx (record s { workqueue = qs }) w f).0
      on_callback none = unfold proceed in proceed_done-IsValid j p s qs u w v h e same
      on_callback (some f) = unfold proceed in proceed_running-IsValid j p (idx + 1) s qs u v h same

  -- Only the phase or the waiting calls differ.
  pub beside-IsValid :
      (s : State C) (ph : Phase) (cs : List (Bytes × C))
      → IsValid s
      → IsValid (record s { phase = ph; calls = cs })
  beside-IsValid s ph cs v = record { once = v.once; bounded = v.bounded; mapped = v.mapped }

  pub Step-IsValid : {s t : State C} → Step s t → IsValid s → IsValid t
  unfolding process_queue close call_run_with
  Step-IsValid (call s wid cb) v =
      by_test IsValid (is_started s.phase)
        (λ e. beside-IsValid s s.phase (s.calls ++ (wid, cb) ∷ []) v) (λ e. v)
  Step-IsValid (run_with s wid cb before after e) v =
      enqueue-IsValid wid cb (record s { calls = before ++ after })
        (beside-IsValid s s.phase (before ++ after) v)
  Step-IsValid (start s e) v = beside-IsValid s started s.calls v
  Step-IsValid (shutdown s e) v = beside-IsValid s stopping s.calls v
  Step-IsValid (take s j p rest h e) v =
      process_at-IsValid j p 0 s (some rest) idle (get_elem? s.heap p) v h refl
        (λ q. rw e (omega arith)) (λ q. rw e (omega arith))
  Step-IsValid (returned s j p idx h) v =
      process_at-IsValid j p idx s s.workqueue (running p idx) (get_elem? s.heap p) v h refl
        (λ q. refl) (λ q. omega arith)
  Step-IsValid (closing s e) v = record {
    once = λ q. omega (arith, v.once q);
    bounded = λ q b. omega (arith, v.bounded q b);
    mapped = λ q w k n m. v.mapped q w k (omega arith) m;
  }
  Step-IsValid (exit s j h e) v =
      let now : (q : ℕ) → count_running q (set s.workers j exited) ≡ count_running q s.workers =
        λ q. omega (arith, count_running-set q j s.workers idle exited h) in
      record {
        once = λ q. omega (arith, now q, v.once q);
        bounded = λ q b. omega (arith, now q, v.bounded q b);
        mapped = λ q w k n m. v.mapped q w k (omega (arith, now q, n)) m;
      }

  pub Reach-IsValid : {s t : State C} → IsValid s → Reach s t → IsValid t
  Reach-IsValid v here = v
  Reach-IsValid v (next r st) = Step-IsValid st (Reach-IsValid v r)

  pub initial-IsValid : (n : ℕ) → IsValid (initial {C = C} n)
  unfolding initial
  initial-IsValid n = record {
    once = λ p. omega (arith, none_running n p);
    bounded = λ p h. omega (arith, none_running n p);
    mapped = λ p w h k m. absurd (omega (arith, none_running n p));
  }
    where
      none_running : (n p : ℕ) → count_running p (initial {C = C} n).workers ≡ 0
      none_running zero p = refl
      none_running (suc n) p = omega (arith, none_running n p)

  -- In no state that is reached from the start do two workers run callbacks of works with the same
  -- identifier, unless it is the empty one of handlers that run in parallel.
  pub Reach-exclusive :
      (n : ℕ) (t : State C) (i j p q a b : ℕ) (w x : Work C)
      → Reach (initial n) t
      → i ≢ j
      → get_elem? t.workers i ≡ some (running p a)
      → get_elem? t.workers j ≡ some (running q b)
      → get_elem? t.heap p ≡ some w
      → get_elem? t.heap q ≡ some x
      → w.wid ≡ x.wid
      → is_nil w.wid ≡ true
  Reach-exclusive n t i j p q a b w x r ne hi hj hp hq same = elim (Bool-cases (is_nil w.wid)) [
    | inl e ↦ e
    | inr e ↦
        let vt = Reach-IsValid (initial-IsValid n) r in
        let at_p =
          vt.mapped p w hp (ground (arith, weight-le p i t.workers (running p a) hi, ==_iff p p))
            e in
        let at_q =
          vt.mapped q x hq (ground (arith, weight-le q j t.workers (running q b) hj, ==_iff q q))
            (rw (← same) e) in
        let one : p ≡ q =
          eq_of_some (sym at_p ∙ subst (λ k. lookup k t.rwork ≡ some q) (sym same) at_q) in
        absurd (
          ground (
            arith,
            two_running p i j t.workers (running p a) (running q b) ne hi hj,
            vt.once p,
            ==_iff p p,
            ==_iff q p,
          ))
  ]
