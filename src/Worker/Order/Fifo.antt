-- ===== src/Worker/Order/Fifo.antt =====
-- The callbacks of one identifier are started in the order in which they were queued.
use mathlib.Core.Path.{subst}
use go_res.Base.{
  by_test, ℕ, ◌+◌, ◌≤◌, if◌then◌else◌, ◌==◌, ==_iff, str_eq, str_eq_refl, eq_of_str_eq, get_elem?,
  Bytes, true, false, Bool-cases, Option, none, some, List, [], ◌∷◌, ◌++◌, append-nil, append_assoc,
  ◌≡◌, refl, sym, ◌∙◌, ap, arith, inl, inr,
}
use go_res.Params.{lookup}
use go_res.Pattern.Valid.{is_nil}
use go_res.Worker.{
  initial, Work, Worker, idle, exited, running, State, is_started, call_run_with, set, delete,
  proceed, process_at, process_queue, close,
}
use go_res.Worker.Step.{
  Step, call, run_with, take, returned, start, shutdown, closing, exit, Reach, here, next,
}
use go_res.Worker.Exclusion.{IsValid, beside-IsValid, active, Reach-IsValid, initial-IsValid}
use go_res.Worker.Lists.{one_if, weight, count_running, count_running-set, weight-le, lookup-delete}
use go_res.Worker.Order.{
  progress, of_group, pending_at, pending, started_of, queued_by, started_by, queued, started,
}
use go_res.Worker.Order.Progress.{
  progress-zero, progress-at, get_elem?-set_self, drop-get_elem?, drop-none,
}
use go_res.Worker.Order.Entries.{HasWid, HasEntries, beside-HasEntries, Reach-HasEntries}
use go_res.Worker.Order.Held.{Served, Reach-Served}
use go_res.Worker.Order.Queued.{enqueue-pending, pending_at-set}

module _ {C : Type 0} where
  module _ (wid : Bytes) (named : is_nil wid ≡ false) where
    -- A worker that goes on with a work: at the index that the work has come to.
    record GoesOn (s : State C) (j p idx : ℕ) (u : Worker) : Type 0 where
      at_worker : get_elem? s.workers j ≡ some u
      weighs : (q : ℕ) → (p == q) ≡ false → weight q u ≡ 0
      come_to : progress p s.workers ≡ idx
      alone : count_running p s.workers ≤ weight p u
      counted : 1 ≤ active s p

    -- The entry of the work, or another one.
    other_entry :
        (s : State C) (p q : ℕ) (w : Work C)
        → HasEntries s
        → get_elem? s.heap p ≡ some w
        → str_eq w.wid wid ≡ false
        → lookup wid s.rwork ≡ some q
        → (p == q) ≡ false
    other_entry s p q w h e y g = elim (Bool-cases (p == q)) [
      | inl z ↦
          let k =
            subst (HasWid wid) (ap (get_elem? s.heap) (sym ((==_iff p q).0 z)) ∙ e)
              (h.entry wid q g) in
          absurd (ground (arith, rw k at y, str_eq_refl wid))
      | inr z ↦ z
    ]

    own_entry :
        (s : State C) (j p idx : ℕ) (u : Worker) (w : Work C)
        → IsValid s
        → GoesOn s j p idx u
        → get_elem? s.heap p ≡ some w
        → str_eq w.wid wid ≡ true
        → lookup wid s.rwork ≡ some p
    own_entry s j p idx u w v g e y =
        let same = eq_of_str_eq w.wid wid y in
        subst (λ k. lookup k s.rwork ≡ some p) same
          (v.mapped p w e g.counted (subst (λ k. is_nil k ≡ false) (sym same) named))

    -- A callback is started.
    proceed_some-pending :
        (s : State C) (j p idx : ℕ) (u : Worker) (qs : Option (List ℕ)) (w : Work C) (cb : C)
        → IsValid s
        → HasEntries s
        → GoesOn s j p idx u
        → get_elem? s.heap p ≡ some w
        → get_elem? w.queue idx ≡ some cb
        → pending wid s
          ≡ of_group wid ((w.wid, cb) ∷ [])
            ++ pending_at s.heap (set s.workers j (running p (idx + 1))) (lookup wid s.rwork)
    proceed_some-pending s j p idx u qs w cb v h g e f = elim (Bool-cases (str_eq w.wid wid)) [
      | inl y ↦
          let mine = own_entry s j p idx u w v g e y in
          let more =
            progress-at p j (idx + 1) (set s.workers j (running p (idx + 1)))
              (get_elem?-set_self s.workers j u (running p (idx + 1)) g.at_worker)
              (ground (
                arith,
                count_running-set p j s.workers u (running p (idx + 1)) g.at_worker,
                g.alone,
                ==_iff p p,
              )) in
          rw (y, mine, e, g.come_to, more) (drop-get_elem? idx w.queue cb f)
      | inr y ↦ rw y (
          sym (
            pending_at-set s.heap s.workers j u (running p (idx + 1)) (lookup wid s.rwork)
              g.at_worker
              (λ q k. let n = other_entry s p q w h e y k in (g.weighs q n, ap one_if n))))
    ]

    -- A worker is done with its work.
    proceed_none-pending :
        (s : State C) (j p idx : ℕ) (u : Worker) (w : Work C)
        → IsValid s
        → HasEntries s
        → GoesOn s j p idx u
        → get_elem? s.heap p ≡ some w
        → get_elem? w.queue idx ≡ none
        → pending wid s
          ≡ pending_at s.heap
              (set s.workers j idle)
              (lookup wid (if is_nil w.wid then s.rwork else delete w.wid s.rwork))
    proceed_none-pending s j p idx u w v h g e f = elim (Bool-cases (str_eq w.wid wid)) [
      | inl y ↦
          let mine = own_entry s j p idx u w v g e y in
          let some_wid : is_nil w.wid ≡ false =
            subst (λ k. is_nil k ≡ false) (sym (eq_of_str_eq w.wid wid y)) named in
          rw (some_wid, lookup-delete wid w.wid s.rwork, y, mine, e, g.come_to)
            (drop-none idx w.queue f)
      | inr y ↦
          let kept : lookup wid (if is_nil w.wid then s.rwork else delete w.wid s.rwork)
              ≡ lookup wid s.rwork =
            by_test (λ m. lookup wid m ≡ lookup wid s.rwork) (is_nil w.wid)
              {y = delete w.wid s.rwork} (λ z. refl)
              (λ z. rw (lookup-delete wid w.wid s.rwork, y)) in
          rw kept (
            sym (
              pending_at-set s.heap s.workers j u idle (lookup wid s.rwork) g.at_worker
                (λ q k. (g.weighs q (other_entry s p q w h e y k), refl))))
    ]

    process_at-pending :
        (s : State C) (j p idx : ℕ) (u : Worker) (qs : Option (List ℕ)) (o : Option (Work C))
        → IsValid s
        → HasEntries s
        → GoesOn s j p idx u
        → get_elem? s.heap p ≡ o
        → pending wid s
          ≡ of_group wid (started_of o (process_at j p idx (record s { workqueue = qs }) o).1)
            ++ pending wid (process_at j p idx (record s { workqueue = qs }) o).0
    unfolding process_at proceed
    process_at-pending s j p idx u qs none v h g e = refl
    process_at-pending s j p idx u qs (some w) v h g e = on_callback (get_elem? w.queue idx) refl
      where
        on_callback :
            (f : Option C)
            → get_elem? w.queue idx ≡ f
            → pending wid s
              ≡ of_group wid
                  (started_of (some w) (proceed j p idx (record s { workqueue = qs }) w f).1)
                ++ pending wid (proceed j p idx (record s { workqueue = qs }) w f).0
        on_callback none k = proceed_none-pending s j p idx u w v h g e k
        on_callback (some cb) k = proceed_some-pending s j p idx u qs w cb v h g e k

    -- A work that is queued is run by no worker.
    queued_alone :
        (p : ℕ) (rest : List ℕ) (s : State C)
        → IsValid s
        → s.workqueue ≡ some (p ∷ rest)
        → count_running p s.workers ≡ 0
    queued_alone p rest s v f = let one = rw f at v.once p in ground (arith, one, ==_iff p p)

    -- What a step queues is pending behind it, unless it was started.
    Step-pending :
        {s t : State C} (st : Step s t)
        → IsValid s
        → HasEntries s
        → pending wid s ++ of_group wid (queued_by st)
          ≡ of_group wid (started_by st) ++ pending wid t
    unfolding process_queue close call_run_with
    Step-pending (call s wid' cb) v h =
        append-nil (pending wid s)
        ∙ by_test (λ t. pending wid s ≡ pending wid t) (is_started s.phase) (λ e. refl) (λ e. refl)
    Step-pending (run_with s wid' cb before after e) v h = sym (
        enqueue-pending wid named wid' cb (record s { calls = before ++ after })
          (beside-IsValid s s.phase (before ++ after) v)
          (beside-HasEntries s s.phase (before ++ after) h))
    Step-pending (start s e) v h = rw append-nil
    Step-pending (shutdown s e) v h = rw append-nil
    Step-pending (take s j p rest e f) v h = rw append-nil (
        process_at-pending s j p 0 idle (some rest) (get_elem? s.heap p) v h
          (record {
            at_worker = e;
            weighs = λ q n. refl;
            come_to = progress-zero p s.workers (queued_alone p rest s v f);
            alone = omega (arith, queued_alone p rest s v f);
            counted = rw f (ground (arith, ==_iff p p));
          })
          refl)
    Step-pending (returned s j p idx e) v h = rw append-nil (
        process_at-pending s j p idx (running p idx) s.workqueue (get_elem? s.heap p) v h
          (record {
            at_worker = e;
            weighs = λ q n. ap one_if n;
            come_to = progress-at p j idx s.workers e (omega (arith, v.once p));
            alone = ground (arith, v.once p, ==_iff p p);
            counted = ground (arith, weight-le p j s.workers (running p idx) e, ==_iff p p);
          })
          refl)
    Step-pending (closing s e) v h = rw append-nil
    Step-pending (exit s j e f) v h = rw append-nil (
        sym (
          pending_at-set s.heap s.workers j idle exited (lookup wid s.rwork) e
            (λ q k. (refl, refl))))

    of_group-append :
        (xs ys : List (Bytes × C)) → of_group wid (xs ++ ys) ≡ of_group wid xs ++ of_group wid ys
    of_group-append [] ys = refl
    of_group-append ((k, cb) ∷ xs) ys = ground (arith, of_group-append xs ys)

    Reach-pending :
        (n : ℕ) {t : State C} (r : Reach (initial n) t)
        → of_group wid (queued r) ≡ of_group wid (started r) ++ pending wid t
    unfolding initial lookup
    Reach-pending n here = refl
    Reach-pending n (next {t = s} {u = t} r st) =
        let v = Reach-IsValid (initial-IsValid n) r in
        of_group-append (queued r) (queued_by st)
        ∙ ap (λ xs. xs ++ of_group wid (queued_by st)) (Reach-pending n r)
        ∙ append_assoc (of_group wid (started r)) (pending wid s) (of_group wid (queued_by st))
        ∙ ap (λ xs. of_group wid (started r) ++ xs) (Step-pending st v (Reach-HasEntries n r))
        ∙ sym
            (append_assoc (of_group wid (started r)) (of_group wid (started_by st)) (pending wid t))
        ∙ ap (λ xs. xs ++ pending wid t) (sym (of_group-append (started r) (started_by st)))

    -- For an identifier that is not empty, in each state that is reached from the start, the
    -- callbacks that were queued are those that were started, in the same order, with those behind
    -- them that are pending in its work: none is started twice and none overtakes another. Until
    -- `close` has closed the queue, either the identifier has no work, and none is pending, or its
    -- work stands once in the queue or is run by one worker: none is lost.
    pub Reach-fifo :
        (n : ℕ) {t : State C} (r : Reach (initial n) t)
        → (of_group wid (queued r) ≡ of_group wid (started r) ++ pending wid t) × Served wid named t
    Reach-fifo n r = (Reach-pending n r, Reach-Served wid named n r)
