-- ===== src/Worker/Order/Held.antt =====
-- Until the queue is closed, the work of an entry of `s.rwork` is queued, or run by a worker.
use mathlib.Core.Path.{subst}
use mathlib.Core.Bool.{false≢true}
use go_res.Base.{
  by_test, Option-cases, none-ne-some, ℕ, ◌+◌, ◌≤◌, if◌then◌else◌, ◌==◌, ==_iff, str_eq,
  str_eq_refl, length, get_elem?, Bytes, Bool, true, false, Bool-cases, eq_of_some, Option, none,
  some, List, [], ◌∷◌, ◌++◌, ◌≡◌, refl, sym, ◌∙◌, ap, arith, inl, inr,
}
use go_res.Params.{lookup}
use go_res.Pattern.Valid.{is_nil}
use go_res.Worker.{
  initial, Work, Worker, idle, exited, running, Phase, starting, started, stopping, closed, State,
  set, or_nil, is_started, call_run_with, enqueue_new, enqueue_at, enqueue, proceed, process_at,
  process_queue, close,
}
use go_res.Worker.Step.{
  Step, call, run_with, take, returned, start, shutdown, closing, exit, Reach, here, next,
}
use go_res.Worker.Exclusion.{active, Reach-IsValid, initial-IsValid}
use go_res.Worker.Lists.{
  one_if, count, weight, count_running, count-append, count_running-set, lookup-delete,
}
use go_res.Worker.Order.Queued.{nil_differs}
use go_res.Worker.Order.Entries.{HasWid, HasEntries, Reach-HasEntries}

abbrev pub is_closed : Phase → Bool
is_closed starting = false
is_closed started = false
is_closed stopping = false
is_closed closed = true

is_closed-eq : (ph : Phase) → is_closed ph ≡ true → ph ≡ closed
is_closed-eq starting h = absurd (false≢true h)
is_closed-eq started h = absurd (false≢true h)
is_closed-eq stopping h = absurd (false≢true h)
is_closed-eq closed h = refl

module _ {C : Type 0} (wid : Bytes) (named : is_nil wid ≡ false) where
  abbrev Held : State C → Type 0
  Held s = (p : ℕ) → lookup wid s.rwork ≡ some p → 1 ≤ active s p

  enqueue_new-Held : (wid' : Bytes) (cb : C) (s : State C) → Held s → Held (enqueue_new wid' cb s)
  unfolding enqueue_new lookup
  enqueue_new-Held wid' cb s h p e = elim (Bool-cases (is_nil wid')) [
    | inl z ↦ old p (rw z at e)
    | inr z ↦ elim (Bool-cases (str_eq wid' wid)) [
      | inl y ↦
          let same : length s.heap ≡ p = eq_of_some (rw (z, y) at e) in
          ground
            (arith, count-append p (length s.heap) (or_nil s.workqueue), ==_iff (length s.heap) p)
      | inr y ↦ old p (rw (z, y) at e)
    ]
  ]
    where
      old :
          (q : ℕ)
          → lookup wid s.rwork ≡ some q
          → 1 ≤ count q (or_nil s.workqueue ++ length s.heap ∷ []) + count_running q s.workers
      old q k = omega (arith, count-append q (length s.heap) (or_nil s.workqueue), h q k)

  enqueue-Held : (wid' : Bytes) (cb : C) (s : State C) → Held s → Held (enqueue wid' cb s)
  unfolding enqueue enqueue_at
  enqueue-Held wid' cb s h = at (if is_nil wid' then none else lookup wid' s.rwork)
    where
      at : (o : Option ℕ) → Held (enqueue_at wid' cb s o)
      at none = enqueue_new-Held wid' cb s h
      at (some p) = h

  process_at-Held :
      (j p idx : ℕ) (s : State C) (qs : Option (List ℕ)) (u : Worker) (o : Option (Work C))
      → HasEntries s
      → get_elem? s.workers j ≡ some u
      → get_elem? s.heap p ≡ o
      → ((q : ℕ)
          → count q (or_nil qs) + one_if (p == q) ≡ count q (or_nil s.workqueue) + weight q u)
      → Held s
      → Held (process_at j p idx (record s { workqueue = qs }) o).0
  unfolding process_at
  process_at-Held j p idx s qs u none v g e same h = λ q k. elim (Bool-cases (p == q)) [
    | inl y ↦
        let here_p : HasWid wid (get_elem? s.heap p) =
          subst (λ i. HasWid wid (get_elem? s.heap i)) (sym ((==_iff p q).0 y)) (v.entry wid q k) in
        absurd (subst (HasWid wid) e here_p)
    | inr y ↦ ground (arith, same q, y, h q k)
  ]
  process_at-Held j p idx s qs u (some w) v g e same h = on_callback (get_elem? w.queue idx)
    where
      -- The work that the worker is done with is that of another identifier.
      differs : (q : ℕ) → lookup wid s.rwork ≡ some q → str_eq w.wid wid ≡ false → (p == q) ≡ false
      differs q k n = elim (Bool-cases (p == q)) [
        | inl y ↦
            let mine : w.wid ≡ wid =
              subst (HasWid wid) (ap (get_elem? s.heap) (sym ((==_iff p q).0 y)) ∙ e)
                (v.entry wid q k) in
            absurd (false≢true (sym n ∙ (ap (λ x. str_eq x wid) mine ∙ str_eq_refl wid)))
        | inr y ↦ y
      ]

      kept :
          (q : ℕ)
          → lookup wid s.rwork ≡ some q
          → str_eq w.wid wid ≡ false
          → 1 ≤ count q (or_nil qs) + count_running q (set s.workers j idle)
      kept q k n =
          ground (arith, same q, differs q k n, h q k, count_running-set q j s.workers u idle g)

      on_callback : (f : Option C) → Held (proceed j p idx (record s { workqueue = qs }) w f).0
      on_callback (some f) =
          unfold proceed in
          λ q k.
            omega (arith, same q, h q k, count_running-set q j s.workers u (running p (idx + 1)) g)
      on_callback none =
          unfold proceed in
          λ q k. elim (Bool-cases (is_nil w.wid)) [
            | inl z ↦ kept q (rw z at k) (nil_differs w.wid wid z named)
            | inr z ↦ elim (Bool-cases (str_eq w.wid wid)) [
              | inl y ↦
                  absurd
                    (none-ne-some (rw y at (sym (lookup-delete wid w.wid s.rwork) ∙ rw z at k)))
              | inr y ↦ kept q (rw y at (sym (lookup-delete wid w.wid s.rwork) ∙ (rw z at k))) y
            ]
          ]

  phase-enqueue : (wid' : Bytes) (cb : C) (s : State C) → (enqueue wid' cb s).phase ≡ s.phase
  unfolding enqueue enqueue_at enqueue_new
  phase-enqueue wid' cb s = at (if is_nil wid' then none else lookup wid' s.rwork)
    where
      at : (o : Option ℕ) → (enqueue_at wid' cb s o).phase ≡ s.phase
      at none = refl
      at (some p) = refl

  phase-process_queue : (j p idx : ℕ) (s : State C) → (process_queue j p idx s).0.phase ≡ s.phase
  unfolding process_queue process_at proceed
  phase-process_queue j p idx s = at (get_elem? s.heap p)
    where
      on_callback : (w : Work C) (f : Option C) → (proceed j p idx s w f).0.phase ≡ s.phase
      on_callback w none = refl
      on_callback w (some f) = refl

      at : (o : Option (Work C)) → (process_at j p idx s o).0.phase ≡ s.phase
      at none = refl
      at (some w) = on_callback w (get_elem? w.queue idx)

  -- While the queue is not closed, a work with an entry is active.
  abbrev Open : State C → Type 0
  Open s = is_closed s.phase ≡ false → Held s

  Step-Open : {s t : State C} → Step s t → HasEntries s → Open s → Open t
  unfolding process_queue close call_run_with
  Step-Open (call s wid' cb) v h =
      by_test (λ (t : State C). is_closed t.phase ≡ false → Held t) (is_started s.phase) (λ e. h)
        (λ e. h)
  Step-Open (run_with s wid' cb before after e) v h =
      let s' : State C = record s { calls = before ++ after } in
      λ n. enqueue-Held wid' cb s' (h (ap is_closed (sym (phase-enqueue wid' cb s')) ∙ n))
  Step-Open (take s j p rest g e) v h =
      let s' : State C = record s { workqueue = some rest } in
      λ n.
        process_at-Held j p 0 s (some rest) idle (get_elem? s.heap p) v g refl
          (λ q. rw e (omega arith)) (h (ap is_closed (sym (phase-process_queue j p 0 s')) ∙ n))
  Step-Open (returned s j p idx g) v h = λ n.
      process_at-Held j p idx s s.workqueue (running p idx) (get_elem? s.heap p) v g refl
        (λ q. refl) (h (ap is_closed (sym (phase-process_queue j p idx s)) ∙ n))
  Step-Open (start s e) v h = λ n. h (ap is_closed e)
  Step-Open (shutdown s e) v h = λ n. h (ap is_closed e)
  Step-Open (closing s e) v h = λ n. absurd (false≢true (sym n))
  Step-Open (exit s j g e) v h =
      λ n p k. omega (arith, h n p k, count_running-set p j s.workers idle exited g)

  Reach-Open : (n : ℕ) {t : State C} → Reach (initial n) t → Open t
  unfolding initial lookup
  Reach-Open n here = λ e p k. absurd (none-ne-some k)
  Reach-Open n (next r st) = Step-Open st (Reach-HasEntries n r) (Reach-Open n r)

  -- The queue is closed, or there is no work of the identifier, or its work is queued once or run by
  -- one worker.
  pub data Served (t : State C) : Type 0 where
    is_shut : t.phase ≡ closed → Served t
    no_work : lookup wid t.rwork ≡ none → Served t
    active_once : (p : ℕ) → lookup wid t.rwork ≡ some p → active t p ≡ 1 → Served t

  pub Reach-Served : (n : ℕ) {t : State C} → Reach (initial n) t → Served t
  Reach-Served n {t} r = elim (Bool-cases (is_closed t.phase)) [
    | inl e ↦ is_shut (is_closed-eq t.phase e)
    | inr e ↦ elim (Option-cases (lookup wid t.rwork)) [
      | inl k ↦ no_work k
      | inr (p, k) ↦
          let v = Reach-IsValid (initial-IsValid n) r in
          active_once p k (omega (arith, v.once p, Reach-Open n r e p k))
    ]
  ]
