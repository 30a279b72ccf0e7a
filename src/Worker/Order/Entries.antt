-- ===== src/Worker/Order/Entries.antt =====
-- The entries of `s.rwork` are works of their identifier, and no worker is past the end of a queue.
use mathlib.Core.Path.{subst}
use go_res.Base.{
  by_test, none-ne-some, ℕ, zero, suc, ◌+◌, ◌≤◌, if◌then◌else◌, ◌==◌, ==_iff, str_eq, eq_of_str_eq,
  length, length-append, get_elem?, Bytes, Bool, true, false, Bool-cases, eq_of_some, Option, none,
  some, List, [], ◌∷◌, ◌++◌, ◌≡◌, ◌≢◌, refl, sym, ◌∙◌, arith, inl, inr,
}
use go_res.Params.{lookup}
use go_res.Pattern.Valid.{is_nil}
use go_res.Worker.{
  initial, Work, Worker, idle, exited, running, Phase, started, stopping, State, is_started,
  call_run_with, set, delete, append_callback, enqueue_new, enqueue_at, enqueue, proceed,
  process_at, process_queue, close,
}
use go_res.Worker.Step.{
  Step, call, run_with, take, returned, start, shutdown, closing, exit, Reach, here, next,
}
use go_res.Worker.Exclusion.{IsValid, beside-IsValid, Reach-IsValid, initial-IsValid}
use go_res.Worker.Lists.{weight-le, lookup-delete, get_elem?-append_one}
use go_res.Worker.Order.Progress.{get_elem?-update, map_work, get_elem?-lt, get_elem?-set}

module _ {C : Type 0} where
  -- The work at an index has an identifier, or a queue that is long enough.
  abbrev pub HasWid : Bytes → Option (Work C) → Type 0
  HasWid k none = ⊥
  HasWid k (some w) = w.wid ≡ k

  abbrev pub IsWithin : ℕ → Option (Work C) → Type 0
  IsWithin idx none = Unit
  IsWithin idx (some w) = idx ≤ length w.queue

  pub record HasEntries (s : State C) : Type 0 where
    pub entry : (k : Bytes) (p : ℕ) → lookup k s.rwork ≡ some p → HasWid k (get_elem? s.heap p)
    pub within :
        (j p idx : ℕ)
        → get_elem? s.workers j ≡ some (running p idx)
        → IsWithin idx (get_elem? s.heap p)

  HasWid-append :
      (k : Bytes) (heap : List (Work C)) (w : Work C) (p : ℕ)
      → HasWid k (get_elem? heap p)
      → HasWid k (get_elem? (heap ++ w ∷ []) p)
  HasWid-append k [] w p h = absurd h
  HasWid-append k (v ∷ heap) w zero h = h
  HasWid-append k (v ∷ heap) w (suc p) h = HasWid-append k heap w p h

  HasWid-update :
      (k : Bytes) (cb : C) (b : Bool) (o : Option (Work C))
      → HasWid k o
      → HasWid k (if b then map_work (append_callback cb) o else o)
  unfolding append_callback
  HasWid-update k cb true (some w) h = h
  HasWid-update k cb false (some w) h = h
  HasWid-update k cb true none h = h
  HasWid-update k cb false none h = h

  IsWithin-update :
      (idx : ℕ) (cb : C) (b : Bool) (o : Option (Work C))
      → IsWithin idx o
      → IsWithin idx (if b then map_work (append_callback cb) o else o)
  unfolding append_callback
  IsWithin-update idx cb true (some w) h = omega (arith, length-append w.queue (cb ∷ []))
  IsWithin-update idx cb false (some w) h = h
  IsWithin-update idx cb true none h = tt
  IsWithin-update idx cb false none h = tt

  enqueue_some-HasEntries :
      (wid : Bytes) (cb : C) (s : State C) (p : ℕ)
      → HasEntries s
      → HasEntries (enqueue_at wid cb s (some p))
  unfolding enqueue_at
  enqueue_some-HasEntries wid cb s p v = record {
    entry = λ k q e.
        rw (get_elem?-update s.heap p q (append_callback cb))
          (HasWid-update k cb (q == p) (get_elem? s.heap q) (v.entry k q e));
    within = λ j q idx e.
        rw (get_elem?-update s.heap p q (append_callback cb))
          (IsWithin-update idx cb (q == p) (get_elem? s.heap q) (v.within j q idx e));
  }

  not_running :
      (s : State C) (j p idx : ℕ)
      → IsValid s
      → length s.heap ≤ p
      → get_elem? s.workers j ≡ some (running p idx)
      → ⊥
  not_running s j p idx v h e =
      ground (arith, v.bounded p h, weight-le p j s.workers (running p idx) e, ==_iff p p)

  enqueue_new-HasEntries :
      (wid : Bytes) (cb : C) (s : State C)
      → IsValid s
      → HasEntries s
      → HasEntries (enqueue_new wid cb s)
  unfolding enqueue_new lookup
  enqueue_new-HasEntries wid cb s v h = record {
    entry = λ k p e. elim (Bool-cases (is_nil wid)) [
      | inl z ↦ HasWid-append k s.heap fresh_work p (h.entry k p (rw z at e))
      | inr z ↦ new_entry k p (rw z at e)
    ];
    within = λ j p idx e. rw (get_elem?-append_one s.heap fresh_work p) (
        by_test (IsWithin idx) (p == length s.heap)
          (λ y. absurd (not_running s j p idx v (ground (arith, ==_iff p (length s.heap))) e))
          (λ y. h.within j p idx e));
  }
    where
      fresh_work : Work C
      fresh_work = record { wid = wid; queue = cb ∷ [] }

      at_end :
          (k : Bytes) (heap : List (Work C))
          → wid ≡ k
          → HasWid k (get_elem? (heap ++ fresh_work ∷ []) (length heap))
      at_end k [] e = e
      at_end k (w ∷ heap) e = at_end k heap e

      new_entry :
          (k : Bytes) (p : ℕ)
          → lookup k ((wid, length s.heap) ∷ s.rwork) ≡ some p
          → HasWid k (get_elem? (s.heap ++ fresh_work ∷ []) p)
      new_entry k p e = elim (Bool-cases (str_eq wid k)) [
        | inl y ↦
            subst (λ q. HasWid k (get_elem? (s.heap ++ fresh_work ∷ []) q))
              (eq_of_some (sym (rw (y, lookup)) ∙ e)) (at_end k s.heap (eq_of_str_eq wid k y))
        | inr y ↦ HasWid-append k s.heap fresh_work p (h.entry k p (sym (rw (y, lookup)) ∙ e))
      ]

  pub enqueue-HasEntries :
      (wid : Bytes) (cb : C) (s : State C)
      → IsValid s
      → HasEntries s
      → HasEntries (enqueue wid cb s)
  unfolding enqueue enqueue_at
  enqueue-HasEntries wid cb s v h = at (if is_nil wid then none else lookup wid s.rwork)
    where
      at : (o : Option ℕ) → HasEntries (enqueue_at wid cb s o)
      at none = enqueue_new-HasEntries wid cb s v h
      at (some p) = enqueue_some-HasEntries wid cb s p h

  -- A worker that goes on with a callback, or is done with its work.
  set_running-HasEntries :
      (j p idx : ℕ) (s : State C) (qs : Option (List ℕ)) (w : Work C)
      → HasEntries s
      → get_elem? s.heap p ≡ some w
      → idx ≤ length w.queue
      → HasEntries (record s { workqueue = qs; workers = set s.workers j (running p idx) })
  set_running-HasEntries j p idx s qs w h e l = record {
    entry = h.entry;
    within = λ i q k g. elim (get_elem?-set s.workers j i (running p idx) (running q k) g) [
      | inl old ↦ h.within i q k old
      | inr new ↦ same q k new
    ];
  }
    where
      same : (q k : ℕ) → running q k ≡ running p idx → IsWithin k (get_elem? s.heap q)
      same q k new = let q=p : q ≡ p = cc in let k=idx : k ≡ idx = cc in rw (q=p, k=idx, e) l

  set_other-HasEntries :
      (j : ℕ) (s : State C) (qs : Option (List ℕ)) (v : Worker)
      → ((q k : ℕ) → running q k ≢ v)
      → HasEntries s
      → HasEntries (record s { workqueue = qs; workers = set s.workers j v })
  set_other-HasEntries j s qs v ne h = record {
    entry = h.entry;
    within = λ i q k g. elim (get_elem?-set s.workers j i v (running q k) g) [
      | inl old ↦ h.within i q k old
      | inr new ↦ absurd (ne q k new)
    ];
  }

  delete-HasEntries :
      (wid : Bytes) (s : State C)
      → HasEntries s
      → HasEntries (record s { rwork = delete wid s.rwork })
  delete-HasEntries wid s h = record {
    entry = λ k p e. kept k p (sym (lookup-delete k wid s.rwork) ∙ e);
    within = h.within;
  }
    where
      kept :
          (k : Bytes) (p : ℕ)
          → (if str_eq wid k then none else lookup k s.rwork) ≡ some p
          → HasWid k (get_elem? s.heap p)
      kept k p e = elim (Bool-cases (str_eq wid k)) [
        | inl y ↦ absurd (none-ne-some (rw y at e))
        | inr y ↦ h.entry k p (rw y at e)
      ]

  proceed-HasEntries :
      (j p idx : ℕ) (s : State C) (qs : Option (List ℕ)) (w : Work C) (f : Option C)
      → HasEntries s
      → get_elem? s.heap p ≡ some w
      → get_elem? w.queue idx ≡ f
      → HasEntries (proceed j p idx (record s { workqueue = qs }) w f).0
  unfolding proceed
  proceed-HasEntries j p idx s qs w (some f) h e g =
      set_running-HasEntries j p (idx + 1) s qs w h e (get_elem?-lt w.queue idx f g)
  proceed-HasEntries j p idx s qs w none h e g = elim (Bool-cases (is_nil w.wid)) [
    | inl z ↦ rw z (set_other-HasEntries j s qs idle (λ q k r. absurd (cc)) h)
    | inr z ↦ rw z (
        delete-HasEntries w.wid (record s { workqueue = qs; workers = set s.workers j idle })
          (set_other-HasEntries j s qs idle (λ q k r. absurd (cc)) h))
  ]

  process_at-HasEntries :
      (j p idx : ℕ) (s : State C) (qs : Option (List ℕ)) (o : Option (Work C))
      → HasEntries s
      → get_elem? s.heap p ≡ o
      → HasEntries (process_at j p idx (record s { workqueue = qs }) o).0
  unfolding process_at
  process_at-HasEntries j p idx s qs none h e = record { entry = h.entry; within = h.within }
  process_at-HasEntries j p idx s qs (some w) h e =
      proceed-HasEntries j p idx s qs w (get_elem? w.queue idx) h e refl

  -- Only the phase or the waiting calls differ.
  pub beside-HasEntries :
      (s : State C) (ph : Phase) (cs : List (Bytes × C))
      → HasEntries s
      → HasEntries (record s { phase = ph; calls = cs })
  beside-HasEntries s ph cs h = record { entry = h.entry; within = h.within }

  Step-HasEntries : {s t : State C} → Step s t → IsValid s → HasEntries s → HasEntries t
  unfolding process_queue close call_run_with
  Step-HasEntries (call s wid cb) v h =
      by_test HasEntries (is_started s.phase)
        (λ e. beside-HasEntries s s.phase (s.calls ++ (wid, cb) ∷ []) h) (λ e. h)
  Step-HasEntries (run_with s wid cb before after e) v h =
      enqueue-HasEntries wid cb (record s { calls = before ++ after })
        (beside-IsValid s s.phase (before ++ after) v)
        (beside-HasEntries s s.phase (before ++ after) h)
  Step-HasEntries (start s e) v h = beside-HasEntries s started s.calls h
  Step-HasEntries (shutdown s e) v h = beside-HasEntries s stopping s.calls h
  Step-HasEntries (take s j p rest e g) v h =
      process_at-HasEntries j p 0 s (some rest) (get_elem? s.heap p) h refl
  Step-HasEntries (returned s j p idx e) v h =
      process_at-HasEntries j p idx s s.workqueue (get_elem? s.heap p) h refl
  Step-HasEntries (closing s e) v h = record { entry = h.entry; within = h.within }
  Step-HasEntries (exit s j e g) v h =
      set_other-HasEntries j s s.workqueue exited (λ q k r. absurd (cc)) h

  initial-HasEntries : (n : ℕ) → HasEntries (initial {C = C} n)
  unfolding initial lookup
  initial-HasEntries n = record {
    entry = λ k p e. absurd (none-ne-some e);
    within = λ j p idx e. absurd (all_idle n j e);
  }
    where
      all_idle :
          {p idx : ℕ} (n j : ℕ) → get_elem? (initial {C = C} n).workers j ≡ some (running p idx) → ⊥
      all_idle zero j e = cc
      all_idle (suc n) zero e = cc
      all_idle (suc n) (suc j) e = all_idle n j e

  pub Reach-HasEntries : (n : ℕ) {t : State C} → Reach (initial n) t → HasEntries t
  Reach-HasEntries n here = initial-HasEntries n
  Reach-HasEntries n (next r st) =
      Step-HasEntries st (Reach-IsValid (initial-IsValid n) r) (Reach-HasEntries n r)
