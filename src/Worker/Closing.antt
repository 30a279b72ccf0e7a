-- ===== src/Worker/Closing.antt =====
-- A call of `runWith` that overlaps with `close` opens the closed queue again.
use mathlib.Core.Path.{subst}
use go_res.Base.{
  ℕ, zero, suc, ◌+◌, ==_iff, length, get_elem?, Option, none, some, List, [], ◌∷◌, ◌++◌, ◌≡◌, ◌≢◌,
  refl, sym, ◌∙◌, ap, arith, if◌then◌else◌,
}
use go_res.Worker.{
  Work, Worker, idle, running, closed, State, set, or_nil, is_started, call_run_with, enqueue,
  proceed, process_at, process_queue,
}
use go_res.Worker.Step.{
  Step, call, run_with, take, returned, start, shutdown, closing, exit, Reach, here, next,
}
use go_res.Worker.Lists.{get_elem?-append_one}
use go_res.Worker.Order.Progress.{get_elem?-set_self}

get_elem?-set_other :
    (ws : List Worker) (i j p idx : ℕ) (v : Worker)
    → get_elem? ws i ≡ some (running p idx)
    → get_elem? ws j ≡ some idle
    → get_elem? (set ws i v) j ≡ some idle
get_elem?-set_other [] i j p idx v h k = cc
get_elem?-set_other (w ∷ ws) zero zero p idx v h k = cc
get_elem?-set_other (w ∷ ws) zero (suc j) p idx v h k = k
get_elem?-set_other (w ∷ ws) (suc i) zero p idx v h k = k
get_elem?-set_other (w ∷ ws) (suc i) (suc j) p idx v h k = get_elem?-set_other ws i j p idx v h k

nil-ne-append : {A : Type 0} (before after : List A) (x : A) → [] ≢ before ++ x ∷ after
nil-ne-append [] after x h = cc
nil-ne-append (y ∷ before) after x h = cc

module _ {C : Type 0} (j : ℕ) where
  -- The service is closed and no call of `runWith` is under way, but the queue is open and empty, and
  -- the worker waits.
  record Waits (s : State C) : Type 0 where
    shut : s.phase ≡ closed
    no_calls : s.calls ≡ []
    open_queue : s.workqueue ≡ some []
    waiting : get_elem? s.workers j ≡ some idle

  process_at-Waits :
      (i p idx : ℕ) (s : State C) (o : Option (Work C))
      → get_elem? s.workers i ≡ some (running p idx)
      → Waits s
      → Waits (process_at i p idx s o).0
  unfolding process_at proceed
  process_at-Waits i p idx s none h w = w
  process_at-Waits i p idx s (some x) h w = on_callback (get_elem? x.queue idx)
    where
      on_callback : (f : Option C) → Waits (proceed i p idx s x f).0
      on_callback none = record {
        shut = w.shut;
        no_calls = w.no_calls;
        open_queue = w.open_queue;
        waiting = get_elem?-set_other s.workers i j p idx idle h w.waiting;
      }
      on_callback (some f) = record {
        shut = w.shut;
        no_calls = w.no_calls;
        open_queue = w.open_queue;
        waiting = get_elem?-set_other s.workers i j p idx (running p (idx + 1)) h w.waiting;
      }

  Step-Waits : {s t : State C} → Step s t → Waits s → Waits t
  unfolding process_queue call_run_with is_started
  Step-Waits (call s wid cb) w =
      subst
        (λ ph. Waits (if is_started ph then record s { calls = s.calls ++ (wid, cb) ∷ [] } else s))
        (sym w.shut) w
  Step-Waits (run_with s wid cb before after e) w =
      absurd (nil-ne-append before after (wid, cb) (sym w.no_calls ∙ e))
  Step-Waits (take s i p rest h e) w = let z = sym w.open_queue ∙ e in absurd (cc)
  Step-Waits (returned s i p idx h) w = process_at-Waits i p idx s (get_elem? s.heap p) h w
  Step-Waits (start s e) w = let z = sym w.shut ∙ e in absurd (cc)
  Step-Waits (shutdown s e) w = let z = sym w.shut ∙ e in absurd (cc)
  Step-Waits (closing s e) w = let z = sym w.shut ∙ e in absurd (cc)
  Step-Waits (exit s i h e) w = let z = sym w.open_queue ∙ e in absurd (cc)

  Reach-Waits : {s t : State C} → Waits s → Reach s t → Waits t
  Reach-Waits w here = w
  Reach-Waits w (next r st) = Step-Waits st (Reach-Waits w r)

module _ {C : Type 0} (s : State C) (j : ℕ) (cb : C) where
  abbrev callback_work : Work C
  callback_work = record { wid = []; queue = cb ∷ [] }

  abbrev after_enqueue : State C
  after_enqueue = record s {
    calls = [];
    heap = s.heap ++ callback_work ∷ [];
    workqueue = some (length s.heap ∷ []);
  }

  abbrev after_take : State C
  after_take = record after_enqueue {
    workqueue = some [];
    workers = set s.workers j (running (length s.heap) 1);
  }

  abbrev after_return : State C
  after_return = record after_take { workers = set after_take.workers j idle }

  found : get_elem? (s.heap ++ callback_work ∷ []) (length s.heap) ≡ some callback_work
  found =
      rw (get_elem?-append_one s.heap callback_work (length s.heap))
        (ground (arith, ==_iff (length s.heap) (length s.heap)))

  enqueue-eq : s.workqueue ≡ none → enqueue [] cb (record s { calls = [] }) ≡ after_enqueue
  unfolding enqueue
  enqueue-eq none_queued =
      ap {B = State C}
        (λ q. record s {
          calls = [];
          heap = s.heap ++ callback_work ∷ [];
          workqueue = some (or_nil q ++ length s.heap ∷ []);
        })
        none_queued

  take-eq :
      (process_queue j (length s.heap) 0 (record after_enqueue { workqueue = some [] })).0
      ≡ after_take
  unfolding process_queue
  take-eq = rw found

  return-eq : (process_queue j (length s.heap) 1 after_take).0 ≡ after_return
  unfolding process_queue
  return-eq = rw found

  -- If `close` has closed the queue, one call of `runWith` with the empty identifier has passed its
  -- test of the state and is still under way, and some worker waits, then steps lead to a state from
  -- which that worker waits in every state that is reached, with the queue open and empty: it never
  -- returns.
  pub Reach-reopened :
      s.phase ≡ closed
      → s.workqueue ≡ none
      → s.calls ≡ ([], cb) ∷ []
      → get_elem? s.workers j ≡ some idle
      → (t : State C) × Reach s t
        × ((u : State C)
            → Reach t u
            → (u.workqueue ≡ some []) × (get_elem? u.workers j ≡ some idle))
  Reach-reopened shut none_queued one_call h =
      let first : Step s after_enqueue =
        subst (Step s) (enqueue-eq none_queued) (run_with s [] cb [] [] one_call) in
      let second : Step after_enqueue after_take =
        subst (Step after_enqueue) take-eq (take after_enqueue j (length s.heap) [] h refl) in
      let running_j = get_elem?-set_self s.workers j idle (running (length s.heap) 1) h in
      let third : Step after_take after_return =
        subst (Step after_take) return-eq (returned after_take j (length s.heap) 1 running_j) in
      let stuck : Waits j after_return = record {
        shut = shut;
        no_calls = refl;
        open_queue = refl;
        waiting =
            get_elem?-set_self after_take.workers j (running (length s.heap) 1) idle running_j;
      } in
      (
        after_return,
        next (next (next here first) second) third,
        λ u r. let w = Reach-Waits j stuck r in (w.open_queue, w.waiting),
      )
