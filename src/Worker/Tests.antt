-- ===== src/Worker/Tests.antt =====
-- Runs of the work queue, and the theorems about it at two workers.
use Prim.Native.Nat.{ℕ}
use go_res.Base.{Bytes, codes, str_eq, true, some, none, [], ◌∷◌, ◌++◌, ◌≡◌, refl, get_elem?, arith}
use go_res.Params.{lookup}
use go_res.Pattern.Valid.{is_nil}
use go_res.Worker.{
  Work, idle, running, started, closed, State, initial, call_run_with, enqueue, process_queue,
  close,
}
use go_res.Worker.Step.{Reach, here, next, call, run_with, take, start, shutdown, closing}
use go_res.Worker.Exclusion.{Reach-exclusive}
use go_res.Worker.Closing.{Reach-reopened}
use go_res.Worker.Order.{of_group, pending, queued}
use go_res.Worker.Order
use go_res.Worker.Order.Fifo.{Reach-fifo}
use go_res.Worker.Order.Held.{Served}

-- Two callbacks of one group, and one of another, are two works.
abbrev queued_state : State ℕ
queued_state = enqueue (codes "b") 3 (enqueue (codes "a") 2 (enqueue (codes "a") 1 (initial 2)))

queued_works :
    queued_state.heap
    ≡ record { wid = codes "a"; queue = 1 ∷ 2 ∷ [] }
      ∷ record { wid = codes "b"; queue = 3 ∷ [] }
      ∷ []
unfolding enqueue initial lookup str_eq
queued_works = refl

-- The service is started, and two callbacks of handlers that run in parallel are queued, each by a
-- call that has passed the test of the state.
abbrev ready : State ℕ
ready = record (initial 2) { phase = started }

abbrev one_calls : Bytes → State ℕ
one_calls wid = call_run_with wid 1 ready

abbrev one_queued : Bytes → State ℕ
one_queued wid = enqueue wid 1 (record (one_calls wid) { calls = [] })

abbrev two_calls : Bytes → State ℕ
two_calls wid = call_run_with wid 2 (one_queued wid)

abbrev two_queued : Bytes → State ℕ
two_queued wid = enqueue wid 2 (record (two_calls wid) { calls = [] })

both_queued :
    (wid : Bytes) (e : (one_calls wid).calls ≡ (wid, 1) ∷ [])
    → (two_calls wid).calls ≡ (wid, 2) ∷ []
    → Reach (initial 2) (two_queued wid)
unfolding initial
both_queued wid e f =
    next
      (next
        (next (next (next here (start (initial 2) refl)) (call ready wid 1))
          (run_with (one_calls wid) wid 1 [] [] e))
        (call (one_queued wid) wid 2))
      (run_with (two_calls wid) wid 2 [] [] f)

abbrev parallel_work : ℕ → Work ℕ
parallel_work cb = record { wid = []; queue = cb ∷ [] }

abbrev one_running : State ℕ
one_running = (process_queue 0 0 0 (record (two_queued []) { workqueue = some (1 ∷ []) })).0

abbrev both_running : State ℕ
both_running = (process_queue 1 1 0 (record one_running { workqueue = some [] })).0

both_reached : Reach (initial 2) both_running
unfolding enqueue initial process_queue call_run_with
both_reached =
    next (next (both_queued [] refl refl) (take (two_queued []) 0 0 (1 ∷ []) refl refl))
      (take one_running 1 1 [] refl refl)

worker_at :
    (get_elem? both_running.workers 0 ≡ some (running 0 1))
    × (get_elem? both_running.workers 1 ≡ some (running 1 1))
unfolding enqueue initial process_queue call_run_with
worker_at = (refl, refl)

work_at :
    (get_elem? both_running.heap 0 ≡ some (parallel_work 1))
    × (get_elem? both_running.heap 1 ≡ some (parallel_work 2))
unfolding enqueue initial process_queue call_run_with
work_at = (refl, refl)

Reach-exclusive_example : is_nil (parallel_work 1).wid ≡ true
Reach-exclusive_example =
    Reach-exclusive 2 both_running 0 1 0 1 1 1 (parallel_work 1) (parallel_work 2) both_reached
      (omega arith) worker_at.0 worker_at.1 work_at.0 work_at.1 refl

-- A call passes its test of the state, and Shutdown closes the queue before the call takes the mutex.
abbrev under_way : State ℕ
under_way = record {
  heap = [];
  rwork = [];
  workqueue = none;
  workers = idle ∷ [];
  phase = closed;
  calls = ([], 5) ∷ [];
}

under_way_reached : Reach (initial 1) under_way
unfolding initial call_run_with close
under_way_reached =
    next (next (next (next here (start _ refl)) (call _ [] 5)) (shutdown _ refl)) (closing _ refl)

Reach-reopened_example :
    (t : State ℕ) × Reach under_way t
    × ((u : State ℕ) → Reach t u → (u.workqueue ≡ some []) × (get_elem? u.workers 0 ≡ some idle))
Reach-reopened_example = Reach-reopened under_way 0 5 refl refl refl refl

-- Two callbacks of one group, the first of which was started.
abbrev first_started : State ℕ
first_started = (process_queue 0 0 0 (record (two_queued (codes "a")) { workqueue = some [] })).0

first_reached : Reach (initial 2) first_started
unfolding enqueue initial process_queue lookup str_eq call_run_with
first_reached =
    next (both_queued (codes "a") refl refl) (take (two_queued (codes "a")) 0 0 [] refl refl)

second_pending : pending (codes "a") first_started ≡ 2 ∷ []
unfolding enqueue initial process_queue lookup str_eq call_run_with
second_pending = refl

Reach-fifo_example :
    (of_group (codes "a") (queued first_reached)
      ≡ of_group (codes "a") (Order.started first_reached) ++ pending (codes "a") first_started)
    × Served (codes "a") refl first_started
Reach-fifo_example = Reach-fifo (codes "a") refl 2 first_reached
