-- ===== src/Worker.antt =====
-- worker.go, and `runWith` and `close` of service.go: the work queues of the service.
--
-- Each function below is what one goroutine does under the mutex `s.mu`, in one piece. A pointer to
-- a `work` is its index in the heap. A callback is run outside of the mutex, between two pieces.
pub mod Step
mod Tests
pub mod Lists
pub mod Exclusion
pub mod Closing
pub mod Order
use go_res.Base.{
  ℕ, zero, suc, ◌+◌, if◌then◌else◌, ◌==◌, str_eq, length, get_elem?, follow, Bytes, Bool, true,
  false, Option, none, some, List, [], ◌∷◌, ◌++◌,
}
use go_res.Params.{lookup}
use go_res.Pattern.Valid.{is_nil}

pub record Work (C : Type 0) : Type 0 where
  pub wid : Bytes
  pub queue : List C

-- A goroutine of `startWorker`: waiting for work, running the callback `queue[idx - 1]` of a work,
-- or returned.
pub data Worker : Type 0 where
  idle exited : Worker
  running : ℕ → ℕ → Worker

-- How far the service has come: `serve` has started its workers; it has stored stateStarted; Shutdown
-- has set stateStopping; `close`, which Shutdown calls, has left its section.
pub data Phase : Type 0 where
  starting started stopping closed : Phase

-- A nil workqueue, which signals that the service is closing, is `none`. `calls` are
-- the calls of `runWith` that have passed its test of the state, and wait for the mutex.
pub record State (C : Type 0) : Type 0 where
  pub heap : List (Work C)
  pub rwork : List (Bytes × ℕ)
  pub workqueue : Option (List ℕ)
  pub workers : List Worker
  pub phase : Phase
  pub calls : List (Bytes × C)

abbrev pub set {ℓ} : {A : Type ℓ} → List A → ℕ → A → List A
set [] i v = []
set (x ∷ xs) zero v = v ∷ xs
set (x ∷ xs) (suc i) v = x ∷ set xs i v

-- `s.rwork[wid] = w`, where the key is new, and `delete(s.rwork, wid)`.
pub delete : Bytes → List (Bytes × ℕ) → List (Bytes × ℕ)
delete wid [] = []
delete wid ((k, p) ∷ m) = if str_eq k wid then delete wid m else (k, p) ∷ delete wid m

abbrev pub or_nil {ℓ} : {A : Type ℓ} → Option (List A) → List A
or_nil none = []
or_nil (some xs) = xs

-- `atomic.LoadInt32(&s.state) == stateStarted`
pub is_started : Phase → Bool
is_started starting = false
is_started started = true
is_started stopping = false
is_started closed = false

abbrev replicate : ℕ → Worker → List Worker
replicate zero w = []
replicate (suc n) w = w ∷ replicate n w

module _ {C : Type 0} where
  -- What `serve` sets up for its workers.
  unfoldable pub initial : ℕ → State C
  initial count = record {
    heap = [];
    rwork = [];
    workqueue = some [];
    workers = replicate count idle;
    phase = starting;
    calls = [];
  }

  -- `w.queue = append(w.queue, cb)`
  pub append_callback : C → Work C → Work C
  append_callback cb w = record w { queue = w.queue ++ cb ∷ [] }

  pub update : List (Work C) → ℕ → (Work C → Work C) → List (Work C)
  update [] p f = []
  update (w ∷ ws) zero f = f w ∷ ws
  update (w ∷ ws) (suc p) f = w ∷ update ws p f

  -- `runWith` up to the mutex: its test of the service's state, by which it returns or goes on.
  unfoldable pub call_run_with : Bytes → C → State C → State C
  unfolding is_started
  call_run_with wid cb s =
      if is_started s.phase then record s { calls = s.calls ++ (wid, cb) ∷ [] } else s

  -- `runWith` behind its test of the service's state. Appending to a nil slice makes a slice.
  enqueue_new : Bytes → C → State C → State C
  enqueue_new wid cb s = record s {
    heap = s.heap ++ record { wid = wid; queue = cb ∷ [] } ∷ [];
    rwork = if is_nil wid then s.rwork else (wid, length s.heap) ∷ s.rwork;
    workqueue = some (or_nil s.workqueue ++ length s.heap ∷ []);
  }

  enqueue_at : Bytes → C → State C → Option ℕ → State C
  unfolding enqueue_new update append_callback
  enqueue_at wid cb s none = enqueue_new wid cb s
  enqueue_at wid cb s (some p) = record s { heap = update s.heap p (append_callback cb) }

  unfoldable pub enqueue : Bytes → C → State C → State C
  unfolding enqueue_at
  enqueue wid cb s = enqueue_at wid cb s (if is_nil wid then none else lookup wid s.rwork)

  -- The head of the loop of `processQueue`, and the end of the function. The callback that is run
  -- next comes with the new state.
  proceed : ℕ → ℕ → ℕ → State C → Work C → Option C → State C × Option C
  unfolding delete
  proceed j p idx s w (some f) =
      (record s { workers = set s.workers j (running p (idx + 1)) }, some f)
  proceed j p idx s w none = (
    record s {
      rwork = if is_nil w.wid then s.rwork else delete w.wid s.rwork;
      workers = set s.workers j idle;
    },
    none,
  )

  process_at : ℕ → ℕ → ℕ → State C → Option (Work C) → State C × Option C
  unfolding proceed
  process_at j p idx s none = (s, none)
  process_at j p idx s (some w) = proceed j p idx s w (get_elem? w.queue idx)

  unfoldable pub process_queue : ℕ → ℕ → ℕ → State C → State C × Option C
  unfolding process_at
  process_queue j p idx s = process_at j p idx s (get_elem? s.heap p)

  -- The section of `close`: `s.workqueue = nil`
  unfoldable pub close : State C → State C
  close s = record s { workqueue = none; phase = closed }
