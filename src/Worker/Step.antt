-- ===== src/Worker/Step.antt =====
-- The steps that the goroutines take in any order, and the states they lead to.
use go_res.Base.{ℕ, ◌++◌, get_elem?, Bytes, none, some, List, ◌∷◌, ◌≡◌}
use go_res.Worker.{
  idle, exited, running, starting, started, stopping, State, set, call_run_with, enqueue,
  process_queue, close,
}

module _ {C : Type 0} where
  -- A caller of `runWith` at its test of the state, and one in its section; a worker that takes the
  -- first work of the queue; a worker whose callback has returned; the store of stateStarted; the
  -- change of Shutdown from stateStarted to stateStopping; the section of `close`; a worker that sees
  -- the closed queue.
  pub data Step : State C → State C → Type 0 where
    call : (s : State C) (wid : Bytes) (cb : C) → Step s (call_run_with wid cb s)
    run_with :
        (s : State C) (wid : Bytes) (cb : C) (before after : List (Bytes × C))
        → s.calls ≡ before ++ (wid, cb) ∷ after
        → Step s (enqueue wid cb (record s { calls = before ++ after }))
    take :
        (s : State C) (j p : ℕ) (rest : List ℕ)
        → get_elem? s.workers j ≡ some idle
        → s.workqueue ≡ some (p ∷ rest)
        → Step s (process_queue j p 0 (record s { workqueue = some rest })).0
    returned :
        (s : State C) (j p idx : ℕ)
        → get_elem? s.workers j ≡ some (running p idx)
        → Step s (process_queue j p idx s).0
    start : (s : State C) → s.phase ≡ starting → Step s (record s { phase = started })
    shutdown : (s : State C) → s.phase ≡ started → Step s (record s { phase = stopping })
    closing : (s : State C) → s.phase ≡ stopping → Step s (close s)
    exit :
        (s : State C) (j : ℕ)
        → get_elem? s.workers j ≡ some idle
        → s.workqueue ≡ none
        → Step s (record s { workers = set s.workers j exited })

  pub data Reach (s : State C) : State C → Type 0 where
    here : Reach s s
    next : {t u : State C} → Reach s t → Step t u → Reach s u
