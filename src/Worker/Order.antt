-- ===== src/Worker/Order.antt =====
-- What was queued and what was started, in the order of the steps, and what is still pending.
pub mod Progress
pub mod Entries
pub mod Queued
pub mod Held
pub mod Fifo
use go_res.Base.{
  ℕ, zero, suc, ◌+◌, if◌then◌else◌, ◌==◌, str_eq, drop, length, get_elem?, Bytes, Bool, true, false,
  Option, none, some, List, [], ◌∷◌, ◌++◌,
}
use go_res.Params.{lookup}
use go_res.Worker.{Work, Worker, idle, exited, running, State, process_queue}
use go_res.Worker.Step.{
  Step, call, run_with, take, returned, start, shutdown, closing, exit, Reach, here, next,
}

-- How many callbacks of a work were started: the index that its worker goes on with.
abbrev pub progress : ℕ → List Worker → ℕ
progress p [] = 0
progress p (idle ∷ ws) = progress p ws
progress p (exited ∷ ws) = progress p ws
progress p (running q idx ∷ ws) = if q == p then idx else progress p ws

module _ {C : Type 0} where
  -- The callbacks of one identifier, in their order.
  abbrev pub of_group : Bytes → List (Bytes × C) → List C
  of_group wid [] = []
  of_group wid ((k, cb) ∷ log) = if str_eq k wid then cb ∷ of_group wid log else of_group wid log

  abbrev pub pending_work : ℕ → Option (Work C) → List C
  pending_work k none = []
  pending_work k (some w) = drop k w.queue

  abbrev pub pending_at : List (Work C) → List Worker → Option ℕ → List C
  pending_at heap workers none = []
  pending_at heap workers (some p) = pending_work (progress p workers) (get_elem? heap p)

  -- The callbacks of the work of an identifier that were not started.
  abbrev pub pending : Bytes → State C → List C
  pending wid s = pending_at s.heap s.workers (lookup wid s.rwork)

  abbrev pub started_of : Option (Work C) → Option C → List (Bytes × C)
  started_of none o = []
  started_of (some w) none = []
  started_of (some w) (some cb) = (w.wid, cb) ∷ []

  -- What a step queues, and the callback that it starts.
  abbrev pub queued_by : {s t : State C} → Step s t → List (Bytes × C)
  queued_by (call s wid cb) = []
  queued_by (start s e) = []
  queued_by (shutdown s e) = []
  queued_by (run_with s wid cb before after e) = (wid, cb) ∷ []
  queued_by (take s j p rest h e) = []
  queued_by (returned s j p idx h) = []
  queued_by (closing s e) = []
  queued_by (exit s j h e) = []

  abbrev pub started_by : {s t : State C} → Step s t → List (Bytes × C)
  started_by (call s wid cb) = []
  started_by (start s e) = []
  started_by (shutdown s e) = []
  started_by (run_with s wid cb before after e) = []
  started_by (take s j p rest h e) =
      started_of (get_elem? s.heap p) (process_queue j p 0 (record s { workqueue = some rest })).1
  started_by (returned s j p idx h) = started_of (get_elem? s.heap p) (process_queue j p idx s).1
  started_by (closing s e) = []
  started_by (exit s j h e) = []

  abbrev pub queued : {s t : State C} → Reach s t → List (Bytes × C)
  queued here = []
  queued (next r st) = queued r ++ queued_by st

  abbrev pub started : {s t : State C} → Reach s t → List (Bytes × C)
  started here = []
  started (next r st) = started r ++ started_by st
