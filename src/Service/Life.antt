-- ===== src/Service/Life.antt =====
-- `Serve`, `ListenAndServe`, `serve` and `Shutdown` of service.go: how `s.state` is changed.
pub mod Stuck
pub mod Starting
use go_res.Base.{ℕ, zero, suc, ◌+◌, Bool, true, false, Option, none, some, List, [], ◌∷◌, ◌++◌, ◌≡◌}

-- stateStopped, stateStarting, stateStarted and stateStopping.
pub data Stage : Type 0 where
  stopped starting started stopping : Stage

-- A goroutine in `serve`: ahead of the store of stateStarted, or behind it.
pub data Server : Type 0 where
  preparing listening : Server

pub record Life : Type 0 where
  pub stage : Stage
  pub servers : List Server

-- `atomic.CompareAndSwapInt32(&s.state, stateStopped, stateStarting)`, by which Serve and
-- ListenAndServe begin, and that of Shutdown; `none` is errNotStopped or errNotStarted.
unfoldable pub begin_serve : Stage → Option Stage
begin_serve stopped = some starting
begin_serve starting = none
begin_serve started = none
begin_serve stopping = none

unfoldable pub begin_shutdown : Stage → Option Stage
begin_shutdown stopped = none
begin_shutdown starting = none
begin_shutdown started = some stopping
begin_shutdown stopping = none

-- What a goroutine does at a time. `serve` may return an error before the service is started, that
-- of `nats.Connect` or of ValidateListeners; it leaves the state. It leaves for good when the
-- channel of messages is closed. What a failed `subscribe` starts is a Shutdown.
pub data Step : Life → Life → Type 0 where
  serve :
      (s : Life) (g : Stage)
      → begin_serve s.stage ≡ some g
      → Step s (record { stage = g; servers = preparing ∷ s.servers })
  fail :
      (s : Life) (before after : List Server)
      → s.servers ≡ before ++ preparing ∷ after
      → Step s (record s { servers = before ++ after })
  start :
      (s : Life) (before after : List Server)
      → s.servers ≡ before ++ preparing ∷ after
      → Step s (record { stage = started; servers = before ++ listening ∷ after })
  shutdown :
      (s : Life) (g : Stage) → begin_shutdown s.stage ≡ some g → Step s (record s { stage = g })
  -- the store of stateStopped, by the goroutine that set stateStopping
  stop : (s : Life) → s.stage ≡ stopping → Step s (record s { stage = stopped })
  leave :
      (s : Life) (before after : List Server)
      → s.servers ≡ before ++ listening ∷ after
      → Step s (record s { servers = before ++ after })

pub data Reach (s : Life) : Life → Type 0 where
  here : Reach s s
  next : {t u : Life} → Reach s t → Step t u → Reach s u
