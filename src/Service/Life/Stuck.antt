-- ===== src/Service/Life/Stuck.antt =====
-- A service whose start failed cannot be started again.
use go_res.Base.{List, ◌∷◌, ◌++◌, ◌≡◌, sym, ◌∙◌, ap, arith, none, none-ne-some}
use go_res.Service.Life.{
  starting, Server, preparing, listening, Life, begin_serve, begin_shutdown, Step, serve, fail,
  start, shutdown, stop, leave, Reach, here, next,
}
use go_res.Service.Life.Starting.{
  count_preparing, count-split, count-append, new_life, Reach-starting,
}

-- The service is starting, and no goroutine is about to start it.
abbrev pub IsStuck : Life → Type 0
IsStuck s = (s.stage ≡ starting) × (count_preparing s.servers ≡ 0)

Step-IsStuck : {s t : Life} → Step s t → IsStuck s → IsStuck t
unfolding begin_serve begin_shutdown
Step-IsStuck (serve s g e) (c, n) = absurd (none-ne-some (sym (ap begin_serve c) ∙ e))
Step-IsStuck (fail s before after e) (c, n) =
    absurd (omega (arith, count-split s before after preparing e, n))
Step-IsStuck (start s before after e) (c, n) =
    absurd (omega (arith, count-split s before after preparing e, n))
Step-IsStuck (shutdown s g e) (c, n) = absurd (none-ne-some (sym (ap begin_shutdown c) ∙ e))
Step-IsStuck (stop s e) (c, n) = absurd (ground (arith, c, e))
Step-IsStuck (leave s before after e) (c, n) =
    (c, omega (arith, count-split s before after listening e, count-append before after, n))

Reach-IsStuck : {s t : Life} → Reach s t → IsStuck s → IsStuck t
Reach-IsStuck here h = h
Reach-IsStuck (next r st) h = Step-IsStuck st (Reach-IsStuck r h)

-- If `serve` fails before it starts the service, by an error of ValidateListeners or of the
-- connection, then in every later state Serve and ListenAndServe return errNotStopped and Shutdown
-- returns errNotStarted.
pub Reach-stuck :
    (s t : Life) (before after : List Server)
    → Reach new_life s
    → s.servers ≡ before ++ preparing ∷ after
    → Reach (record s { servers = before ++ after }) t
    → (begin_serve t.stage ≡ none) × (begin_shutdown t.stage ≡ none)
unfolding begin_serve begin_shutdown
Reach-stuck s t before after r e r' =
    let (c, n) = Reach-IsStuck r' (Reach-starting s before after r e) in
    (ap begin_serve c, ap begin_shutdown c)
