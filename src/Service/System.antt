-- ===== src/Service/System.antt =====
-- Reset, ResetAll, TokenEvent, TokenEventWithID and TokenReset of service.go.
pub mod Subjects
pub mod All
use go_res.Base.{
  if◌then◌else◌, codes, Bytes, Bool, true, false, not, ◌&&◌, ◌||◌, Option, none, some, List, [],
  ◌∷◌, ◌++◌,
}
use go_res.Pattern.Valid.{is_nil, is_valid_path}
use go_res.Rid.{is_valid_part}
use go_res.Mux.Tree.{Node}
use go_res.Mux.Lookup.{RegHandler}
use go_res.Request.Execute.{Handlers}
use go_res.Dispatch.Subscribe.{Ownership, or_empty, set_default_ownership}
use go_res.Service.Life.{Stage, stopped, starting, started, stopping}

-- The payloads: `resetEvent`, `tokenEvent` and `tokenResetEvent` of codec.go. A nil token is `none`.
pub data SystemEvent (V : Type 0) : Type 0 where
  reset_event : List Bytes → List Bytes → SystemEvent V
  token_event : Option V → Bytes → SystemEvent V
  token_reset_event : List Bytes → Bytes → SystemEvent V

-- What a call does: it returns behind what it published, with the subjects, or it panics.
pub data Called (V : Type 0) : Type 0 where
  returned : List (Bytes × SystemEvent V) → Called V
  panicked : Bytes → Called V

pub data SystemCall (V : Type 0) : Type 0 where
  reset : List Bytes → List Bytes → SystemCall V
  token : Bytes → Option V → SystemCall V
  token_with_id : Bytes → Bytes → Option V → SystemCall V
  token_reset : Bytes → List Bytes → SystemCall V

-- `atomic.LoadInt32(&s.state) == stateStarted`
unfoldable pub is_started : Stage → Bool
is_started stopped = false
is_started starting = false
is_started started = true
is_started stopping = false

-- `encodes` tells whether `json.Marshal` succeeds.
module _ {V : Type 0} (encodes : SystemEvent V → Bool) where
  publish : Bytes → SystemEvent V → Called V
  publish subject ev = returned (if encodes ev then (subject, ev) ∷ [] else [])

  -- The method `reset`. An empty slice and nil are the same list here.
  unfoldable pub send_reset : List Bytes → List Bytes → Called V
  unfolding publish
  send_reset resources access =
      if is_nil resources && is_nil access
      then returned []
      else publish (codes "system.reset") (reset_event resources access)

  send_token : Bytes → Bytes → Option V → Called V
  unfolding publish
  send_token cid tid v =
      if not (is_valid_part cid)
      then panicked (codes "res: invalid connection ID")
      else publish (codes "conn." ++ (cid ++ codes ".token")) (token_event v tid)

  send_token_reset : Bytes → List Bytes → Called V
  unfolding publish
  send_token_reset subject tids =
      if is_nil subject || not (is_valid_path subject)
      then panicked (codes "res: invalid token reset subject")
      else if is_nil tids
      then returned []
      else publish (codes "system.tokenReset") (token_reset_event tids subject)

  send_system : SystemCall V → Called V
  unfolding send_reset send_token send_token_reset
  send_system (reset resources access) = send_reset resources access
  send_system (token cid v) = send_token cid [] v
  send_system (token_with_id cid tid v) = send_token cid tid v
  send_system (token_reset subject tids) = send_token_reset subject tids

  unfoldable pub call_system : Stage → SystemCall V → Called V
  unfolding is_started send_system
  call_system stage c = if not (is_started stage) then returned [] else send_system c

  -- The method ResetAll: the service's ownership behind the call, and what the call does.
  unfoldable pub reset_all :
      {W L : Type 0}
      → Stage
      → Bytes
      → Node (RegHandler (Handlers W)) L
      → Ownership
      → Ownership × Called V
  unfolding is_started send_reset
  reset_all stage path root o =
      if not (is_started stage)
      then (o, returned [])
      else (let owned = set_default_ownership path root o in
          (owned, send_reset (or_empty owned.reset_resources) (or_empty owned.reset_access)))
