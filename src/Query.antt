-- ===== src/Query.antt =====
-- queryevent.go: the requests that a query event brings, and their one reply.
--
-- The callback of a query event is a finite script of calls on its request. Its calls of the methods
-- of Resource, but for those that the request overrides, are events of Events and not in a script.
pub mod Answered
pub mod Shown
mod Tests
use go_res.Base.{
  if◌then◌else◌, codes, Bytes, Bool, true, false, not, Option, none, some, List, [], ◌∷◌, ◌++◌,
}
use go_res.Pattern.Valid.{is_nil}
use go_res.Events.{ℤ, ResourceType}
use go_res.Events.Send.{is_model, is_collection}
use go_res.Request.Reply.{
  Error, Static, Payload, static, encoded, Marshalled, bytes, failed, Failure, res_error, plain,
  Raised, failure,
}
use go_res.Request.Execute.{to_error, raised_failure}

-- codec.go: `resEvent`.
pub data ResEvent (V : Type 0) : Type 0 where
  change_event : List (Bytes × V) → ResEvent V
  add_event : V → ℤ → ResEvent V
  remove_event : ℤ → ResEvent V

-- What is put in a response: `modelResponse`, `collectionResponse`, `queryResponse`, or an error.
pub data QueryResponse (V : Type 0) : Type 0 where
  of_model of_collection : V → QueryResponse V
  of_events : List (ResEvent V) → QueryResponse V
  of_error : Error → QueryResponse V

-- The struct `queryRequest`, with the type of its resource. `replies` holds what was published by
-- `reply`, and `notices` what Timeout published.
pub record QueryRequest (V : Type 0) : Type 0 where
  pub rtype : ResourceType
  pub query : Bytes
  pub events : List (ResEvent V)
  pub replied : Bool
  pub replies : List Payload
  pub notices : List Bytes

pub data Outcome (V : Type 0) : Type 0 where
  done : QueryRequest V → Outcome V
  raised : Raised → QueryRequest V → Outcome V

abbrev pub left : {V : Type 0} → Outcome V → QueryRequest V
left (done r) = r
left (raised v r) = r

pub data Action (V : Type 0) : Type 0 where
  model collection : V → Action V
  change : List (Bytes × V) → Action V
  add : V → ℤ → Action V
  remove : ℤ → Action V
  not_found : Action V
  invalid_query : Bytes → Action V
  error_result : Failure → Action V
  timeout : Bool → Bytes → Action V

-- A handler, as in Request/Execute.
pub data Script (V : Type 0) : Type 0 where
  finish : Script V
  throw : Raised → Script V
  call attempt : Action V → Script V → Script V

-- What `json.Unmarshal` makes of the data of the message.
pub data Parsed : Type 0 where
  no_data : Parsed
  bad_data : Failure → Parsed
  with_query : Bytes → Parsed

is_negative : ℤ → Bool
is_negative (ℤ.pos n) = false
is_negative (ℤ.negsuc n) = true

-- `&queryRequest{resource: qe.r, msg: m}`
abbrev pub fresh : {V : Type 0} → ResourceType → QueryRequest V
fresh rtype = record {
  rtype = rtype;
  query = [];
  events = [];
  replied = false;
  replies = [];
  notices = [];
}

-- A second reply is logged and not sent.
unfoldable pub reply : {V : Type 0} → Payload → QueryRequest V → QueryRequest V
reply payload r =
    if r.replied then r else record r { replied = true; replies = r.replies ++ payload ∷ [] }

add_to_events : {V : Type 0} → ResEvent V → QueryRequest V → QueryRequest V
add_to_events ev r = record r { events = r.events ++ ev ∷ [] }

module _ {V : Type 0} (marshal : QueryResponse V → Marshalled) where
  payload_or_internal : Marshalled → Payload
  payload_or_internal (bytes b) = encoded b
  payload_or_internal (failed why) = static Static.internal

  -- The method `error`.
  query_error : Error → QueryRequest V → QueryRequest V
  unfolding payload_or_internal reply
  query_error e r = reply (payload_or_internal (marshal (of_error e))) r

  query_success : Marshalled → QueryRequest V → QueryRequest V
  unfolding query_error to_error reply
  query_success (bytes b) r = reply (encoded b) r
  query_success (failed why) r = query_error (to_error (plain why)) r

  -- Each method tests the type of the resource first.
  allowed : Bool → Bytes → QueryRequest V → Outcome V → Outcome V
  allowed forbidden why r o = if forbidden then raised (Raised.text why) r else o

  query_act : Action V → QueryRequest V → Outcome V
  unfolding allowed query_success query_error reply add_to_events is_negative to_error is_model
      is_collection
  query_act (model v) r =
      allowed (is_collection r.rtype) (codes "res: model response not allowed on query collections")
        r (done (query_success (marshal (of_model v)) r))
  query_act (collection v) r =
      allowed (is_model r.rtype) (codes "res: collection response not allowed on query models") r
        (done (query_success (marshal (of_collection v)) r))
  query_act (change vs) r =
      allowed (is_collection r.rtype) (codes "res: change event not allowed on query collections") r
        (if is_nil vs then done r else done (add_to_events (change_event vs) r))
  query_act (add v i) r =
      allowed (is_model r.rtype) (codes "res: add event not allowed on query models") r (
        allowed (is_negative i) (codes "res: add event idx less than zero") r
          (done (add_to_events (add_event v i) r)))
  query_act (remove i) r =
      allowed (is_model r.rtype) (codes "res: remove event not allowed on query models") r (
        allowed (is_negative i) (codes "res: remove event idx less than zero") r
          (done (add_to_events (remove_event i) r)))
  query_act not_found r = done (reply (static Static.not_found) r)
  query_act (invalid_query m) r =
      if is_nil m
      then done (reply (static Static.invalid_query) r)
      else done (query_error (record { code = codes "system.invalidQuery"; message = m }) r)
  query_act (error_result e) r = done (query_error (to_error e) r)
  query_act (timeout negative text) r =
      allowed negative (codes "res: negative timeout duration") r
        (done (record r { notices = r.notices ++ text ∷ [] }))

  go_on : (QueryRequest V → Outcome V) → Outcome V → Outcome V
  go_on next (done r) = next r
  go_on next (raised v r) = raised v r

  run_callback : Script V → QueryRequest V → Outcome V
  unfolding go_on query_act
  run_callback finish r = done r
  run_callback (throw v) r = raised v r
  run_callback (call a k) r = go_on (run_callback k) (query_act a r)
  run_callback (attempt a k) r = run_callback k (left (query_act a r))

  -- The deferred function of `executeCallback`.
  recovered : Outcome V → QueryRequest V
  unfolding query_error to_error raised_failure
  recovered (done r) = r
  recovered (raised v r) = if r.replied then r else query_error (to_error (raised_failure v)) r

  execute_callback : Script V → QueryRequest V → QueryRequest V
  unfolding recovered run_callback
  execute_callback k r = recovered (run_callback k r)

  -- The reply with the events.
  unfoldable pub events_payload : List (ResEvent V) → Payload
  unfolding payload_or_internal
  events_payload [] = static Static.no_query_events
  events_payload (ev ∷ evs) = payload_or_internal (marshal (of_events (ev ∷ evs)))

  -- What comes behind the callback; a reply that was sent is not sent again.
  reply_events : QueryRequest V → QueryRequest V
  unfolding events_payload reply
  reply_events r = if r.replied then r else reply (events_payload r.events) r

  handle_parsed : Script V → Parsed → QueryRequest V → QueryRequest V
  unfolding reply query_error to_error execute_callback reply_events
  handle_parsed k no_data r = reply (static Static.missing_query) r
  handle_parsed k (bad_data e) r = query_error (to_error e) r
  handle_parsed k (with_query q) r =
      if is_nil q
      then reply (static Static.missing_query) r
      else reply_events (execute_callback k (record r { query = q }))

  unfoldable pub handle_query_request : ResourceType → Script V → Parsed → QueryRequest V
  unfolding handle_parsed
  handle_query_request rtype k parsed = handle_parsed k parsed (fresh rtype)
