-- ===== src/Request/Execute.antt =====
-- A handler's calls on its request, and `executeHandler`.
pub mod Counted
pub mod Answered
use go_res.Base.{
  ℕ, if◌then◌else◌, ◌==◌, str_eq, codes, Bytes, Bool, true, false, not, ◌&&◌, Option, none, some,
  or_else, List, [], ◌∷◌, ◌++◌,
}
use go_res.Params.{lookup}
use go_res.Pattern.Valid.{is_nil}
use go_res.Rid.{is_valid_rid}
use go_res.Request.Reply.{
  Error, internal_error, Static, Content, Response, Payload, Marshalled, Failure, res_error, plain,
  Raised, failure, Request, Outcome, done, raised, left, reply, meta, reply_error, reply_success,
  reply_marshalled, reply_static_or_error, reply_invalid, reply_ok, reply_denied, reply_granted,
}

-- The methods that a handler may call. What the standard library does is given with the call: the
-- text of the error that `json.Unmarshal` returns.
pub data Action (V : Type 0) : Type 0 where
  ok_result : Option V → Action V
  resource : Bytes → Action V
  error_result : Failure → Action V
  not_found method_not_found : Action V
  invalid_params invalid_query : Bytes → Action V
  access : Bool → Bytes → Action V
  access_denied access_granted : Action V
  model collection : V → Bytes → Action V
  new : Bytes → Action V
  parse_params parse_token : Option Bytes → Action V
  timeout : Bool → Bytes → Action V
  token_event : Bytes → Action V
  set_response_status : ℕ → Action V
  response_header : Bytes → Action V

-- errors.go: `ToError`.
unfoldable pub to_error : Failure → Error
to_error (res_error e) = e
to_error (plain why) = internal_error why

-- The error that a value of a panic is made to.
unfoldable pub raised_failure : Raised → Failure
raised_failure (failure e) = e
raised_failure (Raised.text why) = plain why
raised_failure (Raised.other why) = plain why

-- A handler that ends: by returning, or by a panic. A call's panic ends it too, but for a call that
-- it recovers from. What a handler does besides calls on the request is not modelled.
pub data Script (V : Type 0) : Type 0 where
  finish : Script V
  throw : Raised → Script V
  call attempt : Action V → Script V → Script V

-- service.go: the fields of the struct `Handler` for requests.
pub record Handlers (V : Type 0) : Type 0 where
  pub access : Option (Script V)
  pub get : Option (Script V)
  pub call : List (Bytes × Script V)
  pub new : Option (Script V)
  pub auth : List (Bytes × Script V)

-- What `executeHandler` runs: nothing, a predefined reply, or a handler; the flag tells that the
-- test for a missing response comes behind it.
pub data Choice (V : Type 0) : Type 0 where
  nothing : Choice V
  predefined : Static → Choice V
  run : Script V → Bool → Choice V

-- The guard of SetResponseStatus and ResponseHeader.
http_guard : Bytes → Request → Request → Outcome
http_guard name r r' =
    if not r.is_http
    then raised (Raised.text (name ++ codes " when IsHTTP is false")) r
    else if r.replied
    then raised (Raised.text (name ++ codes " after reply")) r
    else done r'

module _ {V : Type 0} (marshal : Response V → Marshalled) where
  act : Action V → Request → Outcome
  unfolding http_guard to_error reply_ok reply_marshalled reply_static_or_error reply_invalid
      reply_denied reply_granted
  act (ok_result v) r = reply_ok marshal v (meta r) r
  act (resource rid) r =
      if not (is_valid_rid rid)
      then raised (Raised.text (codes "res: invalid resource ID: " ++ rid)) r
      else reply_marshalled marshal (marshal (Response.of_resource rid (meta r))) r
  act (error_result e) r = reply_error marshal (to_error e) (meta r) r
  act not_found r =
      reply_static_or_error marshal Static.not_found
        (record { code = codes "system.notFound"; message = codes "Not found" }) (meta r) r
  act method_not_found r =
      reply_static_or_error marshal Static.method_not_found
        (record { code = codes "system.methodNotFound"; message = codes "Method not found" })
        (meta r) r
  act (invalid_params message) r =
      reply_invalid marshal Static.invalid_params (codes "system.invalidParams")
        (codes "Invalid parameters") message r
  act (invalid_query message) r =
      reply_invalid marshal Static.invalid_query (codes "system.invalidQuery")
        (codes "Invalid query") message r
  act (access get calls) r =
      if not get && is_nil calls
      then reply_denied marshal r
      else reply_success marshal (Content.access get calls) (meta r) r
  act access_denied r = reply_denied marshal r
  act access_granted r = reply_granted marshal (meta r) r
  act (model v query) r = reply_success marshal (Content.model v query) none r
  act (collection v query) r = reply_success marshal (Content.collection v query) none r
  -- The value of the panic is a Ref, not a string.
  act (new rid) r =
      if not (is_valid_rid rid)
      then raised (Raised.other (codes "res: invalid reference RID: " ++ rid)) r
      else reply_success marshal (Content.reference rid) none r
  act (parse_params none) r = done r
  act (parse_params (some why)) r =
      raised (failure (res_error (record { code = codes "system.invalidParams"; message = why }))) r
  act (parse_token none) r = done r
  act (parse_token (some why)) r = raised (failure (res_error (internal_error why))) r
  act (timeout negative text) r =
      if negative
      then raised (Raised.text (codes "res: negative timeout duration")) r
      else done (record r { notices = r.notices ++ text ∷ [] })
  act (token_event text) r = done (record r { notices = r.notices ++ text ∷ [] })
  act (set_response_status code) r =
      http_guard (codes "call to SetResponseStatus") r (record r { status = code })
  act (response_header name) r =
      http_guard (codes "call to ResponseHeader") r (record r { rheader = name ∷ r.rheader })

  -- How a handler goes on behind a call.
  go_on : (Request → Outcome) → Outcome → Outcome
  go_on next (done r) = next r
  go_on next (raised v r) = raised v r

  run_script : Script V → Request → Outcome
  unfolding go_on act
  run_script finish r = done r
  run_script (throw v) r = raised v r
  run_script (call a k) r = go_on (run_script k) (act a r)
  run_script (attempt a k) r = run_script k (left (act a r))

  with_default : List (Bytes × Script V) → Bytes → Choice V
  with_default handlers method =
      elim (or_else (lookup method handlers) (lookup (codes "*") handlers)) [
        | none ↦ predefined Static.method_not_found
        | some h ↦ run h true
      ]

  choose_call : Handlers V → Bytes → Option (Script V) → Choice V
  unfolding with_default
  choose_call hs method (some h) =
      if str_eq method (codes "new") then run h false else with_default hs.call method
  choose_call hs method none = with_default hs.call method

  -- The switch over the request type.
  unfoldable pub choose : Handlers V → Bytes → Bytes → Choice V
  unfolding choose_call
  choose hs rtype method =
      if str_eq rtype (codes "access")
      then elim hs.access [ none ↦ nothing | some h ↦ run h true ]
      else if str_eq rtype (codes "get")
      then elim hs.get [ none ↦ predefined Static.not_found | some h ↦ run h true ]
      else if str_eq rtype (codes "call")
      then choose_call hs method hs.new
      else if str_eq rtype (codes "auth")
      then with_default hs.auth method
      else nothing

  reply_missing : Request → Outcome
  reply_missing r = if r.replied then done r else reply (Payload.static Static.missing_response) r

  perform : Choice V → Request → Outcome
  unfolding go_on reply_missing run_script
  perform nothing r = done r
  perform (predefined s) r = reply (Payload.static s) r
  perform (run h true) r = go_on reply_missing (run_script h r)
  perform (run h false) r = run_script h r

  -- The deferred function.
  recover : Outcome → Request
  unfolding to_error raised_failure
  recover (done r) = r
  recover (raised v r) =
      if r.replied then r else left (reply_error marshal (to_error (raised_failure v)) (meta r) r)

  unfoldable pub execute_handler : Handlers V → Request → Request
  unfolding recover perform choose
  execute_handler hs r = recover (perform (choose hs r.rtype r.method) r)
