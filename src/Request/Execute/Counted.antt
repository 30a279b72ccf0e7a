-- ===== src/Request/Execute/Counted.antt =====
-- The flag `replied` counts the replies, whatever a handler does.
use go_res.Base.{
  by_test, if◌then◌else◌, codes, length, length-append, Bytes, Bool, true, false, not, Option, none,
  some, [], ◌∷◌, ◌≡◌, refl, arith,
}
use go_res.Pattern.Valid.{is_nil}
use go_res.Request.Reply.{
  Error, Static, Content, Meta, Response, Payload, Marshalled, bytes, failed, Raised, Request,
  Outcome, done, raised, left, reply, reply_error, reply_success, reply_marshalled,
  reply_static_or_error, reply_invalid, reply_ok, reply_denied, reply_granted,
}
use go_res.Request.Execute.{
  Action, Script, Handlers, Choice, nothing, predefined, run, finish, throw, call, attempt, act,
  go_on, run_script, choose, reply_missing, perform, recover, http_guard, execute_handler,
}

-- The flag `replied` counts the replies.
pub record IsCounted (o : Outcome) : Type 0 where
  counts : length (left o).replies ≡ (if (left o).replied then 1 else 0)

raised-IsCounted : {v : Raised} {r : Request} → IsCounted (done r) → IsCounted (raised v r)
raised-IsCounted h = record { counts = h.counts }

left-IsCounted : {o : Outcome} → IsCounted o → IsCounted (done (left o))
left-IsCounted h = record { counts = h.counts }

if-IsCounted :
    (b : Bool) {x y : Outcome} → IsCounted x → IsCounted y → IsCounted (if b then x else y)
if-IsCounted true h k = h
if-IsCounted false h k = k

reply-IsCounted : (p : Payload) (r : Request) → IsCounted (done r) → IsCounted (reply p r)
unfolding reply
reply-IsCounted p r h =
    by_test IsCounted r.replied (λ e. raised-IsCounted h)
      (λ e.
        let none_yet = rw e at h.counts in
        record { counts = rw (length-append r.replies (p ∷ [])) (omega (arith, none_yet)) })

module _ {V : Type 0} (marshal : Response V → Marshalled) where
  reply_error-IsCounted :
      (e : Error) (m : Option Meta) {r : Request}
      → IsCounted (done r)
      → IsCounted (reply_error marshal e m r)
  unfolding reply_error
  reply_error-IsCounted e m h = reply-IsCounted _ _ h

  reply_marshalled-IsCounted :
      (b : Marshalled) {r : Request} → IsCounted (done r) → IsCounted (reply_marshalled marshal b r)
  unfolding reply_marshalled
  reply_marshalled-IsCounted (bytes b) h = reply-IsCounted _ _ h
  reply_marshalled-IsCounted (failed why) h = reply_error-IsCounted _ none h

  reply_success-IsCounted :
      (c : Content V) (m : Option Meta) {r : Request}
      → IsCounted (done r)
      → IsCounted (reply_success marshal c m r)
  unfolding reply_success
  reply_success-IsCounted c m h = reply_marshalled-IsCounted _ h

  reply_static_or_error-IsCounted :
      (s : Static) (e : Error) (m : Option Meta) {r : Request}
      → IsCounted (done r)
      → IsCounted (reply_static_or_error marshal s e m r)
  unfolding reply_static_or_error
  reply_static_or_error-IsCounted s e none h = reply-IsCounted _ _ h
  reply_static_or_error-IsCounted s e (some m) h = reply_error-IsCounted e _ h

  reply_invalid-IsCounted :
      (s : Static) (c d m : Bytes) {r : Request}
      → IsCounted (done r)
      → IsCounted (reply_invalid marshal s c d m r)
  unfolding reply_invalid
  reply_invalid-IsCounted s c d m h =
      if-IsCounted (is_nil m) (reply_static_or_error-IsCounted s _ _ h)
        (reply_error-IsCounted _ _ h)

  reply_ok-IsCounted :
      (v : Option V) (m : Option Meta) {r : Request}
      → IsCounted (done r)
      → IsCounted (reply_ok marshal v m r)
  unfolding reply_ok
  reply_ok-IsCounted none none h = reply-IsCounted _ _ h
  reply_ok-IsCounted none (some m) h = reply_success-IsCounted _ _ h
  reply_ok-IsCounted (some v) m h = reply_success-IsCounted _ _ h

  reply_granted-IsCounted :
      (m : Option Meta) {r : Request} → IsCounted (done r) → IsCounted (reply_granted marshal m r)
  unfolding reply_granted
  reply_granted-IsCounted none h = reply-IsCounted _ _ h
  reply_granted-IsCounted (some m) h = reply_success-IsCounted _ _ h

  reply_denied-IsCounted : (r : Request) → IsCounted (done r) → IsCounted (reply_denied marshal r)
  unfolding reply_denied
  reply_denied-IsCounted r h = reply_static_or_error-IsCounted _ _ _ h

  -- SetResponseStatus and ResponseHeader, of which `r'` is what the request becomes.
  http_guard-IsCounted :
      (name : Bytes) {r r' : Request}
      → IsCounted (done r)
      → IsCounted (done r')
      → IsCounted (http_guard name r r')
  unfolding http_guard
  http_guard-IsCounted name {r = r} h h' =
      if-IsCounted (not r.is_http) (raised-IsCounted h)
        (if-IsCounted r.replied (raised-IsCounted h) h')

  act-IsCounted : (a : Action V) (r : Request) → IsCounted (done r) → IsCounted (act marshal a r)
  unfolding act
  act-IsCounted (Action.ok_result v) r h = reply_ok-IsCounted v _ h
  act-IsCounted (Action.resource rid) r h =
      if-IsCounted _ (raised-IsCounted h) (reply_marshalled-IsCounted _ h)
  act-IsCounted (Action.error_result e) r h = reply_error-IsCounted _ _ h
  act-IsCounted Action.not_found r h = reply_static_or_error-IsCounted _ _ _ h
  act-IsCounted Action.method_not_found r h = reply_static_or_error-IsCounted _ _ _ h
  act-IsCounted (Action.invalid_params m) r h = reply_invalid-IsCounted _ _ _ m h
  act-IsCounted (Action.invalid_query m) r h = reply_invalid-IsCounted _ _ _ m h
  act-IsCounted (Action.access get calls) r h =
      if-IsCounted _ (reply_denied-IsCounted r h) (reply_success-IsCounted _ _ h)
  act-IsCounted Action.access_denied r h = reply_denied-IsCounted r h
  act-IsCounted Action.access_granted r h = reply_granted-IsCounted _ h
  act-IsCounted (Action.model v query) r h = reply_success-IsCounted _ none h
  act-IsCounted (Action.collection v query) r h = reply_success-IsCounted _ none h
  act-IsCounted (Action.new rid) r h =
      if-IsCounted _ (raised-IsCounted h) (reply_success-IsCounted _ none h)
  act-IsCounted (Action.parse_params none) r h = h
  act-IsCounted (Action.parse_params (some why)) r h = raised-IsCounted h
  act-IsCounted (Action.parse_token none) r h = h
  act-IsCounted (Action.parse_token (some why)) r h = raised-IsCounted h
  act-IsCounted (Action.timeout negative text) r h =
      if-IsCounted negative (raised-IsCounted h) (record { counts = h.counts })
  act-IsCounted (Action.token_event text) r h = record { counts = h.counts }
  act-IsCounted (Action.set_response_status code) r h =
      http_guard-IsCounted (codes "call to SetResponseStatus") {r' = record r { status = code }} h
        (record { counts = h.counts })
  act-IsCounted (Action.response_header name) r h =
      http_guard-IsCounted (codes "call to ResponseHeader")
        {r' = record r { rheader = name ∷ r.rheader }} h (record { counts = h.counts })

  go_on-IsCounted :
      (next : Request → Outcome) {o : Outcome}
      → ((r : Request) → IsCounted (done r) → IsCounted (next r))
      → IsCounted o
      → IsCounted (go_on marshal next o)
  unfolding go_on
  go_on-IsCounted next {o = done r} keep h = keep r h
  go_on-IsCounted next {o = raised v r} keep h = h

  run_script-IsCounted :
      (k : Script V) (r : Request) → IsCounted (done r) → IsCounted (run_script marshal k r)
  unfolding run_script
  run_script-IsCounted finish r h = h
  run_script-IsCounted (throw v) r h = raised-IsCounted h
  run_script-IsCounted (call a k) r h =
      go_on-IsCounted (run_script marshal k) (run_script-IsCounted k) (act-IsCounted a r h)
  run_script-IsCounted (attempt a k) r h =
      run_script-IsCounted k (left (act marshal a r)) (left-IsCounted (act-IsCounted a r h))

  reply_missing-IsCounted : (r : Request) → IsCounted (done r) → IsCounted (reply_missing marshal r)
  unfolding reply_missing
  reply_missing-IsCounted r h = if-IsCounted r.replied h (reply-IsCounted _ r h)

  perform-IsCounted :
      (c : Choice V) (r : Request) → IsCounted (done r) → IsCounted (perform marshal c r)
  unfolding perform
  perform-IsCounted nothing r h = h
  perform-IsCounted (predefined s) r h = reply-IsCounted _ r h
  perform-IsCounted (run k true) r h =
      go_on-IsCounted (reply_missing marshal) reply_missing-IsCounted (run_script-IsCounted k r h)
  perform-IsCounted (run k false) r h = run_script-IsCounted k r h

  recover-IsCounted : {o : Outcome} → IsCounted o → IsCounted (done (recover marshal o))
  unfolding recover
  recover-IsCounted {o = done r} h = h
  recover-IsCounted {o = raised v r} h =
      by_test (λ x. IsCounted (done x)) r.replied (λ e. left-IsCounted h)
        (λ e. left-IsCounted (reply_error-IsCounted _ _ (left-IsCounted h)))

  execute_handler-IsCounted :
      (hs : Handlers V) (r : Request)
      → IsCounted (done r)
      → IsCounted (done (execute_handler marshal hs r))
  unfolding execute_handler
  execute_handler-IsCounted hs r h =
      recover-IsCounted (perform-IsCounted (choose marshal hs r.rtype r.method) r h)

  -- Whatever a handler does, `executeHandler` leaves a request that was not answered before with at
  -- most one reply, and with the flag `replied` set exactly if there is one.
  pub execute_handler-replies :
      (hs : Handlers V) (r : Request)
      → r.replied ≡ false
      → r.replies ≡ []
      → length (execute_handler marshal hs r).replies
        ≡ (if (execute_handler marshal hs r).replied then 1 else 0)
  execute_handler-replies hs r e n =
      (execute_handler-IsCounted hs r (record { counts = rw (e, n) refl })).counts
