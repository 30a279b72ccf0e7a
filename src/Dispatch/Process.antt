-- ===== src/Dispatch/Process.antt =====
-- `processRequest` of service.go: a queued request is executed, or answered with an error.
use go_res.Base.{length, Bytes, Bool, true, false, Option, none, some, [], ◌≡◌, refl}
use go_res.Mux.Lookup.{Match}
use go_res.Request.Reply.{
  Failure, Static, static, Response, Marshalled, Request, left, reply, reply_error,
}
use go_res.Request.Execute.{Handlers, to_error, execute_handler}
use go_res.Request.Execute.Answered.{is_checked, execute_handler-replies-one}
use go_res.Dispatch.{Subject, Job}

-- What `json.Unmarshal` makes of the message's data: nothing, an error, or a `resRequest`, of which
-- the flag IsHTTP is told here.
pub data Body : Type 0 where
  no_data : Body
  bad_data : Failure → Body
  http_flag : Bool → Body

-- `&Request{…}`
abbrev pub new_request : Bytes → Bytes → Bool → Request
new_request rtype method is_http = record {
  rtype = rtype;
  method = method;
  is_http = is_http;
  replied = false;
  rheader = [];
  status = 0;
  replies = [];
  notices = [];
}

module _ {V L : Type 0} (marshal : Response V → Marshalled) where
  process_matched : Subject → Match (Handlers V) L → Body → Request
  process_matched p m no_data =
      execute_handler marshal m.handler (new_request p.rtype p.method false)
  process_matched p m (bad_data e) =
      left (reply_error marshal (to_error e) none (new_request [] [] false))
  process_matched p m (http_flag b) =
      execute_handler marshal m.handler (new_request p.rtype p.method b)

  process_at : Subject → Body → Option (Match (Handlers V) L) → Request
  unfolding process_matched
  process_at p body none = left (reply (static Static.not_found) (new_request [] [] false))
  process_at p body (some m) = process_matched p m body

  unfoldable pub process_request : Job (Handlers V) L → Body → Request
  unfolding process_at
  process_request j body = process_at j.subject body j.handler

  process_matched-replies :
      (p : Subject) (m : Match (Handlers V) L) (body : Body)
      → is_checked marshal p.rtype p.method ≡ true
      → length (process_matched p m body).replies ≡ 1
  unfolding process_matched reply_error reply
  process_matched-replies p m no_data h =
      execute_handler-replies-one marshal m.handler (new_request p.rtype p.method false) refl refl h
  process_matched-replies p m (bad_data e) h = refl
  process_matched-replies p m (http_flag b) h =
      execute_handler-replies-one marshal m.handler (new_request p.rtype p.method b) refl refl h

  -- A queued request of type get or auth, or of type call for another method than new, gets exactly
  -- one reply, whether or not a handler was found for it, and whatever its data is.
  pub process_request-replies :
      (j : Job (Handlers V) L) (body : Body)
      → is_checked marshal j.subject.rtype j.subject.method ≡ true
      → length (process_request j body).replies ≡ 1
  unfolding process_request process_at reply
  process_request-replies j body h = at j.handler
    where
      at : (o : Option (Match (Handlers V) L)) → length (process_at j.subject body o).replies ≡ 1
      at none = refl
      at (some m) = process_matched-replies j.subject m body h
