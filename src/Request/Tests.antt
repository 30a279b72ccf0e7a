-- ===== src/Request/Tests.antt =====
-- Runs of `executeHandler`, and the theorems about it at handlers that panic or do not reply.
use go_res.Base.{
  not, true, ◌&&◌, ◌||◌, codes, str_eq, Bytes, false, none, some, [], ◌∷◌, length, ◌≡◌, refl,
  if◌then◌else◌,
}
use go_res.Params.{lookup}
use go_res.Request.Reply.{
  Response, Marshalled, bytes, static, encoded, Raised, Static, Request, reply, reply_error,
  reply_success, meta,
}
use go_res.Request.Execute.{Action, call, finish, throw, Handlers, execute_handler}
use go_res.Request.Get
use go_res.Request.Get.{get_value_of}
use go_res.Request.Get.Settled.{is_set, handler_without_nil, get_value_of-is_set}
use go_res.Request.Execute.Counted.{execute_handler-replies}
use go_res.Request.Execute.Answered.{is_checked, execute_handler-replies-one}

abbrev marshal_kind : Response Bytes → Marshalled
marshal_kind (Response.of_success content m) = bytes (codes "result")
marshal_kind (Response.of_resource rid m) = bytes (codes "resource")
marshal_kind (Response.of_error e m) = bytes e.code

abbrev asked : Bytes → Bytes → Request
asked rtype method = record {
  rtype = rtype;
  method = method;
  is_http = false;
  replied = false;
  rheader = [];
  status = 0;
  replies = [];
  notices = [];
}

-- A get handler that returns without a reply, a call handler that panics behind its reply, and a
-- new handler that returns without a reply.
abbrev handlers : Handlers Bytes
handlers = record {
  access = none;
  get = some finish;
  call =
      (
        codes "*",
        call (Action.ok_result (some (codes "done"))) (throw (Raised.text (codes "late"))),
      )
      ∷ [];
  new = some finish;
  auth = [];
}

missing_response :
    (execute_handler marshal_kind handlers (asked (codes "get") [])).replies
    ≡ static Static.missing_response ∷ []
unfolding execute_handler reply str_eq lookup
missing_response = refl

panic_behind_reply :
    (execute_handler marshal_kind handlers (asked (codes "call") (codes "set"))).replies
    ≡ encoded (codes "result") ∷ []
unfolding execute_handler reply reply_error reply_success meta str_eq lookup
panic_behind_reply = refl

unknown_auth :
    (execute_handler marshal_kind handlers (asked (codes "auth") (codes "login"))).replies
    ≡ static Static.method_not_found ∷ []
unfolding execute_handler reply str_eq lookup
unknown_auth = refl

-- Behind a handler for the method new, a missing response is not tested for.
new_unanswered :
    (execute_handler marshal_kind handlers (asked (codes "call") (codes "new"))).replies ≡ []
unfolding execute_handler str_eq
new_unanswered = refl

execute_handler-replies_example :
    length (execute_handler marshal_kind handlers (asked (codes "call") (codes "set"))).replies ≡ (
      if (execute_handler marshal_kind handlers (asked (codes "call") (codes "set"))).replied
      then 1
      else 0)
execute_handler-replies_example =
    execute_handler-replies marshal_kind handlers (asked (codes "call") (codes "set")) refl refl

execute_handler-replies-one_example :
    length (execute_handler marshal_kind handlers (asked (codes "call") (codes "set"))).replies ≡ 1
unfolding is_checked str_eq
execute_handler-replies-one_example =
    execute_handler-replies-one marshal_kind handlers (asked (codes "call") (codes "set")) refl refl
      refl

-- A get handler that recovers from a second reply.
abbrev twice : Get.Script Bytes
twice =
    Get.attempt (Get.set_value (some (codes "first")))
      (Get.attempt (Get.set_value (some (codes "second"))) Get.finish)

value_of_twice : get_value_of [] (some twice) ≡ (some (codes "first"), none)
unfolding get_value_of
value_of_twice = refl

-- A get handler that answers with a nil value, and one that panics with nil.
value_of_nil :
    get_value_of {V = Bytes} [] (some (Get.call (Get.set_value none) Get.finish)) ≡ (none, none)
unfolding get_value_of
value_of_nil = refl

value_of_nil_panic : get_value_of {V = Bytes} [] (some Get.throw_nil) ≡ (none, none)
unfolding get_value_of
value_of_nil_panic = refl

get_value_of-is_set_example :
    (is_set (get_value_of [] (some twice)).0 && is_set (get_value_of [] (some twice)).1 ≡ false)
    × (not (handler_without_nil (some twice))
          || (is_set (get_value_of [] (some twice)).0 || is_set (get_value_of [] (some twice)).1)
        ≡ true)
get_value_of-is_set_example = get_value_of-is_set [] (some twice)
