-- ===== src/Request/Get.antt =====
-- getrequest.go: the get request that `Value` makes of the service itself, and resource.go: `Value`.
pub mod Settled
use go_res.Base.{if◌then◌else◌, codes, Bytes, Bool, true, false, Option, none, some, ◌++◌}
use go_res.Pattern.Valid.{is_nil}
use go_res.Request.Reply.{Error, internal_error, Failure, res_error, plain, Raised, failure}
use go_res.Request.Execute.{to_error, raised_failure}

-- The struct `getRequest`, of which nil is `none`.
pub record GetRequest (V : Type 0) : Type 0 where
  pub replied : Bool
  pub value : Option V
  pub err : Option Failure

pub data Outcome (V : Type 0) : Type 0 where
  done : GetRequest V → Outcome V
  raised : Raised → GetRequest V → Outcome V
  raised_nil : GetRequest V → Outcome V

abbrev pub left : {V : Type 0} → Outcome V → GetRequest V
left (done r) = r
left (raised v r) = r
left (raised_nil r) = r

-- The methods that a get handler may call. Model, QueryModel, Collection and QueryCollection are the
-- same here; Value and RequireValue panic. A nil value or a nil error is `none`.
pub data Action (V : Type 0) : Type 0 where
  set_value : Option V → Action V
  error_result : Option Failure → Action V
  not_found timeout : Action V
  invalid_query : Bytes → Action V
  get_value : Bytes → Action V

-- A handler, as in Request/Execute. It may also panic with nil, which `recover` does not tell from a
-- return.
pub data Script (V : Type 0) : Type 0 where
  finish : Script V
  throw : Raised → Script V
  throw_nil : Script V
  call attempt : Action V → Script V → Script V

abbrev not_found_error : Error
not_found_error = record { code = codes "system.notFound"; message = codes "Not found" }

module _ {V : Type 0} where
  -- `reply`, and then the assignment.
  answer : (GetRequest V → GetRequest V) → GetRequest V → Outcome V
  answer set r =
      if r.replied
      then raised (Raised.text (codes "res: response already sent on get request")) r
      else done (set (record r { replied = true }))

  get_error : Option Failure → GetRequest V → Outcome V
  unfolding answer
  get_error e r = answer (λ r'. record r' { err = e }) r

  get_act : Action V → GetRequest V → Outcome V
  unfolding answer get_error
  get_act (set_value v) r = answer (λ r'. record r' { value = v }) r
  get_act (error_result e) r = get_error e r
  get_act not_found r = get_error (some (res_error not_found_error)) r
  get_act timeout r = done r
  get_act (invalid_query m) r =
      get_error
        (some (
          res_error (record {
            code = codes "system.invalidQuery";
            message = if is_nil m then codes "Invalid query" else m;
          })))
        r
  get_act (get_value name) r =
      raised (Raised.text (name ++ codes "() called within get request handler")) r

  and_then : (GetRequest V → Outcome V) → Outcome V → Outcome V
  and_then next (done r) = next r
  and_then next (raised v r) = raised v r
  and_then next (raised_nil r) = raised_nil r

  run_get : Script V → GetRequest V → Outcome V
  unfolding and_then get_act
  run_get finish r = done r
  run_get (throw v) r = raised v r
  run_get throw_nil r = raised_nil r
  run_get (call a k) r = and_then (run_get k) (get_act a r)
  run_get (attempt a k) r = run_get k (left (get_act a r))

  -- The test behind the handler, with the text of the error.
  get_missing : Bytes → GetRequest V → Outcome V
  unfolding get_error
  get_missing why r =
      if r.replied then done r else get_error (some (res_error (internal_error why))) r

  perform_get : Bytes → Option (Script V) → GetRequest V → Outcome V
  unfolding and_then run_get get_missing
  perform_get why none r = get_error (some (res_error not_found_error)) r
  perform_get why (some h) r = and_then (get_missing why) (run_get h r)

  -- The deferred function.
  recover_get : Outcome V → GetRequest V
  unfolding get_error
  recover_get (done r) = r
  recover_get (raised_nil r) = r
  recover_get (raised v r) =
      if r.replied then r else left (get_error (some (res_error (to_error (raised_failure v)))) r)

  unfoldable pub execute_get : Bytes → Option (Script V) → GetRequest V → GetRequest V
  unfolding perform_get recover_get
  execute_get why h r = recover_get (perform_get why h r)

  -- What `Value` returns, for the handler `h.Get`.
  unfoldable pub get_value_of : Bytes → Option (Script V) → Option V × Option Failure
  unfolding execute_get
  get_value_of why h =
      let r = execute_get why h (record { replied = false; value = none; err = none }) in
      (r.value, r.err)
