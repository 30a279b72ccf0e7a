-- ===== src/Request/Execute/Answered.antt =====
-- A request is answered exactly once, but for the cases that the code leaves open.
use go_res.Base.{
  by_test, or_else, if◌then◌else◌, str_eq, codes, length, Bytes, Bool, true, false, not, Option,
  none, some, List, [], ◌≡◌, refl, arith,
}
use go_res.Params.{lookup}
use go_res.Request.Reply.{
  Static, Response, Payload, Marshalled, Request, Outcome, done, raised, left, reply, reply_error,
}
use go_res.Request.Execute.{
  Script, Handlers, Choice, nothing, predefined, run, go_on, run_script, with_default, choose_call,
  choose, reply_missing, perform, recover, execute_handler,
}
use go_res.Request.Execute.Counted.{execute_handler-replies}

module _ {V : Type 0} (marshal : Response V → Marshalled) where
  -- A choice behind which the test for a missing response comes, or which is a reply.
  unfoldable pub answers : Choice V → Bool
  answers nothing = false
  answers (predefined s) = true
  answers (run k checked) = checked

  reply-replied : (p : Payload) (r : Request) → (left (reply p r)).replied ≡ true
  unfolding reply
  reply-replied p r = by_test (λ o. (left o).replied ≡ true) r.replied (λ e. e) (λ e. refl)

  recover-reply : (p : Payload) (r : Request) → (recover marshal (reply p r)).replied ≡ true
  unfolding recover reply reply_error
  recover-reply p r =
      by_test (λ o. (recover marshal o).replied ≡ true) r.replied
        (λ e.
          by_test (λ (x : Request). x.replied ≡ true) r.replied (λ e. e) (λ e. reply-replied _ r))
        (λ e. refl)

  recover-reply_missing : (r : Request) → (recover marshal (reply_missing marshal r)).replied ≡ true
  unfolding reply_missing recover
  recover-reply_missing r =
      by_test (λ o. (recover marshal o).replied ≡ true) r.replied (λ e. e) (λ e. recover-reply _ r)

  recover-go_on :
      (o : Outcome) → (recover marshal (go_on marshal (reply_missing marshal) o)).replied ≡ true
  unfolding recover go_on reply_error
  recover-go_on (done r) = recover-reply_missing r
  recover-go_on (raised v r) =
      by_test (λ (x : Request). x.replied ≡ true) r.replied (λ e. e) (λ e. reply-replied _ r)

  recover-perform :
      (c : Choice V) (r : Request)
      → answers c ≡ true
      → (recover marshal (perform marshal c r)).replied ≡ true
  unfolding perform answers
  recover-perform nothing r a = cc
  recover-perform (predefined s) r a = recover-reply _ r
  recover-perform (run k true) r a = recover-go_on (run_script marshal k r)
  recover-perform (run k false) r a = cc

  -- The requests behind whose handler a missing response is tested for, whatever handlers there are.
  unfoldable pub is_checked : Bytes → Bytes → Bool
  is_checked rtype method =
      if str_eq rtype (codes "access")
      then false
      else if str_eq rtype (codes "get")
      then true
      else if str_eq rtype (codes "call")
      then not (str_eq method (codes "new"))
      else str_eq rtype (codes "auth")

  with_default-answers :
      (handlers : List (Bytes × Script V)) (method : Bytes)
      → answers (with_default marshal handlers method) ≡ true
  unfolding with_default answers
  with_default-answers handlers method =
      elim (or_else (lookup method handlers) (lookup (codes "*") handlers))
        as (λ o.
          answers (elim o [ none ↦ predefined Static.method_not_found | some h ↦ run h true ])
          ≡ true) [ none ↦ refl | some h ↦ refl ]

  choose_call-answers :
      (hs : Handlers V) (method : Bytes) (new : Option (Script V))
      → not (str_eq method (codes "new")) ≡ true
      → answers (choose_call marshal hs method new) ≡ true
  unfolding choose_call
  choose_call-answers hs method none e = with_default-answers hs.call method
  choose_call-answers hs method (some h) e =
      by_test (λ c. answers c ≡ true) (str_eq method (codes "new")) (λ y. cc)
        (λ y. with_default-answers hs.call method)

  get-answers :
      (get : Option (Script V))
      → answers (elim get [ none ↦ predefined Static.not_found | some h ↦ run h true ]) ≡ true
  unfolding answers
  get-answers none = refl
  get-answers (some h) = refl

  choose-answers :
      (hs : Handlers V) (rtype method : Bytes)
      → is_checked rtype method ≡ true
      → answers (choose marshal hs rtype method) ≡ true
  unfolding choose is_checked
  choose-answers hs rtype method h = ground (
    arith,
    get-answers hs.get,
    choose_call-answers hs method hs.new,
    with_default-answers hs.auth method,
  )

  -- A request of type get or auth, or of type call for another method than new, that was not
  -- answered before has exactly one reply behind `executeHandler`, whatever handlers there are and
  -- whatever they do, panics included.
  pub execute_handler-replies-one :
      (hs : Handlers V) (r : Request)
      → r.replied ≡ false
      → r.replies ≡ []
      → is_checked r.rtype r.method ≡ true
      → length (execute_handler marshal hs r).replies ≡ 1
  unfolding execute_handler
  execute_handler-replies-one hs r e n h =
      let a = choose-answers hs r.rtype r.method h in
      let one = execute_handler-replies marshal hs r e n in
      rw (recover-perform (choose marshal hs r.rtype r.method) r a) at one
