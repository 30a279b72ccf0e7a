-- ===== src/Request/Get/Settled.antt =====
-- `Value` never returns both a value and an error, and returns one of them unless the get handler
-- gives nil.
use go_res.Base.{
  Bytes, Bool, true, false, not, ◌&&◌, ◌||◌, and-eq-true, Bool-cases, inl, inr, Option, none, some,
  ◌≡◌, refl, arith,
}
use mathlib.Core.Bool.{false≢true}
use go_res.Request.Reply.{Failure, Raised}
use go_res.Request.Get.{
  GetRequest, Outcome, done, raised, raised_nil, left, Action, set_value, error_result, not_found,
  timeout, invalid_query, get_value, Script, finish, throw, throw_nil, call, attempt, answer,
  get_error, get_act, and_then, run_get, get_missing, perform_get, recover_get, execute_get,
  get_value_of,
}

unfoldable pub is_set : {A : Type 0} → Option A → Bool
is_set none = false
is_set (some x) = true

module _ {V : Type 0} where
  -- The handler gives no nil value and no nil error, and does not panic with nil.
  unfoldable pub gives : Action V → Bool
  unfolding is_set
  gives (set_value v) = is_set v
  gives (error_result e) = is_set e
  gives not_found = true
  gives timeout = true
  gives (invalid_query m) = true
  gives (get_value name) = true

  unfoldable pub without_nil : Script V → Bool
  unfolding gives
  without_nil finish = true
  without_nil (throw v) = true
  without_nil throw_nil = false
  without_nil (call a k) = gives a && without_nil k
  without_nil (attempt a k) = gives a && without_nil k

  unfoldable pub handler_without_nil : Option (Script V) → Bool
  unfolding without_nil
  handler_without_nil none = true
  handler_without_nil (some k) = without_nil k

  -- Before the reply there is neither a value nor an error, and behind it at most one of them. It is
  -- set if `free` tells that no nil is given.
  data Settled (free : Bool) : GetRequest V → Type 0 where
    before : Settled free (record { replied = false; value = none; err = none })
    with_value :
        (v : Option V)
        → (free ≡ true → is_set v ≡ true)
        → Settled free (record { replied = true; value = v; err = none })
    with_error :
        (e : Option Failure)
        → (free ≡ true → is_set e ≡ true)
        → Settled free (record { replied = true; value = none; err = e })

  module _ (free : Bool) where
    -- How a run ends: it panics with nil only if nil is given.
    abbrev Ends : Outcome V → Type 0
    Ends (done r) = Settled free r
    Ends (raised v r) = Settled free r
    Ends (raised_nil r) = Settled free r × (free ≡ false)

    Ends-left : (o : Outcome V) → Ends o → Settled free (left o)
    Ends-left (done r) h = h
    Ends-left (raised v r) h = h
    Ends-left (raised_nil r) (h, n) = h

    get_error-Ends :
        (e : Option Failure) (r : GetRequest V)
        → (free ≡ true → is_set e ≡ true)
        → Settled free r
        → Ends (get_error e r)
    unfolding get_error answer
    get_error-Ends e r g before = with_error e g
    get_error-Ends e r g (with_value v h) = with_value v h
    get_error-Ends e r g (with_error e' h) = with_error e' h

    set_value-Ends :
        (v : Option V) (r : GetRequest V)
        → (free ≡ true → is_set v ≡ true)
        → Settled free r
        → Ends (get_act (set_value v) r)
    unfolding get_act answer
    set_value-Ends v r g before = with_value v g
    set_value-Ends v r g (with_value v' h) = with_value v' h
    set_value-Ends v r g (with_error e h) = with_error e h

    get_act-Ends :
        (a : Action V) (r : GetRequest V)
        → (free ≡ true → gives a ≡ true)
        → Settled free r
        → Ends (get_act a r)
    unfolding get_act gives is_set
    get_act-Ends (set_value v) r g h = set_value-Ends v r g h
    get_act-Ends (error_result e) r g h = get_error-Ends e r g h
    get_act-Ends not_found r g h = get_error-Ends (some _) r (λ f. refl) h
    get_act-Ends timeout r g h = h
    get_act-Ends (invalid_query m) r g h = get_error-Ends (some _) r (λ f. refl) h
    get_act-Ends (get_value name) r g h = h

    and_then-Ends :
        (next : GetRequest V → Outcome V) (o : Outcome V)
        → ((r : GetRequest V) → Settled free r → Ends (next r))
        → Ends o
        → Ends (and_then next o)
    unfolding and_then
    and_then-Ends next (done r) keep h = keep r h
    and_then-Ends next (raised v r) keep h = h
    and_then-Ends next (raised_nil r) keep h = h

    run_get-Ends :
        (k : Script V) (r : GetRequest V)
        → (free ≡ true → without_nil k ≡ true)
        → Settled free r
        → Ends (run_get k r)
    unfolding run_get without_nil
    run_get-Ends finish r g h = h
    run_get-Ends (throw v) r g h = h
    run_get-Ends throw_nil r g h = elim (Bool-cases free) [
      | inl e ↦ absurd (false≢true (g e))
      | inr e ↦ (h, e)
    ]
    run_get-Ends (call a k) r g h =
        and_then-Ends (run_get k) (get_act a r)
          (λ r' h'. run_get-Ends k r' (λ f. (and-eq-true (gives a) (without_nil k) (g f)).1) h')
          (get_act-Ends a r (λ f. (and-eq-true (gives a) (without_nil k) (g f)).0) h)
    run_get-Ends (attempt a k) r g h =
        run_get-Ends k (left (get_act a r)) (λ f. (and-eq-true (gives a) (without_nil k) (g f)).1)
          (Ends-left (get_act a r)
            (get_act-Ends a r (λ f. (and-eq-true (gives a) (without_nil k) (g f)).0) h))

    -- What `recover_get` leaves is answered, unless nil was given.
    data Answered : GetRequest V → Type 0 where
      settled : {r : GetRequest V} → free ≡ false → Settled free r → Answered r
      has_value :
          (v : Option V)
          → (free ≡ true → is_set v ≡ true)
          → Answered (record { replied = true; value = v; err = none })
      has_error :
          (e : Option Failure)
          → (free ≡ true → is_set e ≡ true)
          → Answered (record { replied = true; value = none; err = e })

    get_missing-Answered :
        (why : Bytes) (r : GetRequest V)
        → Settled free r
        → Answered (recover_get (get_missing why r))
    unfolding recover_get get_missing get_error answer is_set
    get_missing-Answered why r before = has_error (some _) (λ f. refl)
    get_missing-Answered why r (with_value v h) = has_value v h
    get_missing-Answered why r (with_error e h) = has_error e h

    raised-Answered :
        (v : Raised) (r : GetRequest V) → Settled free r → Answered (recover_get (raised v r))
    unfolding recover_get get_error answer is_set
    raised-Answered v r before = has_error (some _) (λ f. refl)
    raised-Answered v r (with_value x h) = has_value x h
    raised-Answered v r (with_error e h) = has_error e h

    perform_get-Answered :
        (why : Bytes) (o : Outcome V)
        → Ends o
        → Answered (recover_get (and_then (get_missing why) o))
    unfolding and_then recover_get
    perform_get-Answered why (done r) h = get_missing-Answered why r h
    perform_get-Answered why (raised v r) h = raised-Answered v r h
    perform_get-Answered why (raised_nil r) (h, n) = settled n h

    execute_get-Answered :
        (why : Bytes) (h : Option (Script V))
        → (free ≡ true → handler_without_nil h ≡ true)
        → Answered (execute_get why h (record { replied = false; value = none; err = none }))
    unfolding execute_get perform_get recover_get get_error answer is_set handler_without_nil
    execute_get-Answered why none g = has_error (some _) (λ f. refl)
    execute_get-Answered why (some k) g =
        perform_get-Answered why (run_get k (record { replied = false; value = none; err = none }))
          (run_get-Ends k _ g before)

    Settled-not_both : {r : GetRequest V} → Settled free r → is_set r.value && is_set r.err ≡ false
    unfolding is_set
    Settled-not_both before = refl
    Settled-not_both (with_value v h) = ground arith
    Settled-not_both (with_error e h) = refl

    Answered-not_both : {r : GetRequest V} → Answered r → is_set r.value && is_set r.err ≡ false
    unfolding is_set
    Answered-not_both (settled n h) = Settled-not_both h
    Answered-not_both (has_value v h) = Settled-not_both (with_value v h)
    Answered-not_both (has_error e h) = refl

    Answered-one :
        {r : GetRequest V} → Answered r → not free || (is_set r.value || is_set r.err) ≡ true
    unfolding is_set
    Answered-one (settled n h) = rw n refl
    Answered-one (has_value v h) = ground (arith, h)
    Answered-one (has_error e h) = ground (arith, h)

  -- `Value` never returns both a value and an error that are not nil, whatever the get handler does,
  -- and also if there is none. It returns one of them, unless the handler calls a method with a nil
  -- value or a nil error, or panics with nil.
  pub get_value_of-is_set :
      (why : Bytes) (h : Option (Script V))
      → (is_set (get_value_of why h).0 && is_set (get_value_of why h).1 ≡ false)
        × (not (handler_without_nil h)
              || (is_set (get_value_of why h).0 || is_set (get_value_of why h).1)
            ≡ true)
  unfolding get_value_of
  get_value_of-is_set why h =
      let a = execute_get-Answered (handler_without_nil h) why h (λ f. f) in
      (Answered-not_both (handler_without_nil h) a, Answered-one (handler_without_nil h) a)
