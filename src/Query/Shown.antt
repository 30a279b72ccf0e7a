-- ===== src/Query/Shown.antt =====
-- The events that a callback makes on a query request are in its reply, in their order.
use go_res.Base.{
  ℕ, none-ne-some, eq_of_some, if◌then◌else◌, Bytes, Bool, true, false, ◌||◌, Option, none, some,
  List, [], ◌∷◌, ◌++◌, append-nil, append_assoc, ◌≡◌, refl, arith,
}
use go_res.Pattern.Valid.{is_nil}
use go_res.Events.{ℤ, ResourceType}
use go_res.Events.Send.{is_model, is_collection}
use go_res.Request.Reply.{Marshalled}
use go_res.Query.{
  fresh, ResEvent, change_event, add_event, remove_event, QueryResponse, QueryRequest, Outcome,
  done, Action, model, collection, change, add, remove, not_found, invalid_query, error_result,
  timeout, Script, finish, throw, call, attempt, with_query, is_negative, reply, add_to_events,
  allowed, query_act, go_on, run_callback, recovered, execute_callback, events_payload,
  reply_events, handle_parsed, handle_query_request,
}

-- The events of a call that the type of the resource allows; `none` for a call that replies or
-- panics.
unfoldable pub shown_by : {V : Type 0} → ResourceType → Action V → Option (List (ResEvent V))
unfolding is_negative
shown_by t (model v) = none
shown_by t (collection v) = none
shown_by t (change vs) =
    if is_collection t then none else some (if is_nil vs then [] else change_event vs ∷ [])
shown_by t (add v i) = if is_model t || is_negative i then none else some (add_event v i ∷ [])
shown_by t (remove i) = if is_model t || is_negative i then none else some (remove_event i ∷ [])
shown_by t not_found = none
shown_by t (invalid_query m) = none
shown_by t (error_result e) = none
shown_by t (timeout negative text) = if negative then none else some []

abbrev pub append_shown :
    {V : Type 0}
    → Option (List (ResEvent V))
    → Option (List (ResEvent V))
    → Option (List (ResEvent V))
append_shown none more = none
append_shown (some evs) none = none
append_shown (some evs) (some more) = some (evs ++ more)

-- The events of a callback that only makes events and returns.
unfoldable pub shown : {V : Type 0} → ResourceType → Script V → Option (List (ResEvent V))
unfolding shown_by
shown t finish = some []
shown t (throw v) = none
shown t (call a k) = append_shown (shown_by t a) (shown t k)
shown t (attempt a k) = append_shown (shown_by t a) (shown t k)

-- A call with an index that is not negative, on a request of a collection.
pub shown-add :
    {V : Type 0} (t : ResourceType) (v : V) (n : ℕ) (k : Script V)
    → is_model t ≡ false
    → shown t (call (add v (ℤ.pos n)) k)
      ≡ append_shown (some (add_event v (ℤ.pos n) ∷ [])) (shown t k)
unfolding shown shown_by is_negative
shown-add t v n k h = rw h refl

pub shown-remove :
    {V : Type 0} (t : ResourceType) (n : ℕ) (k : Script V)
    → is_model t ≡ false
    → shown t (call (remove (ℤ.pos n)) k)
      ≡ append_shown (some (remove_event (ℤ.pos n) ∷ [])) (shown t k)
unfolding shown shown_by is_negative
shown-remove t n k h = rw h refl

or-false : (a b : Bool) → a || b ≡ false → (a ≡ false) × (b ≡ false)
or-false true b h = cc
or-false false b h = (refl, h)

module _ {V : Type 0} where
  -- The request with more events, and with what was published besides.
  abbrev with_events : QueryRequest V → List (ResEvent V) → List Bytes → QueryRequest V
  with_events r evs notes = record r { events = r.events ++ evs; notices = notes }

  some_guarded :
      (b : Bool) (xs evs : List (ResEvent V))
      → (if b then none else some xs) ≡ some evs
      → (b ≡ false) × (xs ≡ evs)
  some_guarded true xs evs h = cc
  some_guarded false xs evs h = (refl, ground arith)

  append_some :
      (x y : Option (List (ResEvent V))) (evs : List (ResEvent V))
      → append_shown x y ≡ some evs
      → (xs : List (ResEvent V)) × (ys : List (ResEvent V)) × (x ≡ some xs)
        × (y ≡ some ys)
        × (xs ++ ys ≡ evs)
  append_some none y evs h = cc
  append_some (some xs) none evs h = cc
  append_some (some xs) (some ys) evs h = (xs, ys, refl, refl, ground arith)

module _ {V : Type 0} (marshal : QueryResponse V → Marshalled) where
  abbrev Shows : QueryRequest V → List (ResEvent V) → Outcome V → Type 0
  Shows r evs o = (notes : List Bytes) × (o ≡ done (with_events r evs notes))

  query_act-Shows :
      (a : Action V) (r : QueryRequest V) (evs : List (ResEvent V))
      → shown_by r.rtype a ≡ some evs
      → Shows r evs (query_act marshal a r)
  unfolding query_act allowed shown_by add_to_events
  query_act-Shows (model v) r evs h = absurd (none-ne-some h)
  query_act-Shows (collection v) r evs h = absurd (none-ne-some h)
  query_act-Shows (change []) r evs h =
      let (e, d) = some_guarded (is_collection r.rtype) [] evs h in
      (r.notices, rw (e, ← d, append-nil))
  query_act-Shows (change (kv ∷ vs)) r evs h =
      let (e, d) = some_guarded (is_collection r.rtype) (change_event (kv ∷ vs) ∷ []) evs h in
      (r.notices, rw (e, ← d))
  query_act-Shows (add v i) r evs h =
      let (e, d) = some_guarded (is_model r.rtype || is_negative i) (add_event v i ∷ []) evs h in
      let (m, n) = or-false (is_model r.rtype) (is_negative i) e in (r.notices, rw (m, n, ← d))
  query_act-Shows (remove i) r evs h =
      let (e, d) = some_guarded (is_model r.rtype || is_negative i) (remove_event i ∷ []) evs h in
      let (m, n) = or-false (is_model r.rtype) (is_negative i) e in (r.notices, rw (m, n, ← d))
  query_act-Shows not_found r evs h = absurd (none-ne-some h)
  query_act-Shows (invalid_query m) r evs h = absurd (none-ne-some h)
  query_act-Shows (error_result e) r evs h = absurd (none-ne-some h)
  query_act-Shows (timeout true text) r evs h = absurd (none-ne-some h)
  query_act-Shows (timeout false text) r evs h =
      (r.notices ++ text ∷ [], rw (← eq_of_some h, append-nil))

  run_callback-Shows :
      (k : Script V) (r : QueryRequest V) (evs : List (ResEvent V))
      → shown r.rtype k ≡ some evs
      → Shows r evs (run_callback marshal k r)
  unfolding run_callback shown go_on
  run_callback-Shows finish r evs h = (r.notices, rw (← eq_of_some h, append-nil))
  run_callback-Shows (throw v) r evs h = absurd (none-ne-some h)
  run_callback-Shows (call a k) r evs h =
      let (xs, ys, hx, hy, e) = append_some (shown_by r.rtype a) (shown r.rtype k) evs h in
      let (notes, d) = query_act-Shows a r xs hx in
      let (notes', d') = run_callback-Shows k (with_events r xs notes) ys hy in
      (notes', rw (d, d', append_assoc, e))
  run_callback-Shows (attempt a k) r evs h =
      let (xs, ys, hx, hy, e) = append_some (shown_by r.rtype a) (shown r.rtype k) evs h in
      let (notes, d) = query_act-Shows a r xs hx in
      let (notes', d') = run_callback-Shows k (with_events r xs notes) ys hy in
      (notes', rw (d, d', append_assoc, e))

  pub handle_query_request-events :
      (rtype : ResourceType) (k : Script V) (q : Bytes) (evs : List (ResEvent V))
      → is_nil q ≡ false
      → shown rtype k ≡ some evs
      → (handle_query_request marshal rtype k (with_query q)).replies
        ≡ events_payload marshal evs ∷ []
  unfolding handle_query_request handle_parsed execute_callback recovered reply_events reply
  handle_query_request-events rtype k q evs n h =
      let (notes, d) = run_callback-Shows k (record (fresh rtype) { query = q }) evs h in rw (n, d)
