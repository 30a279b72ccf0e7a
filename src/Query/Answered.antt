-- ===== src/Query/Answered.antt =====
-- A query request has exactly one reply, and the events of its callback are in it.
use go_res.Base.{
  by_test, if◌then◌else◌, length, length-append, Bytes, Bool, true, [], ◌∷◌, ◌≡◌, refl, arith,
}
use go_res.Pattern.Valid.{is_nil}
use go_res.Events.{ResourceType}
use go_res.Events.Send.{is_model, is_collection}
use go_res.Request.Reply.{Error, Payload, Marshalled, bytes, failed, Raised}
use go_res.Query.{
  fresh, QueryResponse, QueryRequest, Outcome, done, raised, left, Action, model, collection,
  change, add, remove, not_found, invalid_query, error_result, timeout, Script, finish, throw, call,
  attempt, Parsed, no_data, bad_data, with_query, is_negative, reply, add_to_events, query_error,
  query_success, allowed, query_act, go_on, run_callback, recovered, execute_callback, reply_events,
  handle_parsed, handle_query_request,
}

module _ {V : Type 0} where
  -- The flag `replied` counts the replies.
  pub record IsCounted (o : Outcome V) : Type 0 where
    counts : length (left o).replies ≡ (if (left o).replied then 1 else 0)

  reply-IsCounted :
      (p : Payload) (r : QueryRequest V) → IsCounted (done r) → IsCounted (done (reply p r))
  unfolding reply
  reply-IsCounted p r h =
      by_test (λ (x : QueryRequest V). IsCounted (done x)) r.replied (λ e. h)
        (λ e.
          let none_yet = rw e at h.counts in
          record { counts = rw (length-append r.replies (p ∷ [])) (omega (arith, none_yet)) })

  reply-replied : (p : Payload) (r : QueryRequest V) → (reply p r).replied ≡ true
  unfolding reply
  reply-replied p r =
      by_test (λ (x : QueryRequest V). x.replied ≡ true) r.replied (λ e. e) (λ e. refl)

  if-IsCounted :
      (b : Bool) {o o' : Outcome V} → IsCounted o → IsCounted o' → IsCounted (if b then o else o')
  if-IsCounted b h h' = by_test IsCounted b (λ e. h) (λ e. h')

  raised-IsCounted : {v : Raised} {r : QueryRequest V} → IsCounted (done r) → IsCounted (raised v r)
  raised-IsCounted h = record { counts = h.counts }

  left-IsCounted : {o : Outcome V} → IsCounted o → IsCounted (done (left o))
  left-IsCounted h = record { counts = h.counts }

module _ {V : Type 0} (marshal : QueryResponse V → Marshalled) where
  query_error-IsCounted :
      (e : Error) (r : QueryRequest V)
      → IsCounted (done r)
      → IsCounted (done (query_error marshal e r))
  unfolding query_error
  query_error-IsCounted e r h = reply-IsCounted _ r h

  query_success-IsCounted :
      (b : Marshalled) (r : QueryRequest V)
      → IsCounted (done r)
      → IsCounted (done (query_success marshal b r))
  unfolding query_success
  query_success-IsCounted (bytes b) r h = reply-IsCounted _ r h
  query_success-IsCounted (failed why) r h = query_error-IsCounted _ r h

  allowed-IsCounted :
      (b : Bool) (why : Bytes) (r : QueryRequest V) {o : Outcome V}
      → IsCounted (done r)
      → IsCounted o
      → IsCounted (allowed marshal b why r o)
  unfolding allowed
  allowed-IsCounted b why r h h' = if-IsCounted b (raised-IsCounted h) h'

  query_act-IsCounted :
      (a : Action V) (r : QueryRequest V) → IsCounted (done r) → IsCounted (query_act marshal a r)
  unfolding query_act add_to_events
  query_act-IsCounted (model v) r h =
      allowed-IsCounted (is_collection r.rtype) _ r h (query_success-IsCounted _ r h)
  query_act-IsCounted (collection v) r h =
      allowed-IsCounted (is_model r.rtype) _ r h (query_success-IsCounted _ r h)
  query_act-IsCounted (change vs) r h =
      allowed-IsCounted (is_collection r.rtype) _ r h
        (if-IsCounted (is_nil vs) h (record { counts = h.counts }))
  query_act-IsCounted (add v i) r h =
      allowed-IsCounted (is_model r.rtype) _ r h
        (allowed-IsCounted (is_negative i) _ r h (record { counts = h.counts }))
  query_act-IsCounted (remove i) r h =
      allowed-IsCounted (is_model r.rtype) _ r h
        (allowed-IsCounted (is_negative i) _ r h (record { counts = h.counts }))
  query_act-IsCounted not_found r h = reply-IsCounted _ r h
  query_act-IsCounted (invalid_query m) r h =
      if-IsCounted (is_nil m) (reply-IsCounted _ r h) (query_error-IsCounted _ r h)
  query_act-IsCounted (error_result e) r h = query_error-IsCounted _ r h
  query_act-IsCounted (timeout negative text) r h =
      allowed-IsCounted negative _ r h (record { counts = h.counts })

  go_on-IsCounted :
      (next : QueryRequest V → Outcome V) (o : Outcome V)
      → ((r : QueryRequest V) → IsCounted (done r) → IsCounted (next r))
      → IsCounted o
      → IsCounted (go_on marshal next o)
  unfolding go_on
  go_on-IsCounted next (done r) keep h = keep r h
  go_on-IsCounted next (raised v r) keep h = h

  run_callback-IsCounted :
      (k : Script V) (r : QueryRequest V)
      → IsCounted (done r)
      → IsCounted (run_callback marshal k r)
  unfolding run_callback
  run_callback-IsCounted finish r h = h
  run_callback-IsCounted (throw v) r h = raised-IsCounted h
  run_callback-IsCounted (call a k) r h =
      go_on-IsCounted (run_callback marshal k) (query_act marshal a r) (run_callback-IsCounted k)
        (query_act-IsCounted a r h)
  run_callback-IsCounted (attempt a k) r h =
      run_callback-IsCounted k (left (query_act marshal a r))
        (left-IsCounted (query_act-IsCounted a r h))

  recovered-IsCounted : (o : Outcome V) → IsCounted o → IsCounted (done (recovered marshal o))
  unfolding recovered
  recovered-IsCounted (done r) h = h
  recovered-IsCounted (raised v r) h =
      by_test (λ (x : QueryRequest V). IsCounted (done x)) r.replied (λ e. left-IsCounted h)
        (λ e. query_error-IsCounted _ r (left-IsCounted h))

  reply_events-IsCounted :
      (r : QueryRequest V) → IsCounted (done r) → IsCounted (done (reply_events marshal r))
  unfolding reply_events
  reply_events-IsCounted r h =
      by_test (λ (x : QueryRequest V). IsCounted (done x)) r.replied (λ e. h)
        (λ e. reply-IsCounted _ r h)

  reply_events-replied : (r : QueryRequest V) → (reply_events marshal r).replied ≡ true
  unfolding reply_events
  reply_events-replied r =
      by_test (λ (x : QueryRequest V). x.replied ≡ true) r.replied (λ e. e) (λ e. reply-replied _ r)

  handle_parsed-replied :
      (k : Script V) (p : Parsed) (r : QueryRequest V)
      → (handle_parsed marshal k p r).replied ≡ true
  unfolding handle_parsed query_error
  handle_parsed-replied k no_data r = reply-replied _ r
  handle_parsed-replied k (bad_data e) r = reply-replied _ r
  handle_parsed-replied k (with_query q) r =
      by_test (λ (x : QueryRequest V). x.replied ≡ true) (is_nil q) (λ e. reply-replied _ r)
        (λ e. reply_events-replied (execute_callback marshal k (record r { query = q })))

  handle_parsed-IsCounted :
      (k : Script V) (p : Parsed) (r : QueryRequest V)
      → IsCounted (done r)
      → IsCounted (done (handle_parsed marshal k p r))
  unfolding handle_parsed execute_callback
  handle_parsed-IsCounted k no_data r h = reply-IsCounted _ r h
  handle_parsed-IsCounted k (bad_data e) r h = query_error-IsCounted _ r h
  handle_parsed-IsCounted k (with_query q) r h =
      by_test (λ (x : QueryRequest V). IsCounted (done x)) (is_nil q) (λ e. reply-IsCounted _ r h)
        (λ e. reply_events-IsCounted _ (
          recovered-IsCounted _
            (run_callback-IsCounted k (record r { query = q }) (record { counts = h.counts }))))

  -- A query request has exactly one reply, whatever its data and whatever the callback does, panics
  -- and a second reply included.
  pub handle_query_request-replies :
      (rtype : ResourceType) (k : Script V) (p : Parsed)
      → length (handle_query_request marshal rtype k p).replies ≡ 1
  unfolding handle_query_request
  handle_query_request-replies rtype k p =
      rw (handle_parsed-replied k p (fresh rtype)) at
        (handle_parsed-IsCounted k p (fresh rtype) (record { counts = refl })).counts
