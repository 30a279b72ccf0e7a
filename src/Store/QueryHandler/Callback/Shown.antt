-- ===== src/Store/QueryHandler/Callback/Shown.antt =====
-- The reply to a query request leads a client that has the transformed result of its query to the
-- transformed result behind the change.
use go_res.Base.{
  ℕ, str_eq, codes, Bytes, true, false, Option, none, some, List, [], ◌∷◌, follow, follow-eq-some,
  ◌⊎◌, inl, inr, ◌≡◌, refl, ◌∙◌, ap,
}
use go_res.Params.{Params}
use go_res.Pattern.Valid.{is_nil}
use go_res.Events.{ℤ, ResourceType}
use go_res.Events.Send.{is_model}
use go_res.Request.Reply.{Failure, Marshalled}
use go_res.Query.{
  ResEvent, add_event, remove_event, change_event, QueryResponse, Script, call, add, remove, Action,
  with_query, events_payload, handle_query_request,
}
use go_res.Query.Shown.{shown, shown-add, shown-remove, append_shown, handle_query_request-events}
use go_res.Store.Diff.Script.{insert_elem, delete_elem}
use go_res.Store.Transform.{
  Dynamic, strings, refs, ResultEvent, TransformError, collection_result, collection_events,
}
use go_res.Store.Transform.Collection.{
  edit_at, edit_with, as_string, as_ref, needed, edit_at_cases, collection_events-edit,
}
use go_res.Store.QueryHandler.{QueryChange, QueryHandler, collection_transformer}
use go_res.Store.QueryHandler.Transformed.{transformed_events-eq}
use go_res.Store.QueryHandler.Callback.{action_of, events_script, changed_script, query_callback}

-- What a client does with its copy of the collection; `none` is an event that it cannot follow.
unfoldable pub follow_reply : {U : Type 0} → ResEvent (Dynamic U) → List Bytes → Option (List Bytes)
follow_reply (add_event v (ℤ.pos n)) xs = follow (as_ref v) (λ r. insert_elem r n xs)
follow_reply (add_event v (ℤ.negsuc n)) xs = none
follow_reply (remove_event (ℤ.pos n)) xs = delete_elem n xs
follow_reply (remove_event (ℤ.negsuc n)) xs = none
follow_reply (change_event vs) xs = none

unfoldable pub follow_replies :
    {U : Type 0} → List (ResEvent (Dynamic U)) → List Bytes → Option (List Bytes)
unfolding follow_reply
follow_replies [] xs = some xs
follow_replies (ev ∷ evs) xs = follow (follow_reply ev xs) (follow_replies evs)

module _ {Q U : Type 0} (o : QueryHandler Q U) (rtype : ResourceType)
    (collection : is_model rtype ≡ false) where
  abbrev Shows : Script (Dynamic U) → List Bytes → List Bytes → Type 0
  Shows k xs ys =
      (evs : List (ResEvent (Dynamic U))) × (shown rtype k ≡ some evs)
      × (follow_replies evs xs ≡ some ys)

  add-Shows :
      (v : Dynamic U) (n : ℕ) (id : Bytes) (k : Script (Dynamic U)) (xs zs ys : List Bytes)
      → as_ref v ≡ some id
      → insert_elem id n xs ≡ some zs
      → Shows k zs ys
      → Shows (call (add v (ℤ.pos n)) k) xs ys
  unfolding follow_replies follow_reply
  add-Shows v n id k xs zs ys h put (evs, e, run) = (
    add_event v (ℤ.pos n) ∷ evs,
    shown-add rtype v n k collection ∙ ap (append_shown (some (add_event v (ℤ.pos n) ∷ []))) e,
    rw (h, put) run,
  )

  remove-Shows :
      (n : ℕ) (k : Script (Dynamic U)) (xs zs ys : List Bytes)
      → delete_elem n xs ≡ some zs
      → Shows k zs ys
      → Shows (call (remove (ℤ.pos n)) k) xs ys
  unfolding follow_replies follow_reply
  remove-Shows n k xs zs ys out (evs, e, run) = (
    remove_event (ℤ.pos n) ∷ evs,
    shown-remove rtype n k collection ∙ ap (append_shown (some (remove_event (ℤ.pos n) ∷ []))) e,
    rw out run,
  )

  events_script-cons :
      (ev : ResultEvent U) (evs : List (ResultEvent U)) (a : Action (Dynamic U))
      → action_of o ev ≡ some a
      → events_script o (ev ∷ evs) ≡ call a (events_script o evs)
  unfolding events_script
  events_script-cons ev evs a h = rw (events_script, h) refl

  action_of-add :
      (ev : ResultEvent U)
      → str_eq ev.name (codes "add") ≡ true
      → action_of o ev ≡ some (add ev.value ev.idx)
  unfolding action_of
  action_of-add ev a = rw a refl

  action_of-remove :
      (ev : ResultEvent U)
      → str_eq ev.name (codes "add") ≡ false
      → str_eq ev.name (codes "remove") ≡ true
      → action_of o ev ≡ some (remove ev.idx)
  unfolding action_of
  action_of-remove ev a r = rw (a, r) refl

  events_script-Shows :
      (evs : List (ResultEvent U)) (xs ys : List Bytes)
      → edit_with as_ref evs xs ≡ some ys
      → Shows (events_script o evs) xs ys
  unfolding edit_with shown events_script follow_replies
  events_script-Shows [] xs ys h = ([], refl, h)
  events_script-Shows (ev ∷ evs) xs ys h =
      let (id, need, rest) = follow-eq-some (needed as_ref ev.name ev.value) _ h in
      let (zs, edit, tail) =
        follow-eq-some (edit_at ev.name ev.idx id xs) (edit_with as_ref evs) rest in
      let (n, at, did) = edit_at_cases ev.name ev.idx id xs zs edit in
      let ih = events_script-Shows evs zs ys tail in
      elim did [
        | inl (a, put) ↦
            let held : as_ref ev.value ≡ some id = rw a at need in
            rw
              (events_script-cons ev evs (add ev.value (ℤ.pos n))
                (action_of-add ev a ∙ ap (λ i. some (add ev.value i)) at))
              (add-Shows ev.value n id (events_script o evs) xs zs ys held put ih)
        | inr (a, b, out) ↦
            rw
              (events_script-cons ev evs (remove (ℤ.pos n))
                (action_of-remove ev a b ∙ ap (λ i. some (remove i)) at))
              (remove-Shows n (events_script o evs) xs zs ys out ih)
      ]

  module _ (t : Bytes → Bytes) (describe : TransformError → Bytes)
      (has_trans : o.trans ≡ some (collection_transformer describe t)) where
    changed_script-eq :
        (evs evs' : List (ResultEvent U))
        → collection_events t evs ≡ (none, evs')
        → changed_script o evs ≡ events_script o evs'
    unfolding changed_script collection_events events_script
    changed_script-eq [] evs' h = ap (events_script o) (ap (λ p. p.1) h)
    changed_script-eq (ev ∷ evs) evs' h =
        rw (changed_script, transformed_events-eq o t describe has_trans (ev ∷ evs) evs' h) refl

    query_callback-eq :
        (f : Bytes → Params → Q → Failure ⊎ (Q × Bytes)) (qc : QueryChange Q U) (rname : Bytes)
        (params : Params) (query q : Q) (norm : Bytes) (evs : List (ResultEvent U))
        → f rname params query ≡ inr (q, norm)
        → qc q ≡ inr (evs, false)
        → query_callback o f qc rname params query ≡ changed_script o evs
    unfolding query_callback
    query_callback-eq f qc rname params query q norm evs asked answered =
        rw (query_callback, asked, answered) refl

    -- For a query resource that is a collection, with an IDToRIDCollectionTransformer: if the change
    -- answers the query of a query request with events, that lead the identifiers of its result to
    -- those of another result, each addition with a string, then the request has one reply, which is
    -- that for events that lead the transformed first result to the transformed second one.
    pub query_callback-replies :
        (marshal : QueryResponse (Dynamic U) → Marshalled)
        (f : Bytes → Params → Q → Failure ⊎ (Q × Bytes)) (qc : QueryChange Q U) (rname : Bytes)
        (params : Params) (text : Bytes) (query q : Q) (norm : Bytes) (evs : List (ResultEvent U))
        (xs ys : List Bytes)
        → is_nil text ≡ false
        → f rname params query ≡ inr (q, norm)
        → qc q ≡ inr (evs, false)
        → edit_with as_string evs xs ≡ some ys
        → (shown_events : List (ResEvent (Dynamic U))) × (before : List Bytes) × (after : List
            Bytes)
          × ((handle_query_request marshal rtype
                (query_callback o f qc rname params query)
                (with_query text)).replies
              ≡ events_payload marshal shown_events ∷ [])
          × (collection_result {V = U} t (strings xs) ≡ inr (refs before))
          × (collection_result {V = U} t (strings ys) ≡ inr (refs after))
          × (follow_replies shown_events before ≡ some after)
    query_callback-replies marshal f qc rname params text query q norm evs xs ys there asked
          answered leads =
        let (evs', before, after, b, a, e, run) = collection_events-edit t evs xs ys leads in
        let (es, s, followed) = events_script-Shows evs' before after run in
        let k : query_callback o f qc rname params query ≡ events_script o evs' =
          query_callback-eq f qc rname params query q norm evs asked answered
          ∙ changed_script-eq evs evs' e in
        (
          es,
          before,
          after,
          handle_query_request-events marshal rtype _ text es there (ap (shown rtype) k ∙ s),
          b,
          a,
          followed,
        )
