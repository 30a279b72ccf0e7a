-- ===== src/Store/QueryHandler/Callback.antt =====
-- store/querystorehandler.go: the callback of a query event.
pub mod Shown
use go_res.Base.{
  if◌then◌else◌, str_eq, codes, Bytes, true, false, Option, none, some, List, [], ◌∷◌, ◌++◌, ◌⊎◌,
  inl, inr,
}
use go_res.Params.{Params}
use go_res.Request.Reply.{Failure, failure, text}
use go_res.Query
use go_res.Events.{ResourceType, type_unset, type_model, type_collection}
use go_res.Store.Transform.{Dynamic, ResultEvent}
use go_res.Store.QueryHandler.{Found, QueryChange, QueryHandler, get_result, transformed_events}

module _ {Q U : Type 0} (o : QueryHandler Q U) where
  -- An event as the call of a method of the query request, or none for another name.
  action_of : ResultEvent U → Option (Query.Action (Dynamic U))
  action_of ev =
      if str_eq ev.name (codes "add")
      then some (Query.add ev.value ev.idx)
      else if str_eq ev.name (codes "remove")
      then some (Query.remove ev.idx)
      else if str_eq ev.name (codes "change")
      then some (Query.change ev.changed)
      else none

  events_script : List (ResultEvent U) → Query.Script (Dynamic U)
  unfolding action_of
  events_script [] = Query.finish
  events_script (ev ∷ evs) = elim (action_of ev) [
    | none ↦ Query.throw (text (codes "invalid event name: " ++ ev.name))
    | some a ↦ Query.call a (events_script evs)
  ]

  refuse_query : Failure → Query.Script (Dynamic U)
  refuse_query e = Query.call (Query.error_result e) Query.finish

  reset_as : ResourceType → Dynamic U → Query.Script (Dynamic U)
  reset_as type_model v = Query.call (Query.model v) Query.finish
  reset_as type_collection v = Query.call (Query.collection v) Query.finish
  reset_as type_unset v = Query.throw (text (codes "invalid type"))

  changed_script : List (ResultEvent U) → Query.Script (Dynamic U)
  unfolding transformed_events events_script
  changed_script [] = Query.finish
  changed_script (ev ∷ evs) = elim (transformed_events o (ev ∷ evs)) [
    | inl e ↦ Query.throw (failure e)
    | inr evs' ↦ events_script evs'
  ]

  -- The callback of a query event, on a request with the parsed query `query`.
  unfoldable pub query_callback :
      (Bytes → Params → Q → Failure ⊎ (Q × Bytes))
      → QueryChange Q U
      → Bytes
      → Params
      → Q
      → Query.Script (Dynamic U)
  unfolding refuse_query get_result reset_as changed_script
  query_callback f qc rname params query = elim (f rname params query) [
    | inl e ↦ refuse_query e
    | inr (q, norm) ↦ elim (qc q) [
      | inl e ↦ refuse_query e
      | inr (evs, false) ↦ changed_script evs
      | inr (evs, true) ↦ elim (get_result o q) [
        | inl e ↦ refuse_query e
        | inr v ↦ reset_as o.typ v
      ]
    ]
  ]

  -- The affected resources that a query event is started for, and the resource name for which the
  -- handler panics, as the service has no such resource.
  query_events :
      {S L : Type 0}
      → (Bytes → Option (Found U S L))
      → List Bytes
      → Option Bytes × List (Found U S L)
  query_events resource [] = (none, [])
  query_events resource (rid ∷ rids) =
      let rest = query_events resource rids in
      elim (resource rid) [ none ↦ (some rid, []) | some r ↦ (rest.0, r ∷ rest.1) ]

  unfoldable pub query_change_handler :
      {S L : Type 0}
      → (Bytes → Option (Found U S L))
      → QueryChange Q U
      → Option Bytes × List (Found U S L)
  unfolding query_events
  query_change_handler resource qc = elim o.ar [
    | none ↦ query_events resource (o.pattern ∷ [])
    | some f ↦ query_events resource (f o.pattern qc)
  ]
