-- ===== src/Store/QueryHandler/Events.antt =====
-- store/querystorehandler.go: the events of the resources that a change affects.
pub mod InStep
use go_res.Base.{
  if◌then◌else◌, str_eq, codes, Bytes, Bool, true, false, Option, none, some, List, [], ◌∷◌, ◌++◌,
  ◌⊎◌, inl, inr,
}
use go_res.Request.Reply.{Failure}
use go_res.Events.{Payload, Resource, World, Ended, done, raised, Update, add, remove, change}
use go_res.Events.Send.{update}
use go_res.Store.Transform.{Dynamic, ResultEvent}
use go_res.Store.QueryHandler.{
  QueryChange, QueryHandler, no_resource, request_refused, no_events, not_transformed,
  invalid_event_name, Sent, Fired, returned, panicked, Found, transformed_events, requested,
}

module _ {Q U : Type 0} (o : QueryHandler Q U) where
  -- An event as the call of a resource's method, or none for another name.
  update_of : ResultEvent U → Option (Update (Dynamic U))
  update_of ev =
      if str_eq ev.name (codes "add")
      then some (add ev.value ev.idx)
      else if str_eq ev.name (codes "remove")
      then some (remove ev.idx)
      else if str_eq ev.name (codes "change")
      then some (change ev.changed)
      else none

  module _ {S L : Type 0} (encodes : Payload (Dynamic U) → Bool) where
    -- How the loop goes on behind an event.
    behind_event :
        (World (Dynamic U) S L → Fired U S L)
        → Sent U S L
        → Ended (World (Dynamic U) S L)
        → Fired U S L
    behind_event next sent (done w) = next w
    behind_event next sent (raised v w) = panicked v (record sent { world = w })

    unfoldable pub send_events :
        Resource (Dynamic U) S L → List (ResultEvent U) → Sent U S L → Fired U S L
    unfolding update_of behind_event
    send_events r [] sent = returned none sent
    send_events r (ev ∷ evs) sent = elim (update_of ev) [
      | none ↦ returned (some (invalid_event_name ev.name)) sent
      | some u ↦
          behind_event (λ w. send_events r evs (record sent { world = w })) sent
            (update encodes r u sent.world)
    ]

    send_transformed : Resource (Dynamic U) S L → List (ResultEvent U) → Sent U S L → Fired U S L
    unfolding transformed_events send_events
    send_transformed r [] sent = returned none sent
    send_transformed r (ev ∷ evs) sent = elim (transformed_events o (ev ∷ evs)) [
      | inl e ↦ returned (some (not_transformed e)) sent
      | inr evs' ↦ send_events r evs' sent
    ]

    changes_for :
        Resource (Dynamic U) S L
        → Failure ⊎ (List (ResultEvent U) × Bool)
        → Sent U S L
        → Fired U S L
    unfolding send_transformed
    changes_for r (inl e) sent = returned (some (no_events e)) sent
    changes_for r (inr (evs, true)) sent =
        returned none (record sent { resets = sent.resets ++ r.rname ∷ [] })
    changes_for r (inr (evs, false)) sent = send_transformed r evs sent

    module _ (resource : Bytes → Option (Found U S L)) where
      unfoldable pub resource_event : Bytes → QueryChange Q U → Sent U S L → Fired U S L
      unfolding requested changes_for
      resource_event rid qc sent = elim (resource rid) [
        | none ↦ returned (some no_resource) sent
        | some (r, params) ↦ elim (requested o r.rname params) [
          | inl e ↦ returned (some (request_refused e)) sent
          | inr q ↦ changes_for r (qc q) sent
        ]
      ]

      -- The rest of the resources is left out behind an error, which is logged.
      behind_resource : (Sent U S L → Fired U S L) → Bytes → Fired U S L → Fired U S L
      behind_resource next rid (returned none sent) = next sent
      behind_resource next rid (returned (some e) sent) =
          returned (some e) (record sent { errors = sent.errors ++ (rid, e) ∷ [] })
      behind_resource next rid (panicked v sent) = panicked v sent

      resource_events : List Bytes → QueryChange Q U → Sent U S L → Fired U S L
      unfolding resource_event behind_resource
      resource_events [] qc sent = returned none sent
      resource_events (rid ∷ rids) qc sent =
          behind_resource (resource_events rids qc) rid (resource_event rid qc sent)

      unfoldable pub change_handler : QueryChange Q U → Sent U S L → Fired U S L
      unfolding resource_events
      change_handler qc sent = elim o.ar [
        | none ↦ resource_events (o.pattern ∷ []) qc sent
        | some f ↦ resource_events (f o.pattern qc) qc sent
      ]
