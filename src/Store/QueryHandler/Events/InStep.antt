-- ===== src/Store/QueryHandler/Events/InStep.antt =====
-- A client that has the transformed result of a query, and follows the events of the resource, keeps
-- in step with the result.
use go_res.Base.{
  ℕ, if◌then◌else◌, str_eq, str_eq_refl, codes, Bytes, Bool, true, false, Option, none, some, List,
  [], ◌∷◌, ◌++◌, append-nil, append_assoc, map, follow, follow-eq-some, inl, inr, ◌≡◌, refl, sym,
  ◌∙◌, ap,
}
use go_res.Params.{Params}
use go_res.Events.{
  ℤ, Payload, Event, Effect, published, heard, Resource, World, done, Update, add, remove,
  add_payload, remove_payload, add_event, remove_event, event_subject,
}
use go_res.Events.Send.{update, is_model}
use go_res.Events.Send.Edits.{add_effects, remove_effects, update-add, update-remove}
use go_res.Store.Diff.Script.{insert_elem, delete_elem}
use go_res.Store.Transform.{
  Dynamic, strings, refs, ResultEvent, TransformError, collection_result, collection_events,
}
use go_res.Store.Transform.Collection.{
  edit_at, edit_with, as_string, as_ref, needed, edit_at_cases, collection_events-edit,
}
use go_res.Store.QueryHandler.{
  QueryChange, QueryHandler, Sent, returned, Found, requested, collection_transformer,
}
use go_res.Store.QueryHandler.Transformed.{transformed_events-eq}
use go_res.Store.QueryHandler.Events.{
  update_of, behind_event, send_events, send_transformed, changes_for, resource_event,
}

-- What a client does with its copy of the collection `rname`. `none` is an event that it cannot
-- follow, and one that is published on another subject than those of the collection's add and
-- remove events.
unfoldable pub hear :
    {U L : Type 0} → Bytes → Effect (Dynamic U) L → List Bytes → Option (List Bytes)
hear rname (published subject (add_payload v n)) xs =
    if str_eq subject (event_subject rname (codes "add"))
    then follow (as_ref v) (λ r. insert_elem r n xs)
    else none
hear rname (published subject (remove_payload n)) xs =
    if str_eq subject (event_subject rname (codes "remove")) then delete_elem n xs else none
hear rname (published subject p) xs = none
hear rname (heard l ev) xs = some xs

unfoldable pub hear_all :
    {U L : Type 0} → Bytes → List (Effect (Dynamic U) L) → List Bytes → Option (List Bytes)
unfolding hear
hear_all rname [] xs = some xs
hear_all rname (e ∷ es) xs = follow (hear rname e xs) (hear_all rname es)

module _ {U L : Type 0} (rname : Bytes) where
  hear_all-heard :
      (ls : List L) (ev : Event (Dynamic U)) (es : List (Effect (Dynamic U) L)) (xs : List Bytes)
      → hear_all rname (map (λ l. heard l ev) ls ++ es) xs ≡ hear_all rname es xs
  unfolding hear_all hear
  hear_all-heard [] ev es xs = refl
  hear_all-heard (l ∷ ls) ev es xs = hear_all-heard ls ev es xs

module _ {Q U S L : Type 0} (o : QueryHandler Q U) (encodes : Payload (Dynamic U) → Bool)
    (encodes_all : (p : Payload (Dynamic U)) → encodes p ≡ true) (r : Resource (Dynamic U) S L)
    (collection : is_model r.rtype ≡ false) (no_add : r.apply_add ≡ none)
    (no_remove : r.apply_remove ≡ none) where
  abbrev Sends : List (ResultEvent U) → Sent U S L → List Bytes → List Bytes → Type 0
  Sends evs sent xs ys =
      (es : List (Effect (Dynamic U) L)) × (send_events o encodes r evs sent
        ≡ returned none
            (record sent { world = record sent.world { effects = sent.world.effects ++ es } }))
      × (hear_all r.rname es xs ≡ some ys)

  send_events-cons :
      (ev : ResultEvent U) (evs : List (ResultEvent U)) (sent : Sent U S L) (u : Update (Dynamic U))
      (w : World (Dynamic U) S L)
      → update_of o ev ≡ some u
      → update encodes r u sent.world ≡ done w
      → send_events o encodes r (ev ∷ evs) sent
        ≡ send_events o encodes r evs (record sent { world = w })
  unfolding behind_event send_events
  send_events-cons ev evs sent u w p q = rw (send_events, p, q) refl

  send_events-nil : (sent : Sent U S L) → send_events o encodes r [] sent ≡ returned none sent
  unfolding send_events
  send_events-nil sent = refl

  heard_added :
      (v : Dynamic U) (n : ℕ) (id : Bytes) (es : List (Effect (Dynamic U) L)) (xs zs : List Bytes)
      → as_ref v ≡ some id
      → insert_elem id n xs ≡ some zs
      → hear_all r.rname (add_effects r v n ++ es) xs ≡ hear_all r.rname es zs
  unfolding hear_all hear
  heard_added v n id es xs zs h k =
      rw (str_eq_refl (event_subject r.rname (codes "add")), h, k)
        (hear_all-heard r.rname r.listeners (add_event v n) es zs)

  heard_removed :
      (n : ℕ) (es : List (Effect (Dynamic U) L)) (xs zs : List Bytes)
      → delete_elem n xs ≡ some zs
      → hear_all r.rname (remove_effects r n ++ es) xs ≡ hear_all r.rname es zs
  unfolding hear_all hear
  heard_removed n es xs zs k =
      rw (str_eq_refl (event_subject r.rname (codes "remove")), k)
        (hear_all-heard r.rname r.listeners (remove_event none n) es zs)

  update_of-add :
      (ev : ResultEvent U)
      → str_eq ev.name (codes "add") ≡ true
      → update_of o ev ≡ some (add ev.value ev.idx)
  unfolding update_of
  update_of-add ev a = rw a refl

  update_of-remove :
      (ev : ResultEvent U)
      → str_eq ev.name (codes "add") ≡ false
      → str_eq ev.name (codes "remove") ≡ true
      → update_of o ev ≡ some (remove ev.idx)
  unfolding update_of
  update_of-remove ev a r = rw (a, r) refl

  send_events-Sends :
      (evs : List (ResultEvent U)) (sent : Sent U S L) (xs ys : List Bytes)
      → edit_with as_ref evs xs ≡ some ys
      → Sends evs sent xs ys
  unfolding edit_with hear_all
  send_events-Sends [] sent xs ys h = ([], send_events-nil sent ∙ rw append-nil refl, h)
  send_events-Sends (ev ∷ evs) sent xs ys h =
      let (id, need, rest) = follow-eq-some (needed as_ref ev.name ev.value) _ h in
      let (zs, edit, tail) =
        follow-eq-some (edit_at ev.name ev.idx id xs) (edit_with as_ref evs) rest in
      let (n, at, did) = edit_at_cases ev.name ev.idx id xs zs edit in
      elim did [
        | inl (a, put) ↦
            let w : World (Dynamic U) S L = record sent.world {
              effects = sent.world.effects ++ add_effects r ev.value n;
            } in
            let (es, e, run) = send_events-Sends evs (record sent { world = w }) zs ys tail in
            let held : as_ref ev.value ≡ some id = rw a at need in
            (
              add_effects r ev.value n ++ es,
              send_events-cons ev evs sent (add ev.value (ℤ.pos n)) w
                    (update_of-add ev a ∙ ap (λ i. some (add ev.value i)) at)
                    (update-add encodes encodes_all r collection no_add no_remove ev.value n
                      sent.world)
                  ∙ e
                  ∙ rw append_assoc refl,
              heard_added ev.value n id es xs zs held put ∙ run,
            )
        | inr (a, b, out) ↦
            let w : World (Dynamic U) S L = record sent.world {
              effects = sent.world.effects ++ remove_effects r n;
            } in
            let (es, e, run) = send_events-Sends evs (record sent { world = w }) zs ys tail in
            (
              remove_effects r n ++ es,
              send_events-cons ev evs sent (remove (ℤ.pos n)) w
                    (update_of-remove ev a b ∙ ap (λ i. some (remove i)) at)
                    (update-remove encodes encodes_all r collection no_add no_remove n sent.world)
                  ∙ e
                  ∙ rw append_assoc refl,
              heard_removed n es xs zs out ∙ run,
            )
      ]

  module _ (t : Bytes → Bytes) (describe : TransformError → Bytes)
      (has_trans : o.trans ≡ some (collection_transformer describe t)) where
    send_transformed-eq :
        (evs evs' : List (ResultEvent U)) (sent : Sent U S L)
        → collection_events t evs ≡ (none, evs')
        → send_transformed o encodes r evs sent ≡ send_events o encodes r evs' sent
    unfolding send_transformed collection_events
    send_transformed-eq [] evs' sent h =
        sym
          (ap (λ z. send_events o encodes r z sent) (sym (ap (λ p. p.1) h)) ∙ send_events-nil sent)
    send_transformed-eq (ev ∷ evs) evs' sent h =
        rw (send_transformed, transformed_events-eq o t describe has_trans (ev ∷ evs) evs' h) refl

    resource_event-eq :
        (resource : Bytes → Option (Found U S L)) (rid : Bytes) (params : Params) (q : Q)
        (qc : QueryChange Q U) (evs : List (ResultEvent U)) (sent : Sent U S L)
        → resource rid ≡ some (r, params)
        → requested o r.rname params ≡ inr q
        → qc q ≡ inr (evs, false)
        → resource_event o encodes resource rid qc sent ≡ send_transformed o encodes r evs sent
    unfolding resource_event changes_for
    resource_event-eq resource rid params q qc evs sent found asked answered =
        rw (resource_event, found, asked, answered) refl

    -- For a collection of the service that applies no events itself, with an
    -- IDToRIDCollectionTransformer, and if all payloads can be encoded as JSON: if the change answers the query of the resource with events, that
    -- lead the identifiers of its result to those of another result, each addition with a string,
    -- then resourceEvent returns no error, and all that it publishes are add and remove events on the
    -- subjects of the resource. A client that has the transformed first result can follow them in
    -- their order, and ends with the transformed second one.
    pub resource_event-InStep :
        (resource : Bytes → Option (Found U S L)) (rid : Bytes) (params : Params) (q : Q)
        (qc : QueryChange Q U) (evs : List (ResultEvent U)) (xs ys : List Bytes) (sent : Sent U S L)
        → resource rid ≡ some (r, params)
        → requested o r.rname params ≡ inr q
        → qc q ≡ inr (evs, false)
        → edit_with as_string evs xs ≡ some ys
        → (es : List (Effect (Dynamic U) L)) × (before : List Bytes) × (after : List Bytes)
          × (resource_event o encodes resource rid qc sent
              ≡ returned none (record sent {
                world = record sent.world { effects = sent.world.effects ++ es };
              }))
          × (collection_result {V = U} t (strings xs) ≡ inr (refs before))
          × (collection_result {V = U} t (strings ys) ≡ inr (refs after))
          × (hear_all r.rname es before ≡ some after)
    resource_event-InStep resource rid params q qc evs xs ys sent found asked answered leads =
        let (evs', before, after, b, a, e, run) = collection_events-edit t evs xs ys leads in
        let (es, f, heard_all) = send_events-Sends evs' sent before after run in
        (
          es,
          before,
          after,
          resource_event-eq resource rid params q qc evs sent found asked answered
              ∙ send_transformed-eq evs evs' sent e
              ∙ f,
          b,
          a,
          heard_all,
        )
