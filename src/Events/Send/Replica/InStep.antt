-- ===== src/Events/Send/Replica/InStep.antt =====
-- A client that follows the published events of a resource keeps in step with what is stored.
use go_res.Base.{
  by_test, and-eq-true, if◌then◌else◌, codes, Bytes, Bool, true, false, not, Option, none, some,
  List, [], ◌∷◌, ◌++◌, map, all, ◌≡◌, refl, ap, ◌∙◌, inl, inr,
}
use go_res.Params.{lookup}
use go_res.Pattern.Valid.{is_nil}
use go_res.Request.Reply.{Raised}
use go_res.Events.Send.Replica.{
  Client, receive, receive_all, is_edit, ChangeRight, EditRight, Mirrors,
}
use go_res.Rid.{is_valid_part}
use go_res.Events.{
  Payload, Event, Effect, Applied, applied, refused, change_payload, add_payload, remove_payload,
  custom_payload, custom_event, change_event, add_event, remove_event, Resource, World, Ended,
  Update, ℤ, pos, negsuc, left, event_subject, published, heard, done, raised, empty, custom,
  change, add, remove, create, delete, reaccess,
}
use go_res.Events.Send.{
  reserved, send, announce, with_applied, payload_of, send_custom, changed, send_change, added,
  add_at, send_add, removed, remove_at, send_remove, send_reaccess, update, updates, is_model,
  is_collection,
}

-- A choice by a handler, which is there.
by_handler :
    {A F : Type 0} (P : A → Type 0) {handler : Option F} (x : A) (g : F → A) {f : F}
    → handler ≡ some f
    → P (g f)
    → P (elim handler [ none ↦ x | some h ↦ g h ])
by_handler P x g e p = rw e p

module _ {V L M : Type 0} (encodes : Payload V → Bool)
    (encodes_all : (p : Payload V) → encodes p ≡ true) (client : Client V M) where
  receive_all-append :
      (es fs : List (Effect V L)) (m : M)
      → receive_all client (es ++ fs) m ≡ receive_all client fs (receive_all client es m)
  unfolding receive_all
  receive_all-append [] fs m = refl
  receive_all-append (published subject p ∷ es) fs m = receive_all-append es fs (receive client p m)
  receive_all-append (heard l ev ∷ es) fs m = receive_all-append es fs m

  receive_all-heard :
      (ls : List L) (ev : Event V) (m : M) → receive_all client (map (λ l. heard l ev) ls) m ≡ m
  unfolding receive_all
  receive_all-heard [] ev m = refl
  receive_all-heard (l ∷ ls) ev m = receive_all-heard ls ev m

  send-eq :
      (subject : Bytes) (p : Payload V) → send {L = L} encodes subject p ≡ published subject p ∷ []
  unfolding send
  send-eq subject empty = refl
  send-eq subject (custom_payload v) = rw (encodes_all (custom_payload v)) refl
  send-eq subject (change_payload vs) = rw (encodes_all (change_payload vs)) refl
  send-eq subject (add_payload v n) = rw (encodes_all (add_payload v n)) refl
  send-eq subject (remove_payload n) = rw (encodes_all (remove_payload n)) refl

  -- What a client has behind an event.
  receive_all-announced :
      (subject : Bytes) (p : Payload V) (ev : Event V) (ls : List L) (es : List (Effect V L))
      (m : M)
      → receive_all client (es ++ send encodes subject p ++ map (λ l. heard l ev) ls) m
        ≡ receive client p (receive_all client es m)
  unfolding receive_all
  receive_all-announced subject p ev ls es m = rw (send-eq subject p) (
      receive_all-append (es ++ published subject p ∷ []) (map (λ l. heard l ev) ls) m
      ∙ receive_all-heard ls ev _
      ∙ receive_all-append es (published subject p ∷ []) m)

  module _ {S : Type 0} (view : S → M) (r : Resource V S L) (start : M) where
    -- A client that received all events has what is stored.
    pub record IsInStep (o : Ended (World V S L)) : Type 0 where
      in_step : receive_all client (left o).effects start ≡ view (left o).stored

    if-IsInStep :
        (b : Bool) {o o' : Ended (World V S L)}
        → (b ≡ true → IsInStep o)
        → (b ≡ false → IsInStep o')
        → IsInStep (if b then o else o')
    if-IsInStep b h h' = by_test IsInStep b h h'

    raised-IsInStep : (v : _) (w : World V S L) → IsInStep (done w) → IsInStep (raised v w)
    raised-IsInStep v w h = record { in_step = h.in_step }

    announce-IsInStep :
        (name : Bytes) (p : Payload V) (ev : Event V) (w : World V S L) (s : S)
        → IsInStep (done w)
        → receive client p (view w.stored) ≡ view s
        → IsInStep (done (announce encodes r name p ev (record w { stored = s })))
    unfolding announce
    announce-IsInStep name p ev w s h e = record {
      in_step =
          receive_all-announced (event_subject r.rname name) p ev r.listeners w.effects start
          ∙ ap (receive client p) h.in_step
          ∙ e;
    }

    edit_applied-IsInStep :
        {R : Type 0} (edit : M → M) (next : R → World V S L → Ended (World V S L)) (a : Applied R S)
        (w : World V S L)
        → EditRight client view edit w.stored a
        → IsInStep (done w)
        → ((x : R) (s : S)
            → edit (view w.stored) ≡ view s
            → IsInStep (next x (record w { stored = s })))
        → IsInStep (with_applied next a w)
    unfolding with_applied EditRight
    edit_applied-IsInStep edit next (applied x s) w right h go = go x s right
    edit_applied-IsInStep edit next (refused e s) w right h go = record {
      in_step = h.in_step ∙ right;
    }

    changed-IsInStep :
        (vs : List (Bytes × V)) (a : Applied (Option (List (Bytes × V))) S) (w : World V S L)
        → ChangeRight client view vs w.stored a
        → IsInStep (done w)
        → IsInStep (with_applied (changed encodes r vs) a w)
    unfolding with_applied changed ChangeRight receive
    changed-IsInStep vs (applied none s) w right h =
        announce-IsInStep (codes "change") (change_payload vs) (change_event vs none) w s h right
    changed-IsInStep vs (applied (some []) s) w right h = record { in_step = h.in_step ∙ right }
    changed-IsInStep vs (applied (some (o ∷ os)) s) w right h =
        announce-IsInStep (codes "change") (change_payload vs) (change_event vs (some (o ∷ os))) w s
          h right
    changed-IsInStep vs (refused e s) w right h = record { in_step = h.in_step ∙ right }

    custom-IsInStep :
        (why : Option Bytes) (name : Bytes) (v : Option V) (w : World V S L)
        → IsInStep (done w)
        → IsInStep (elim why [
          | some t ↦ raised (Raised.text t) w
          | none ↦
              if not (is_valid_part name)
              then raised (Raised.text (codes "res: invalid event name")) w
              else done (announce encodes r name (payload_of v) (custom_event name v) w)
        ])
    unfolding payload_of receive
    custom-IsInStep (some t) name v w h = raised-IsInStep _ w h
    custom-IsInStep none name none w h =
        if-IsInStep (not (is_valid_part name)) (λ y. raised-IsInStep _ w h)
          (λ y. announce-IsInStep name empty (custom_event name none) w w.stored h refl)
    custom-IsInStep none name (some v) w h =
        if-IsInStep (not (is_valid_part name)) (λ y. raised-IsInStep _ w h)
          (λ y.
            announce-IsInStep name (custom_payload v) (custom_event name (some v)) w w.stored h
              refl)

    module _ (mirrors : Mirrors r client view) where
      send_change-IsInStep :
          (vs : List (Bytes × V)) (w : World V S L)
          → IsInStep (done w)
          → IsInStep (send_change encodes r vs w)
      unfolding send_change
      send_change-IsInStep vs w h = elim mirrors.change_right [
        | inl e ↦ if-IsInStep (is_collection r.rtype) (λ y. raised-IsInStep _ w h) (λ y. cc)
        | inr (f, e, right) ↦
            if-IsInStep (is_collection r.rtype) (λ y. raised-IsInStep _ w h)
              (λ y.
                if-IsInStep (is_nil vs) (λ z. h)
                  (λ z.
                    by_handler IsInStep (changed encodes r vs none w)
                      (λ h. with_applied (changed encodes r vs) (h vs w.stored) w) e
                      (changed-IsInStep vs (f vs w.stored) w (right vs w.stored) h)))
      ]

      send_add-IsInStep :
          (v : V) (i : ℤ) (w : World V S L)
          → IsInStep (done w)
          → IsInStep (send_add encodes r v i w)
      unfolding send_add add_at added receive
      send_add-IsInStep v (negsuc n) w h =
          if-IsInStep (is_model r.rtype) (λ y. raised-IsInStep _ w h) (λ y. raised-IsInStep _ w h)
      send_add-IsInStep v (pos n) w h = elim mirrors.add_right [
        | inl e ↦ if-IsInStep (is_model r.rtype) (λ y. raised-IsInStep _ w h) (λ y. cc)
        | inr (f, e, right) ↦
            if-IsInStep (is_model r.rtype) (λ y. raised-IsInStep _ w h)
              (λ y.
                by_handler IsInStep (added encodes r v n tt w)
                  (λ h. with_applied (added encodes r v n) (h v n w.stored) w) e
                  (edit_applied-IsInStep (client.on_add v n) (added encodes r v n) (f v n w.stored)
                    w (right v n w.stored) h
                    (λ x s.
                      announce-IsInStep (codes "add") (add_payload v n) (add_event v n) w s h)))
      ]

      send_remove-IsInStep :
          (i : ℤ) (w : World V S L) → IsInStep (done w) → IsInStep (send_remove encodes r i w)
      unfolding send_remove remove_at removed receive
      send_remove-IsInStep (negsuc n) w h =
          if-IsInStep (is_model r.rtype) (λ y. raised-IsInStep _ w h) (λ y. raised-IsInStep _ w h)
      send_remove-IsInStep (pos n) w h = elim mirrors.remove_right [
        | inl e ↦ if-IsInStep (is_model r.rtype) (λ y. raised-IsInStep _ w h) (λ y. cc)
        | inr (f, e, right) ↦
            if-IsInStep (is_model r.rtype) (λ y. raised-IsInStep _ w h)
              (λ y.
                by_handler IsInStep (removed encodes r n none w)
                  (λ h. with_applied (removed encodes r n) (h n w.stored) w) e
                  (edit_applied-IsInStep (client.on_remove n) (removed encodes r n) (f n w.stored) w
                    (right n w.stored) h
                    (λ v s.
                      announce-IsInStep (codes "remove") (remove_payload n) (remove_event v n) w s
                        h)))
      ]

      pub update-IsInStep :
          (u : Update V) (w : World V S L)
          → is_edit u ≡ true
          → IsInStep (done w)
          → IsInStep (update encodes r u w)
      unfolding update is_edit send_custom send_reaccess receive_all receive
      update-IsInStep (custom name v) w e h = custom-IsInStep (lookup name reserved) name v w h
      update-IsInStep (change vs) w e h = send_change-IsInStep vs w h
      update-IsInStep (add v i) w e h = send_add-IsInStep v i w h
      update-IsInStep (remove i) w e h = send_remove-IsInStep i w h
      update-IsInStep (create v) w e h = cc
      update-IsInStep delete w e h = cc
      update-IsInStep reaccess w e h = record {
        in_step = receive_all-append w.effects (published _ empty ∷ []) start ∙ h.in_step;
      }

      left-IsInStep : (o : Ended (World V S L)) → IsInStep o → IsInStep (done (left o))
      left-IsInStep o h = record { in_step = h.in_step }

      updates-IsInStep :
          (us : List (Update V)) (w : World V S L)
          → all is_edit us ≡ true
          → IsInStep (done w)
          → IsInStep (done (updates encodes r us w))
      unfolding updates
      updates-IsInStep [] w e h = h
      updates-IsInStep (u ∷ us) w e h =
          let e' = and-eq-true (is_edit u) (all is_edit us) e in
          updates-IsInStep us (left (update encodes r u w)) e'.1
            (left-IsInStep (update encodes r u w) (update-IsInStep u w e'.0 h))

      -- A client that starts with what is stored, and follows the events that are published by any
      -- calls of events but create and delete, has at the end what is stored then. The calls may
      -- panic and are recovered from. The payloads can be encoded, the apply handlers that the type
      -- of the resource calls for are there, and each does to the stored resource what the client
      -- does to its copy, or nothing if it fails or tells that nothing was changed.
      pub receive_all-updates :
          (us : List (Update V)) (s : S)
          → all is_edit us ≡ true
          → start ≡ view s
          → receive_all client
              (updates encodes r us (record { stored = s; effects = [] })).effects
              start
            ≡ view (updates encodes r us (record { stored = s; effects = [] })).stored
      unfolding receive_all
      receive_all-updates us s e h =
          (updates-IsInStep us (record { stored = s; effects = [] }) e
            (record { in_step = h })).in_step
