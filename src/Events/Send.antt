-- ===== src/Events/Send.antt =====
-- resource.go: the methods that send an event, and `event` of service.go.
pub mod Told
pub mod Replica
pub mod Edits
use go_res.Base.{
  ℕ, if◌then◌else◌, str_eq, codes, Bytes, Bool, true, false, not, Option, none, some, List, [], ◌∷◌,
  ◌++◌, map, any,
}
use go_res.Params.{lookup}
use go_res.Pattern.Valid.{is_nil}
use go_res.Rid.{is_valid_part}
use go_res.Request.Reply.{Failure, Raised, failure}
use go_res.Events.{
  ResourceType, Payload, Event, Effect, Applied, applied, refused, Resource, World, Ended, Update,
  ℤ, left, event_subject, published, heard, done, raised, empty, custom_payload, change_payload,
  add_payload, remove_payload, custom_event, change_event, add_event, remove_event, create_event,
  delete_event, pos, negsuc, type_unset, type_model, type_collection, custom, change, add, remove,
  create, delete, reaccess,
}

unfoldable pub is_model : ResourceType → Bool
is_model type_unset = false
is_model type_model = true
is_model type_collection = false

unfoldable pub is_collection : ResourceType → Bool
is_collection type_unset = false
is_collection type_model = false
is_collection type_collection = true

-- The names that `Event` panics for, each with the text of its panic.
abbrev pub reserved : List (Bytes × Bytes)
reserved =
    (codes "change", codes "res: use ChangeEvent to send change events")
    ∷ (codes "delete", codes "res: \"delete\" is a reserved event name")
    ∷ (codes "add", codes "res: use AddEvent to send add events")
    ∷ (codes "remove", codes "res: use RemoveEvent to send remove events")
    ∷ (codes "patch", codes "res: \"patch\" is a reserved event name")
    ∷ (codes "reaccess", codes "res: use ReaccessEvent to send a reaccess event")
    ∷ (codes "unsubscribe", codes "res: \"unsubscribe\" is a reserved event name")
    ∷ (codes "query", codes "res: \"query\" is a reserved event name")
    ∷ []

payload_of : {V : Type 0} → Option V → Payload V
payload_of none = empty
payload_of (some v) = custom_payload v

-- What follows an apply handler: a panic with its error, or the rest of the event.
with_applied :
    {V S L R : Type 0}
    → (R → World V S L → Ended (World V S L))
    → Applied R S
    → World V S L
    → Ended (World V S L)
with_applied next (applied x s) w = next x (record w { stored = s })
with_applied next (refused e s) w = raised (failure e) (record w { stored = s })

-- `encodes` tells whether `json.Marshal` succeeds on a payload.
module _ {V L : Type 0} (encodes : Payload V → Bool) where
  -- `event` and `rawEvent` of service.go; an event that cannot be encoded is only logged.
  unfoldable pub send : Bytes → Payload V → List (Effect V L)
  send subject empty = published subject empty ∷ []
  send subject (custom_payload v) =
      if encodes (custom_payload v) then published subject (custom_payload v) ∷ [] else []
  send subject (change_payload vs) =
      if encodes (change_payload vs) then published subject (change_payload vs) ∷ [] else []
  send subject (add_payload v n) =
      if encodes (add_payload v n) then published subject (add_payload v n) ∷ [] else []
  send subject (remove_payload n) =
      if encodes (remove_payload n) then published subject (remove_payload n) ∷ [] else []

module _ {V S L : Type 0} (encodes : Payload V → Bool) where
  -- The event is sent, and then told to the listeners in their order.
  announce : Resource V S L → Bytes → Payload V → Event V → World V S L → World V S L
  unfolding send
  announce r name p ev w = record w {
    effects =
        w.effects
        ++ send encodes (event_subject r.rname name) p
        ++ map (λ l. heard l ev) r.listeners;
  }

  send_custom : Resource V S L → Bytes → Option V → World V S L → Ended (World V S L)
  unfolding announce payload_of
  send_custom r name v w = elim (lookup name reserved) [
    | some why ↦ raised (Raised.text why) w
    | none ↦
        if not (is_valid_part name)
        then raised (Raised.text (codes "res: invalid event name")) w
        else done (announce r name (payload_of v) (custom_event name v) w)
  ]

  -- Behind ApplyChange: an empty map of old values tells that nothing was changed.
  changed :
      Resource V S L
      → List (Bytes × V)
      → Option (List (Bytes × V))
      → World V S L
      → Ended (World V S L)
  unfolding announce
  changed r vs none w =
      done (announce r (codes "change") (change_payload vs) (change_event vs none) w)
  changed r vs (some []) w = done w
  changed r vs (some (old ∷ olds)) w =
      done (announce r (codes "change") (change_payload vs) (change_event vs (some (old ∷ olds))) w)

  send_change : Resource V S L → List (Bytes × V) → World V S L → Ended (World V S L)
  unfolding changed with_applied
  send_change r vs w =
      if is_collection r.rtype
      then raised (Raised.text (codes "res: change event not allowed on Collections")) w
      else if is_nil vs
      then done w
      else elim r.apply_change [
        | none ↦ changed r vs none w
        | some f ↦ with_applied (changed r vs) (f vs w.stored) w
      ]

  added : Resource V S L → V → ℕ → Unit {0} → World V S L → Ended (World V S L)
  unfolding announce
  added r v n x w = done (announce r (codes "add") (add_payload v n) (add_event v n) w)

  add_at : Resource V S L → V → ℤ → World V S L → Ended (World V S L)
  unfolding added with_applied
  add_at r v (negsuc n) w = raised (Raised.text (codes "res: add event idx less than zero")) w
  add_at r v (pos n) w = elim r.apply_add [
    | none ↦ added r v n tt w
    | some f ↦ with_applied (added r v n) (f v n w.stored) w
  ]

  send_add : Resource V S L → V → ℤ → World V S L → Ended (World V S L)
  unfolding add_at
  send_add r v i w =
      if is_model r.rtype
      then raised (Raised.text (codes "res: add event not allowed on models")) w
      else add_at r v i w

  removed : Resource V S L → ℕ → Option V → World V S L → Ended (World V S L)
  unfolding announce
  removed r n v w = done (announce r (codes "remove") (remove_payload n) (remove_event v n) w)

  remove_at : Resource V S L → ℤ → World V S L → Ended (World V S L)
  unfolding removed with_applied
  remove_at r (negsuc n) w = raised (Raised.text (codes "res: remove event idx less than zero")) w
  remove_at r (pos n) w = elim r.apply_remove [
    | none ↦ removed r n none w
    | some f ↦ with_applied (removed r n) (f n w.stored) w
  ]

  send_remove : Resource V S L → ℤ → World V S L → Ended (World V S L)
  unfolding remove_at
  send_remove r i w =
      if is_model r.rtype
      then raised (Raised.text (codes "res: remove event not allowed on models")) w
      else remove_at r i w

  created : Resource V S L → V → Unit {0} → World V S L → Ended (World V S L)
  unfolding announce
  created r v x w = done (announce r (codes "create") empty (create_event v) w)

  send_create : Resource V S L → V → World V S L → Ended (World V S L)
  unfolding created with_applied
  send_create r v w = elim r.apply_create [
    | none ↦ created r v tt w
    | some f ↦ with_applied (created r v) (f v w.stored) w
  ]

  deleted : Resource V S L → Option V → World V S L → Ended (World V S L)
  unfolding announce
  deleted r v w = done (announce r (codes "delete") empty (delete_event v) w)

  send_delete : Resource V S L → World V S L → Ended (World V S L)
  unfolding deleted with_applied
  send_delete r w = elim r.apply_delete [
    | none ↦ deleted r none w
    | some f ↦ with_applied (deleted r) (f w.stored) w
  ]

  send_reaccess : Resource V S L → World V S L → Ended (World V S L)
  unfolding send
  send_reaccess r w = done (record w {
    effects = w.effects ++ send encodes (event_subject r.rname (codes "reaccess")) empty;
  })

  unfoldable pub update : Resource V S L → Update V → World V S L → Ended (World V S L)
  unfolding is_model is_collection send_custom send_change send_add send_remove send_create
      send_delete send_reaccess
  update r (custom name v) w = send_custom r name v w
  update r (change vs) w = send_change r vs w
  update r (add v i) w = send_add r v i w
  update r (remove i) w = send_remove r i w
  update r (create v) w = send_create r v w
  update r delete w = send_delete r w
  update r reaccess w = send_reaccess r w

  -- Calls one behind the other, each recovered from if it panics.
  unfoldable pub updates : Resource V S L → List (Update V) → World V S L → World V S L
  unfolding update
  updates r [] w = w
  updates r (u ∷ us) w = updates r us (left (update r u w))
