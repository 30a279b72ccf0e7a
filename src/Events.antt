-- ===== src/Events.antt =====
-- resource.go: the events of a resource.
--
-- An event is applied by the service's own handler, published, and told to the listeners. `S` is
-- what the service stores of its resources, which the apply handlers change; `L` is the type of the
-- listeners. What a listener does is not modelled, nor is a panic of an apply handler.
mod Tests
pub mod Send
use go_res.Base.{
  ℕ, if◌then◌else◌, str_eq, codes, Bytes, Bool, true, false, not, Option, none, some, List, [], ◌∷◌,
  ◌++◌, map, any,
}
use go_res.Pattern.Valid.{is_nil}
use go_res.Rid.{is_valid_part}
use go_res.Request.Reply.{Failure, Raised, failure}

-- A Go int.
pub data ℤ : Type 0 where
  pos negsuc : ℕ → ℤ

pub data ResourceType : Type 0 where
  type_unset type_model type_collection : ResourceType

-- The payload of an event: `changeEvent`, `addEvent` and `removeEvent` of codec.go, or what a custom
-- event carries; `empty` is the nil payload.
pub data Payload (V : Type 0) : Type 0 where
  empty : Payload V
  custom_payload : V → Payload V
  change_payload : List (Bytes × V) → Payload V
  add_payload : V → ℕ → Payload V
  remove_payload : ℕ → Payload V

-- The struct `Event`, with the fields that each kind of event sets.
pub data Event (V : Type 0) : Type 0 where
  custom_event : Bytes → Option V → Event V
  change_event : List (Bytes × V) → Option (List (Bytes × V)) → Event V
  add_event : V → ℕ → Event V
  remove_event : Option V → ℕ → Event V
  create_event : V → Event V
  delete_event : Option V → Event V

pub data Effect (V L : Type 0) : Type 0 where
  published : Bytes → Payload V → Effect V L
  heard : L → Event V → Effect V L

-- What an apply handler returns: its value, or an error; and what is stored behind it.
pub data Applied (R S : Type 0) : Type 0 where
  applied : R → S → Applied R S
  refused : Failure → S → Applied R S

-- The struct `resource`, with the fields of its handler that the events use. A map or a slice is nil
-- exactly if the option is `none`.
pub record Resource (V S L : Type 0) : Type 0 where
  pub rname : Bytes
  pub rtype : ResourceType
  pub apply_change : Option (List (Bytes × V) → S → Applied (Option (List (Bytes × V))) S)
  pub apply_add : Option (V → ℕ → S → Applied (Unit {0}) S)
  pub apply_remove : Option (ℕ → S → Applied (Option V) S)
  pub apply_create : Option (V → S → Applied (Unit {0}) S)
  pub apply_delete : Option (S → Applied (Option V) S)
  pub listeners : List L

pub record World (V S L : Type 0) : Type 0 where
  pub stored : S
  pub effects : List (Effect V L)

pub data Ended (W : Type 0) : Type 0 where
  done : W → Ended W
  raised : Raised → W → Ended W

abbrev pub left : {W : Type 0} → Ended W → W
left (done w) = w
left (raised v w) = w

abbrev pub event_subject : Bytes → Bytes → Bytes
event_subject rname name = codes "event." ++ rname ++ codes "." ++ name

-- The events that are called on a resource.
pub data Update (V : Type 0) : Type 0 where
  custom : Bytes → Option V → Update V
  change : List (Bytes × V) → Update V
  add : V → ℤ → Update V
  remove : ℤ → Update V
  create : V → Update V
  delete reaccess : Update V
