-- ===== src/Store/Handler.antt =====
-- `changeHandler` and the value that `getResource` answers with, of store/storehandler.go. A value
-- of the store is of any type `V`; the transformer, the service's test for a resource, and
-- `json.Marshal` with `json.Unmarshal` behind it are parameters, as they are of the source.
pub mod InStep
pub mod Copy
pub mod Replica
use go_res.Base.{◌>>=◌, if◌then◌else◌, not, Bytes, Bool, Option, none, some, List, Result, ok}
use go_res.Pattern.Valid.{is_nil}
use go_res.Store.Value.{Value, equal}
use go_res.Store.Diff.{DiffEvent, collection_diff}
use go_res.Store.Model.{Change, model_diff}

-- The type of the handler, once it is registered.
pub data ResourceType : Type 0 where
  model collection : ResourceType

-- `transform` is none for an error and for nil.
pub record Transformer (V : Type 0) : Type 0 where
  pub transform : Bytes → V → Option V
  pub id_to_rid : Bytes → V → Bytes

-- The fields that the two functions read; the pattern `p` is the transformer's business.
pub record StoreHandler (V : Type 0) : Type 0 where
  pub trans : Option (Transformer V)
  pub def : Option V
  pub type : ResourceType

pub record Codec (V : Type 0) : Type 0 where
  pub as_model : V → Option (List (Bytes × Value))
  pub as_collection : V → Option (List Value)

pub data StoreEvent (V : Type 0) : Type 0 where
  create : V → StoreEvent V
  delete : StoreEvent V
  change : List (Bytes × Change Value) → StoreEvent V
  edits : List (DiffEvent Value) → StoreEvent V

-- What changeHandler does: nothing, an error that is logged, or the events for a resource.
pub data Handled (V : Type 0) : Type 0 where
  ignored : Handled V
  logged : Handled V
  sent : Bytes → StoreEvent V → Handled V

module _ {V : Type 0} where
  -- A value that is not nil is transformed, and nil is the default value.
  transformed : Transformer V → Bytes → Option V → Option V → Option V
  transformed t id def none = def
  transformed t id def (some v) = t.transform id v

  -- What getResource answers with, for the value that the store has at the identifier, if it has one;
  -- `none` is an error. Other errors of the store are answered as they are.
  unfoldable pub get_value : StoreHandler V → Bytes → Option V → Option V
  get_value o id none = o.def
  get_value o id (some v) = elim o.trans [ none ↦ some v | some t ↦ t.transform id v ]

  rid_for : Transformer V → Bytes → Option V → Option V → Bytes
  rid_for t id before (some after) = t.id_to_rid id after
  rid_for t id (some before) none = t.id_to_rid id before
  rid_for t id none none = id

  module _ (codec : Codec V) (has_resource : Bytes → Bool) where
    send_model : Bytes → Option (List (Bytes × Value)) → Option (List (Bytes × Value)) → Handled V
    send_model rid (some before) (some after) = sent rid (change (model_diff equal before after))
    send_model rid none after = logged
    send_model rid (some before) none = logged

    send_collection : Bytes → Option (List Value) → Option (List Value) → Result (Handled V)
    send_collection rid (some before) (some after) = do
      es ← collection_diff equal before after
      ok (sent rid (edits es))
    send_collection rid none after = ok logged
    send_collection rid (some before) none = ok logged

    send_diff : ResourceType → Bytes → V → V → Result (Handled V)
    unfolding send_model send_collection
    send_diff model rid before after =
        ok (send_model rid (codec.as_model before) (codec.as_model after))
    send_diff collection rid before after =
        send_collection rid (codec.as_collection before) (codec.as_collection after)

    send_change : ResourceType → Bytes → Option V → Option V → Result (Handled V)
    unfolding send_diff
    send_change type rid none none = ok ignored
    send_change type rid none (some after) = ok (sent rid (create after))
    send_change type rid (some before) none = ok (sent rid delete)
    send_change type rid (some before) (some after) = send_diff type rid before after

    handle_at : ResourceType → Bytes → Option V → Option V → Result (Handled V)
    unfolding send_change
    handle_at type rid before after =
        if not (has_resource rid) then ok logged else send_change type rid before after

    handle_transformed :
        StoreHandler V → Transformer V → Bytes → Option V → Option V → Result (Handled V)
    unfolding transformed rid_for handle_at
    handle_transformed o t id before after =
        let b = transformed t id o.def before in
        let a = transformed t id o.def after in
        let rid = rid_for t id b a in if is_nil rid then ok ignored else handle_at o.type rid b a

    unfoldable pub change_handler :
        StoreHandler V → Bytes → Option V → Option V → Result (Handled V)
    unfolding handle_transformed handle_at
    change_handler o id before after = elim o.trans [
      | none ↦ handle_at o.type id before after
      | some t ↦ handle_transformed o t id before after
    ]
