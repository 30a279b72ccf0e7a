-- ===== src/Store/Handler/InStep.antt =====
-- The events of changeHandler lead a client from the answer of getResource before the change to
-- that behind it.
use mathlib.Core.Option
use mathlib.Core.Path.{subst₂}
use go_res.Base.{
  Bytes, Bool, true, false, Option, none, some, List, Result, ok, ◌≡◌, refl, ◌∙◌, ap, none-ne-some,
  eq_of_some,
}
use go_res.Params.{lookup}
use go_res.Pattern.Valid.{is_nil}
use go_res.Store.Value.{Value, equal}
use go_res.Store.Diff.Script.{receive_all, Agree}
use go_res.Store.Diff.Right.{collection_diff-receive_all}
use go_res.Store.Model.{model_diff}
use go_res.Store.Model.Changed.{AgreeAt, received, distinct_keys, model_diff-change_of}
use go_res.Store.Handler.{
  ResourceType, model, collection, Transformer, StoreHandler, Codec, StoreEvent, change, edits,
  Handled, sent, get_value, transformed, rid_for, send_diff, send_change, handle_at,
  handle_transformed, change_handler, send_model, send_collection,
}

-- What a client has of a resource.
pub data Content : Type 0 where
  properties : List (Bytes × Value) → Content
  elements : List Value → Content

-- A Go map has each key once.
abbrev pub is_map : Content → Bool
is_map (properties m) = distinct_keys m
is_map (elements xs) = true

-- The event turns a copy of the first content into one that agrees with the second.
abbrev pub Follows : {V : Type 0} → Content → StoreEvent V → Content → Type 0
Follows (properties before) (change ch) (properties after) =
    (k : Bytes) → AgreeAt equal (received equal (lookup k ch) (lookup k before)) (lookup k after)
Follows (elements before) (edits es) (elements after) =
    (copy : List Value) × (receive_all es before ≡ some copy) × Agree equal copy after
Follows _ _ _ = ⊥

module _ {V : Type 0} (codec : Codec V) (has_resource : Bytes → Bool) where
  abbrev pub content : ResourceType → V → Option Content
  content model v = Option.map properties (codec.as_model v)
  content collection v = Option.map elements (codec.as_collection v)

  abbrev Sends : Bytes → Content → Content → Result (Handled V) → Type 0
  Sends rid before after r = (e : StoreEvent V) × (r ≡ ok (sent rid e)) × Follows before e after

  send_model-Sends :
      (rid : Bytes) (ob oa : Option (List (Bytes × Value))) (before after : Content)
      → Option.map properties ob ≡ some before
      → Option.map properties oa ≡ some after
      → is_map after ≡ true
      → Sends rid before after (ok (send_model codec has_resource rid ob oa))
  unfolding send_model
  send_model-Sends rid none oa before after h k m = absurd (none-ne-some h)
  send_model-Sends rid (some b) none before after h k m = absurd (none-ne-some k)
  send_model-Sends rid (some b) (some a) before after h k m =
      subst₂ (λ x y. Sends rid x y (ok (sent rid (change (model_diff equal b a))))) (eq_of_some h)
        (eq_of_some k)
        (
          change (model_diff equal b a),
          refl,
          λ key. (model_diff-change_of equal b a key (ap is_map (eq_of_some k) ∙ m)).1,
        )

  send_collection-Sends :
      (rid : Bytes) (ob oa : Option (List Value)) (before after : Content)
      → Option.map elements ob ≡ some before
      → Option.map elements oa ≡ some after
      → Sends rid before after (send_collection codec has_resource rid ob oa)
  unfolding send_collection
  send_collection-Sends rid none oa before after h k = absurd (none-ne-some h)
  send_collection-Sends rid (some b) none before after h k = absurd (none-ne-some k)
  send_collection-Sends rid (some b) (some a) before after h k =
      let (es, copy, e, run, agree) = collection_diff-receive_all equal b a in
      subst₂ (λ x y. Sends rid x y (send_collection codec has_resource rid (some b) (some a)))
        (eq_of_some h) (eq_of_some k) (edits es, rw e refl, (copy, run, agree))

  send_diff-Sends :
      (type : ResourceType) (rid : Bytes) (b a : V) (before after : Content)
      → content type b ≡ some before
      → content type a ≡ some after
      → is_map after ≡ true
      → Sends rid before after (send_diff codec has_resource type rid b a)
  unfolding send_diff
  send_diff-Sends model rid b a before after h k m =
      send_model-Sends rid (codec.as_model b) (codec.as_model a) before after h k m
  send_diff-Sends collection rid b a before after h k m =
      send_collection-Sends rid (codec.as_collection b) (codec.as_collection a) before after h k

  transformed-get_value :
      (o : StoreHandler V) (t : Transformer V) (id : Bytes) (v : Option V)
      → o.trans ≡ some t
      → transformed t id o.def v ≡ get_value o id v
  unfolding transformed get_value
  transformed-get_value o t id none e = refl
  transformed-get_value o t id (some v) e = rw e refl

  -- Where the handler has a transformer, and getResource answers before and after the change of a
  -- stored value with values that can be decoded to the handler's type (a model without a repeated
  -- key), and the transformer names a resource of the service for the value after: changeHandler
  -- returns, having sent for that resource a change event or the edits of a collection, which turn a
  -- client's copy of the answer before into one that agrees with the answer after.
  pub change_handler-Follows :
      (o : StoreHandler V) (t : Transformer V) (id : Bytes) (before after : Option V) (b a : V)
      (cb ca : Content)
      → o.trans ≡ some t
      → get_value o id before ≡ some b
      → get_value o id after ≡ some a
      → content o.type b ≡ some cb
      → content o.type a ≡ some ca
      → is_map ca ≡ true
      → is_nil (t.id_to_rid id a) ≡ false
      → has_resource (t.id_to_rid id a) ≡ true
      → (e : StoreEvent V) × (change_handler codec has_resource o id before after
          ≡ ok (sent (t.id_to_rid id a) e))
        × Follows cb e ca
  unfolding change_handler handle_transformed handle_at send_change rid_for
  change_handler-Follows o t id before after b a cb ca et eb ea hb ha m named there =
      let (e, p, f) = send_diff-Sends o.type (t.id_to_rid id a) b a cb ca hb ha m in
      let zb = transformed-get_value o t id before et ∙ eb in
      let za = transformed-get_value o t id after et ∙ ea in (e, rw (et, zb, za, named, there) p, f)
