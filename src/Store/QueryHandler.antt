-- ===== src/Store/QueryHandler.antt =====
-- store/querystorehandler.go.
--
-- `Q` is the type of the parsed queries, and `U` that of the values that the transformers do not
-- know. The functions of the handler and of the query store, and the method `Resource` of the
-- service, are parameters, as they are of the source. A callback on a request is a script of its
-- calls, as in Request/Execute and Query.
mod Tests
pub mod Setup
pub mod Transformed
pub mod Callback
pub mod Events
use go_res.Base.{
  if◌then◌else◌, codes, Bytes, Bool, Option, none, some, List, [], ◌++◌, ◌⊎◌, inl, inr,
}
use go_res.Params.{Params}
use go_res.Pattern.Valid.{is_nil}
use go_res.Request.Reply.{Failure, plain, Raised, text}
use go_res.Request.Execute
use go_res.Query
use go_res.Events.{ResourceType, type_unset, type_model, type_collection, Resource, World}
use go_res.Store.Transform.{
  Dynamic, ResultEvent, TransformError, collection_result, collection_events,
}

-- `QueryTransformer` of store/store.go.
pub record QueryTransformer (U : Type 0) : Type 0 where
  pub transform_result : Dynamic U → Failure ⊎ Dynamic U
  pub transform_events : List (ResultEvent U) → Failure ⊎ List (ResultEvent U)

-- The method `Events` of `QueryChange`: the events, and the flag `reset`.
abbrev pub QueryChange : Type 0 → Type 0 → Type 0
QueryChange Q U = Q → Failure ⊎ (List (ResultEvent U) × Bool)

-- The struct `queryHandler`; a function that is nil is `none`. `query` is the query store's method,
-- and `no_query` are nil values.
pub record QueryHandler (Q U : Type 0) : Type 0 where
  pub pattern : Bytes
  pub typ : ResourceType
  pub query : Q → Failure ⊎ Dynamic U
  pub no_query : Q
  pub qrh : Option (Bytes → Params → Q → Failure ⊎ (Q × Bytes))
  pub rh : Option (Bytes → Params → Failure ⊎ Q)
  pub trans : Option (QueryTransformer U)
  pub ar : Option (Bytes → QueryChange Q U → List Bytes)

-- What resourceEvent returns as an error.
pub data EventError : Type 0 where
  no_resource : EventError
  request_refused no_events not_transformed : Failure → EventError
  invalid_event_name : Bytes → EventError

-- What was sent: the events of resources, the resources that were reset, and the errors logged.
pub record Sent (U S L : Type 0) : Type 0 where
  pub world : World (Dynamic U) S L
  pub resets : List Bytes
  pub errors : List (Bytes × EventError)

pub data Fired (U S L : Type 0) : Type 0 where
  returned : Option EventError → Sent U S L → Fired U S L
  panicked : Raised → Sent U S L → Fired U S L

-- A resource of the service, and its path parameters.
abbrev pub Found : Type 0 → Type 0 → Type 0 → Type 0
Found U S L = Resource (Dynamic U) S L × Params

module _ {Q U : Type 0} (o : QueryHandler Q U) where
  transformed_result : Dynamic U → Failure ⊎ Dynamic U
  transformed_result v = elim o.trans [ none ↦ inr v | some t ↦ t.transform_result v ]

  unfoldable pub get_result : Q → Failure ⊎ Dynamic U
  unfolding transformed_result
  get_result q = elim (o.query q) [ inl e ↦ inl e | inr v ↦ transformed_result v ]

  unfoldable pub transformed_events : List (ResultEvent U) → Failure ⊎ List (ResultEvent U)
  transformed_events evs = elim o.trans [ none ↦ inr evs | some t ↦ t.transform_events evs ]

  -- The query that the request handler makes; nil without one.
  unfoldable pub requested : Bytes → Params → Failure ⊎ Q
  requested rname params = elim o.rh [ none ↦ inr o.no_query | some f ↦ f rname params ]

  -- The answer to a get request, with the normalized query.
  answer_as : ResourceType → Dynamic U → Bytes → Execute.Script (Dynamic U)
  answer_as type_model v norm = Execute.call (Execute.model v norm) Execute.finish
  answer_as type_collection v norm = Execute.call (Execute.collection v norm) Execute.finish
  answer_as type_unset v norm = Execute.throw (text (codes "invalid type"))

  refuse : Failure → Execute.Script (Dynamic U)
  refuse e = Execute.call (Execute.error_result e) Execute.finish

  unfoldable pub get_resource : Bytes → Params → Execute.Script (Dynamic U)
  unfolding requested get_result refuse answer_as
  get_resource rname params = elim (requested rname params) [
    | inl e ↦ refuse e
    | inr q ↦ elim (get_result q) [ inl e ↦ refuse e | inr v ↦ answer_as o.typ v [] ]
  ]

  -- `f` is the QueryRequestHandler, and `query` the parsed query of the request.
  unfoldable pub get_query_resource :
      (Bytes → Params → Q → Failure ⊎ (Q × Bytes)) → Bytes → Params → Q → Execute.Script (Dynamic U)
  unfolding get_result refuse answer_as
  get_query_resource f rname params query = elim (f rname params query) [
    | inl e ↦ refuse e
    | inr (q, norm) ↦ elim (get_result q) [
      | inl e ↦ refuse e
      | inr v ↦
          if is_nil norm
          then Execute.throw (
              text (
                codes
                  "QueryResourceHandler returned an empty normalized query string for resource: "
                ++ rname))
          else answer_as o.typ v norm
    ]
  ]

-- An `IDToRIDCollectionTransformer` as a QueryTransformer; `describe` makes the text of an error,
-- which names the type of the value.
unfoldable pub collection_transformer :
    {U : Type 0} → (TransformError → Bytes) → (Bytes → Bytes) → QueryTransformer U
unfolding collection_result collection_events
collection_transformer describe t = record {
  transform_result =
      λ v. elim (collection_result t v) [ inl e ↦ inl (plain (describe e)) | inr v' ↦ inr v' ];
  transform_events = λ evs. elim (collection_events t evs).0 [
    | some e ↦ inl (plain (describe e))
    | none ↦ inr (collection_events t evs).1
  ];
}
