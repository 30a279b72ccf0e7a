-- ===== src/Store/QueryHandler/Setup.antt =====
-- store/querystorehandler.go: the tests of a handler before it is used.
use go_res.Base.{
  Bytes, Bool, true, false, not, ◌&&◌, Option, none, some, Result, ok, panic, no_query_store,
  both_request_handlers, no_affected_resources, no_type, require, ◌||◌, ◌>>◌, ◌>>=◌,
}
use go_res.Pattern.Valid.{index_wildcard}
use go_res.Events.{ResourceType, type_unset, type_model, type_collection}
use go_res.Store.QueryHandler.{QueryHandler}

is_set : {A : Type 0} → Option A → Bool
is_set none = false
is_set (some a) = true

-- Whether the resource is a query resource; `has_store` tells that a QueryStore is set.
unfoldable pub set_option : {Q U : Type 0} → Bool → QueryHandler Q U → Result Bool
unfolding is_set
set_option has_store o =
    require has_store no_query_store
    >> (require (not (is_set o.qrh && is_set o.rh)) both_request_handlers >> ok (is_set o.qrh))

-- The types that are served.
served_type : ResourceType → Result ResourceType
served_type type_unset = panic no_type
served_type type_model = ok type_model
served_type type_collection = ok type_collection

-- The handler is told its pattern and its type.
unfoldable pub on_register :
    {Q U : Type 0} → Bytes → ResourceType → QueryHandler Q U → Result (QueryHandler Q U)
unfolding is_set served_type
on_register p typ o = do
  u ← require (not (is_set (index_wildcard p)) || is_set o.ar) no_affected_resources
  t ← served_type typ
  ok (record o { pattern = p; typ = t })
