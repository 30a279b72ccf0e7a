-- ===== src/Query/Tests.antt =====
-- Runs of query requests, and the theorems about them.
use go_res.Base.{codes, Bytes, [], ◌∷◌, length, ◌≡◌, refl}
use go_res.Events.{pos, negsuc, type_collection, type_model}
use go_res.Events.Send.{is_model}
use go_res.Request.Reply.{Marshalled, bytes, encoded, static, Static, Raised}
use go_res.Query.{
  QueryResponse, of_model, of_collection, of_events, of_error, add, not_found, Script, call, finish,
  throw, with_query, handle_query_request, reply,
}
use go_res.Query.Answered.{handle_query_request-replies}

abbrev marshal_kind : QueryResponse Bytes → Marshalled
marshal_kind (of_model v) = bytes v
marshal_kind (of_collection v) = bytes v
marshal_kind (of_events evs) = bytes (codes "events")
marshal_kind (of_error e) = bytes e.code

-- Two items are added.
abbrev adds : Script Bytes
adds = call (add (codes "a") (pos 0)) (call (add (codes "b") (pos 1)) finish)

-- A reply, behind which the callback panics.
abbrev panics : Script Bytes
panics = call not_found (throw (Raised.text (codes "late")))

late_panic :
    (handle_query_request marshal_kind type_model panics (with_query (codes "q=1"))).replies
    ≡ static Static.not_found ∷ []
unfolding handle_query_request reply
late_panic = refl

negative_index :
    (handle_query_request marshal_kind type_collection
      (call (add [] (negsuc 0)) finish)
      (with_query (codes "q=1"))).replies
    ≡ encoded (codes "system.internalError") ∷ []
unfolding handle_query_request reply is_model
negative_index = refl

handle_query_request-replies_example :
    length (handle_query_request marshal_kind type_model panics (with_query (codes "q=1"))).replies
    ≡ 1
handle_query_request-replies_example =
    handle_query_request-replies marshal_kind type_model panics (with_query (codes "q=1"))
