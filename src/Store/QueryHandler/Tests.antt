-- ===== src/Store/QueryHandler/Tests.antt =====
-- Runs of the query handler, and the theorems about it.
use go_res.Base.{
  codes, if◌then◌else◌, str_eq, Bytes, Bool, true, false, Option, none, some, List, [], ◌∷◌, ◌++◌,
  panic, no_query_store, ◌⊎◌, inr, ◌≡◌, refl,
}
use go_res.Params.{Params}
use go_res.Events.{ℤ, type_collection, Payload, Effect, Resource}
use go_res.Events.Send.{is_model}
use go_res.Request.Reply.{Failure, Marshalled, bytes}
use go_res.Request.Execute.{call, finish, collection}
use go_res.Query.{QueryResponse, ResEvent, with_query, events_payload, handle_query_request}
use go_res.Store.Diff.Script.{insert_elem, delete_elem}
use go_res.Store.Transform.{
  Dynamic, string, strings, refs, ResultEvent, TransformError, collection_result,
}
use go_res.Store.Transform.Collection.{edit_with, edit_at}
use go_res.Store.QueryHandler.{
  QueryHandler, QueryChange, Sent, Found, returned, collection_transformer, get_resource, requested,
}
use go_res.Store.QueryHandler.Setup.{set_option}
use go_res.Store.QueryHandler.Callback.{query_callback}
use go_res.Store.QueryHandler.Callback.Shown.{follow_replies, query_callback-replies}
use go_res.Store.QueryHandler.Events.{resource_event}
use go_res.Store.QueryHandler.Events.InStep.{hear_all, resource_event-InStep}

abbrev book : Bytes → Bytes
book id = codes "book." ++ id

no_text : TransformError → Bytes
no_text e = []

-- A query is the first letter of the books; the query store has the books 1 and 2 for each.
abbrev books : QueryHandler Bytes (Unit {0})
books = record {
  pattern = codes "books";
  typ = type_collection;
  query = λ q. inr (strings (codes "1" ∷ codes "2" ∷ []));
  no_query = [];
  qrh = none;
  rh = none;
  trans = some (collection_transformer no_text book);
  ar = none;
}

abbrev by_letter : Bytes → Params → Bytes → Failure ⊎ (Bytes × Bytes)
by_letter rname params q = inr (q, q)

-- "1" leaves the result, and "3" comes in front of it.
abbrev changes : List (ResultEvent (Unit {0}))
changes =
    (record { name = codes "remove"; idx = ℤ.pos 0; value = string (codes "1"); changed = [] })
    ∷ (record { name = codes "add"; idx = ℤ.pos 0; value = string (codes "3"); changed = [] })
    ∷ []

abbrev changed : QueryChange Bytes (Unit {0})
changed q = inr (changes, false)

abbrev books_resource : Resource (Dynamic (Unit {0})) (Unit {0}) Bytes
books_resource = record {
  rname = codes "books";
  rtype = type_collection;
  apply_change = none;
  apply_add = none;
  apply_remove = none;
  apply_create = none;
  apply_delete = none;
  listeners = codes "listener" ∷ [];
}

abbrev the_books : Bytes → Option (Found (Unit {0}) (Unit {0}) Bytes)
the_books rid = if str_eq rid (codes "books") then some (books_resource, []) else none

abbrev nothing_sent : Sent (Unit {0}) (Unit {0}) Bytes
nothing_sent = record { world = record { stored = tt; effects = [] }; resets = []; errors = [] }

encodes_all : Payload (Dynamic (Unit {0})) → Bool
encodes_all p = true

resource_event-InStep_example :
    (es : List (Effect (Dynamic (Unit {0})) Bytes)) × (before : List Bytes) × (after : List Bytes)
    × (resource_event books encodes_all the_books (codes "books") changed nothing_sent
        ≡ returned none
            (record nothing_sent { world = record { stored = tt; effects = [] ++ es } }))
    × (collection_result {V = Unit {0}} book (strings (codes "1" ∷ codes "2" ∷ []))
        ≡ inr (refs before))
    × (collection_result {V = Unit {0}} book (strings (codes "3" ∷ codes "2" ∷ []))
        ≡ inr (refs after))
    × (hear_all (codes "books") es before ≡ some after)
unfolding str_eq requested edit_with edit_at insert_elem delete_elem is_model encodes_all
resource_event-InStep_example =
    resource_event-InStep books encodes_all (λ p. refl) books_resource refl refl refl book no_text
      refl the_books (codes "books") [] [] changed changes (codes "1" ∷ codes "2" ∷ [])
      (codes "3" ∷ codes "2" ∷ []) nothing_sent refl refl refl refl

no_bytes : QueryResponse (Dynamic (Unit {0})) → Marshalled
no_bytes r = bytes (codes "{}")

query_callback-replies_example :
    (shown_events : List (ResEvent (Dynamic (Unit {0})))) × (before : List Bytes) × (after : List
      Bytes)
    × ((handle_query_request no_bytes type_collection
          (query_callback books by_letter changed (codes "books") [] (codes "b"))
          (with_query (codes "letter=b"))).replies
        ≡ events_payload no_bytes shown_events ∷ [])
    × (collection_result {V = Unit {0}} book (strings (codes "1" ∷ codes "2" ∷ []))
        ≡ inr (refs before))
    × (collection_result {V = Unit {0}} book (strings (codes "3" ∷ codes "2" ∷ []))
        ≡ inr (refs after))
    × (follow_replies shown_events before ≡ some after)
unfolding str_eq edit_with edit_at insert_elem delete_elem is_model
query_callback-replies_example =
    query_callback-replies books type_collection refl book no_text refl no_bytes by_letter changed
      (codes "books") [] (codes "letter=b") (codes "b") (codes "b") (codes "b") changes
      (codes "1" ∷ codes "2" ∷ []) (codes "3" ∷ codes "2" ∷ []) refl refl refl refl

books_answered :
    get_resource books (codes "books") []
    ≡ call (collection (refs (codes "book.1" ∷ codes "book.2" ∷ [])) []) finish
unfolding get_resource collection_transformer
books_answered = refl

store_missing : set_option false books ≡ panic no_query_store
unfolding set_option
store_missing = refl
