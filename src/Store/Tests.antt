-- ===== src/Store/Tests.antt =====
-- Runs of the comparison of values, and the theorems about it.
use go_res.Store.Handler.{
  model, Transformer, StoreHandler, Codec, StoreEvent, sent, get_value, change_handler,
}
use go_res.Store.Handler.InStep.{properties, Follows, change_handler-Follows}
use go_res.Base.{
  Option, arith, not, ◌++◌, true, Bool, none, codes, str_eq, Bytes, some, List, [], ◌∷◌, ok, ◌≡◌,
  refl,
}
use go_res.Pattern.Valid.{is_nil}
use go_res.Store.Contract.{Write, create, update, delete}
use go_res.Store.Mock.{Contents}
use go_res.Store.Mock.Calls.Serves.{mock_contract}
use go_res.Store.Handler.Copy.{Copy, Agrees, Led, follow_events}
use go_res.Store.Handler.Replica.{write_all, write_all-Kept}
use go_res.Store.Handler.InStep.{Content, content, is_map}
use go_res.Params.{insert, lookup}
use go_res.Store.Value.{Value, primitive, equal}
use go_res.Store.Diff.{DiffEvent, remove_at, add_at, collection_diff}
use go_res.Store.Diff.Script.{receive_all, Agree}
use go_res.Store.Diff.Right.{collection_diff-receive_all}
use go_res.Store.Model.{delete_value, set_to, model_diff}

abbrev prim : Bytes → Value
prim raw = record { raw_message = raw; type = primitive; rid = []; inner = [] }

abbrev one : Value
one = prim (codes "1")

abbrev two : Value
two = prim (codes "2")

abbrev three : Value
three = prim (codes "3")

abbrev four : Value
four = prim (codes "4")

-- 1 2 3 becomes 1 4 3 2.
moved :
    collection_diff equal (one ∷ two ∷ three ∷ []) (one ∷ four ∷ three ∷ two ∷ [])
    ≡ ok (remove_at 1 ∷ add_at four 1 ∷ add_at two 3 ∷ [])
unfolding collection_diff equal str_eq
moved = refl

unchanged : collection_diff equal (one ∷ two ∷ []) (one ∷ two ∷ []) ≡ ok []
unfolding collection_diff equal str_eq
unchanged = refl

collection_diff-receive_all_example :
    (es : List (DiffEvent Value)) × (a' : List Value) × (collection_diff equal
        (one ∷ two ∷ three ∷ [])
        (one ∷ four ∷ three ∷ two ∷ [])
      ≡ ok es)
    × (receive_all es (one ∷ two ∷ three ∷ []) ≡ some a')
    × Agree equal a' (one ∷ four ∷ three ∷ two ∷ [])
collection_diff-receive_all_example =
    collection_diff-receive_all equal (one ∷ two ∷ three ∷ []) (one ∷ four ∷ three ∷ two ∷ [])

abbrev model_before : List (Bytes × Value)
model_before = (codes "a", one) ∷ (codes "b", two) ∷ []

abbrev model_after : List (Bytes × Value)
model_after = (codes "b", three) ∷ (codes "c", four) ∷ []

changes :
    model_diff equal model_before model_after
    ≡ (codes "a", delete_value) ∷ (codes "b", set_to three) ∷ (codes "c", set_to four) ∷ []
unfolding model_diff equal str_eq lookup insert
changes = refl

-- A store of models, where an entry's identifier is the resource's name, behind a default value.
abbrev maps : Codec (List (Bytes × Value))
maps = record { as_model = some; as_collection = λ m. none }

abbrev by_name : Transformer (List (Bytes × Value))
by_name = record { transform = λ id m. some m; id_to_rid = λ id m. id }

abbrev handler_by_name : StoreHandler (List (Bytes × Value))
handler_by_name = record { trans = some by_name; def = some model_before; type = model }

abbrev handler_without : StoreHandler (List (Bytes × Value))
handler_without = record { trans = none; def = some model_before; type = model }

every_resource : Bytes → Bool
every_resource rid = true

change_handler-Follows_example :
    (e : StoreEvent (List (Bytes × Value))) × (change_handler maps every_resource handler_by_name
        (codes "m")
        none
        (some model_after)
      ≡ ok (sent (codes "m") e))
    × Follows (properties model_before) e (properties model_after)
unfolding get_value every_resource str_eq
change_handler-Follows_example =
    change_handler-Follows maps every_resource handler_by_name by_name (codes "m") none
      (some model_after) model_before model_after (properties model_before) (properties model_after)
      refl refl refl refl refl refl refl refl

-- Without a transformer the default value is answered, and not compared with.
default_answered : get_value handler_without (codes "m") none ≡ some model_before
unfolding get_value
default_answered = refl

default_ignored :
    change_handler maps every_resource handler_without (codes "m") none (some model_after)
    ≡ ok (sent (codes "m") (StoreEvent.create model_after))
unfolding change_handler every_resource
default_ignored = refl

-- A store of strings, each the one property of a model, behind a default value.
abbrev named_model : Codec Bytes
named_model = record {
  as_model = λ b. some ((codes "name", prim b) ∷ []);
  as_collection = λ b. none;
}

abbrev by_prefix : Transformer Bytes
by_prefix = record { transform = λ id b. some b; id_to_rid = λ id b. codes "m." ++ id }

abbrev handler_by_prefix : StoreHandler Bytes
handler_by_prefix = record { trans = some by_prefix; def = some (codes "none"); type = model }

abbrev shown_name : Bytes → Option Bytes → Content
shown_name id none = properties ((codes "name", prim (codes "none")) ∷ [])
shown_name id (some b) = properties ((codes "name", prim b) ∷ [])

abbrev some_writes : List (Bytes × Write Bytes)
some_writes =
    (codes "1", create (codes "a"))
    ∷ (codes "2", create (codes "b"))
    ∷ (codes "1", update (codes "c"))
    ∷ (codes "1", create (codes "d"))
    ∷ (codes "2", delete)
    ∷ []

abbrev no_contents : Contents (Unit {0}) Bytes
no_contents = record { resources = none; outer = tt }

name_answered :
    (id : Bytes) (v : Option Bytes)
    → (a : Bytes) × (get_value handler_by_prefix id v ≡ some a)
      × (content named_model every_resource model a ≡ some (shown_name id v))
      × (is_map (shown_name id v) ≡ true)
      × (codes "m." ++ id ≡ codes "m." ++ id)
unfolding get_value str_eq
name_answered id none = (codes "none", refl, refl, refl, refl)
name_answered id (some b) = (b, refl, refl, refl, refl)

write_all-Kept_example :
    (s' : Contents (Unit {0}) Bytes) × (es : List (Bytes × StoreEvent Bytes)) × (write_all
        named_model every_resource handler_by_prefix mock_contract some_writes no_contents
      ≡ ok (s', es))
    × ((id : Bytes) (c : Copy)
        → not (is_nil id) ≡ true
        → Agrees c (shown_name id (mock_contract.value_at no_contents id))
        → Led
            (follow_events (codes "m." ++ id) es c)
            (shown_name id (mock_contract.value_at s' id)))
unfolding get_value every_resource str_eq
write_all-Kept_example =
    write_all-Kept named_model every_resource handler_by_prefix mock_contract by_prefix refl
      (λ id. not (is_nil id)) (λ id. codes "m." ++ id) shown_name (λ id v h. name_answered id v)
      (λ id h. (ground arith, refl, refl)) (λ i j h k r. r) some_writes no_contents refl
