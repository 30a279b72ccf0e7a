-- ===== src/Mux/Tests.antt =====
-- Runs of mux.go, and the theorems about it at a small tree.
use Prim.Native.Nat.{ℕ}
use go_res.Base.{
  ◌==◌, false, str_eq, codes, Bytes, true, if◌then◌else◌, any, some, none, List, [], ◌∷◌, ◌≡◌, ◌≢◌,
  refl, ok, panic, registration_already_done, index_out_of_range,
}
use go_res.Parts.{split_pattern, merge_pattern}
use go_res.Group.{parse_group, to_string}
use go_res.Mux.Mount.{Mux, mount, add_handler}
use go_res.Mux.Mount.Graft.{mount-handler_at, grafted}
use go_res.Pattern.Valid.{is_valid, is_valid_path, index_wildcard}
use go_res.Mux.Tree.{
  child, set_child, PathParam, Node, node, nil, to, end, entry, Slot, literal, empty_node,
  handler_at, path_eq, set_mounted,
}
use go_res.Mux.Fetch.{add}
use go_res.Mux.Fetch.Steps.{slots}
use go_res.Mux.Fetch.Insert.{add-handler_at}
use go_res.Mux.Fetch.Wildcard.{is_star, add-star}
use go_res.Mux.Lookup.{match_node, RegHandler, get_handler, strip_path}
use go_res.Mux.Lookup.Best.{Leads, AtLeastAs, match_node-Best}
use go_res.Mux.Contains.{is_followed, contains, contains-handler_at}
use go_res.Mux.Routing.{fits, add-match_node}

abbrev id_param : List PathParam
id_param = record { name = codes "id"; idx = 1 } ∷ []

abbrev user_node : Node ℕ ℕ
user_node = node (some 7) id_param end nil nil false []

-- The tree with the handler 7 for user.$id.
abbrev user_tree : Node ℕ ℕ
user_tree =
    node none [] (entry (codes "user") (node none [] end (to user_node) nil false []) end) nil nil
      false []

add_user : add (codes "user.$id") 7 [] (empty_node {A = ℕ} {L = ℕ}) ≡ ok user_tree
unfolding add split_pattern is_valid str_eq child set_child
add_user = refl

add_twice :
    add (codes "user.$key") 8 [] user_tree ≡ panic (registration_already_done (codes "user.$key"))
unfolding add split_pattern is_valid str_eq child set_child
add_twice = refl

abbrev tokens : List Bytes
tokens = codes "user" ∷ codes "42" ∷ []

find_user : match_node user_tree tokens 0 0 ≡ some (user_node, 0)
unfolding match_node child str_eq
find_user = refl

find_none : match_node user_tree (codes "users" ∷ []) 0 0 ≡ none
unfolding match_node child str_eq
find_none = refl

match_node-Best_example :
    (q : List Slot) × Leads user_tree 0 0 tokens q user_node 0
    × ((p : List Slot) (m : Node ℕ ℕ) (j : ℕ) → Leads user_tree 0 0 tokens p m j → AtLeastAs q p)
match_node-Best_example = match_node-Best user_tree user_node tokens 0 0 0 find_user

abbrev no_path : List Slot
no_path = literal (codes "users") ∷ []

add-handler_at_example :
    (is_valid (codes "user.$id") ≡ true)
    × (handler_at (empty_node {A = ℕ} {L = ℕ}) (slots (split_pattern (codes "user.$id"))) ≡ none)
    × ((p : List Slot)
        → handler_at user_tree p ≡ (
            if path_eq (slots (split_pattern (codes "user.$id"))) p
            then some 7
            else handler_at (empty_node {A = ℕ} {L = ℕ}) p))
add-handler_at_example = add-handler_at (codes "user.$id") 7 [] empty_node user_tree add_user

user_fits : fits (slots (split_pattern (codes "user.$id"))) tokens ≡ true
unfolding split_pattern str_eq
user_fits = refl

add-match_node_example :
    (n : Node ℕ ℕ) × (k : ℕ) × (p : List Slot) × (match_node user_tree tokens 0 0 ≡ some (n, k))
    × Leads user_tree 0 0 tokens p n k
    × AtLeastAs p (slots (split_pattern (codes "user.$id")))
add-match_node_example =
    add-match_node (codes "user.$id") 7 [] empty_node user_tree (codes "user") (codes "42" ∷ [])
      add_user user_fits

star_in_pattern : any is_star (split_pattern (codes "user.*")) ≡ true
unfolding split_pattern str_eq
star_in_pattern = refl

-- The pattern user.* is valid, and the documentation of `Handle` gives it as an example.
star_is_valid : is_valid (codes "user.*") ≡ true
unfolding is_valid
star_is_valid = refl

add-star_example : add (codes "user.*") 7 [] (empty_node {A = ℕ} {L = ℕ}) ≢ ok user_tree
add-star_example = add-star (codes "user.*") 7 [] empty_node user_tree star_in_pattern

contains-handler_at_example : contains (λ h. h == 7) user_tree ≡ true
unfolding is_followed handler_at child str_eq
contains-handler_at_example =
    contains-handler_at (λ h. h == 7) 7 refl (literal (codes "user") ∷ Slot.param ∷ []) user_tree
      refl refl

abbrev root_only : Node ℕ ℕ
root_only = node (some 7) [] end nil nil false []

abbrev no_handlers : Mux ℕ ℕ
no_handlers = record {
  path = [];
  root = empty_node;
  has_parent = false;
  has_service = false;
  mountp = [];
}

abbrev users : Mux ℕ ℕ
users = record { path = []; root = user_tree; has_parent = false; has_service = false; mountp = [] }

abbrev users_mounted : Mux ℕ ℕ
users_mounted = record {
  path = [];
  root = set_mounted user_tree;
  has_parent = true;
  has_service = false;
  mountp = codes "api";
}

abbrev with_users : Mux ℕ ℕ
with_users = record no_handlers {
  root = node none [] (entry (codes "api") (set_mounted user_tree) end) nil nil false [];
}

api_users : mount (codes "api") users no_handlers ≡ ok (with_users, users_mounted)
unfolding mount is_valid_path is_valid index_wildcard merge_pattern split_pattern child set_child
    str_eq
api_users = refl

mount-handler_at_example :
    ((p : List Slot) → handler_at no_handlers.root (literal (codes "api") ∷ p) ≡ none)
    × ((p : List Slot)
        → handler_at with_users.root p
          ≡ grafted (literal (codes "api") ∷ []) user_tree no_handlers.root p)
unfolding merge_pattern split_pattern
mount-handler_at_example =
    mount-handler_at (codes "api") users no_handlers with_users users_mounted api_users

-- A handler that is registered in the parent behind a mounted path, with a group of its tag: the
-- index in the group counts from the parent's root, and the tokens from the mounted one.
abbrev mounted_empty : Mux (RegHandler ℕ) ℕ
mounted_empty = record {
  path = [];
  root = node none [] (entry (codes "api") (node none [] end nil nil true []) end) nil nil false [];
  has_parent = false;
  has_service = false;
  mountp = [];
}

abbrev through_mount : Node (RegHandler ℕ) ℕ
through_mount =
    node none []
      (entry (codes "api")
        (node none [] end
          (to (
            node (some (record { handler = 7; group = some (record { str = []; idx = 1 } ∷ []) }))
              (record { name = codes "id"; idx = 0 } ∷ []) end nil nil false []))
          nil true [])
        end)
      nil nil false []

add_through_mount :
    add_handler (codes "api.$id") false (codes "${id}") 7 [] mounted_empty
    ≡ ok (record mounted_empty { root = through_mount })
unfolding add_handler add is_valid split_pattern child set_child str_eq parse_group
add_through_mount = refl

group_behind_mount : get_handler [] through_mount (codes "api.5") ≡ panic index_out_of_range
unfolding get_handler match_node strip_path split_pattern child str_eq to_string
group_behind_mount = refl
