-- ===== src/Mux/Built/Tests.antt =====
-- A run of mux.go: a Mux is mounted at api, and a handler is then registered behind it.
use Prim.Native.Nat.{ℕ, ◌≤◌}
use go_res.Base.{
  codes, str_eq, length, Bytes, true, false, some, none, List, [], ◌∷◌, ◌≡◌, refl, ok,
}
use go_res.Params.{Params}
use go_res.Parts.{split_pattern, merge_pattern}
use go_res.Pattern.Valid.{is_valid, is_valid_path, index_wildcard}
use go_res.Mux.Tree.{
  Node, node, nil, to, end, entry, empty_node, child, set_child, params, set_mounted,
}
use go_res.Mux.Fetch.{add}
use go_res.Mux.Lookup.{RegHandler, match_node, fill_params}
use go_res.Mux.Mount.{Mux, new_mux, mount, add_handler}
use go_res.Mux.Built.{Built, made, handled, mounted_at, fill_params-Built}

abbrev blank : Mux (RegHandler ℕ) ℕ
blank = record {
  path = [];
  root = empty_node;
  has_parent = false;
  has_service = false;
  mountp = [];
}

abbrev placed : Mux (RegHandler ℕ) ℕ
placed = record {
  path = [];
  root = set_mounted empty_node;
  has_parent = true;
  has_service = false;
  mountp = codes "api";
}

abbrev with_mount : Mux (RegHandler ℕ) ℕ
with_mount = record blank {
  root = node none [] (entry (codes "api") (set_mounted empty_node) end) nil nil false [];
}

abbrev id_node : Node (RegHandler ℕ) ℕ
id_node =
    node (some (record { handler = 7; group = some [] }))
      (record { name = codes "id"; idx = 0 } ∷ []) end nil nil false []

abbrev with_handler : Mux (RegHandler ℕ) ℕ
with_handler = record blank {
  root =
      node none [] (entry (codes "api") (node none [] end (to id_node) nil true []) end) nil nil
        false [];
}

blank_made : new_mux [] ≡ ok blank
unfolding new_mux is_valid_path
blank_made = refl

blank_mounted : mount (codes "api") blank blank ≡ ok (with_mount, placed)
unfolding mount is_valid_path is_valid index_wildcard merge_pattern split_pattern child set_child
    str_eq
blank_mounted = refl

id_handled : add_handler (codes "api.$id") true [] 7 [] with_mount ≡ ok with_handler
unfolding add_handler add is_valid split_pattern child set_child str_eq
id_handled = refl

abbrev api_five : List Bytes
api_five = codes "api" ∷ codes "5" ∷ []

five_found : match_node with_handler.root api_five 0 0 ≡ some (id_node, 1)
unfolding match_node child str_eq
five_found = refl

handler_built : Built with_handler
handler_built =
    handled (codes "api.$id") true [] 7 [] with_mount with_handler
      (mounted_at (codes "api") blank blank with_mount placed (made [] blank blank_made)
        (made [] blank blank_made) blank_mounted)
      id_handled

fill_params-Built_example :
    ((ps : Params) × (fill_params (params id_node) api_five 1 [] ≡ ok ps)) × (1 ≤ length api_five)
fill_params-Built_example =
    fill_params-Built with_handler api_five id_node 1 handler_built five_found
