-- ===== src/Mux/Mount.antt =====
-- The struct `Mux` of mux.go with NewMux, AddHandler and Mount. The service and the parent are kept
-- as whether they are set. The OnRegister callbacks, which change nothing of a tree, are left out.
-- A mounted Mux shares its root with the tree that it is mounted in: here the tree holds the root
-- that it had then.
pub mod Graft
pub mod Indexed
use go_res.Base.{if◌then◌else◌, Bytes, Bool, true, false, not, Option, none, some, List, [], ◌∷◌}
use go_res.Base.{
  Result, ok, panic, ◌>>=◌, ◌>>◌, require, invalid_path, mount_to_existing, mount_to_root,
  already_mounted, already_registered,
}
use go_res.Parts.{merge_pattern}
use go_res.Pattern.Valid.{is_nil, is_valid_path}
use go_res.Group.{Group, parse_group}
use go_res.Mux.Tree.{PathParam, Node, empty_node, set_mounted}
use go_res.Mux.Fetch.{Change, fetch, add}
use go_res.Mux.Lookup.{RegHandler}

pub record Mux (A L : Type 0) : Type 0 where
  pub path : Bytes
  pub root : Node A L
  pub has_parent : Bool
  pub has_service : Bool
  pub mountp : Bytes

-- The group of a handler: with the flag Parallel it is the empty one.
pub group_for : Bool → Bytes → Bytes → Result Group
group_for parallel group pattern = if parallel then ok (some []) else parse_group group pattern

-- `AddHandler`, with the fields Parallel, Group and Listeners of the handler.
unfoldable pub add_handler :
    {H L : Type 0}
    → Bytes
    → Bool
    → Bytes
    → H
    → List (Bytes × L)
    → Mux (RegHandler H) L
    → Result (Mux (RegHandler H) L)
unfolding group_for add
add_handler pattern parallel group h ls m = do
  g ← group_for parallel group pattern
  root' ← add pattern (record { handler = h; group = g }) ls m.root
  ok (record m { root = root' })

module _ {A L : Type 0} where
  unfoldable pub new_mux : Bytes → Result (Mux A L)
  new_mux path = do
    require (is_valid_path path) invalid_path
    ok (record {
      path = path;
      root = empty_node;
      has_parent = false;
      has_service = false;
      mountp = [];
    })

  -- `if n != sub.root`, and the flag of the mounted root.
  pub put_mounted : Bytes → Change A L
  put_mounted spath true ps n = ok (set_mounted n)
  put_mounted spath false ps n = panic (mount_to_existing spath)

  -- Mount: the parent and the mounted Mux behind the call. A Mux is not mounted in itself.
  unfoldable pub mount : Bytes → Mux A L → Mux A L → Result (Mux A L × Mux A L)
  unfolding fetch put_mounted
  mount path sub m = do
    require (is_valid_path path) invalid_path
    require (not sub.has_parent) already_mounted
    require (not sub.has_service) already_registered
    let spath = merge_pattern path sub.path
    require (not (is_nil spath)) mount_to_root
    root' ← fetch spath (some sub.root) (put_mounted spath) m.root
    ok (
      record m { root = root' },
      record {
        path = sub.path;
        root = set_mounted sub.root;
        has_parent = true;
        has_service = sub.has_service;
        mountp = path;
      },
    )
