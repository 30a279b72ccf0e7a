-- ===== src/Mux/Built.antt =====
-- The Muxes that calls of NewMux, AddHandler, AddListener and Mount of mux.go make, and a lookup in
-- one of them.
mod Tests
use mathlib.Core.Path.{subst}
use go_res.Base.{ℕ, ◌≤◌, length, Bytes, Bool, true, some, List, [], ◌≡◌, refl, ap, sym, ◌∙◌}
use go_res.Base.{ok, >>=-eq-ok, ok_injective, require, require-ok, invalid_path}
use go_res.Params.{Params}
use go_res.Pattern.Valid.{is_valid_path}
use go_res.Group.{Group}
use go_res.Mux.Tree.{Node, empty_node, params}
use go_res.Mux.Tree.Indexed.{Indexed, empty-Indexed}
use go_res.Mux.Fetch.{add, add_listener}
use go_res.Mux.Fetch.Registered.{add-Indexed, add_listener-Indexed}
use go_res.Mux.Lookup.{RegHandler, match_node, fill_params}
use go_res.Mux.Lookup.Filled.{match_node-Bounded}
use go_res.Mux.Mount.{Mux, group_for, new_mux, add_handler, mount}
use go_res.Mux.Mount.Indexed.{IsBounded, mount-IsBounded}

module _ {H L : Type 0} where
  -- A Mux that a sequence of calls makes, none of which panics.
  pub data Built : Mux (RegHandler H) L → Type 0 where
    made : (path : Bytes) (m : Mux (RegHandler H) L) → new_mux path ≡ ok m → Built m
    handled :
        (pattern : Bytes) (parallel : Bool) (group : Bytes) (h : H) (ls : List (Bytes × L))
        (m m' : Mux (RegHandler H) L)
        → Built m
        → add_handler pattern parallel group h ls m ≡ ok m'
        → Built m'
    listened :
        (pattern : Bytes) (x : L) (m : Mux (RegHandler H) L) (root' : Node (RegHandler H) L)
        → Built m
        → add_listener pattern x m.root ≡ ok root'
        → Built (record m { root = root' })
    mounted_at :
        (path : Bytes) (sub m m' sub' : Mux (RegHandler H) L)
        → Built sub
        → Built m
        → mount path sub m ≡ ok (m', sub')
        → Built m'
    mounted_in :
        (path : Bytes) (sub m m' sub' : Mux (RegHandler H) L)
        → Built sub
        → Built m
        → mount path sub m ≡ ok (m', sub')
        → Built sub'

  new_mux-IsBounded : (path : Bytes) (m : Mux (RegHandler H) L) → new_mux path ≡ ok m → IsBounded m
  unfolding new_mux
  new_mux-IsBounded path m h =
      let (u, e, f) = >>=-eq-ok (require (is_valid_path path) invalid_path) _ h in
      subst IsBounded (ok_injective f)
        (require-ok (is_valid_path path) invalid_path u e, empty-Indexed true 0 0)

  add_handler-IsBounded :
      (pattern : Bytes) (parallel : Bool) (group : Bytes) (h : H) (ls : List (Bytes × L))
      (m m' : Mux (RegHandler H) L)
      → IsBounded m
      → add_handler pattern parallel group h ls m ≡ ok m'
      → IsBounded m'
  unfolding add_handler
  add_handler-IsBounded pattern parallel group h ls m m' (v, x) e =
      let (g, _, e2) = >>=-eq-ok (group_for parallel group pattern) _ e in
      let hs : RegHandler H = record { handler = h; group = g } in
      let (root', e3, e4) = >>=-eq-ok (add pattern hs ls m.root) _ e2 in
      subst IsBounded (ok_injective e4) (v, add-Indexed pattern hs ls m.root root' x e3)

  Built-IsBounded : {m : Mux (RegHandler H) L} → Built m → IsBounded m
  Built-IsBounded (made path m h) = new_mux-IsBounded path m h
  Built-IsBounded (handled pattern parallel group h ls m m' b e) =
      add_handler-IsBounded pattern parallel group h ls m m' (Built-IsBounded b) e
  Built-IsBounded (listened pattern x m root' b e) =
      let (v, y) = Built-IsBounded b in (v, add_listener-Indexed pattern x m.root root' y e)
  Built-IsBounded (mounted_at path sub m m' sub' s b e) =
      (mount-IsBounded path sub m m' sub' (Built-IsBounded s) (Built-IsBounded b) e).0
  Built-IsBounded (mounted_in path sub m m' sub' s b e) =
      (mount-IsBounded path sub m m' sub' (Built-IsBounded s) (Built-IsBounded b) e).1

  -- For a Mux that calls of NewMux, AddHandler, AddListener and Mount make, none of which panics:
  -- where `matchNode` finds a node, the parameters are read from the tokens without an index out of
  -- range, and the mount index, from which the tokens are sliced, is at most their number.
  pub fill_params-Built :
      (m : Mux (RegHandler H) L) (toks : List Bytes) (n : Node (RegHandler H) L) (k : ℕ)
      → Built m
      → match_node m.root toks 0 0 ≡ some (n, k)
      → ((ps : Params) × (fill_params (params n) toks k [] ≡ ok ps)) × (k ≤ length toks)
  fill_params-Built m toks n k b h = match_node-Bounded m.root n toks k (Built-IsBounded b).1 h
