-- ===== src/Mux/Fetch.antt =====
-- `fetch`, `setAndValidateParams`, `AddListener`, `add`, `AddHandler` and `Mount` of mux.go. A node
-- that the source changes through its pointer is changed by a function that `fetch` is given and
-- applies to the node it finds. What a panic leaves of the tree is not modelled.
pub mod Steps
pub mod Insert
pub mod Wildcard
pub mod Indexed
pub mod Registered
use go_res.Base.{
  ℕ, ◌+◌, ◌-◌, if◌then◌else◌, ◌==◌, str_eq, any, length, Bytes, Bool, true, false, not, ◌&&◌, ◌||◌,
  Option, none, some, List, [], ◌∷◌, ◌++◌,
}
use go_res.Base.{
  Result, ok, panic, ◌>>=◌, ◌>>◌, require, invalid_pattern, invalid_path, placeholder_repeated,
  mount_on_full_wildcard, mount_to_existing, mount_to_root, already_mounted, already_registered,
  registration_already_done, param_count_mismatch, param_tokens_mismatch,
}
use go_res.Parts.{split_pattern, merge_pattern}
use go_res.Pattern.Valid.{is_nil, is_valid, is_valid_path, pmark, pwild, fwild}
use go_res.Group.{Group, parse_group}
use go_res.Mux.Tree.{
  PathParam, Node, Slot, literal, param, wild, empty_node, hs, params, mounted, listeners, set_hs,
  set_params, set_mounted, set_listeners, child, set_child,
}

-- Which field the token leads through; `last` is `i == len(tokens)-1`.
token_slot : Bytes → Bool → Result Slot
token_slot [] last = panic invalid_pattern
token_slot (c ∷ name) last =
    if c == pmark || c == pwild
    then (if is_nil name then panic invalid_pattern else ok param)
    else if c == fwild
    then (if not (is_nil name) || not last then panic invalid_pattern else ok wild)
    else ok (literal (c ∷ name))

-- The path parameters with that of the token, if it is a tag.
pub token_params : Bytes → ℕ → List PathParam → Result (List PathParam)
token_params [] idx ps = ok ps
token_params (c ∷ name) idx ps =
    if c == pmark
    then (if any (λ p. str_eq p.name name) ps
        then panic (placeholder_repeated (c ∷ name))
        else ok (ps ++ record { name = name; idx = idx } ∷ []))
    else ok ps

-- What the caller does with the node: whether it is the mounted one, and the path parameters.
abbrev pub Change : Type 0 → Type 0 → Type 0
Change A L = Bool → List PathParam → Node A L → Result (Node A L)

same_params : List PathParam → List PathParam → Bool
same_params [] _ = true
same_params (p ∷ ps) [] = false
same_params (p ∷ ps) (q ∷ qs) = (str_eq p.name q.name && p.idx == q.idx) && same_params ps qs

module _ {A L : Type 0} where
  -- The node in the slot. A missing one is the node to mount, at the last token, or a new one; the
  -- flag tells that it is the node to mount.
  unfoldable pub next_node :
      Option (Node A L) → Bool → Slot → Option (Node A L) → Result (Bool × Node A L)
  next_node mount last s (some n) = ok (false, n)
  next_node none last s none = ok (false, empty_node)
  next_node (some sub) false s none = ok (false, empty_node)
  next_node (some sub) true wild none = panic (mount_on_full_wildcard [])
  next_node (some sub) true (literal t) none = ok (true, sub)
  next_node (some sub) true param none = ok (true, sub)

  pub fetch_from :
      Option (Node A L)
      → Change A L
      → Bool
      → ℕ
      → ℕ
      → List PathParam
      → List Bytes
      → Node A L
      → Result (Node A L)
  fetch_from mount change same i mount_idx ps [] l = change same ps l
  fetch_from mount change same i mount_idx ps (t ∷ tokens) l = do
    let idx = if mounted l then i else mount_idx
    s ← token_slot t (is_nil tokens)
    ps' ← token_params t (i - idx) ps
    next ← next_node mount (is_nil tokens) s (child s l)
    n ← fetch_from mount change next.0 (i + 1) idx ps' tokens next.1
    ok (set_child s n l)

  unfoldable pub fetch : Bytes → Option (Node A L) → Change A L → Node A L → Result (Node A L)
  unfolding fetch_from token_slot token_params next_node
  fetch pattern mount change root =
      fetch_from mount change false 0 0 [] (split_pattern pattern) root

  -- A nil slice of params is an empty one, as params are only made by appending.
  pub set_and_validate_params : List PathParam → Node A L → Result (Node A L)
  unfolding same_params
  set_and_validate_params ps n =
      if is_nil (params n)
      then ok (set_params ps n)
      else if not (length (params n) == length ps)
      then panic param_count_mismatch
      else if not (same_params ps (params n))
      then panic param_tokens_mismatch
      else ok n

  -- `AddListener`, with a listener that is not nil.
  listen : L → Change A L
  listen handler same ps n = do
    n' ← set_and_validate_params ps n
    ok (set_listeners (listeners n' ++ handler ∷ []) n')

  unfoldable pub add_listener : Bytes → L → Node A L → Result (Node A L)
  unfolding fetch listen set_and_validate_params
  add_listener pattern handler root = fetch pattern none (listen handler) root

  -- `for pattern, handler := range hs.Listeners`
  pub add_listeners : List (Bytes × L) → Node A L → Result (Node A L)
  add_listeners [] root = ok root
  add_listeners ((pattern, handler) ∷ more) root = do
    root' ← add_listener pattern handler root
    add_listeners more root'

  -- The rest of `add` behind `fetch`, where the node has the handler `n.hs`.
  register_if : Bytes → A → List PathParam → Node A L → Option A → Result (Node A L)
  register_if pattern handler ps n (some h) = panic (registration_already_done pattern)
  register_if pattern handler ps n none = do
    n' ← set_and_validate_params ps n
    ok (set_hs (some handler) n')

  register : Bytes → A → Change A L
  unfolding register_if
  register pattern handler same ps n = register_if pattern handler ps n (hs n)

  -- `add`, up to the OnRegister callback, which changes nothing of the tree.
  unfoldable pub add : Bytes → A → List (Bytes × L) → Node A L → Result (Node A L)
  unfolding fetch register set_and_validate_params add_listeners add_listener
  add pattern handler ls root = do
    require (is_valid pattern) invalid_pattern
    root' ← fetch pattern none (register pattern handler) root
    add_listeners ls root'
