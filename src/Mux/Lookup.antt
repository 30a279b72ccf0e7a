-- ===== src/Mux/Lookup.antt =====
-- `matchNode` and `GetHandler` of mux.go.
pub mod Best
pub mod Filled
use go_res.Base.{
  or_else, follow, ℕ, zero, suc, ◌+◌, if◌then◌else◌, ◌==◌, ltb, str_eq, get_elem?, drop, take,
  length, Bytes, Bool, true, false, not, ◌&&◌, ◌||◌, Option, none, some, List, [], ◌∷◌, ◌++◌,
}
use go_res.Base.{Result, ok, panic, ◌>>=◌, index_out_of_range}
use go_res.Params.{Params, insert}
use go_res.Parts.{split_pattern, btsep}
use go_res.Pattern.Valid.{is_nil}
use go_res.Group.{Group, to_string}
use go_res.Mux.Tree.{
  PathParam, Node, Slot, literal, param, wild, hs, params, mounted, listeners, child,
}

module _ {A L : Type 0} where
  -- The loop over `c` and the full wildcard behind it: `next` is what is done with the literal
  -- child and then with `l.param`, and `idx` is `mi`.
  attempts : (Node A L → Option (Node A L × ℕ)) → Bytes → ℕ → Node A L → Option (Node A L × ℕ)
  attempts next t idx l =
      or_else (follow (child (literal t) l) next)
        (or_else (follow (child param l) next) (follow (child wild l) (λ n. some (n, idx))))

  -- `if n.hs != nil`
  accept : ℕ → Node A L → Option (Node A L × ℕ)
  accept idx n = follow (hs n) (λ h. some (n, idx))

  -- What `nm.n` and `nm.mountIdx` are set to, if the result is true. The first round that returns
  -- true is the last one, so nothing that another round wrote is left in `nm`.
  unfoldable pub match_node : Node A L → List Bytes → ℕ → ℕ → Option (Node A L × ℕ)
  unfolding attempts accept
  match_node l [] i mi = none
  match_node l (t ∷ []) i mi =
      let idx = if mounted l then i else mi in attempts (accept idx) t idx l
  match_node l (t ∷ u ∷ toks) i mi =
      let idx = if mounted l then i else mi in
      attempts (λ n. match_node n (u ∷ toks) (i + 1) idx) t idx l

-- `nm.params[pp.name] = toks[pp.idx+mi]`
pub fill_params : List PathParam → List Bytes → ℕ → Params → Result Params
unfolding insert
fill_params [] toks mi m = ok m
fill_params (pp ∷ ps) toks mi m = elim (get_elem? toks (pp.idx + mi)) [
  | none ↦ panic index_out_of_range
  | some t ↦ fill_params ps toks mi (insert pp.name t m)
]

-- `rname[pl] == '.'`
abbrev dot_at : Bytes → ℕ → Bool
dot_at rname pl = elim (get_elem? rname pl) [ none ↦ false | some c ↦ c == btsep ]

-- The struct `regHandler`.
pub record RegHandler (H : Type 0) : Type 0 where
  pub handler : H
  pub group : Group

pub record Match (H L : Type 0) : Type 0 where
  pub handler : H
  pub listeners : List L
  pub params : Params
  pub group : Bytes

-- `subrname`; `none` is `return nil`.
unfoldable pub strip_path : Bytes → Bytes → Option Bytes
strip_path path rname =
    let pl = length path in
    let rl = length rname in
    if not (ltb 0 pl)
    then some rname
    else if pl == rl
    then (if not (str_eq path rname) then none else some [])
    else if ltb rl pl || not (str_eq (take pl rname) path) || not (dot_at rname pl)
    then none
    else some (drop (pl + 1) rname)

module _ {H L : Type 0} where
  found : Bytes → List Bytes → Option (Node (RegHandler H) L × ℕ) → Result (Option (Match H L))
  found rname tokens none = ok none
  found rname tokens (some (n, mi)) = do
    ps ← fill_params (params n) tokens mi []
    elim (hs n) [
      | none ↦ ok none
      | some h ↦ do
        group ← to_string h.group rname (drop mi tokens)
        ok (
            some
              (record { handler = h.handler; listeners = listeners n; params = ps; group = group }))
    ]

  at_root : Bytes → Node (RegHandler H) L → Result (Option (Match H L))
  at_root rname root = elim (hs root) [
    | none ↦ ok none
    | some h ↦ do
      group ← to_string h.group rname []
      ok (
          some (record {
            handler = h.handler;
            listeners = listeners root;
            params = [];
            group = group;
          }))
  ]

  -- A nil match is `ok none`.
  unfoldable pub get_handler : Bytes → Node (RegHandler H) L → Bytes → Result (Option (Match H L))
  unfolding strip_path found at_root match_node attempts accept fill_params
  get_handler path root rname = elim (strip_path path rname) [
    | none ↦ ok none
    | some subrname ↦
        if is_nil subrname
        then at_root rname root
        else let tokens = split_pattern subrname in found rname tokens (match_node root tokens 0 0)
  ]
