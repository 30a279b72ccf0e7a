-- ===== src/Dispatch.antt =====
-- service.go: what requests the service owns, and how a message becomes a queued request.
pub mod Parse
pub mod Subscribe
pub mod With
pub mod Process
mod Tests
use go_res.Base.{
  ℕ, if◌then◌else◌, ◌==◌, str_eq, codes, Bytes, Bool, true, false, not, ◌&&◌, ◌||◌, Option, none,
  some, List, [], ◌∷◌, ◌++◌, Result, ok, panic, ◌>>=◌,
}
use go_res.Parts.{btsep, merge_pattern}
use go_res.Pattern.Valid.{is_nil}
use go_res.Mux.Tree.{Node}
use go_res.Mux.Contains.{contains}
use go_res.Mux.Lookup.{RegHandler, Match, get_handler}
use go_res.Rid.{parse_rid}
use go_res.Worker.{State, enqueue}

-- `subj[:idx]` and `subj[idx+1:]` at the first dot, and at the last one.
unfoldable pub split_first : Bytes → Option (Bytes × Bytes)
split_first [] = none
split_first (c ∷ s) =
    let rest = split_first s in
    if c == btsep then some ([], s) else elim rest [ none ↦ none | some (a, b) ↦ some (c ∷ a, b) ]

unfoldable pub split_last : Bytes → Option (Bytes × Bytes)
split_last [] = none
split_last (c ∷ s) = elim (split_last s) [
  | none ↦ if c == btsep then some ([], s) else none
  | some (a, b) ↦ some (c ∷ a, b)
]

-- What a subject says: `rtype`, `rname` and `method`.
pub record Subject : Type 0 where
  pub rtype : Bytes
  pub rname : Bytes
  pub method : Bytes

unfoldable pub has_method : Bytes → Bool
has_method rtype = str_eq rtype (codes "call") || str_eq rtype (codes "auth")

-- `none` is one of the two returns for an invalid subject.
with_method : Bytes → Option (Bytes × Bytes) → Option Subject
with_method rtype none = none
with_method rtype (some (rname, method)) =
    some (record { rtype = rtype; rname = rname; method = method })

with_type : Option (Bytes × Bytes) → Option Subject
unfolding split_last with_method
with_type none = none
with_type (some (rtype, rname)) =
    if has_method rtype
    then with_method rtype (split_last rname)
    else some (record { rtype = rtype; rname = rname; method = [] })

unfoldable pub parse_subject : Bytes → Option Subject
unfolding with_type split_first
parse_subject subj = with_type (split_first subj)

-- What `handleRequest` queues: the arguments of `processRequest`, without the message.
pub record Job (H L : Type 0) : Type 0 where
  pub subject : Subject
  pub handler : Option (Match H L)

-- A resource that is matched with its handler: the struct `resource` of `Resource`.
pub record Matched (H L : Type 0) : Type 0 where
  pub rname : Bytes
  pub query : Bytes
  pub handler : Match H L

-- The functions that are queued: those of `handleRequest`, `With` and `WithGroup`. The number
-- stands for the callback.
pub data Task (H L : Type 0) : Type 0 where
  process : Job H L → Task H L
  call_with : Matched H L → ℕ → Task H L
  call_group : ℕ → Task H L

module _ {H L : Type 0} where
  abbrev pub group_of : Bytes → Option (Match H L) → Bytes
  group_of rname none = rname
  group_of rname (some m) = m.group

  -- `runWith`, which drops the request if the service is not started.
  run_with : Bool → Bytes → Task H L → State (Task H L) → State (Task H L)
  run_with started wid task s = if started then enqueue wid task s else s

  -- The subject of the reply, the subject of the request, and the state of the queues.
  unfoldable pub handle_request :
      Bool
      → Bytes
      → Node (RegHandler H) L
      → Bytes
      → Bytes
      → State (Task H L)
      → Result (State (Task H L))
  unfolding run_with parse_subject
  handle_request started path root reply subj s =
      if is_nil reply then ok s else elim (parse_subject subj) [
        | none ↦ ok s
        | some p ↦ do
          mh ← get_handler path root p.rname
          ok (
              run_with started (group_of p.rname mh)
                (process (record { subject = p; handler = mh })) s)
      ]

  -- The method `Resource`; `ok none` is its error.
  unfoldable pub resource : Bytes → Node (RegHandler H) L → Bytes → Result (Option (Matched H L))
  resource path root rid = do
    let p = parse_rid rid
    mh ← get_handler path root p.0
    ok (elim mh [ none ↦ none | some m ↦ some (record { rname = p.0; query = p.1; handler = m }) ])

  run_matched : Bool → ℕ → State (Task H L) → Option (Matched H L) → Option (State (Task H L))
  unfolding run_with
  run_matched started cb s none = none
  run_matched started cb s (some r) = some (run_with started r.handler.group (call_with r cb) s)

  -- The method `With`; `ok none` is its error.
  unfoldable pub with_rid :
      Bool
      → Bytes
      → Node (RegHandler H) L
      → Bytes
      → ℕ
      → State (Task H L)
      → Result (Option (State (Task H L)))
  unfolding resource run_matched
  with_rid started path root rid cb s = do
    r ← resource path root rid
    ok (run_matched started cb s r)

  -- The method `WithGroup`.
  unfoldable pub with_group : Bool → Bytes → ℕ → State (Task H L) → State (Task H L)
  unfolding run_with
  with_group started group cb s = run_with started group (call_group cb) s
