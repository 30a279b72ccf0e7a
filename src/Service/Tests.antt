-- ===== src/Service/Tests.antt =====
-- Runs of the life of the service, and the theorems about it.
use go_res.Base.{List, Bytes, Bool, true, false, codes, str_eq, all, none, some, [], ◌∷◌, ◌≡◌, refl}
use go_res.Rid.{is_valid_part, is_bad_part_char}
use go_res.Service.System.All.{reset_all-subscribe}
use go_res.Pattern.Match.{matches}
use go_res.Mux.Tree.{Node, empty_node}
use go_res.Mux.Lookup.{RegHandler}
use go_res.Request.Execute.{Handlers}
use go_res.Dispatch.Subscribe.{
  Ownership, subscribe, set_default_ownership, default_patterns, subscribe_owned, request_patterns,
  kept, overlaps,
}
use go_res.Service.System.{
  returned, reset_event, reset_all, SystemEvent, Called, SystemCall, is_started, call_system,
}
use go_res.Service.System.Subjects.{published, is_clean, call_system-clean}
use go_res.Service.Life.{
  starting, started, preparing, Life, begin_serve, begin_shutdown, serve, Reach, here, next,
}
use go_res.Service.Life.Starting.{new_life, count_preparing, Reach-starting}
use go_res.Service.Life.Stuck.{Reach-stuck}

-- A service that is being prepared, and one whose preparation failed.
abbrev being_prepared : Life
being_prepared = record { stage = starting; servers = preparing ∷ [] }

abbrev start_failed : Life
start_failed = record { stage = starting; servers = [] }

prepared_reached : Reach new_life being_prepared
unfolding begin_serve
prepared_reached = next here (serve new_life starting refl)

Reach-starting_example : (being_prepared.stage ≡ starting) × (count_preparing [] ≡ 0)
Reach-starting_example = Reach-starting being_prepared [] [] prepared_reached refl

Reach-stuck_example :
    (begin_serve start_failed.stage ≡ none) × (begin_shutdown start_failed.stage ≡ none)
Reach-stuck_example = Reach-stuck being_prepared start_failed [] [] prepared_reached refl here

always : SystemEvent Bytes → Bool
always ev = true

-- A connection identifier with a wildcard does not pass.
token_refused :
    call_system always started (SystemCall.token (codes "a.>") none)
    ≡ Called.panicked (codes "res: invalid connection ID")
unfolding call_system is_valid_part is_bad_part_char str_eq
token_refused = refl

call_system-clean_example :
    (is_started started ≡ false
      → published (call_system always started (SystemCall.token (codes "c1") none)) ≡ [])
    × (all is_clean (published (call_system always started (SystemCall.token (codes "c1") none)))
        ≡ true)
call_system-clean_example = call_system-clean always started (SystemCall.token (codes "c1") none)

-- A service that owns the resource book.
abbrev given : Ownership
given = record { reset_resources = some (codes "book" ∷ []); reset_access = some [] }

abbrev any_node : Node (RegHandler (Handlers Bytes)) Bytes
any_node = empty_node

abbrev subscriptions : List Bytes
subscriptions = codes "get.book" ∷ codes "call.book.*" ∷ codes "auth.book.*" ∷ []

accept_all : Bytes → Bool
accept_all p = true

subscribed : subscribe accept_all [] any_node given ≡ (given, some (subscriptions, true))
unfolding subscribe set_default_ownership default_patterns subscribe_owned request_patterns kept
    overlaps matches str_eq accept_all
subscribed = refl

reset_all-subscribe_example :
    reset_all always started [] any_node given
    ≡ (given, returned ((codes "system.reset", reset_event (codes "book" ∷ []) []) ∷ []))
unfolding always
reset_all-subscribe_example =
    reset_all-subscribe always accept_all [] any_node given given (subscriptions, true) subscribed
      refl
