-- ===== src/Dispatch/Tests.antt =====
-- Runs of the parser of subjects, and the theorem about it.
use go_res.Base.{ℕ, length, codes, str_eq, false, Bytes, List, ◌∷◌, none, some, [], ◌≡◌, refl}
use go_res.Mux.Tree.{Node, node, end, nil, entry}
use go_res.Mux.Lookup.{RegHandler}
use go_res.Worker.{started, State}
use go_res.Request.Reply.{Response, Marshalled, bytes}
use go_res.Request.Execute.{Handlers}
use go_res.Request.Execute.Answered.{is_checked}
use go_res.Dispatch.Process.{no_data, process_request, process_request-replies}
use go_res.Pattern.Match.{matches}
use go_res.Dispatch.Subscribe.{kept, overlaps}
use go_res.Dispatch.{Subject, Job, Task, Matched, parse_subject, has_method}
use go_res.Dispatch.Parse.{print_subject, is_proper, parse_subject-print_subject}

abbrev set_request : Subject
set_request = record { rtype = codes "call"; rname = codes "library.book.1"; method = codes "set" }

parse_set : parse_subject (codes "call.library.book.1.set") ≡ some set_request
unfolding parse_subject has_method str_eq
parse_set = refl

call_without_method : parse_subject (codes "call.library") ≡ none
unfolding parse_subject has_method str_eq
call_without_method = refl

parse_subject-print_subject_example : parse_subject (print_subject set_request) ≡ some set_request
unfolding is_proper has_method str_eq
parse_subject-print_subject_example = parse_subject-print_subject set_request refl

abbrev owned_twice : List Bytes
owned_twice = codes "get.book" ∷ codes "get.book" ∷ []

kept_once :
    kept (codes "get.book" ∷ codes "get.library.>" ∷ [])
    ≡ codes "get.book" ∷ codes "get.library.>" ∷ []
unfolding kept matches overlaps
kept_once = refl

-- The handler 7 at the pattern book, and no queue.
abbrev book_tree : Node (RegHandler ℕ) ℕ
book_tree =
    node none []
      (entry (codes "book")
        (node (some (record { handler = 7; group = none })) [] end nil nil false []) end)
      nil nil false []

abbrev idle : State (Task ℕ ℕ)
idle = record {
  heap = [];
  rwork = [];
  workqueue = some [];
  workers = [];
  phase = started;
  calls = [];
}

-- A resource with a query.
abbrev found_book : Matched ℕ ℕ
found_book = record {
  rname = codes "book";
  query = codes "q=1";
  handler = record { handler = 7; listeners = []; params = []; group = codes "book" };
}

marshal_nothing : Response Bytes → Marshalled
marshal_nothing r = bytes []

abbrev unknown_book : Job (Handlers Bytes) ℕ
unknown_book = record { subject = set_request; handler = none }

process_request-replies_example :
    length (process_request marshal_nothing unknown_book no_data).replies ≡ 1
unfolding is_checked str_eq
process_request-replies_example = process_request-replies marshal_nothing unknown_book no_data refl
