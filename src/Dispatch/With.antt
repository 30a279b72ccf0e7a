-- ===== src/Dispatch/With.antt =====
-- A callback that is given to `With` runs in the group of the requests for its resource.
use go_res.Base.{codes, Bytes, []}
use go_res.Mux.Tree.{Node}
use go_res.Mux.Lookup.{RegHandler}
use go_res.Dispatch.{Subject}

module _ {H L : Type 0} (path : Bytes) (root : Node (RegHandler H) L) where
  abbrev get_of : Bytes → Subject
  get_of rname = record { rtype = codes "get"; rname = rname; method = [] }
