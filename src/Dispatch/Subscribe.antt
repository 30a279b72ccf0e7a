-- ===== src/Dispatch/Subscribe.antt =====
-- service.go: `setDefaultOwnership`, `subscribe`, `reset`.
pub mod Twice
use go_res.Base.{
  ℕ, if◌then◌else◌, ◌==◌, str_eq, codes, Bytes, Bool, true, false, not, ◌&&◌, ◌||◌, Option, none,
  some, List, [], ◌∷◌, ◌++◌, any, map,
}
use go_res.Parts.{btsep, merge_pattern}
use go_res.Pattern.Valid.{is_nil, fwild}
use go_res.Pattern.Match.{matches}
use go_res.Mux.Tree.{Node}
use go_res.Mux.Contains.{contains}
use go_res.Mux.Lookup.{RegHandler}
use go_res.Request.Execute.{Handlers}

-- The fields `resetResources` and `resetAccess` of the service; nil is `none`.
pub record Ownership : Type 0 where
  pub reset_resources : Option (List Bytes)
  pub reset_access : Option (List Bytes)

is_some : {A : Type 0} → Option A → Bool
is_some none = false
is_some (some x) = true

-- The tests that are given to `Contains`.
owns_resources : {V : Type 0} → RegHandler (Handlers V) → Bool
unfolding is_some
owns_resources h =
    is_some h.handler.get
    || not (is_nil h.handler.call)
    || not (is_nil h.handler.auth)
    || is_some h.handler.new

owns_access : {V : Type 0} → RegHandler (Handlers V) → Bool
unfolding is_some
owns_access h = is_some h.handler.access

unfoldable pub default_patterns : Bytes → Bool → Option (List Bytes) → List Bytes
default_patterns path owns (some ps) = ps
default_patterns path owns none = if owns then path ∷ merge_pattern path (fwild ∷ []) ∷ [] else []

unfoldable pub set_default_ownership :
    {V L : Type 0} → Bytes → Node (RegHandler (Handlers V)) L → Ownership → Ownership
unfolding default_patterns owns_resources owns_access
set_default_ownership path root o = record {
  reset_resources = some (default_patterns path (contains owns_resources root) o.reset_resources);
  reset_access = some (default_patterns path (contains owns_access root) o.reset_access);
}

last_is : ℕ → Bytes → Bool
last_is c [] = false
last_is c (d ∷ []) = d == c
last_is c (d ∷ e ∷ s) = last_is c (e ∷ s)

-- The pattern for a type of request, and a pattern of `resetResources`.
request_pattern : Bytes → Bytes → Bytes
unfolding last_is
request_pattern t p =
    let pattern = t ++ btsep ∷ p in
    if not (last_is fwild pattern) && not (str_eq t (codes "get"))
    then pattern ++ codes ".*"
    else pattern

unfoldable pub request_patterns : List Bytes → List Bytes
unfolding request_pattern
request_patterns ps =
    map (request_pattern (codes "get")) ps
    ++ map (request_pattern (codes "call")) ps
    ++ map (request_pattern (codes "auth")) ps

is_true : Option Bool → Bool
is_true none = false
is_true (some b) = b

-- `Pattern(m).Matches(p)`; `matches` never is none.
unfoldable pub overlaps : Bytes → Bytes → Bool
unfolding is_true
overlaps m p = is_true (matches m p)

-- The patterns that no other one matches: `before` are those that the loop is past.
keep : List Bytes → List Bytes → List Bytes
keep before [] = []
keep before (p ∷ after) =
    let rest = keep (p ∷ before) after in
    if any (λ m. overlaps m p) before || any (λ m. overlaps m p) after then rest else p ∷ rest

unfoldable pub kept : List Bytes → List Bytes
unfolding keep overlaps
kept ps = keep [] ps

-- The subscriptions up to the first one that the connection refuses, and whether none was refused.
subscribe_all : (Bytes → Bool) → List Bytes → List Bytes × Bool
subscribe_all accepts [] = ([], true)
subscribe_all accepts (p ∷ ps) =
    let rest = subscribe_all accepts ps in if accepts p then (p ∷ rest.0, rest.1) else ([], false)

abbrev pub or_empty : Option (List Bytes) → List Bytes
or_empty none = []
or_empty (some ps) = ps

-- The patterns that are subscribed to, those for access first; `none` is the error that there is
-- nothing to serve.
unfoldable pub subscribe_owned : (Bytes → Bool) → Ownership → Option (List Bytes × Bool)
unfolding kept request_patterns subscribe_all
subscribe_owned accepts o =
    let resources = or_empty o.reset_resources in
    let access = or_empty o.reset_access in
    if is_nil resources && is_nil access
    then none
    else some (
        subscribe_all accepts
          (map (λ p. codes "access." ++ p) access ++ kept (request_patterns resources)))

-- The service's ownership behind `subscribe`, and what it returns.
unfoldable pub subscribe :
    {V L : Type 0}
    → (Bytes → Bool)
    → Bytes
    → Node (RegHandler (Handlers V)) L
    → Ownership
    → Ownership × Option (List Bytes × Bool)
unfolding set_default_ownership subscribe_owned
subscribe accepts path root o =
    let owned = set_default_ownership path root o in (owned, subscribe_owned accepts owned)
