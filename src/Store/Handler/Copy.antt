-- ===== src/Store/Handler/Copy.antt =====
-- What a client does with the events of a resource that it has a copy of.
use mathlib.Core.Option
use mathlib.Core.Path.{subst}
use go_res.Base.{
  str_eq, if◌then◌else◌, Bytes, Bool-cases, Option, none, some, List, [], ◌∷◌, ◌++◌, follow,
  follow-eq-some, ◌≡◌, refl, sym, ap, eq_of_some, inl, inr,
}
use go_res.Params.{lookup}
use go_res.Store.Value.{Value, equal}
use go_res.Store.Value.Same.{equal_trans}
use go_res.Store.Diff.Script.{receive_all, Agree}
use go_res.Store.Diff.Copies.{Agree-trans, receive_all-Copied}
use go_res.Store.Model.{Change, delete_value, set_to}
use go_res.Store.Model.Changed.{AgreeAt, received}
use go_res.Store.Handler.{StoreEvent, create, delete, change, edits}
use go_res.Store.Handler.InStep.{Content, properties, elements, Follows}

-- A client's copy of a resource: of a model, the value of each property.
pub data Copy : Type 0 where
  of_model : (Bytes → Option Value) → Copy
  of_collection : List Value → Copy

-- Each value is the one of the content, or equal to it.
abbrev pub Agrees : Copy → Content → Type 0
Agrees (of_model m) (properties p) = (k : Bytes) → AgreeAt equal (m k) (lookup k p)
Agrees (of_collection xs) (elements ys) = Agree equal xs ys
Agrees _ _ = ⊥

-- `none` for an event that the copy cannot follow.
unfoldable pub follow_event : {V : Type 0} → StoreEvent V → Copy → Option Copy
follow_event (change ch) (of_model m) = some (of_model (λ k. received equal (lookup k ch) (m k)))
follow_event (edits es) (of_collection xs) = Option.map of_collection (receive_all es xs)
follow_event _ _ = none

unfoldable pub follow_events :
    {V : Type 0} → Bytes → List (Bytes × StoreEvent V) → Copy → Option Copy
unfolding follow_event
follow_events rid [] c = some c
follow_events rid ((to, e) ∷ es) c =
    if str_eq to rid
    then follow (follow_event e c) (follow_events rid es)
    else follow_events rid es c

AgreeAt-trans : (x y z : Option Value) → AgreeAt equal x y → AgreeAt equal y z → AgreeAt equal x z
AgreeAt-trans none none z h k = k
AgreeAt-trans none (some y) z h k = absurd h
AgreeAt-trans (some x) none z h k = absurd h
AgreeAt-trans (some x) (some y) none h k = absurd k
AgreeAt-trans (some x) (some y) (some z) (inl p) k =
    subst (λ t. AgreeAt equal (some t) (some z)) (sym p) k
AgreeAt-trans (some x) (some y) (some z) (inr p) (inl q) = inr (rw (← q) p)
AgreeAt-trans (some x) (some y) (some z) (inr p) (inr q) = inr (equal_trans z y x q p)

received-AgreeAt :
    (c : Option (Change Value)) (x y z : Option Value)
    → AgreeAt equal x y
    → AgreeAt equal (received equal c y) z
    → AgreeAt equal (received equal c x) z
received-AgreeAt none x y z h k = AgreeAt-trans x y z h k
received-AgreeAt (some delete_value) x y z h k = k
received-AgreeAt (some (set_to v)) x y z h k = k

abbrev pub Led : Option Copy → Content → Type 0
Led o after = (c : Copy) × (o ≡ some c) × Agrees c after

module _ {V : Type 0} where
  pub Follows-Led :
      (c : Copy) (before after : Content) (e : StoreEvent V)
      → Agrees c before
      → Follows before e after
      → Led (follow_event e c) after
  unfolding follow_event
  Follows-Led (of_model m) (properties b) (properties a) (change ch) h f = (
    of_model (λ k. received equal (lookup k ch) (m k)),
    refl,
    λ k. received-AgreeAt (lookup k ch) (m k) (lookup k b) (lookup k a) (h k) (f k),
  )
  Follows-Led (of_collection xs) (elements b) (elements a) (edits es) h (ys, run, agree) =
      let (zs, p, q) = receive_all-Copied equal es xs b ys h run in
      (of_collection zs, rw p refl, Agree-trans equal equal_trans zs ys a q agree)
  Follows-Led (of_model m) (elements b) after e h f = absurd h
  Follows-Led (of_collection xs) (properties b) after e h f = absurd h
  Follows-Led (of_model m) (properties b) (properties a) (create v) h f = absurd f
  Follows-Led (of_model m) (properties b) (properties a) delete h f = absurd f
  Follows-Led (of_model m) (properties b) (properties a) (edits es) h f = absurd f
  Follows-Led (of_model m) (properties b) (elements a) (create v) h f = absurd f
  Follows-Led (of_model m) (properties b) (elements a) delete h f = absurd f
  Follows-Led (of_model m) (properties b) (elements a) (change ch) h f = absurd f
  Follows-Led (of_model m) (properties b) (elements a) (edits es) h f = absurd f
  Follows-Led (of_collection xs) (elements b) (properties a) (create v) h f = absurd f
  Follows-Led (of_collection xs) (elements b) (properties a) delete h f = absurd f
  Follows-Led (of_collection xs) (elements b) (properties a) (change ch) h f = absurd f
  Follows-Led (of_collection xs) (elements b) (properties a) (edits es) h f = absurd f
  Follows-Led (of_collection xs) (elements b) (elements a) (create v) h f = absurd f
  Follows-Led (of_collection xs) (elements b) (elements a) delete h f = absurd f
  Follows-Led (of_collection xs) (elements b) (elements a) (change ch) h f = absurd f

  pub follow_events-append :
      (rid : Bytes) (es fs : List (Bytes × StoreEvent V)) (c c' : Copy)
      → follow_events rid es c ≡ some c'
      → follow_events rid (es ++ fs) c ≡ follow_events rid fs c'
  unfolding follow_events
  follow_events-append rid [] fs c c' h = ap (follow_events rid fs) (eq_of_some h)
  follow_events-append rid ((to, e) ∷ es) fs c c' h = elim (Bool-cases (str_eq to rid)) [
    | inl t ↦
        let g : follow (follow_event e c) (follow_events rid es) ≡ some c' = rw t at h in
        let (d, p, q) = follow-eq-some (follow_event e c) (follow_events rid es) g in
        rw (t, p) (follow_events-append rid es fs d c' q)
    | inr t ↦
        let g : follow_events rid es c ≡ some c' = rw t at h in
        rw t (follow_events-append rid es fs c c' g)
  ]
