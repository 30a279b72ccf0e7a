-- ===== src/Service/System/All.antt =====
-- What ResetAll sends behind `subscribe`, as in `serve`.
use go_res.Base.{
  none-ne-some, Bool-cases, inl, inr, codes, Bytes, Bool, true, ◌&&◌, Option, some, List, [], ◌∷◌,
  ◌≡◌, refl, ap, ◌∙◌,
}
use go_res.Pattern.Valid.{is_nil}
use go_res.Mux.Tree.{Node}
use go_res.Mux.Lookup.{RegHandler}
use go_res.Request.Execute.{Handlers}
use go_res.Dispatch.Subscribe.{
  Ownership, or_empty, default_patterns, set_default_ownership, subscribe_owned, subscribe,
}
use go_res.Service.Life.{started}
use go_res.Service.System.{
  SystemEvent, reset_event, Called, returned, publish, is_started, send_reset, reset_all,
}

module _ {W L : Type 0} where
  set_default_twice :
      (path : Bytes) (root : Node (RegHandler (Handlers W)) L) (o : Ownership)
      → set_default_ownership path root (set_default_ownership path root o)
        ≡ set_default_ownership path root o
  unfolding set_default_ownership default_patterns
  set_default_twice path root o = refl

module _ {V : Type 0} (encodes : SystemEvent V → Bool) where
  send_reset-owned :
      (accepts : Bytes → Bool) (o : Ownership) (made : List Bytes × Bool)
      → subscribe_owned accepts o ≡ some made
      → send_reset encodes (or_empty o.reset_resources) (or_empty o.reset_access)
        ≡ publish encodes
            (codes "system.reset")
            (reset_event (or_empty o.reset_resources) (or_empty o.reset_access))
  unfolding send_reset subscribe_owned
  send_reset-owned accepts o made h =
      elim (Bool-cases (is_nil (or_empty o.reset_resources) && is_nil (or_empty o.reset_access))) [
        | inl y ↦ absurd (none-ne-some (rw y at h))
        | inr y ↦ rw y
      ]

module _ {V W L : Type 0} (encodes : SystemEvent V → Bool) where
  -- If subscribe does not fail for want of resources, ResetAll behind it keeps the ownership, and
  -- publishes one system reset, of what the service then owns, provided that it can be encoded.
  pub reset_all-subscribe :
      (accepts : Bytes → Bool) (path : Bytes) (root : Node (RegHandler (Handlers W)) L)
      (o owned : Ownership) (made : List Bytes × Bool)
      → subscribe accepts path root o ≡ (owned, some made)
      → encodes (reset_event (or_empty owned.reset_resources) (or_empty owned.reset_access)) ≡ true
      → reset_all encodes started path root owned ≡ (
        owned,
        returned (
            (
              codes "system.reset",
              reset_event (or_empty owned.reset_resources) (or_empty owned.reset_access),
            )
            ∷ []),
      )
  unfolding subscribe reset_all is_started publish
  reset_all-subscribe accepts path root o owned made h e =
      let p = ap (λ (z : Ownership × Option (List Bytes × Bool)). z.0) h in
      let q : set_default_ownership path root owned ≡ owned =
        rw (← p) (set_default_twice path root o) in
      let k : subscribe_owned accepts owned ≡ some made =
        rw (← p) (ap (λ (z : Ownership × Option (List Bytes × Bool)). z.1) h) in
      let sent : Ownership → Ownership × Called V =
        λ w. (w, send_reset encodes (or_empty w.reset_resources) (or_empty w.reset_access)) in
      ap sent q ∙ rw (send_reset-owned encodes accepts owned made k, e)
