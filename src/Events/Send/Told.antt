-- ===== src/Events/Send/Told.antt =====
-- What the world gets to see of an event: all of it or nothing.
use go_res.Base.{
  ◌⊎◌, ◌&&◌, true, false, ℕ, codes, Bytes, Bool, Option, none, some, List, [], ◌∷◌, ◌++◌, map, ◌≡◌,
}
use go_res.Params.{lookup}
use go_res.Pattern.Valid.{is_nil, is_none}
use go_res.Rid.{is_valid_part}
use go_res.Request.Reply.{Raised}
use go_res.Events.{
  Payload, custom_payload, Event, Effect, Applied, applied, refused, change_payload, add_payload,
  remove_payload, custom_event, change_event, add_event, remove_event, create_event, delete_event,
  Resource, World, Ended, Update, pos, negsuc, event_subject, published, heard, done, raised, empty,
  custom, change, add, remove, create, delete, reaccess,
}
use go_res.Events.Send.{reserved, send, is_model, is_collection}

-- What an update announces to the world: the name and the payload of the event that is published,
-- and the event that the listeners are told.
pub data Announces {V : Type 0} : Update V → Bytes → Payload V → Event V → Type 0 where
  custom_bare : (name : Bytes) → Announces (custom name none) name empty (custom_event name none)
  custom_with :
      (name : Bytes) (v : V)
      → Announces (custom name (some v)) name (custom_payload v) (custom_event name (some v))
  change_announced :
      (vs : List (Bytes × V)) (old : Option (List (Bytes × V)))
      → Announces (change vs) (codes "change") (change_payload vs) (change_event vs old)
  add_announced :
      (v : V) (n : ℕ) → Announces (add v (pos n)) (codes "add") (add_payload v n) (add_event v n)
  remove_announced :
      (n : ℕ) (v : Option V)
      → Announces (remove (pos n)) (codes "remove") (remove_payload n) (remove_event v n)
  create_announced : (v : V) → Announces (create v) (codes "create") empty (create_event v)
  delete_announced : (v : Option V) → Announces delete (codes "delete") empty (delete_event v)

-- The apply handler is there and returns an error.
abbrev IsRefused : {R S : Type 0} → Applied R S → Type 0
IsRefused (applied x s) = ⊥
IsRefused (refused e s) = Unit

abbrev Refuses : {F R S : Type 0} → Option F → (F → Applied R S) → Type 0
Refuses none run = ⊥
Refuses (some f) run = IsRefused (run f)

-- The apply handler is there and tells that nothing was changed.
abbrev IsUnchanged : {V S : Type 0} → Applied (Option (List (Bytes × V))) S → Type 0
IsUnchanged (applied (some []) s) = Unit
IsUnchanged _ = ⊥

abbrev LeavesAll :
    {V F S : Type 0} → Option F → (F → Applied (Option (List (Bytes × V))) S) → Type 0
LeavesAll none run = ⊥
LeavesAll (some f) run = IsUnchanged (run f)

module _ {V S L : Type 0} (r : Resource V S L) where
  -- Why a call panics, with `s` stored.
  abbrev pub Blocked : Update V → S → Type 0
  Blocked (custom name v) s = (is_none (lookup name reserved) && is_valid_part name) ≡ false
  Blocked (change vs) s = (is_collection r.rtype ≡ true) ⊎ Refuses r.apply_change (λ f. f vs s)
  Blocked (add v (negsuc n)) s = Unit
  Blocked (add v (pos n)) s = (is_model r.rtype ≡ true) ⊎ Refuses r.apply_add (λ f. f v n s)
  Blocked (remove (negsuc n)) s = Unit
  Blocked (remove (pos n)) s = (is_model r.rtype ≡ true) ⊎ Refuses r.apply_remove (λ f. f n s)
  Blocked (create v) s = Refuses r.apply_create (λ f. f v s)
  Blocked delete s = Refuses r.apply_delete (λ f. f s)
  Blocked reaccess s = ⊥

  -- Why a call returns and sends nothing.
  abbrev pub Quiet : Update V → S → Type 0
  Quiet (change vs) s = (is_nil vs ≡ true) ⊎ LeavesAll r.apply_change (λ f. f vs s)
  Quiet _ s = ⊥

module _ {V S L : Type 0} (encodes : Payload V → Bool) (r : Resource V S L) (u : Update V)
    (s : S) where
  -- How the call `u` ends, with `s` stored and the effects `es` before it: a panic or a return that
  -- shows nothing, or a return behind one event, which is sent and then told to each listener.
  pub data Told (es : List (Effect V L)) : Ended (World V S L) → Type 0 where
    nothing_raised :
        (v : Raised) (w : World V S L) → Blocked r u s → w.effects ≡ es → Told es (raised v w)
    nothing_done : (w : World V S L) → Quiet r u s → w.effects ≡ es → Told es (done w)
    all_told :
        (name : Bytes) (p : Payload V) (ev : Event V) (w : World V S L)
        → Announces u name p ev
        → w.effects
          ≡ es ++ send encodes (event_subject r.rname name) p ++ map (λ l. heard l ev) r.listeners
        → Told es (done w)
    reaccess_sent :
        (w : World V S L)
        → u ≡ reaccess
        → w.effects ≡ es ++ published (event_subject r.rname (codes "reaccess")) empty ∷ []
        → Told es (done w)

module _ {V S L : Type 0} (encodes : Payload V → Bool) (r : Resource V S L) (w : World V S L) where
  abbrev Ends : Update V → Ended (World V S L) → Type 0
  Ends u o = Told encodes r u w.stored w.effects o
