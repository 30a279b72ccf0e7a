-- ===== src/Events/Send/Replica.antt =====
-- What a client does with published events, and when an apply handler does the same.
pub mod InStep
use go_res.Base.{
  by_test, ℕ, if◌then◌else◌, codes, Bytes, Bool, true, false, not, Option, none, some, List, [],
  ◌∷◌, ◌++◌, map, all, ◌≡◌, refl, sym, ap, ◌∙◌, ◌⊎◌, inl, inr,
}
use go_res.Params.{lookup}
use go_res.Pattern.Valid.{is_nil}
use go_res.Rid.{is_valid_part}
use go_res.Events.{
  Payload, Event, Effect, Applied, applied, refused, change_payload, add_payload, remove_payload,
  custom_payload, custom_event, change_event, add_event, remove_event, Resource, World, Ended,
  Update, ℤ, pos, negsuc, left, event_subject, published, heard, done, raised, empty, custom,
  change, add, remove, create, delete, reaccess,
}
use go_res.Events.Send.{
  reserved, send, announce, with_applied, payload_of, send_custom, changed, send_change, added,
  add_at, send_add, removed, remove_at, send_remove, send_reaccess, update, updates, is_model,
  is_collection,
}

-- What a client does to its copy of a resource with the events of the protocol.
pub record Client (V M : Type 0) : Type 0 where
  pub on_change : List (Bytes × V) → M → M
  pub on_add : V → ℕ → M → M
  pub on_remove : ℕ → M → M

module _ {V M : Type 0} (client : Client V M) where
  unfoldable pub receive : Payload V → M → M
  receive empty m = m
  receive (custom_payload v) m = m
  receive (change_payload vs) m = client.on_change vs m
  receive (add_payload v n) m = client.on_add v n m
  receive (remove_payload n) m = client.on_remove n m

  unfoldable pub receive_all : {L : Type 0} → List (Effect V L) → M → M
  unfolding receive
  receive_all [] m = m
  receive_all (published subject p ∷ es) m = receive_all es (receive p m)
  receive_all (heard l ev ∷ es) m = receive_all es m

-- What a call of an update that changes a copy is: not a create or a delete event, which tell
-- nothing of the resource's content.
unfoldable pub is_edit : {V : Type 0} → Update V → Bool
is_edit (custom name v) = true
is_edit (change vs) = true
is_edit (add v i) = true
is_edit (remove i) = true
is_edit (create v) = false
is_edit delete = false
is_edit reaccess = true

module _ {V S M : Type 0} (client : Client V M) (view : S → M) where
  -- An apply handler does to the stored resource what the client does to its copy. If it fails, or
  -- tells that nothing was changed, it changes nothing.
  unfoldable pub ChangeRight : List (Bytes × V) → S → Applied (Option (List (Bytes × V))) S → Type 0
  ChangeRight vs s (applied none s') = client.on_change vs (view s) ≡ view s'
  ChangeRight vs s (applied (some []) s') = view s ≡ view s'
  ChangeRight vs s (applied (some (o ∷ os)) s') = client.on_change vs (view s) ≡ view s'
  ChangeRight vs s (refused e s') = view s ≡ view s'

  unfoldable pub EditRight : {R : Type 0} → (M → M) → S → Applied R S → Type 0
  EditRight edit s (applied x s') = edit (view s) ≡ view s'
  EditRight edit s (refused e s') = view s ≡ view s'

-- The apply handlers of a resource are there and are right, but for the events that its type forbids.
pub record Mirrors {V S L M : Type 0} (r : Resource V S L) (client : Client V M) (view : S → M)
    : Type 0 where
  pub change_right :
      (is_collection r.rtype ≡ true)
      ⊎ ((f : List (Bytes × V) → S → Applied (Option (List (Bytes × V))) S) × (r.apply_change
            ≡ some f)
          × ((vs : List (Bytes × V)) (s : S) → ChangeRight client view vs s (f vs s)))
  pub add_right :
      (is_model r.rtype ≡ true)
      ⊎ ((f : V → ℕ → S → Applied (Unit {0}) S) × (r.apply_add ≡ some f)
          × ((v : V) (n : ℕ) (s : S) → EditRight client view (client.on_add v n) s (f v n s)))
  pub remove_right :
      (is_model r.rtype ≡ true)
      ⊎ ((f : ℕ → S → Applied (Option V) S) × (r.apply_remove ≡ some f)
          × ((n : ℕ) (s : S) → EditRight client view (client.on_remove n) s (f n s)))
