-- ===== src/Events/Send/Edits.antt =====
-- The add and remove events of a collection without apply handlers.
use go_res.Base.{ℕ, codes, Bool, true, false, none, List, ◌∷◌, ◌++◌, map, append_assoc, ◌≡◌, refl}
use go_res.Events.{
  ℤ, Payload, Effect, published, heard, Resource, World, done, add, remove, add_payload,
  remove_payload, add_event, remove_event, event_subject,
}
use go_res.Events.Send.{
  update, send, announce, send_add, send_remove, add_at, remove_at, added, removed, is_model,
}

module _ {V S L : Type 0} (r : Resource V S L) where
  abbrev pub add_effects : V → ℕ → List (Effect V L)
  add_effects v n =
      published (event_subject r.rname (codes "add")) (add_payload v n)
      ∷ map (λ l. heard l (add_event v n)) r.listeners

  abbrev pub remove_effects : ℕ → List (Effect V L)
  remove_effects n =
      published (event_subject r.rname (codes "remove")) (remove_payload n)
      ∷ map (λ l. heard l (remove_event none n)) r.listeners

module _ {V S L : Type 0} (encodes : Payload V → Bool)
    (encodes_all : (p : Payload V) → encodes p ≡ true) (r : Resource V S L)
    (collection : is_model r.rtype ≡ false) (no_add : r.apply_add ≡ none)
    (no_remove : r.apply_remove ≡ none) where
  pub update-add :
      (v : V) (n : ℕ) (w : World V S L)
      → update encodes r (add v (ℤ.pos n)) w
        ≡ done (record w { effects = w.effects ++ add_effects r v n })
  unfolding update send_add add_at added announce send
  update-add v n w = rw (collection, no_add, encodes_all (add_payload v n), append_assoc) refl

  pub update-remove :
      (n : ℕ) (w : World V S L)
      → update encodes r (remove (ℤ.pos n)) w
        ≡ done (record w { effects = w.effects ++ remove_effects r n })
  unfolding update send_remove remove_at removed announce send
  update-remove n w = rw (collection, no_remove, encodes_all (remove_payload n), append_assoc) refl
