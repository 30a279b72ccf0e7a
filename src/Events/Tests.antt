-- ===== src/Events/Tests.antt =====
-- Runs of events on a collection of numbers, and the theorems about them.
use go_res.Base.{
  by_test, ltb, length, ℕ, zero, suc, if◌then◌else◌, codes, true, none, some, List, [], ◌∷◌, ◌≡◌,
  refl, inl, inr,
}
use go_res.Request.Reply.{plain}
use go_res.Events.{
  applied, refused, Resource, World, Update, type_collection, pos, negsuc, add, remove, published,
  heard, add_payload, add_event, left,
}
use go_res.Events.Send.{send, update, updates, is_model, is_collection}
use go_res.Events.Send.Told.{Told}
use go_res.Events.Send.Replica.{Client, Mirrors, receive_all, is_edit, EditRight}
use go_res.Events.Send.Replica.InStep.{receive_all-updates}

abbrev insert_at : ℕ → ℕ → List ℕ → List ℕ
insert_at v zero xs = v ∷ xs
insert_at v (suc n) [] = []
insert_at v (suc n) (x ∷ xs) = x ∷ insert_at v n xs

abbrev take_at : ℕ → List ℕ → List ℕ
take_at n [] = []
take_at zero (x ∷ xs) = xs
take_at (suc n) (x ∷ xs) = x ∷ take_at n xs

abbrev numbers_client : Client ℕ (List ℕ)
numbers_client = record { on_change = λ vs xs. xs; on_add = insert_at; on_remove = take_at }

-- An index behind the end is refused.
abbrev numbers : Resource ℕ (List ℕ) ℕ
numbers = record {
  rname = codes "numbers";
  rtype = type_collection;
  apply_change = none;
  apply_add = some (λ v n xs.
      if ltb (length xs) n
      then refused (plain (codes "out of range")) xs
      else applied tt (insert_at v n xs));
  apply_remove = some (λ n xs. applied none (take_at n xs));
  apply_create = none;
  apply_delete = none;
  listeners = 7 ∷ 8 ∷ [];
}

numbers-Mirrors : Mirrors numbers numbers_client (λ xs. xs)
unfolding EditRight is_collection
numbers-Mirrors = record {
  change_right = inl refl;
  add_right = inr (
    _,
    refl,
    λ v n xs.
        by_test (EditRight numbers_client (λ ys. ys) (insert_at v n) xs) (ltb (length xs) n)
          (λ e. refl) (λ e. refl),
  );
  remove_right = inr (_, refl, λ n xs. refl);
}

abbrev one_two : World ℕ (List ℕ) ℕ
one_two = record { stored = 1 ∷ 2 ∷ []; effects = [] }

abbrev calls : List (Update ℕ)
calls = add 5 (pos 1) ∷ add 6 (pos 9) ∷ remove (negsuc 0) ∷ remove (pos 0) ∷ []

stored_behind : (updates (λ p. true) numbers calls one_two).stored ≡ 5 ∷ 2 ∷ []
unfolding updates is_model
stored_behind = refl

add_told :
    (left (update (λ p. true) numbers (add 5 (pos 1)) one_two)).effects
    ≡ published (codes "event.numbers.add") (add_payload 5 1)
      ∷ heard 7 (add_event 5 1)
      ∷ heard 8 (add_event 5 1)
      ∷ []
unfolding update send is_model
add_told = refl

receive_all-updates_example :
    receive_all numbers_client (updates (λ p. true) numbers calls one_two).effects (1 ∷ 2 ∷ [])
    ≡ (updates (λ p. true) numbers calls one_two).stored
unfolding is_edit
receive_all-updates_example =
    receive_all-updates (λ p. true) (λ p. refl) numbers_client (λ xs. xs) numbers (1 ∷ 2 ∷ [])
      numbers-Mirrors calls (1 ∷ 2 ∷ []) refl refl
