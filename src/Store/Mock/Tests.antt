-- ===== src/Store/Mock/Tests.antt =====
-- Runs of the mock store, and the theorems about it.
use go_res.Base.{
  codes, str_eq, Bytes, true, false, Option, none, some, List, [], ◌∷◌, ◌++◌, Result, ok, ◌≡◌, refl,
  ◌⊎◌, inl, inr,
}
use go_res.Params.{insert, lookup}
use go_res.Store.Contract.{StoreError, not_found, create, update}
use go_res.Store.Mock.{
  Overrides, MockStore, Txn, Written, close_read, close_write, write, add, on_change, new_store,
  is_free, is_unread,
}
use go_res.Store.Mock.Calls.{change, exists, value}
use go_res.Store.Mock.Calls.Refines.{Refined, change-Refined}
use go_res.Store.Mock.Calls.Serves.{defaults}
use go_res.Store.Mock.Locking.{Use, Reach, fresh, next, write_begun, open_count}
use go_res.Store.Mock.Locking.Alone.{Reach-locked}

abbrev no_overrides : Overrides (Unit {0}) Bytes
no_overrides = defaults

-- A store with one resource and two callbacks, which a write transaction was begun on.
abbrev two_callbacks : MockStore (Unit {0}) Bytes Bytes
two_callbacks = record {
  on_change_callbacks = codes "first" ∷ codes "second" ∷ [];
  mutex = record { readers = 0; writing = true };
  kept = record { resources = some ((codes "1", codes "a") ∷ []); outer = tt };
}

abbrev txn_at : Bytes → Txn
txn_at id = record { id = id; closed = false }

change-Refined_example :
    (r : Written (Unit {0}) Bytes Bytes) × (change no_overrides
        (txn_at (codes "1"))
        (update (codes "b"))
        two_callbacks
      ≡ ok r)
    × Refined (codes "1") (update (codes "b")) (some (codes "a")) two_callbacks r
unfolding lookup str_eq
change-Refined_example =
    change-Refined no_overrides (txn_at (codes "1")) (update (codes "b")) two_callbacks refl refl
      refl refl

abbrev used : Use (Unit {0}) Bytes Bytes
used = record {
  store = record (new_store tt) { mutex = record { readers = 0; writing = true } };
  readers = [];
  writers = txn_at (codes "1") ∷ [];
}

used_Reach : Reach no_overrides tt used
unfolding write is_free is_unread new_store
used_Reach = next fresh (write_begun (codes "1") refl)

Reach-locked_example :
    ((open_count used.writers ≡ 0)
      ⊎ ((open_count used.writers ≡ 1) × (open_count used.readers ≡ 0)))
    × ((xs ys : List Txn) (t : Txn)
        → used.readers ≡ xs ++ t ∷ ys
        → (r : Option StoreError × Txn × MockStore (Unit {0}) Bytes Bytes) × (close_read t
              used.store
            ≡ ok r))
    × ((xs ys : List Txn) (t : Txn)
        → used.writers ≡ xs ++ t ∷ ys
        → (r : Option StoreError × Txn × MockStore (Unit {0}) Bytes Bytes) × (close_write t
              used.store
            ≡ ok r))
Reach-locked_example = Reach-locked no_overrides tt used used_Reach

-- Behind Create with a new identifier, the transaction still has the empty one.
abbrev numbered : Overrides (Unit {0}) Bytes
numbered = record no_overrides { new_id = some (λ k. (codes "7", k)) }

abbrev value_behind : Txn → Result (Written (Unit {0}) Bytes Bytes) → Option (StoreError ⊎ Bytes)
value_behind t (ok r) = some (value numbered t r.store)
value_behind t _ = none

not_found_behind :
    value_behind (txn_at []) (change numbered (txn_at []) (create (codes "b")) two_callbacks)
    ≡ some (inl not_found)
unfolding change value lookup str_eq insert
not_found_behind = refl

found_behind :
    value_behind
      (txn_at (codes "7"))
      (change numbered (txn_at []) (create (codes "b")) two_callbacks)
    ≡ some (inr (codes "b"))
unfolding change value lookup str_eq insert
found_behind = refl

-- A transaction that was closed still writes.
written_behind :
    value_behind (txn_at (codes "1")) (
      change numbered (record { id = codes "1"; closed = true }) (update (codes "b")) two_callbacks)
    ≡ some (inr (codes "b"))
unfolding change value lookup str_eq insert
written_behind = refl

added :
    add (codes "1") (codes "a") (on_change (codes "first") (new_store tt))
    ≡ ok (record {
      on_change_callbacks = codes "first" ∷ [];
      mutex = record { readers = 0; writing = false };
      kept = record { resources = some ((codes "1", codes "a") ∷ []); outer = tt };
    })
unfolding add on_change new_store insert
added = refl

existing : exists no_overrides (txn_at (codes "1")) two_callbacks ≡ true
unfolding exists lookup str_eq
existing = refl
