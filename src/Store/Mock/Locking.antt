-- ===== src/Store/Mock/Locking.antt =====
-- The transactions that are begun on a mock store, of store/mockstore/store.go, and their steps.
pub mod Alone
use go_res.Base.{
  ℕ, suc, ◌+◌, Bytes, Bool, true, false, not, Option, some, List, [], ◌∷◌, ◌++◌, ok, ◌≡◌, ◌∙◌,
  arith,
}
use go_res.Store.Contract.{StoreError, Write}
use go_res.Store.Mock.{
  Overrides, MockStore, Txn, Written, read, write, close_read, close_write, new_store,
}
use go_res.Store.Mock.Calls.{change}

-- A store with the transactions that were begun on it, open and closed ones.
pub record Use (K V L : Type 0) : Type 0 where
  pub store : MockStore K V L
  pub readers : List Txn
  pub writers : List Txn

-- A transaction is begun, closed, or called; a call may come behind `Close`.
pub data Step {K V L : Type 0} (o : Overrides K V) : Use K V L → Use K V L → Type 0 where
  read_begun :
      {u : Use K V L} (id : Bytes) {t : Txn} {st : MockStore K V L}
      → read id u.store ≡ some (t, st)
      → Step o u (record u { store = st; readers = t ∷ u.readers })
  write_begun :
      {u : Use K V L} (id : Bytes) {t : Txn} {st : MockStore K V L}
      → write id u.store ≡ some (t, st)
      → Step o u (record u { store = st; writers = t ∷ u.writers })
  read_closed :
      {u : Use K V L} (xs ys : List Txn) (t : Txn) {t' : Txn} {e : Option StoreError}
      {st : MockStore K V L}
      → u.readers ≡ xs ++ t ∷ ys
      → close_read t u.store ≡ ok (e, t', st)
      → Step o u (record u { store = st; readers = xs ++ t' ∷ ys })
  write_closed :
      {u : Use K V L} (xs ys : List Txn) (t : Txn) {t' : Txn} {e : Option StoreError}
      {st : MockStore K V L}
      → u.writers ≡ xs ++ t ∷ ys
      → close_write t u.store ≡ ok (e, t', st)
      → Step o u (record u { store = st; writers = xs ++ t' ∷ ys })
  called :
      {u : Use K V L} (xs ys : List Txn) (t : Txn) (w : Write V) {r : Written K V L}
      → u.writers ≡ xs ++ t ∷ ys
      → change o t w u.store ≡ ok r
      → Step o u (record u { store = r.store })

pub data Reach {K V L : Type 0} (o : Overrides K V) (outer : K) : Use K V L → Type 0 where
  fresh : Reach o outer (record { store = new_store outer; readers = []; writers = [] })
  next : {u u' : Use K V L} → Reach o outer u → Step o u u' → Reach o outer u'

unfoldable pub one_if : Bool → ℕ
one_if true = 1
one_if false = 0

-- How many are not closed.
unfoldable pub open_count : List Txn → ℕ
unfolding one_if
open_count [] = 0
open_count (t ∷ ts) = one_if (not t.closed) + open_count ts

abbrev pub Locked : {K V L : Type 0} → Use K V L → Type 0
Locked u =
    (open_count u.readers ≡ u.store.mutex.readers)
    × (open_count u.writers ≡ one_if u.store.mutex.writing)
    × (u.store.mutex.writing ≡ true → u.store.mutex.readers ≡ 0)

open_count-append : (xs ys : List Txn) → open_count (xs ++ ys) ≡ open_count xs + open_count ys
unfolding open_count
open_count-append [] ys = omega arith
open_count-append (t ∷ xs) ys = omega (arith, open_count-append xs ys)

pub count_closed :
    (xs ys : List Txn) (t : Txn)
    → t.closed ≡ true
    → open_count (xs ++ t ∷ ys) ≡ open_count xs + open_count ys
unfolding open_count one_if
count_closed xs ys t h = open_count-append xs (t ∷ ys) ∙ rw h (omega arith)

pub count_open :
    (xs ys : List Txn) (t : Txn)
    → t.closed ≡ false
    → open_count (xs ++ t ∷ ys) ≡ suc (open_count xs + open_count ys)
unfolding open_count one_if
count_open xs ys t h = open_count-append xs (t ∷ ys) ∙ rw h (omega arith)
