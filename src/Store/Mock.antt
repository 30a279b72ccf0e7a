-- ===== src/Store/Mock.antt =====
-- store/mockstore/store.go.
--
-- `V` is the type of the values, none of them nil. `K` is what the functions that override the
-- defaults keep for themselves, and `L` is the type of the callbacks; what a callback does is not
-- modelled. An override of a reading call only reads.
pub mod Calls
mod Tests
pub mod Locking
use go_res.Base.{
  ◌>>=◌, ℕ, zero, suc, if◌then◌else◌, Bytes, Bool, true, false, not, ◌&&◌, Option, none, some, List,
  [], ◌∷◌, ◌++◌, map, ◌⊎◌, Result, ok, panic, assignment_to_nil_map, unlock_of_unlocked,
}
use go_res.Params.{insert, lookup}
use go_res.Store.Contract.{StoreError, already_closed, Notice}

-- The map `Resources`; a nil map is `none`.
abbrev pub Resources : Type 0 → Type 0
Resources V = Option (List (Bytes × V))

pub record Contents (K V : Type 0) : Type 0 where
  pub resources : Resources V
  pub outer : K

pub record Overrides (K V : Type 0) : Type 0 where
  pub new_id : Option (K → Bytes × K)
  pub on_exists : Option (Contents K V → Bytes → Bool)
  pub on_value : Option (Contents K V → Bytes → StoreError ⊎ V)
  pub on_create : Option (Bytes → V → Contents K V → Option StoreError × Contents K V)
  pub on_update : Option (Bytes → V → Contents K V → (StoreError ⊎ Option V) × Contents K V)
  pub on_delete : Option (Bytes → Contents K V → (StoreError ⊎ Option V) × Contents K V)

-- The RWMutex.
pub record Mutex : Type 0 where
  pub readers : ℕ
  pub writing : Bool

pub record MockStore (K V L : Type 0) : Type 0 where
  pub on_change_callbacks : List L
  pub mutex : Mutex
  pub kept : Contents K V

-- `readTxn`, which `writeTxn` holds.
pub record Txn : Type 0 where
  pub id : Bytes
  pub closed : Bool

-- The error that a call returns, if any, the store behind it, and the calls of callbacks.
pub record Written (K V L : Type 0) : Type 0 where
  pub error : Option StoreError
  pub store : MockStore K V L
  pub told : List (L × Notice V)

abbrev pub find : {V : Type 0} → Bytes → Resources V → Option V
find id none = none
find id (some m) = lookup id m

-- `m[id] = v`, and the map that is made in place of nil.
unfoldable pub assign : {V : Type 0} → Bytes → V → Resources V → Result (Resources V)
assign id v none = panic assignment_to_nil_map
assign id v (some m) = ok (some (insert id v m))

unfoldable pub made : {V : Type 0} → Resources V → Resources V
made none = some []
made (some m) = some m

is_unread : ℕ → Bool
is_unread zero = true
is_unread (suc n) = false

is_free : Mutex → Bool
unfolding is_unread
is_free m = is_unread m.readers && not m.writing

one_less : ℕ → Mutex → Result Mutex
one_less zero m = panic unlock_of_unlocked
one_less (suc n) m = ok (record m { readers = n })

r_unlock : Mutex → Result Mutex
unfolding one_less
r_unlock m = one_less m.readers m

unlock : Mutex → Result Mutex
unlock m = if m.writing then ok (record m { writing = false }) else panic unlock_of_unlocked

pub new_store : {K V L : Type 0} → K → MockStore K V L
new_store outer = record {
  on_change_callbacks = [];
  mutex = record { readers = 0; writing = false };
  kept = record { resources = none; outer = outer };
}

module _ {K V L : Type 0} where
  add : Bytes → V → MockStore K V L → Result (MockStore K V L)
  unfolding assign made
  add id v st = do
    m ← assign id v (made st.kept.resources)
    ok (record st { kept = record st.kept { resources = m } })

  on_change : L → MockStore K V L → MockStore K V L
  on_change cb st = record st { on_change_callbacks = st.on_change_callbacks ++ cb ∷ [] }

  -- `none` is a call that waits for the lock.
  unfoldable pub read : Bytes → MockStore K V L → Option (Txn × MockStore K V L)
  read id st =
      if st.mutex.writing
      then none
      else some (
        record { id = id; closed = false },
        record st { mutex = record st.mutex { readers = suc st.mutex.readers } },
      )

  unfoldable pub write : Bytes → MockStore K V L → Option (Txn × MockStore K V L)
  unfolding is_free
  write id st =
      if is_free st.mutex
      then some (
        record { id = id; closed = false },
        record st { mutex = record st.mutex { writing = true } },
      )
      else none

  -- `Close` of a transaction with its method of the mutex.
  close_with :
      (Mutex → Result Mutex)
      → Txn
      → MockStore K V L
      → Result (Option StoreError × Txn × MockStore K V L)
  close_with release t st =
      if t.closed
      then ok (some already_closed, t, st)
      else (do m ← release st.mutex; ok (none, record t { closed = true }, record st { mutex = m }))

  unfoldable pub close_read :
      Txn → MockStore K V L → Result (Option StoreError × Txn × MockStore K V L)
  unfolding close_with r_unlock
  close_read t st = close_with r_unlock t st

  unfoldable pub close_write :
      Txn → MockStore K V L → Result (Option StoreError × Txn × MockStore K V L)
  unfolding close_with unlock
  close_write t st = close_with unlock t st
