-- ===== src/Store/Contract.antt =====
-- store/store.go: what a store promises of a write transaction.
use go_res.Base.{str_eq, Bytes, false, Option, List, [], ◌∷◌, ◌≡◌, ◌⊎◌, Result, ok}
use go_res.Pattern.Valid.{is_nil}

-- `ErrNotFound`, `ErrDuplicate`, the errors of mockstore/store.go, and those of other code.
pub data StoreError : Type 0 where
  not_found duplicate missing_id already_closed : StoreError
  other_error : Bytes → StoreError

-- The calls of `WriteTxn` that change the store.
pub data Write (V : Type 0) : Type 0 where
  create update : V → Write V
  delete : Write V

-- The arguments of a callback of `OnChange`; nil is `none`.
pub record Notice (V : Type 0) : Type 0 where
  pub id : Bytes
  pub before : Option V
  pub after : Option V

-- From values to values, a write at an identifier told of nothing and changed nothing, or told once
-- of the one resource that it changed.
abbrev pub Explained :
    {V : Type 0} → Bytes → (Bytes → Option V) → List (Notice V) → (Bytes → Option V) → Type 0
Explained id old notices new =
    ((notices ≡ []) × ((j : Bytes) → new j ≡ old j))
    ⊎ ((notices ≡ (record { id = id; before = old id; after = new id }) ∷ [])
        × ((j : Bytes) → str_eq id j ≡ false → new j ≡ old j))

-- A store with states `S`. `write` opens a write transaction, makes one call and closes it; its list
-- is what a callback was called with.
pub record Contract (S V : Type 0) : Type 0 where
  pub value_at : S → Bytes → Option V
  pub write : Bytes → Write V → S → Result (S × List (Notice V))
  pub explained :
      (id : Bytes) (w : Write V) (s : S)
      → is_nil id ≡ false
      → (s' : S) × (notices : List (Notice V)) × (write id w s ≡ ok (s', notices))
        × Explained id (value_at s) notices (value_at s')
