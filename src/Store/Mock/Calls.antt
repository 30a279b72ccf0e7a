-- ===== src/Store/Mock/Calls.antt =====
-- store/mockstore/store.go: the calls of a transaction.
pub mod Refines
pub mod Serves
pub mod Mutex
use go_res.Base.{
  ◌>>=◌, if◌then◌else◌, str_eq, Bytes, Bool, true, false, Option, none, some, List, [], ◌∷◌, ◌⊎◌,
  inl, inr, Result, ok, panic, empty_new_id,
}
use go_res.Pattern.Valid.{is_nil}
use go_res.Store.Contract.{
  StoreError, not_found, duplicate, missing_id, Write, create, update, delete, Notice,
}
use go_res.Store.Mock.{Resources, Contents, Overrides, MockStore, Txn, Written, find, assign, made}

is_set : {A : Type 0} → Option A → Bool
is_set none = false
is_set (some a) = true

-- `delete(m, id)`
unfoldable pub remove_key : {V : Type 0} → Bytes → List (Bytes × V) → List (Bytes × V)
remove_key id [] = []
remove_key id ((j, v) ∷ m) = if str_eq j id then remove_key id m else (j, v) ∷ remove_key id m

remove_from : {V : Type 0} → Bytes → Resources V → Resources V
unfolding remove_key
remove_from id none = none
remove_from id (some m) = some (remove_key id m)

call_on_change : {V L : Type 0} → Notice V → List L → List (L × Notice V)
call_on_change n [] = []
call_on_change n (cb ∷ cbs) = (cb, n) ∷ call_on_change n cbs

module _ {K V : Type 0} where
  -- The defaults.
  default_create : Bytes → V → Contents K V → Result (Option StoreError × Contents K V)
  unfolding assign made
  default_create id v k = elim (find id k.resources) [
    | some old ↦ ok (some duplicate, k)
    | none ↦ do m ← assign id v (made k.resources); ok (none, record k { resources = m })
  ]

  default_update : Bytes → V → Contents K V → Result ((StoreError ⊎ Option V) × Contents K V)
  unfolding assign
  default_update id v k = elim (find id k.resources) [
    | none ↦ ok (inl not_found, k)
    | some before ↦ do
      m ← assign id v k.resources
      ok (inr (some before), record k { resources = m })
  ]

  default_delete : Bytes → Contents K V → (StoreError ⊎ Option V) × Contents K V
  unfolding remove_from
  default_delete id k = elim (find id k.resources) [
    | none ↦ (inl not_found, k)
    | some before ↦ (inr (some before), record k { resources = remove_from id k.resources })
  ]

  -- `OnCreate` returns an error or nil, and there is nothing before.
  created : Option StoreError × Contents K V → (StoreError ⊎ Option V) × Contents K V
  created (some e, k) = (inl e, k)
  created (none, k) = (inr none, k)

module _ {K V L : Type 0} where
  -- What follows the change itself: an error is returned, else the callbacks are called.
  finish :
      Bytes → Option V → MockStore K V L → (StoreError ⊎ Option V) × Contents K V → Written K V L
  unfolding call_on_change
  finish id after st (inl e, k) = record {
    error = some e;
    store = record st { kept = k };
    told = [];
  }
  finish id after st (inr before, k) = record {
    error = none;
    store = record st { kept = k };
    told =
        call_on_change (record { id = id; before = before; after = after }) st.on_change_callbacks;
  }

  failed_with : StoreError → MockStore K V L → Written K V L
  failed_with e st = record { error = some e; store = st; told = [] }

  module _ (o : Overrides K V) where
    unfoldable pub exists : Txn → MockStore K V L → Bool
    unfolding is_set
    exists t st = if is_nil t.id then false else elim o.on_exists [
      | none ↦ is_set (find t.id st.kept.resources)
      | some f ↦ f st.kept t.id
    ]

    unfoldable pub value : Txn → MockStore K V L → StoreError ⊎ V
    value t st = if is_nil t.id then inl not_found else elim o.on_value [
      | none ↦ elim (find t.id st.kept.resources) [ none ↦ inl not_found | some v ↦ inr v ]
      | some f ↦ f st.kept t.id
    ]

    create_at : Bytes → V → MockStore K V L → Result (Written K V L)
    unfolding default_create created finish
    create_at id v st = do
      e ← elim o.on_create [ none ↦ default_create id v st.kept | some f ↦ ok (f id v st.kept) ]
      ok (finish id (some v) st (created e))

    -- The new identifier is set in a copy of the transaction, which the method alone sees.
    create_new : V → MockStore K V L → Result (Written K V L)
    unfolding failed_with create_at
    create_new v st = elim o.new_id [
      | none ↦ ok (failed_with missing_id st)
      | some f ↦
          let (id, outer) = f st.kept.outer in
          if is_nil id
          then panic empty_new_id
          else create_at id v (record st { kept = record st.kept { outer = outer } })
    ]

    update_at : Bytes → V → MockStore K V L → Result (Written K V L)
    unfolding default_update finish
    update_at id v st = do
      r ← elim o.on_update [ none ↦ default_update id v st.kept | some f ↦ ok (f id v st.kept) ]
      ok (finish id (some v) st r)

    delete_at : Bytes → MockStore K V L → Written K V L
    unfolding default_delete finish
    delete_at id st =
        finish id none st
          (elim o.on_delete [ none ↦ default_delete id st.kept | some f ↦ f id st.kept ])

    -- The methods Create, Update and Delete of a write transaction.
    unfoldable pub change : Txn → Write V → MockStore K V L → Result (Written K V L)
    unfolding create_new create_at update_at delete_at failed_with
    change t (create v) st = if is_nil t.id then create_new v st else create_at t.id v st
    change t (update v) st =
        if is_nil t.id then ok (failed_with not_found st) else update_at t.id v st
    change t delete st =
        if is_nil t.id then ok (failed_with not_found st) else ok (delete_at t.id st)
