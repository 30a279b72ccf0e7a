-- ===== src/Store/Mock/Calls/Refines.antt =====
-- The calls of a write transaction refine those of a map from identifiers to values.
use go_res.Base.{
  if◌then◌else◌, str_eq, str_eq_iff, Bytes, false, Option, Option-cases, none, some, List, [], ◌∷◌,
  map, Result, ok, ◌≡◌, refl, ap, inl, inr, arith,
}
use go_res.Params.{insert, lookup, lookup-insert-eq}
use go_res.Pattern.Valid.{is_nil}
use go_res.Store.Contract.{StoreError, not_found, duplicate, Write, create, update, delete, Notice}
use go_res.Store.Mock.{Resources, Overrides, Mutex, MockStore, Txn, Written, find, assign, made}
use go_res.Store.Mock.Calls.{
  remove_key, remove_from, call_on_change, default_create, default_update, default_delete, created,
  finish, create_at, update_at, delete_at, change,
}

-- What a call returns and leaves at the identifier, where a value is or is not.
abbrev pub outcome : {V : Type 0} → Write V → Option V → Option StoreError × Option V
outcome (create v) none = (none, some v)
outcome (create v) (some old) = (some duplicate, some old)
outcome (update v) none = (some not_found, none)
outcome (update v) (some old) = (none, some v)
outcome delete none = (some not_found, none)
outcome delete (some old) = (none, none)

-- Each callback is called once, in their order, and none for an error.
abbrev pub told_of : {V L : Type 0} → Option StoreError → Notice V → List L → List (L × Notice V)
told_of none n cbs = map (λ cb. (cb, n)) cbs
told_of (some e) n cbs = []

module _ {V : Type 0} where
  lookup-remove_key :
      (id j : Bytes) (m : List (Bytes × V))
      → lookup j (remove_key id m) ≡ (if str_eq id j then none else lookup j m)
  unfolding lookup remove_key
  lookup-remove_key id j [] = ground arith
  lookup-remove_key id j ((i, v) ∷ m) =
      ground (arith, lookup-remove_key id j m, str_eq_iff i id, str_eq_iff i j, str_eq_iff id j)

  call_on_change-eq :
      {L : Type 0} (n : Notice V) (cbs : List L) → call_on_change n cbs ≡ map (λ cb. (cb, n)) cbs
  unfolding call_on_change
  call_on_change-eq n [] = refl
  call_on_change-eq n (cb ∷ cbs) = ap (λ t. (cb, n) ∷ t) (call_on_change-eq n cbs)

  pub find_unchanged :
      (id j : Bytes) (m : Resources V) (old : Option V)
      → find id m ≡ old
      → find j m ≡ (if str_eq id j then old else find j m)
  unfolding lookup
  find_unchanged id j none old h = ground (arith, h)
  find_unchanged id j (some m) old h = ground (arith, h, str_eq_iff id j)

  find-remove_from :
      (id j : Bytes) (m : Resources V)
      → find j (remove_from id m) ≡ (if str_eq id j then none else find j m)
  unfolding remove_from
  find-remove_from id j none = ground arith
  find-remove_from id j (some m) = lookup-remove_key id j m

module _ {K V L : Type 0} where
  -- The state behind a call holds at each identifier what the map does.
  abbrev pub Refined : Bytes → Write V → Option V → MockStore K V L → Written K V L → Type 0
  Refined id w old st r =
      (r.error ≡ (outcome w old).0)
      × ((j : Bytes)
          → find j r.store.kept.resources
            ≡ (if str_eq id j then (outcome w old).1 else find j st.kept.resources))
      × (r.told
          ≡ told_of r.error (record { id = id; before = old; after = (outcome w old).1 })
              st.on_change_callbacks)
      × (r.store ≡ record st { kept = r.store.kept })

  abbrev Settles : Bytes → Write V → Option V → MockStore K V L → Result (Written K V L) → Type 0
  Settles id w old st called = (r : Written K V L) × (called ≡ ok r) × Refined id w old st r

  module _ (o : Overrides K V) (id : Bytes) (cbs : List L) (outer : K) where
    abbrev with_map : Mutex → Resources V → MockStore K V L
    with_map mx m = record {
      on_change_callbacks = cbs;
      mutex = mx;
      kept = record { resources = m; outer = outer };
    }

    settle_error :
        (w : Write V) (mx : Mutex) (m : Resources V) (e : StoreError)
        (called : Result (Written K V L))
        → outcome w (find id m) ≡ (some e, find id m)
        → called ≡ ok (record { error = some e; store = with_map mx m; told = [] })
        → Settles id w (find id m) (with_map mx m) called
    settle_error w mx m e called h c = (
      record { error = some e; store = with_map mx m; told = [] },
      c,
      (rw h refl, (λ j. rw h (find_unchanged id j m (find id m) refl)), refl, refl),
    )

    settle_done :
        (w : Write V) (mx : Mutex) (m m' : Resources V) (new : Option V)
        (called : Result (Written K V L))
        → outcome w (find id m) ≡ (none, new)
        → ((j : Bytes) → find j m' ≡ (if str_eq id j then new else find j m))
        → called
          ≡ ok (record {
            error = none;
            store = with_map mx m';
            told = call_on_change (record { id = id; before = find id m; after = new }) cbs;
          })
        → Settles id w (find id m) (with_map mx m) called
    settle_done w mx m m' new called h k c = (
      record {
        error = none;
        store = with_map mx m';
        told = call_on_change (record { id = id; before = find id m; after = new }) cbs;
      },
      c,
      (
        rw h refl,
        (λ j. rw h (k j)),
        rw h (call_on_change-eq (record { id = id; before = find id m; after = new }) cbs),
        refl,
      ),
    )

    create_at-Settles :
        (v : V) (mx : Mutex) (m : Resources V)
        → o.on_create ≡ none
        → Settles id (create v) (find id m) (with_map mx m) (create_at o id v (with_map mx m))
    unfolding create_at default_create assign made created finish lookup insert
    create_at-Settles v mx none h =
        settle_done (create v) mx none (some ((id, v) ∷ [])) (some v) _ refl (λ j. refl) (rw h refl)
    create_at-Settles v mx (some m) h = elim (Option-cases (lookup id m)) [
      | inl e ↦
          settle_done (create v) mx (some m) (some (insert id v m)) (some v) _ (rw e refl)
            (λ j. lookup-insert-eq id j v m) (rw (h, default_create, e) refl)
      | inr (old, e) ↦
          settle_error (create v) mx (some m) duplicate _ (rw e refl)
            (rw (h, default_create, e) refl)
    ]

    update_at-Settles :
        (v : V) (mx : Mutex) (m : Resources V)
        → o.on_update ≡ none
        → Settles id (update v) (find id m) (with_map mx m) (update_at o id v (with_map mx m))
    unfolding update_at default_update assign finish lookup insert
    update_at-Settles v mx none h = settle_error (update v) mx none not_found _ refl (rw h refl)
    update_at-Settles v mx (some m) h = elim (Option-cases (lookup id m)) [
      | inl e ↦
          settle_error (update v) mx (some m) not_found _ (rw e refl)
            (rw (h, default_update, e) refl)
      | inr (old, e) ↦
          settle_done (update v) mx (some m) (some (insert id v m)) (some v) _ (rw e refl)
            (λ j. lookup-insert-eq id j v m) (rw (h, default_update, e) refl)
    ]

    delete_at-Settles :
        (mx : Mutex) (m : Resources V)
        → o.on_delete ≡ none
        → Settles id delete (find id m) (with_map mx m) (ok (delete_at o id (with_map mx m)))
    unfolding delete_at default_delete finish lookup remove_from
    delete_at-Settles mx none h = settle_error delete mx none not_found _ refl (rw h refl)
    delete_at-Settles mx (some m) h = elim (Option-cases (lookup id m)) [
      | inl e ↦
          settle_error delete mx (some m) not_found _ (rw e refl) (rw (h, default_delete, e) refl)
      | inr (old, e) ↦
          settle_done delete mx (some m) (some (remove_key id m)) none _ (rw e refl)
            (λ j. lookup-remove_key id j m) (rw (h, default_delete, e) refl)
    ]

-- A call of a write transaction with an identifier, where the defaults are not overridden, returns
-- the error of the call on a map from identifiers to values, and leaves the store holding at each
-- identifier what the map then does. It tells each callback of the change, in their order, with the
-- values before and after, and tells none if it returns an error; nothing else of the store changes.
pub change-Refined :
    {K V L : Type 0} (o : Overrides K V) (t : Txn) (w : Write V) (st : MockStore K V L)
    → o.on_create ≡ none
    → o.on_update ≡ none
    → o.on_delete ≡ none
    → is_nil t.id ≡ false
    → (r : Written K V L) × (change o t w st ≡ ok r)
      × Refined t.id w (find t.id st.kept.resources) st r
unfolding change
change-Refined o t (create v) st c u d n =
    rw n
      (create_at-Settles o t.id st.on_change_callbacks st.kept.outer v st.mutex st.kept.resources c)
change-Refined o t (update v) st c u d n =
    rw n
      (update_at-Settles o t.id st.on_change_callbacks st.kept.outer v st.mutex st.kept.resources u)
change-Refined o t delete st c u d n =
    rw n
      (delete_at-Settles o t.id st.on_change_callbacks st.kept.outer st.mutex st.kept.resources d)
