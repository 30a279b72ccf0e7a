-- ===== src/Store/Mock/Calls/Mutex.antt =====
-- No call of a write transaction takes or leaves the lock.
use go_res.Base.{
  if◌then◌else◌, Bytes, Bool, true, false, Option, none, some, Option-cases, Result, ok, panic,
  empty_new_id, ok_injective, >>=-eq-ok, ◌>>=◌, ◌≡◌, refl, sym, ap, ◌∙◌, ◌⊎◌, inl, inr,
}
use go_res.Pattern.Valid.{is_nil}
use go_res.Store.Contract.{StoreError, Write, create, update, delete}
use go_res.Store.Mock.{Overrides, MockStore, Txn, Written, Contents}
use go_res.Store.Mock.Calls.{
  finish, failed_with, created, create_at, create_new, update_at, delete_at, change,
}

module _ {K V L : Type 0} where
  finish-mutex :
      (id : Bytes) (after : Option V) (st : MockStore K V L)
      (r : (StoreError ⊎ Option V) × Contents K V)
      → (finish id after st r).store.mutex ≡ st.mutex
  unfolding finish
  finish-mutex id after st (inl e, k) = refl
  finish-mutex id after st (inr before, k) = refl

  module _ (o : Overrides K V) where
    abbrev Keeps : MockStore K V L → Result (Written K V L) → Type 0
    Keeps st called = (r : Written K V L) → called ≡ ok r → r.store.mutex ≡ st.mutex

    finished-Keeps :
        (id : Bytes) (after : Option V) (st : MockStore K V L) {X : Type 0} (first : Result X)
        (f : X → (StoreError ⊎ Option V) × Contents K V)
        → Keeps st (first >>= (λ x. ok (finish id after st (f x))))
    finished-Keeps id after st first f r h =
        let (x, p, q) = >>=-eq-ok first _ h in
        ap (λ y. y.store.mutex) (sym (ok_injective q)) ∙ finish-mutex id after st (f x)

    create_at-Keeps : (id : Bytes) (v : V) (st : MockStore K V L) → Keeps st (create_at o id v st)
    unfolding create_at
    create_at-Keeps id v st = finished-Keeps id (some v) st _ created

    update_at-Keeps : (id : Bytes) (v : V) (st : MockStore K V L) → Keeps st (update_at o id v st)
    unfolding update_at
    update_at-Keeps id v st = finished-Keeps id (some v) st _ (λ x. x)

    new_id-Keeps :
        (b : Bool) (id : Bytes) (v : V) (st st' : MockStore K V L)
        → st'.mutex ≡ st.mutex
        → Keeps st (if b then panic empty_new_id else create_at o id v st')
    new_id-Keeps true id v st st' e r h = cc
    new_id-Keeps false id v st st' e r h = create_at-Keeps id v st' r h ∙ e

    create_new-Keeps : (v : V) (st : MockStore K V L) → Keeps st (create_new o v st)
    unfolding create_new failed_with
    create_new-Keeps v st r h = elim (Option-cases o.new_id) [
      | inl e ↦ ap (λ y. y.store.mutex) (sym (ok_injective (rw e at h)))
      | inr (f, e) ↦
          new_id-Keeps (is_nil (f st.kept.outer).0) (f st.kept.outer).0 v st
            (record st { kept = record st.kept { outer = (f st.kept.outer).1 } }) refl r (rw e at h)
    ]

    if-Keeps :
        (b : Bool) (st : MockStore K V L) (x y : Result (Written K V L))
        → Keeps st x
        → Keeps st y
        → Keeps st (if b then x else y)
    if-Keeps true st x y f g = f
    if-Keeps false st x y f g = g

    failed_with-Keeps : (e : StoreError) (st : MockStore K V L) → Keeps st (ok (failed_with e st))
    unfolding failed_with
    failed_with-Keeps e st r h = ap (λ y. y.store.mutex) (sym (ok_injective h))

    pub change-mutex : (t : Txn) (w : Write V) (st : MockStore K V L) → Keeps st (change o t w st)
    unfolding change delete_at
    change-mutex t (create v) st =
        if-Keeps (is_nil t.id) st _ _ (create_new-Keeps v st) (create_at-Keeps t.id v st)
    change-mutex t (update v) st =
        if-Keeps (is_nil t.id) st _ _ (failed_with-Keeps _ st) (update_at-Keeps t.id v st)
    change-mutex t delete st =
        if-Keeps (is_nil t.id) st _ _ (failed_with-Keeps _ st)
          (λ r h. ap (λ y. y.store.mutex) (sym (ok_injective h)) ∙ finish-mutex t.id none st _)
