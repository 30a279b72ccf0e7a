-- ===== src/Store/Mock/Calls/Serves.antt =====
-- The mock store, with one callback and the defaults, keeps what store/store.go promises.
use go_res.Base.{
  str_eq_refl, Bytes, true, false, Option, none, some, List, [], ◌∷◌, map, Result, ok, ◌>>=◌, ◌≡◌,
  refl, sym, ap, ◌∙◌, inl, inr,
}
use go_res.Pattern.Valid.{is_nil}
use go_res.Store.Contract.{StoreError, Write, create, update, delete, Notice, Explained, Contract}
use go_res.Store.Mock.{
  Contents, Overrides, MockStore, Txn, Written, find, write, close_write, close_with, unlock,
  is_free, is_unread,
}
use go_res.Store.Mock.Calls.{change}
use go_res.Store.Mock.Calls.Refines.{outcome, Refined, find_unchanged, change-Refined}

abbrev pub defaults : {K V : Type 0} → Overrides K V
defaults = record {
  new_id = none;
  on_exists = none;
  on_value = none;
  on_create = none;
  on_update = none;
  on_delete = none;
}

-- A store that no transaction is open of.
abbrev pub unlocked : {K V : Type 0} → Contents K V → MockStore K V (Unit {0})
unlocked k = record {
  on_change_callbacks = tt ∷ [];
  mutex = record { readers = 0; writing = false };
  kept = k;
}

failed-outcome :
    {V : Type 0} (w : Write V) (old : Option V) (e : StoreError)
    → (outcome w old).0 ≡ some e
    → (outcome w old).1 ≡ old
failed-outcome (create v) none e h = cc
failed-outcome (create v) (some old) e h = refl
failed-outcome (update v) none e h = refl
failed-outcome (update v) (some old) e h = cc
failed-outcome delete none e h = refl
failed-outcome delete (some old) e h = cc

module _ {K V : Type 0} where
  abbrev closed_behind : Txn → Written K V (Unit {0}) → Result (Contents K V × List (Notice V))
  closed_behind t r = do c ← close_write t r.store; ok (c.2.kept, map (λ n. n.1) r.told)

  -- `Write`, one call, and `Close`.
  abbrev transact : Bytes → Write V → Contents K V → Result (Contents K V × List (Notice V))
  transact id w k = elim (write id (unlocked k)) [
    | none ↦ ok (k, [])
    | some (t, st) ↦ do r ← change defaults t w st; closed_behind t r
  ]

  abbrev value_at : Contents K V → Bytes → Option V
  value_at k id = find id k.resources

  Refined-Explained :
      (id : Bytes) (w : Write V) (old : Option V) (st : MockStore K V (Unit {0}))
      (r : Written K V (Unit {0}))
      → st.on_change_callbacks ≡ tt ∷ []
      → find id st.kept.resources ≡ old
      → Refined id w old st r
      → Explained id (value_at st.kept) (map (λ n. n.1) r.told) (value_at r.store.kept)
  Refined-Explained id w old st r one h (e, f, t, same) = at_outcome (outcome w old) refl
    where
      at_outcome :
          (o : Option StoreError × Option V)
          → outcome w old ≡ o
          → Explained id (value_at st.kept) (map (λ n. n.1) r.told) (value_at r.store.kept)
      at_outcome (none, new) q =
          inr (rw (t, e, q, one, h, f id, str_eq_refl id, q) refl, λ j d. f j ∙ rw d refl)
      at_outcome (some err, new) q = inl (
        rw (t, e, q) refl,
        λ j.
            f j
            ∙ rw (failed-outcome w old err (ap (λ p. p.0) q))
                (sym (find_unchanged id j st.kept.resources old h)),
      )

  close_write-ok :
      (t : Txn) (st : MockStore K V (Unit {0}))
      → t.closed ≡ false
      → st.mutex.writing ≡ true
      → close_write t st
        ≡ ok (
          none,
          record t { closed = true },
          record st { mutex = record st.mutex { writing = false } },
        )
  unfolding close_write close_with unlock
  close_write-ok t st h k = rw (h, k) refl

  transact-Explained :
      (id : Bytes) (w : Write V) (k : Contents K V)
      → is_nil id ≡ false
      → (k' : Contents K V) × (notices : List (Notice V)) × (transact id w k ≡ ok (k', notices))
        × Explained id (value_at k) notices (value_at k')
  unfolding write is_free is_unread
  transact-Explained id w k h =
      let t : Txn = record { id = id; closed = false } in
      let st : MockStore K V (Unit {0}) = record (unlocked k) {
        mutex = record { readers = 0; writing = true };
      } in
      let (r, e, (f, keys, told, same)) = change-Refined defaults t w st refl refl refl h in
      (
        r.store.kept,
        map (λ n. n.1) r.told,
        rw (e, close_write-ok t r.store refl (ap (λ s. s.mutex.writing) same)) refl,
        Refined-Explained id w (find id k.resources) st r refl refl (f, keys, told, same),
      )

pub mock_contract : {K V : Type 0} → Contract (Contents K V) V
mock_contract = record { value_at = value_at; write = transact; explained = transact-Explained }
