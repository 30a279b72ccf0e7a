-- ===== src/Store/Mock/Locking/Alone.antt =====
-- A write transaction that is open is alone, and the lock is what the open transactions make it.
use go_res.Base.{
  ℕ, zero, suc, ◌+◌, Bytes, true, false, Bool-cases, not, and-eq-true, Option, none, some,
  eq_of_some, none-ne-some, List, ◌∷◌, ◌++◌, Result, ok, panic, ok_injective, >>=-eq-ok,
  unlock_of_unlocked, ◌≡◌, refl, sym, ap, ◌∙◌, ◌⊎◌, inl, inr, arith,
}
use go_res.Store.Contract.{StoreError, already_closed}
use go_res.Store.Mock.{
  Overrides, Mutex, MockStore, Txn, read, write, close_read, close_write, close_with, r_unlock,
  unlock, one_less, is_free, is_unread, new_store,
}
use go_res.Store.Mock.Calls.Mutex.{change-mutex}
use go_res.Store.Mock.Locking.{
  Use, Step, read_begun, write_begun, read_closed, write_closed, called, Reach, fresh, next, one_if,
  open_count, Locked, count_closed, count_open,
}

one_less-ok :
    (n : ℕ) (m m' : Mutex) → one_less n m ≡ ok m' → (n ≡ suc m'.readers) × (m'.writing ≡ m.writing)
unfolding one_less
one_less-ok zero m m' h = cc
one_less-ok (suc n) m m' h =
    let p = ok_injective h in (ap (λ x. suc x.readers) p, sym (ap (λ x. x.writing) p))

one_less-can : (n k : ℕ) (m : Mutex) → n ≡ suc k → (m' : Mutex) × (one_less n m ≡ ok m')
unfolding one_less
one_less-can zero k m h = absurd (omega (arith, h))
one_less-can (suc n) k m h = (record m { readers = n }, refl)

unlock-can : (m : Mutex) (k : ℕ) → one_if m.writing ≡ suc k → (m' : Mutex) × (unlock m ≡ ok m')
unfolding unlock one_if
unlock-can m k h = elim (Bool-cases m.writing) [
  | inl w ↦ (record m { writing = false }, rw w refl)
  | inr w ↦ absurd (omega (arith, sym (ap one_if w) ∙ h))
]

unlock-ok :
    (m m' : Mutex)
    → unlock m ≡ ok m'
    → (m.writing ≡ true) × (m'.writing ≡ false) × (m'.readers ≡ m.readers)
unfolding unlock
unlock-ok m m' h = elim (Bool-cases m.writing) [
  | inl w ↦
      let p = ok_injective (rw w at h) in
      (w, sym (ap (λ x. x.writing) p), sym (ap (λ x. x.readers) p))
  | inr w ↦ absurd (no_panic (rw w at h))
]
  where
    no_panic : panic unlock_of_unlocked ≡ ok m' → ⊥
    no_panic g = cc

module _ {K V L : Type 0} where
  abbrev Released : (Mutex → Result Mutex) → Txn → MockStore K V L → Txn → MockStore K V L → Type 0
  Released release t st t' st' =
      ((t.closed ≡ true) × (t'.closed ≡ true) × (st' ≡ st))
      ⊎ ((t.closed ≡ false) × (t'.closed ≡ true) × (release st.mutex ≡ ok st'.mutex))

  close_with-Released :
      (release : Mutex → Result Mutex) (t t' : Txn) (st st' : MockStore K V L)
      (e : Option StoreError)
      → close_with release t st ≡ ok (e, t', st')
      → Released release t st t' st'
  unfolding close_with
  close_with-Released release t t' st st' e h = elim (Bool-cases t.closed) [
    | inl c ↦
        let p = ok_injective (rw c at h) in
        inl (c, sym (ap (λ x. x.1.closed) p), sym (ap (λ x. x.2) p))
    | inr c ↦
        let g = rw c at h in
        let (m, q, p) = >>=-eq-ok (release st.mutex) _ g in
        let p' : (none, record t { closed = true }, record st { mutex = m }) ≡ (e, t', st') =
          ok_injective p in
        inr (c, sym (ap (λ x. x.1.closed) p'), q ∙ ap (λ x. ok x.2.mutex) p')
  ]

  read-begun :
      (id : Bytes) (t : Txn) (st st' : MockStore K V L)
      → read id st ≡ some (t, st')
      → (t.closed ≡ false)
        × (st.mutex.writing ≡ false)
        × (st'.mutex.writing ≡ false)
        × (st'.mutex.readers ≡ suc st.mutex.readers)
  unfolding read
  read-begun id t st st' h = elim (Bool-cases st.mutex.writing) [
    | inl w ↦ absurd (none-ne-some (rw w at h))
    | inr w ↦
        let p = eq_of_some (rw w at h) in
        (
          sym (ap (λ x. x.0.closed) p),
          w,
          sym (ap (λ x. x.1.mutex.writing) p),
          sym (ap (λ x. x.1.mutex.readers) p),
        )
  ]

  write-begun :
      (id : Bytes) (t : Txn) (st st' : MockStore K V L)
      → write id st ≡ some (t, st')
      → (t.closed ≡ false)
        × (st.mutex.readers ≡ 0)
        × (st.mutex.writing ≡ false)
        × (st'.mutex.writing ≡ true)
        × (st'.mutex.readers ≡ st.mutex.readers)
  unfolding write is_free is_unread
  write-begun id t st st' h = elim (Bool-cases (is_free st.mutex)) [
    | inr w ↦ absurd (none-ne-some (rw w at h))
    | inl w ↦
        let (n, f) = and-eq-true (is_unread st.mutex.readers) (not st.mutex.writing) w in
        let p = eq_of_some (rw w at h) in
        (
          sym (ap (λ x. x.0.closed) p),
          unread st.mutex.readers n,
          ground arith,
          sym (ap (λ x. x.1.mutex.writing) p),
          sym (ap (λ x. x.1.mutex.readers) p),
        )
  ]
    where
      unread : (n : ℕ) → is_unread n ≡ true → n ≡ 0
      unread zero e = refl
      unread (suc n) e = cc

  Step-Locked : (o : Overrides K V) (u u' : Use K V L) → Step o u u' → Locked u → Locked u'
  unfolding open_count one_if close_read close_write r_unlock
  Step-Locked o u u' (read_begun id {t} {st} h) (a, b, c) =
      let (t0, w, w', n) = read-begun id t u.store st h in
      (rw t0 (omega (arith, a, n)), rw w' (b ∙ ap one_if w), λ e. cc (e, w'))
  Step-Locked o u u' (write_begun id {t} {st} h) (a, b, c) =
      let (t0, z, w, w', n) = write-begun id t u.store st h in
      (omega (arith, a, n), rw (t0, w') (omega (arith, b ∙ ap one_if w)), λ e. n ∙ z)
  Step-Locked o u u' (read_closed xs ys t {t'} {e} {st} m h) (a, b, c) =
      elim (close_with-Released r_unlock t t' u.store st e h) [
        | inl (x, x', same) ↦ rw same (
          count_closed xs ys t' x' ∙ sym (count_closed xs ys t x) ∙ ap open_count (sym m) ∙ a,
          b,
          c,
        )
        | inr (x, x', r) ↦
            let (n, w) = one_less-ok u.store.mutex.readers u.store.mutex st.mutex r in
            (
              omega (arith, count_closed xs ys t' x', count_open xs ys t x, ap open_count m, a, n),
              b ∙ ap one_if (sym w),
              λ e. absurd (omega (arith, n, c (sym w ∙ e))),
            )
      ]
  Step-Locked o u u' (write_closed xs ys t {t'} {e} {st} m h) (a, b, c) =
      elim (close_with-Released unlock t t' u.store st e h) [
        | inl (x, x', same) ↦ rw same (
          a,
          count_closed xs ys t' x' ∙ sym (count_closed xs ys t x) ∙ ap open_count (sym m) ∙ b,
          c,
        )
        | inr (x, x', r) ↦
            let (w, w', n) = unlock-ok u.store.mutex st.mutex r in
            (
              a ∙ sym n,
              rw w' (
                  omega (
                    arith,
                    count_closed xs ys t' x',
                    count_open xs ys t x,
                    ap open_count m,
                    b ∙ ap one_if w,
                  )),
              λ e. cc (e, w'),
            )
      ]
  Step-Locked o u u' (called xs ys t w {r} m h) (a, b, c) =
      let k = change-mutex o t w u.store r h in rw k (a, b, c)

  Reach-Locked : (o : Overrides K V) (outer : K) (u : Use K V L) → Reach o outer u → Locked u
  unfolding open_count one_if new_store
  Reach-Locked o outer u fresh = (refl, refl, λ e. refl)
  Reach-Locked o outer u' (next {u} r s) = Step-Locked o u u' s (Reach-Locked o outer u r)

  close_with-ok :
      (release : Mutex → Result Mutex) (t : Txn) (st : MockStore K V L)
      → (t.closed ≡ false → (m : Mutex) × (release st.mutex ≡ ok m))
      → (r : Option StoreError × Txn × MockStore K V L) × (close_with release t st ≡ ok r)
  unfolding close_with
  close_with-ok release t st can = elim (Bool-cases t.closed) [
    | inl c ↦ ((some already_closed, t, st), rw c refl)
    | inr c ↦
        let (m, e) = can c in
        ((none, record t { closed = true }, record st { mutex = m }), rw (c, e) refl)
  ]

  -- However transactions are begun, called and closed on a new store: while a write transaction is
  -- not closed, it is the only transaction that is not, and Close of any transaction returns, without
  -- the fatal error of unlocking a mutex that is not locked.
  pub Reach-locked :
      (o : Overrides K V) (outer : K) (u : Use K V L)
      → Reach o outer u
      → ((open_count u.writers ≡ 0) ⊎ ((open_count u.writers ≡ 1) × (open_count u.readers ≡ 0)))
        × ((xs ys : List Txn) (t : Txn)
            → u.readers ≡ xs ++ t ∷ ys
            → (r : Option StoreError × Txn × MockStore K V L) × (close_read t u.store ≡ ok r))
        × ((xs ys : List Txn) (t : Txn)
            → u.writers ≡ xs ++ t ∷ ys
            → (r : Option StoreError × Txn × MockStore K V L) × (close_write t u.store ≡ ok r))
  unfolding close_read close_write r_unlock one_less unlock one_if
  Reach-locked o outer u r =
      let (a, b, c) = Reach-Locked o outer u r in
      (
        elim (Bool-cases u.store.mutex.writing) [
          | inl w ↦ inr (b ∙ ap one_if w, a ∙ c w)
          | inr w ↦ inl (b ∙ ap one_if w)
        ],
        λ xs ys t m. close_with-ok r_unlock t u.store (λ x.
            one_less-can u.store.mutex.readers (open_count xs + open_count ys) u.store.mutex
              (sym a ∙ ap open_count m ∙ count_open xs ys t x)),
        λ xs ys t m. close_with-ok unlock t u.store (λ x.
            unlock-can u.store.mutex (open_count xs + open_count ys)
              (sym b ∙ ap open_count m ∙ count_open xs ys t x)),
      )
