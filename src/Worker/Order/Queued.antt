-- ===== src/Worker/Order/Queued.antt =====
-- A callback that is queued is pending behind all others of its identifier.
use mathlib.Core.Path.{subst}
use go_res.Base.{
  ℕ, zero, suc, ◌==◌, ==_iff, str_eq, str_eq_refl, eq_of_str_eq, length, get_elem?, Bytes, true,
  false, Bool-cases, Option, none, some, List, [], ◌∷◌, ◌++◌, append-nil, ◌≡◌, refl, sym, ◌∙◌, ap,
  arith, inl, inr,
}
use go_res.Params.{lookup}
use go_res.Pattern.Valid.{is_nil}
use go_res.Worker.{
  Work, Worker, State, set, append_callback, update, enqueue_new, enqueue_at, enqueue,
}
use go_res.Worker.Exclusion.{IsValid}
use go_res.Worker.Lists.{weight}
use go_res.Worker.Order.{progress, of_group, pending_work, pending_at, pending}
use go_res.Worker.Order.Progress.{
  progress-zero, progress-set, progress-cases, get_elem?-update, map_work, drop-append_one,
}
use go_res.Worker.Order.Entries.{HasWid, IsWithin, HasEntries}

pub nil_differs : (k k' : Bytes) → is_nil k ≡ true → is_nil k' ≡ false → str_eq k k' ≡ false
unfolding str_eq
nil_differs [] [] h h' = cc
nil_differs [] (c ∷ k') h h' = refl
nil_differs (c ∷ k) k' h h' = cc

module _ {C : Type 0} where
  -- Two identifiers do not share a work.
  HasWid-same : (k k' : Bytes) (o : Option (Work C)) → HasWid k o → HasWid k' o → k ≡ k'
  HasWid-same k k' none h h' = absurd h
  HasWid-same k k' (some w) h h' = sym h ∙ h'

  -- A change of the work of another identifier leaves what is pending.
  pending_at-update :
      (heap : List (Work C)) (ws : List Worker) (p : ℕ) (cb : C) (o : Option ℕ)
      → ((q : ℕ) → o ≡ some q → (q == p) ≡ false)
      → pending_at (update heap p (append_callback cb)) ws o ≡ pending_at heap ws o
  pending_at-update heap ws p cb none h = refl
  pending_at-update heap ws p cb (some q) h =
      rw (get_elem?-update heap p q (append_callback cb), h q refl)

  pub pending_at-set :
      (heap : List (Work C)) (ws : List Worker) (j : ℕ) (u v : Worker) (o : Option ℕ)
      → get_elem? ws j ≡ some u
      → ((q : ℕ) → o ≡ some q → (weight q u ≡ 0) × (weight q v ≡ 0))
      → pending_at heap (set ws j v) o ≡ pending_at heap ws o
  pending_at-set heap ws j u v none e h = refl
  pending_at-set heap ws j u v (some q) e h =
      rw (progress-set q j ws u v e (h q refl).0 (h q refl).1)

  pending_at-append :
      (heap : List (Work C)) (ws : List Worker) (w : Work C) (k : Bytes) (o : Option ℕ)
      → ((q : ℕ) → o ≡ some q → HasWid k (get_elem? heap q))
      → pending_at (heap ++ w ∷ []) ws o ≡ pending_at heap ws o
  pending_at-append heap ws w k none h = refl
  pending_at-append heap ws w k (some q) h =
      ap (pending_work (progress q ws)) (there heap q (h q refl))
    where
      there :
          (heap : List (Work C)) (q : ℕ)
          → HasWid k (get_elem? heap q)
          → get_elem? (heap ++ w ∷ []) q ≡ get_elem? heap q
      there [] q h = absurd h
      there (v ∷ heap) zero h = refl
      there (v ∷ heap) (suc q) h = there heap q h

  appended_work :
      (k : ℕ) (cb : C) (o : Option (Work C)) (wid : Bytes)
      → HasWid wid o
      → IsWithin k o
      → pending_work k (map_work (append_callback cb) o) ≡ pending_work k o ++ cb ∷ []
  unfolding append_callback
  appended_work k cb none wid h l = absurd h
  appended_work k cb (some w) wid h l = drop-append_one k w.queue cb l

  progress-IsWithin :
      (s : State C) (p : ℕ) → HasEntries s → IsWithin (progress p s.workers) (get_elem? s.heap p)
  progress-IsWithin s p h = elim (progress-cases p s.workers) [
    | inl e ↦ rw e (zero_within (get_elem? s.heap p))
    | inr (j, idx, e, d) ↦ rw d (h.within j p idx e)
  ]
    where
      zero_within : (o : Option (Work C)) → IsWithin 0 o
      zero_within none = tt
      zero_within (some w) = omega arith

  module _ (wid : Bytes) (named : is_nil wid ≡ false) where
    enqueue_some-pending :
        (wid' : Bytes) (cb : C) (s : State C) (p : ℕ)
        → HasEntries s
        → lookup wid' s.rwork ≡ some p
        → pending wid (enqueue_at wid' cb s (some p))
          ≡ pending wid s ++ of_group wid ((wid', cb) ∷ [])
    unfolding enqueue_at
    enqueue_some-pending wid' cb s p h e = elim (Bool-cases (str_eq wid' wid)) [
      | inl y ↦
          let here_p : lookup wid s.rwork ≡ some p =
            subst (λ k. lookup k s.rwork ≡ some p) (eq_of_str_eq wid' wid y) e in
          rw (y, here_p, get_elem?-update s.heap p p (append_callback cb), self p)
            (appended_work (progress p s.workers) cb (get_elem? s.heap p) wid (h.entry wid p here_p)
              (progress-IsWithin s p h))
      | inr y ↦
          rw (y, append-nil)
            (pending_at-update s.heap s.workers p cb (lookup wid s.rwork) (other y))
    ]
      where
        self : (p : ℕ) → (p == p) ≡ true
        self p = ground arith

        other : str_eq wid' wid ≡ false → (q : ℕ) → lookup wid s.rwork ≡ some q → (q == p) ≡ false
        other y q g = elim (Bool-cases (q == p)) [
          | inl z ↦
              let same = (==_iff q p).0 z in
              let k =
                HasWid-same wid' wid (get_elem? s.heap p) (h.entry wid' p e)
                  (subst (λ i. HasWid wid (get_elem? s.heap i)) same (h.entry wid q g)) in
              absurd (ground (arith, rw k at y, str_eq_refl wid))
          | inr z ↦ z
        ]

    enqueue_new-pending :
        (wid' : Bytes) (cb : C) (s : State C)
        → IsValid s
        → HasEntries s
        → (is_nil wid' ≡ false → lookup wid' s.rwork ≡ none)
        → pending wid (enqueue_new wid' cb s) ≡ pending wid s ++ of_group wid ((wid', cb) ∷ [])
    unfolding enqueue_new lookup
    enqueue_new-pending wid' cb s v h fresh = elim (Bool-cases (is_nil wid')) [
      | inl z ↦
          let differ : str_eq wid' wid ≡ false = nil_differs wid' wid z named in
          rw (z, differ, append-nil) unchanged
      | inr z ↦ elim (Bool-cases (str_eq wid' wid)) [
        | inl y ↦
            let e : lookup wid s.rwork ≡ none =
              subst (λ k. lookup k s.rwork ≡ none) (eq_of_str_eq wid' wid y) (fresh z) in
            rw
              (
                z,
                y,
                e,
                last s.heap,
                progress-zero (length s.heap) s.workers
                    (omega (arith, v.bounded (length s.heap) (omega arith))),
              )
              refl
        | inr y ↦ rw (z, y, append-nil) unchanged
      ]
    ]
      where
        fresh_work : Work C
        fresh_work = record { wid = wid'; queue = cb ∷ [] }

        unchanged :
            pending_at (s.heap ++ fresh_work ∷ []) s.workers (lookup wid s.rwork)
            ≡ pending_at s.heap s.workers (lookup wid s.rwork)
        unchanged =
            pending_at-append s.heap s.workers fresh_work wid (lookup wid s.rwork)
              (λ q e. h.entry wid q e)

        last :
            (heap : List (Work C))
            → get_elem? (heap ++ fresh_work ∷ []) (length heap) ≡ some fresh_work
        last [] = refl
        last (w ∷ heap) = last heap

    pub enqueue-pending :
        (wid' : Bytes) (cb : C) (s : State C)
        → IsValid s
        → HasEntries s
        → pending wid (enqueue wid' cb s) ≡ pending wid s ++ of_group wid ((wid', cb) ∷ [])
    unfolding enqueue enqueue_at
    enqueue-pending wid' cb s v h = elim (Bool-cases (is_nil wid')) [
      | inl z ↦ rw z (enqueue_new-pending wid' cb s v h (λ n. absurd (ground arith)))
      | inr z ↦ rw z (at (lookup wid' s.rwork) refl)
    ]
      where
        at :
            (o : Option ℕ)
            → lookup wid' s.rwork ≡ o
            → pending wid (enqueue_at wid' cb s o) ≡ pending wid s ++ of_group wid ((wid', cb) ∷ [])
        at none e = enqueue_new-pending wid' cb s v h (λ n. e)
        at (some p) e = enqueue_some-pending wid' cb s p h e
