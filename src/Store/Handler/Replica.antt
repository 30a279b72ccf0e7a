-- ===== src/Store/Handler/Replica.antt =====
-- A client that gets a resource, and follows the events that changeHandler sends for it while the
-- store behind the handler is written to, keeps what getResource answers.
use mathlib.Core.Path.{subst}
use go_res.Base.{
  str_eq, str_eq_refl, eq_of_str_eq, Bytes, Bool, true, false, Bool-cases, and-eq-true, all, Option,
  some, List, [], ◌∷◌, ◌++◌, Result, ok, ◌>>=◌, ◌≡◌, refl, sym, ◌∙◌, ap, inl, inr,
}
use go_res.Pattern.Valid.{is_nil}
use go_res.Store.Contract.{Write, Notice, Contract}
use go_res.Store.Handler.{
  Transformer, StoreHandler, Codec, StoreEvent, Handled, ignored, logged, sent, get_value,
  change_handler,
}
use go_res.Store.Handler.InStep.{Content, is_map, Follows, content, change_handler-Follows}
use go_res.Store.Handler.Copy.{Copy, Agrees, Led, Follows-Led, follow_events, follow_events-append}

module _ {V : Type 0} (codec : Codec V) (has_resource : Bytes → Bool) (o : StoreHandler V) where
  abbrev pub emitted : Handled V → List (Bytes × StoreEvent V)
  emitted ignored = []
  emitted logged = []
  emitted (sent rid e) = (rid, e) ∷ []

  -- The handler is the callback of the store.
  unfoldable pub events_of : List (Notice V) → Result (List (Bytes × StoreEvent V))
  events_of [] = ok []
  events_of (n ∷ ns) = do
    h ← change_handler codec has_resource o n.id n.before n.after
    es ← events_of ns
    ok (emitted h ++ es)

  -- Write transactions, one behind the other, and the events that are sent.
  unfoldable pub write_all :
      {S : Type 0}
      → Contract S V
      → List (Bytes × Write V)
      → S
      → Result (S × List (Bytes × StoreEvent V))
  unfolding events_of
  write_all st [] s = ok (s, [])
  write_all st ((id, w) ∷ ws) s = do
    r ← st.write id w s
    es ← events_of r.1
    rest ← write_all st ws r.0
    ok (rest.0, es ++ rest.1)

  module _ {S : Type 0} (st : Contract S V) (t : Transformer V) (has_def : o.trans ≡ some t)
      (served : Bytes → Bool) (rid_of : Bytes → Bytes) (shown : Bytes → Option V → Content)
      (answered : (id : Bytes) (v : Option V)
        → served id ≡ true
        → (a : V) × (get_value o id v ≡ some a)
          × (content codec has_resource o.type a ≡ some (shown id v))
          × (is_map (shown id v) ≡ true)
          × (t.id_to_rid id a ≡ rid_of id))
      (named : (id : Bytes)
        → served id ≡ true
        → (is_nil id ≡ false) × (is_nil (rid_of id) ≡ false) × (has_resource (rid_of id) ≡ true))
      (apart : (i j : Bytes)
        → served i ≡ true
        → served j ≡ true
        → str_eq (rid_of i) (rid_of j) ≡ true
        → str_eq i j ≡ true) where
    -- The events lead each client from the state `s` to the state `s'`.
    abbrev Kept : S → List (Bytes × StoreEvent V) → S → Type 0
    Kept s es s' =
        (id : Bytes) (c : Copy)
        → served id ≡ true
        → Agrees c (shown id (st.value_at s id))
        → Led (follow_events (rid_of id) es c) (shown id (st.value_at s' id))

    change-Follows :
        (id : Bytes) (before after : Option V)
        → served id ≡ true
        → (e : StoreEvent V) × (change_handler codec has_resource o id before after
            ≡ ok (sent (rid_of id) e))
          × Follows (shown id before) e (shown id after)
    change-Follows id before after h =
        let (b, gb, cb, mb, rb) = answered id before h in
        let (a, ga, ca, ma, ra) = answered id after h in
        let (n, r, there) = named id h in
        let (e, p, f) =
          change_handler-Follows codec has_resource o t id before after b a (shown id before)
            (shown id after) has_def gb ga cb ca ma (rw ra r) (rw ra there) in
        (e, p ∙ ap (λ z. ok (sent z e)) ra, f)

    -- The client of the resource follows the event, and no other client sees it.
    told_one :
        (id : Bytes) (s s' : S) (e : StoreEvent V)
        → served id ≡ true
        → Follows (shown id (st.value_at s id)) e (shown id (st.value_at s' id))
        → ((j : Bytes) → str_eq id j ≡ false → st.value_at s' j ≡ st.value_at s j)
        → Kept s ((rid_of id, e) ∷ []) s'
    unfolding follow_events
    told_one id s s' e h f others j c k agree = elim (Bool-cases (str_eq id j)) [
      | inl same ↦
          subst
            (λ i.
              Agrees c (shown i (st.value_at s i))
              → Led (follow_events (rid_of i) ((rid_of id, e) ∷ []) c) (shown i (st.value_at s' i)))
            (eq_of_str_eq id j same)
            (λ at_id.
              let (c', q, a) = Follows-Led c _ _ e at_id f in
              (c', rw (str_eq_refl (rid_of id), q) refl, a))
            agree
      | inr other ↦
          let n : str_eq (rid_of id) (rid_of j) ≡ false =
            elim (Bool-cases (str_eq (rid_of id) (rid_of j))) [
              | inl r ↦ cc (apart id j h k r, other)
              | inr r ↦ r
            ] in
          (c, rw n refl, subst (λ v. Agrees c (shown j v)) (sym (others j other)) agree)
    ]

    step-Kept :
        (id : Bytes) (w : Write V) (s : S)
        → served id ≡ true
        → (s' : S) × (notices : List (Notice V)) × (es : List (Bytes × StoreEvent V)) × (st.write id
              w s
            ≡ ok (s', notices))
          × (events_of notices ≡ ok es)
          × Kept s es s'
    unfolding events_of follow_events
    step-Kept id w s h =
        let (s', notices, p, x) = st.explained id w s (named id h).0 in
        elim x [
          | inl (silent, same) ↦ (
            s',
            notices,
            [],
            p,
            rw silent refl,
            λ j c k agree. (c, refl, subst (λ v. Agrees c (shown j v)) (sym (same j)) agree),
          )
          | inr (told, others) ↦
              let (e, q, f) = change-Follows id (st.value_at s id) (st.value_at s' id) h in
              (
                s',
                notices,
                (rid_of id, e) ∷ [],
                p,
                rw (told, q) refl,
                told_one id s s' e h f others,
              )
        ]

    -- For a handler with a transformer, and identifiers that are not empty, that name different
    -- resources of the service, and of which getResource answers each value, and the lack of one, with
    -- what can be decoded to the handler's type: write transactions at such identifiers all return,
    -- and a client that has the answer for a resource before them, and follows the events that were
    -- sent for it meanwhile, can do so, and has at the end a copy that agrees with the answer then.
    pub write_all-Kept :
        (ws : List (Bytes × Write V)) (s : S)
        → all (λ w. served w.0) ws ≡ true
        → (s' : S) × (es : List (Bytes × StoreEvent V)) × (write_all st ws s ≡ ok (s', es))
          × ((id : Bytes) (c : Copy)
              → served id ≡ true
              → Agrees c (shown id (st.value_at s id))
              → Led (follow_events (rid_of id) es c) (shown id (st.value_at s' id)))
    unfolding write_all follow_events
    write_all-Kept [] s h = (s, [], refl, λ id c k agree. (c, refl, agree))
    write_all-Kept ((id, w) ∷ ws) s h =
        let (hw, hws) = and-eq-true (served id) (all (λ w. served w.0) ws) h in
        let (s1, notices, es, p, q, keep) = step-Kept id w s hw in
        let (s2, fs, r, keeps) = write_all-Kept ws s1 hws in
        (
          s2,
          es ++ fs,
          rw (p, q, r) refl,
          λ j c k agree.
              let (d, q', a) = keep j c k agree in
              let (d', q'', a') = keeps j d k a in
              (d', follow_events-append (rid_of j) es fs c d q' ∙ q'', a'),
        )
