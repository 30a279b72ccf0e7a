-- ===== src/Store/Model/Changed.antt =====
-- What a change event holds for a key, and what it makes of a client's copy.
use go_res.Base.{
  if◌then◌else◌, str_eq, eq_of_str_eq, Bytes, Bool, true, false, not, ◌&&◌, ◌||◌, Option, none,
  some, List, [], ◌∷◌, ◌≡◌, refl, sym, ◌∙◌, ap, ◌⊎◌, inl, inr, Bool-cases, arith,
}
use go_res.Params.{insert, lookup, lookup-insert-eq}
use go_res.Store.Model.{
  Change, delete_value, set_to, is_missing, differs, removed, modified, model_diff,
}

abbrev pub has_key : {A : Type 0} → Bytes → List (Bytes × A) → Bool
has_key k [] = false
has_key k ((j, v) ∷ m) = str_eq j k || has_key k m

-- A Go map has a key once.
abbrev pub distinct_keys : {A : Type 0} → List (Bytes × A) → Bool
distinct_keys [] = true
distinct_keys ((k, v) ∷ m) = not (has_key k m) && distinct_keys m

module _ {V : Type 0} (equal : V → V → Bool) where
  -- What the event holds for a property with the values before and after.
  abbrev pub change_of : Option V → Option V → Option (Change V)
  change_of none none = none
  change_of (some ov) none = some delete_value
  change_of none (some v) = some (set_to v)
  change_of (some ov) (some v) = if equal v ov then none else some (set_to v)

  has_key-lookup :
      {A : Type 0} (k : Bytes) (m : List (Bytes × A))
      → has_key k m ≡ not (is_missing equal (lookup k m))
  unfolding lookup is_missing
  has_key-lookup k [] = refl
  has_key-lookup k ((j, v) ∷ m) = ground (arith, has_key-lookup k m)

  lookup-none :
      {A : Type 0} (k : Bytes) (m : List (Bytes × A)) → has_key k m ≡ false → lookup k m ≡ none
  unfolding lookup
  lookup-none k [] h = refl
  lookup-none k ((j, v) ∷ m) h = ground (arith, lookup-none k m)

  same_key :
      {A : Type 0} (j k : Bytes) (m : List (Bytes × A))
      → str_eq j k ≡ true
      → lookup j m ≡ lookup k m
  same_key j k m h = ap (λ i. lookup i m) (eq_of_str_eq j k h)

  removed-lookup :
      (after before : List (Bytes × V)) (ch : List (Bytes × Change V)) (k : Bytes)
      → lookup k (removed equal after before ch) ≡ (
          if has_key k before && is_missing equal (lookup k after)
          then some delete_value
          else lookup k ch)
  unfolding removed
  removed-lookup after [] ch k = refl
  removed-lookup after ((j, v) ∷ before) ch k =
      elim (Bool-cases (is_missing equal (lookup j after))) [
        | inl e ↦ rw e (
            ground (
              arith,
              removed-lookup after before (insert j delete_value ch) k,
              lookup-insert-eq j k delete_value ch,
              same_key j k after,
            ))
        | inr e ↦ rw e (ground (arith, removed-lookup after before ch k, same_key j k after))
      ]

  -- What the second loop leaves for a key with the value `o` after.
  abbrev after_loop : Option V → Option V → Option (Change V) → Option (Change V)
  after_loop ov none held = held
  after_loop ov (some v) held = if differs equal v ov then some (set_to v) else held

  written :
      (before : List (Bytes × V)) (ch : List (Bytes × Change V)) (j k : Bytes) (v : V)
      → lookup k (if differs equal v (lookup j before) then insert j (set_to v) ch else ch)
        ≡ (if str_eq j k && differs equal v (lookup k before) then some (set_to v) else lookup k ch)
  written before ch j k v = elim (Bool-cases (differs equal v (lookup j before))) [
    | inl d ↦ rw d (ground (arith, lookup-insert-eq j k (set_to v) ch, same_key j k before))
    | inr d ↦ rw d (ground (arith, same_key j k before))
  ]

  modified-lookup :
      (before after : List (Bytes × V)) (ch : List (Bytes × Change V)) (k : Bytes)
      → distinct_keys after ≡ true
      → lookup k (modified equal before after ch)
        ≡ after_loop (lookup k before) (lookup k after) (lookup k ch)
  unfolding modified lookup
  modified-lookup before [] ch k h = refl
  modified-lookup before ((j, v) ∷ after) ch k h =
      let g : distinct_keys after ≡ true = ground arith in
      let n : has_key j after ≡ false = ground arith in
      modified-lookup before after _ k g
      ∙ (ap (after_loop (lookup k before) (lookup k after)) (written before ch j k v)
          ∙ (elim (Bool-cases (str_eq j k)) [
            | inl e ↦
                let z : lookup k after ≡ none =
                  sym (same_key j k after e) ∙ lookup-none j after n in
                rw (e, z) refl
            | inr e ↦ rw e refl
          ]))

  -- The copy of a client that receives the change of a property.
  abbrev pub received : Option (Change V) → Option V → Option V
  received none held = held
  received (some delete_value) held = none
  received (some (set_to v)) held = some v

  -- Both have no value, or the values are the same, or equal ones.
  abbrev pub AgreeAt : Option V → Option V → Type 0
  AgreeAt none none = Unit
  AgreeAt none (some y) = ⊥
  AgreeAt (some x) none = ⊥
  AgreeAt (some x) (some y) = (x ≡ y) ⊎ (equal y x ≡ true)

  change_of-AgreeAt : (ov o : Option V) → AgreeAt (received (change_of ov o) ov) o
  change_of-AgreeAt none none = tt
  change_of-AgreeAt (some ov) none = tt
  change_of-AgreeAt none (some v) = inl refl
  change_of-AgreeAt (some ov) (some v) = elim (Bool-cases (equal v ov)) [
    | inl e ↦ rw e (inr e)
    | inr e ↦ rw e (inl refl)
  ]

  loops_at :
      (ov o : Option V)
      → after_loop ov o
          (if not (is_missing equal ov) && is_missing equal o then some delete_value else none)
        ≡ change_of ov o
  unfolding differs is_missing
  loops_at none none = refl
  loops_at (some ov) none = refl
  loops_at none (some v) = refl
  loops_at (some ov) (some v) = elim (Bool-cases (equal v ov)) [
    | inl e ↦ rw e refl
    | inr e ↦ rw e refl
  ]

  diff_loops :
      (before after : List (Bytes × V)) (k : Bytes)
      → after_loop (lookup k before) (lookup k after) (
          if has_key k before && is_missing equal (lookup k after) then some delete_value else none)
        ≡ change_of (lookup k before) (lookup k after)
  diff_loops before after k =
      rw (has_key-lookup k before) (loops_at (lookup k before) (lookup k after))

  -- If the model after has no key twice, the change event holds a property exactly if its value was
  -- deleted, is new or differs from the one before, and a client that does what the event says has a
  -- copy that agrees, property by property, with the model after.
  pub model_diff-change_of :
      (before after : List (Bytes × V)) (k : Bytes)
      → distinct_keys after ≡ true
      → (lookup k (model_diff equal before after) ≡ change_of (lookup k before) (lookup k after))
        × AgreeAt
            (received (lookup k (model_diff equal before after)) (lookup k before))
            (lookup k after)
  unfolding model_diff lookup
  model_diff-change_of before after k h =
      let e : lookup k (model_diff equal before after)
          ≡ change_of (lookup k before) (lookup k after) =
        modified-lookup before after (removed equal after before []) k h
        ∙ (ap (after_loop (lookup k before) (lookup k after)) (removed-lookup after before [] k)
            ∙ diff_loops before after k) in
      (e, rw e (change_of-AgreeAt (lookup k before) (lookup k after)))
