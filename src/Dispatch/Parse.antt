-- ===== src/Dispatch/Parse.antt =====
-- The subject of a request is parsed to the parts that it was made of.
use go_res.Base.{
  ℕ, if◌then◌else◌, ◌==◌, Bytes, Bool, true, false, not, ◌&&◌, ◌||◌, none, some, [], ◌∷◌, ◌++◌, any,
  ◌≡◌, refl, ap, sym, arith, and-eq-true, Bool-cases, inl, inr,
}
use go_res.Parts.{btsep}
use go_res.Pattern.Valid.{is_nil}
use go_res.Dispatch.{
  split_first, split_last, Subject, has_method, with_method, with_type, parse_subject,
}

-- The subject that the protocol has for a request.
unfoldable pub print_subject : Subject → Bytes
print_subject s =
    if has_method s.rtype
    then s.rtype ++ btsep ∷ (s.rname ++ btsep ∷ s.method)
    else s.rtype ++ btsep ∷ s.rname

abbrev pub is_dot : ℕ → Bool
is_dot c = c == btsep

-- Neither the type nor the method has a dot, and there is a method only where the type calls for one.
unfoldable pub is_proper : Subject → Bool
is_proper s =
    (not (any is_dot s.rtype) && not (any is_dot s.method))
    && (has_method s.rtype || is_nil s.method)

split_first-append :
    (a b : Bytes) → any is_dot a ≡ false → split_first (a ++ btsep ∷ b) ≡ some (a, b)
unfolding split_first
split_first-append [] b h = refl
split_first-append (c ∷ a) b h = ground (arith, split_first-append a b)

split_last-none : (b : Bytes) → any is_dot b ≡ false → split_last b ≡ none
unfolding split_last
split_last-none [] h = refl
split_last-none (c ∷ b) h = ground (arith, split_last-none b)

split_last-append : (a b : Bytes) → any is_dot b ≡ false → split_last (a ++ btsep ∷ b) ≡ some (a, b)
unfolding split_last
split_last-append [] b h = rw (split_last-none b h) refl
split_last-append (c ∷ a) b h = rw (split_last-append a b h) refl

is_nil-eq : (b : Bytes) → is_nil b ≡ true → b ≡ []
is_nil-eq [] h = refl
is_nil-eq (c ∷ b) h = cc

not-true : (b : Bool) → not b ≡ true → b ≡ false
not-true true h = sym h
not-true false h = refl

-- `handleRequest` takes from a subject the type, the resource name and the method that it was made
-- of, if neither type nor method has a dot, and the method is empty for a type other than call and
-- auth.
pub parse_subject-print_subject :
    (s : Subject) → is_proper s ≡ true → parse_subject (print_subject s) ≡ some s
unfolding parse_subject print_subject with_type with_method is_proper
parse_subject-print_subject s h =
    let parts = and-eq-true (not (any is_dot s.rtype) && not (any is_dot s.method)) _ h in
    let dots = and-eq-true (not (any is_dot s.rtype)) _ parts.0 in
    elim (Bool-cases (has_method s.rtype)) [
      | inl e ↦
          rw
            (
              e,
              split_first-append s.rtype _ (not-true _ dots.0),
              e,
              split_last-append s.rname s.method (not-true _ dots.1),
            )
            refl
      | inr e ↦
          let empty = is_nil-eq s.method (rw e at parts.1) in
          rw (e, split_first-append s.rtype s.rname (not-true _ dots.0), e)
            (ap (λ m. some (record { rtype = s.rtype; rname = s.rname; method = m })) (sym empty))
    ]
