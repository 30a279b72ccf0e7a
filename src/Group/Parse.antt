-- ===== src/Group/Parse.antt =====
-- A parsed group stands for its text: putting each tag's own notation for its part gives the text
-- back, and every index lies within the tokens of the pattern.
use mathlib.Core.Path.{subst}
use go_res.Base.{
  >>=-eq-ok, ok_injective, Option-cases, ==_iff, ℕ, zero, suc, ◌+◌, ◌==◌, str_eq, eq_of_str_eq,
  get_elem?, Bytes, true, some, List, [], ◌∷◌, ◌++◌, ◌≡◌, refl, arith, map, Bool-cases, inl, inr,
  append_assoc, append-nil, ap,
}
use go_res.Base.{ok}
use go_res.Parts.{split_pattern}
use go_res.Pattern.Valid.{is_nil, pmark}
use go_res.Group.{
  initial, is_tag_char, GPart, Mode, state_default, dollar, state_tag, Parser, find_token, flush,
  end_tag, step, finish, parse_from, parse_group, write_parts, part_string, to_string,
}

-- The notation of a tag token in a group.
abbrev pub braced : Bytes → Bytes
braced [] = []
braced (c ∷ t) = c ∷ b'{' ∷ t ++ b'}' ∷ []

-- A part is a text, or the index of a token that is a tag.
abbrev IsPart : List Bytes → GPart → Type 0
IsPart tokens gp =
    (is_nil gp.str ≡ true → (t : Bytes) × (get_elem? tokens gp.idx ≡ some (pmark ∷ t)))

find_token-get_elem? :
    (j : ℕ) (tag : Bytes) (tokens : List Bytes) (k : ℕ)
    → find_token j tag tokens ≡ some k
    → (i : ℕ) × (k ≡ j + i) × (get_elem? tokens i ≡ some tag)
unfolding find_token
find_token-get_elem? j tag [] k h = ground arith
find_token-get_elem? j tag (t ∷ tokens) k h = elim (Bool-cases (str_eq t tag)) [
  | inl e ↦ (0, ground arith, ap some (eq_of_str_eq t tag e))
  | inr e ↦
      let (i, p, q) = find_token-get_elem? (suc j) tag tokens k (ground arith) in
      (suc i, omega arith, q)
]

get_elem?-map :
    (f : Bytes → Bytes) (xs : List Bytes) (i : ℕ) (x : Bytes)
    → get_elem? xs i ≡ some x
    → get_elem? (map f xs) i ≡ some (f x)
get_elem?-map f [] i x h = ground arith
get_elem?-map f (y ∷ xs) zero x h = ground arith
get_elem?-map f (y ∷ xs) (suc i) x h = get_elem?-map f xs i x h

write_parts-append :
    (tokens : List Bytes) (xs ys : List GPart) (a b : Bytes)
    → write_parts tokens xs ≡ ok a
    → write_parts tokens ys ≡ ok b
    → write_parts tokens (xs ++ ys) ≡ ok (a ++ b)
unfolding write_parts
write_parts-append tokens [] ys a b h k = ground arith
write_parts-append tokens (gp ∷ xs) ys a b h k =
    let (s, p, q) = >>=-eq-ok (part_string tokens gp) _ h in
    let (r, u, v) = >>=-eq-ok (write_parts tokens xs) _ q in
    rw (p, write_parts-append tokens xs ys r b u k, ← ok_injective v, append_assoc)

write_parts-flush :
    (tokens : List Bytes) (text : Bytes) (gr : List GPart) (a : Bytes)
    → write_parts tokens gr ≡ ok a
    → write_parts tokens (flush text gr) ≡ ok (a ++ text)
unfolding flush write_parts part_string
write_parts-flush tokens [] gr a h = rw append-nil h
write_parts-flush tokens (c ∷ text) gr a h =
    write_parts-append tokens gr (record { str = c ∷ text; idx = 0 } ∷ []) a (c ∷ text) h
      (ap (λ s. ok s) (append-nil (c ∷ text)))

-- What the state machine has read since the last part.
abbrev pending : Mode → Bytes → Bytes
pending state_default text = text
pending dollar text = pmark ∷ []
pending state_tag text = pmark ∷ b'{' ∷ text

-- The parts and what is pending are what has been read.
abbrev Reads : List Bytes → Parser → Bytes → Type 0
Reads tokens st done =
    (a : Bytes) × (write_parts (map braced tokens) st.gr ≡ ok a)
    × (a ++ pending st.mode st.text ≡ done)

to_string-eq-write_parts :
    (gr : List GPart) (rname : Bytes) (tokens : List Bytes)
    → to_string (some gr) rname tokens ≡ write_parts tokens gr
unfolding to_string write_parts part_string
to_string-eq-write_parts [] rname tokens = refl
to_string-eq-write_parts (gp ∷ []) rname tokens = elim (Bool-cases (is_nil gp.str)) [
  | inl e ↦ rw e
  | inr e ↦ rw (e, append-nil)
]
to_string-eq-write_parts (gp ∷ gq ∷ gr) rname tokens = refl

module _ (tokens : List Bytes) where
  Reads-ok :
      {st st' : Parser} {done : Bytes}
      → ok st ≡ ok st'
      → Reads tokens st done
      → Reads tokens st' done
  Reads-ok {done} e r = subst (λ s. Reads tokens s done) (ok_injective e) r

  end_tag-Reads :
      (st st' : Parser) (a : Bytes)
      → write_parts (map braced tokens) st.gr ≡ ok a
      → end_tag tokens st ≡ ok st'
      → Reads tokens st' (a ++ (pmark ∷ b'{' ∷ (st.text ++ b'}' ∷ [])))
  unfolding end_tag write_parts part_string
  end_tag-Reads st st' a h e = elim (Bool-cases (is_nil st.text)) [
    | inl p ↦ ground arith
    | inr p ↦ elim (Option-cases (find_token 0 (pmark ∷ st.text) tokens)) [
      | inl q ↦ absurd (ground arith)
      | inr (k, q) ↦
          let (i, r, s) = find_token-get_elem? 0 (pmark ∷ st.text) tokens k q in
          Reads-ok (rw (p, q) at e) (
            a ++ braced (pmark ∷ st.text),
            write_parts-append (map braced tokens) st.gr (record { str = []; idx = k } ∷ []) a
                (braced (pmark ∷ st.text)) h
                (rw
                  (
                    get_elem?-map braced tokens k (pmark ∷ st.text)
                        (rw (let z : k ≡ i = omega (arith, r) in z) s),
                    append-nil,
                  )
                  refl),
            append-nil _,
          )
    ]
  ]

  step-Reads :
      (m : Mode) (st st' : Parser) (c : ℕ) (a : Bytes)
      → write_parts (map braced tokens) st.gr ≡ ok a
      → step tokens m st c ≡ ok st'
      → st.mode ≡ m
      → Reads tokens st' (a ++ (pending m st.text ++ c ∷ []))
  unfolding step
  step-Reads state_default st st' c a h e n = elim (Bool-cases (c == pmark)) [
    | inl p ↦ Reads-ok (rw p at e) (
      a ++ st.text,
      write_parts-flush _ st.text st.gr a h,
      rw (append_assoc, (==_iff c pmark).0 p),
    )
    | inr p ↦ Reads-ok (rw p at e) (a, h, rw n)
  ]
  step-Reads dollar st st' c a h e n = elim (Bool-cases (c == b'{')) [
    | inl p ↦ Reads-ok (rw p at e) (a, h, rw ((==_iff c b'{').0 p))
    | inr p ↦ absurd (ground arith)
  ]
  step-Reads state_tag st st' c a h e n = elim (Bool-cases (c == b'}')) [
    | inl p ↦ rw ((==_iff c b'}').0 p) (end_tag-Reads st st' a h (rw p at e))
    | inr p ↦ elim (Bool-cases (is_tag_char c)) [
      | inl q ↦ Reads-ok (rw (p, q) at e) (a, h, rw n)
      | inr q ↦ absurd (ground arith)
    ]
  ]

  finish-Reads :
      (m : Mode) (st : Parser) (a : Bytes) (gr : List GPart)
      → write_parts (map braced tokens) st.gr ≡ ok a
      → finish m st ≡ ok gr
      → write_parts (map braced tokens) gr ≡ ok (a ++ pending m st.text)
  unfolding finish
  finish-Reads state_default st a gr p h =
      rw (← ok_injective h) (write_parts-flush (map braced tokens) st.text st.gr a p)
  finish-Reads dollar st a gr p h = cc
  finish-Reads state_tag st a gr p h = cc

  parse_from-Reads :
      (st : Parser) (g done : Bytes) (gr : List GPart)
      → Reads tokens st done
      → parse_from tokens st g ≡ ok gr
      → write_parts (map braced tokens) gr ≡ ok (done ++ g)
  unfolding parse_from
  parse_from-Reads st [] done gr (a, p, q) h =
      rw (append-nil, ← q) (finish-Reads st.mode st a gr p h)
  parse_from-Reads st (c ∷ g) done gr (a, p, q) h =
      let (st', e, k) = >>=-eq-ok (step tokens st.mode st c) _ h in
      let r = step-Reads st.mode st st' c a p e refl in
      rw (← q, append_assoc)
        (simp append_assoc at
          (parse_from-Reads st' g (a ++ (pending st.mode st.text ++ c ∷ [])) gr r k))

-- Writing a parsed group with each tag's own notation for its part gives back the group's text.
pub to_string-parse_group :
    (g pattern rname : Bytes) (gr : List GPart)
    → parse_group g pattern ≡ ok (some gr)
    → to_string (some gr) rname (map braced (split_pattern pattern)) ≡ ok g
unfolding parse_group write_parts
to_string-parse_group [] pattern rname gr h = cc
to_string-parse_group (c ∷ g) pattern rname gr h =
    let (x, e, k) = >>=-eq-ok (parse_from (split_pattern pattern) initial (c ∷ g)) _ h in
    rw (to_string-eq-write_parts gr rname (map braced (split_pattern pattern))) (
      parse_from-Reads (split_pattern pattern) initial (c ∷ g) [] gr ([], refl, refl)
        (rw (let z : x ≡ gr = cc in z) at e))
