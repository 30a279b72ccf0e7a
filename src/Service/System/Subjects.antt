-- ===== src/Service/System/Subjects.antt =====
-- What the calls publish goes to well formed subjects.
use go_res.Base.{
  all, any, codes, Bytes, Bool, true, false, not, ◌&&◌, ◌||◌, Option, List, [], ◌∷◌, ◌++◌, ◌≡◌,
  refl, arith, Bool-cases, inl, inr,
}
use go_res.Parts.{btsep, first, others, parts}
use go_res.Pattern.Valid.{is_nil, is_valid_path}
use go_res.Rid.{is_valid_part, is_bad_part_char}
use go_res.Service.Life.{Stage}
use go_res.Service.System.{
  SystemEvent, reset_event, token_event, token_reset_event, Called, returned, panicked, SystemCall,
  reset, token, token_with_id, token_reset, publish, send_reset, send_token, send_token_reset,
  send_system, is_started, call_system,
}

abbrev pub published : {V : Type 0} → Called V → List (Bytes × SystemEvent V)
published (returned es) = es
published (panicked why) = []

-- Each part of the subject is valid: not empty, and with no wildcard, space or dot in it.
abbrev pub is_clean : {V : Type 0} → Bytes × SystemEvent V → Bool
is_clean (subject, ev) = all is_valid_part (parts subject)

-- A valid part in front of a dot is the first part.
parts-append :
    (a b : Bytes)
    → any is_bad_part_char a ≡ false
    → (first (a ++ btsep ∷ b) ≡ a) × (others (a ++ btsep ∷ b) ≡ parts b)
unfolding parts first others is_bad_part_char
parts-append [] b h = (refl, refl)
parts-append (c ∷ a) b h = ground (arith, parts-append a b)

valid_chars : (p : Bytes) → is_valid_part p ≡ true → any is_bad_part_char p ≡ false
unfolding is_valid_part
valid_chars [] h = refl
valid_chars (c ∷ p) h = not-true (any is_bad_part_char (c ∷ p)) h
  where
    not-true : (b : Bool) → not b ≡ true → b ≡ false
    not-true true k = cc
    not-true false k = refl

token_subject :
    (cid : Bytes)
    → is_valid_part cid ≡ true
    → all is_valid_part (parts (codes "conn." ++ (cid ++ codes ".token"))) ≡ true
unfolding parts first others is_valid_part is_bad_part_char
token_subject cid h =
    let (a, b) = parts-append cid (codes "token") (valid_chars cid h) in rw (a, b, h)

module _ {V : Type 0} (encodes : SystemEvent V → Bool) where
  publish-clean :
      (subject : Bytes) (ev : SystemEvent V)
      → all is_valid_part (parts subject) ≡ true
      → all is_clean (published (publish encodes subject ev)) ≡ true
  unfolding publish
  publish-clean subject ev h = elim (Bool-cases (encodes ev)) [ inl y ↦ rw (y, h) | inr y ↦ rw y ]

  send_token-clean :
      (cid tid : Bytes) (v : Option V)
      → all is_clean (published (send_token encodes cid tid v)) ≡ true
  unfolding send_token
  send_token-clean cid tid v = elim (Bool-cases (is_valid_part cid)) [
    | inl y ↦ rw y (publish-clean _ (token_event v tid) (token_subject cid y))
    | inr y ↦ rw y
  ]

  send_system-clean : (c : SystemCall V) → all is_clean (published (send_system encodes c)) ≡ true
  unfolding send_system send_reset send_token_reset parts first others is_valid_part
      is_bad_part_char
  send_system-clean (reset resources access) =
      elim (Bool-cases (is_nil resources && is_nil access)) [
        | inl y ↦ rw y
        | inr y ↦ rw y (publish-clean (codes "system.reset") (reset_event resources access) refl)
      ]
  send_system-clean (token cid v) = send_token-clean cid [] v
  send_system-clean (token_with_id cid tid v) = send_token-clean cid tid v
  send_system-clean (token_reset subject tids) =
      elim (Bool-cases (is_nil subject || not (is_valid_path subject))) [
        | inl y ↦ rw y
        | inr y ↦ elim (Bool-cases (is_nil tids)) [
          | inl z ↦ rw (y, z)
          | inr z ↦
              rw (y, z)
                (publish-clean (codes "system.tokenReset") (token_reset_event tids subject) refl)
        ]
      ]

  -- A reset or a token event publishes nothing unless the service is started, and then only on
  -- subjects whose parts are all valid, whatever the connection's id and the other arguments are.
  pub call_system-clean :
      (stage : Stage) (c : SystemCall V)
      → (is_started stage ≡ false → published (call_system encodes stage c) ≡ [])
        × (all is_clean (published (call_system encodes stage c)) ≡ true)
  unfolding call_system
  call_system-clean stage c = elim (Bool-cases (is_started stage)) [
    | inl y ↦ (λ n. absurd (ground arith), rw y (send_system-clean c))
    | inr y ↦ (λ n. rw y, rw y)
  ]
