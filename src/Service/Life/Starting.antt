-- ===== src/Service/Life/Starting.antt =====
-- While a goroutine prepares the service, no other one does, and the state is stateStarting.
use go_res.Base.{
  ℕ, suc, ◌+◌, List, [], ◌∷◌, ◌++◌, ◌≡◌, ◌⊎◌, inl, inr, refl, arith, none-ne-some, eq_of_some, some,
  sym, ◌∙◌, ap,
}
use go_res.Service.Life.{
  Stage, stopped, starting, started, stopping, Server, preparing, listening, Life, begin_serve,
  begin_shutdown, Step, serve, fail, start, shutdown, stop, leave, Reach, here, next,
}

-- How many goroutines prepare the service.
abbrev pub count_preparing : List Server → ℕ
count_preparing [] = 0
count_preparing (preparing ∷ ss) = suc (count_preparing ss)
count_preparing (listening ∷ ss) = count_preparing ss

pub count-append :
    (xs ys : List Server) → count_preparing (xs ++ ys) ≡ count_preparing xs + count_preparing ys
count-append [] ys = omega arith
count-append (preparing ∷ xs) ys = omega (arith, count-append xs ys)
count-append (listening ∷ xs) ys = omega (arith, count-append xs ys)

-- One goroutine at most, and only while the service is starting.
abbrev pub IsOrderly : Life → Type 0
IsOrderly s =
    (count_preparing s.servers ≡ 0) ⊎ ((count_preparing s.servers ≡ 1) × (s.stage ≡ starting))

pub count-split :
    (s : Life) (before after : List Server) (x : Server)
    → s.servers ≡ before ++ x ∷ after
    → count_preparing s.servers ≡ count_preparing before + count_preparing (x ∷ after)
count-split s before after x e = ap count_preparing e ∙ count-append before (x ∷ after)

serve_cases : (g g' : Stage) → begin_serve g ≡ some g' → (g ≡ stopped) × (g' ≡ starting)
unfolding begin_serve
serve_cases stopped g' e = (refl, sym (eq_of_some e))
serve_cases starting g' e = absurd (none-ne-some e)
serve_cases started g' e = absurd (none-ne-some e)
serve_cases stopping g' e = absurd (none-ne-some e)

shutdown_cases : (g g' : Stage) → begin_shutdown g ≡ some g' → (g ≡ started) × (g' ≡ stopping)
unfolding begin_shutdown
shutdown_cases stopped g' e = absurd (none-ne-some e)
shutdown_cases starting g' e = absurd (none-ne-some e)
shutdown_cases started g' e = (refl, sym (eq_of_some e))
shutdown_cases stopping g' e = absurd (none-ne-some e)

pub Step-IsOrderly : {s t : Life} → Step s t → IsOrderly s → IsOrderly t
Step-IsOrderly (serve s g e) h =
    let (a, b) = serve_cases s.stage g e in
    elim h [ inl n ↦ inr (ap suc n, b) | inr (n, c) ↦ absurd (ground (arith, a, c)) ]
Step-IsOrderly (fail s before after e) h =
    let k = count-split s before after preparing e in
    let m = count-append before after in
    elim h [ inl n ↦ inl (omega (arith, k, m, n)) | inr (n, c) ↦ inl (omega (arith, k, m, n)) ]
Step-IsOrderly (start s before after e) h =
    let k = count-split s before after preparing e in
    let m = count-append before (listening ∷ after) in
    elim h [ inl n ↦ inl (omega (arith, k, m, n)) | inr (n, c) ↦ inl (omega (arith, k, m, n)) ]
Step-IsOrderly (shutdown s g e) h =
    let (a, b) = shutdown_cases s.stage g e in
    elim h [ inl n ↦ inl n | inr (n, c) ↦ absurd (ground (arith, a, c)) ]
Step-IsOrderly (stop s e) h = elim h [ inl n ↦ inl n | inr (n, c) ↦ absurd (ground (arith, e, c)) ]
Step-IsOrderly (leave s before after e) h =
    let k = count-split s before after listening e in
    let m = count-append before after in
    elim h [ inl n ↦ inl (omega (arith, k, m, n)) | inr (n, c) ↦ inr (omega (arith, k, m, n), c) ]

Reach-IsOrderly : {s t : Life} → Reach s t → IsOrderly s → IsOrderly t
Reach-IsOrderly here h = h
Reach-IsOrderly (next r st) h = Step-IsOrderly st (Reach-IsOrderly r h)

abbrev pub new_life : Life
new_life = record { stage = stopped; servers = [] }

-- Where a goroutine prepares the service, in a state that is reached from that of a new service, the
-- state is stateStarting and no other goroutine prepares it: the store of stateStarted takes
-- nothing else away.
pub Reach-starting :
    (t : Life) (before after : List Server)
    → Reach new_life t
    → t.servers ≡ before ++ preparing ∷ after
    → (t.stage ≡ starting) × (count_preparing (before ++ after) ≡ 0)
Reach-starting t before after r e =
    let k = count-split t before after preparing e in
    let m = count-append before after in
    elim (Reach-IsOrderly r (inl refl)) [
      | inl n ↦ absurd (omega (arith, k, n))
      | inr (n, c) ↦ (c, omega (arith, k, m, n))
    ]
