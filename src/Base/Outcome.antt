-- ===== src/Base/Outcome.antt =====
-- A Go call returns a value or panics. The constructors of `Panic` are the panics of the source.
use Prim.Native.Nat.{ℕ}
use mathlib.Core.Path.{◌≡◌, refl}
use mathlib.Core.Bool.{Bool, true, false}
use go_res.Base.Text.{Bytes}

pub data Panic : Type 0 where
  -- a run-time error of Go: an index out of range
  index_out_of_range : Panic
  -- group.go
  expected_brace non_alpha_numeric empty_group_tag : ℕ → Panic
  group_tag_not_found : Bytes → Panic
  unexpected_end_of_group_tag : Panic
  -- mux.go
  invalid_path invalid_pattern already_mounted already_registered mount_to_root : Panic
  mount_to_existing mount_on_full_wildcard : Bytes → Panic
  placeholder_repeated : Bytes → Panic
  registration_already_done : Bytes → Panic
  param_count_mismatch param_tokens_mismatch nil_event_handler : Panic
  -- a write to a nil map; mockstore: store.go, and the fatal error of its RWMutex
  assignment_to_nil_map empty_new_id unlock_of_unlocked : Panic
  -- store: querystorehandler.go
  no_query_store both_request_handlers no_affected_resources no_type : Panic

pub data Result {ℓ} (A : Type ℓ) : Type ℓ where
  ok : A → Result A
  panic : Panic → Result A

-- Panics unless the test holds.
abbrev pub require : Bool → Panic → Result (Unit {0})
require true why = ok tt
require false why = panic why

pub require-ok : (b : Bool) (why : Panic) (u : Unit {0}) → require b why ≡ ok u → b ≡ true
require-ok true why u h = refl
require-ok false why u h = cc

-- A panic in the first call is that of the whole sequence.
infixl 5 ◌>>=◌
abbrev pub ◌>>=◌ {ℓ κ} : {X : Type ℓ} {Y : Type κ} → Result X → (X → Result Y) → Result Y
panic why >>= rest = panic why
ok x >>= rest = rest x

infixl 5 ◌>>◌
abbrev pub ◌>>◌ {ℓ} : {Y : Type ℓ} → Result (Unit {0}) → Result Y → Result Y
first >> rest = first >>= (λ u. rest)

pub ok_injective {ℓ} : {X : Type ℓ} {x y : X} → ok x ≡ ok y → x ≡ y
ok_injective h = cc

-- A sequence that returns has both its parts returning.
pub >>=-eq-ok {ℓ κ} :
    {X : Type ℓ} {Y : Type κ} (first : Result X) (rest : X → Result Y) {y : Y}
    → first >>= rest ≡ ok y
    → (x : X) × (first ≡ ok x) × (rest x ≡ ok y)
>>=-eq-ok (panic why) rest returned = cc
>>=-eq-ok (ok x) rest returned = (x, refl, returned)
