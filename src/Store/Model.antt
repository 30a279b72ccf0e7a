-- ===== src/Store/Model.antt =====
-- `modelDiff` of store/storehandler.go. A model is a map from keys to values.
pub mod Changed
use go_res.Base.{
  if◌then◌else◌, str_eq, Bytes, Bool, true, false, not, Option, none, some, List, [], ◌∷◌, ◌++◌,
}
use go_res.Params.{insert, lookup}

-- A value of a change event: `DeleteValue`, or what the property is set to.
pub data Change (V : Type 0) : Type 0 where
  delete_value : Change V
  set_to : V → Change V

module _ {V : Type 0} (equal : V → V → Bool) where
  -- `!ok || !v.Equal(ov)`
  differs : V → Option V → Bool
  differs v none = true
  differs v (some ov) = not (equal v ov)

  is_missing : {A : Type 0} → Option A → Bool
  is_missing none = true
  is_missing (some v) = false

  -- The loop over `beforeMap`, and that over `afterMap`.
  removed : List (Bytes × V) → List (Bytes × V) → List (Bytes × Change V) → List (Bytes × Change V)
  unfolding is_missing
  removed after [] ch = ch
  removed after ((k, v) ∷ before) ch =
      removed after before (if is_missing (lookup k after) then insert k delete_value ch else ch)

  modified : List (Bytes × V) → List (Bytes × V) → List (Bytes × Change V) → List (Bytes × Change V)
  unfolding differs
  modified before [] ch = ch
  modified before ((k, v) ∷ after) ch =
      modified before after (if differs v (lookup k before) then insert k (set_to v) ch else ch)

  unfoldable pub model_diff : List (Bytes × V) → List (Bytes × V) → List (Bytes × Change V)
  unfolding removed modified
  model_diff before after = modified before after (removed after before [])
