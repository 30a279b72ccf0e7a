-- ===== src/Store/Value.antt =====
-- `Value` of store/value.go, and its comparison. Decoding by `encoding/json` is left out.
pub mod Same
use go_res.Base.{str_eq, Bytes, Bool, true, false, ◌&&◌}

pub data ValueType : Type 0 where
  none primitive reference soft_reference content delete : ValueType

pub record Value : Type 0 where
  pub raw_message : Bytes
  pub type : ValueType
  pub rid : Bytes
  pub inner : Bytes

same_type : ValueType → ValueType → Bool
same_type none none = true
same_type primitive primitive = true
same_type reference reference = true
same_type soft_reference soft_reference = true
same_type content content = true
same_type delete delete = true
same_type _ _ = false

equal_as : ValueType → Value → Value → Bool
equal_as content v w = str_eq v.inner w.inner
equal_as primitive v w = str_eq v.raw_message w.raw_message
equal_as reference v w = str_eq v.rid w.rid
equal_as soft_reference v w = str_eq v.rid w.rid
equal_as none v w = true
equal_as delete v w = true

unfoldable pub equal : Value → Value → Bool
unfolding same_type equal_as
equal v w = same_type v.type w.type && equal_as v.type v w
