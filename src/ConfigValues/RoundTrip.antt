-- ===== src/ConfigValues/RoundTrip.antt =====
-- `Create` and `ExtractValue` undo one another on the simple types, and the typed extractors agree
-- with `GetValueType`.
use prefab_cloud_go.Prelude.{ℕ, ℤ, GoString, ret, ◌≡◌, refl, ◌↔◌, Bool, true, List, ◌∷◌, arith}
use prefab_cloud_go.Proto.{
  ConfigValue, nil_value, config_value, ConfigValueType, ValueType, Float64,
}
use prefab_cloud_go.GoValue.{Any, IntKind, Host}
use prefab_cloud_go.AnyHelpers.StringLists.{of_strings, detect-of_strings}
use prefab_cloud_go.ConfigValues.{
  create, value_of, extracted, extract_value, get_value_type, extract_int_value,
  extract_string_value, extract_log_level_value, extract_float_value, extract_bool_value,
  extract_string_list_value,
}

-- The Go values with a simple type of their own, each with the value that is read back for it:
-- integers come back as int64, and float32 as float64.
pub data IsSimple : Any → Any → Type 0 where
  of_int : (k : IntKind) (n : ℤ) → IsSimple (Any.int k n) (Any.int IntKind.bits64 n)
  of_string : (s : GoString) → IsSimple (Any.string s) (Any.string s)
  of_bool : (b : Bool) → IsSimple (Any.bool b) (Any.bool b)
  of_bytes : (b : List ℕ) → IsSimple (Any.bytes b) (Any.bytes b)
  of_list : (l : List GoString) → IsSimple (Any.string_slice l) (Any.string_slice l)
  of_slice :
      (s : GoString) (l : List GoString)
      → IsSimple (Any.slice (of_strings (s ∷ l))) (Any.string_slice (s ∷ l))
  of_float32 : (x : Float64) → IsSimple (Any.float32 x) (Any.float64 x)
  of_float64 : (x : Float64) → IsSimple (Any.float64 x) (Any.float64 x)
  of_pointer : {v w : Any} → IsSimple v w → IsSimple (Any.pointer v) w

-- A value of a simple type becomes a config value, which is read back as that value.
pub extract-create :
    (host : Host) {v w : Any}
    → IsSimple v w
    → (cv : ConfigValue) × (create host v ≡ ret (cv, true)) × (extract_value host cv ≡ extracted w)
unfolding create extract_value
extract-create host (of_int k n) = (value_of (ConfigValueType.int n), refl, refl)
extract-create host (of_string s) = (value_of (ConfigValueType.string s), refl, refl)
extract-create host (of_bool b) = (value_of (ConfigValueType.bool b), refl, refl)
extract-create host (of_bytes b) = (value_of (ConfigValueType.bytes b), refl, refl)
extract-create host (of_list l) = (value_of (ConfigValueType.string_list l), refl, refl)
extract-create host (of_slice s l) =
    (value_of (ConfigValueType.string_list (s ∷ l)), rw (detect-of_strings s l), refl)
extract-create host (of_float32 x) = (value_of (ConfigValueType.double x), refl, refl)
extract-create host (of_float64 x) = (value_of (ConfigValueType.double x), refl, refl)
extract-create host (of_pointer s) = extract-create host s

pub record AgreesWithType (cv : ConfigValue) : Type 0 where
  pub int : (extract_int_value cv).1 ≡ true ↔ get_value_type cv ≡ ValueType.int_type
  pub string : (extract_string_value cv).1 ≡ true ↔ get_value_type cv ≡ ValueType.string_type
  pub float : (extract_float_value cv).1 ≡ true ↔ get_value_type cv ≡ ValueType.double_type
  pub bool : (extract_bool_value cv).1 ≡ true ↔ get_value_type cv ≡ ValueType.bool_type
  pub level :
      (extract_log_level_value cv).1 ≡ true ↔ get_value_type cv ≡ ValueType.log_level_value_type
  pub list :
      (extract_string_list_value cv).1 ≡ true ↔ get_value_type cv ≡ ValueType.string_list_type

-- The extractors of integers, strings, floats, booleans, log levels and string lists succeed on exactly
-- the values of which `GetValueType` reports their type.
pub extractors_agree : (cv : ConfigValue) → AgreesWithType cv
unfolding extract_int_value extract_string_value extract_float_value extract_bool_value
    extract_log_level_value extract_string_list_value get_value_type
extractors_agree nil_value = ground arith
extractors_agree (config_value (ConfigValueType.int n) c d) = ground arith
extractors_agree (config_value _ c d) = ground arith
