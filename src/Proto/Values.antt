-- ===== src/Proto/Values.antt =====
-- ConfigValue and what it holds (proto/prefab.pb.go). Enums over int32 keep the numbers that
-- have no name.
use prefab_cloud_go.Prelude.{ℕ, ℤ, GoString, Bool, false, Option, none, some, List, []}

-- A float64, by its bit pattern. Its operations are the machine's: parameters of the model.
pub data Float64 : Type 0 where
  float_bits : ℕ → Float64

pub data ProvidedSource : Type 0 where
  provided_source_not_set env_var : ProvidedSource
  unnamed_source : ℤ → ProvidedSource

pub record Provided : Type 0 where
  pub source : Option ProvidedSource
  pub lookup : Option GoString

pub record IntRange : Type 0 where
  pub start : Option ℤ
  pub end_ : Option ℤ

pub data LogLevel : Type 0 where
  not_set_log_level trace debug info warn error fatal : LogLevel
  unnamed_level : ℤ → LogLevel

-- `ConfigValue` is the pointer `*ConfigValue`: nil, or a message with its oneof, `Confidential`
-- and `DecryptWith`. A message that holds a list of messages is declared with its list.
mutual
  pub data ConfigValue : Type 0 where
    nil_value : ConfigValue
    config_value : ConfigValueType → Option Bool → Option GoString → ConfigValue

  pub data ConfigValueType : Type 0 where
    not_set : ConfigValueType
    int : ℤ → ConfigValueType
    string : GoString → ConfigValueType
    bytes : List ℕ → ConfigValueType
    double : Float64 → ConfigValueType
    bool : Bool → ConfigValueType
    weighted_values : WeightedValues → Option GoString → ConfigValueType
    limit_definition : ConfigValueType
    log_level : LogLevel → ConfigValueType
    string_list : List GoString → ConfigValueType
    int_range : IntRange → ConfigValueType
    provided : Option Provided → ConfigValueType
    duration : GoString → ConfigValueType
    json : GoString → ConfigValueType
    schema : ConfigValueType

  -- The `[]*WeightedValue` of a WeightedValues: a weight and a value each.
  pub data WeightedValues : Type 0 where
    no_more : WeightedValues
    weighted : ℤ → ConfigValue → WeightedValues → WeightedValues

-- `cv.GetType()`: a nil receiver has no type set.
unfoldable pub get_type : ConfigValue → ConfigValueType
get_type nil_value = not_set
get_type (config_value t confidential decrypt_with) = t

-- `cv.GetConfidential()`.
unfoldable pub get_confidential : ConfigValue → Bool
get_confidential (config_value t (some b) decrypt_with) = b
get_confidential _ = false

-- `cv.GetDecryptWith()`.
unfoldable pub get_decrypt_with : ConfigValue → GoString
get_decrypt_with (config_value t confidential (some k)) = k
get_decrypt_with _ = []

-- `cv.GetIntRange()`.
unfoldable pub get_int_range : ConfigValueType → Option IntRange
get_int_range (int_range r) = some r
get_int_range _ = none

-- `cv.GetString_()`.
unfoldable pub get_string : ConfigValueType → GoString
get_string (string s) = s
get_string _ = []

-- `provided.GetSource()`.
unfoldable pub get_source : Provided → ProvidedSource
get_source p = elim p.source [ some s ↦ s | none ↦ provided_source_not_set ]
