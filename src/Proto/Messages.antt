-- ===== src/Proto/Messages.antt =====
-- Config, its rows and their criteria, and the message that carries configs (proto/prefab.pb.go).
use prefab_cloud_go.Prelude.{ℤ, pos, GoString, Bool, Option, none, some, List}
use prefab_cloud_go.Prelude.Dict.{Dict}
use prefab_cloud_go.Proto.Values.{ConfigValue}

pub data ConfigType : Type 0 where
  not_set_config_type config feature_flag log_level_type segment limit_definition_type : ConfigType
  deleted schema_type log_level_v2 : ConfigType
  unnamed_config_type : ℤ → ConfigType

-- Config_ValueType.
pub data ValueType : Type 0 where
  not_set_value_type int_type string_type bytes_type double_type bool_type : ValueType
  limit_value_type log_level_value_type string_list_type int_range_type : ValueType
  duration_type json_type : ValueType
  unnamed_value_type : ℤ → ValueType

-- Criterion_CriterionOperator.
pub data Operator : Type 0 where
  operator_not_set lookup_key_in lookup_key_not_in in_seg not_in_seg always_true : Operator
  prop_is_one_of prop_is_not_one_of : Operator
  prop_ends_with_one_of prop_does_not_end_with_one_of : Operator
  hierarchical_match in_int_range : Operator
  prop_starts_with_one_of prop_does_not_start_with_one_of : Operator
  prop_contains_one_of prop_does_not_contain_one_of : Operator
  prop_less_than prop_less_than_or_equal : Operator
  prop_greater_than prop_greater_than_or_equal : Operator
  prop_before prop_after : Operator
  prop_matches prop_does_not_match : Operator
  prop_semver_less_than prop_semver_equal prop_semver_greater_than : Operator
  unnamed_operator : ℤ → Operator

pub record Criterion : Type 0 where
  pub property_name : GoString
  pub operator : Operator
  pub value_to_match : ConfigValue

pub record ConditionalValue : Type 0 where
  pub criteria : List Criterion
  pub value : ConfigValue

pub record ConfigRow : Type 0 where
  pub project_env_id : Option ℤ
  pub values : List ConditionalValue

pub record Config : Type 0 where
  pub id : ℤ
  pub key : GoString
  pub rows : List ConfigRow
  pub config_type : ConfigType
  pub value_type : ValueType

-- Context: `Type` and `Values`.
pub record Context : Type 0 where
  pub type : Option GoString
  pub values : Dict ConfigValue

-- `ConfigServicePointer.GetProjectEnvId`: 0 for a nil message.
abbrev pub get_project_env_id : Option ℤ → ℤ
get_project_env_id none = pos 0
get_project_env_id (some id) = id

-- Configs, with the project environment of its ConfigServicePointer where there is one.
pub record Configs : Type 0 where
  pub configs : List Config
  pub config_service_pointer : Option ℤ
  pub default_context : Option (List Context)

-- ConfigWrapper of a config dump: its `GetConfig` and `GetDeleted`. A nil config, which the program reads by
-- its getters alone, is the empty one.
pub record ConfigWrapper : Type 0 where
  pub config : Config
  pub deleted : Bool
