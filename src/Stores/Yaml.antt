-- ===== src/Stores/Yaml.antt =====
-- pkg/internal/local_config_yaml_parser.go. The YAML library is an argument: what it makes of the bytes.
-- A map is walked through in the order in which its fields stand, which Go leaves open.
pub mod Walk
pub mod Evaluation
pub mod Keys
use prefab_cloud_go.Prelude.{
  ℕ, zero, suc, ◌+◌, ◌-◌, ◌*◌, ◌/◌, ◌%◌, ◌^◌, ◌≤◌, ◌<◌, ltb, leb, ◌==◌, bool_eq, if◌then◌else◌,
  ltb→lt, lt→ltb, leb→le, ==_iff, Bool-cases, Option-cases, length, get_elem?, length-append, All,
  any_of, ℤ, pos, negsuc, pos_part, neg_part, ◌≤ℤ◌, ◌<ℤ◌, ltb_ℤ, leb_ℤ, eq_ℤ, eq_ℤ_iff, GoString,
  codes, str_eq, str_eq_iff, str_eq_refl, str_lt, has_prefix, has_suffix, contains, join, split,
  cons_first, upper_byte, lower_byte, has_prefix_iff, Outcome, ret, panics, unfinished, ◌>>=◌,
  >>=-eq-ret, ◌≡◌, refl, sym, ap, ◌∙◌, ◌≢◌, ◌↔◌, ◌⊎◌, inl, inr, Bool, true, false, not, ◌&&◌, ◌||◌,
  Option, none, some, List, [], ◌∷◌, ◌++◌, map, arith,
}
use prefab_cloud_go.Errors.{Error, Result, ok, err, unless_error}
use prefab_cloud_go.Proto.{Config, ConfigType, ConfigValue, LogLevel}
use prefab_cloud_go.GoValue.{Any, AnyMap, Host}
use prefab_cloud_go.ConfigValues.{create, get_value_type}

unfoldable pub get_field : GoString → AnyMap → Option Any
get_field key AnyMap.empty = none
get_field key (AnyMap.field k v rest) = if str_eq k key then some v else get_field key rest

-- The first result is whether the value is true, the second whether it is a bool or a text.
coerce_to_bool : Any → Bool × Bool
coerce_to_bool (Any.bool b) = (b, true)
coerce_to_bool (Any.string s) = (str_eq (map lower_byte s) (codes "true"), true)
coerce_to_bool _ = (false, false)

-- `prefabProto.LogLevel_value[name]`.
log_level_named : GoString → Option LogLevel
log_level_named name =
    if str_eq name (codes "NOT_SET_LOG_LEVEL")
    then some LogLevel.not_set_log_level
    else if str_eq name (codes "TRACE")
    then some LogLevel.trace
    else if str_eq name (codes "DEBUG")
    then some LogLevel.debug
    else if str_eq name (codes "INFO")
    then some LogLevel.info
    else if str_eq name (codes "WARN")
    then some LogLevel.warn
    else if str_eq name (codes "ERROR")
    then some LogLevel.error
    else if str_eq name (codes "FATAL")
    then some LogLevel.fatal
    else none

-- The config of a created value: one row with one value and no criteria.
yaml_config : GoString → ConfigType → ConfigValue → Config
yaml_config key config_type value = record {
  id = pos 0;
  key = key;
  rows =
      record { project_env_id = none; values = record { criteria = []; value = value } ∷ [] } ∷ [];
  config_type = config_type;
  value_type = get_value_type value;
}

if_created : GoString → ConfigType → ConfigValue × Bool → Option Config
unfolding yaml_config
if_created key config_type (value, true) = some (yaml_config key config_type value)
if_created key config_type (value, false) = none

level_value : Host → Any → Outcome (ConfigValue × Bool)
unfolding log_level_named
level_value host (Any.string s) = elim (log_level_named (map upper_byte s)) [
  | some level ↦ create host (Any.log_level_value level)
  | none ↦ ret (ConfigValue.nil_value, false)
]
level_value host _ = ret (ConfigValue.nil_value, false)

unfoldable pub create_config : Host → GoString → Any → ConfigType → Outcome (Option Config)
unfolding if_created level_value
create_config host key value config_type =
    if has_prefix key (codes "log-level")
    then (level_value host value >>= λ made. ret (if_created key ConfigType.log_level_type made))
    else (create host value >>= λ made. ret (if_created key config_type made))

-- The configs of a call of `createConfig` whose failure is an error.
one_config : GoString → Option Config → Result (List Config)
one_config key (some config) = ok (config ∷ [])
one_config key none = err (Error.not_created key)

unfoldable pub dotted : List GoString → GoString → GoString
dotted key_path map_key = join (codes ".") (key_path ++ (map_key ∷ []))

flag_type : Bool × Bool → ConfigType
flag_type (is_feature_flag, parsing_worked) =
    if is_feature_flag && parsing_worked then ConfigType.feature_flag else ConfigType.config

flag_value : Host → GoString → ConfigType → ConfigValue × Bool → Outcome (Result (List Config))
unfolding one_config
flag_value host map_key config_type (value, false) = ret (err (Error.not_created map_key))
flag_value host map_key config_type (value, true) =
    create_config host map_key (Any.config_value_pointer value) config_type >>= λ made.
    ret (one_config map_key made)

value_config : Host → GoString → ConfigType → Option Any → Outcome (Result (List Config))
unfolding flag_value
value_config host map_key config_type none = ret (err Error.value_key_missing)
value_config host map_key config_type (some value) =
    create host value >>= flag_value host map_key config_type

-- A map with the key "feature_flag". The key of its config is the map key alone.
pub flag_config : Host → GoString → AnyMap → Any → Outcome (Result (List Config))
unfolding flag_type value_config coerce_to_bool
flag_config host map_key fields feature_flag_value =
    value_config host map_key (flag_type (coerce_to_bool feature_flag_value))
      (get_field (codes "value") fields)

pub leaf_config : Host → List GoString → GoString → Any → Outcome (Result (List Config))
unfolding one_config
leaf_config host key_path map_key value =
    create_config host (dotted key_path map_key) value ConfigType.config >>= λ made.
    ret (one_config (dotted key_path map_key) made)

underscore_config : Host → List GoString → GoString → Option Any → Outcome (Result (List Config))
unfolding leaf_config
underscore_config host key_path map_key none = ret (ok [])
underscore_config host key_path map_key (some value) = leaf_config host key_path map_key value

abbrev pub followed_by :
    Outcome (Result (List Config)) → Outcome (Result (List Config)) → Outcome (Result (List Config))
followed_by first others =
    unless_error first λ configs. unless_error others λ more. ret (ok (configs ++ more))

-- A map, with its feature flag and the configs of its fields but "_".
map_configs :
    Host
    → List GoString
    → GoString
    → AnyMap
    → Option Any
    → Outcome (Result (List Config))
    → Outcome (Result (List Config))
unfolding flag_config underscore_config
map_configs host key_path map_key fields (some feature_flag_value) nested =
    flag_config host map_key fields feature_flag_value
map_configs host key_path map_key fields none nested =
    followed_by (underscore_config host key_path map_key (get_field (codes "_") fields)) nested

unfoldable mutual
  unfolding map_configs leaf_config

  pub handle_map_key_value : Host → List GoString → GoString → Any → Outcome (Result (List Config))
  handle_map_key_value host key_path map_key (Any.map fields) =
      map_configs host key_path map_key fields (get_field (codes "feature_flag") fields)
        (handle_fields host (key_path ++ (map_key ∷ [])) fields)
  handle_map_key_value host key_path map_key value = leaf_config host key_path map_key value

  -- The loop over the fields of a map but "_".
  pub handle_fields : Host → List GoString → AnyMap → Outcome (Result (List Config))
  handle_fields host key_path AnyMap.empty = ret (ok [])
  handle_fields host key_path (AnyMap.field map_key value rest) =
      let configs = handle_map_key_value host key_path map_key value in
      let others = handle_fields host key_path rest in
      if str_eq map_key (codes "_") then others else followed_by configs others

-- The loop of `Parse`, which passes no field over.
unfoldable pub handle_all : Host → AnyMap → Outcome (Result (List Config))
handle_all host AnyMap.empty = ret (ok [])
handle_all host (AnyMap.field map_key value rest) =
    followed_by (handle_map_key_value host [] map_key value) (handle_all host rest)

parsed_file : Host → Option AnyMap → Outcome (Result (List Config × ℤ))
parsed_file host none = ret (err Error.not_parsed)
parsed_file host (some data_) =
    unless_error (handle_all host data_) λ configs. ret (ok (configs, pos 0))

unfoldable pub parse_yaml :
    Host → (GoString → Option AnyMap) → GoString → Outcome (Result (List Config × ℤ))
unfolding parsed_file
parse_yaml host unmarshal_yaml yaml_data = parsed_file host (unmarshal_yaml yaml_data)
