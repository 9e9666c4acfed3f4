-- ===== src/Stores/Memory.antt =====
-- pkg/internal/stores/memory_config_store.go: a store of values given in the program. The raw map's
-- keys stand once each.
pub mod Evaluation
use prefab_cloud_go.Prelude.{
  ℕ, zero, suc, ◌+◌, ◌-◌, ◌*◌, ◌/◌, ◌%◌, ◌^◌, ◌≤◌, ◌<◌, ltb, leb, ◌==◌, bool_eq, if◌then◌else◌,
  ltb→lt, lt→ltb, leb→le, ==_iff, Bool-cases, Option-cases, length, get_elem?, length-append, All,
  any_of, ℤ, pos, negsuc, pos_part, neg_part, ◌≤ℤ◌, ◌<ℤ◌, ltb_ℤ, leb_ℤ, eq_ℤ, eq_ℤ_iff, GoString,
  codes, str_eq, str_eq_iff, str_eq_refl, str_lt, has_prefix, has_suffix, contains, join, split,
  cons_first, upper_byte, lower_byte, has_prefix_iff, Outcome, ret, panics, unfinished, ◌>>=◌,
  >>=-eq-ret, ◌≡◌, refl, sym, ap, ◌∙◌, ◌≢◌, ◌↔◌, ◌⊎◌, inl, inr, Bool, true, false, not, ◌&&◌, ◌||◌,
  Option, none, some, List, [], ◌∷◌, ◌++◌, map, arith,
}
use prefab_cloud_go.Prelude.Dict
use prefab_cloud_go.Prelude.Dict.{Dict}
use prefab_cloud_go.Proto.{Config, ConfigType, ValueType, ConfigValue}
use prefab_cloud_go.GoValue.{Any, Host}
use prefab_cloud_go.ConfigValues.{create}
use prefab_cloud_go.Errors.{Error, Result, ok, err}
use prefab_cloud_go.Interfaces.{ConfigStoreGetter}

-- A raw value: a `*prefabProto.Config`, or any other value.
pub data RawConfig : Type 0 where
  of_config : Config → RawConfig
  of_value : Any → RawConfig

pub record MemoryConfigStore : Type 0 where
  pub config_map : Dict Config
  pub project_env_id : ℤ

-- The config with one row and one value, without criteria.
abbrev pub config_of_value : GoString → ConfigValue → Config
config_of_value key value = record {
  id = pos 0;
  key = key;
  rows =
      record { project_env_id = none; values = record { criteria = []; value = value } ∷ [] } ∷ [];
  config_type = ConfigType.not_set_config_type;
  value_type = ValueType.not_set_value_type;
}

unfoldable pub config_of_created : GoString → ConfigValue × Bool → Result Config
config_of_created key (value, true) = ok (config_of_value key value)
config_of_created key (value, false) = err (Error.not_created key)

unfoldable pub config_of_raw : Host → GoString → RawConfig → Outcome (Result Config)
unfolding config_of_created
config_of_raw host key (of_config config) = ret (ok config)
config_of_raw host key (of_value value) = do
  created ← create host value
  ret (config_of_created key created)

-- The loop over the raw configs; an error ends it.
unfoldable pub make_configs : Host → Dict RawConfig → Dict Config → Outcome (Result (Dict Config))
make_configs host [] configs = ret (ok configs)
make_configs host ((key, raw) ∷ rest) configs = config_of_raw host key raw >>= λ made. elim made [
  | ok config ↦ make_configs host rest (Dict.put key config configs)
  | err e ↦ ret (err e)
]

abbrev store_of : ℤ → Result (Dict Config) → Result MemoryConfigStore
store_of env_id (ok configs) = ok (record { config_map = configs; project_env_id = env_id })
store_of env_id (err e) = err e

unfoldable pub new_memory_config_store :
    Host → ℤ → Dict RawConfig → Outcome (Result MemoryConfigStore)
new_memory_config_store host env_id raw_configs = do
  configs ← make_configs host raw_configs []
  ret (store_of env_id configs)

unfoldable pub as_getter : MemoryConfigStore → ConfigStoreGetter
as_getter store = record {
  get_config = λ key. Dict.get key store.config_map;
  keys = Dict.keys store.config_map;
  get_context_value = λ name. none;
  get_project_env_id = store.project_env_id;
}
