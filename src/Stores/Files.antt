-- ===== src/Stores/Files.antt =====
-- pkg/internal/stores/local_config_store.go and config_dump_store.go, with
-- pkg/internal/local_config_json_parser.go. The file system and the parsers of the formats are arguments.
pub mod Lookup
use prefab_cloud_go.Prelude.{
  ℕ, zero, suc, ◌+◌, ◌-◌, ◌*◌, ◌/◌, ◌%◌, ◌^◌, ◌≤◌, ◌<◌, ltb, leb, ◌==◌, bool_eq, if◌then◌else◌,
  ltb→lt, lt→ltb, leb→le, ==_iff, Bool-cases, Option-cases, length, get_elem?, length-append, All,
  any_of, ℤ, pos, negsuc, pos_part, neg_part, ◌≤ℤ◌, ◌<ℤ◌, ltb_ℤ, leb_ℤ, eq_ℤ, eq_ℤ_iff, GoString,
  codes, str_eq, str_eq_iff, str_eq_refl, str_lt, has_prefix, has_suffix, contains, join, split,
  cons_first, upper_byte, lower_byte, has_prefix_iff, Outcome, ret, panics, unfinished, ◌>>=◌,
  >>=-eq-ret, ◌≡◌, refl, sym, ap, ◌∙◌, ◌≢◌, ◌↔◌, ◌⊎◌, inl, inr, Bool, true, false, not, ◌&&◌, ◌||◌,
  Option, none, some, List, [], ◌∷◌, ◌++◌, map, arith,
}
use prefab_cloud_go.Prelude.Dict
use prefab_cloud_go.Prelude.Dict.{Dict}
use prefab_cloud_go.Errors.{Error, Result, ok, err, unless_error}
use prefab_cloud_go.Proto.{Config, Configs, ConfigWrapper}
use prefab_cloud_go.GoValue.{AnyMap, Host}
use prefab_cloud_go.Interfaces.{ConfigStoreGetter}
use prefab_cloud_go.Stores.Yaml.{parse_yaml}

-- os.ReadFile, yaml.Unmarshal into a map, protojson.Unmarshal of Configs, and proto.Unmarshal of a
-- ConfigDump, whose wrappers it is read for: none for an error.
pub record FileHost : Type 0 where
  pub read_file : GoString → Option GoString
  pub unmarshal_yaml : GoString → Option AnyMap
  pub unmarshal_json_configs : GoString → Option Configs
  pub unmarshal_dump : GoString → Option (List ConfigWrapper)

pub data ConfigParser : Type 0 where
  json_parser yaml_parser : ConfigParser

unfoldable pub parser_for : GoString → Result ConfigParser
parser_for file_path =
    if has_suffix file_path (codes ".json")
    then ok ConfigParser.json_parser
    else if has_suffix file_path (codes ".yaml") || has_suffix file_path (codes ".yml")
    then ok ConfigParser.yaml_parser
    else err Error.unknown_extension

-- The pointer of the message is dereferenced.
with_pointer : List Config → Option ℤ → Outcome (Result (List Config × ℤ))
with_pointer configs none = panics
with_pointer configs (some project_env_id) = ret (ok (configs, project_env_id))

unfoldable pub parse_json : Option Configs → Outcome (Result (List Config × ℤ))
unfolding with_pointer
parse_json none = ret (err Error.not_parsed)
parse_json (some configs) = with_pointer configs.configs configs.config_service_pointer

unfoldable pub parse :
    Host → FileHost → ConfigParser → GoString → Outcome (Result (List Config × ℤ))
parse host files ConfigParser.json_parser data_ = parse_json (files.unmarshal_json_configs data_)
parse host files ConfigParser.yaml_parser data_ = parse_yaml host files.unmarshal_yaml data_

-- `for _, config := range configs { m[config.GetKey()] = config }`.
unfoldable pub put_configs : List Config → Dict Config → Dict Config
put_configs [] config_map = config_map
put_configs (config ∷ configs) config_map =
    put_configs configs (Dict.put config.key config config_map)

parse_file : Host → FileHost → ConfigParser → Option GoString → Outcome (Result (List Config × ℤ))
parse_file host files parser none = ret (err Error.file_not_read)
parse_file host files parser (some data_) = parse host files parser data_

parse_by : Host → FileHost → GoString → Result ConfigParser → Outcome (Result (List Config × ℤ))
unfolding parse_file
parse_by host files file_path (err e) = ret (err e)
parse_by host files file_path (ok parser) = parse_file host files parser (files.read_file file_path)

unfoldable pub load_file_into_map :
    Host → FileHost → GoString → Dict Config → Outcome (Result (Dict Config × ℤ))
unfolding parse_by
load_file_into_map host files file_path config_map =
    unless_error (parse_by host files file_path (parser_for file_path))
      λ parsed. ret (ok (put_configs parsed.0 config_map, parsed.1))

-- Both stores of files: the map and the project environment.
pub record FileConfigStore : Type 0 where
  pub config_map : Dict Config
  pub initialized : Bool
  pub project_env_id : ℤ

unfoldable pub new_local_config_store :
    Host → FileHost → GoString → Outcome (Result FileConfigStore)
new_local_config_store host files path =
    unless_error (load_file_into_map host files path []) λ loaded.
      ret (ok (record { config_map = loaded.0; initialized = true; project_env_id = loaded.1 }))

-- The loop over the wrappers of a dump.
unfoldable pub put_wrappers : List ConfigWrapper → Dict Config → Dict Config
put_wrappers [] config_map = config_map
put_wrappers (wrapper ∷ wrappers) config_map =
    put_wrappers wrappers (
      if wrapper.deleted then config_map else Dict.put wrapper.config.key wrapper.config config_map)

dump_of_data : Option (List ConfigWrapper) → Result (Dict Config)
dump_of_data none = err Error.not_parsed
dump_of_data (some wrappers) = ok (put_wrappers wrappers [])

dump_of_file : FileHost → Option GoString → Result (Dict Config)
unfolding dump_of_data
dump_of_file files none = err Error.file_not_read
dump_of_file files (some data_) = dump_of_data (files.unmarshal_dump data_)

unfoldable pub config_dump_file_to_config_map : FileHost → GoString → Result (Dict Config)
unfolding dump_of_file
config_dump_file_to_config_map files path = dump_of_file files (files.read_file path)

dump_store : ℤ → Result (Dict Config) → Result FileConfigStore
dump_store project_env_id (err e) = err e
dump_store project_env_id (ok config_map) =
    if eq_ℤ project_env_id (pos 0)
    then err Error.project_env_id_missing
    else ok
        (record { config_map = config_map; initialized = true; project_env_id = project_env_id })

unfoldable pub new_config_dump_config_store : FileHost → GoString → ℤ → Result FileConfigStore
unfolding dump_store
new_config_dump_config_store files path project_env_id =
    dump_store project_env_id (config_dump_file_to_config_map files path)

unfoldable pub as_getter : FileConfigStore → ConfigStoreGetter
as_getter store = record {
  get_config = λ key. Dict.get key store.config_map;
  keys = Dict.keys store.config_map;
  get_context_value = λ name. none;
  get_project_env_id = store.project_env_id;
}
