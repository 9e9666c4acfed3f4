-- ===== src/Tests/Parsing.antt =====
-- The theorems on what comes in from servers and files at one input each.
use prefab_cloud_go.Prelude.{
  get_elem?, length, arith, if◌then◌else◌, All, ℤ, pos, GoString, codes, str_eq, has_prefix,
  has_suffix, join, panics, ◌≡◌, refl, ◌↔◌, true, Option, none, some, List, [], ◌∷◌,
}
use prefab_cloud_go.Prelude.Dict
use prefab_cloud_go.Proto.{Config, Configs, ConfigType, ValueType}
use prefab_cloud_go.GoValue.{Any, AnyMap, IntKind}
use prefab_cloud_go.Stores.Api.{new_api_config_store, set_all, get_config}
use prefab_cloud_go.Stores.Api.Watermark.{received}
use prefab_cloud_go.Stores.Api.Refinement.{newer, newest, set_all_refines}
use prefab_cloud_go.Stores.Yaml.{
  parse_yaml, handle_map_key_value, handle_all, create_config, dotted, get_field,
}
use prefab_cloud_go.Stores.Yaml.Evaluation.{EvaluatesIn, parse_yaml-evaluates}
use prefab_cloud_go.Stores.Yaml.Keys.{Below, NoFlags, handle_map_key_value-Below, feature_flag_key}
use prefab_cloud_go.Stores.Files
use prefab_cloud_go.Stores.Files.{
  FileHost, FileConfigStore, new_local_config_store, load_file_into_map, parser_for, parse,
  parse_json, put_configs,
}
use prefab_cloud_go.Stores.Files.Lookup.{
  IsRead, last_with, new_local_config_store-last, new_local_config_store_panics_iff,
}
use prefab_cloud_go.ConfigValues.{create, get_value_type}
use prefab_cloud_go.Prelude.{ℕ, ◌==◌}
use prefab_cloud_go.Options.Settings.{default_options}
use prefab_cloud_go.Network.Http.{HttpClient, Server}
use prefab_cloud_go.Network.Source.{answer_at, run_api_source}
use prefab_cloud_go.Network.Source.Ending.{IsFetched, run_api_source-received}
use prefab_cloud_go.Prelude.Decimal.{show_int}
use prefab_cloud_go.Network.Sse.{Decoder, sse_connections}
use prefab_cloud_go.Network.Sse.Watching.{all_carried}
use prefab_cloud_go.Network.Sse.Resuming.{IsHighest, connection_ids, sse_connections-IsHighest}
use prefab_cloud_go.Tests.Data.{
  whole_number_host, evaluator, core_user, flag, new_flag, batch, int_value,
}

set_all_refines_example :
    get_config (set_all new_api_config_store (flag ∷ new_flag ∷ [])) (codes "flag")
    ≡ newer
        (get_config new_api_config_store (codes "flag"))
        (newest (codes "flag") (flag ∷ new_flag ∷ []))
set_all_refines_example =
    set_all_refines new_api_config_store (flag ∷ new_flag ∷ []) (codes "flag") (refl, (refl, tt))

-- Decodes nothing but "batch".
abbrev decoder : Decoder
decoder = record {
  decode_base64 = λ data_. some data_;
  unmarshal_configs = λ bytes. if str_eq bytes (codes "batch") then some batch else none;
}

-- Two connections: an event of each kind, and one more batch.
abbrev connections : List (List GoString)
connections = ([] ∷ codes "batch" ∷ codes "?" ∷ []) ∷ (codes "batch" ∷ []) ∷ []

sse_connections-IsHighest_example :
    (length (sse_connections whole_number_host decoder new_api_config_store connections).0 ≡ 2)
    × ((id : ℤ) × (get_elem?
            (sse_connections whole_number_host decoder new_api_config_store connections).0
            1
          ≡ some (show_int id))
        × IsHighest
            (pos 0)
            (connection_ids decoder (([] ∷ codes "batch" ∷ codes "?" ∷ []) ∷ []))
            id)
sse_connections-IsHighest_example =
    sse_connections-IsHighest whole_number_host decoder connections new_api_config_store 1
      (omega arith)

-- The first attempt fails, and every later one is answered.
abbrev servers : ℕ → Server
servers n = record {
  send = λ uri api_key. if n == 0 then none else some (200, some (codes "batch"));
  unmarshal_configs = decoder.unmarshal_configs;
}

abbrev http_client : HttpClient
unfolding default_options
http_client = record {
  options = record (default_options whole_number_host (λ name. none) []) { api_key = codes "key" };
  urls = codes "https://a" ∷ [];
}

run_api_source-received_example :
    (batches : List Configs) × IsFetched
      (answer_at (λ name. none) servers (pos 0) http_client)
      (run_api_source whole_number_host (λ name. none) servers http_client decoder connections).0
      batches
    × ((run_api_source whole_number_host (λ name. none) servers http_client decoder connections).1.1
        ≡ received whole_number_host (all_carried decoder connections batches))
run_api_source-received_example =
    run_api_source-received whole_number_host (λ name. none) servers http_client decoder connections

-- a: {b: 1}
abbrev b_field : AnyMap
b_field = AnyMap.field (codes "b") (Any.int IntKind.plain (pos 1)) AnyMap.empty

abbrev yaml_fields : AnyMap
yaml_fields = AnyMap.field (codes "a") (Any.map b_field) AnyMap.empty

abbrev config_of_int : GoString → ConfigType → Config
config_of_int key config_type = record {
  id = pos 0;
  key = key;
  rows =
      record {
        project_env_id = none;
        values = record { criteria = []; value = int_value (pos 1) } ∷ [];
      }
      ∷ [];
  config_type = config_type;
  value_type = ValueType.int_type;
}

parse_yaml-evaluates_example :
    All (EvaluatesIn evaluator core_user 0) (config_of_int (codes "a.b") ConfigType.config ∷ [])
unfolding parse_yaml handle_all handle_map_key_value create_config dotted get_field create
    get_value_type str_eq has_prefix join
parse_yaml-evaluates_example =
    parse_yaml-evaluates whole_number_host evaluator core_user 0 (λ data_. some yaml_fields) []
      (config_of_int (codes "a.b") ConfigType.config ∷ []) (pos 0) refl

handle_map_key_value-Below_example :
    All
      (λ config. Below (dotted [] (codes "a")) config.key)
      (config_of_int (codes "a.b") ConfigType.config ∷ [])
unfolding handle_map_key_value create_config dotted get_field create get_value_type str_eq
    has_prefix join NoFlags
handle_map_key_value-Below_example =
    handle_map_key_value-Below whole_number_host [] (codes "a") (Any.map b_field)
      (config_of_int (codes "a.b") ConfigType.config ∷ []) (refl, (tt, tt)) refl

-- {feature_flag: true, value: 1}
abbrev flag_fields : AnyMap
flag_fields =
    AnyMap.field (codes "feature_flag") (Any.bool true)
      (AnyMap.field (codes "value") (Any.int IntKind.plain (pos 1)) AnyMap.empty)

feature_flag_key_example :
    (config : Config) × (config_of_int (codes "b") ConfigType.feature_flag ∷ [] ≡ config ∷ [])
    × (config.key ≡ codes "b")
unfolding handle_map_key_value create_config get_field create get_value_type str_eq has_prefix
feature_flag_key_example =
    feature_flag_key whole_number_host (codes "a" ∷ []) (codes "b") flag_fields (Any.bool true)
      (config_of_int (codes "b") ConfigType.feature_flag ∷ []) refl refl

-- One JSON file, with two configs of one key, with the pointer or without.
abbrev json_configs : Option ℤ → Configs
json_configs pointer = record {
  configs = flag ∷ new_flag ∷ [];
  config_service_pointer = pointer;
  default_context = none;
}

abbrev files : Option ℤ → FileHost
files pointer = record {
  read_file = λ path. some [];
  unmarshal_yaml = λ data_. none;
  unmarshal_json_configs = λ data_. some (json_configs pointer);
  unmarshal_dump = λ data_. none;
}

abbrev json_store : FileConfigStore
json_store = record {
  config_map = (codes "flag", new_flag) ∷ [];
  initialized = true;
  project_env_id = pos 7;
}

new_local_config_store-last_example :
    (configs : List Config) × IsRead whole_number_host
      (files (some (pos 7)))
      (codes "a.json")
      configs
      (pos 7)
    × ((Files.as_getter json_store).get_config (codes "flag") ≡ last_with (codes "flag") configs)
unfolding new_local_config_store load_file_into_map parser_for parse parse_json put_configs str_eq
    has_suffix Dict.put
new_local_config_store-last_example =
    new_local_config_store-last whole_number_host (files (some (pos 7))) (codes "a.json")
      (codes "flag") {store = json_store} refl

new_local_config_store_panics_iff_example :
    (new_local_config_store whole_number_host (files none) (codes "a.json") ≡ panics)
    ↔ ((json_configs none).config_service_pointer ≡ none)
unfolding has_suffix str_eq
new_local_config_store_panics_iff_example =
    new_local_config_store_panics_iff whole_number_host (files none) (codes "a.json") []
      (json_configs none) refl refl refl
