-- ===== src/Stores/Files/Lookup.antt =====
-- What a store of a file gives for a key.
use prefab_cloud_go.Prelude.{
  if◌then◌else◌, ℤ, pos, eq_ℤ_iff, GoString, codes, str_eq, has_suffix, Outcome, ret, panics, ◌≡◌,
  refl, sym, ap, ◌∙◌, ◌≢◌, ◌↔◌, true, Option, none, some, List, [], ◌∷◌, arith,
}
use mathlib.Core.Path.{subst}
use prefab_cloud_go.Prelude.Dict
use prefab_cloud_go.Prelude.Dict.{Dict, get-put, or_else-get_nil}
use prefab_cloud_go.Errors.{Result, ok, err, unless_error, unless_error-eq-ok}
use prefab_cloud_go.Proto.{Config, Configs, ConfigWrapper}
use prefab_cloud_go.GoValue.{Host}
use prefab_cloud_go.Stores.Files.{
  FileHost, ConfigParser, parser_for, with_pointer, parse_json, parse, put_configs, parse_file,
  parse_by, load_file_into_map, FileConfigStore, new_local_config_store, put_wrappers, dump_of_data,
  dump_of_file, config_dump_file_to_config_map, dump_store, new_config_dump_config_store, as_getter,
}

-- The last config of the list with the key.
pub last_with : GoString → List Config → Option Config
last_with key [] = none
last_with key (config ∷ configs) =
    Dict.or_else (last_with key configs) (if str_eq config.key key then some config else none)

get-put_configs :
    (key : GoString) (configs : List Config) (onto : Dict Config)
    → Dict.get key (put_configs configs onto)
      ≡ Dict.or_else (last_with key configs) (Dict.get key onto)
unfolding put_configs last_with
get-put_configs key [] onto = refl
get-put_configs key (config ∷ configs) onto = ground (
  arith,
  get-put_configs key configs (Dict.put config.key config onto),
  get-put config.key key config onto,
)

-- The configs of the wrappers that are not deleted, in order.
pub kept : List ConfigWrapper → List Config
kept [] = []
kept (wrapper ∷ wrappers) =
    let rest = kept wrappers in if wrapper.deleted then rest else wrapper.config ∷ rest

put_wrappers-kept :
    (wrappers : List ConfigWrapper) (onto : Dict Config)
    → put_wrappers wrappers onto ≡ put_configs (kept wrappers) onto
unfolding put_wrappers kept put_configs
put_wrappers-kept [] onto = refl
put_wrappers-kept (wrapper ∷ wrappers) onto = ground (
  arith,
  put_wrappers-kept wrappers onto,
  put_wrappers-kept wrappers (Dict.put wrapper.config.key wrapper.config onto),
)

parse_file-ok :
    (host : Host) (files : FileHost) (parser : ConfigParser) (o : Option GoString)
    {parsed : List Config × ℤ}
    → parse_file host files parser o ≡ ret (ok parsed)
    → (data_ : GoString) × (o ≡ some data_) × (parse host files parser data_ ≡ ret (ok parsed))
unfolding parse_file
parse_file-ok host files parser none h = absurd (cc h)
parse_file-ok host files parser (some data_) h = (data_, refl, h)

-- The file holds these bytes, and they are parsed to these configs.
abbrev pub IsRead : Host → FileHost → GoString → List Config → ℤ → Type 0
IsRead host files path configs env_id =
    (parser : ConfigParser) × (data_ : GoString) × (parser_for path ≡ ok parser)
    × (files.read_file path ≡ some data_)
    × (parse host files parser data_ ≡ ret (ok (configs, env_id)))

parse_by-ok :
    (host : Host) (files : FileHost) (path : GoString) (r : Result ConfigParser)
    {parsed : List Config × ℤ}
    → parser_for path ≡ r
    → parse_by host files path r ≡ ret (ok parsed)
    → IsRead host files path parsed.0 parsed.1
unfolding parse_by
parse_by-ok host files path (err e) p h = absurd (cc h)
parse_by-ok host files path (ok parser) p h =
    let (data_, e, k) = parse_file-ok host files parser (files.read_file path) h in
    (parser, data_, p, e, k)

get_configs :
    (key : GoString) (configs : List Config)
    → Dict.get key (put_configs configs []) ≡ last_with key configs
get_configs key configs =
    get-put_configs key configs [] ∙ or_else-get_nil key (last_with key configs)

-- The store is that of a file: for each key it has the last config of the file with the key.
abbrev pub IsStoreOf : Host → FileHost → GoString → GoString → FileConfigStore → Type 0
IsStoreOf host files path key store =
    (configs : List Config) × IsRead host files path configs store.project_env_id
    × (Dict.get key store.config_map ≡ last_with key configs)

-- A local store that is made has read its file: for each key it has the last config of the file that has
-- the key, and none where none has; and its project environment is the one that the parser gave.
pub new_local_config_store-last :
    (host : Host) (files : FileHost) (path key : GoString) {store : FileConfigStore}
    → new_local_config_store host files path ≡ ret (ok store)
    → (configs : List Config) × IsRead host files path configs store.project_env_id
      × ((as_getter store).get_config key ≡ last_with key configs)
unfolding new_local_config_store load_file_into_map as_getter
new_local_config_store-last host files path key {store} h =
    let (loaded, e, last) = unless_error-eq-ok (load_file_into_map host files path []) _ h in
    let (parsed, e', made) = unless_error-eq-ok (parse_by host files path (parser_for path)) _ e in
    let of_map : Dict Config × ℤ → FileConfigStore =
      λ m. record { config_map = m.0; initialized = true; project_env_id = m.1 } in
    let read_in : (put_configs parsed.0 [], parsed.1) ≡ loaded = cc made in
    let stored : of_map loaded ≡ store = cc last in
    let same : of_map (put_configs parsed.0 [], parsed.1) ≡ store = ap of_map read_in ∙ stored in
    subst (IsStoreOf host files path key) same
      (parsed.0, parse_by-ok host files path (parser_for path) refl e', get_configs key parsed.0)

dump_store-ok :
    (env_id : ℤ) (r : Result (Dict Config)) {store : FileConfigStore}
    → dump_store env_id r ≡ ok store
    → (env_id ≢ pos 0) × (store.project_env_id ≡ env_id) × (r ≡ ok store.config_map)
unfolding dump_store
dump_store-ok env_id (err e) h = absurd (cc h)
dump_store-ok env_id (ok config_map) h = ground (arith, eq_ℤ_iff env_id (pos 0))

dump_of_data-ok :
    (o : Option (List ConfigWrapper)) {config_map : Dict Config}
    → dump_of_data o ≡ ok config_map
    → (wrappers : List ConfigWrapper) × (o ≡ some wrappers)
      × (put_configs (kept wrappers) [] ≡ config_map)
unfolding dump_of_data
dump_of_data-ok none h = absurd (cc h)
dump_of_data-ok (some wrappers) h = (wrappers, refl, sym (put_wrappers-kept wrappers []) ∙ cc h)

dump_of_file-ok :
    (files : FileHost) (o : Option GoString) {config_map : Dict Config}
    → dump_of_file files o ≡ ok config_map
    → (data_ : GoString) × (wrappers : List ConfigWrapper) × (o ≡ some data_)
      × (files.unmarshal_dump data_ ≡ some wrappers)
      × (put_configs (kept wrappers) [] ≡ config_map)
unfolding dump_of_file
dump_of_file-ok files none h = absurd (cc h)
dump_of_file-ok files (some data_) h =
    let (wrappers, e, same) = dump_of_data-ok (files.unmarshal_dump data_) h in
    (data_, wrappers, refl, e, same)

-- A dump store that is made has a project environment, and for each key it has the last config of the file
-- that has the key and is not deleted.
pub new_config_dump_config_store-last :
    (files : FileHost) (path key : GoString) (env_id : ℤ) {store : FileConfigStore}
    → new_config_dump_config_store files path env_id ≡ ok store
    → (env_id ≢ pos 0)
      × (store.project_env_id ≡ env_id)
      × ((data_ : GoString) × (wrappers : List ConfigWrapper) × (files.read_file path ≡ some data_)
          × (files.unmarshal_dump data_ ≡ some wrappers)
          × ((as_getter store).get_config key ≡ last_with key (kept wrappers)))
unfolding new_config_dump_config_store config_dump_file_to_config_map as_getter
new_config_dump_config_store-last files path key env_id {store} h =
    let (given, env, made) = dump_store-ok env_id (config_dump_file_to_config_map files path) h in
    let (data_, wrappers, read_in, parsed, same) =
      dump_of_file-ok files (files.read_file path) made in
    (
      given,
      env,
      (
        data_,
        wrappers,
        read_in,
        parsed,
        sym (ap (Dict.get key) same) ∙ get_configs key (kept wrappers),
      ),
    )

parser_for-json :
    (path : GoString)
    → has_suffix path (codes ".json") ≡ true
    → parser_for path ≡ ok ConfigParser.json_parser
unfolding parser_for
parser_for-json path json = rw (json) refl

parse_by-json :
    (host : Host) (files : FileHost) (path data_ : GoString) (configs : Configs)
    → has_suffix path (codes ".json") ≡ true
    → files.read_file path ≡ some data_
    → files.unmarshal_json_configs data_ ≡ some configs
    → parse_by host files path (parser_for path)
      ≡ with_pointer configs.configs configs.config_service_pointer
unfolding parse_by parse_file parse parse_json
parse_by-json host files path data_ configs json read_in parsed =
    ap (parse_by host files path) (parser_for-json path json)
    ∙ ap (parse_file host files ConfigParser.json_parser) read_in
    ∙ ap parse_json parsed

-- What becomes of the parsed file.
store_of_parsed : Outcome (Result (List Config × ℤ)) → Outcome (Result FileConfigStore)
store_of_parsed parsed =
    unless_error {A = Dict Config × ℤ} (unless_error parsed λ p. ret (ok (put_configs p.0 [], p.1)))
      λ loaded.
        ret (ok (record { config_map = loaded.0; initialized = true; project_env_id = loaded.1 }))

of_pointer_iff :
    (configs : List Config) (pointer : Option ℤ)
    → (store_of_parsed (with_pointer configs pointer) ≡ panics) ↔ (pointer ≡ none)
unfolding store_of_parsed with_pointer
of_pointer_iff configs none = (λ _. refl, λ _. refl)
of_pointer_iff configs (some env_id) = (λ h. absurd (cc h), λ h. absurd (cc h))

-- A JSON file that is read and parsed to a message: making its store is a run-time panic exactly where the
-- message has no ConfigServicePointer.
pub new_local_config_store_panics_iff :
    (host : Host) (files : FileHost) (path data_ : GoString) (configs : Configs)
    → has_suffix path (codes ".json") ≡ true
    → files.read_file path ≡ some data_
    → files.unmarshal_json_configs data_ ≡ some configs
    → (new_local_config_store host files path ≡ panics) ↔ (configs.config_service_pointer ≡ none)
unfolding new_local_config_store load_file_into_map store_of_parsed
new_local_config_store_panics_iff host files path data_ configs json read_in parsed =
    let same =
      ap store_of_parsed (parse_by-json host files path data_ configs json read_in parsed) in
    let of_pointer = of_pointer_iff configs.configs configs.config_service_pointer in
    (λ h. of_pointer.0 (sym same ∙ h), λ h. same ∙ of_pointer.1 h)
