-- ===== src/Options/Settings.antt =====
-- pkg/internal/options/options.go. The variables of the environment are an argument: `lookup` is
-- os.LookupEnv, and the random id of the instance is one too.
pub mod Urls
use prefab_cloud_go.Prelude.{
  ℕ, zero, suc, ◌+◌, ◌-◌, ◌*◌, ◌/◌, ◌%◌, ◌^◌, ◌≤◌, ◌<◌, ltb, leb, ◌==◌, bool_eq, if◌then◌else◌,
  ltb→lt, lt→ltb, leb→le, ==_iff, Bool-cases, Option-cases, length, get_elem?, length-append, All,
  any_of, ℤ, pos, negsuc, pos_part, neg_part, ◌≤ℤ◌, ◌<ℤ◌, ltb_ℤ, leb_ℤ, eq_ℤ, eq_ℤ_iff, GoString,
  codes, str_eq, str_eq_iff, str_eq_refl, str_lt, has_prefix, has_suffix, contains, join, split,
  cons_first, upper_byte, lower_byte, has_prefix_iff, Outcome, ret, panics, unfinished, ◌>>=◌,
  >>=-eq-ret, ◌≡◌, refl, sym, ap, ◌∙◌, ◌≢◌, ◌↔◌, ◌⊎◌, inl, inr, Bool, true, false, not, ◌&&◌, ◌||◌,
  Option, none, some, List, [], ◌∷◌, ◌++◌, map, arith,
}
use prefab_cloud_go.Prelude.Dict.{Dict}
use prefab_cloud_go.Errors.{Error, Result, ok, err}
use prefab_cloud_go.Proto.{Float64}
use prefab_cloud_go.GoValue.{Host}
use prefab_cloud_go.Contexts.{ContextSet, new_context_set}
use prefab_cloud_go.Stores.Memory.{RawConfig}
use prefab_cloud_go.Client.{OnInitializationFailure}
use prefab_cloud_go.Options.Sources.{ConfigSource, data_file, default_config_sources}

abbrev pub ContextTelemetryMode : Type 0
ContextTelemetryMode = GoString

abbrev pub periodic_example : ContextTelemetryMode
periodic_example = codes "periodic_example"

abbrev pub shapes : ContextTelemetryMode
shapes = codes "shapes"

abbrev pub no_telemetry : ContextTelemetryMode
no_telemetry = []

-- `Options`. The slice of API URLs is `none` where it is nil, and so is the global context.
pub record Options : Type 0 where
  pub global_context : Option ContextSet
  pub configs : Dict RawConfig
  pub api_key : GoString
  pub api_urls : Option (List GoString)
  pub sources : List ConfigSource
  pub environment_names : List GoString
  pub project_env_id : ℤ
  pub initialization_timeout_seconds : Float64
  pub on_initialization_failure : OnInitializationFailure
  pub context_telemetry_mode : ContextTelemetryMode
  pub collect_evaluation_summaries : Bool
  pub telemetry_sync_interval : ℤ
  pub telemetry_host : GoString
  pub instance_hash : GoString
  pub custom_env_lookup : GoString → Option GoString

-- `os.Getenv`: empty where the variable is not set.
unfoldable pub getenv : (GoString → Option GoString) → GoString → GoString
getenv lookup name = elim (lookup name) [ some value ↦ value | none ↦ [] ]

abbrev pub default_api_urls : List GoString
default_api_urls = codes "https://belt.prefab.cloud" ∷ codes "https://suspenders.prefab.cloud" ∷ []

abbrev pub url_override : GoString
url_override = codes "PREFAB_API_URL_OVERRIDE"

abbrev pub api_url_var : GoString
api_url_var = codes "PREFAB_API_URL"

abbrev pub api_key_env_var : GoString
api_key_env_var = codes "PREFAB_API_KEY"

unfoldable pub default_sources : GoString → List ConfigSource
default_sources [] = default_config_sources
default_sources (c ∷ path) =
    record { store = data_file; raw = c ∷ path; path = c ∷ path; is_default = false } ∷ []

unfoldable pub default_options : Host → (GoString → Option GoString) → GoString → Options
default_options host lookup uuid =
    let overriding = getenv lookup url_override in
    record {
      global_context = some new_context_set;
      configs = [];
      api_key = [];
      api_urls = if str_eq overriding [] then none else some (overriding ∷ []);
      sources = default_sources (getenv lookup (codes "PREFAB_DATAFILE"));
      environment_names = [];
      project_env_id = pos 0;
      initialization_timeout_seconds = host.float_of_int (pos 10);
      on_initialization_failure = OnInitializationFailure.return_error;
      context_telemetry_mode = periodic_example;
      collect_evaluation_summaries = true;
      telemetry_sync_interval = pos (60 * 10 ^ 9);
      telemetry_host = codes "https://telemetry.prefab.cloud";
      instance_hash = uuid;
      custom_env_lookup = lookup;
    }

unfoldable pub telemetry_enabled : Options → Bool
telemetry_enabled o =
    o.collect_evaluation_summaries || not (str_eq o.context_telemetry_mode no_telemetry)

-- The key, and the options behind the call: a key of the environment is written into them.
unfoldable pub api_key_setting_or_env_var :
    (GoString → Option GoString) → Options → Options × Result GoString
api_key_setting_or_env_var lookup o =
    if str_eq o.api_key []
    then (let env_api_key = getenv lookup api_key_env_var in
        if str_eq env_api_key []
        then (o, err Error.api_key_not_set)
        else (record o { api_key = env_api_key }, ok env_api_key))
    else (o, ok o.api_key)

-- The URLs that are not blank.
unfoldable pub not_blank : List GoString → List GoString
not_blank [] = []
not_blank (url ∷ urls) = let rest = not_blank urls in if str_eq url [] then rest else url ∷ rest

urls_of_variable : List GoString → Result (List GoString)
urls_of_variable [] = err Error.api_urls_blank
urls_of_variable (url ∷ urls) = ok (url ∷ urls)

pub urls_of_setting : GoString → Option (List GoString) → List GoString
urls_of_setting overriding none = default_api_urls
urls_of_setting overriding (some urls) =
    if str_eq overriding [] then not_blank urls else overriding ∷ []

unfoldable pub prefab_api_url_env_var_or_setting :
    (GoString → Option GoString) → Options → Result (List GoString)
unfolding urls_of_variable urls_of_setting
prefab_api_url_env_var_or_setting lookup o =
    let variable = getenv lookup api_url_var in
    if str_eq variable []
    then ok (urls_of_setting (getenv lookup url_override) o.api_urls)
    else urls_of_variable (not_blank (split b',' variable))
