-- ===== src/Options/Helpers.antt =====
-- pkg/option_helpers.go: each option changes the options, and may fail.
pub mod Offline
use prefab_cloud_go.Prelude.{
  ℕ, zero, suc, ◌+◌, ◌-◌, ◌*◌, ◌/◌, ◌%◌, ◌^◌, ◌≤◌, ◌<◌, ltb, leb, ◌==◌, bool_eq, if◌then◌else◌,
  ltb→lt, lt→ltb, leb→le, ==_iff, Bool-cases, Option-cases, length, get_elem?, length-append, All,
  any_of, ℤ, pos, negsuc, pos_part, neg_part, ◌≤ℤ◌, ◌<ℤ◌, ltb_ℤ, leb_ℤ, eq_ℤ, eq_ℤ_iff, GoString,
  codes, str_eq, str_eq_iff, str_eq_refl, str_lt, has_prefix, has_suffix, contains, join, split,
  cons_first, upper_byte, lower_byte, has_prefix_iff, Outcome, ret, panics, unfinished, ◌>>=◌,
  >>=-eq-ret, ◌≡◌, refl, sym, ap, ◌∙◌, ◌≢◌, ◌↔◌, ◌⊎◌, inl, inr, Bool, true, false, not, ◌&&◌, ◌||◌,
  Option, none, some, List, [], ◌∷◌, ◌++◌, map, arith,
}
use prefab_cloud_go.Prelude.Dict.{Dict}
use prefab_cloud_go.Errors.{Error, Result, ok, err}
use prefab_cloud_go.Proto.{Float64}
use prefab_cloud_go.Contexts.{ContextSet}
use prefab_cloud_go.Stores.Memory.{RawConfig}
use prefab_cloud_go.Client.{OnInitializationFailure}
use prefab_cloud_go.Options.Sources.{
  ConfigSource, default_config_sources, memory_store_key, parse_config_source,
}
use prefab_cloud_go.Options.Settings.{Options, ContextTelemetryMode, no_telemetry}

-- `Option`: the options behind it, and the error that it returns.
abbrev pub ClientOption : Type 0
ClientOption = Options → Options × Option Error

unfoldable pub with_project_env_id : ℤ → ClientOption
with_project_env_id project_env_id o = (record o { project_env_id = project_env_id }, none)

abbrev pub add_source : ConfigSource → Result (List ConfigSource) → Result (List ConfigSource)
add_source source (ok sources) = ok (source ∷ sources)
add_source source (err e) = err e

-- The loop of `WithSources`: the first error ends it.
unfoldable pub parse_sources : List GoString → Result (List ConfigSource)
parse_sources [] = ok []
parse_sources (source ∷ sources) = elim (parse_config_source source) [
  | ok parsed ↦ add_source parsed (parse_sources sources)
  | err e ↦ err e
]

with_parsed : Bool → Result (List ConfigSource) → ClientOption
with_parsed exclude_default (err e) o = (o, some e)
with_parsed exclude_default (ok parsed) o = (
  record o { sources = if exclude_default then parsed else parsed ++ default_config_sources },
  none,
)

unfoldable pub with_sources : List GoString → Bool → ClientOption
unfolding with_parsed
with_sources sources exclude_default = with_parsed exclude_default (parse_sources sources)

unfoldable pub with_offline_sources : List GoString → ClientOption
with_offline_sources sources o =
    with_sources sources true (record o { context_telemetry_mode = no_telemetry })

unfoldable pub with_global_context : Option ContextSet → ClientOption
with_global_context global_context o = (record o { global_context = global_context }, none)

unfoldable pub with_api_key : GoString → ClientOption
with_api_key api_key o = (record o { api_key = api_key }, none)

unfoldable pub with_api_urls : Option (List GoString) → ClientOption
with_api_urls api_urls o = (record o { api_urls = api_urls }, none)

unfoldable pub with_initialization_timeout_seconds : Float64 → ClientOption
with_initialization_timeout_seconds timeout_seconds o =
    (record o { initialization_timeout_seconds = timeout_seconds }, none)

unfoldable pub with_on_initialization_failure : OnInitializationFailure → ClientOption
with_on_initialization_failure on_failure o =
    (record o { on_initialization_failure = on_failure }, none)

configured : Dict RawConfig → Options × Option Error → Options × Option Error
configured configs (o, some e) = (o, some e)
configured configs (o, none) = (record o { configs = configs }, none)

unfoldable pub with_configs : Dict RawConfig → ClientOption
unfolding configured
with_configs configs o = configured configs (with_offline_sources (memory_store_key ∷ []) o)

unfoldable pub with_telemetry_sync_interval : ℤ → ClientOption
with_telemetry_sync_interval interval o = (record o { telemetry_sync_interval = interval }, none)

unfoldable pub with_telemetry_host : GoString → ClientOption
with_telemetry_host host o = (record o { telemetry_host = host }, none)

unfoldable pub with_context_telemetry_mode : ContextTelemetryMode → ClientOption
with_context_telemetry_mode mode o = (record o { context_telemetry_mode = mode }, none)

unfoldable pub with_collect_evaluation_summaries : Bool → ClientOption
with_collect_evaluation_summaries collect o =
    (record o { collect_evaluation_summaries = collect }, none)

unfoldable pub with_all_telemetry_disabled : ClientOption
with_all_telemetry_disabled o =
    (record o { context_telemetry_mode = no_telemetry; collect_evaluation_summaries = false }, none)

unfoldable pub with_env_lookup : (GoString → Option GoString) → ClientOption
with_env_lookup lookup o = (record o { custom_env_lookup = lookup }, none)

-- The loop of `NewClient` over its options: the first error ends it.
unfoldable pub apply_options : List ClientOption → Options → Result Options
apply_options [] o = ok o
apply_options (opt ∷ opts) o = elim (opt o).1 [
  | some e ↦ err e
  | none ↦ apply_options opts (opt o).0
]
