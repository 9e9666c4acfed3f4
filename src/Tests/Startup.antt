-- ===== src/Tests/Startup.antt =====
-- The theorems on the start of a client and on its telemetry at one input each.
use prefab_cloud_go.Prelude.{
  zero, suc, ◌<◌, ◌==◌, length, any_of, pos, GoString, codes, str_eq, has_prefix, contains, ret,
  panics, ◌≡◌, refl, ◌↔◌, true, false, not, none, some, [], ◌∷◌, ◌++◌, arith,
}
use prefab_cloud_go.Prelude.Dict
use prefab_cloud_go.Prelude.Dict.{Dict, IsMap}
use prefab_cloud_go.Errors.{ok}
use prefab_cloud_go.Proto.{Config, ConfigValue}
use prefab_cloud_go.GoValue.{Any, IntKind}
use prefab_cloud_go.ConfigValues.{create}
use prefab_cloud_go.Evaluator.{evaluate_config}
use prefab_cloud_go.Options.Sources.{
  ConfigSource, protocol_mark, data_file, parse_config_source, split_from,
}
use prefab_cloud_go.Options.Sources.Parsing.{IsSourceOf, parse_config_source_iff, memory_source}
use prefab_cloud_go.Options.Settings.{
  Options, default_options, default_sources, getenv, no_telemetry,
}
use prefab_cloud_go.Options.Helpers.{
  apply_options, with_configs, with_sources, with_offline_sources, parse_sources,
}
use prefab_cloud_go.Stores.Memory
use prefab_cloud_go.Stores.Memory.{
  RawConfig, MemoryConfigStore, of_value, new_memory_config_store, make_configs, config_of_raw,
  config_of_created, config_of_value,
}
use prefab_cloud_go.Stores.Build.{World, of_memory, build_config_store, foreground_store}
use prefab_cloud_go.Client.{of_evaluation}
use prefab_cloud_go.Client.Startup.{NewClient, new_client, build_stores, has_other_sources}
use prefab_cloud_go.Client.Startup.Offline.{is_api, new_client-initialized}
use prefab_cloud_go.Client.Startup.Alone.{new_client-with_configs}
use prefab_cloud_go.Client.Startup.Race.{
  StartEvent, Channel, zero_client, start, times_loaded, start_iff,
}
use prefab_cloud_go.Resolver.{missing}
use prefab_cloud_go.Telemetry.Summaries.{new_evaluation_summary_aggregator}
use prefab_cloud_go.Telemetry.Summaries.Counting.{all_recorded}
use prefab_cloud_go.Telemetry.Summaries.Reporting.{get_data}
use prefab_cloud_go.Telemetry.Summaries.Totals.{total_of_event}
use prefab_cloud_go.Telemetry.Summaries.Conservation.{get_data-total}
use prefab_cloud_go.Contexts.{new_context_set}
use prefab_cloud_go.Client.{int_reader, get_value, with_context}
use prefab_cloud_go.Client.Binding.{get_value-with_context}
use prefab_cloud_go.Tests.Data.{waiting_client}
use prefab_cloud_go.Telemetry.Submitter.{Submitter, new_telemetry_submitter, submit_context}
use prefab_cloud_go.Telemetry.Submitter.Queue.{WellFormed}
use prefab_cloud_go.Telemetry.Submitter.Runs.{at_start, step, in_context, Reachable-WellFormed}
use prefab_cloud_go.Telemetry.Submitter.Draining.{rounds, summaries_behind, rounds-drain}
use prefab_cloud_go.Telemetry.Submission.{retry_request}
use prefab_cloud_go.Telemetry.Submission.Retries.{retry_request-answered}
use prefab_cloud_go.Tests.Data.{whole_number_host, evaluator, core_user, user_context, int_value}

abbrev datafile_source : ConfigSource
datafile_source = record {
  store = data_file;
  raw = codes "datafile://c:/a.json";
  path = codes "c:/a.json";
  is_default = false;
}

parse_config_source_iff_example :
    (parse_config_source (codes "datafile" ++ (protocol_mark ++ codes "c:/a.json"))
      ≡ ok datafile_source)
    ↔ IsSourceOf
        (codes "datafile" ++ (protocol_mark ++ codes "c:/a.json"))
        (codes "datafile")
        (codes "c:/a.json")
        datafile_source
unfolding contains has_prefix
parse_config_source_iff_example =
    parse_config_source_iff (codes "datafile") (codes "c:/a.json") datafile_source
      (refl, (refl, (refl, (refl, (refl, (refl, (refl, (refl, tt)))))))) refl

-- No variables in the environment, and no files.
abbrev world : World
world = record {
  lookup_env = λ name. none;
  find_subdomain = λ url. none;
  files = record {
    read_file = λ path. none;
    unmarshal_yaml = λ data_. none;
    unmarshal_json_configs = λ data_. none;
    unmarshal_dump = λ data_. none;
  };
}

abbrev configs : Dict RawConfig
configs = (codes "limit", of_value (Any.int IntKind.plain (pos 3))) ∷ []

abbrev offline_options : Options
unfolding default_options
offline_options = record (default_options whole_number_host world.lookup_env []) {
  context_telemetry_mode = no_telemetry;
  sources = memory_source ∷ [];
  configs = configs;
}

abbrev memory_store : MemoryConfigStore
memory_store = record {
  config_map = (codes "limit", config_of_value (codes "limit") (int_value (pos 3))) ∷ [];
  project_env_id = pos 0;
}

abbrev offline_client : NewClient
offline_client = record {
  options = offline_options;
  config_stores = of_memory memory_store ∷ [];
  initialized = true;
}

made_offline :
    new_client whole_number_host world [] (with_configs configs ∷ []) ≡ ret (ok offline_client)
unfolding new_client default_options apply_options with_configs with_offline_sources with_sources
    parse_sources parse_config_source split_from build_stores build_config_store foreground_store
    has_other_sources new_memory_config_store make_configs config_of_raw config_of_created create
    str_eq has_prefix Dict.put getenv default_sources
made_offline = refl

new_client-initialized_example :
    (apply_options
        (with_configs configs ∷ [])
        (default_options whole_number_host world.lookup_env [])
      ≡ ok offline_client.options)
    × (length offline_client.config_stores ≡ length offline_client.options.sources)
    × (offline_client.initialized ≡ not (any_of is_api offline_client.options.sources))
new_client-initialized_example =
    new_client-initialized whole_number_host world [] (with_configs configs ∷ []) made_offline

new_client-with_configs_example :
    (offline_client.initialized ≡ true)
    × ((store : MemoryConfigStore) × (offline_client.config_stores ≡ of_memory store ∷ [])
        × ((cv : ConfigValue) × (config : Config) × (create whole_number_host
                (Any.int IntKind.plain (pos 3))
              ≡ ret (cv, true))
            × ((Memory.as_getter store).get_config (codes "limit") ≡ some config)
            × (evaluate_config evaluator core_user 1 config
                ≡ ret (record {
                  match = cv;
                  row_index = some 0;
                  conditional_value_index = some 0;
                  is_match = true;
                }))))
unfolding Dict.get str_eq
new_client-with_configs_example =
    new_client-with_configs whole_number_host world [] configs (codes "limit")
      (Any.int IntKind.plain (pos 3)) evaluator core_user 0 {client = offline_client} (refl, tt)
      made_offline refl

abbrev without_source : Options
unfolding default_options
without_source = record (default_options whole_number_host world.lookup_env []) { sources = [] }

start_iff_example :
    ((start zero_client (times_loaded 1 ++ (StartEvent.assigned ∷ times_loaded 1)) ≡ panics)
      ↔ (0 < 1))
    × ((start zero_client (times_loaded 1 ++ (StartEvent.assigned ∷ times_loaded 1))
          ≡ ret (record { initialization_complete = Channel.closed_channel; once_done = true }))
        ↔ ((suc zero ≡ 0) × (0 < 1)))
start_iff_example = start_iff 1 1

abbrev telemetry_options : Options
unfolding default_options
telemetry_options = default_options whole_number_host world.lookup_env []

abbrev text : ConfigValue → GoString
text value = []

Reachable-WellFormed_example :
    WellFormed (submit_context (new_telemetry_submitter telemetry_options) user_context)
Reachable-WellFormed_example =
    Reachable-WellFormed whole_number_host text telemetry_options
      (submit_context (new_telemetry_submitter telemetry_options) user_context)
      (step _ _ at_start (in_context (new_telemetry_submitter telemetry_options) user_context))

-- With no example contexts, and one evaluation in the queue.
abbrev waiting_submitter : Submitter
waiting_submitter = record {
  context_aggregators = none;
  evaluation_summary_aggregator = some new_evaluation_summary_aggregator;
  instance_hash = [];
  host = [];
  api_key = [];
  queue = of_evaluation (missing (codes "flag")) ∷ [];
  in_hand = none;
}

rounds-drain_example :
    (behind : Submitter) × (rounds whole_number_host text (λ n. pos n) 1 waiting_submitter
      ≡ ret behind)
    × (behind.queue ≡ [])
    × (behind.in_hand ≡ none)
    × (behind.evaluation_summary_aggregator
        ≡ summaries_behind text
            (λ n. pos n)
            waiting_submitter.evaluation_summary_aggregator
            waiting_submitter.queue)
rounds-drain_example =
    rounds-drain whole_number_host text (λ n. pos n) waiting_submitter.queue waiting_submitter refl
      refl (refl, tt) (tt, tt)

retry_request-answered_example : retry_request (λ attempt. attempt == 3) ≡ (none, 3)
retry_request-answered_example =
    retry_request-answered (λ attempt. attempt == 3) 2 (omega arith) (refl, (refl, tt)) refl

get_data-total_example :
    total_of_event (get_data (pos 9) (all_recorded text ((pos 5, missing (codes "flag")) ∷ []))) ≡ 1
get_data-total_example =
    get_data-total text (pos 9) ((pos 5, missing (codes "flag")) ∷ []) (omega arith)

get_value-with_context_example :
    get_value waiting_client
      (with_context new_context_set user_context)
      int_reader
      true
      (codes "flag")
      new_context_set
    ≡ get_value waiting_client new_context_set int_reader true (codes "flag") user_context
get_value-with_context_example =
    get_value-with_context waiting_client new_context_set user_context int_reader true
      (codes "flag")
