-- ===== src/Telemetry/Summaries/Reporting.antt =====
-- pkg/internal/telemetry/evaluation_summary_aggregator.go: `GetData`. The maps are walked through in the
-- order of their keys' first occurrence, which Go leaves open.
use prefab_cloud_go.Prelude.{
  ℕ, ◌%◌, ◌^◌, if◌then◌else◌, ℤ, pos, eq_ℤ, GoString, Option, none, some, List, [], ◌∷◌, ◌++◌,
}
use prefab_cloud_go.Prelude.Dict
use prefab_cloud_go.Prelude.Dict.{Dict}
use prefab_cloud_go.Proto.{ConfigType}
use prefab_cloud_go.Resolver.{ConfigMatch}
use prefab_cloud_go.Telemetry.Events.{
  ConfigEvaluationCounter, ConfigEvaluationSummary, TelemetryEvent,
}
use prefab_cloud_go.Telemetry.Summaries.{EvaluationSummaryAggregator, or_zero}

-- The numbers of the config types, by which Go compares them.
abbrev pub config_type_number : ConfigType → ℤ
config_type_number ConfigType.not_set_config_type = pos 0
config_type_number ConfigType.config = pos 1
config_type_number ConfigType.feature_flag = pos 2
config_type_number ConfigType.log_level_type = pos 3
config_type_number ConfigType.segment = pos 4
config_type_number ConfigType.limit_definition_type = pos 5
config_type_number ConfigType.deleted = pos 6
config_type_number ConfigType.schema_type = pos 7
config_type_number ConfigType.log_level_v2 = pos 8
config_type_number (ConfigType.unnamed_config_type n) = n

-- A uint32 of an int that is an index.
unfoldable pub coerce_to_uint32_unless_nil : Option ℕ → Option ℕ
coerce_to_uint32_unless_nil none = none
coerce_to_uint32_unless_nil (some value) = some (value % 2 ^ 32)

unfoldable pub counter_of : ConfigMatch → ℤ → ConfigEvaluationCounter
counter_of evaluation count = record {
  config_id = evaluation.config_id;
  config_row_index = coerce_to_uint32_unless_nil evaluation.row_index;
  conditional_value_index = coerce_to_uint32_unless_nil evaluation.conditional_value_index;
  weighted_value_index = coerce_to_uint32_unless_nil evaluation.weighted_value_index;
  selected_value = evaluation.match;
  count = count;
}

abbrev pub CountersByType : Type 0
CountersByType = List (ConfigType × List ConfigEvaluationCounter)

unfoldable pub add_by_type : ConfigType → ConfigEvaluationCounter → CountersByType → CountersByType
add_by_type config_type counter [] = (config_type, counter ∷ []) ∷ []
add_by_type config_type counter ((t, counters) ∷ others) =
    let rest = add_by_type config_type counter others in
    if eq_ℤ (config_type_number t) (config_type_number config_type)
    then (t, counters ++ (counter ∷ [])) ∷ others
    else (t, counters) ∷ rest

abbrev pub counters_of : Option CountersByType → CountersByType
counters_of none = []
counters_of (some counters) = counters

unfoldable pub add_counter :
    ConfigMatch → ConfigEvaluationCounter → Dict CountersByType → Dict CountersByType
add_counter evaluation counter lookup =
    Dict.put evaluation.config_key
      (add_by_type evaluation.config_type counter
        (counters_of (Dict.get evaluation.config_key lookup)))
      lookup

-- `counterLookup`.
unfoldable pub counter_lookup :
    Dict ConfigMatch → Dict ℤ → Dict CountersByType → Dict CountersByType
counter_lookup [] counts lookup = lookup
counter_lookup ((grouping_key, evaluation) ∷ evaluations) counts lookup =
    counter_lookup evaluations counts (
      add_counter evaluation (counter_of evaluation (or_zero (Dict.get grouping_key counts)))
        lookup)

unfoldable pub summaries_of_key : GoString → CountersByType → List ConfigEvaluationSummary
summaries_of_key key [] = []
summaries_of_key key ((config_type, counters) ∷ others) =
    record { key = key; config_type = config_type; counters = counters }
    ∷ summaries_of_key key others

unfoldable pub summaries_of : Dict CountersByType → List ConfigEvaluationSummary
summaries_of [] = []
summaries_of ((key, counters) ∷ lookup) = summaries_of_key key counters ++ summaries_of lookup

-- `GetData`, at a time of the clock.
unfoldable pub get_data : ℤ → EvaluationSummaryAggregator → TelemetryEvent
get_data now esa =
    TelemetryEvent.summaries esa.data_start now
      (summaries_of (counter_lookup esa.evaluations esa.counts []))
