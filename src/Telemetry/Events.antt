-- ===== src/Telemetry/Events.antt =====
-- The telemetry messages of proto/prefab.pb.go that the aggregators make.
use prefab_cloud_go.Prelude.{ℕ, ℤ, GoString, Option, List}
use prefab_cloud_go.Prelude.Dict.{Dict}
use prefab_cloud_go.Proto.{ConfigType, ConfigValue}
use prefab_cloud_go.Telemetry.Examples.{ExampleContext}

pub record ContextShape : Type 0 where
  pub name : GoString
  pub field_types : Dict ℕ

pub record ConfigEvaluationCounter : Type 0 where
  pub config_id : ℤ
  pub config_row_index : Option ℕ
  pub conditional_value_index : Option ℕ
  pub weighted_value_index : Option ℕ
  pub selected_value : ConfigValue
  pub count : ℤ

pub record ConfigEvaluationSummary : Type 0 where
  pub key : GoString
  pub config_type : ConfigType
  pub counters : List ConfigEvaluationCounter

-- TelemetryEvent: its payload, that of the summaries with their start and end.
pub data TelemetryEvent : Type 0 where
  summaries : ℤ → ℤ → List ConfigEvaluationSummary → TelemetryEvent
  example_contexts : List ExampleContext → TelemetryEvent
  context_shapes : List ContextShape → TelemetryEvent
