-- ===== src/Telemetry/Submitter.antt =====
-- pkg/internal/telemetry/submitter.go and interfaces.go. The queue's consumer runs beside the callers:
-- it takes an item out of the queue, and then records it, in two steps.
pub mod Queue
pub mod Runs
pub mod Draining
use prefab_cloud_go.Prelude.{
  ℕ, zero, suc, ◌+◌, ◌-◌, ◌*◌, ◌/◌, ◌%◌, ◌^◌, ◌≤◌, ◌<◌, ltb, leb, ◌==◌, bool_eq, if◌then◌else◌,
  ltb→lt, lt→ltb, leb→le, ==_iff, Bool-cases, Option-cases, length, get_elem?, length-append, All,
  any_of, ℤ, pos, negsuc, pos_part, neg_part, ◌≤ℤ◌, ◌<ℤ◌, ltb_ℤ, leb_ℤ, eq_ℤ, eq_ℤ_iff, GoString,
  codes, str_eq, str_eq_iff, str_eq_refl, str_lt, has_prefix, has_suffix, contains, join, split,
  cons_first, upper_byte, lower_byte, has_prefix_iff, Outcome, ret, panics, unfinished, ◌>>=◌,
  >>=-eq-ret, ◌≡◌, refl, sym, ap, ◌∙◌, ◌≢◌, ◌↔◌, ◌⊎◌, inl, inr, Bool, true, false, not, ◌&&◌, ◌||◌,
  Option, none, some, List, [], ◌∷◌, ◌++◌, map, arith,
}
use prefab_cloud_go.Errors.{Error, Result, ok, err}
use prefab_cloud_go.Proto.{ConfigValue, ConfigValueType, get_type}
use prefab_cloud_go.GoValue.{Host}
use prefab_cloud_go.Contexts.{ContextSet}
use prefab_cloud_go.Resolver.{ConfigMatch}
use prefab_cloud_go.Client.{Recorded, of_context, of_evaluation}
use prefab_cloud_go.Options.Settings.{Options, periodic_example, shapes}
use prefab_cloud_go.Telemetry.Events.{TelemetryEvent}
use prefab_cloud_go.Telemetry.Summaries
use prefab_cloud_go.Telemetry.Summaries.{
  EvaluationSummaryAggregator, new_evaluation_summary_aggregator, record_evaluation,
}
use prefab_cloud_go.Telemetry.Summaries.Reporting
use prefab_cloud_go.Telemetry.Examples.{
  ExampleContext, ExampleContextAggregator, new_example_context_aggregator, record_context,
}
use prefab_cloud_go.Telemetry.Shapes
use prefab_cloud_go.Telemetry.Shapes.{
  ContextShapeAggregator, new_context_shape_aggregator, record_shapes,
}

-- The aggregators of contexts.
pub data ContextAggregator : Type 0 where
  example_contexts : ExampleContextAggregator → ContextAggregator
  context_shapes : ContextShapeAggregator → ContextAggregator

-- `NewContextAggregators`: nil for every other mode.
unfoldable pub new_context_aggregators : Options → Option (List ContextAggregator)
new_context_aggregators o =
    if str_eq o.context_telemetry_mode periodic_example
    then some (
        example_contexts new_example_context_aggregator
        ∷ context_shapes new_context_shape_aggregator
        ∷ [])
    else if str_eq o.context_telemetry_mode shapes
    then some (context_shapes new_context_shape_aggregator ∷ [])
    else none

-- `Submitter`. Its `aggregators` are the pointers in the other two fields, those of contexts first;
-- `in_hand` is what the consumer has taken out of the queue and not recorded yet.
pub record Submitter : Type 0 where
  pub context_aggregators : Option (List ContextAggregator)
  pub evaluation_summary_aggregator : Option EvaluationSummaryAggregator
  pub instance_hash : GoString
  pub host : GoString
  pub api_key : GoString
  pub queue : List Recorded
  pub in_hand : Option Recorded

unfoldable pub new_telemetry_submitter : Options → Submitter
new_telemetry_submitter o = record {
  context_aggregators = new_context_aggregators o;
  evaluation_summary_aggregator =
      if o.collect_evaluation_summaries then some new_evaluation_summary_aggregator else none;
  instance_hash = o.instance_hash;
  host = o.telemetry_host;
  api_key = o.api_key;
  queue = [];
  in_hand = none;
}

abbrev pub queue_capacity : ℕ
queue_capacity = 10000

-- An item for which there is no room is dropped.
unfoldable pub enqueue : Submitter → Recorded → Submitter
enqueue ts item =
    if ltb (length ts.queue) queue_capacity
    then record ts { queue = ts.queue ++ (item ∷ []) }
    else ts

unfoldable pub is_log_level : ConfigValueType → Bool
is_log_level (ConfigValueType.log_level l) = true
is_log_level _ = false

with_summaries : Submitter → Option EvaluationSummaryAggregator → ConfigMatch → Submitter
with_summaries ts none data_ = ts
with_summaries ts (some esa) data_ =
    if data_.is_match && not (is_log_level (get_type data_.match))
    then enqueue ts (of_evaluation data_)
    else ts

-- `RecordEvaluation`: no log level, and only matches.
unfoldable pub submit_evaluation : Submitter → ConfigMatch → Submitter
unfolding with_summaries
submit_evaluation ts data_ = with_summaries ts ts.evaluation_summary_aggregator data_

with_contexts : Submitter → Option (List ContextAggregator) → ContextSet → Submitter
with_contexts ts none data_ = ts
with_contexts ts (some aggregators) data_ = enqueue ts (of_context data_)

-- `RecordContext`.
unfoldable pub submit_context : Submitter → ContextSet → Submitter
unfolding with_contexts
submit_context ts data_ = with_contexts ts ts.context_aggregators data_

unfoldable pub record_in : Host → ℤ → ContextSet → ContextAggregator → Outcome ContextAggregator
record_in host now set (example_contexts eca) =
    record_context host now eca set >>= λ recorded. ret (example_contexts recorded)
record_in host now set (context_shapes eca) = ret (context_shapes (record_shapes eca set))

unfoldable pub record_in_all :
    Host → ℤ → ContextSet → List ContextAggregator → Outcome (List ContextAggregator)
record_in_all host now set [] = ret []
record_in_all host now set (aggregator ∷ aggregators) = do
  first ← record_in host now set aggregator
  others ← record_in_all host now set aggregators
  ret (first ∷ others)

-- `internalRecordEvaluation`: a nil aggregator is dereferenced.
unfoldable pub internal_record_evaluation :
    (ConfigValue → GoString)
    → ℤ
    → Option EvaluationSummaryAggregator
    → ConfigMatch
    → Outcome EvaluationSummaryAggregator
internal_record_evaluation text now none data_ = panics
internal_record_evaluation text now (some esa) data_ = ret (record_evaluation text now esa data_)

-- `internalRecordContext`: a nil slice has no aggregators.
unfoldable pub internal_record_context :
    Host
    → ℤ
    → Option (List ContextAggregator)
    → ContextSet
    → Outcome (Option (List ContextAggregator))
internal_record_context host now none data_ = ret none
internal_record_context host now (some aggregators) data_ =
    record_in_all host now data_ aggregators >>= λ recorded. ret (some recorded)

-- What the consumer does with an item.
unfoldable pub handle_item :
    Host → (ConfigValue → GoString) → ℤ → Submitter → Recorded → Outcome Submitter
handle_item host text now ts (of_evaluation data_) =
    internal_record_evaluation text now ts.evaluation_summary_aggregator data_ >>= λ esa.
    ret (record ts { evaluation_summary_aggregator = some esa })
handle_item host text now ts (of_context data_) =
    internal_record_context host now ts.context_aggregators data_ >>= λ aggregators.
    ret (record ts { context_aggregators = aggregators })

pub take_from : Submitter → List Recorded → Submitter
take_from ts [] = ts
take_from ts (item ∷ items) = record ts { queue = items; in_hand = some item }

-- The consumer's receive: it waits while the queue is empty.
unfoldable pub take_item : Submitter → Submitter
unfolding take_from
take_item ts = take_from ts ts.queue

pub with_item :
    Host → (ConfigValue → GoString) → ℤ → Submitter → Option Recorded → Outcome Submitter
with_item host text now ts none = ret ts
with_item host text now ts (some item) =
    handle_item host text now (record ts { in_hand = none }) item

-- The recording of the item in hand.
unfoldable pub record_item : Host → (ConfigValue → GoString) → ℤ → Submitter → Outcome Submitter
unfolding with_item
record_item host text now ts = with_item host text now ts ts.in_hand
