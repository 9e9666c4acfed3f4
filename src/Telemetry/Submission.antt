-- ===== src/Telemetry/Submission.antt =====
-- pkg/internal/telemetry/submitter.go: the submission of what the aggregators hold, and its retries.
pub mod Retries
use prefab_cloud_go.Prelude.{
  ℕ, zero, suc, ◌+◌, ◌-◌, ◌*◌, ◌/◌, ◌%◌, ◌^◌, ◌≤◌, ◌<◌, ltb, leb, ◌==◌, bool_eq, if◌then◌else◌,
  ltb→lt, lt→ltb, leb→le, ==_iff, Bool-cases, Option-cases, length, get_elem?, length-append, All,
  any_of, ℤ, pos, negsuc, pos_part, neg_part, ◌≤ℤ◌, ◌<ℤ◌, ltb_ℤ, leb_ℤ, eq_ℤ, eq_ℤ_iff, GoString,
  codes, str_eq, str_eq_iff, str_eq_refl, str_lt, has_prefix, has_suffix, contains, join, split,
  cons_first, upper_byte, lower_byte, has_prefix_iff, Outcome, ret, panics, unfinished, ◌>>=◌,
  >>=-eq-ret, ◌≡◌, refl, sym, ap, ◌∙◌, ◌≢◌, ◌↔◌, ◌⊎◌, inl, inr, Bool, true, false, not, ◌&&◌, ◌||◌,
  Option, none, some, List, [], ◌∷◌, ◌++◌, map, arith,
}
use prefab_cloud_go.Errors.{Error, Result, ok, err}
use prefab_cloud_go.Proto.{ConfigValue, ConfigValueType, get_type}
use prefab_cloud_go.GoValue.{Host}
use prefab_cloud_go.Contexts.{ContextSet}
use prefab_cloud_go.Resolver.{ConfigMatch}
use prefab_cloud_go.Client.{Recorded, of_context, of_evaluation}
use prefab_cloud_go.Options.Settings.{Options, periodic_example, shapes}
use prefab_cloud_go.Telemetry.Events.{TelemetryEvent}
use prefab_cloud_go.Telemetry.Summaries
use prefab_cloud_go.Telemetry.Summaries.{
  EvaluationSummaryAggregator, new_evaluation_summary_aggregator, record_evaluation,
}
use prefab_cloud_go.Telemetry.Summaries.Reporting
use prefab_cloud_go.Telemetry.Examples.{
  ExampleContext, ExampleContextAggregator, new_example_context_aggregator, record_context,
}
use prefab_cloud_go.Telemetry.Shapes
use prefab_cloud_go.Telemetry.Shapes.{
  ContextShapeAggregator, new_context_shape_aggregator, record_shapes,
}
use prefab_cloud_go.Telemetry.Submitter.{
  ContextAggregator, example_contexts, context_shapes, Submitter,
}

-- `GetData`, and what is left behind `Clear`, which follows where there is data.
unfoldable pub collect : ContextAggregator → List TelemetryEvent × ContextAggregator
collect (example_contexts []) = ([], example_contexts [])
collect (example_contexts (example ∷ eca)) = (
  TelemetryEvent.example_contexts (map (λ e. e.1) (example ∷ eca)) ∷ [],
  example_contexts new_example_context_aggregator,
)
collect (context_shapes eca) = (Shapes.get_data eca ∷ [], context_shapes (Shapes.clear eca))

unfoldable pub collect_all : List ContextAggregator → List TelemetryEvent × List ContextAggregator
collect_all [] = ([], [])
collect_all (aggregator ∷ aggregators) =
    let first = collect aggregator in
    let others = collect_all aggregators in (first.0 ++ others.0, first.1 ∷ others.1)

unfoldable pub collect_contexts :
    Option (List ContextAggregator) → List TelemetryEvent × Option (List ContextAggregator)
collect_contexts none = ([], none)
collect_contexts (some aggregators) =
    let collected = collect_all aggregators in (collected.0, some collected.1)

unfoldable pub collect_summaries :
    ℤ
    → Option EvaluationSummaryAggregator
    → List TelemetryEvent × Option EvaluationSummaryAggregator
collect_summaries now none = ([], none)
collect_summaries now (some esa) = (Reporting.get_data now esa ∷ [], some (Summaries.clear esa))

-- `len(ts.aggregators) == 0`.
unfoldable pub has_no_aggregators : Submitter → Bool
has_no_aggregators ts = elim ts.evaluation_summary_aggregator [
  | some esa ↦ false
  | none ↦ elim ts.context_aggregators [ none ↦ true | some aggregators ↦ length aggregators == 0 ]
]

abbrev pub max_retries : ℕ
max_retries = 5

-- `send n` is whether the attempt n is answered with the status 200; `left` is `maxRetries - attempt`. The
-- error, and the seconds that were slept.
unfoldable pub retry_left : (ℕ → Bool) → ℕ → ℕ → ℕ → ℕ → Option Error × ℕ
retry_left send zero attempt backoff slept =
    if send attempt then (none, slept) else (some Error.submission_failed, slept)
retry_left send (suc left) attempt backoff slept =
    let later = retry_left send left (suc attempt) (backoff * 2) (slept + backoff) in
    if send attempt then (none, slept) else later

unfoldable pub retry_request : (ℕ → Bool) → Option Error × ℕ
retry_request send = retry_left send (max_retries - 1) 1 1 0

-- What `Submit` does: the submitter behind it, the events of the payload, which is sent where there are any,
-- and the error that it returns.
pub record Submitted : Type 0 where
  pub submitter : Submitter
  pub events : List TelemetryEvent
  pub error : Option Error

error_of_sending : (ℕ → Bool) → List TelemetryEvent → Option Error
error_of_sending send [] = none
error_of_sending send (event ∷ events) = (retry_request send).0

-- `Submit`, behind the wait for the queue.
unfoldable pub submit : (ℕ → Bool) → ℤ → Submitter → Submitted
unfolding error_of_sending
submit send now ts =
    if has_no_aggregators ts
    then record { submitter = ts; events = []; error = some Error.no_aggregators }
    else (let of_contexts = collect_contexts ts.context_aggregators in
        let of_summaries = collect_summaries now ts.evaluation_summary_aggregator in
        record {
          submitter = record ts {
            context_aggregators = of_contexts.1;
            evaluation_summary_aggregator = of_summaries.1;
          };
          events = of_contexts.0 ++ of_summaries.0;
          error = error_of_sending send (of_contexts.0 ++ of_summaries.0);
        })

-- What a tick of `StartPeriodicSubmission` does; the error is dropped.
unfoldable pub on_tick : (ℕ → Bool) → ℤ → Submitter → Submitter
on_tick send now ts = if has_no_aggregators ts then ts else (submit send now ts).submitter
