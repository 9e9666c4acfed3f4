-- ===== src/Telemetry/Summaries/Totals.antt =====
-- The sum of the counts that are reported is that of the counts that are held.
use prefab_cloud_go.Prelude.{ℕ, ◌+◌, ℤ, pos_part, GoString, ◌≡◌, ◌∙◌, List, [], ◌∷◌, ◌++◌, arith}
use prefab_cloud_go.Prelude.Dict
use prefab_cloud_go.Prelude.Dict.{Dict, IsMap, get-put, put-IsMap}
use prefab_cloud_go.Proto.{ConfigType}
use prefab_cloud_go.Resolver.{ConfigMatch}
use prefab_cloud_go.Telemetry.Events.{
  ConfigEvaluationCounter, ConfigEvaluationSummary, TelemetryEvent, summaries, example_contexts,
  context_shapes,
}
use prefab_cloud_go.Telemetry.Summaries.{EvaluationSummaryAggregator, or_zero}
use prefab_cloud_go.Telemetry.Summaries.Reporting.{
  counter_of, CountersByType, add_by_type, counters_of, add_counter, counter_lookup,
  summaries_of_key, summaries_of, get_data,
}

total_counters : List ConfigEvaluationCounter → ℕ
total_counters [] = 0
total_counters (counter ∷ counters) = pos_part counter.count + total_counters counters

total_by_type : CountersByType → ℕ
total_by_type [] = 0
total_by_type ((t, counters) ∷ others) = total_counters counters + total_by_type others

total_lookup : Dict CountersByType → ℕ
total_lookup [] = 0
total_lookup ((key, counters) ∷ lookup) = total_by_type counters + total_lookup lookup

total_summaries : List ConfigEvaluationSummary → ℕ
total_summaries [] = 0
total_summaries (summary ∷ others) = total_counters summary.counters + total_summaries others

-- The counts of the event's summaries, added up.
pub total_of_event : TelemetryEvent → ℕ
total_of_event (summaries start last reported) = total_summaries reported
total_of_event (example_contexts examples) = 0
total_of_event (context_shapes shapes) = 0

total_counters-append :
    (a : List ConfigEvaluationCounter) (c : ConfigEvaluationCounter)
    → total_counters (a ++ (c ∷ [])) ≡ total_counters a + pos_part c.count
unfolding total_counters
total_counters-append [] c = omega arith
total_counters-append (b ∷ a) c = omega (arith, total_counters-append a c)

total-add_by_type :
    (t : ConfigType) (c : ConfigEvaluationCounter) (l : CountersByType)
    → total_by_type (add_by_type t c l) ≡ total_by_type l + pos_part c.count
unfolding total_by_type add_by_type total_counters
total-add_by_type t c [] = omega arith
total-add_by_type t c ((u, counters) ∷ others) =
    ground (arith, total-add_by_type t c others, total_counters-append counters c)

total-put :
    (key : GoString) (l : CountersByType) (lookup : Dict CountersByType)
    → total_lookup (Dict.put key l lookup) + total_by_type (counters_of (Dict.get key lookup))
      ≡ total_lookup lookup + total_by_type l
unfolding total_lookup total_by_type Dict.put Dict.get
total-put key l [] = omega arith
total-put key l ((k, counters) ∷ lookup) = ground (arith, total-put key l lookup)

total-add_counter :
    (m : ConfigMatch) (c : ConfigEvaluationCounter) (lookup : Dict CountersByType)
    → total_lookup (add_counter m c lookup) ≡ total_lookup lookup + pos_part c.count
unfolding add_counter
total-add_counter m c lookup =
    let before : CountersByType = counters_of (Dict.get m.config_key lookup) in
    omega (
      arith,
      total-put m.config_key (add_by_type m.config_type c before) lookup,
      total-add_by_type m.config_type c before,
    )

-- The counts of the evaluations that are held.
unfoldable pub total_counts : Dict ConfigMatch → Dict ℤ → ℕ
total_counts [] counts = 0
total_counts ((key, m) ∷ evaluations) counts =
    pos_part (or_zero (Dict.get key counts)) + total_counts evaluations counts

total-counter_lookup :
    (evaluations : Dict ConfigMatch) (counts : Dict ℤ) (lookup : Dict CountersByType)
    → total_lookup (counter_lookup evaluations counts lookup)
      ≡ total_lookup lookup + total_counts evaluations counts
unfolding counter_lookup total_counts counter_of
total-counter_lookup [] counts lookup = omega arith
total-counter_lookup ((key, m) ∷ evaluations) counts lookup =
    let c : ConfigEvaluationCounter = counter_of m (or_zero (Dict.get key counts)) in
    omega (
      arith,
      total-counter_lookup evaluations counts (add_counter m c lookup),
      total-add_counter m c lookup,
    )

total-summaries_of_key :
    (key : GoString) (l : CountersByType) (others : List ConfigEvaluationSummary)
    → total_summaries (summaries_of_key key l ++ others) ≡ total_by_type l + total_summaries others
unfolding total_summaries summaries_of_key total_by_type
total-summaries_of_key key [] others = omega arith
total-summaries_of_key key ((t, counters) ∷ l) others =
    omega (arith, total-summaries_of_key key l others)

total-summaries_of :
    (lookup : Dict CountersByType) → total_summaries (summaries_of lookup) ≡ total_lookup lookup
unfolding summaries_of total_summaries total_lookup
total-summaries_of [] = omega arith
total-summaries_of ((key, l) ∷ lookup) =
    omega (arith, total-summaries_of_key key l (summaries_of lookup), total-summaries_of lookup)

pub total_of_event-get_data :
    (now : ℤ) (esa : EvaluationSummaryAggregator)
    → total_of_event (get_data now esa) ≡ total_counts esa.evaluations esa.counts
unfolding get_data total_of_event total_lookup
total_of_event-get_data now esa =
    total-summaries_of (counter_lookup esa.evaluations esa.counts [])
    ∙ total-counter_lookup esa.evaluations esa.counts []
    ∙ omega arith
