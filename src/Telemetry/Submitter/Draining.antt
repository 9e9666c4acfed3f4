-- ===== src/Telemetry/Submitter/Draining.antt =====
-- The consumer empties the queue.
use prefab_cloud_go.Prelude.{
  ℕ, zero, suc, length, All, ℤ, GoString, Outcome, ret, ◌>>=◌, ◌≡◌, refl, sym, ap, ◌∙◌, Option,
  none, some, List, [], ◌∷◌,
}
use mathlib.Core.Path.{subst}
use prefab_cloud_go.Proto.{Context, ConfigValue}
use prefab_cloud_go.GoValue.{Host}
use prefab_cloud_go.Contexts.{ContextSet, grouped_key, to_proto}
use prefab_cloud_go.Client.{Recorded, of_context, of_evaluation}
use prefab_cloud_go.Telemetry.Summaries.{EvaluationSummaryAggregator, record_evaluation}
use prefab_cloud_go.Telemetry.Examples.Keeping.{record_context-total}
use prefab_cloud_go.Telemetry.Shapes.{record_shapes}
use prefab_cloud_go.Telemetry.Submitter.{
  ContextAggregator, example_contexts, context_shapes, Submitter, record_in, record_in_all,
  internal_record_context, handle_item, take_from, take_item, with_item, record_item,
}
use prefab_cloud_go.Telemetry.Submitter.Queue.{is_some, Fits, evaluation_recorded}

-- So many rounds of the consumer, which takes an item and records it, at times of the clock.
pub rounds : Host → (ConfigValue → GoString) → (ℕ → ℤ) → ℕ → Submitter → Outcome Submitter
rounds host text clock zero ts = ret ts
rounds host text clock (suc n) ts =
    record_item host text (clock n) (take_item ts) >>= λ behind. rounds host text clock n behind

-- A context whose keys are texts and whose values become messages.
abbrev pub IsRecordable : Host → Recorded → Type 0
IsRecordable host (of_evaluation m) = Unit
IsRecordable host (of_context set) =
    ((key : GoString) × (grouped_key set ≡ ret key))
    × ((contexts : List Context) × (to_proto host set.data_ ≡ ret contexts))

record_in_all-total :
    (host : Host) (now : ℤ) (set : ContextSet) (aggregators : List ContextAggregator)
    → IsRecordable host (of_context set)
    → (behind : List ContextAggregator) × (record_in_all host now set aggregators ≡ ret behind)
unfolding record_in_all record_in
record_in_all-total host now set [] h = ([], refl)
record_in_all-total host now set (example_contexts eca ∷ aggregators) h =
    let (behind, e) = record_context-total host now eca set h.0 h.1 in
    let (others, e') = record_in_all-total host now set aggregators h in
    (example_contexts behind ∷ others, rw (e, e') refl)
record_in_all-total host now set (context_shapes eca ∷ aggregators) h =
    let (others, e) = record_in_all-total host now set aggregators h in
    (context_shapes (record_shapes eca set) ∷ others, rw (e) refl)

context_recorded :
    (host : Host) (now : ℤ) (set : ContextSet) (o : Option (List ContextAggregator))
    → IsRecordable host (of_context set)
    → (behind : Option (List ContextAggregator)) × (internal_record_context host now o set
        ≡ ret behind)
      × (is_some behind ≡ is_some o)
unfolding internal_record_context
context_recorded host now set none h = (none, refl, refl)
context_recorded host now set (some aggregators) h =
    let (behind, e) = record_in_all-total host now set aggregators h in
    (some behind, rw (e) refl, refl)

-- The summaries behind an item, and behind a queue of them, each recorded at its time.
abbrev pub with_evaluation :
    (ConfigValue → GoString)
    → ℤ
    → Recorded
    → Option EvaluationSummaryAggregator
    → Option EvaluationSummaryAggregator
with_evaluation text now (of_context set) o = o
with_evaluation text now (of_evaluation m) none = none
with_evaluation text now (of_evaluation m) (some esa) = some (record_evaluation text now esa m)

pub summaries_behind :
    (ConfigValue → GoString)
    → (ℕ → ℤ)
    → Option EvaluationSummaryAggregator
    → List Recorded
    → Option EvaluationSummaryAggregator
summaries_behind text clock o [] = o
summaries_behind text clock o (item ∷ items) =
    summaries_behind text clock (with_evaluation text (clock (length items)) item o) items

-- The item is recorded, and the rest of the submitter is the same.
handled :
    (host : Host) (text : ConfigValue → GoString) (now : ℤ) (ts : Submitter) (item : Recorded)
    → Fits (is_some ts.evaluation_summary_aggregator) (is_some ts.context_aggregators) item
    → IsRecordable host item
    → (contexts : Option (List ContextAggregator)) × (handle_item host text now ts item
        ≡ ret (record ts {
          evaluation_summary_aggregator =
              with_evaluation text now item ts.evaluation_summary_aggregator;
          context_aggregators = contexts;
        }))
      × (is_some contexts ≡ is_some ts.context_aggregators)
unfolding handle_item
handled host text now ts (of_evaluation m) fits h =
    let (esa, e, there) = evaluation_recorded text now ts.evaluation_summary_aggregator m fits in
    (
      ts.context_aggregators,
      ap (λ x. x >>= λ b. ret (record ts { evaluation_summary_aggregator = some b })) e
          ∙ ap (λ o. ret (record ts { evaluation_summary_aggregator = o }))
              (sym (ap (with_evaluation text now (of_evaluation m)) there)),
      refl,
    )
handled host text now ts (of_context set) fits h =
    let (behind, e, same) = context_recorded host now set ts.context_aggregators h in
    (behind, ap (λ x. x >>= λ b. ret (record ts { context_aggregators = b })) e, same)

is_some-with_evaluation :
    (text : ConfigValue → GoString) (now : ℤ) (item : Recorded)
    (o : Option EvaluationSummaryAggregator)
    → is_some (with_evaluation text now item o) ≡ is_some o
is_some-with_evaluation text now (of_context set) o = refl
is_some-with_evaluation text now (of_evaluation m) none = refl
is_some-with_evaluation text now (of_evaluation m) (some esa) = refl

round :
    (host : Host) (text : ConfigValue → GoString) (now : ℤ) (ts : Submitter) (item : Recorded)
    (items : List Recorded)
    → ts.queue ≡ item ∷ items
    → record_item host text now (take_item ts)
      ≡ handle_item host text now (record ts { queue = items; in_hand = none }) item
unfolding take_item record_item
round host text now ts item items e =
    ap (λ q. with_item host text now (take_from ts q) (take_from ts q).in_hand) e
    ∙ (unfold take_from with_item in refl)

-- A queue of items that can be recorded, with nothing in the consumer's hand: as many rounds as the queue is long
-- empty it, and the summaries behind them are what the evaluations of the queue make of those before, in
-- the order in which they were put in.
pub rounds-drain :
    (host : Host) (text : ConfigValue → GoString) (clock : ℕ → ℤ) (queue : List Recorded)
    (ts : Submitter)
    → ts.queue ≡ queue
    → ts.in_hand ≡ none
    → All (Fits (is_some ts.evaluation_summary_aggregator) (is_some ts.context_aggregators)) queue
    → All (IsRecordable host) queue
    → (behind : Submitter) × (rounds host text clock (length queue) ts ≡ ret behind)
      × (behind.queue ≡ [])
      × (behind.in_hand ≡ none)
      × (behind.evaluation_summary_aggregator
          ≡ summaries_behind text clock ts.evaluation_summary_aggregator queue)
unfolding rounds summaries_behind
rounds-drain host text clock [] ts e hand fits h = (ts, refl, e, hand, refl)
rounds-drain host text clock (item ∷ items) ts e hand fits h =
    let now : ℤ = clock (length items) in
    let waiting : Submitter = record ts { queue = items; in_hand = none } in
    let (contexts, made, same) = handled host text now waiting item fits.0 h.0 in
    let next : Submitter = record waiting {
      evaluation_summary_aggregator =
          with_evaluation text now item ts.evaluation_summary_aggregator;
      context_aggregators = contexts;
    } in
    let fit : All (Fits (is_some next.evaluation_summary_aggregator) (is_some contexts)) items =
      subst (λ b. All (Fits b (is_some contexts)) items)
        (sym (is_some-with_evaluation text now item ts.evaluation_summary_aggregator))
        (subst (λ b. All (Fits (is_some ts.evaluation_summary_aggregator) b) items) (sym same)
          fits.1) in
    let (behind, drained, empty, free, counted) =
      rounds-drain host text clock items next refl refl fit h.1 in
    (
      behind,
      ap (λ x. x >>= λ b. rounds host text clock (length items) b)
            (round host text now ts item items e ∙ made)
          ∙ drained,
      empty,
      free,
      counted,
    )
