-- ===== src/Telemetry/Submitter/Runs.antt =====
-- What holds of the queue over any interleaving of the callers, the consumer and the submission.
use prefab_cloud_go.Prelude.{
  ℕ, ℤ, GoString, ret, ◌>>=◌, ◌≡◌, refl, ap, ◌∙◌, Bool, none, some, arith,
}
use mathlib.Core.Path.{subst}
use prefab_cloud_go.Proto.{ConfigValue}
use prefab_cloud_go.GoValue.{Host}
use prefab_cloud_go.Contexts.{ContextSet}
use prefab_cloud_go.Resolver.{ConfigMatch}
use prefab_cloud_go.Client.{of_evaluation}
use prefab_cloud_go.Options.Settings.{Options}
use prefab_cloud_go.Telemetry.Summaries.{EvaluationSummaryAggregator, record_evaluation}
use prefab_cloud_go.Telemetry.Submitter.{
  Submitter, new_telemetry_submitter, submit_evaluation, submit_context, handle_item, take_item,
  with_item, record_item,
}
use prefab_cloud_go.Telemetry.Submission.{submit}
use prefab_cloud_go.Telemetry.Submitter.Queue.{
  is_some, HandFits, WellFormed, submit_evaluation-WellFormed, submit_context-WellFormed,
  take_from-WellFormed, with_item-WellFormed, submit-WellFormed, evaluation_recorded,
}

-- What can happen to a submitter: a caller records an evaluation or a context, the consumer takes an item
-- out of the queue or records the one in its hand, or the aggregators' data is submitted.
pub data Step (host : Host) (text : ConfigValue → GoString) : Submitter → Submitter → Type 0 where
  evaluated : (ts : Submitter) (m : ConfigMatch) → Step host text ts (submit_evaluation ts m)
  in_context : (ts : Submitter) (set : ContextSet) → Step host text ts (submit_context ts set)
  taken : (ts : Submitter) → ts.in_hand ≡ none → Step host text ts (take_item ts)
  recorded :
      (now : ℤ) (ts behind : Submitter)
      → record_item host text now ts ≡ ret behind
      → Step host text ts behind
  submitted :
      (send : ℕ → Bool) (now : ℤ) (ts : Submitter)
      → Step host text ts (submit send now ts).submitter

pub data Reachable (host : Host) (text : ConfigValue → GoString) (o : Options)
    : Submitter → Type 0 where
  at_start : Reachable host text o (new_telemetry_submitter o)
  step :
      (ts behind : Submitter)
      → Reachable host text o ts
      → Step host text ts behind
      → Reachable host text o behind

step-WellFormed :
    (host : Host) (text : ConfigValue → GoString) (ts behind : Submitter)
    → Step host text ts behind
    → WellFormed ts
    → WellFormed behind
unfolding take_item record_item
step-WellFormed host text _ _ (evaluated ts m) h = submit_evaluation-WellFormed ts m h
step-WellFormed host text _ _ (in_context ts set) h = submit_context-WellFormed ts set h
step-WellFormed host text _ _ (taken ts e) h = take_from-WellFormed ts ts.queue h refl
step-WellFormed host text _ _ (recorded now ts behind e) h =
    with_item-WellFormed host text now ts ts.in_hand h h.2 e
step-WellFormed host text _ _ (submitted send now ts) h = submit-WellFormed send now ts h

-- Whatever the callers, the consumer and the submission do and in whatever order, the queue is never longer
-- than 10000 items, and there is an aggregator for every item in it and in the consumer's hand.
pub Reachable-WellFormed :
    (host : Host) (text : ConfigValue → GoString) (o : Options) (ts : Submitter)
    → Reachable host text o ts
    → WellFormed ts
unfolding new_telemetry_submitter
Reachable-WellFormed host text o _ at_start = (omega arith, tt, tt)
Reachable-WellFormed host text o _ (step ts behind r s) =
    step-WellFormed host text ts behind s (Reachable-WellFormed host text o ts r)

-- Whatever has happened, the recording of an evaluation that the consumer has in its hand is no panic: it
-- finds its aggregator and leaves what that makes of the evaluation.
pub Reachable-records :
    (host : Host) (text : ConfigValue → GoString) (o : Options) (now : ℤ) (ts : Submitter)
    (m : ConfigMatch)
    → Reachable host text o ts
    → ts.in_hand ≡ some (of_evaluation m)
    → (esa : EvaluationSummaryAggregator) × (ts.evaluation_summary_aggregator ≡ some esa)
      × (record_item host text now ts
          ≡ ret (record ts {
            in_hand = none;
            evaluation_summary_aggregator = some (record_evaluation text now esa m);
          }))
unfolding record_item with_item handle_item
Reachable-records host text o now ts m r e =
    let (_, _, hand) = Reachable-WellFormed host text o ts r in
    let fits : HandFits (is_some ts.evaluation_summary_aggregator) (is_some ts.context_aggregators)
        (some (of_evaluation m)) =
      subst (HandFits (is_some ts.evaluation_summary_aggregator) (is_some ts.context_aggregators)) e
        hand in
    let (esa, made, there) = evaluation_recorded text now ts.evaluation_summary_aggregator m fits in
    (
      esa,
      there,
      ap (with_item host text now ts) e
          ∙ ap
              (λ x. x >>= λ behind.
                ret (record ts { in_hand = none; evaluation_summary_aggregator = some behind }))
              made,
    )
