-- ===== src/Telemetry/Submitter/Queue.antt =====
-- Each step of the submitter keeps the queue within its capacity, and an aggregator for each item.
use prefab_cloud_go.Prelude.{
  ℕ, ◌≤◌, ltb, if◌then◌else◌, ltb→lt, Bool-cases, length, length-append, All, All-append, ℤ,
  GoString, ret, >>=-eq-ret, ◌≡◌, refl, sym, ap, inl, inr, Bool, true, false, not, ◌&&◌, Option,
  none, some, List, [], ◌∷◌, ◌++◌, arith,
}
use mathlib.Core.Path.{subst}
use prefab_cloud_go.Proto.{ConfigValue, get_type}
use prefab_cloud_go.GoValue.{Host}
use prefab_cloud_go.Contexts.{ContextSet}
use prefab_cloud_go.Resolver.{ConfigMatch}
use prefab_cloud_go.Client.{Recorded, of_context, of_evaluation}
use prefab_cloud_go.Telemetry.Summaries.{EvaluationSummaryAggregator, record_evaluation}
use prefab_cloud_go.Telemetry.Submitter.{
  ContextAggregator, Submitter, queue_capacity, enqueue, is_log_level, with_summaries,
  submit_evaluation, with_contexts, submit_context, internal_record_evaluation,
  internal_record_context, handle_item, take_from, with_item, record_in_all,
}
use prefab_cloud_go.Telemetry.Submission.{
  collect_contexts, collect_summaries, has_no_aggregators, submit,
}

abbrev pub is_some {ℓ} : {A : Type ℓ} → Option A → Bool
is_some none = false
is_some (some x) = true

-- There is an aggregator for the item.
abbrev pub Fits : Bool → Bool → Recorded → Type 0
Fits summaries contexts (of_evaluation m) = summaries ≡ true
Fits summaries contexts (of_context set) = contexts ≡ true

abbrev pub HandFits : Bool → Bool → Option Recorded → Type 0
HandFits summaries contexts none = Unit
HandFits summaries contexts (some item) = Fits summaries contexts item

-- The queue is at most as long as its capacity, and there is an aggregator for every item in it and for the
-- one in the consumer's hand.
abbrev pub AllFit : Bool → Bool → List Recorded → Option Recorded → Type 0
AllFit summaries contexts queue hand =
    (length queue ≤ queue_capacity)
    × All (Fits summaries contexts) queue
    × HandFits summaries contexts hand

abbrev pub WellFormed : Submitter → Type 0
WellFormed ts =
    AllFit (is_some ts.evaluation_summary_aggregator) (is_some ts.context_aggregators) ts.queue
      ts.in_hand

enqueue-WellFormed :
    (ts : Submitter) (item : Recorded)
    → WellFormed ts
    → Fits (is_some ts.evaluation_summary_aggregator) (is_some ts.context_aggregators) item
    → WellFormed (enqueue ts item)
unfolding enqueue
enqueue-WellFormed ts item (short, fit, hand) fits =
    elim (Bool-cases (ltb (length ts.queue) queue_capacity)) [
      | inl y ↦
          let longer : Submitter = record ts { queue = ts.queue ++ (item ∷ []) } in
          let same : enqueue ts item ≡ longer = rw (y) refl in
          subst WellFormed (sym same) (
            omega (
              arith,
              ltb→lt (length ts.queue) queue_capacity y,
              length-append ts.queue (item ∷ []),
            ),
            All-append (Fits _ _) ts.queue (item ∷ []) fit (fits, tt),
            hand,
          )
      | inr n ↦
          let same : enqueue ts item ≡ ts = rw (n) refl in
          subst WellFormed (sym same) (short, fit, hand)
    ]

pub submit_evaluation-WellFormed :
    (ts : Submitter) (m : ConfigMatch) → WellFormed ts → WellFormed (submit_evaluation ts m)
unfolding submit_evaluation with_summaries
submit_evaluation-WellFormed ts m h = of_summaries ts.evaluation_summary_aggregator refl
  where
    recorded_if :
        (b : Bool)
        → WellFormed (enqueue ts (of_evaluation m))
        → WellFormed (if b then enqueue ts (of_evaluation m) else ts)
    recorded_if true k = k
    recorded_if false k = h

    of_summaries :
        (o : Option EvaluationSummaryAggregator)
        → ts.evaluation_summary_aggregator ≡ o
        → WellFormed (with_summaries ts o m)
    of_summaries none e = h
    of_summaries (some esa) e =
        recorded_if (m.is_match && not (is_log_level (get_type m.match)))
          (enqueue-WellFormed ts (of_evaluation m) h (ap is_some e))

pub submit_context-WellFormed :
    (ts : Submitter) (set : ContextSet) → WellFormed ts → WellFormed (submit_context ts set)
unfolding submit_context with_contexts
submit_context-WellFormed ts set h = of_contexts ts.context_aggregators refl
  where
    of_contexts :
        (o : Option (List ContextAggregator))
        → ts.context_aggregators ≡ o
        → WellFormed (with_contexts ts o set)
    of_contexts none e = h
    of_contexts (some aggregators) e = enqueue-WellFormed ts (of_context set) h (ap is_some e)

pub take_from-WellFormed :
    (ts : Submitter) (items : List Recorded)
    → AllFit
        (is_some ts.evaluation_summary_aggregator)
        (is_some ts.context_aggregators)
        items
        ts.in_hand
    → ts.queue ≡ items
    → WellFormed (take_from ts items)
unfolding take_from
take_from-WellFormed ts [] h e =
    subst
      (λ q.
        AllFit (is_some ts.evaluation_summary_aggregator) (is_some ts.context_aggregators) q
          ts.in_hand)
      (sym e) h
take_from-WellFormed ts (item ∷ items) (short, fit, hand) e = (omega (arith, short), fit.1, fit.0)

kept_contexts :
    (host : Host) (now : ℤ) (set : ContextSet) (o : Option (List ContextAggregator))
    {behind : Option (List ContextAggregator)}
    → internal_record_context host now o set ≡ ret behind
    → is_some behind ≡ is_some o
unfolding internal_record_context
kept_contexts host now set none {behind} h =
    let same : none ≡ behind = cc h in sym (ap is_some same)
kept_contexts host now set (some aggregators) {behind} h =
    let (recorded, _, last) = >>=-eq-ret (record_in_all host now set aggregators) _ h in
    let same : some recorded ≡ behind = cc last in sym (ap is_some same)

handle_item-WellFormed :
    (host : Host) (text : ConfigValue → GoString) (now : ℤ) (ts : Submitter) (item : Recorded)
    {behind : Submitter}
    → WellFormed ts
    → Fits (is_some ts.evaluation_summary_aggregator) (is_some ts.context_aggregators) item
    → handle_item host text now ts item ≡ ret behind
    → WellFormed behind
unfolding handle_item
handle_item-WellFormed host text now ts (of_evaluation m) {behind} h fits e =
    let (esa, _, last) =
      >>=-eq-ret (internal_record_evaluation text now ts.evaluation_summary_aggregator m) _ e in
    let counted : Submitter = record ts { evaluation_summary_aggregator = some esa } in
    let same : counted ≡ behind = cc last in
    subst WellFormed same
      (subst (λ b. AllFit b (is_some ts.context_aggregators) ts.queue ts.in_hand) fits h)
handle_item-WellFormed host text now ts (of_context set) {behind} h fits e =
    let (aggregators, e', last) =
      >>=-eq-ret (internal_record_context host now ts.context_aggregators set) _ e in
    let kept : Submitter = record ts { context_aggregators = aggregators } in
    let same : kept ≡ behind = cc last in
    subst WellFormed same (
      subst (λ b. AllFit (is_some ts.evaluation_summary_aggregator) b ts.queue ts.in_hand)
        (sym (kept_contexts host now set ts.context_aggregators e')) h)

pub with_item-WellFormed :
    (host : Host) (text : ConfigValue → GoString) (now : ℤ) (ts : Submitter) (o : Option Recorded)
    {behind : Submitter}
    → WellFormed ts
    → HandFits (is_some ts.evaluation_summary_aggregator) (is_some ts.context_aggregators) o
    → with_item host text now ts o ≡ ret behind
    → WellFormed behind
unfolding with_item
with_item-WellFormed host text now ts none {behind} h fits e =
    let same : ts ≡ behind = cc e in subst WellFormed same h
with_item-WellFormed host text now ts (some item) h fits e =
    handle_item-WellFormed host text now (record ts { in_hand = none }) item (h.0, h.1, tt) fits e

is_some-collect_contexts :
    (o : Option (List ContextAggregator)) → is_some (collect_contexts o).1 ≡ is_some o
unfolding collect_contexts
is_some-collect_contexts none = refl
is_some-collect_contexts (some aggregators) = refl

is_some-collect_summaries :
    (now : ℤ) (o : Option EvaluationSummaryAggregator)
    → is_some (collect_summaries now o).1 ≡ is_some o
unfolding collect_summaries
is_some-collect_summaries now none = refl
is_some-collect_summaries now (some esa) = refl

pub submit-WellFormed :
    (send : ℕ → Bool) (now : ℤ) (ts : Submitter)
    → WellFormed ts
    → WellFormed (submit send now ts).submitter
unfolding submit
submit-WellFormed send now ts h =
    let silent : Submitter = record ts {
      context_aggregators = (collect_contexts ts.context_aggregators).1;
      evaluation_summary_aggregator = (collect_summaries now ts.evaluation_summary_aggregator).1;
    } in
    elim (Bool-cases (has_no_aggregators ts)) [
      | inl y ↦
          let same : (submit send now ts).submitter ≡ ts = rw (y) refl in
          subst WellFormed (sym same) h
      | inr n ↦
          let same : (submit send now ts).submitter ≡ silent = rw (n) refl in
          subst WellFormed (sym same) (
            subst
              (λ b.
                AllFit b (is_some (collect_contexts ts.context_aggregators).1) ts.queue ts.in_hand)
              (sym (is_some-collect_summaries now ts.evaluation_summary_aggregator))
              (subst (λ b. AllFit (is_some ts.evaluation_summary_aggregator) b ts.queue ts.in_hand)
                (sym (is_some-collect_contexts ts.context_aggregators)) h))
    ]

pub evaluation_recorded :
    (text : ConfigValue → GoString) (now : ℤ) (o : Option EvaluationSummaryAggregator)
    (m : ConfigMatch)
    → is_some o ≡ true
    → (esa : EvaluationSummaryAggregator) × (internal_record_evaluation text now o m
        ≡ ret (record_evaluation text now esa m))
      × (o ≡ some esa)
unfolding internal_record_evaluation
evaluation_recorded text now none m h = absurd (cc h)
evaluation_recorded text now (some esa) m h = (esa, refl, refl)
