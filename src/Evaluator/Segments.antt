-- ===== src/Evaluator/Segments.antt =====
-- The operators that come in pairs, IN_SEG and NOT_IN_SEG among them, are opposite to one another.
use prefab_cloud_go.Prelude.{
  Outcome, ret, panics, unfinished, ◌>>=◌, ◌≡◌, refl, true, false, Option, none, some, arith,
}
use prefab_cloud_go.Proto.{Config, Criterion, Operator, get_type, get_int_range}
use prefab_cloud_go.GoValue.{Any}
use prefab_cloud_go.ConfigValues.{Extracted, extract_value}
use prefab_cloud_go.Interfaces.{ContextValueGetter, ConfigStoreGetter}
use prefab_cloud_go.Criteria.Complement.{IsPair, not_outcome, evaluate_operator-IsPair}
use prefab_cloud_go.Evaluator.{
  ConditionMatch, ConfigRuleEvaluator, EvaluateSegment, segment_result, on_segment,
  in_named_segment, in_segment, criterion_value, evaluate_criterion,
}

module _ (store : ConfigStoreGetter) (evaluate : EvaluateSegment) where
  on_segment-not :
      (o : Option Config) → on_segment evaluate false o ≡ not_outcome (on_segment evaluate true o)
  unfolding on_segment
  on_segment-not none = refl
  on_segment-not (some target) = go (evaluate target)
    where
      go :
          (o : Outcome ConditionMatch)
          → (o >>= λ m. ret (segment_result false m))
            ≡ not_outcome (o >>= λ m. ret (segment_result true m))
      go (ret m) = ground arith
      go panics = refl
      go unfinished = refl

  in_named_segment-not :
      (v : Any)
      → in_named_segment store evaluate v false
        ≡ not_outcome (in_named_segment store evaluate v true)
  unfolding in_named_segment
  in_named_segment-not (Any.string name) = on_segment-not (store.get_config name)
  in_named_segment-not _ = refl

  in_segment-not :
      (m : Extracted)
      → in_segment store evaluate m false ≡ not_outcome (in_segment store evaluate m true)
  unfolding in_segment
  in_segment-not m = ground (arith, in_named_segment-not m.value)

-- Each of the operators for ends with, starts with, contains, is one of and in segment is opposite to
-- its negation on every context, the missing property and
-- the mismatched type included; where one panics or does not end, so does the other.
pub evaluate_criterion-IsPair :
    (cve : ConfigRuleEvaluator) (evaluate : EvaluateSegment) (context : ContextValueGetter)
    (criterion : Criterion) {op : Operator}
    → IsPair criterion.operator op
    → evaluate_criterion cve evaluate context (record criterion { operator = op })
      ≡ not_outcome (evaluate_criterion cve evaluate context criterion)
unfolding evaluate_criterion
evaluate_criterion-IsPair cve evaluate context criterion p =
    let m = extract_value cve.host criterion.value_to_match in
    evaluate_operator-IsPair cve.host (in_segment cve.config_store evaluate m)
      (get_int_range (get_type criterion.value_to_match)) m
      (criterion_value cve.host context criterion.property_name)
      (in_segment-not cve.config_store evaluate m) p
