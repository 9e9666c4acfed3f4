-- ===== src/Evaluator.antt =====
-- pkg/internal/config_rule_evaluator.go: `EvaluateConfig` and what it calls. A segment criterion
-- evaluates the config of the segment, so the recursion is on fuel: `unfinished` stands for the
-- recursion that does not end.
pub mod FirstMatch
pub mod Segments
pub mod Runs
pub mod Rows
pub mod Termination
use prefab_cloud_go.Prelude.{
  ℕ, zero, suc, ◌+◌, ◌-◌, ◌*◌, ◌/◌, ◌%◌, ◌^◌, ◌≤◌, ◌<◌, ltb, leb, ◌==◌, bool_eq, if◌then◌else◌,
  ltb→lt, lt→ltb, leb→le, ==_iff, Bool-cases, Option-cases, length, get_elem?, length-append, All,
  any_of, ℤ, pos, negsuc, pos_part, neg_part, ◌≤ℤ◌, ◌<ℤ◌, ltb_ℤ, leb_ℤ, eq_ℤ, eq_ℤ_iff, GoString,
  codes, str_eq, str_eq_iff, str_eq_refl, str_lt, has_prefix, has_suffix, contains, join, split,
  cons_first, upper_byte, lower_byte, has_prefix_iff, Outcome, ret, panics, unfinished, ◌>>=◌,
  >>=-eq-ret, ◌≡◌, refl, sym, ap, ◌∙◌, ◌≢◌, ◌↔◌, ◌⊎◌, inl, inr, Bool, true, false, not, ◌&&◌, ◌||◌,
  Option, none, some, List, [], ◌∷◌, ◌++◌, arith,
}
use prefab_cloud_go.Proto.{
  ConfigValue, nil_value, ConfigValueType, Config, ConfigRow, ConditionalValue, Criterion, Operator,
  get_type, get_int_range,
}
use prefab_cloud_go.GoValue.{Any, IntKind, Host}
use prefab_cloud_go.ConfigValues.{Extracted, extract_value}
use prefab_cloud_go.Interfaces.{ContextValueGetter, ConfigStoreGetter}
use prefab_cloud_go.Criteria.{evaluate_operator}

pub record ConditionMatch : Type 0 where
  pub match : ConfigValue
  pub row_index : Option ℕ
  pub conditional_value_index : Option ℕ
  pub is_match : Bool

abbrev pub no_match : ConditionMatch
no_match = record {
  match = nil_value;
  row_index = none;
  conditional_value_index = none;
  is_match = false;
}

-- `ConfigRuleEvaluator`, with the host it runs on.
pub record ConfigRuleEvaluator : Type 0 where
  pub host : Host
  pub config_store : ConfigStoreGetter
  pub project_env_id : ℤ

-- The evaluation of the config of a segment.
abbrev pub EvaluateSegment : Type 0
EvaluateSegment = Config → Outcome ConditionMatch

-- `matchConfigValue.GetType().(*ConfigValue_Bool)`, for a match.
bool_result : Bool → ConfigValueType → Bool
bool_result wanted (ConfigValueType.bool b) = bool_eq b wanted
bool_result wanted _ = not wanted

segment_result : Bool → ConditionMatch → Bool
unfolding bool_result get_type
segment_result wanted m = if m.is_match then bool_result wanted (get_type m.match) else not wanted

on_segment : EvaluateSegment → Bool → Option Config → Outcome Bool
unfolding segment_result
on_segment evaluate wanted none = ret (not wanted)
on_segment evaluate wanted (some target) = do m ← evaluate target; ret (segment_result wanted m)

in_named_segment : ConfigStoreGetter → EvaluateSegment → Any → Bool → Outcome Bool
unfolding on_segment
in_named_segment store evaluate (Any.string name) wanted =
    on_segment evaluate wanted (store.get_config name)
in_named_segment store evaluate _ wanted = ret (not wanted)

-- The cases IN_SEG and NOT_IN_SEG.
pub in_segment : ConfigStoreGetter → EvaluateSegment → Extracted → Bool → Outcome Bool
unfolding in_named_segment
in_segment store evaluate m wanted =
    if m.failed then ret (not wanted) else in_named_segment store evaluate m.value wanted

abbrev is_current_time : GoString → Bool
is_current_time name =
    str_eq name (codes "prefab.current-time") || str_eq name (codes "reforge.current-time")

-- The context value of a criterion; the two clock properties are the time in milliseconds.
criterion_value : Host → ContextValueGetter → GoString → Option Any
criterion_value host context name =
    if is_current_time name then some (Any.int IntKind.bits64 host.now_millis) else context name

unfoldable pub evaluate_criterion :
    ConfigRuleEvaluator → EvaluateSegment → ContextValueGetter → Criterion → Outcome Bool
unfolding in_segment criterion_value
evaluate_criterion cve evaluate context criterion =
    let m = extract_value cve.host criterion.value_to_match in
    evaluate_operator cve.host (in_segment cve.config_store evaluate m) criterion.operator
      (get_int_range (get_type criterion.value_to_match)) m
      (criterion_value cve.host context criterion.property_name)

-- The loop over the criteria.
unfoldable pub all_criteria :
    ConfigRuleEvaluator → EvaluateSegment → ContextValueGetter → List Criterion → Outcome Bool
all_criteria cve evaluate context [] = ret true
all_criteria cve evaluate context (criterion ∷ rest) =
    evaluate_criterion cve evaluate context criterion >>= λ ok. elim ok [
      | true ↦ all_criteria cve evaluate context rest
      | false ↦ ret false
    ]

-- The value, and whether it matched.
unfoldable pub evaluate_conditional_value :
    ConfigRuleEvaluator
    → EvaluateSegment
    → ContextValueGetter
    → ConditionalValue
    → Outcome (ConfigValue × Bool)
evaluate_conditional_value cve evaluate context cv =
    all_criteria cve evaluate context cv.criteria >>= λ ok.
    ret (if ok then (cv.value, true) else (nil_value, false))

-- The loop of `EvaluateRow`, from the conditional value with the index `i`.
unfoldable pub evaluate_values :
    ConfigRuleEvaluator
    → EvaluateSegment
    → ContextValueGetter
    → ℕ
    → ℕ
    → List ConditionalValue
    → Outcome ConditionMatch
evaluate_values cve evaluate context row_index i [] = ret no_match
evaluate_values cve evaluate context row_index i (cv ∷ rest) =
    evaluate_conditional_value cve evaluate context cv >>= λ r. elim r.1 [
      | true ↦ ret (record {
        match = r.0;
        row_index = some row_index;
        conditional_value_index = some i;
        is_match = true;
      })
      | false ↦ evaluate_values cve evaluate context row_index (suc i) rest
    ]

unfoldable pub evaluate_row :
    ConfigRuleEvaluator
    → EvaluateSegment
    → ContextValueGetter
    → ConfigRow
    → ℕ
    → Outcome ConditionMatch
unfolding evaluate_values
evaluate_row cve evaluate context row row_index =
    evaluate_values cve evaluate context row_index 0 row.values

unfoldable pub has_env_id : ℤ → Option ℤ → Bool
has_env_id env_id (some n) = eq_ℤ n env_id
has_env_id env_id none = false

unfoldable pub row_with_matching_env_id : List ConfigRow → ℤ → Option ConfigRow
unfolding has_env_id
row_with_matching_env_id [] env_id = none
row_with_matching_env_id (row ∷ rows) env_id =
    if has_env_id env_id row.project_env_id then some row else row_with_matching_env_id rows env_id

unfoldable pub lacks_env_id : Option ℤ → Bool
lacks_env_id (some n) = false
lacks_env_id none = true

unfoldable pub row_without_env_id : List ConfigRow → Option ConfigRow
unfolding lacks_env_id
row_without_env_id [] = none
row_without_env_id (row ∷ rows) =
    if lacks_env_id row.project_env_id then some row else row_without_env_id rows

-- The second half of `EvaluateConfig`: the row without an environment.
unfoldable pub no_env_row :
    ConfigRuleEvaluator
    → EvaluateSegment
    → ContextValueGetter
    → Option ConfigRow
    → ℕ
    → Outcome ConditionMatch
no_env_row cve evaluate context none index = ret no_match
no_env_row cve evaluate context (some row) index =
    evaluate_row cve evaluate context row index >>= λ m. ret (if m.is_match then m else no_match)

-- The body of `EvaluateConfig` over its two rows.
unfoldable pub evaluate_rows :
    ConfigRuleEvaluator
    → EvaluateSegment
    → ContextValueGetter
    → Option ConfigRow
    → Option ConfigRow
    → Outcome ConditionMatch
unfolding no_env_row
evaluate_rows cve evaluate context none other = no_env_row cve evaluate context other 0
evaluate_rows cve evaluate context (some env_row) other =
    evaluate_row cve evaluate context env_row 0 >>= λ m.
    if m.is_match then ret m else no_env_row cve evaluate context other 1

unfoldable pub evaluate_with :
    ConfigRuleEvaluator → EvaluateSegment → ContextValueGetter → Config → Outcome ConditionMatch
evaluate_with cve evaluate context config =
    evaluate_rows cve evaluate context (row_with_matching_env_id config.rows cve.project_env_id)
      (row_without_env_id config.rows)

-- The fuel bounds the depth of segments within segments.
unfoldable pub evaluate_config :
    ConfigRuleEvaluator → ContextValueGetter → ℕ → Config → Outcome ConditionMatch
evaluate_config cve context zero config = unfinished
evaluate_config cve context (suc fuel) config =
    evaluate_with cve (evaluate_config cve context fuel) context config
