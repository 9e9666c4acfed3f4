-- ===== src/Evaluator/Rows.antt =====
-- The evaluation of a row and of a config when the evaluation of its segments is run for longer.
use prefab_cloud_go.Prelude.{
  ℕ, suc, if◌then◌else◌, Bool-cases, All, ℤ, ret, ◌≡◌, inl, inr, Bool, true, false, Option, none,
  some, List, [], ◌∷◌,
}
use prefab_cloud_go.Proto.{ConfigValue, Config, ConfigRow, ConditionalValue, Criterion}
use prefab_cloud_go.ConfigValues.{extract_value}
use prefab_cloud_go.Interfaces.{ContextValueGetter}
use prefab_cloud_go.Evaluator.{
  ConditionMatch, no_match, ConfigRuleEvaluator, EvaluateSegment, evaluate_criterion, all_criteria,
  evaluate_conditional_value, evaluate_values, evaluate_row, row_with_matching_env_id,
  row_without_env_id, has_env_id, lacks_env_id, no_env_row, evaluate_rows, evaluate_with,
}
use prefab_cloud_go.Evaluator.Runs.{
  Extends, Extends-bind, Extends-ret, segment_name, operator-Extends, Agrees, in_segment-Extends,
}

module _ (cve : ConfigRuleEvaluator) (evaluate evaluate' : EvaluateSegment)
    (context : ContextValueGetter) where
  criterion-Extends :
      (criterion : Criterion)
      → Agrees cve evaluate evaluate' criterion
      → Extends
          (evaluate_criterion cve evaluate context criterion)
          (evaluate_criterion cve evaluate' context criterion)
  unfolding evaluate_criterion segment_name
  criterion-Extends criterion h =
      let m = extract_value cve.host criterion.value_to_match in
      operator-Extends cve.host _ _ criterion.operator _ m _ (λ is_segment wanted.
        in_segment-Extends cve evaluate evaluate' wanted m
          (λ name target f e. h name target (rw (is_segment, f) e)))

  criteria-Extends :
      (cs : List Criterion)
      → All (Agrees cve evaluate evaluate') cs
      → Extends (all_criteria cve evaluate context cs) (all_criteria cve evaluate' context cs)
  unfolding all_criteria
  criteria-Extends [] h = Extends-ret true
  criteria-Extends (c ∷ cs) h =
      Extends-bind _ _ (criterion-Extends c (h.0)) (go (criteria-Extends cs (h.1)))
    where
      go :
          Extends (all_criteria cve evaluate context cs) (all_criteria cve evaluate' context cs)
          → (ok : Bool) → evaluate_criterion cve evaluate context c ≡ ret ok
          → Extends
              (elim ok [ true ↦ all_criteria cve evaluate context cs | false ↦ ret false ])
              (elim ok [ true ↦ all_criteria cve evaluate' context cs | false ↦ ret false ])
      go ih true e = ih
      go ih false e = Extends-ret false

  abbrev ValuesAgree : List ConditionalValue → Type 0
  ValuesAgree = All (λ cv. All (Agrees cve evaluate evaluate') cv.criteria)

  value-Extends :
      (cv : ConditionalValue)
      → All (Agrees cve evaluate evaluate') cv.criteria
      → Extends
          (evaluate_conditional_value cve evaluate context cv)
          (evaluate_conditional_value cve evaluate' context cv)
  unfolding evaluate_conditional_value
  value-Extends cv h = Extends-bind _ _ (criteria-Extends cv.criteria h) (λ ok _. Extends-ret _)

  values-Extends :
      (row_index i : ℕ) (cvs : List ConditionalValue)
      → ValuesAgree cvs
      → Extends
          (evaluate_values cve evaluate context row_index i cvs)
          (evaluate_values cve evaluate' context row_index i cvs)
  unfolding evaluate_values
  values-Extends row_index i [] h = Extends-ret no_match
  values-Extends row_index i (cv ∷ cvs) h =
      Extends-bind _ _ (value-Extends cv (h.0)) (go (values-Extends row_index (suc i) cvs (h.1)))
    where
      go :
          Extends
            (evaluate_values cve evaluate context row_index (suc i) cvs)
            (evaluate_values cve evaluate' context row_index (suc i) cvs)
          → (r : ConfigValue × Bool) → evaluate_conditional_value cve evaluate context cv ≡ ret r
          → Extends
              (elim r.1 [
                | true ↦ ret (record {
                  match = r.0;
                  row_index = some row_index;
                  conditional_value_index = some i;
                  is_match = true;
                })
                | false ↦ evaluate_values cve evaluate context row_index (suc i) cvs
              ])
              (elim r.1 [
                | true ↦ ret (record {
                  match = r.0;
                  row_index = some row_index;
                  conditional_value_index = some i;
                  is_match = true;
                })
                | false ↦ evaluate_values cve evaluate' context row_index (suc i) cvs
              ])
      go ih (v, true) e = Extends-ret _
      go ih (v, false) e = ih

  RowAgrees : Option ConfigRow → Type 0
  RowAgrees none = Unit
  RowAgrees (some row) = ValuesAgree row.values

  no_env_row-Extends :
      (o : Option ConfigRow) (index : ℕ)
      → RowAgrees o
      → Extends (no_env_row cve evaluate context o index) (no_env_row cve evaluate' context o index)
  unfolding no_env_row evaluate_row RowAgrees
  no_env_row-Extends none index h = Extends-ret no_match
  no_env_row-Extends (some row) index h =
      Extends-bind _ _ (values-Extends index 0 row.values h) (λ m _. Extends-ret _)

  rows-Extends :
      (env_row other : Option ConfigRow)
      → RowAgrees env_row
      → RowAgrees other
      → Extends
          (evaluate_rows cve evaluate context env_row other)
          (evaluate_rows cve evaluate' context env_row other)
  unfolding evaluate_rows evaluate_row RowAgrees
  rows-Extends none other h k = no_env_row-Extends other 0 k
  rows-Extends (some row) other h k =
      Extends-bind _ _ (values-Extends 0 0 row.values h) (λ m _. go m.is_match m)
    where
      go :
          (b : Bool) (m : ConditionMatch)
          → Extends
              (if b then ret m else no_env_row cve evaluate context other 1)
              (if b then ret m else no_env_row cve evaluate' context other 1)
      go true m = Extends-ret m
      go false m = no_env_row-Extends other 1 k

  matching-RowAgrees :
      (rows : List ConfigRow) (env_id : ℤ)
      → All (λ row. ValuesAgree row.values) rows
      → RowAgrees (row_with_matching_env_id rows env_id)
  unfolding row_with_matching_env_id RowAgrees
  matching-RowAgrees [] env_id h = tt
  matching-RowAgrees (row ∷ rows) env_id h =
      elim (Bool-cases (has_env_id env_id row.project_env_id)) [
        | inl e ↦ rw e (h.0)
        | inr e ↦ rw e (matching-RowAgrees rows env_id (h.1))
      ]

  without-RowAgrees :
      (rows : List ConfigRow)
      → All (λ row. ValuesAgree row.values) rows
      → RowAgrees (row_without_env_id rows)
  unfolding row_without_env_id RowAgrees
  without-RowAgrees [] h = tt
  without-RowAgrees (row ∷ rows) h = elim (Bool-cases (lacks_env_id row.project_env_id)) [
    | inl e ↦ rw e (h.0)
    | inr e ↦ rw e (without-RowAgrees rows (h.1))
  ]

  pub config-Extends :
      (config : Config)
      → All (λ row. ValuesAgree row.values) config.rows
      → Extends
          (evaluate_with cve evaluate context config)
          (evaluate_with cve evaluate' context config)
  unfolding evaluate_with
  config-Extends config h =
      rows-Extends _ _ (matching-RowAgrees config.rows cve.project_env_id h)
        (without-RowAgrees config.rows h)
