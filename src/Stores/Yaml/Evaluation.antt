-- ===== src/Stores/Yaml/Evaluation.antt =====
-- What the configs of a file evaluate to.
use prefab_cloud_go.Prelude.{
  ℕ, suc, Bool-cases, All, ℤ, GoString, codes, has_prefix, Outcome, ret, panics, unfinished, ◌>>=◌,
  >>=-eq-ret, ◌≡◌, refl, sym, ◌∙◌, inl, inr, Bool, true, false, Option, none, some, List, [], ◌∷◌,
  arith,
}
use mathlib.Core.Path.{subst}
use prefab_cloud_go.Errors.{ok}
use prefab_cloud_go.Proto.{Config, ConfigType, ConfigValue}
use prefab_cloud_go.GoValue.{Any, AnyMap, Host}
use prefab_cloud_go.ConfigValues.{create, get_value_type}
use prefab_cloud_go.Interfaces.{ContextValueGetter}
use prefab_cloud_go.Evaluator.{
  ConfigRuleEvaluator, evaluate_config, evaluate_with, evaluate_rows, no_env_row,
  row_with_matching_env_id, row_without_env_id, has_env_id, lacks_env_id, evaluate_row,
  evaluate_values, evaluate_conditional_value, all_criteria,
}
use prefab_cloud_go.Stores.Yaml.{
  get_field, coerce_to_bool, yaml_config, if_created, level_value, create_config, one_config,
  dotted, flag_type, flag_value, value_config, flag_config, leaf_config, parse_yaml,
}
use prefab_cloud_go.Stores.Yaml.Walk.{AllFields, Yields, handle_all-Yields, parse_yaml-handle_all}

is_level_type : ConfigType → Bool
is_level_type ConfigType.log_level_type = true
is_level_type _ = false

-- Config is for a log level exactly if its key begins with "log-level", and evaluates, in this context
-- and environment, to a value of its value type.
pub EvaluatesIn : ConfigRuleEvaluator → ContextValueGetter → ℕ → Config → Type 0
EvaluatesIn cve context fuel config =
    (value : ConfigValue) × (config.value_type ≡ get_value_type value)
    × (is_level_type config.config_type ≡ has_prefix config.key (codes "log-level"))
    × (evaluate_config cve context (suc fuel) config
        ≡ ret (record {
          match = value;
          row_index = some 0;
          conditional_value_index = some 0;
          is_match = true;
        }))

module _ (host : Host) (cve : ConfigRuleEvaluator) (context : ContextValueGetter) (fuel : ℕ) where
  if_created-EvaluatesIn :
      (key : GoString) (config_type : ConfigType) (made : ConfigValue × Bool) {config : Config}
      → is_level_type config_type ≡ has_prefix key (codes "log-level")
      → if_created key config_type made ≡ some config
      → EvaluatesIn cve context fuel config
  unfolding EvaluatesIn if_created yaml_config evaluate_config evaluate_with evaluate_rows
      no_env_row row_with_matching_env_id row_without_env_id has_env_id lacks_env_id evaluate_row
      evaluate_values evaluate_conditional_value all_criteria
  if_created-EvaluatesIn key config_type (value, true) {config} h e =
      let same : yaml_config key config_type value ≡ config = cc e in
      subst (EvaluatesIn cve context fuel) same (value, refl, h, refl)
  if_created-EvaluatesIn key config_type (value, false) h e = absurd (cc e)

  created-EvaluatesIn :
      (key : GoString) (config_type : ConfigType) (m : Outcome (ConfigValue × Bool))
      {config : Config}
      → is_level_type config_type ≡ has_prefix key (codes "log-level")
      → (m >>= λ made. ret (if_created key config_type made)) ≡ ret (some config)
      → EvaluatesIn cve context fuel config
  created-EvaluatesIn key config_type m h e =
      let (made, _, last) = >>=-eq-ret m _ e in
      if_created-EvaluatesIn key config_type made h (cc last)

  create_config-EvaluatesIn :
      (key : GoString) (value : Any) (config_type : ConfigType) {config : Config}
      → is_level_type config_type ≡ false
      → create_config host key value config_type ≡ ret (some config)
      → EvaluatesIn cve context fuel config
  unfolding create_config is_level_type
  create_config-EvaluatesIn key value config_type h e =
      elim (Bool-cases (has_prefix key (codes "log-level"))) [
        | inl y ↦
            created-EvaluatesIn key ConfigType.log_level_type (level_value host value) (sym y)
              (rw (y) at e)
        | inr n ↦ created-EvaluatesIn key config_type (create host value) (h ∙ sym n) (rw (n) at e)
      ]

  one_config-Yields :
      (key : GoString) (m : Outcome (Option Config))
      → ((config : Config) → m ≡ ret (some config) → EvaluatesIn cve context fuel config)
      → Yields (m >>= λ made. ret (one_config key made)) (EvaluatesIn cve context fuel)
  unfolding one_config
  one_config-Yields key (ret (some config)) f configs h =
      let same : config ∷ [] ≡ configs = cc h in
      subst (All (EvaluatesIn cve context fuel)) same (f config refl, tt)
  one_config-Yields key (ret none) f configs h = absurd (cc h)
  one_config-Yields key panics f configs h = absurd (cc h)
  one_config-Yields key unfinished f configs h = absurd (cc h)

  leaf-Yields :
      (path : List GoString) (key : GoString) (value : Any)
      → Yields (leaf_config host path key value) (EvaluatesIn cve context fuel)
  unfolding leaf_config is_level_type
  leaf-Yields path key value =
      one_config-Yields (dotted path key) _
        (λ config e. create_config-EvaluatesIn (dotted path key) value ConfigType.config refl e)

  flag_value-Yields :
      (key : GoString) (config_type : ConfigType) (made : ConfigValue × Bool)
      → is_level_type config_type ≡ false
      → Yields (flag_value host key config_type made) (EvaluatesIn cve context fuel)
  unfolding flag_value
  flag_value-Yields key config_type (value, true) h =
      one_config-Yields key _
        (λ config e. create_config-EvaluatesIn key (Any.config_value_pointer value) config_type h e)
  flag_value-Yields key config_type (value, false) h = λ configs e. absurd (cc e)

  flag_type-level : (b : Bool × Bool) → is_level_type (flag_type b) ≡ false
  unfolding is_level_type flag_type
  flag_type-level (a, b) = ground arith

  value-Yields :
      (key : GoString) (config_type : ConfigType) (o : Option Any)
      → is_level_type config_type ≡ false
      → Yields (value_config host key config_type o) (EvaluatesIn cve context fuel)
  unfolding value_config
  value-Yields key config_type none h configs e = absurd (cc e)
  value-Yields key config_type (some value) h configs e =
      let (made, _, last) = >>=-eq-ret (create host value) _ e in
      flag_value-Yields key config_type made h configs last

  flag-Yields :
      (key : GoString) (fields : AnyMap) (value : Any)
      → Yields (flag_config host key fields value) (EvaluatesIn cve context fuel)
  unfolding flag_config
  flag-Yields key fields flag =
      value-Yields key (flag_type (coerce_to_bool flag)) (get_field (codes "value") fields)
        (flag_type-level (coerce_to_bool flag))

all_fields : (fields : AnyMap) → AllFields (λ value. Unit) fields
all_fields AnyMap.empty = tt
all_fields (AnyMap.field key value rest) = (tt, all_fields rest)

-- Every config that the parser makes of a file evaluates, whatever the context, the environment and the
-- other configs are, to one value, which is of the config's value type; and it is a log level
-- exactly if its key begins with "log-level".
pub parse_yaml-evaluates :
    (host : Host) (cve : ConfigRuleEvaluator) (context : ContextValueGetter) (fuel : ℕ)
    (unmarshal_yaml : GoString → Option AnyMap) (yaml_data : GoString) (configs : List Config)
    (env_id : ℤ)
    → parse_yaml host unmarshal_yaml yaml_data ≡ ret (ok (configs, env_id))
    → All (EvaluatesIn cve context fuel) configs
parse_yaml-evaluates host cve context fuel unmarshal_yaml yaml_data configs env_id h =
    let (fields, _, e) = parse_yaml-handle_all host unmarshal_yaml yaml_data configs env_id h in
    handle_all-Yields host (λ value. Unit) (λ path key. EvaluatesIn cve context fuel)
      (λ fields good. all_fields fields) (leaf-Yields host cve context fuel)
      (λ path key fields value good has. flag-Yields host cve context fuel key fields value)
      (λ path key next config y. y) (EvaluatesIn cve context fuel) (λ key config y. y) fields
      (all_fields fields) configs e
