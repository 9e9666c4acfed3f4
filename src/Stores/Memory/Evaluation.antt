-- ===== src/Stores/Memory/Evaluation.antt =====
-- A value given in the program is the value that its key evaluates to.
use prefab_cloud_go.Prelude.{
  ℕ, suc, Bool-cases, ℤ, GoString, str_eq, str_eq_iff, Outcome, ret, panics, unfinished, ◌>>=◌, ◌≡◌,
  refl, sym, ap, ◌∙◌, inl, inr, Bool, true, false, none, some, [], ◌∷◌, arith,
}
use prefab_cloud_go.Prelude.Dict
use prefab_cloud_go.Prelude.Dict.{Dict, IsMap, get-put}
use prefab_cloud_go.Proto.{Config, ConfigValue}
use prefab_cloud_go.GoValue.{Any, Host}
use prefab_cloud_go.ConfigValues.{create}
use prefab_cloud_go.Errors.{Result, ok, err}
use prefab_cloud_go.Interfaces.{ContextValueGetter}
use prefab_cloud_go.Evaluator.{
  ConfigRuleEvaluator, evaluate_config, evaluate_with, evaluate_rows, no_env_row,
  row_with_matching_env_id, row_without_env_id, has_env_id, lacks_env_id, evaluate_row,
  evaluate_values, evaluate_conditional_value, all_criteria,
}
use prefab_cloud_go.Stores.Memory.{
  RawConfig, of_value, MemoryConfigStore, config_of_value, config_of_created, config_of_raw,
  make_configs, new_memory_config_store, as_getter, store_of,
}

-- A result that is no error comes from one.
and_then :
    (m : Outcome (Result Config)) (f : Config → Outcome (Result (Dict Config))) {made : Dict Config}
    → (m >>= λ r. elim r [ ok config ↦ f config | err e ↦ ret (err e) ]) ≡ ret (ok made)
    → (config : Config) × (m ≡ ret (ok config)) × (f config ≡ ret (ok made))
and_then (ret (ok config)) f h = (config, refl, h)
and_then (ret (err e)) f h = absurd (cc h)
and_then panics f h = absurd (cc h)
and_then unfinished f h = absurd (cc h)

made_step :
    (host : Host) (k : GoString) (r : RawConfig) (rest : Dict RawConfig)
    (configs made : Dict Config)
    → make_configs host ((k, r) ∷ rest) configs ≡ ret (ok made)
    → (config : Config) × (config_of_raw host k r ≡ ret (ok config))
      × (make_configs host rest (Dict.put k config configs) ≡ ret (ok made))
unfolding make_configs
made_step host k r rest configs made h = and_then (config_of_raw host k r) _ h

make_configs-none :
    (host : Host) (raw : Dict RawConfig) (configs made : Dict Config) (key : GoString)
    → make_configs host raw configs ≡ ret (ok made)
    → Dict.get key raw ≡ none
    → Dict.get key made ≡ Dict.get key configs
unfolding Dict.get
make_configs-none host [] configs made key h e = unfold make_configs in cc h
make_configs-none host ((k, r) ∷ rest) configs made key h e =
    let step = made_step host k r rest configs made h in
    ground (
      arith,
      make_configs-none host rest (Dict.put k step.0 configs) made key step.2,
      get-put k key step.0 configs,
    )

make_configs-some :
    (host : Host) (raw : Dict RawConfig) (configs made : Dict Config) (key : GoString)
    (r : RawConfig)
    → IsMap raw
    → make_configs host raw configs ≡ ret (ok made)
    → Dict.get key raw ≡ some r
    → (config : Config) × (config_of_raw host key r ≡ ret (ok config))
      × (Dict.get key made ≡ some config)
unfolding Dict.get
make_configs-some host [] configs made key r m h e = absurd (cc e)
make_configs-some host ((k, s) ∷ rest) configs made key r m h e =
    let step = made_step host k s rest configs made h in
    elim (Bool-cases (str_eq k key)) [
      | inl same ↦
          let k_key : k ≡ key = (str_eq_iff k key).0 same in
          let s_r : s ≡ r = cc (rw same at e) in
          (
            step.0,
            sym (ap (λ x. config_of_raw host x r) k_key)
                ∙ sym (ap (config_of_raw host k) s_r)
                ∙ step.1,
            make_configs-none host rest _ made key step.2
                  (sym (ap (λ x. Dict.get x rest) k_key) ∙ m.0)
                ∙ get-put k key step.0 configs
                ∙ rw same refl,
          )
      | inr other ↦ make_configs-some host rest _ made key r m.1 step.2 (rw other at e)
    ]

-- A config made of a value matches whatever the context and the environment are, with that value.
evaluate_config-config_of_value :
    (cve : ConfigRuleEvaluator) (context : ContextValueGetter) (fuel : ℕ) (key : GoString)
    (value : ConfigValue)
    → evaluate_config cve context (suc fuel) (config_of_value key value)
      ≡ ret (record {
        match = value;
        row_index = some 0;
        conditional_value_index = some 0;
        is_match = true;
      })
unfolding evaluate_config evaluate_with evaluate_rows no_env_row row_with_matching_env_id
    row_without_env_id has_env_id lacks_env_id evaluate_row evaluate_values
    evaluate_conditional_value all_criteria
evaluate_config-config_of_value cve context fuel key value = refl

config_of_raw-created :
    (key : GoString) (created : Outcome (ConfigValue × Bool)) {config : Config}
    → (created >>= λ c. ret (config_of_created key c)) ≡ ret (ok config)
    → (cv : ConfigValue) × (created ≡ ret (cv, true)) × (config ≡ config_of_value key cv)
unfolding config_of_created
config_of_raw-created key (ret (cv, true)) h = (cv, refl, cc h)
config_of_raw-created key (ret (cv, false)) h = absurd (cc h)
config_of_raw-created key panics h = absurd (cc h)
config_of_raw-created key unfinished h = absurd (cc h)

config_map-store_of :
    (env_id : ℤ) (configs : Outcome (Result (Dict Config))) {store : MemoryConfigStore}
    → (configs >>= λ c. ret (store_of env_id c)) ≡ ret (ok store)
    → configs ≡ ret (ok store.config_map)
config_map-store_of env_id (ret (ok c)) h = cc h
config_map-store_of env_id (ret (err e)) h = absurd (cc h)
config_map-store_of env_id panics h = absurd (cc h)
config_map-store_of env_id unfinished h = absurd (cc h)

-- Where a memory store is made of raw values, a key that is given a value which is not a config has a
-- config in the store; `Create` succeeds on the value, and whatever the context, the environment and
-- the other stores are, the config evaluates to the config value that `Create` gives.
pub new_memory_config_store-evaluates :
    (host : Host) (env_id : ℤ) (raw : Dict RawConfig) {store : MemoryConfigStore} (key : GoString)
    (value : Any) (cve : ConfigRuleEvaluator) (context : ContextValueGetter) (fuel : ℕ)
    → IsMap raw
    → new_memory_config_store host env_id raw ≡ ret (ok store)
    → Dict.get key raw ≡ some (of_value value)
    → (cv : ConfigValue) × (config : Config) × (create host value ≡ ret (cv, true))
      × ((as_getter store).get_config key ≡ some config)
      × (evaluate_config cve context (suc fuel) config
          ≡ ret (record {
            match = cv;
            row_index = some 0;
            conditional_value_index = some 0;
            is_match = true;
          }))
unfolding as_getter new_memory_config_store config_of_raw
new_memory_config_store-evaluates host env_id raw key value cve context fuel m h e =
    let stored = make_configs-some host raw [] _ key _ m (config_map-store_of env_id _ h) e in
    let made = config_of_raw-created key (create host value) stored.1 in
    (
      made.0,
      stored.0,
      made.1,
      stored.2,
      ap (evaluate_config cve context (suc fuel)) made.2
          ∙ evaluate_config-config_of_value cve context fuel key made.0,
    )
