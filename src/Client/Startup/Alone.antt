-- ===== src/Client/Startup/Alone.antt =====
-- A client with one source, in memory.
use prefab_cloud_go.Prelude.{
  ℕ, suc, any_of, GoString, str_eq, ret, ◌≡◌, sym, ap, ◌∙◌, Bool, true, false, not, ◌||◌, none,
  some, List, [], ◌∷◌, arith,
}
use prefab_cloud_go.Prelude.Dict
use prefab_cloud_go.Prelude.Dict.{Dict, IsMap}
use prefab_cloud_go.Errors.{ok, unless_error, unless_error-eq-ok}
use prefab_cloud_go.GoValue.{Any, Host}
use prefab_cloud_go.Options.Settings.{Options, default_options, no_telemetry}
use prefab_cloud_go.Options.Sources.Parsing.{memory_source}
use prefab_cloud_go.Options.Helpers.Offline.{with_configs_lem}
use prefab_cloud_go.Options.Helpers.{ClientOption, apply_options, with_configs}
use prefab_cloud_go.Stores.Memory.{RawConfig, of_value, MemoryConfigStore, new_memory_config_store}
use prefab_cloud_go.Stores.Memory
use prefab_cloud_go.Stores.Memory.Evaluation.{new_memory_config_store-evaluates}
use prefab_cloud_go.Interfaces.{ContextValueGetter}
use prefab_cloud_go.Evaluator.{ConfigRuleEvaluator, evaluate_config}
use prefab_cloud_go.Proto.{Config, ConfigValue}
use prefab_cloud_go.ConfigValues.{create}
use prefab_cloud_go.Stores.Build.{
  World, ConfigStore, build_config_store, of_memory, foreground_store,
}
use prefab_cloud_go.Client.Startup.{build_stores, NewClient, new_client}
use prefab_cloud_go.Client.Startup.Offline.{build_stores-any_of, with_options-ok}

apply_one :
    (opt : ClientOption) (before behind : Options)
    → opt before ≡ (behind, none)
    → apply_options (opt ∷ []) before ≡ ok behind
unfolding apply_options
apply_one opt before behind h = ground (arith, h)

memory_built :
    (host : Host) (world : World) (o : Options) {built : ConfigStore × Bool}
    → build_config_store host world o memory_source ≡ ret (ok built)
    → (store : MemoryConfigStore) × (new_memory_config_store host o.project_env_id o.configs
        ≡ ret (ok store))
      × (built.0 ≡ of_memory store)
unfolding build_config_store foreground_store str_eq
memory_built host world o {built} h =
    let (made, e, last) =
      unless_error-eq-ok
        (unless_error (new_memory_config_store host o.project_env_id o.configs)
          (λ store. ret (ok (of_memory store))))
        (λ store. ret (ok (store, false))) h in
    let (store, e', last') =
      unless_error-eq-ok (new_memory_config_store host o.project_env_id o.configs)
        (λ store. ret (ok (of_memory store))) e in
    let same : (made, false) ≡ built = cc last in
    let same' : of_memory store ≡ made = cc last' in
    (store, e', sym (ap (λ b. b.0) same) ∙ sym same')

memory_alone :
    (host : Host) (world : World) (o : Options) {built : List ConfigStore × Bool}
    → build_stores host world o (memory_source ∷ []) ≡ ret (ok built)
    → (store : MemoryConfigStore) × (new_memory_config_store host o.project_env_id o.configs
        ≡ ret (ok store))
      × (built.0 ≡ of_memory store ∷ [])
unfolding build_stores
memory_alone host world o {built} h =
    let (first, e, last) =
      unless_error-eq-ok (build_config_store host world o memory_source)
        (λ b.
          unless_error {A = List ConfigStore × Bool} (ret (ok ([], false)))
            (λ others. ret (ok (b.0 ∷ others.0, b.1 || others.1))))
        h in
    let (store, made, is_it) = memory_built host world o e in
    let same : (first.0 ∷ [], first.1 || false) ≡ built = cc last in
    (store, made, sym (ap (λ b. b.0) same) ∙ ap (λ s. s ∷ []) is_it)

-- A client that is made with `WithConfigs` alone, of a map in which each key stands once, and the default
-- options: it is initialized at once; it has one
-- store, in memory; and where a key is given a value that is not a config, the store has a config for
-- the key that evaluates to what `Create` makes of the value, whatever the context, the environment and the
-- other stores are.
pub new_client-with_configs :
    (host : Host) (world : World) (uuid : GoString) (configs : Dict RawConfig) (key : GoString)
    (value : Any) (cve : ConfigRuleEvaluator) (context : ContextValueGetter) (fuel : ℕ)
    {client : NewClient}
    → IsMap configs
    → new_client host world uuid (with_configs configs ∷ []) ≡ ret (ok client)
    → Dict.get key configs ≡ some (of_value value)
    → (client.initialized ≡ true)
      × ((store : MemoryConfigStore) × (client.config_stores ≡ of_memory store ∷ [])
          × ((cv : ConfigValue) × (config : Config) × (create host value ≡ ret (cv, true))
              × ((Memory.as_getter store).get_config key ≡ some config)
              × (evaluate_config cve context (suc fuel) config
                  ≡ ret (record {
                    match = cv;
                    row_index = some 0;
                    conditional_value_index = some 0;
                    is_match = true;
                  }))))
unfolding new_client any_of str_eq
new_client-with_configs host world uuid configs key value cve context fuel {client} m h given =
    let d : Options = default_options host world.lookup_env uuid in
    let o : Options = record d {
      context_telemetry_mode = no_telemetry;
      sources = memory_source ∷ [];
      configs = configs;
    } in
    let applied = apply_one (with_configs configs) d o (with_configs_lem configs d) in
    let (applied', _, (any_async, e, state)) =
      with_options-ok host world (apply_options (with_configs configs ∷ []) d) h in
    let same : o ≡ client.options = cc (sym applied ∙ applied') in
    let built = ap (λ x. build_stores host world x x.sources) same ∙ e in
    let (store, made, stores) = memory_alone host world o built in
    let idle = build_stores-any_of host world o (memory_source ∷ []) built in
    (
      state ∙ ap not idle.0,
      (
        store,
        stores,
        new_memory_config_store-evaluates host o.project_env_id configs key value cve context fuel m
            made given,
      ),
    )
