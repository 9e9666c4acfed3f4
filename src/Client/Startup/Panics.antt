-- ===== src/Client/Startup/Panics.antt =====
-- The run-time panics of `NewClient`.
use prefab_cloud_go.Prelude.{All, ret, panics, ◌≡◌, ◌⊎◌, Bool, List, ◌∷◌, ◌++◌}
use prefab_cloud_go.Errors.{ok}
use prefab_cloud_go.GoValue.{Host}
use prefab_cloud_go.Options.Sources.{ConfigSource, api_store, data_file, memory}
use prefab_cloud_go.Options.Settings.{Options, prefab_api_url_env_var_or_setting}
use prefab_cloud_go.Stores.Files.{new_local_config_store}
use prefab_cloud_go.Stores.Memory.{new_memory_config_store}
use prefab_cloud_go.Stores.Build.{World, ConfigStore, build_config_store}
use prefab_cloud_go.Stores.Build.Urls.{IsWithoutUrl}

-- The store of a source panics: the API without a URL, or the parser of a file, or the values of WithConfigs.
abbrev pub IsPanicking : Host → World → Options → ConfigSource → Type 0
IsPanicking host world o source =
    ((source.store ≡ api_store)
      × IsWithoutUrl (prefab_api_url_env_var_or_setting world.lookup_env o))
    ⊎ (((source.store ≡ data_file) × (new_local_config_store host world.files source.path ≡ panics))
        ⊎ ((source.store ≡ memory)
            × (new_memory_config_store host o.project_env_id o.configs ≡ panics)))

abbrev pub IsBuilt : Host → World → Options → ConfigSource → Type 0
IsBuilt host world o source =
    (built : ConfigStore × Bool) × (build_config_store host world o source ≡ ret (ok built))

-- One of the sources panics, and the stores of those before it are built.
abbrev pub SomePanics : Host → World → Options → List ConfigSource → Type 0
SomePanics host world o sources =
    (before : List ConfigSource) × (source : ConfigSource) × (after : List ConfigSource) × (sources
      ≡ before ++ (source ∷ after))
    × All (IsBuilt host world o) before
    × IsPanicking host world o source
