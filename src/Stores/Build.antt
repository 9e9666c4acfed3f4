-- ===== src/Stores/Build.antt =====
-- pkg/internal/stores/config_store.go, and the constructor of the API store.
pub mod Urls
use prefab_cloud_go.Prelude.{
  ℕ, zero, suc, ◌+◌, ◌-◌, ◌*◌, ◌/◌, ◌%◌, ◌^◌, ◌≤◌, ◌<◌, ltb, leb, ◌==◌, bool_eq, if◌then◌else◌,
  ltb→lt, lt→ltb, leb→le, ==_iff, Bool-cases, Option-cases, length, get_elem?, length-append, All,
  any_of, ℤ, pos, negsuc, pos_part, neg_part, ◌≤ℤ◌, ◌<ℤ◌, ltb_ℤ, leb_ℤ, eq_ℤ, eq_ℤ_iff, GoString,
  codes, str_eq, str_eq_iff, str_eq_refl, str_lt, has_prefix, has_suffix, contains, join, split,
  cons_first, upper_byte, lower_byte, has_prefix_iff, Outcome, ret, panics, unfinished, ◌>>=◌,
  >>=-eq-ret, ◌≡◌, refl, sym, ap, ◌∙◌, ◌≢◌, ◌↔◌, ◌⊎◌, inl, inr, Bool, true, false, not, ◌&&◌, ◌||◌,
  Option, none, some, List, [], ◌∷◌, ◌++◌, map, arith,
}
use prefab_cloud_go.Errors.{Error, Result, ok, err, unless_error}
use prefab_cloud_go.GoValue.{Host}
use prefab_cloud_go.Interfaces.{ConfigStoreGetter}
use prefab_cloud_go.Options.Sources.{ConfigSource, api_store, data_file, config_dump, memory}
use prefab_cloud_go.Options.Settings.{Options}
use prefab_cloud_go.Network.Http.{HttpClient, build_http_client}
use prefab_cloud_go.Network.Sse.{SseClient, build_sse_client}
use prefab_cloud_go.Stores.Api
use prefab_cloud_go.Stores.Api.{ApiConfigStore, new_api_config_store}
use prefab_cloud_go.Stores.Files
use prefab_cloud_go.Stores.Files.{
  FileHost, FileConfigStore, new_local_config_store, new_config_dump_config_store,
}
use prefab_cloud_go.Stores.Memory
use prefab_cloud_go.Stores.Memory.{MemoryConfigStore, new_memory_config_store}

-- os.LookupEnv, the FindStringIndex of `subdomainRegex`, and the files.
pub record World : Type 0 where
  pub lookup_env : GoString → Option GoString
  pub find_subdomain : GoString → Option (ℕ × ℕ)
  pub files : FileHost

pub data ConfigStore : Type 0 where
  of_api : ApiConfigStore → ConfigStore
  of_file : FileConfigStore → ConfigStore
  of_memory : MemoryConfigStore → ConfigStore

with_sse : Result SseClient → Outcome ApiConfigStore
with_sse (ok sse_client) = ret new_api_config_store
with_sse (err e) = panics

with_http : Result HttpClient → Result SseClient → Outcome ApiConfigStore
unfolding with_sse
with_http (ok http_client) sse = with_sse sse
with_http (err e) sse = panics

-- `NewAPIConfigStore`: an error of the clients is a panic.
unfoldable pub api_config_store_for : World → Options → Outcome ApiConfigStore
unfolding with_http
api_config_store_for world o =
    with_http (build_http_client world.lookup_env o)
      (build_sse_client world.lookup_env world.find_subdomain o)

-- The cases of `BuildConfigStore` whose stores load in the foreground.
unfoldable pub foreground_store :
    Host → World → Options → ConfigSource → Outcome (Result ConfigStore)
foreground_store host world o source =
    if str_eq source.store data_file
    then unless_error (new_local_config_store host world.files source.path)
        (λ store. ret (ok (of_file store)))
    else if str_eq source.store config_dump
    then unless_error (ret (new_config_dump_config_store world.files source.path o.project_env_id))
        (λ store. ret (ok (of_file store)))
    else if str_eq source.store memory
    then unless_error (new_memory_config_store host o.project_env_id o.configs)
        (λ store. ret (ok (of_memory store)))
    else ret (err Error.unknown_store)

-- The store, and whether it loads in the background.
unfoldable pub build_config_store :
    Host → World → Options → ConfigSource → Outcome (Result (ConfigStore × Bool))
build_config_store host world o source =
    if str_eq source.store api_store
    then (api_config_store_for world o >>= λ store. ret (ok (of_api store, true)))
    else unless_error (foreground_store host world o source) (λ store. ret (ok (store, false)))
