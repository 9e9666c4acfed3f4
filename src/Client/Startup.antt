-- ===== src/Client/Startup.antt =====
-- pkg/client.go: `NewClient`, which applies the options, builds the stores and closes the channel
-- `initializationComplete` unless a store loads in the background.
pub mod Offline
pub mod Panics
pub mod Alone
pub mod Race
use prefab_cloud_go.Prelude.{
  ℕ, zero, suc, ◌+◌, ◌-◌, ◌*◌, ◌/◌, ◌%◌, ◌^◌, ◌≤◌, ◌<◌, ltb, leb, ◌==◌, bool_eq, if◌then◌else◌,
  ltb→lt, lt→ltb, leb→le, ==_iff, Bool-cases, Option-cases, length, get_elem?, length-append, All,
  any_of, ℤ, pos, negsuc, pos_part, neg_part, ◌≤ℤ◌, ◌<ℤ◌, ltb_ℤ, leb_ℤ, eq_ℤ, eq_ℤ_iff, GoString,
  codes, str_eq, str_eq_iff, str_eq_refl, str_lt, has_prefix, has_suffix, contains, join, split,
  cons_first, upper_byte, lower_byte, has_prefix_iff, Outcome, ret, panics, unfinished, ◌>>=◌,
  >>=-eq-ret, ◌≡◌, refl, sym, ap, ◌∙◌, ◌≢◌, ◌↔◌, ◌⊎◌, inl, inr, Bool, true, false, not, ◌&&◌, ◌||◌,
  Option, none, some, List, [], ◌∷◌, ◌++◌, map, arith,
}
use prefab_cloud_go.Prelude.Dict.{Dict}
use prefab_cloud_go.Errors.{Error, Result, ok, err, unless_error}
use prefab_cloud_go.GoValue.{Host}
use prefab_cloud_go.Options.Sources.{ConfigSource, memory_store_key}
use prefab_cloud_go.Options.Settings.{Options, default_options}
use prefab_cloud_go.Options.Helpers.{ClientOption, apply_options}
use prefab_cloud_go.Stores.Memory.{RawConfig}
use prefab_cloud_go.Stores.Build.{World, ConfigStore, build_config_store}

-- The loop over the sources: the stores, and whether one loads in the background.
unfoldable pub build_stores :
    Host → World → Options → List ConfigSource → Outcome (Result (List ConfigStore × Bool))
build_stores host world o [] = ret (ok ([], false))
build_stores host world o (source ∷ sources) =
    unless_error (build_config_store host world o source) λ built.
      unless_error (build_stores host world o sources)
        λ others. ret (ok (built.0 ∷ others.0, built.1 || others.1))

abbrev pub has_configs : Dict RawConfig → Bool
has_configs [] = false
has_configs (config ∷ configs) = true

-- `(len(sources) > 1 || sources[0].Raw != MemoryStoreKey) && len(configs) > 0`.
unfoldable pub has_other_sources : List ConfigSource → Dict RawConfig → Outcome Bool
has_other_sources [] configs = panics
has_other_sources (source ∷ []) configs =
    ret (not (str_eq source.raw memory_store_key) && has_configs configs)
has_other_sources (source ∷ next ∷ sources) configs = ret (has_configs configs)

-- What `NewClient` returns: its options and stores, and whether the channel is closed.
pub record NewClient : Type 0 where
  pub options : Options
  pub config_stores : List ConfigStore
  pub initialized : Bool

checked_client : Options → List ConfigStore × Bool → Bool → Outcome (Result NewClient)
checked_client o built true = ret (err Error.configs_with_other_sources)
checked_client o (stores, any_async) false =
    ret (ok (record { options = o; config_stores = stores; initialized = not any_async }))

with_stores : Options → List ConfigStore × Bool → Outcome (Result NewClient)
unfolding checked_client
with_stores o built = has_other_sources o.sources o.configs >>= checked_client o built

pub with_options : Host → World → Result Options → Outcome (Result NewClient)
unfolding with_stores
with_options host world (err e) = ret (err e)
with_options host world (ok o) = unless_error (build_stores host world o o.sources) (with_stores o)

-- `uuid` is the random id of the instance.
unfoldable pub new_client : Host → World → GoString → List ClientOption → Outcome (Result NewClient)
unfolding with_options
new_client host world uuid opts =
    with_options host world (apply_options opts (default_options host world.lookup_env uuid))
