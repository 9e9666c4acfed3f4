-- ===== src/Stores/Build/Urls.antt =====
-- When the API store cannot be made.
use prefab_cloud_go.Prelude.{
  ℕ, All, GoString, panics, ◌≡◌, refl, ◌↔◌, ◌⊎◌, inl, inr, Option, some, List, [], ◌∷◌, arith,
}
use prefab_cloud_go.Errors.{Error, Result, ok, err}
use prefab_cloud_go.Options.Settings.{
  Options, getenv, api_url_var, url_override, prefab_api_url_env_var_or_setting,
}
use prefab_cloud_go.Options.Settings.Urls.{IsBlank, no_urls_iff, no_variable-ok}
use prefab_cloud_go.Network.Http.{build_http_client, http_client_of}
use prefab_cloud_go.Network.Sse.{build_sse_client, sse_client_of}
use prefab_cloud_go.Stores.Build.{World, with_sse, with_http, api_config_store_for}

-- The options and the environment name no URL of the API.
abbrev pub IsWithoutUrl : Result (List GoString) → Type 0
IsWithoutUrl urls = (urls ≡ ok []) ⊎ ((e : Error) × (urls ≡ err e))

of_urls :
    (find : GoString → Option (ℕ × ℕ)) (o : Options) (urls : Result (List GoString))
    → (with_http (http_client_of o urls) (sse_client_of find o urls) ≡ panics) ↔ IsWithoutUrl urls
unfolding with_http with_sse http_client_of sse_client_of
of_urls find o (err e) = (λ h. inr (e, refl), λ h. refl)
of_urls find o (ok []) = (λ h. inl refl, λ h. refl)
of_urls find o (ok (url ∷ urls)) = ground arith

-- Without a variable of the environment that names API URLs, and with options that name some: to make the API
-- store is a run-time panic exactly where all of these are blank.
pub api_config_store_for_panics_iff :
    (world : World) (o : Options) (urls : List GoString)
    → o.api_urls ≡ some urls
    → getenv world.lookup_env api_url_var ≡ []
    → getenv world.lookup_env url_override ≡ []
    → (api_config_store_for world o ≡ panics) ↔ All IsBlank urls
unfolding api_config_store_for build_http_client build_sse_client
api_config_store_for_panics_iff world o urls named unset not_overridden = ground (
  arith,
  of_urls world.find_subdomain o (prefab_api_url_env_var_or_setting world.lookup_env o),
  no_urls_iff world.lookup_env o urls named,
  no_variable-ok world.lookup_env o,
)

-- Whatever the options and the environment are, the API store panics exactly where they name no URL.
pub api_config_store_for-IsWithoutUrl :
    (world : World) (o : Options)
    → (api_config_store_for world o ≡ panics)
      ↔ IsWithoutUrl (prefab_api_url_env_var_or_setting world.lookup_env o)
unfolding api_config_store_for build_http_client build_sse_client
api_config_store_for-IsWithoutUrl world o =
    of_urls world.find_subdomain o (prefab_api_url_env_var_or_setting world.lookup_env o)
