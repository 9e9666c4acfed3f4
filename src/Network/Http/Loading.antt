-- ===== src/Network/Http/Loading.antt =====
-- Which answer `Load` gives.
use prefab_cloud_go.Prelude.{
  ℤ, GoString, ◌≡◌, refl, ◌↔◌, ◌⊎◌, true, false, Option, none, some, List, [], ◌∷◌, arith,
}
use mathlib.Core.Path.{subst}
use prefab_cloud_go.Errors.{Result, ok, err}
use prefab_cloud_go.Proto.{Configs}
use prefab_cloud_go.Options.Settings.{Options, api_key_setting_or_env_var}
use prefab_cloud_go.Network.Http.{
  HttpClient, Server, load_from_uri, configs_uri, load_from_any, load_with_key, load,
}

-- The configs that the first of the URLs to answer gives: those before it fail.
abbrev pub FirstAnswer : Server → GoString → ℤ → List GoString → Configs → Type 0
FirstAnswer server api_key offset [] configs = true ≡ false
FirstAnswer server api_key offset (url ∷ urls) configs =
    (load_from_uri server (configs_uri url offset) api_key ≡ some configs)
    ⊎ ((load_from_uri server (configs_uri url offset) api_key ≡ none)
        × FirstAnswer server api_key offset urls configs)

load_from_any_iff :
    (server : Server) (api_key : GoString) (offset : ℤ) (urls : List GoString) (configs : Configs)
    → (load_from_any server api_key offset urls ≡ ok configs)
      ↔ FirstAnswer server api_key offset urls configs
unfolding load_from_any
load_from_any_iff server api_key offset [] configs = ground arith
load_from_any_iff server api_key offset (url ∷ urls) configs =
    ground (arith, load_from_any_iff server api_key offset urls configs)

of_key_iff :
    (server : Server) (offset : ℤ) (c : HttpClient) (configs : Configs)
    (k : Options × Result GoString)
    → ((load_with_key server offset c k).1 ≡ ok configs) ↔ (
        (api_key : GoString) × (k.1 ≡ ok api_key)
        × FirstAnswer server api_key offset c.urls configs)
unfolding load_with_key
of_key_iff server offset c configs (o, err e) = (λ h. absurd (cc h), λ a. absurd (cc (a.1)))
of_key_iff server offset c configs (o, ok api_key) = (
  λ h. (api_key, refl, (load_from_any_iff server api_key offset c.urls configs).0 h),
  λ a.
      let same : a.0 ≡ api_key = cc (a.1) in
      (load_from_any_iff server api_key offset c.urls configs).1
        (subst (λ k. FirstAnswer server k offset c.urls configs) same a.2),
)

-- `Load` gives configs exactly where there is an API key, and then those of the first URL that answers.
pub load_iff :
    (lookup : GoString → Option GoString) (server : Server) (offset : ℤ) (c : HttpClient)
    (configs : Configs)
    → ((load lookup server offset c).1 ≡ ok configs) ↔ (
        (api_key : GoString) × ((api_key_setting_or_env_var lookup c.options).1 ≡ ok api_key)
        × FirstAnswer server api_key offset c.urls configs)
unfolding load
load_iff lookup server offset c configs =
    of_key_iff server offset c configs (api_key_setting_or_env_var lookup c.options)
