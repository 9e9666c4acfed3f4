-- ===== src/Network/Http.antt =====
-- pkg/internal/httpclient.go. `send` is a GET request with its basic authentication: the status and the
-- body, none where the body cannot be read.
pub mod Loading
use prefab_cloud_go.Prelude.{
  ℕ, zero, suc, ◌+◌, ◌-◌, ◌*◌, ◌/◌, ◌%◌, ◌^◌, ◌≤◌, ◌<◌, ltb, leb, ◌==◌, bool_eq, if◌then◌else◌,
  ltb→lt, lt→ltb, leb→le, ==_iff, Bool-cases, Option-cases, length, get_elem?, length-append, All,
  any_of, ℤ, pos, negsuc, pos_part, neg_part, ◌≤ℤ◌, ◌<ℤ◌, ltb_ℤ, leb_ℤ, eq_ℤ, eq_ℤ_iff, GoString,
  codes, str_eq, str_eq_iff, str_eq_refl, str_lt, has_prefix, has_suffix, contains, join, split,
  cons_first, upper_byte, lower_byte, has_prefix_iff, Outcome, ret, panics, unfinished, ◌>>=◌,
  >>=-eq-ret, ◌≡◌, refl, sym, ap, ◌∙◌, ◌≢◌, ◌↔◌, ◌⊎◌, inl, inr, Bool, true, false, not, ◌&&◌, ◌||◌,
  Option, none, some, List, [], ◌∷◌, ◌++◌, map, arith,
}
use prefab_cloud_go.Prelude.Decimal.{show_int}
use prefab_cloud_go.Errors.{Error, Result, ok, err}
use prefab_cloud_go.Proto.{Configs}
use prefab_cloud_go.Options.Settings.{
  Options, api_key_setting_or_env_var, prefab_api_url_env_var_or_setting,
}

pub record HttpClient : Type 0 where
  pub options : Options
  pub urls : List GoString

unfoldable pub http_client_of : Options → Result (List GoString) → Result HttpClient
http_client_of o (err e) = err e
http_client_of o (ok api_urls) = ok (record { options = o; urls = api_urls })

unfoldable pub build_http_client : (GoString → Option GoString) → Options → Result HttpClient
unfolding http_client_of
build_http_client lookup o = http_client_of o (prefab_api_url_env_var_or_setting lookup o)

-- The transport, and proto.Unmarshal of Configs.
pub record Server : Type 0 where
  pub send : GoString → GoString → Option (ℕ × Option GoString)
  pub unmarshal_configs : GoString → Option Configs

of_body : Server → Option GoString → Option Configs
of_body server none = none
of_body server (some body) = server.unmarshal_configs body

of_response : Server → Option (ℕ × Option GoString) → Option Configs
unfolding of_body
of_response server none = none
of_response server (some (status, body)) = if status == 200 then of_body server body else none

unfoldable pub load_from_uri : Server → GoString → GoString → Option Configs
unfolding of_response
load_from_uri server uri api_key = of_response server (server.send uri api_key)

-- `fmt.Sprintf("%s/api/v1/configs/%d", url, offset)`.
unfoldable pub configs_uri : GoString → ℤ → GoString
configs_uri url offset = url ++ (codes "/api/v1/configs/" ++ show_int offset)

-- The loop over the URLs: the first that answers ends it.
unfoldable pub load_from_any : Server → GoString → ℤ → List GoString → Result Configs
load_from_any server api_key offset [] = err Error.all_uris_failed
load_from_any server api_key offset (url ∷ urls) =
    elim (load_from_uri server (configs_uri url offset) api_key) [
      | some configs ↦ ok configs
      | none ↦ load_from_any server api_key offset urls
    ]

load_with_key : Server → ℤ → HttpClient → Options × Result GoString → HttpClient × Result Configs
load_with_key server offset c (o, err e) = (record c { options = o }, err e)
load_with_key server offset c (o, ok api_key) =
    (record c { options = o }, load_from_any server api_key offset c.urls)

unfoldable pub load :
    (GoString → Option GoString) → Server → ℤ → HttpClient → HttpClient × Result Configs
unfolding load_with_key
load lookup server offset c =
    load_with_key server offset c (api_key_setting_or_env_var lookup c.options)
